-- ===== src/Protocol/Reconcile.antt =====
-- pkg/certproto/contract.go: the request of a reconcile.
use cert_keeper.Prelude.{
  Text, Bool, not, ◌&&◌, ◌||◌, ◌==◌, text_eq, ok, ◌>>=◌, ◌>>◌, refuse, ltb, length, is_empty,
  Result,
}
use cert_keeper.Protocol.Errors.{Check, ErrorCode, invalid_request, conflict}
use cert_keeper.Protocol.Codec.{Codec, unmarshal_strict}
use cert_keeper.Protocol.Identifiers.{validate_idempotency_key, has_control}

pub record ReconcileRequest : Type 0 where
  pub idempotency_key : Text
  pub force : Bool
  pub operation : Text
  pub reason : Text

unfoldable pub validate_request : ReconcileRequest → Check
validate_request r = do
  validate_idempotency_key r.idempotency_key
  refuse (ltb 64 (length r.operation) || has_control r.operation) invalid_request
  refuse (ltb 256 (length r.reason) || has_control r.reason) invalid_request

unfoldable pub validate_for_new_attempt : ReconcileRequest → Text → Check
unfolding validate_request
validate_for_new_attempt r previous_idempotency_key = do
  validate_request r
  refuse
      (r.force
        && not (is_empty previous_idempotency_key)
        && r.idempotency_key == previous_idempotency_key)
      conflict

module _ {Wire : Type 0} (codec : Codec Wire ReconcileRequest) where
  unfoldable pub unmarshal_request : Wire → Result ErrorCode ReconcileRequest
  unmarshal_request bytes = do
    decoded ← unmarshal_strict codec bytes
    validate_request decoded
    ok decoded

  unfoldable pub marshal_request : ReconcileRequest → Result ErrorCode Wire
  marshal_request r = do validate_request r; ok (codec.encode r)
