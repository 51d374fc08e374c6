-- ===== src/Protocol/Codec.antt =====
-- pkg/certproto/contract.go: the JSON codec, a parameter of the model.
-- `encoding/json` turns a value into bytes and back; the wire format is not modelled.
use cert_keeper.Prelude.{Option, none, some, Result, ok, err}
use cert_keeper.Protocol.Errors.{ErrorCode, invalid_request}

pub record Codec (Wire A : Type 0) : Type 0 where
  pub encode : A → Wire
  pub decode : Wire → Option A

-- `unmarshalStrictJSON`: a value that does not decode is an invalid request.
abbrev pub unmarshal_strict : {Wire A : Type 0} → Codec Wire A → Wire → Result ErrorCode A
unmarshal_strict codec w = elim (codec.decode w) [ none ↦ err invalid_request | some a ↦ ok a ]
