-- ===== src/Store/Audit.antt =====
-- internal/store/workflows.go: the audit events.
pub mod Laws
use cert_keeper.Prelude.{
  ℕ, ◌+◌, Text, Bool, true, false, not, ◌&&◌, ◌||◌, ◌==◌, nat_eq, text_eq, Option, none, some,
  Result, ok, err, is_blank, is_empty, any, filter, List, [], ◌∷◌, ◌++◌, if◌then◌else◌, ltb, take,
  drop,
}
use cert_keeper.Prelude.Int.{ℤ, pos_part}
use cert_keeper.Store.Sql.{order_by, find}
use cert_keeper.Store.Schema.{Db, StoreError, invalid_argument, no_rows, foreign_key}
use cert_keeper.Store.Domains.{is_certificate_domain}
use cert_keeper.Store.Jobs.Values.{member_text}
use cert_keeper.Store.Jobs.Lease.{bounded_limit}

-- A row of audit_events; `none` is NULL.
pub record AuditEvent : Type 0 where
  pub id : ℕ
  pub actor_token_id : Option Text
  pub domain : Option Text
  pub action : Text
  pub outcome : Text
  pub detail : Option Text
  pub created_at : ℕ

pub record AuditFilter : Type 0 where
  pub actor_token_id : Text
  pub domain : Text
  pub action : Text
  pub limit : ℤ
  pub offset : ℤ

-- The table, and the next id that it draws.
pub record Events : Type 0 where
  pub rows : List AuditEvent
  pub next_id : ℕ

abbrev pub none_or {ℓ} : {A : Type ℓ} → (A → Bool) → Option A → Bool
none_or p none = true
none_or p (some a) = p a

-- The tests of `AddAuditEvent`.
unfoldable pub is_recordable : AuditEvent → Bool
is_recordable e =
    not (is_blank e.action || is_blank e.outcome) && none_or is_certificate_domain e.domain

-- The token and the certificate that a row names are there.
abbrev pub names_known : Db → AuditEvent → Bool
names_known db e =
    none_or (λ t. member_text t db.tokens) e.actor_token_id
    && none_or (λ d. member_text d db.certs) e.domain

-- The event comes with the id 0; what is returned is the id drawn.
unfoldable pub add_audit_event : Db → Events → ℕ → Option AuditEvent → Events × Result StoreError ℕ
add_audit_event db t now none = (t, err invalid_argument)
add_audit_event db t now (some e) =
    if not (is_recordable e)
    then (t, err invalid_argument)
    else if names_known db e
    then (
      record t {
        rows =
            t.rows
            ++ record e {
              id = t.next_id;
              created_at = if e.created_at == 0 then now else e.created_at;
            }
              ∷ [];
        next_id = t.next_id + 1;
      },
      ok t.next_id,
    )
    else (t, err foreign_key)

-- `column=?`, which NULL does not satisfy, where the filter is not empty.
abbrev pub column_matches : Text → Option Text → Bool
column_matches [] column = true
column_matches (c ∷ s) none = false
column_matches (c ∷ s) (some value) = value == (c ∷ s)

abbrev pub event_matches : AuditFilter → AuditEvent → Bool
event_matches f e =
    column_matches f.actor_token_id e.actor_token_id
    && column_matches f.domain e.domain
    && column_matches f.action (some e.action)

-- `ORDER BY created_at DESC, id DESC`.
abbrev pub event_before : AuditEvent → AuditEvent → Bool
event_before a b = ltb b.created_at a.created_at || (a.created_at == b.created_at && ltb b.id a.id)

abbrev pub non_negative : ℤ → ℕ
non_negative value = pos_part value

unfoldable pub list_audit_events : Events → AuditFilter → List AuditEvent
list_audit_events t f =
    take (bounded_limit f.limit)
      (drop (non_negative f.offset) (order_by event_before (filter (event_matches f) t.rows)))

unfoldable pub get_audit_event : Events → ℕ → Option AuditEvent
get_audit_event t id = find (λ e. e.id == id) t.rows

unfoldable pub delete_audit_event : Events → ℕ → Events × Result StoreError (Unit {0})
delete_audit_event t id =
    if any (λ e. e.id == id) t.rows
    then (record t { rows = filter (λ e. not (e.id == id)) t.rows }, ok tt)
    else (t, err no_rows)
