-- ===== src/Store/Audit/Laws.antt =====
-- What is listed of the audit events.
use cert_keeper.Prelude.{
  ℕ, ◌≤◌, true, false, ◌&&◌, ◌||◌, ◌==◌, nat_eq, List, ◌≡◌, arith, length, drop, filter, All, ltb,
}
use cert_keeper.Prelude.Int.{ℤ, pos, negsuc}
use cert_keeper.Store.Sql.{order_by}
use cert_keeper.Store.Sql.Order.{
  length-take, All-take, All-drop, AllPairs-take, AllPairs-drop, All-order_by, filter-All,
  order_by-sorted,
}
use cert_keeper.Store.Sql.Laws.{AllPairs}
use cert_keeper.Store.Jobs.Lease.{bounded_limit}
use cert_keeper.Store.Audit

-- What a page of events is: no more than 500 of them, those that the filter asks for, the latest first.
pub record IsPage (f : Audit.AuditFilter) (events : List Audit.AuditEvent) : Type 0 where
  pub bounded : length events ≤ 500
  pub asked_for : All (λ e. Audit.event_matches f e ≡ true) events
  pub sorted : AllPairs (λ a b. Audit.event_before b a ≡ false) events

bounded_limit-le : (limit : ℤ) → bounded_limit limit ≤ 500
bounded_limit-le (pos n) = ground arith
bounded_limit-le (negsuc n) = ground arith

le_trans : {a b c : ℕ} → a ≤ b → b ≤ c → a ≤ c
le_trans h k = ground arith

later_chain_of :
    (a b c i j k : ℕ)
    → (ltb a b || (b == a && ltb i j)) ≡ false
    → (ltb b c || (c == b && ltb j k)) ≡ false
    → (ltb a c || (c == a && ltb i k)) ≡ false
later_chain_of a b c i j k h l = ground arith

later_asym_of :
    (a b i j : ℕ)
    → (ltb b a || (a == b && ltb j i)) ≡ true
    → (ltb a b || (b == a && ltb i j)) ≡ false
later_asym_of a b i j h = ground arith

later_chain :
    (a b c : Audit.AuditEvent)
    → Audit.event_before b a ≡ false
    → Audit.event_before c b ≡ false
    → Audit.event_before c a ≡ false
later_chain a b c h k = later_chain_of a.created_at b.created_at c.created_at a.id b.id c.id h k

later_asym :
    (a b : Audit.AuditEvent) → Audit.event_before a b ≡ true → Audit.event_before b a ≡ false
later_asym a b h = later_asym_of a.created_at b.created_at a.id b.id h

-- ListAuditEvents returns 500 events at most, all of them such as the filter asks for, and none
-- before one that is later, or that is as late and has a greater id.
pub list-IsPage :
    (t : Audit.Events) (f : Audit.AuditFilter) → IsPage f (Audit.list_audit_events t f)
unfolding Audit.list_audit_events
list-IsPage t f =
    let n = bounded_limit f.limit in
    let m = Audit.non_negative f.offset in
    let kept = filter (Audit.event_matches f) t.rows in
    let rows = order_by Audit.event_before kept in
    record {
      bounded = le_trans (length-take n (drop m rows)) (bounded_limit-le f.limit);
      asked_for =
          All-take (λ e. Audit.event_matches f e ≡ true) n (drop m rows)
            (All-drop (λ e. Audit.event_matches f e ≡ true) m rows
              (All-order_by (λ e. Audit.event_matches f e ≡ true) Audit.event_before kept
                (filter-All (Audit.event_matches f) t.rows)));
      sorted =
          AllPairs-take (λ a b. Audit.event_before b a ≡ false) n (drop m rows)
            (AllPairs-drop (λ a b. Audit.event_before b a ≡ false) m rows
              (order_by-sorted Audit.event_before later_chain later_asym kept));
    }
