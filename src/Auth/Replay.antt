-- ===== src/Auth/Replay.antt =====
-- A request that was accepted is not accepted again.
use cert_keeper.Prelude.{
  ℕ, ◌+◌, ◌≤◌, ◌<◌, ◌==◌, text_eq, Text, Bool, true, false, ◌&&◌, leb, ok, err, List, [], ◌∷◌, ◌++◌,
  any, filter, ◌≡◌, ◌⊎◌, inl, inr, refl, arith, All, if_either, Bool-cases, text_beq_iff,
}
use cert_keeper.Prelude.Int.{ℤ, pos, negsuc}
use cert_keeper.Auth.{
  Request, Token, Tables, Policy, Signing, not_authenticated, Authenticated, Headers, check_headers,
  parse_timestamp, in_window, authenticate, clean_old_nonces, kept_nonces, consume_nonce, consumed,
  verified, verify_headers, verify_token_body,
}

-- What may happen to the tables of a server, with the clock's reading.
pub data Event : Type 0 where
  requests : Request → Event
  cleans : ℕ → Event

unfoldable pub happen : Signing → Policy → Tables → ℕ × Event → Tables
happen signing policy s (now, requests r) = (verify_token_body signing policy now s r).0
happen signing policy s (now, cleans before) = clean_old_nonces before s

unfoldable pub happen_all : Signing → Policy → Tables → List (ℕ × Event) → Tables
happen_all signing policy s [] = s
happen_all signing policy s (e ∷ es) = happen_all signing policy (happen signing policy s e) es

-- An event no later than that; a cleaning spares the nonces younger than their time to live.
abbrev pub IsBefore : Policy → ℕ → ℕ × Event → Type 0
IsBefore policy later (now, requests r) = now ≤ later
IsBefore policy later (now, cleans before) = before + policy.nonce_ttl ≤ later

-- A row of the nonce that lives until then.
abbrev is_held : ℕ → ℕ → Text → Text × ℕ → Bool
is_held ttl later nonce n = n.0 == nonce && leb later (n.1 + ttl)

module _ {A : Type 0} where
  any-filter :
      (p q : A → Bool) (xs : List A)
      → ((x : A) → p x ≡ true → q x ≡ true)
      → any p xs ≡ true
      → any p (filter q xs) ≡ true
  any-filter p q [] h e = e
  any-filter p q (x ∷ xs) h e = ground (arith, h x, any-filter p q xs h)

  any-left : (p : A → Bool) (xs ys : List A) → any p xs ≡ true → any p (xs ++ ys) ≡ true
  any-left p [] ys e = absurd cc
  any-left p (x ∷ xs) ys e = ground (arith, any-left p xs ys)

  any-last : (p : A → Bool) (xs : List A) (x : A) → p x ≡ true → any p (xs ++ x ∷ []) ≡ true
  any-last p [] x e = ground (arith, e)
  any-last p (y ∷ ys) x e = ground (arith, any-last p ys x e)

  any-weaker :
      (p q : A → Bool) (xs : List A)
      → ((x : A) → p x ≡ true → q x ≡ true)
      → any p xs ≡ true
      → any q xs ≡ true
  any-weaker p q [] h e = e
  any-weaker p q (x ∷ xs) h e = ground (arith, h x, any-weaker p q xs h)

module _ (signing : Signing) (policy : Policy) (later : ℕ) (nonce : Text) where
  IsHeld : Tables → Type 0
  IsHeld s = any (is_held policy.nonce_ttl later nonce) s.nonces ≡ true

  kept-IsHeld :
      (now : ℕ) (nonces : List (Text × ℕ))
      → now ≤ later
      → any (is_held policy.nonce_ttl later nonce) nonces ≡ true
      → any (is_held policy.nonce_ttl later nonce) (kept_nonces policy.nonce_ttl now nonces) ≡ true
  kept-IsHeld now nonces le h =
      any-filter (is_held policy.nonce_ttl later nonce) _ nonces (λ n k. ground arith) h

  consume-IsHeld :
      (now : ℕ) (other : Text) (s : Tables)
      → now ≤ later
      → IsHeld s
      → IsHeld (consume_nonce policy.nonce_ttl now other s).0
  unfolding consume_nonce IsHeld
  consume-IsHeld now other s le h =
      if_either
        (λ (x : Tables × Bool). any (is_held policy.nonce_ttl later nonce) x.0.nonces ≡ true)
        (any (λ (n : Text × ℕ). n.0 == other) (kept_nonces policy.nonce_ttl now s.nonces))
        (kept-IsHeld now s.nonces le h)
        (any-left _ (kept_nonces policy.nonce_ttl now s.nonces) _ (kept-IsHeld now s.nonces le h))

  consumed-same : (t : Token) (x : Tables × Bool) → (consumed t x).0 ≡ x.0
  consumed-same t (s, true) = refl
  consumed-same t (s, false) = refl

  verified-IsHeld :
      (now : ℕ) (s : Tables) (h : Headers) (a : Authenticated Token)
      → now ≤ later
      → IsHeld s
      → IsHeld (verified policy now s h a).0
  verified-IsHeld now s h (err e) le k = k
  verified-IsHeld now s h (ok t) le k =
      rw (consumed-same t (consume_nonce policy.nonce_ttl now h.nonce s))
        (consume-IsHeld now h.nonce s le k)

  headers-IsHeld :
      (now : ℕ) (s : Tables) (r : Request) (a : Authenticated Headers)
      → now ≤ later
      → IsHeld s
      → IsHeld (verify_headers signing policy now s r a).0
  headers-IsHeld now s r (err e) le k = k
  headers-IsHeld now s r (ok h) le k =
      verified-IsHeld now s h (authenticate signing policy now s r h) le k

  happen-IsHeld :
      (s : Tables) (e : ℕ × Event)
      → IsBefore policy later e
      → IsHeld s
      → IsHeld (happen signing policy s e)
  unfolding happen verify_token_body clean_old_nonces IsHeld
  happen-IsHeld s (now, requests r) le k = headers-IsHeld now s r (check_headers r) le k
  happen-IsHeld s (now, cleans before) le k =
      any-filter (is_held policy.nonce_ttl later nonce) _ s.nonces (λ n h. ground arith) k

  happen_all-IsHeld :
      (s : Tables) (es : List (ℕ × Event))
      → All (IsBefore policy later) es
      → IsHeld s
      → IsHeld (happen_all signing policy s es)
  unfolding happen_all
  happen_all-IsHeld s [] h k = k
  happen_all-IsHeld s (e ∷ es) (h, hs) k =
      happen_all-IsHeld (happen signing policy s e) es hs (happen-IsHeld s e h k)

  -- What the acceptance of a request leaves.
  consume-adds :
      (now : ℕ) (s : Tables) (t t' : Token)
      → later ≤ now + policy.nonce_ttl
      → (consumed t (consume_nonce policy.nonce_ttl now nonce s)).1 ≡ ok t'
      → IsHeld (consumed t (consume_nonce policy.nonce_ttl now nonce s)).0
  unfolding consume_nonce IsHeld
  consume-adds now s t t' le h =
      elim (Bool-cases
        (any (λ (n : Text × ℕ). n.0 == nonce) (kept_nonces policy.nonce_ttl now s.nonces))) [
          | inl known ↦ let refused = rw known at h in absurd cc
          | inr new ↦ rw new (
              any-last (is_held policy.nonce_ttl later nonce)
                (kept_nonces policy.nonce_ttl now s.nonces) (nonce, now)
                (ground (arith, le, text_beq_iff nonce nonce)))
        ]

  verified-adds :
      (now : ℕ) (s : Tables) (h : Headers) (a : Authenticated Token) (t : Token)
      → h.nonce ≡ nonce
      → later ≤ now + policy.nonce_ttl
      → (verified policy now s h a).1 ≡ ok t
      → IsHeld (verified policy now s h a).0
  verified-adds now s h (err e) t same le accepted = absurd cc
  verified-adds now s h (ok t') t same le accepted =
      rw same (consume-adds now s t' t le (rw same at accepted))

  -- A nonce that is held is not consumed again.
  consume-refused :
      (s : Tables) (t : Token)
      → IsHeld s
      → (consumed t (consume_nonce policy.nonce_ttl later nonce s)).1 ≡ err not_authenticated
  unfolding consume_nonce IsHeld
  consume-refused s t k =
      let kept = kept-IsHeld later s.nonces (omega arith) k in
      let known =
        any-weaker (is_held policy.nonce_ttl later nonce) (λ (n : Text × ℕ). n.0 == nonce)
          (kept_nonces policy.nonce_ttl later s.nonces) (λ n h. ground arith) kept in
      rw known refl

  verified-refused :
      (s : Tables) (h : Headers) (a : Authenticated Token)
      → h.nonce ≡ nonce
      → IsHeld s
      → (verified policy later s h a).1 ≡ err not_authenticated
  verified-refused s h (err not_authenticated) same k = refl
  verified-refused s h (ok t) same k = rw same (consume-refused s t k)

late_out :
    (window : ℤ) (ttl now later ts : ℕ)
    → in_window window now ts ≡ true
    → ((m : ℕ) → window ≡ pos m → ts + m ≤ now + ttl)
    → now + ttl < later
    → in_window window later ts ≡ false
unfolding in_window
late_out (pos m) ttl now later ts h bound late =
    let fits = bound m refl in ground (arith, fits, late)
late_out (negsuc n) ttl now later ts h bound late = refl

authenticate-late :
    (signing : Signing) (policy : Policy) (now : ℕ) (s : Tables) (r : Request) (h : Headers)
    (ts : ℕ)
    → parse_timestamp h.timestamp ≡ ok ts
    → in_window policy.window now ts ≡ false
    → authenticate signing policy now s r h ≡ err not_authenticated
unfolding authenticate
authenticate-late signing policy now s r h ts parsed out = rw (parsed, out) refl

verified-window :
    (signing : Signing) (policy : Policy) (now : ℕ) (s : Tables) (r : Request) (h : Headers)
    (ts : ℕ) (t : Token)
    → parse_timestamp h.timestamp ≡ ok ts
    → (verified policy now s h (authenticate signing policy now s r h)).1 ≡ ok t
    → in_window policy.window now ts ≡ true
verified-window signing policy now s r h ts t parsed accepted =
    elim (Bool-cases (in_window policy.window now ts)) [
      | inl inside ↦ inside
      | inr out ↦
          let late = authenticate-late signing policy now s r h ts parsed out in
          let refused = rw late at accepted in absurd cc
    ]

-- A request that was accepted is refused when it comes again, at the same instant or later, whatever
-- other requests and cleanings of the nonces happen in between, if its timestamp leaves the window
-- no later than its nonce may be cleaned: with the timestamp `ts` and the window `m`, if `ts + m`
-- is no later than the instant of the acceptance and the time to live of a nonce.
pub verify-once :
    (signing : Signing) (policy : Policy) (now later : ℕ) (s : Tables) (r : Request) (h : Headers)
    (ts : ℕ) (t : Token) (events : List (ℕ × Event))
    → check_headers r ≡ ok h
    → parse_timestamp h.timestamp ≡ ok ts
    → ((m : ℕ) → policy.window ≡ pos m → ts + m ≤ now + policy.nonce_ttl)
    → (verify_token_body signing policy now s r).1 ≡ ok t
    → All (IsBefore policy later) events
    → (verify_token_body signing policy later
        (happen_all signing policy (verify_token_body signing policy now s r).0 events)
        r).1
      ≡ err not_authenticated
unfolding verify_token_body
verify-once signing policy now later s r h ts t events checked parsed bound accepted before =
    rw checked (again (Bool-cases (leb later (now + policy.nonce_ttl))))
  where
    first : (verified policy now s h (authenticate signing policy now s r h)).1 ≡ ok t
    first = rw checked at accepted

    again :
        (leb later (now + policy.nonce_ttl) ≡ true) ⊎ (leb later (now + policy.nonce_ttl) ≡ false)
        → (verified policy later
            (happen_all signing policy
              (verified policy now s h (authenticate signing policy now s r h)).0
              events)
            h
            (authenticate signing policy later
              (happen_all signing policy
                (verified policy now s h (authenticate signing policy now s r h)).0
                events)
              r
              h)).1
          ≡ err not_authenticated
    again (inl soon) = verified-refused signing policy later h.nonce _ h _ refl (
        happen_all-IsHeld signing policy later h.nonce _ events before (
          verified-adds signing policy later h.nonce now s h (authenticate signing policy now s r h)
            t refl (ground arith) first))
    again (inr late) =
        let out =
          late_out policy.window policy.nonce_ttl now later ts
            (verified-window signing policy now s r h ts t parsed first) bound (ground arith) in
        rw (authenticate-late signing policy later _ r h ts parsed out) refl
