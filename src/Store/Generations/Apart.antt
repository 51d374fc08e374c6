-- ===== src/Store/Generations/Apart.antt =====
-- Rows of certificate_generations of which at most one in a domain is current, and what a change of
-- one row does to them.
use cert_keeper.Prelude.{
  ℕ, ◌<◌, Text, Bool, true, false, not, ◌&&◌, ◌||◌, ◌==◌, nat_eq, text_eq, some, List, [], ◌∷◌,
  if◌then◌else◌, ◌≡◌, ◌⊎◌, inl, inr, refl, ap, ◌∙◌, arith, Bool-cases, All, text_beq_iff,
  text_beq_sym,
}
use cert_keeper.Store.Sql.{update, find}
use cert_keeper.Store.Sql.Laws.{AllPairs, AllPairs-update, All-update, All-zip, All-update_to}
use cert_keeper.Store.Schema.{Generation, Db}
use cert_keeper.Store.Generations.{is_issued, demoted, is_other_current}

-- Two rows with one id, or two current rows of one domain.
abbrev pub clash : Generation → Generation → Bool
clash g h = g.id == h.id || (g.domain == h.domain && g.current && h.current)

abbrev pub Apart : Generation → Generation → Type 0
Apart g h = clash g h ≡ false

-- The row's id has been drawn, and a current row is issued.
abbrev pub IsSound : ℕ → Generation → Type 0
IsSound next g = (g.id < next) × (g.current ≡ true → is_issued g.status ≡ true)

pub record IsConsistent (db : Db) : Type 0 where
  pub apart : AllPairs Apart db.generations
  pub sound : All (IsSound db.next_generation_id) db.generations

-- Demoting rows keeps them apart.
pub demoted-Apart :
    (p : Generation → Bool) (now : ℕ) (rows : List Generation)
    → AllPairs Apart rows
    → AllPairs Apart (update p (demoted now) rows)
unfolding demoted
demoted-Apart p now rows a =
    AllPairs-update Apart p (demoted now) rows (λ x y r. ground arith) (λ x y r. ground arith) a

pub demoted-IsSound :
    (next : ℕ) (p : Generation → Bool) (now : ℕ) (rows : List Generation)
    → All (IsSound next) rows
    → All (IsSound next) (update p (demoted now) rows)
unfolding demoted
demoted-IsSound next p now rows s =
    All-update (IsSound next) p (demoted now) rows (λ x t _. ground arith) s

-- The row with the id is in the domain, and no other row of the domain is current.
abbrev pub Alone : ℕ → Text → Generation → Type 0
Alone id domain h =
    ((h.id == id) ≡ true → h.domain ≡ domain) × (is_other_current domain id h ≡ false)

==-false : (s t : Text) → (s == t) ≡ false → (t == s) ≡ false
==-false s t h = ground (arith, text_beq_iff s t, text_beq_iff t s)

apart_of_parts :
    (i k : ℕ) (b c d : Bool)
    → (i == k) ≡ false
    → (b ≡ false) ⊎ (d ≡ false)
    → (i == k || (b && c && d)) ≡ false
apart_of_parts i k b c d n (inl e) = rw (n, e) refl
apart_of_parts i k false c d n (inr e) = rw n refl
apart_of_parts i k true false d n (inr e) = rw n refl
apart_of_parts i k true true d n (inr e) = rw (n, e) refl

pub or-false : (a b : Bool) → (a || b) ≡ false → a ≡ false
or-false false b h = refl
or-false true b h = h

other_number : (a b i : ℕ) → (a == i) ≡ true → (a == b) ≡ false → (b == i) ≡ false
other_number a b i h n = ground arith

idle_of : (a b c : Bool) → a ≡ true → b ≡ false → (a && not b && c) ≡ false → c ≡ false
idle_of a b c h n e = ground arith

two_ids : (a b i : ℕ) → (a == i) ≡ true → (b == i) ≡ true → (a == b) ≡ false → ⊥
two_ids a b i h k n = ground arith

nat_sym : (a b : ℕ) → (a == b) ≡ (b == a)
nat_sym a b = ground arith

and_swap : (a b c : Bool) → (a && b && c) ≡ (a && c && b)
and_swap a b c = ground arith

Apart-sym : (x y : Generation) → Apart x y → Apart y x
Apart-sym x y r =
    rw
      (
        nat_sym y.id x.id,
        text_beq_sym y.domain x.domain,
        and_swap (x.domain == y.domain) y.current x.current,
      )
      r

-- The row itself: changed, it still has its id and its domain.
module _ (id : ℕ) (domain : Text) (f : Generation → Generation)
    (same_id : (g : Generation) → (f g).id ≡ g.id)
    (same_domain : (g : Generation) → (f g).domain ≡ g.domain) where
  other_idle :
      (x y : Generation)
      → (x.id == id) ≡ true
      → x.domain ≡ domain
      → (x.id == y.id) ≡ false
      → Alone id domain y
      → ((x.domain == y.domain) ≡ false) ⊎ (y.current ≡ false)
  other_idle x y here mine n (_, alone) = elim (Bool-cases (y.domain == domain)) [
    | inr there ↦ inl (ap (λ d. d == y.domain) mine ∙ ==-false y.domain domain there)
    | inl same ↦ inr (
        idle_of (y.domain == domain) (y.id == id) y.current same (other_number x.id y.id id here n)
          alone)
  ]

  left-Apart :
      (x y : Generation)
      → (x.id == id) ≡ true
      → Alone id domain x
      → Alone id domain y
      → Apart x y
      → Apart (f x) y
  left-Apart x y here (mine, _) ay r =
      let n = or-false (x.id == y.id) _ r in
      rw (same_id x, same_domain x)
        (apart_of_parts x.id y.id (x.domain == y.domain) (f x).current y.current n
          (other_idle x y here (mine here) n ay))

  right-Apart :
      (x y : Generation)
      → (y.id == id) ≡ true
      → Alone id domain x
      → Alone id domain y
      → Apart x y
      → Apart x (f y)
  right-Apart x y here ax ay r = Apart-sym (f y) x (left-Apart y x here ay ax (Apart-sym x y r))

  -- The rows stay apart when the row with the id changes.
  changed-Apart :
      (rows : List Generation)
      → All (Alone id domain) rows
      → AllPairs Apart rows
      → AllPairs Apart (update (λ h. h.id == id) f rows)
  changed-Apart [] s a = tt
  changed-Apart (x ∷ xs) (s, ss) (a, rest) = elim (Bool-cases (x.id == id)) [
    | inl here ↦ rw here (
      All-update_to (λ h. h.id == id) f xs (λ y (r, ay). left-Apart x y here s ay r)
          (λ y (r, ay) same. absurd (two_ids x.id y.id id here same (or-false (x.id == y.id) _ r)))
          both,
      changed-Apart xs ss rest,
    )
    | inr there ↦ rw there (
      All-update_to (λ h. h.id == id) f xs (λ y (r, ay). r)
          (λ y (r, ay) same. right-Apart x y same s ay r) both,
      changed-Apart xs ss rest,
    )
  ]
    where
      both : All (λ y. Apart x y × Alone id domain y) xs
      both = All-zip xs (λ y r ay. (r, ay)) a ss

-- A found row is the only one with its id.
pub found_alone :
    (id : ℕ) (rows : List Generation) {g : Generation}
    → AllPairs Apart rows
    → find (λ h. h.id == id) rows ≡ some g
    → All (λ h. (h.id == id) ≡ true → h ≡ g) rows
found_alone id [] a e = tt
found_alone id (x ∷ xs) {g} (a, rest) e = elim (Bool-cases (x.id == id)) [
  | inl here ↦
      let first : some x ≡ some g = rw here at e in
      (
        (λ _. cc),
        All-zip xs
            (λ y r _ same. absurd (two_ids x.id y.id id here same (or-false (x.id == y.id) _ r))) a
            a,
      )
  | inr there ↦ ((λ h. absurd (cc)), found_alone id xs rest (rw there at e))
]

demoted_idle : (a b : Bool) → (a && not b && false) ≡ false
demoted_idle a b = ground arith

-- Demoting the other current rows of the row's domain leaves it alone there.
pub demoted-Alone :
    (id now : ℕ) (g : Generation) (rows : List Generation)
    → All (λ h. (h.id == id) ≡ true → h ≡ g) rows
    → All (Alone id g.domain) (update (is_other_current g.domain id) (demoted now) rows)
unfolding demoted
demoted-Alone id now g [] t = tt
demoted-Alone id now g (h ∷ hs) (only, rest) = elim (Bool-cases (is_other_current g.domain id h)) [
  | inl other ↦ rw other (
    (λ e. ap (λ k. k.domain) (only e), demoted_idle (h.domain == g.domain) (h.id == id)),
    demoted-Alone id now g hs rest,
  )
  | inr idle ↦ rw idle ((λ e. ap (λ k. k.domain) (only e), idle), demoted-Alone id now g hs rest)
]

unchanged : (i k : ℕ) (c d : Bool) → (i == k) ≡ false → (i == k || (c && false && d)) ≡ false
unchanged i k c d n = rw n (ground arith)

-- What holds of the rows and of the demoted rows.
pub switched-IsSound :
    (next now : ℕ) (rows : List Generation) (p : Generation → Bool) (b : Bool)
    → All (IsSound next) rows
    → All (IsSound next) (if b then update p (demoted now) rows else rows)
switched-IsSound next now rows p true s = demoted-IsSound next p now rows s
switched-IsSound next now rows p false s = s

-- A change of the row with the id that may leave it current only where no other row of its domain
-- is: the other current rows are demoted first when it does.
pub switched-Apart :
    (id now : ℕ) (g : Generation) (rows : List Generation) (f : Generation → Generation) (b : Bool)
    → ((h : Generation) → (f h).id ≡ h.id)
    → ((h : Generation) → (f h).domain ≡ h.domain)
    → ((h : Generation) → (f h).current ≡ b)
    → AllPairs Apart rows
    → find (λ h. h.id == id) rows ≡ some g
    → AllPairs Apart (
        update
          (λ h. h.id == id)
          f
          (if b then update (is_other_current g.domain id) (demoted now) rows else rows))
switched-Apart id now g rows f true same_id same_domain current a e =
    changed-Apart id g.domain f same_id same_domain
      (update (is_other_current g.domain id) (demoted now) rows)
      (demoted-Alone id now g rows (found_alone id rows a e))
      (demoted-Apart (is_other_current g.domain id) now rows a)
switched-Apart id now g rows f false same_id same_domain current a e =
    AllPairs-update Apart (λ h. h.id == id) f rows (λ x y r. left x y r)
      (λ x y r. Apart-sym (f y) x (left y x (Apart-sym x y r))) a
  where
    left : (x y : Generation) → Apart x y → Apart (f x) y
    left x y r =
        rw (same_id x, same_domain x, current x)
          (unchanged x.id y.id (x.domain == y.domain) y.current (or-false (x.id == y.id) _ r))

pub issued_of : (b c : Bool) → (b && c) ≡ true → b ≡ true
issued_of b c h = ground arith

pub issued_when : (b c : Bool) → (b && not c) ≡ false → b ≡ true → c ≡ true
issued_when b c n h = ground arith

pub switched-status :
    (id now : ℕ) (g : Generation) (rows : List Generation) (p : Generation → Bool) (b : Bool)
    → All (λ h. (h.id == id) ≡ true → h ≡ g) rows
    → All
        (λ h. (h.id == id) ≡ true → h.status ≡ g.status)
        (if b then update p (demoted now) rows else rows)
unfolding demoted
switched-status id now g rows p true s =
    All-update_to p (demoted now) rows (λ h same here. ap (λ k. k.status) (same here))
      (λ h same _ here. ap (λ k. k.status) (same here)) s
switched-status id now g rows p false s =
    All-zip rows (λ h same _ here. ap (λ k. k.status) (same here)) s s
