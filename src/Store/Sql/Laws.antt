-- ===== src/Store/Sql/Laws.antt =====
-- Laws of the statements over tables: what an update leaves alone, and which row is first.
use mathlib.Core.Path.{subst}
use cert_keeper.Prelude.{
  Bool, true, false, nat_eq, none, some, List, [], ◌∷◌, ◌++◌, if◌then◌else◌, filter, ◌≡◌, ◌⊎◌, refl,
  arith, All, Bool-cases, Option-cases, inl, inr,
}
use cert_keeper.Store.Sql.{update, find, first_by}

module _ {ℓ κ} {A : Type ℓ} where
  pub All-filter :
      (P : A → Type κ) (p : A → Bool) (xs : List A)
      → All P xs
      → All (λ x. P x × (p x ≡ true)) (filter p xs)
  All-filter P p [] h = tt
  All-filter P p (x ∷ xs) (h, hs) = elim (Bool-cases (p x)) [
    | inl e ↦ rw e ((h, e), All-filter P p xs hs)
    | inr n ↦ rw n (All-filter P p xs hs)
  ]

  pub All-update :
      (P : A → Type κ) (p : A → Bool) (f : A → A) (xs : List A)
      → ((x : A) → P x → p x ≡ true → P (f x))
      → All P xs
      → All P (update p f xs)
  All-update P p f [] keep h = tt
  All-update P p f (x ∷ xs) keep (h, hs) = elim (Bool-cases (p x)) [
    | inl e ↦ rw e (keep x h e, All-update P p f xs keep hs)
    | inr n ↦ rw n (h, All-update P p f xs keep hs)
  ]

  pub All-zip {ι μ} :
      {P : A → Type κ} {Q : A → Type ι} {R : A → Type μ} (xs : List A)
      → ((x : A) → P x → Q x → R x)
      → All P xs
      → All Q xs
      → All R xs
  All-zip [] f h k = tt
  All-zip (x ∷ xs) f (h, hs) (k, ks) = (f x h k, All-zip xs f hs ks)

  pub All-update_to {ι} :
      {P : A → Type κ} {Q : A → Type ι} (p : A → Bool) (f : A → A) (xs : List A)
      → ((x : A) → P x → Q x)
      → ((x : A) → P x → p x ≡ true → Q (f x))
      → All P xs
      → All Q (update p f xs)
  All-update_to p f [] keep change h = tt
  All-update_to p f (x ∷ xs) keep change (h, hs) = elim (Bool-cases (p x)) [
    | inl e ↦ rw e (change x h e, All-update_to p f xs keep change hs)
    | inr n ↦ rw n (keep x h, All-update_to p f xs keep change hs)
  ]

  pub All-snoc : (P : A → Type κ) (xs : List A) {x : A} → All P xs → P x → All P (xs ++ x ∷ [])
  All-snoc P [] h p = (p, tt)
  All-snoc P (y ∷ ys) (h, hs) p = (h, All-snoc P ys hs p)

  pub All-kept : (P : A → Type κ) (p : A → Bool) (xs : List A) → All P xs → All P (filter p xs)
  All-kept P p [] h = tt
  All-kept P p (x ∷ xs) (h, hs) = elim (Bool-cases (p x)) [
    | inl e ↦ rw e (h, All-kept P p xs hs)
    | inr n ↦ rw n (All-kept P p xs hs)
  ]

  -- The selected row has every property that all rows have.
  pub first_by-All :
      (P : A → Type κ) (before : A → A → Bool) (xs : List A) {x : A}
      → All P xs
      → first_by before xs ≡ some x
      → P x
  unfolding first_by
  first_by-All P before [] h e = absurd (ground arith)
  first_by-All P before (y ∷ ys) {x} (h, hs) e = elim (Option-cases (first_by before ys)) [
    | inl n ↦ let same : y ≡ x = ground arith in subst P same h
    | inr (z, s) ↦
        let picked : (y ≡ x) ⊎ (z ≡ x) = ground arith in
        elim picked [
          | inl same ↦ subst P same h
          | inr same ↦ subst P same (first_by-All P before ys hs s)
        ]
  ]

module _ {ℓ} {A : Type ℓ} where
  pub first_by-none : (before : A → A → Bool) (xs : List A) → first_by before xs ≡ none → xs ≡ []
  unfolding first_by
  first_by-none before [] e = refl
  first_by-none before (y ∷ ys) e = ground arith

  -- An update of other rows leaves the found row alone.
  pub find-update_other :
      (p q : A → Bool) (f : A → A) (xs : List A) {x : A}
      → ((y : A) → p (f y) ≡ p y)
      → q x ≡ false
      → find p xs ≡ some x
      → find p (update q f xs) ≡ some x
  find-update_other p q f [] keep n e = absurd (ground arith)
  find-update_other p q f (y ∷ ys) {x} keep n e =
      ground (arith, keep y, find-update_other p q f ys {x = x} keep n)

  pub find-snoc :
      (p : A → Bool) (xs : List A) (y : A) {x : A}
      → find p xs ≡ some x
      → find p (xs ++ y ∷ []) ≡ some x
  find-snoc p [] y e = absurd (ground arith)
  find-snoc p (z ∷ zs) y {x} e = ground (arith, find-snoc p zs y {x = x})

  pub find-filter :
      (p q : A → Bool) (xs : List A) {x : A}
      → q x ≡ true
      → find p xs ≡ some x
      → find p (filter q xs) ≡ some x
  find-filter p q [] k e = absurd (ground arith)
  find-filter p q (y ∷ ys) {x} k e = ground (arith, find-filter p q ys {x = x} k)

  pub find_sound : (p : A → Bool) (xs : List A) {x : A} → find p xs ≡ some x → p x ≡ true
  find_sound p [] e = absurd (ground arith)
  find_sound p (y ∷ ys) {x} e = ground (arith, find_sound p ys {x = x})

-- Every two rows are related, the earlier one first.
abbrev pub AllPairs {ℓ κ} : {A : Type ℓ} → (A → A → Type κ) → List A → Type κ
AllPairs R [] = Unit
AllPairs R (x ∷ xs) = All (R x) xs × AllPairs R xs

module _ {ℓ κ} {A : Type ℓ} (R : A → A → Type κ) where
  pub AllPairs-snoc :
      (xs : List A) (y : A) → AllPairs R xs → All (λ x. R x y) xs → AllPairs R (xs ++ y ∷ [])
  AllPairs-snoc [] y h r = (tt, tt)
  AllPairs-snoc (x ∷ xs) y (h, hs) (r, rs) = (All-snoc (R x) xs h r, AllPairs-snoc xs y hs rs)

  pub AllPairs-filter : (p : A → Bool) (xs : List A) → AllPairs R xs → AllPairs R (filter p xs)
  AllPairs-filter p [] h = tt
  AllPairs-filter p (x ∷ xs) (h, hs) = elim (Bool-cases (p x)) [
    | inl e ↦ rw e (All-kept (R x) p xs h, AllPairs-filter p xs hs)
    | inr n ↦ rw n (AllPairs-filter p xs hs)
  ]

  -- An update that changes nothing that the relation looks at.
  pub AllPairs-update :
      (p : A → Bool) (f : A → A) (xs : List A)
      → ((x y : A) → R x y → R (f x) y)
      → ((x y : A) → R x y → R x (f y))
      → AllPairs R xs
      → AllPairs R (update p f xs)
  AllPairs-update p f [] left right h = tt
  AllPairs-update p f (x ∷ xs) left right (h, hs) =
      (row (p x), AllPairs-update p f xs left right hs)
    where
      right_all : (z : A) → All (R z) xs → All (R z) (update p f xs)
      right_all z hz = All-update (R z) p f xs (λ y r _. right z y r) hz

      left_all : (ys : List A) → All (R x) ys → All (R (f x)) ys
      left_all [] t = tt
      left_all (y ∷ ys) (t, ts) = (left x y t, left_all ys ts)

      row : (b : Bool) → All (R (if b then f x else x)) (update p f xs)
      row true = left_all (update p f xs) (right_all x h)
      row false = right_all x h
