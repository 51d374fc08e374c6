-- ===== src/Store/Sql/Order.antt =====
-- What `ORDER BY`, `LIMIT` and `OFFSET` leave of the rows.
use cert_keeper.Prelude.{
  ℕ, zero, suc, ◌≤◌, Bool, true, false, List, [], ◌∷◌, ◌≡◌, arith, inl, inr, length, take, drop,
  filter, All, Bool-cases,
}
use cert_keeper.Store.Sql.{order_by, insert_row}
use cert_keeper.Store.Sql.Laws.{AllPairs}

module _ {A : Type 0} where
  pub length-take : (n : ℕ) (xs : List A) → length (take n xs) ≤ n
  length-take zero xs = ground arith
  length-take (suc n) [] = ground arith
  length-take (suc n) (x ∷ xs) = ground (arith, length-take n xs)

  pub All-take : (P : A → Type 0) (n : ℕ) (xs : List A) → All P xs → All P (take n xs)
  All-take P zero xs h = tt
  All-take P (suc n) [] h = tt
  All-take P (suc n) (x ∷ xs) (h, hs) = (h, All-take P n xs hs)

  pub All-drop : (P : A → Type 0) (n : ℕ) (xs : List A) → All P xs → All P (drop n xs)
  All-drop P zero xs h = h
  All-drop P (suc n) [] h = tt
  All-drop P (suc n) (x ∷ xs) (h, hs) = All-drop P n xs hs

  pub AllPairs-take :
      (R : A → A → Type 0) (n : ℕ) (xs : List A) → AllPairs R xs → AllPairs R (take n xs)
  AllPairs-take R zero xs h = tt
  AllPairs-take R (suc n) [] h = tt
  AllPairs-take R (suc n) (x ∷ xs) (h, hs) = (All-take (R x) n xs h, AllPairs-take R n xs hs)

  pub AllPairs-drop :
      (R : A → A → Type 0) (n : ℕ) (xs : List A) → AllPairs R xs → AllPairs R (drop n xs)
  AllPairs-drop R zero xs h = h
  AllPairs-drop R (suc n) [] h = tt
  AllPairs-drop R (suc n) (x ∷ xs) (h, hs) = AllPairs-drop R n xs hs

  All-insert_row :
      (P : A → Type 0) (before : A → A → Bool) (x : A) (xs : List A)
      → P x
      → All P xs
      → All P (insert_row before x xs)
  unfolding insert_row
  All-insert_row P before x [] h hs = (h, tt)
  All-insert_row P before x (y ∷ ys) h (k, ks) = elim (Bool-cases (before y x)) [
    | inl e ↦ rw e (k, All-insert_row P before x ys h ks)
    | inr n ↦ rw n (h, (k, ks))
  ]

  pub All-order_by :
      (P : A → Type 0) (before : A → A → Bool) (xs : List A) → All P xs → All P (order_by before xs)
  unfolding order_by
  All-order_by P before [] h = tt
  All-order_by P before (x ∷ xs) (h, hs) =
      All-insert_row P before x _ h (All-order_by P before xs hs)

  pub filter-All : (p : A → Bool) (xs : List A) → All (λ x. p x ≡ true) (filter p xs)
  filter-All p [] = tt
  filter-All p (x ∷ xs) = elim (Bool-cases (p x)) [
    | inl e ↦ rw e (e, filter-All p xs)
    | inr n ↦ rw n (filter-All p xs)
  ]

  after :
      (before : A → A → Bool)
      → ((a b c : A) → before b a ≡ false → before c b ≡ false → before c a ≡ false)
      → (x y : A) → before y x ≡ false
      → (zs : List A) → All (λ b. before b y ≡ false) zs
      → All (λ b. before b x ≡ false) zs
  after before chain x y n [] t = tt
  after before chain x y n (z ∷ zs) (t, ts) = (chain x y z n t, after before chain x y n zs ts)

  -- A later row does not come before an earlier one.
  insert_row-sorted :
      (before : A → A → Bool)
      → ((a b c : A) → before b a ≡ false → before c b ≡ false → before c a ≡ false)
      → ((a b : A) → before a b ≡ true → before b a ≡ false)
      → (x : A) (xs : List A) → AllPairs (λ a b. before b a ≡ false) xs
      → AllPairs (λ a b. before b a ≡ false) (insert_row before x xs)
  unfolding insert_row
  insert_row-sorted before chain asym x [] h = (tt, tt)
  insert_row-sorted before chain asym x (y ∷ ys) (h, hs) = elim (Bool-cases (before y x)) [
    | inl e ↦ rw e (
      All-insert_row (λ b. before b y ≡ false) before x ys (asym y x e) h,
      insert_row-sorted before chain asym x ys hs,
    )
    | inr n ↦ rw n ((n, after before chain x y n ys h), (h, hs))
  ]

  pub order_by-sorted :
      (before : A → A → Bool)
      → ((a b c : A) → before b a ≡ false → before c b ≡ false → before c a ≡ false)
      → ((a b : A) → before a b ≡ true → before b a ≡ false)
      → (xs : List A) → AllPairs (λ a b. before b a ≡ false) (order_by before xs)
  unfolding order_by
  order_by-sorted before chain asym [] = tt
  order_by-sorted before chain asym (x ∷ xs) =
      insert_row-sorted before chain asym x (order_by before xs)
        (order_by-sorted before chain asym xs)

  module _ (R : A → A → Type 0) (trans : (a b c : A) → R a b → R b c → R a c) where
    All-trans : (x y : A) → R x y → (zs : List A) → All (R y) zs → All (R x) zs
    All-trans x y r [] t = tt
    All-trans x y r (z ∷ zs) (t, ts) = (trans x y z r t, All-trans x y r zs ts)

    module _ (before : A → A → Bool) (first : (a b : A) → before a b ≡ true → R a b)
        (last : (a b : A) → before a b ≡ false → R b a) where
      insert_row-AllPairs :
          (x : A) (xs : List A) → AllPairs R xs → AllPairs R (insert_row before x xs)
      unfolding insert_row
      insert_row-AllPairs x [] h = (tt, tt)
      insert_row-AllPairs x (y ∷ ys) (h, hs) = elim (Bool-cases (before y x)) [
        | inl e ↦
            rw e (All-insert_row (R y) before x ys (first y x e) h, insert_row-AllPairs x ys hs)
        | inr n ↦ rw n ((last y x n, All-trans x y (last y x n) ys h), (h, hs))
      ]

      -- Ordered rows are related as the order tells of two.
      pub order_by-AllPairs : (xs : List A) → AllPairs R (order_by before xs)
      unfolding order_by
      order_by-AllPairs [] = tt
      order_by-AllPairs (x ∷ xs) = insert_row-AllPairs x (order_by before xs) (order_by-AllPairs xs)
