-- ===== src/Prelude/Steps.antt =====
-- Programs that change a state and may fail, with the notation of `do` blocks, and the relations
-- between the states before and after that hold of a program when they hold of its parts.
use mathlib.Core.Path.{◌≡◌, refl}
use cert_keeper.Prelude.Results.{Result, ok, err}

abbrev pub Steps {ℓ κ ι} : Type ℓ → Type κ → Type ι → Type (ℓ ⊔ κ ⊔ ι)
Steps S E A = S → S × Result E A

module _ {ℓ κ} {S : Type ℓ} {E : Type κ} where
  abbrev pub return {ι} : {A : Type ι} → A → Steps S E A
  return a s = (s, ok a)

  abbrev pub raise {ι} : {A : Type ι} → E → Steps S E A
  raise e s = (s, err e)

  -- A result computed from no state.
  abbrev pub lift {ι} : {A : Type ι} → Result E A → Steps S E A
  lift r s = (s, r)

  abbrev pub modify : (S → S) → Steps S E (Unit {0})
  modify f s = (f s, ok tt)

  abbrev pub inspect {ι} : {A : Type ι} → (S → Result E A) → Steps S E A
  inspect f s = (s, f s)

  abbrev pub next {ι μ} :
      {A : Type ι} {B : Type μ} → (A → Steps S E B) → S × Result E A → S × Result E B
  next k (s, ok a) = k a s
  next k (s, err e) = (s, err e)

infixl 5 ◌>>=◌ ◌>>◌
abbrev pub ◌>>=◌ {ℓ κ ι μ} :
    {S : Type ℓ} {E : Type κ} {A : Type ι} {B : Type μ}
    → Steps S E A
    → (A → Steps S E B)
    → Steps S E B
(m >>= k) s = next k (m s)

abbrev pub ◌>>◌ {ℓ κ ι} :
    {S : Type ℓ} {E : Type κ} {B : Type ι} → Steps S E (Unit {0}) → Steps S E B → Steps S E B
m >> k = m >>= λ _. k

-- `R` relates the state before a program to the state after it.
abbrev pub Relates {ℓ κ ι μ} :
    {S : Type ℓ} {E : Type κ} {A : Type ι} → (S → S → Type μ) → Steps S E A → Type (ℓ ⊔ μ)
Relates {S} R m = (s : S) → R s (m s).0

module _ {ℓ κ μ} {S : Type ℓ} {E : Type κ} (R : S → S → Type μ)
    (trans : (s t u : S) → R s t → R t u → R s u) where
  next-Relates {ι ν} :
      {A : Type ι} {B : Type ν} (k : A → Steps S E B)
      → ((a : A) → Relates R (k a))
      → (s : S) (out : S × Result E A) → R s out.0
      → R s (next k out).0
  next-Relates k h s (t, ok a) r = trans s t _ r (h a t)
  next-Relates k h s (t, err e) r = r

  pub bind-Relates {ι ν} :
      {A : Type ι} {B : Type ν} (m : Steps S E A) (k : A → Steps S E B)
      → Relates R m
      → ((a : A) → Relates R (k a))
      → Relates R (m >>= k)
  bind-Relates m k hm hk s = next-Relates k hk s (m s) (hm s)

module _ {ℓ κ ι μ} {S : Type ℓ} {E : Type κ} {A : Type ι} {B : Type μ} where
  -- A program that succeeds: its first part did, and the rest did after it.
  pub record Runs (m : Steps S E A) (k : A → Steps S E B) (s : S) (b : B)
      : Type (ℓ ⊔ κ ⊔ ι ⊔ μ) where
    pub value : A
    pub first_ok : (m s).1 ≡ ok value
    pub rest_ok : (k value (m s).0).1 ≡ ok b
    pub end_ok : ((m >>= k) s).0 ≡ (k value (m s).0).0

  next-ok :
      (k : A → Steps S E B) (out : S × Result E A) (b : B)
      → (next k out).1 ≡ ok b
      → (a : A) × (out.1 ≡ ok a) × ((k a out.0).1 ≡ ok b) × ((next k out).0 ≡ (k a out.0).0)
  next-ok k (s, ok a) b h = (a, refl, h, refl)
  next-ok k (s, err e) b h = cc

  pub bind-ok :
      (m : Steps S E A) (k : A → Steps S E B) (s : S) (b : B)
      → ((m >>= k) s).1 ≡ ok b
      → Runs m k s b
  bind-ok m k s b h =
      let (a, first, rest, e) = next-ok k (m s) b h in
      record { value = a; first_ok = first; rest_ok = rest; end_ok = e }

  next-by {ν} :
      (P : S × Result E B → Type ν) (k : A → Steps S E B) (out : S × Result E A)
      → ((e : E) → out.1 ≡ err e → P (out.0, err e))
      → ((a : A) → out.1 ≡ ok a → P (k a out.0))
      → P (next k out)
  next-by P k (s, ok a) f g = g a refl
  next-by P k (s, err e) f g = f e refl

  -- What holds of the outcome of a first part that fails, and of the rest after one that does not.
  pub bind-by {ν} :
      (P : S × Result E B → Type ν) (m : Steps S E A) (k : A → Steps S E B) (s : S)
      → ((e : E) → (m s).1 ≡ err e → P ((m s).0, err e))
      → ((a : A) → (m s).1 ≡ ok a → P (k a (m s).0))
      → P ((m >>= k) s)
  bind-by P m k s f g = next-by P k (m s) f g
