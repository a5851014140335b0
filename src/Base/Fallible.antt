-- ===== src/Base/Fallible.antt =====
-- A Go pair of a value and an error.
use mathlib.Core.Path.{◌≡◌, refl}
use mathlib.Core.Logic.{◌⊎◌, inl, inr}
use mathlib.Core.Bool.{Bool, true, false}

pub data Result {ℓ} (E : Type 0) (A : Type ℓ) : Type ℓ where
  err : E → Result E A
  ok : A → Result E A

module _ {E : Type 0} where
  infixl 5 ◌>>=◌
  infixl 5 ◌>>◌
  abbrev pub ◌>>=◌ {ℓ κ} :
      {A : Type ℓ} {B : Type κ} (first : Result E A) (next : A → Result E B) → Result E B
  (err fault) >>= next = err fault
  (ok value) >>= next = next value

  -- A step whose value is not used.
  abbrev pub ◌>>◌ {κ} : {B : Type κ} (first : Result E (Unit {0})) (next : Result E B) → Result E B
  first >> next = first >>= λ done. next

  -- `if b { return e }`.
  abbrev pub refuse : Bool → E → Result E (Unit {0})
  refuse true e = err e
  refuse false e = ok tt

  pub >>=-eq-ok {ℓ κ} :
      {A : Type ℓ} {B : Type κ} (first : Result E A) (next : A → Result E B) {result : B}
      → (first >>= next) ≡ ok result
      → (value : A) × (first ≡ ok value) × (next value ≡ ok result)
  >>=-eq-ok (err fault) next h = cc
  >>=-eq-ok (ok value) next h = (value, refl, h)

  pub Result-cases {ℓ} :
      {A : Type ℓ} (m : Result E A) → ((e : E) × (m ≡ err e)) ⊎ ((a : A) × (m ≡ ok a))
  Result-cases (ok a) = inr (a, refl)
  Result-cases (err e) = inl (e, refl)

  pub ok-injective {ℓ} : {A : Type ℓ} {a b : A} → ◌≡◌ {A = Result E A} (ok a) (ok b) → a ≡ b
  ok-injective h = cc

  pub refuse-eq-ok {ℓ} :
      {A : Type ℓ} (b : Bool) (e : E) (k : Result E A) {a : A}
      → (refuse b e >> k) ≡ ok a
      → (b ≡ false) × (k ≡ ok a)
  refuse-eq-ok true e k h = cc
  refuse-eq-ok false e k h = (refl, h)
