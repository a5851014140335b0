-- ===== src/Base/Exec.antt =====
-- Operations on a state that may fail: a call of a client, whose state changes in any case.
pub mod Keeps
pub mod Ensures
use milvus_sql_proxy.Base.{ℕ, suc, Result, ok, err}
use milvus_sql_proxy.Error.{Error}

abbrev pub Exec : Type 0 → Type 0 → Type 0
Exec W A = W → Result Error A × W

-- How many are open behind an operation that opens one unless it fails.
abbrev pub opened : {A : Type 0} → Result Error A → ℕ → ℕ
opened (err e) n = n
opened (ok a) n = suc n

module _ {W : Type 0} where
  abbrev pub pure : {A : Type 0} → A → Exec W A
  pure a w = (ok a, w)

  abbrev pub lift : {A : Type 0} → Result Error A → Exec W A
  lift r w = (r, w)

  -- What follows an operation; an error leaves it out.
  unfoldable pub continue :
      {A B : Type 0} → (A → Exec W B) → Result Error A × W → Result Error B × W
  continue next (err e, w) = (err e, w)
  continue next (ok a, w) = next a w

  infixl 5 ◌>>=◌
  infixl 5 ◌>>◌
  abbrev pub ◌>>=◌ : {A B : Type 0} → Exec W A → (A → Exec W B) → Exec W B
  ◌>>=◌ m next w = continue next (m w)

  abbrev pub ◌>>◌ : {B : Type 0} → Exec W (Unit {0}) → Exec W B → Exec W B
  ◌>>◌ m next w = continue (λ done. next) (m w)
