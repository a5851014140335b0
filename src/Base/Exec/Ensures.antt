-- ===== src/Base/Exec/Ensures.antt =====
-- What an operation returns, whenever it returns something.
use mathlib.Core.Path.{◌≡◌, refl}
use milvus_sql_proxy.Base.{Result, ok, err, Bool, true, false, if◌then◌else◌}
use milvus_sql_proxy.Error.{Error}
use milvus_sql_proxy.Base.Exec.{Exec, continue}

module _ {W : Type 0} where
  -- The step before a result, and what followed it.
  pub continue-eq-ok :
      {A B : Type 0} (next : A → Exec W B) (x : Result Error A × W) {b : B}
      → (continue next x).0 ≡ ok b
      → (a : A) × (w : W) × (x.0 ≡ ok a) × ((next a w).0 ≡ ok b)
  unfolding continue
  continue-eq-ok next (err e, w) h = cc
  continue-eq-ok next (ok a, w) h = (a, w, refl, h)

  abbrev pub Ensures : {A : Type 0} → (A → Type 0) → Exec W A → Type 0
  Ensures {A} Q m = (w : W) (a : A) → (m w).0 ≡ ok a → Q a

  pub if-Ensures :
      {A : Type 0} (Q : A → Type 0) (b : Bool) (m n : Exec W A)
      → Ensures Q m
      → Ensures Q n
      → Ensures Q (if b then m else n)
  if-Ensures Q true m n hm hn = hm
  if-Ensures Q false m n hm hn = hn
