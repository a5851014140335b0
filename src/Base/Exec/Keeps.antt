-- ===== src/Base/Exec/Keeps.antt =====
-- A property of the state that an operation keeps, whether it fails or not.
use milvus_sql_proxy.Base.{Result, ok, err, Bool, true, false, if◌then◌else◌}
use milvus_sql_proxy.Error.{Error}
use milvus_sql_proxy.Base.Exec.{Exec, lift, continue, ◌>>=◌}

module _ {W : Type 0} (P : W → Type 0) where
  abbrev pub Keeps : {A : Type 0} → Exec W A → Type 0
  Keeps m = (w : W) → P w → P (m w).1

  pub lift-Keeps : {A : Type 0} (r : Result Error A) → Keeps (lift r)
  lift-Keeps r w h = h

  pub continue-Keeps :
      {A B : Type 0} (next : A → Exec W B) (r : Result Error A × W)
      → ((a : A) → Keeps (next a))
      → P r.1
      → P (continue next r).1
  unfolding continue
  continue-Keeps next (err e, w) k h = h
  continue-Keeps next (ok a, w) k h = k a w h

  pub >>=-Keeps :
      {A B : Type 0} (m : Exec W A) (next : A → Exec W B)
      → Keeps m
      → ((a : A) → Keeps (next a))
      → Keeps (m >>= next)
  >>=-Keeps m next hm hn w h = continue-Keeps next (m w) hn (hm w h)

  pub if-Keeps :
      {A : Type 0} (b : Bool) (m n : Exec W A) → Keeps m → Keeps n → Keeps (if b then m else n)
  if-Keeps true m n hm hn = hm
  if-Keeps false m n hm hn = hn
