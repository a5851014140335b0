-- ===== src/Query/Handled.antt =====
-- What `handleMilvusCommand` keeps, if it handles a statement.
use milvus_sql_proxy.Base.{Bool, true, false, List, Bytes, Option, none, some, if◌then◌else◌}
use milvus_sql_proxy.Base.Exec.{Exec}
use milvus_sql_proxy.Base.Exec.Keeps.{Keeps, continue-Keeps}
use milvus_sql_proxy.Resultset.{QueryResult}
use milvus_sql_proxy.Session.{ClientConn}
use milvus_sql_proxy.Milvus.{Milvus, IndexKinds, Formats}
use milvus_sql_proxy.Commands.{on_match, keep, kept}

module _ {W : Type 0} (P : W → Type 0) where
  -- If a command is handled, it keeps the property.
  unfoldable pub HandledKeeps : {A : Type 0} → Option (Exec W A) → Type 0
  HandledKeeps none = Unit
  HandledKeeps (some m) = Keeps P m

  pub none-Keeps : (A : Type 0) → HandledKeeps {A = A} none
  unfolding HandledKeeps
  none-Keeps A = tt

  pub on_match-Keeps :
      {A : Type 0} (found : Option (List Bytes)) (f : List Bytes → Exec W A)
      (rest : Option (Exec W A))
      → ((m : List Bytes) → Keeps P (f m))
      → HandledKeeps rest
      → HandledKeeps (on_match found f rest)
  unfolding HandledKeeps on_match
  on_match-Keeps none f rest k h = h
  on_match-Keeps (some m) f rest k h = k m

  pub if-HandledKeeps :
      {A : Type 0} (b : Bool) (m n : Option (Exec W A))
      → HandledKeeps m
      → HandledKeeps n
      → HandledKeeps (if b then m else n)
  if-HandledKeeps true m n h k = h
  if-HandledKeeps false m n h k = k

  pub keep-Keeps : (c : ClientConn) (m : Exec W QueryResult) → Keeps P m → Keeps P (keep c m)
  keep-Keeps c m k w h = continue-Keeps P _ _ (λ r w' h'. h') (k w h)

  pub kept-Keeps :
      {C : Type 0} (up : Milvus W C) (kinds : IndexKinds) (formats : Formats) (c : ClientConn)
      (handled : Option (Exec W QueryResult))
      → HandledKeeps handled
      → HandledKeeps (kept up kinds formats c handled)
  unfolding HandledKeeps
  kept-Keeps up kinds formats c none h = tt
  kept-Keeps up kinds formats c (some m) h = keep-Keeps c m h
