-- ===== src/Postgres/Loop/Pages.antt =====
-- The rows of a portal over several Executes.
pub mod Executes
pub mod Runs
use milvus_sql_proxy.Base.{
  ℕ, zero, suc, ◌+◌, ◌-◌, ◌≤◌, ◌≡◌, refl, ap, List, [], ◌∷◌, ◌++◌, Bytes, take, drop,
  take-append-drop, Option, none, arith, Result, ok, err,
}
use milvus_sql_proxy.Error.{Error}
use milvus_sql_proxy.Value.{Library, Value}
use milvus_sql_proxy.Resultset.{Field}
use milvus_sql_proxy.Postgres.Encoding.{pg_rows, pg_cells, sends, slice}
use milvus_sql_proxy.Postgres.Portals.{end_of_rows}
use milvus_sql_proxy.Postgres.Messages.{Backend, data_row}

-- The DataRows among the messages sent.
unfoldable pub data_rows : List Backend → List Backend
data_rows [] = []
data_rows (data_row cells ∷ ms) = data_row cells ∷ data_rows ms
data_rows (m ∷ ms) = data_rows ms

pub data_rows-append : (ms ns : List Backend) → data_rows (ms ++ ns) ≡ data_rows ms ++ data_rows ns
unfolding data_rows
data_rows-append [] ns = refl
data_rows-append (data_row cells ∷ ms) ns = ap (◌∷◌ (data_row cells)) (data_rows-append ms ns)
data_rows-append (m ∷ ms) ns = data_rows-append ms ns

module _ (lib : Library) (fields : List Field) (formats : List ℕ) where
  -- What rows are sent as, and that each of their cells has an encoding.
  abbrev pub row_messages : List (List Value) → List Backend
  row_messages rows = (pg_rows lib fields formats rows).0

  abbrev pub Encodes : List (List Value) → Type 0
  Encodes rows = (pg_rows lib fields formats rows).1 ≡ none

  sends-append :
      (r : Result Error (List (Option Bytes))) (ms ns ls : List Backend × Option Error)
      → (ms.1 ≡ none → (ns.1 ≡ none) × (ls.1 ≡ none) × (ms.0 ≡ ns.0 ++ ls.0))
      → (sends r ms).1 ≡ none
      → ((sends r ns).1 ≡ none) × (ls.1 ≡ none) × ((sends r ms).0 ≡ (sends r ns).0 ++ ls.0)
  sends-append (err e) ms ns ls later h = cc
  sends-append (ok cells) ms ns ls later h =
      let (a, b, e) = later h in (a, b, ap (◌∷◌ (data_row cells)) e)

  pub row_messages-append :
      (xs ys : List (List Value))
      → Encodes (xs ++ ys)
      → Encodes xs × Encodes ys × (row_messages (xs ++ ys) ≡ row_messages xs ++ row_messages ys)
  unfolding pg_rows
  row_messages-append [] ys h = (refl, h, refl)
  row_messages-append (x ∷ xs) ys h =
      sends-append (pg_cells lib formats 0 fields x) (pg_rows lib fields formats (xs ++ ys))
        (pg_rows lib fields formats xs) (pg_rows lib fields formats ys)
        (λ k. row_messages-append xs ys k) h

  data_rows-sends :
      (r : Result Error (List (Option Bytes))) (ms : List Backend × Option Error)
      → data_rows ms.0 ≡ ms.0
      → data_rows (sends r ms).0 ≡ (sends r ms).0
  unfolding data_rows
  data_rows-sends (err e) ms h = refl
  data_rows-sends (ok cells) ms h = ap (◌∷◌ (data_row cells)) h

  pub data_rows-row_messages :
      (rows : List (List Value)) → data_rows (row_messages rows) ≡ row_messages rows
  unfolding pg_rows
  data_rows-row_messages [] = unfold data_rows in refl
  data_rows-row_messages (row ∷ rows) =
      data_rows-sends (pg_cells lib formats 0 fields row) (pg_rows lib fields formats rows)
        (data_rows-row_messages rows)

drop-nil : {A : Type 0} (n : ℕ) → ◌≡◌ {A = List A} (drop n []) []
drop-nil zero = refl
drop-nil (suc n) = refl

drop-drop : {A : Type 0} (m n k : ℕ) (xs : List A) → k ≡ m + n → drop n (drop m xs) ≡ drop k xs
drop-drop zero n k xs h = ap (λ i. drop i xs) (omega arith)
drop-drop (suc m) n zero xs h = absurd (omega arith)
drop-drop (suc m) n (suc k) [] h = drop-nil n
drop-drop (suc m) n (suc k) (x ∷ xs) h = drop-drop m n k xs (omega arith)

pub slice-append-drop :
    {A : Type 0} (from to : ℕ) (xs : List A)
    → from ≤ to
    → slice from to xs ++ drop to xs ≡ drop from xs
slice-append-drop from to xs h =
    rw (← drop-drop from (to - from) to xs (omega arith))
      (take-append-drop (to - from) (drop from xs))

pub end_of_rows-bounds :
    (n pos total : ℕ)
    → pos ≤ total
    → (pos ≤ end_of_rows n pos total) × (end_of_rows n pos total ≤ total)
unfolding end_of_rows
end_of_rows-bounds n pos total h = (ground arith, ground arith)
