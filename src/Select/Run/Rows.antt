-- ===== src/Select/Run/Rows.antt =====
-- The rows of a result, from the columns that the Milvus client returns.
use milvus_sql_proxy.Base.{
  ℕ, zero, suc, ◌+◌, List, [], ◌∷◌, ◌++◌, Bytes, equal, get_elem?, Option, none, some, is_some,
  if◌then◌else◌, Result, ok, err, ◌>>=◌,
}
use milvus_sql_proxy.Error.{Error, missing_result_field, incomplete_scores}
use milvus_sql_proxy.Value.{Value, float32}
use milvus_sql_proxy.Select.Run.Columns.{distance_name}

-- `GetColumn` of a result set, and `Len` and `Get` of a column.
pub record ColumnReader (C : Type 0) : Type 0 where
  pub get_column : List C → Bytes → Option C
  pub column_length : C → ℕ
  pub column_get : C → ℕ → Result Error Value

-- client.SearchResult; the scores are float32.
pub record SearchResult (C : Type 0) : Type 0 where
  pub error : Option Error
  pub fields : List C
  pub ids : Option C
  pub result_count : ℕ
  pub scores : List ℕ

-- `n` rows from row `i` on, each made by `cell` for each name.
unfoldable pub row_cells : (Bytes → Result Error Value) → List Bytes → Result Error (List Value)
row_cells cell [] = ok []
row_cells cell (n ∷ ns) = do v ← cell n; vs ← row_cells cell ns; ok (v ∷ vs)

unfoldable pub rows_with :
    (ℕ → Bytes → Result Error Value) → List Bytes → ℕ → ℕ → Result Error (List (List Value))
unfolding row_cells
rows_with cell names i zero = ok []
rows_with cell names i (suc n) = do
  row ← row_cells (cell i) names
  rows ← rows_with cell names (i + 1) n
  ok (row ∷ rows)

module _ {C : Type 0} (reader : ColumnReader C) where
  -- The value of a column, or of the other column if there is none.
  abbrev pub read_column : Bytes → ℕ → Option C → Option C → Result Error Value
  read_column n i (some c) ids = reader.column_get c i
  read_column n i none (some c) = reader.column_get c i
  read_column n i none none = err (missing_result_field n)

  unfoldable pub table_cell : List C → ℕ → Bytes → Result Error Value
  table_cell cols i n = read_column n i (reader.get_column cols n) none

  -- The rows of a query, as many as its first column has values.
  unfoldable pub table_rows : List C → List Bytes → Result Error (List (List Value))
  unfolding rows_with table_cell
  table_rows [] names = ok []
  table_rows (c ∷ cs) names = rows_with (table_cell (c ∷ cs)) names 0 (reader.column_length c)

  abbrev pub score : Option ℕ → Result Error Value
  score none = err incomplete_scores
  score (some x) = ok (float32 x)

  -- The column of identifiers stands in for the primary key.
  abbrev pub ids_for : Bytes → Bytes → Option C → Option C
  ids_for pk n ids = if equal n pk then ids else none

  unfoldable pub search_cell : Bytes → SearchResult C → List C → ℕ → Bytes → Result Error Value
  unfolding equal
  search_cell pk r cols i n =
      if equal n distance_name
      then score (get_elem? r.scores i)
      else read_column n i (reader.get_column cols n) (ids_for pk n r.ids)

  -- `cols = append(cols, r.IDs)`
  abbrev pub with_ids : Bytes → List C → Option C → List C
  with_ids pk cols none = cols
  with_ids pk cols (some c) = if is_some (reader.get_column cols pk) then cols else cols ++ c ∷ []

  unfoldable pub search_rows :
      Bytes → SearchResult C → List Bytes → Result Error (List (List Value))
  unfolding rows_with search_cell
  search_rows pk r names =
      rows_with (search_cell pk r (with_ids pk r.fields r.ids)) names 0 r.result_count
