-- ===== src/Select/Run/Cells.antt =====
-- The cells of the rows that a SELECT returns.
use milvus_sql_proxy.Base.{
  ℕ, zero, suc, ◌+◌, ◌≡◌, refl, subst, List, [], ◌∷◌, Bytes, Option, none, some, Result, ok,
  >>=-eq-ok, ok-injective,
}
use milvus_sql_proxy.Error.{Error}
use milvus_sql_proxy.Value.{Value}
use milvus_sql_proxy.Select.Run.Rows.{
  ColumnReader, row_cells, rows_with, read_column, table_cell, table_rows,
}

-- A row with a value that is right for each name.
pub data IsRow (Right : Bytes → Value → Type 0) : List Bytes → List Value → Type 0 where
  no_cells : IsRow Right [] []
  a_cell :
      {n : Bytes} {v : Value} {ns : List Bytes} {vs : List Value}
      → Right n v
      → IsRow Right ns vs
      → IsRow Right (n ∷ ns) (v ∷ vs)

-- The `n` rows from row `i` on.
pub data AreRows (Right : ℕ → Bytes → Value → Type 0) (ns : List Bytes)
    : ℕ → ℕ → List (List Value) → Type 0 where
  no_rows : {i : ℕ} → AreRows Right ns i 0 []
  a_row :
      {i n : ℕ} {row : List Value} {rows : List (List Value)}
      → IsRow (Right i) ns row
      → AreRows Right ns (i + 1) n rows
      → AreRows Right ns i (suc n) (row ∷ rows)

module _ (Right : ℕ → Bytes → Value → Type 0) (cell : ℕ → Bytes → Result Error Value)
    (is_right : (i : ℕ) (n : Bytes) (v : Value) → cell i n ≡ ok v → Right i n v) where
  row_cells-IsRow :
      (i : ℕ) (ns : List Bytes) {row : List Value}
      → row_cells (cell i) ns ≡ ok row
      → IsRow (Right i) ns row
  unfolding row_cells
  row_cells-IsRow i [] h = subst (IsRow (Right i) []) (ok-injective h) no_cells
  row_cells-IsRow i (n ∷ ns) h =
      let (v, ev, h') = >>=-eq-ok (cell i n) _ h in
      let (vs, es, h'') = >>=-eq-ok (row_cells (cell i) ns) _ h' in
      subst (IsRow (Right i) (n ∷ ns)) (ok-injective h'')
        (a_cell (is_right i n v ev) (row_cells-IsRow i ns es))

  pub rows_with-AreRows :
      (ns : List Bytes) (i n : ℕ) {rows : List (List Value)}
      → rows_with cell ns i n ≡ ok rows
      → AreRows Right ns i n rows
  unfolding rows_with
  rows_with-AreRows ns i zero h = subst (AreRows Right ns i 0) (ok-injective h) no_rows
  rows_with-AreRows ns i (suc n) h =
      let (row, er, h') = >>=-eq-ok (row_cells (cell i) ns) _ h in
      let (rest, es, h'') = >>=-eq-ok (rows_with cell ns (i + 1) n) _ h' in
      subst (AreRows Right ns i (suc n)) (ok-injective h'')
        (a_row (row_cells-IsRow i ns er) (rows_with-AreRows ns (i + 1) n es))

module _ {C : Type 0} (reader : ColumnReader C) where
  -- The value of a column that has the name.
  pub data IsTableCell (cols : List C) (i : ℕ) (n : Bytes) (v : Value) : Type 0 where
    table_value :
        {c : C}
        → reader.get_column cols n ≡ some c
        → reader.column_get c i ≡ ok v
        → IsTableCell cols i n v

  table_cell-IsTableCell :
      (cols : List C) (i : ℕ) (n : Bytes) (v : Value)
      → table_cell reader cols i n ≡ ok v
      → IsTableCell cols i n v
  unfolding table_cell
  table_cell-IsTableCell cols i n v h = found (reader.get_column cols n) refl h
    where
      found :
          (o : Option C)
          → reader.get_column cols n ≡ o
          → read_column reader n i o none ≡ ok v
          → IsTableCell cols i n v
      found none e h = cc
      found (some c) e h = table_value e h

  -- The rows of a query are as many as its first column has values, and in each of them, for each
  -- name in order, stands the value that the column of that name has at the row's position.
  pub table_rows-AreRows :
      (c : C) (cs : List C) (names : List Bytes) (rows : List (List Value))
      → table_rows reader (c ∷ cs) names ≡ ok rows
      → AreRows (IsTableCell (c ∷ cs)) names 0 (reader.column_length c) rows
  unfolding table_rows
  table_rows-AreRows c cs names rows h =
      rows_with-AreRows (IsTableCell (c ∷ cs)) (table_cell reader (c ∷ cs))
        (table_cell-IsTableCell (c ∷ cs)) names 0 (reader.column_length c) h
