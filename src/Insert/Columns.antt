-- ===== src/Insert/Columns.antt =====
-- `FillInsertColumns`: the rows of VALUES, checked against the schema, as one column for each
-- field. A column is the Milvus client's, a parameter.
pub mod Filled
pub mod Supplied
use milvus_sql_proxy.Base.{
  ℕ, suc, ◌+◌, Bool, true, false, not, ◌&&◌, ◌||◌, List, [], ◌∷◌, Bytes, codes, equal, length, ◌==◌,
  any, is_empty, get_elem?, Option, none, some, if◌then◌else◌, ℤ, pos, negsuc, Result, ok, err,
  ◌>>=◌, ◌>>◌, refuse,
}
use milvus_sql_proxy.Error.{
  Error, no_rows, explicit_auto_id, upsert_auto_id, unknown_field, duplicate_field, missing_field,
  row_length, bad_dimension, unsupported_field_type, in_cell, index_panic,
}
use milvus_sql_proxy.Value.{Library, Value}
use milvus_sql_proxy.Ast.{Expr, Insert, InsertRows, values, other_rows}
use milvus_sql_proxy.Postgres.Dictionary.{lookup, insert}
use milvus_sql_proxy.Resultset.{FieldType, field_string, field_other, field_float_vector}
use milvus_sql_proxy.Insert.Values.{FieldSchema, type_param, field_value}

-- `entity.NewColumn…(name, [dim,] nil)`, `AppendValue`, `Name` and the values of a column.
pub record ColumnApi (C : Type 0) : Type 0 where
  pub new_column : FieldType → Bytes → ℕ → C
  pub append_value : C → Value → Result Error C
  pub column_name : C → Bytes
  pub column_values : C → List Value

-- The map `fields`.
unfoldable pub field_map :
    List (Bytes × FieldSchema) → List FieldSchema → List (Bytes × FieldSchema)
unfolding insert
field_map m [] = m
field_map m (f ∷ fs) = field_map (insert f.name f m) fs

-- The names of an INSERT without a list of columns.
unfoldable pub default_names : List FieldSchema → List Bytes
default_names [] = []
default_names (f ∷ fs) = let rest = default_names fs in if f.auto_id then rest else f.name ∷ rest

unfoldable pub insert_names : List FieldSchema → List Bytes → List Bytes
unfolding default_names
insert_names fs [] = default_names fs
insert_names fs (n ∷ ns) = n ∷ ns

abbrev pub seen_in : List Bytes → Bytes → Bool
seen_in seen n = any (equal n) seen

abbrev pub check_name : List Bytes → Bytes → Option FieldSchema → Result Error (Unit {0})
check_name seen n none = err (unknown_field n)
check_name seen n (some f) = do
  refuse (seen_in seen n) (duplicate_field n)
  refuse f.auto_id (explicit_auto_id)

-- The names seen, the last one first.
unfoldable pub check_names :
    List (Bytes × FieldSchema) → List Bytes → List Bytes → Result Error (List Bytes)
unfolding lookup equal
check_names m seen [] = ok seen
check_names m seen (n ∷ ns) = do check_name seen n (lookup n m); check_names m (n ∷ seen) ns

unfoldable pub check_missing : List Bytes → List FieldSchema → Result Error (Unit {0})
unfolding equal
check_missing seen [] = ok tt
check_missing seen (f ∷ fs) = do
  refuse (not f.auto_id && not (seen_in seen f.name)) (missing_field f.name)
  check_missing seen fs

unfoldable pub check_lengths : ℕ → ℕ → List (List Expr) → Result Error (Unit {0})
check_lengths i n [] = ok tt
check_lengths i n (row ∷ rows) = do
  refuse (not (length row == n)) (row_length (i + 1) (length row) n)
  check_lengths (i + 1) n rows

-- `field %s row %d: %w`
abbrev pub wrap : {A : Type 0} → Bytes → ℕ → Result Error A → Result Error A
wrap name i (ok a) = ok a
wrap name i (err e) = err (in_cell name i e)

abbrev pub or_panic : {A : Type 0} → Option A → Result Error A
or_panic none = err index_panic
or_panic (some a) = ok a

module _ {C : Type 0} (lib : Library) (api : ColumnApi C) where
  abbrev pub vector_column : Bytes → Option ℤ → Result Error C
  vector_column name (some (pos (suc n))) = ok (api.new_column field_float_vector name (suc n))
  vector_column name _ = err bad_dimension

  unfoldable pub empty_column_of : FieldType → FieldSchema → Result Error C
  unfolding type_param
  empty_column_of field_float_vector f = vector_column f.name (type_param f (codes "dim"))
  empty_column_of field_string f = err unsupported_field_type
  empty_column_of field_other f = err unsupported_field_type
  empty_column_of t f = ok (api.new_column t f.name 0)

  abbrev pub empty_column : FieldSchema → Result Error C
  empty_column f = empty_column_of f.data_type f

  -- The inner loop: the values at `j` of the rows, row `i` the first of them.
  unfoldable pub fill_column : Bytes → FieldSchema → ℕ → ℕ → List (List Expr) → C → Result Error C
  unfolding field_value
  fill_column name f j i [] c = ok c
  fill_column name f j i (row ∷ rows) c = do
    e ← or_panic (get_elem? row j)
    v ← wrap name (i + 1) (field_value lib f e)
    d ← api.append_value c v
    fill_column name f j (i + 1) rows d

  -- The outer loop. A name that is not in the map would be a nil pointer.
  unfoldable pub fill_columns :
      List (Bytes × FieldSchema) → List (List Expr) → ℕ → List Bytes → Result Error (List C)
  unfolding empty_column_of fill_column lookup
  fill_columns m rows j [] = ok []
  fill_columns m rows j (n ∷ ns) = do
    f ← or_panic (lookup n m)
    start ← empty_column f
    c ← fill_column n f j 0 rows start
    cs ← fill_columns m rows (j + 1) ns
    ok (c ∷ cs)

  unfoldable pub values_rows : InsertRows → Result Error (List (List Expr))
  values_rows (values []) = err no_rows
  values_rows (values (row ∷ rows)) = ok (row ∷ rows)
  values_rows other_rows = err no_rows

  abbrev pub has_auto_id : List FieldSchema → Bool
  has_auto_id = any (λ f. f.auto_id)

  unfoldable pub fill_insert_columns : List FieldSchema → Insert → Result Error (List C)
  unfolding field_map insert_names check_names check_missing check_lengths fill_columns values_rows
  fill_insert_columns schema s = do
    rows ← values_rows s.rows
    let m = field_map [] schema
    let names = insert_names schema s.columns
    seen ← check_names m [] names
    refuse (s.is_replace && has_auto_id schema) upsert_auto_id
    check_missing seen schema
    check_lengths 0 (length names) rows
    fill_columns m rows 0 names
