-- ===== src/Insert.antt =====
-- `handleInsert` and `handleDelete`. The Milvus client is a parameter, whose state is `W`.
pub mod Values
pub mod Columns
pub mod Writes
use milvus_sql_proxy.Base.{
  ℕ, ◌+◌, Bool, true, false, not, ◌||◌, List, [], ◌∷◌, Bytes, length, ltb, is_empty, Option, none,
  some, is_some, if◌then◌else◌, ℤ, pos, negsuc, Result, ok, err, ◌>>=◌, ◌>>◌, refuse,
}
use milvus_sql_proxy.Error.{
  Error, no_schema, unsupported_insert, unsupported_delete, unsupported_delete_target,
  one_collection,
}
use milvus_sql_proxy.Value.{Library, Value, signed, int64}
use milvus_sql_proxy.Ast.{
  Expr, Insert, InsertRows, values, other_rows, Delete, TableExpr, aliased_table, other_table,
  table_name, subquery, is_blank,
}
use milvus_sql_proxy.Select.Filter.{scalar_filter}
use milvus_sql_proxy.Insert.Values.{FieldSchema}
use milvus_sql_proxy.Insert.Columns.{ColumnApi, fill_insert_columns}

-- `DescribeCollection` (none: no collection or no schema), and the three writes. The identifiers
-- that a write returns are kept as the first of them, if there is one.
pub record Upstream (W C : Type 0) : Type 0 where
  pub describe_collection : W → Bytes → Result Error (Option (List FieldSchema)) × W
  pub upsert : W → Bytes → List C → Result Error (Option Value) × W
  pub insert : W → Bytes → List C → Result Error (Option Value) × W
  pub delete : W → Bytes → Bytes → Result Error (Unit {0}) × W

-- mysql.Result, as `writeOK` gets it.
pub record Written : Type 0 where
  pub affected_rows : ℕ
  pub insert_id : ℕ

abbrev pub row_count : InsertRows → ℕ
row_count (values rows) = length rows
row_count other_rows = 0

abbrev pub first_id : Option Value → ℕ
first_id (some (signed int64 (pos n))) = n
first_id _ = 0

abbrev pub plain_delete_table : TableExpr → Result Error Bytes
plain_delete_table (aliased_table (table_name qualifier name) alias hints) =
    if not (is_blank alias) || hints || not (is_blank qualifier)
    then err unsupported_delete_target
    else ok name
plain_delete_table _ = err unsupported_delete_target

unfoldable pub delete_table : List TableExpr → Result Error Bytes
delete_table (t ∷ []) = plain_delete_table t
delete_table _ = err one_collection

module _ {W C : Type 0} (lib : Library) (api : ColumnApi C) (up : Upstream W C) where
  abbrev pub written : Insert → Result Error (Option Value) × W → Result Error Written × W
  written s (err e, w) = (err e, w)
  written s (ok id, w) =
      (ok (record { affected_rows = row_count s.rows; insert_id = first_id id }), w)

  abbrev pub write_columns : Insert → W → Result Error (List C) → Result Error Written × W
  write_columns s w (err e) = (err e, w)
  write_columns s w (ok columns) =
      written s (if s.is_replace then up.upsert w s.table columns else up.insert w s.table columns)

  abbrev pub insert_with :
      Insert → Result Error (Option (List FieldSchema)) × W → Result Error Written × W
  insert_with s (err e, w) = (err e, w)
  insert_with s (ok none, w) = (err no_schema, w)
  insert_with s (ok (some schema), w) = write_columns s w (fill_insert_columns lib api schema s)

  abbrev pub has_unsupported_insert : Insert → Bool
  has_unsupported_insert s =
      not (is_blank s.qualifier)
      || not (is_blank s.ignore)
      || ltb 0 s.on_dup
      || not (is_empty s.partitions)

  unfoldable pub handle_insert : Insert → W → Result Error Written × W
  unfolding fill_insert_columns
  handle_insert s w =
      if has_unsupported_insert s
      then (err unsupported_insert, w)
      else insert_with s (up.describe_collection w s.table)

  abbrev pub has_unsupported_delete : Delete → Bool
  has_unsupported_delete s =
      not (is_empty s.targets)
      || not (is_empty s.partitions)
      || is_some s.limit
      || not (is_empty s.order_by)
      || not (is_some s.where_expr)

  abbrev pub filter_of : Option Expr → Result Error Bytes
  filter_of none = err unsupported_delete
  filter_of (some e) = scalar_filter lib e

  -- The table and the filter of a DELETE.
  unfoldable pub plan_delete : Delete → Result Error (Bytes × Bytes)
  unfolding delete_table scalar_filter
  plan_delete s = do
    refuse (has_unsupported_delete s) unsupported_delete
    table ← delete_table s.table_exprs
    filter ← filter_of s.where_expr
    ok (table, filter)

  abbrev pub delete_planned : W → Result Error (Bytes × Bytes) → Result Error (Unit {0}) × W
  delete_planned w (err e) = (err e, w)
  delete_planned w (ok (table, filter)) = up.delete w table filter

  unfoldable pub handle_delete : Delete → W → Result Error (Unit {0}) × W
  unfolding plan_delete
  handle_delete s w = delete_planned w (plan_delete s)
