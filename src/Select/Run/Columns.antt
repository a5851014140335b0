-- ===== src/Select/Run/Columns.antt =====
-- The columns of a SELECT: their names and types, from the schema, before anything is asked of
-- the collection.
use milvus_sql_proxy.Base.{
  Bool, false, not, ◌&&◌, ◌||◌, List, [], ◌∷◌, map, Bytes, codes, equal, Option, none, some,
  if◌then◌else◌, Result, ok, err, ◌>>=◌,
}
use milvus_sql_proxy.Error.{Error, unknown_field, count_with_vector, index_panic}
use milvus_sql_proxy.Ast.{Expr, col_name, SelectExpr, aliased, TableExpr}
use milvus_sql_proxy.Postgres.Dictionary.{lookup}
use milvus_sql_proxy.Resultset.{FieldType, field_int64, field_float}
use milvus_sql_proxy.Select.Vector.{equal_fold}
use milvus_sql_proxy.Insert.Values.{FieldSchema}
use milvus_sql_proxy.Insert.Columns.{seen_in}

-- `sqlparser.String` of the nodes that the package prints.
pub record Printer : Type 0 where
  pub expr : Expr → Bytes
  pub select_expr : SelectExpr → Bytes
  pub table_expr : TableExpr → Bytes

-- The name and the type of a result column.
abbrev pub Target : Type 0
Target = Bytes × FieldType

abbrev pub count_name : Bytes
count_name = codes "count(*)"

abbrev pub distance_name : Bytes
distance_name = codes "_distance"

-- `expr.(*AliasedExpr).Expr.(*ColName).Name`, which panics on anything else.
abbrev pub name_of_column : Expr → Result Error Bytes
name_of_column (col_name qualifier name) = ok name
name_of_column _ = err index_panic

abbrev pub column_name_of : SelectExpr → Result Error Bytes
column_name_of (aliased e alias) = name_of_column e
column_name_of _ = err index_panic

unfoldable pub select_name : Printer → SelectExpr → Result Error Bytes
unfolding equal
select_name printer e =
    if equal_fold (printer.select_expr e) count_name then ok count_name else column_name_of e

abbrev pub target_of_field : Bytes → Option FieldSchema → Result Error Target
target_of_field name none = err (unknown_field name)
target_of_field name (some f) = ok (name, f.data_type)

-- The switch on a name; `searches` says that there is a vector predicate.
unfoldable pub select_target : Bool → List (Bytes × FieldSchema) → Bytes → Result Error Target
unfolding lookup equal
select_target searches fields name =
    if equal name count_name
    then (if searches then err count_with_vector else ok (name, field_int64))
    else if equal name distance_name && searches
    then ok (name, field_float)
    else target_of_field name (lookup name fields)

unfoldable pub named_targets :
    Printer → Bool → List (Bytes × FieldSchema) → List SelectExpr → Result Error (List Target)
unfolding select_name select_target
named_targets printer searches fields [] = ok []
named_targets printer searches fields (e ∷ es) = do
  name ← select_name printer e
  t ← select_target searches fields name
  ts ← named_targets printer searches fields es
  ok (t ∷ ts)

abbrev pub field_target : FieldSchema → Target
field_target f = (f.name, f.data_type)

-- `len(stmt.SelectExprs) == 1 && sqlparser.String(stmt.SelectExprs[0]) == "*"`
unfoldable pub is_all : Printer → List SelectExpr → Bool
unfolding equal
is_all printer (e ∷ []) = equal (printer.select_expr e) (codes "*")
is_all printer _ = false

unfoldable pub select_targets :
    Printer
    → Bool
    → List FieldSchema
    → List (Bytes × FieldSchema)
    → List SelectExpr
    → Result Error (List Target)
unfolding is_all named_targets
select_targets printer searches schema fields es =
    if is_all printer es
    then ok (map field_target schema)
    else named_targets printer searches fields es

-- The fields to ask for: each name once, without the score.
unfoldable pub output_names : Bool → List Bytes → List Bytes → List Bytes
unfolding equal
output_names searches seen [] = []
output_names searches seen (n ∷ ns) =
    let fresh = n ∷ output_names searches (n ∷ seen) ns in
    let rest = output_names searches seen ns in
    if (not (equal n distance_name) || not searches) && not (seen_in seen n) then fresh else rest
