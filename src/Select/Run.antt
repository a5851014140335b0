-- ===== src/Select/Run.antt =====
-- `handleSelect` of pkg/select.go: a plan is run as a query or as a vector search, and the columns
-- that come back are made rows. The Milvus client and its columns are parameters.
pub mod Columns
pub mod Rows
pub mod Requests
pub mod Dual
pub mod Cells
pub mod Found
pub mod Announce
use milvus_sql_proxy.Base.{
  ℕ, Bool, true, false, not, ◌&&◌, ◌||◌, List, [], ◌∷◌, map, Bytes, codes, equal, ◌==◌, Option,
  none, some, is_some, if◌then◌else◌, Result, ok, err, refuse,
}
use milvus_sql_proxy.Base.Exec.{Exec, pure, lift, ◌>>=◌, ◌>>◌}
use milvus_sql_proxy.Error.{
  Error, reserved_distance, no_schema, no_float_vector, no_vector_index, no_metric,
  count_with_limit, index_panic,
}
use milvus_sql_proxy.Value.{Library, Value, vector}
use milvus_sql_proxy.Ast.{Expr, other, Select, is_blank}
use milvus_sql_proxy.Postgres.Dictionary.{lookup}
use milvus_sql_proxy.Resultset.{Field, QueryResult, build_resultset, result_field}
use milvus_sql_proxy.Insert.Values.{FieldSchema, field_value, text_or_blank}
use milvus_sql_proxy.Insert.Columns.{field_map}
use milvus_sql_proxy.Ddl.{is_type_vector}
use milvus_sql_proxy.Indexes.{Index, vector_indexes}
use milvus_sql_proxy.Session.{ClientConn, write_resultset, rows}
use milvus_sql_proxy.Select.Plan.{SelectPlan, plan_select}
use milvus_sql_proxy.Select.Run.Columns.{
  Printer, Target, select_targets, output_names, count_name, distance_name,
}
use milvus_sql_proxy.Select.Run.Rows.{SearchResult, table_rows, search_rows}
use milvus_sql_proxy.Select.Run.Dual.{dual}
use milvus_sql_proxy.Select.Run.Requests.{SelectClient, search_params}

-- The last field that is marked as the primary key.
unfoldable pub primary_name : Bytes → List FieldSchema → Bytes
primary_name pk [] = pk
primary_name pk (f ∷ fs) = primary_name (if f.primary_key then f.name else pk) fs

abbrev pub field_of_target : Target → Field
field_of_target t = result_field t.0 t.1

abbrev pub name_of_target : Target → Bytes
name_of_target t = t.0

-- `result`
unfoldable pub select_result :
    {W : Type 0} → ClientConn → List Target → List (List Value) → Exec W QueryResult
unfolding build_resultset
select_result c targets values = do
  r ← lift (build_resultset (map field_of_target targets) (map name_of_target targets) values)
  pure (write_resultset c (record r { fields = map field_of_target targets }))

abbrev pub searches : SelectPlan → Bool
searches plan = not (is_blank plan.vector_field)

-- The vector field of a search.
abbrev pub search_field : Option FieldSchema → Result Error FieldSchema
search_field none = err no_float_vector
search_field (some f) = if is_type_vector f.data_type then ok f else err no_float_vector

abbrev pub vector_expr_of : Option Expr → Expr
vector_expr_of none = other
vector_expr_of (some e) = e

-- `v.([]float32)`
abbrev pub floats_of : Value → Result Error (List ℕ)
floats_of (vector v) = ok v
floats_of _ = err index_panic

abbrev pub first_index : List Index → Result Error Index
first_index [] = err no_vector_index
first_index (i ∷ is) = ok i

abbrev pub metric_of : Bytes → Result Error Bytes
metric_of [] = err no_metric
metric_of (b ∷ bs) = ok (b ∷ bs)

-- The limit and the offset of a query; a count has none.
abbrev pub is_count : List Bytes → Bool
is_count (n ∷ []) = equal n count_name
is_count _ = false

unfoldable pub query_page : Select → SelectPlan → List Bytes → Result Error (Option (ℕ × ℕ))
unfolding equal
query_page s plan names =
    if not (is_count names)
    then ok (some (plan.limit, plan.offset))
    else if is_some s.limit
    then err count_with_limit
    else ok none

abbrev pub schema_or_error : Option (List FieldSchema) → Result Error (List FieldSchema)
schema_or_error none = err no_schema
schema_or_error (some schema) = ok schema

module _ {W C : Type 0} (lib : Library) (printer : Printer) (client : SelectClient W C)
    (c : ClientConn) where
  -- `GetCollectinSchema`
  unfoldable pub get_collection_schema : Bytes → Exec W (List FieldSchema)
  get_collection_schema table = do
    schema ← client.describe_collection table
    lift (schema_or_error schema)

  -- The result of the first search result, if there is one.
  abbrev pub first_result : Bytes → List Target → SearchResult C → Option Error → Exec W QueryResult
  first_result pk targets r (some e) = lift (err e)
  first_result pk targets r none = do
    values ← lift (search_rows client.columns pk r (map name_of_target targets))
    select_result c targets values

  abbrev pub search_result : Bytes → List Target → List (SearchResult C) → Exec W QueryResult
  search_result pk targets [] = select_result c targets []
  search_result pk targets (r ∷ rs) = first_result pk targets r r.error

  unfoldable pub run_search :
      SelectPlan → List (Bytes × FieldSchema) → Bytes → List Target → Exec W QueryResult
  unfolding lookup field_value vector_indexes search_params output_names select_result search_rows
  run_search plan fields pk targets = do
    f ← lift (search_field (lookup plan.vector_field fields))
    v ← lift (field_value lib f (vector_expr_of plan.vector_expr))
    indexes ← vector_indexes client.indexes plan.table plan.vector_field
    index ← lift (first_index indexes)
    metric ← lift (metric_of (text_or_blank (lookup (codes "metric_type") index.params)))
    floats ← lift (floats_of v)
    found ← client.search (record {
      table = plan.table;
      filter = plan.filter;
      outputs = output_names true [] (map name_of_target targets);
      vector = floats;
      vector_field = plan.vector_field;
      metric = metric;
      params = search_params index.kind plan.limit plan.offset;
      limit = plan.limit;
      offset = plan.offset;
    })
    search_result pk targets found

  abbrev pub query_result : List Target → List C → Exec W QueryResult
  query_result targets cols = do
    values ← lift (table_rows client.columns cols (map name_of_target targets))
    select_result c targets values

  unfoldable pub run_query : Select → SelectPlan → List Target → Exec W QueryResult
  unfolding output_names select_result table_rows query_page
  run_query s plan targets = do
    page ← lift (query_page s plan (map name_of_target targets))
    cols ← client.query (record {
      table = plan.table;
      filter = plan.filter;
      outputs = output_names false [] (map name_of_target targets);
      page = page;
    })
    query_result targets cols

  -- The plan with its columns: nothing is asked for if it is only described or has no rows.
  unfoldable pub run_targets :
      Select → SelectPlan → List (Bytes × FieldSchema) → Bytes → List Target → Exec W QueryResult
  unfolding select_result run_search run_query
  run_targets s plan fields pk targets =
      if c.describe || plan.limit == 0
      then select_result c targets []
      else if searches plan
      then run_search plan fields pk targets
      else run_query s plan targets

  unfoldable pub run_plan : Select → SelectPlan → List FieldSchema → Exec W QueryResult
  unfolding field_map lookup select_targets primary_name run_targets
  run_plan s plan schema = do
    let fields = field_map [] schema
    lift (refuse (searches plan && is_some (lookup distance_name fields)) reserved_distance)
    targets ← lift (select_targets printer (searches plan) schema fields s.select_exprs)
    run_targets s plan fields (primary_name [] schema) targets

  abbrev pub select_with : Select → Option (Bytes × Value) → Exec W QueryResult
  select_with s (some (name, v)) = rows c (name ∷ []) ((v ∷ []) ∷ [])
  select_with s none = do
    plan ← lift (plan_select lib printer.expr s)
    schema ← get_collection_schema plan.table
    run_plan s plan schema

  -- `handleSelect`
  unfoldable pub handle_select : Select → Exec W QueryResult
  unfolding dual rows plan_select get_collection_schema run_plan
  handle_select s = select_with s (dual printer c s)
