-- ===== src/Query/Calls/Reads.antt =====
-- SELECT and SHOW.
use milvus_sql_proxy.Base.{
  ◌||◌, ◌==◌, List, [], ◌∷◌, Bytes, Option, none, some, codes, equal, to_upper,
}
use milvus_sql_proxy.Base.Exec.{Exec}
use milvus_sql_proxy.Base.Exec.Keeps.{Keeps, continue-Keeps, if-Keeps}
use milvus_sql_proxy.Error.{Error}
use milvus_sql_proxy.Ast.{Select}
use milvus_sql_proxy.Value.{Value, Library}
use milvus_sql_proxy.Insert.Values.{FieldSchema}
use milvus_sql_proxy.Indexes.{vector_indexes, list_indexes}
use milvus_sql_proxy.Session.{ClientConn, rows}
use milvus_sql_proxy.Select.Plan.{SelectPlan}
use milvus_sql_proxy.Select.Run.Columns.{Printer, Target}
use milvus_sql_proxy.Select.Run.Rows.{SearchResult}
use milvus_sql_proxy.Select.Run.{
  searches, select_result, first_result, search_result, run_search, run_query, run_targets,
  run_plan, get_collection_schema, select_with, handle_select,
}
use milvus_sql_proxy.Query.Handlers.{name_rows, show_names, handle_show}
use milvus_sql_proxy.Milvus.{Milvus}
use milvus_sql_proxy.Query.Calls.{CallsKeep}

module _ {W C : Type 0} (Q : W → Type 0) (up : Milvus W C) (calls : CallsKeep Q up)
    (c : ClientConn) where
  pub rows-Keeps : (names : List Bytes) (values : List (List Value)) → Keeps Q (rows c names values)
  unfolding rows
  rows-Keeps names values w h = continue-Keeps Q _ _ (λ r w' h'. h') h

  pub list_indexes-Keeps : (table : Bytes) → Keeps Q (list_indexes up.reads.indexes table)
  unfolding list_indexes
  list_indexes-Keeps table =
      if-Keeps Q up.reads.indexes.is_grpc _ _
        (λ w h. continue-Keeps Q _ _ (λ r w' h'. h') (calls.service_describe_index table [] w h))
        (λ w h. h)

  vector_indexes-Keeps :
      (table field : Bytes) → Keeps Q (vector_indexes up.reads.indexes table field)
  unfolding vector_indexes
  vector_indexes-Keeps table field =
      if-Keeps Q up.reads.indexes.is_grpc _ _
        (λ w h. continue-Keeps Q _ _ (λ r w' h'. h') (calls.service_describe_index table field w h))
        (calls.describe_index table field)

  select_result-Keeps :
      (targets : List Target) (values : List (List Value))
      → Keeps Q (select_result c targets values)
  unfolding select_result
  select_result-Keeps targets values w h = continue-Keeps Q _ _ (λ r w' h'. h') h

  module _ (lib : Library) (printer : Printer) where
    first_result-Keeps :
        (pk : Bytes) (targets : List Target) (r : SearchResult C) (e : Option Error)
        → Keeps Q (first_result lib printer up.reads c pk targets r e)
    first_result-Keeps pk targets r (some e) w h = h
    first_result-Keeps pk targets r none w h =
        continue-Keeps Q _ _ (λ values. select_result-Keeps targets values) h

    search_result-Keeps :
        (pk : Bytes) (targets : List Target) (rs : List (SearchResult C))
        → Keeps Q (search_result lib printer up.reads c pk targets rs)
    search_result-Keeps pk targets [] = select_result-Keeps targets []
    search_result-Keeps pk targets (r ∷ rs) = first_result-Keeps pk targets r r.error

    run_search-Keeps :
        (plan : SelectPlan) (fields : List (Bytes × FieldSchema)) (pk : Bytes)
        (targets : List Target)
        → Keeps Q (run_search lib printer up.reads c plan fields pk targets)
    unfolding run_search
    run_search-Keeps plan fields pk targets w h =
        continue-Keeps Q _ _
          (λ f w1 h1.
            continue-Keeps Q _ _
              (λ v w2 h2.
                continue-Keeps Q _ _
                  (λ indexes w3 h3.
                    continue-Keeps Q _ _
                      (λ index w4 h4.
                        continue-Keeps Q _ _
                          (λ metric w5 h5.
                            continue-Keeps Q _ _
                              (λ floats w6 h6.
                                continue-Keeps Q _ _ (search_result-Keeps pk targets)
                                  (calls.search _ w6 h6))
                              h5)
                          h4)
                      h3)
                  (vector_indexes-Keeps plan.table plan.vector_field w2 h2))
              h1)
          h

    run_query-Keeps :
        (s : Select) (plan : SelectPlan) (targets : List Target)
        → Keeps Q (run_query lib printer up.reads c s plan targets)
    unfolding run_query
    run_query-Keeps s plan targets w h =
        continue-Keeps Q _ _
          (λ page w1 h1.
            continue-Keeps Q _ _
              (λ cols w2 h2. continue-Keeps Q _ _ (λ values. select_result-Keeps targets values) h2)
              (calls.query _ w1 h1))
          h

    run_targets-Keeps :
        (s : Select) (plan : SelectPlan) (fields : List (Bytes × FieldSchema)) (pk : Bytes)
        (targets : List Target)
        → Keeps Q (run_targets lib printer up.reads c s plan fields pk targets)
    unfolding run_targets
    run_targets-Keeps s plan fields pk targets =
        if-Keeps Q (c.describe || plan.limit == 0) _ _ (select_result-Keeps targets []) (
          if-Keeps Q (searches plan) _ _ (run_search-Keeps plan fields pk targets)
            (run_query-Keeps s plan targets))

    run_plan-Keeps :
        (s : Select) (plan : SelectPlan) (schema : List FieldSchema)
        → Keeps Q (run_plan lib printer up.reads c s plan schema)
    unfolding run_plan
    run_plan-Keeps s plan schema w h =
        continue-Keeps Q _ _
          (λ done w1 h1. continue-Keeps Q _ _ (λ targets. run_targets-Keeps s plan _ _ targets) h1)
          h

    select_with-Keeps :
        (s : Select) (row : Option (Bytes × Value))
        → Keeps Q (select_with lib printer up.reads c s row)
    unfolding get_collection_schema
    select_with-Keeps s (some (name, v)) w h = rows-Keeps _ _ w h
    select_with-Keeps s none w h =
        continue-Keeps Q _ _
          (λ plan w1 h1.
            continue-Keeps Q _ _ (λ schema. run_plan-Keeps s plan schema)
              (continue-Keeps Q _ _ (λ schema w' h'. h')
                (calls.describe_collection plan.table w1 h1)))
          h

    pub handle_select-Keeps : (s : Select) → Keeps Q (handle_select lib printer up.reads c s)
    unfolding handle_select
    handle_select-Keeps s = select_with-Keeps s _

  name_rows-Keeps : (column : Bytes) (names : List Bytes) → Keeps Q (name_rows up c column names)
  name_rows-Keeps column [] w h = rows-Keeps (column ∷ []) [] w h
  name_rows-Keeps column (n ∷ ns) w h = continue-Keeps Q _ _ (λ r w' h'. h') h

  show_names-Keeps :
      (column : Bytes) (names : Exec W (List Bytes))
      → Keeps Q names
      → Keeps Q (show_names up c column names)
  show_names-Keeps column names k =
      if-Keeps Q c.describe _ _ (rows-Keeps (column ∷ []) [])
        (λ w h. continue-Keeps Q _ _ (name_rows-Keeps column) (k w h))

  pub handle_show-Keeps : (type : Bytes) → Keeps Q (handle_show up c type)
  unfolding handle_show
  handle_show-Keeps type =
      if-Keeps Q (equal (to_upper type) (codes "DATABASES")) _ _
        (show_names-Keeps (codes "DATABASES") up.list_databases calls.list_databases)
        (if-Keeps Q (equal (to_upper type) (codes "TABLES")) _ _
          (show_names-Keeps (codes "TABLES") up.list_collections calls.list_collections) (λ w h. h))
