-- ===== src/Select/Run/Announce.antt =====
-- The columns that Describe announces for a SELECT are those of its result.
use milvus_sql_proxy.Base.{
  true, ◌||◌, ◌≡◌, refl, sym, ◌∙◌, List, [], ◌∷◌, map, Bytes, length, length-map, subst,
  ok-injective, ◌==◌, Option, none, some, Result, ok, err, arith,
}
use milvus_sql_proxy.Base.Exec.{Exec, continue}
use milvus_sql_proxy.Base.Exec.Ensures.{Ensures, continue-eq-ok, if-Ensures}
use milvus_sql_proxy.Error.{Error}
use milvus_sql_proxy.Value.{Library, Value}
use milvus_sql_proxy.Ast.{Select}
use milvus_sql_proxy.Resultset.{Field, Resultset, QueryResult, build_resultset, check_rows}
use milvus_sql_proxy.Insert.Values.{FieldSchema}
use milvus_sql_proxy.Session.{ClientConn, rows, write_resultset}
use milvus_sql_proxy.Select.Plan.{SelectPlan}
use milvus_sql_proxy.Select.Run.Columns.{Printer, Target}
use milvus_sql_proxy.Select.Run.Rows.{SearchResult}
use milvus_sql_proxy.Select.Run.Requests.{SelectClient}
use milvus_sql_proxy.Select.Run.Dual.{dual}
use milvus_sql_proxy.Select.Run.{
  field_of_target, name_of_target, select_result, run_search, run_query, run_targets, run_plan,
  searches, get_collection_schema, handle_select, search_result, first_result, select_with,
}

-- The columns of a result, if it has any.
abbrev pub columns_of : Option Resultset → List Field
columns_of none = []
columns_of (some r) = r.fields

abbrev pub announced : QueryResult → List Field
announced r = columns_of r.resultset

-- Describing the statement of the session.
abbrev pub describing : ClientConn → ClientConn
describing c = record c { describe = true }

Announces : List Target → QueryResult → Type 0
Announces targets r = announced r ≡ map field_of_target targets

empty_resultset :
    (fields : List Field) (names : List Bytes)
    → length fields ≡ length names
    → (r : Resultset) × (build_resultset fields names [] ≡ ok r)
unfolding build_resultset check_rows
empty_resultset [] names h = (_, refl)
empty_resultset (f ∷ fs) names h = (record { fields = f ∷ fs; values = [] }, ground arith)

targets-length :
    (targets : List Target)
    → length (map field_of_target targets) ≡ length (map name_of_target targets)
targets-length targets =
    length-map field_of_target targets ∙ sym (length-map name_of_target targets)

module _ {W : Type 0} where
  select_result-Announces :
      (c : ClientConn) (targets : List Target) (values : List (List Value))
      → Ensures {W = W} (Announces targets) (select_result c targets values)
  unfolding select_result Announces
  select_result-Announces c targets values w r h =
      let (set, w', e, h') = continue-eq-ok _ _ h in
      subst (Announces targets) (ok-injective h') refl

  -- A description has the columns of the targets, and no rows.
  select_result-described :
      (c : ClientConn) (targets : List Target) (w : W)
      → (d : QueryResult) × ((select_result c targets [] w).0 ≡ ok d) × Announces targets d
  unfolding select_result Announces continue
  select_result-described c targets w =
      let (r, e) =
        empty_resultset (map field_of_target targets) (map name_of_target targets)
          (targets-length targets) in
      (write_resultset c (record r { fields = map field_of_target targets }), rw e refl, refl)

  -- Whenever the first operation has a result, the other has one with the same columns.
  Agrees : Exec W QueryResult → Exec W QueryResult → Type 0
  Agrees m n =
      (w : W) (r : QueryResult)
      → (m w).0 ≡ ok r
      → (d : QueryResult) × ((n w).0 ≡ ok d) × (announced d ≡ announced r)

  continue-Agrees :
      {A : Type 0} (k l : A → Exec W QueryResult) (x : Result Error A × W) {r : QueryResult}
      → ((a : A) → Agrees (k a) (l a))
      → (continue k x).0 ≡ ok r
      → (d : QueryResult) × ((continue l x).0 ≡ ok d) × (announced d ≡ announced r)
  unfolding Agrees continue
  continue-Agrees k l (err e, w) both h = cc
  continue-Agrees k l (ok a, w) {r} both h = both a w r h

module _ {W C : Type 0} (lib : Library) (printer : Printer) (client : SelectClient W C) where
  search_result-Announces :
      (c : ClientConn) (pk : Bytes) (targets : List Target) (found : List (SearchResult C))
      → Ensures (Announces targets) (search_result lib printer client c pk targets found)
  search_result-Announces c pk targets [] = select_result-Announces c targets []
  search_result-Announces c pk targets (r ∷ rs) = found r.error
    where
      found :
          (e : Option Error)
          → Ensures (Announces targets) (first_result lib printer client c pk targets r e)
      found none w r h =
          let (values, w', e, h') = continue-eq-ok _ _ h in
          select_result-Announces c targets values w' r h'
      found (some e) w r h = cc

  run_search-Announces :
      (c : ClientConn) (plan : SelectPlan) (fields : List (Bytes × FieldSchema)) (pk : Bytes)
      (targets : List Target)
      → Ensures (Announces targets) (run_search lib printer client c plan fields pk targets)
  unfolding run_search
  run_search-Announces c plan fields pk targets w r h =
      let (f, _, _, h1) = continue-eq-ok _ _ h in
      let (v, _, _, h2) = continue-eq-ok _ _ h1 in
      let (indexes, _, _, h3) = continue-eq-ok _ _ h2 in
      let (index, _, _, h4) = continue-eq-ok _ _ h3 in
      let (metric, _, _, h5) = continue-eq-ok _ _ h4 in
      let (floats, _, _, h6) = continue-eq-ok _ _ h5 in
      let (found, after, _, h7) = continue-eq-ok _ _ h6 in
      search_result-Announces c pk targets found after r h7

  run_query-Announces :
      (c : ClientConn) (s : Select) (plan : SelectPlan) (targets : List Target)
      → Ensures (Announces targets) (run_query lib printer client c s plan targets)
  unfolding run_query
  run_query-Announces c s plan targets w r h =
      let (page, _, _, h1) = continue-eq-ok _ _ h in
      let (cols, _, _, h2) = continue-eq-ok _ _ h1 in
      let (values, after, _, h3) = continue-eq-ok _ _ h2 in
      select_result-Announces c targets values after r h3

  run_targets-Agrees :
      (c : ClientConn) (s : Select) (plan : SelectPlan) (fields : List (Bytes × FieldSchema))
      (pk : Bytes) (targets : List Target)
      → Agrees
          (run_targets lib printer client c s plan fields pk targets)
          (run_targets lib printer client (describing c) s plan fields pk targets)
  unfolding run_targets Agrees Announces
  run_targets-Agrees c s plan fields pk targets w r h =
      let (d, e, same) = select_result-described (describing c) targets w in
      let executed =
        if-Ensures (Announces targets) (c.describe || plan.limit == 0) _ _
          (select_result-Announces c targets [])
          (if-Ensures (Announces targets) (searches plan) _ _
            (run_search-Announces c plan fields pk targets) (run_query-Announces c s plan targets))
          w r h in
      (d, e, same ∙ sym executed)

  run_plan-Agrees :
      (c : ClientConn) (s : Select) (plan : SelectPlan) (schema : List FieldSchema)
      → Agrees
          (run_plan lib printer client c s plan schema)
          (run_plan lib printer client (describing c) s plan schema)
  unfolding run_plan Agrees
  run_plan-Agrees c s plan schema w r h =
      continue-Agrees _ _ _
        (λ done w1 r1 h1.
          continue-Agrees _ _ _ (λ targets. run_targets-Agrees c s plan _ _ targets) h1)
        h

  select_with-Agrees :
      (c : ClientConn) (s : Select) (row : Option (Bytes × Value))
      → Agrees
          (select_with lib printer client c s row)
          (select_with lib printer client (describing c) s row)
  unfolding get_collection_schema rows Agrees
  select_with-Agrees c s (some (name, v)) w r h = (r, h, refl)
  select_with-Agrees c s none w r h =
      continue-Agrees _ _ _
        (λ plan w1 r1 h1. continue-Agrees _ _ _ (λ schema. run_plan-Agrees c s plan schema) h1) h

  -- If a SELECT that is executed has a result, then describing it in the same state has one too,
  -- with the same columns: their names, types, character sets and flags.
  pub describe-announces :
      (c : ClientConn) (s : Select) (w : W) (r : QueryResult)
      → (handle_select lib printer client c s w).0 ≡ ok r
      → (d : QueryResult) × ((handle_select lib printer client (describing c) s w).0 ≡ ok d)
        × (announced d ≡ announced r)
  unfolding handle_select dual Agrees
  describe-announces c s w r h = select_with-Agrees c s (dual printer c s) w r h
