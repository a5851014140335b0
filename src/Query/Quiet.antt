-- ===== src/Query/Quiet.antt =====
-- Describing a statement asks the Milvus service for the schema of a collection, and for nothing
-- else.
use milvus_sql_proxy.Base.{
  ℕ, zero, suc, List, [], ◌∷◌, Bytes, Option, none, some, is_some, codes, equal, to_upper,
  if◌then◌else◌, err,
}
use milvus_sql_proxy.Base.Exec.{Exec, pure, lift}
use milvus_sql_proxy.Base.Exec.Keeps.{Keeps, continue-Keeps, if-Keeps}
use milvus_sql_proxy.Error.{mysql_error, er_unknown_error, unsupported_show, empty_statement}
use milvus_sql_proxy.Commands.Options.{trim_space}
use milvus_sql_proxy.Ast.{Select, is_blank}
use milvus_sql_proxy.Value.{Value}
use milvus_sql_proxy.Resultset.{QueryResult, no_result}
use milvus_sql_proxy.Insert.Values.{FieldSchema}
use milvus_sql_proxy.Session.{ClientConn, rows}
use milvus_sql_proxy.Select.Plan.{SelectPlan}
use milvus_sql_proxy.Select.Run.Columns.{Target}
use milvus_sql_proxy.Select.Run.Announce.{describing}
use milvus_sql_proxy.Select.Run.{
  select_result, run_targets, run_plan, get_collection_schema, select_with, handle_select,
}
use milvus_sql_proxy.Commands.Patterns.{upsert_pattern}
use milvus_sql_proxy.Commands.{
  Run, trim_statement, handle_milvus_command, plain_command, lifecycle, describe_table,
  create_index, drop_index, show_indexes, partition, show_partitions, kept,
}
use milvus_sql_proxy.Query.Statements.{
  Statement, show_stmt, db_ddl_stmt, ddl_stmt, select_stmt, insert_stmt, delete_stmt, use_stmt,
  other_stmt,
}
use milvus_sql_proxy.Query.Handlers.{handle_show}
use milvus_sql_proxy.Query.Handled.{
  HandledKeeps, none-Keeps, on_match-Keeps, if-HandledKeeps, keep-Keeps, kept-Keeps,
}
use milvus_sql_proxy.Query.{
  Backends, dispatch, run_statement, parse_and_run, command_or, handle_query, execute, describe,
}

module _ {W C : Type 0} (P : W → Type 0) (b : Backends W C)
    (read : (table : Bytes) → Keeps P (b.milvus.reads.describe_collection table)) where
  rows-Keeps :
      (c : ClientConn) (names : List Bytes) (values : List (List Value))
      → Keeps P (rows c names values)
  unfolding rows
  rows-Keeps c names values w h = continue-Keeps P _ _ (λ r w' h'. h') h

  select_result-Keeps :
      (c : ClientConn) (targets : List Target) (values : List (List Value))
      → Keeps P (select_result c targets values)
  unfolding select_result
  select_result-Keeps c targets values w h = continue-Keeps P _ _ (λ r w' h'. h') h

  run_plan-Keeps :
      (c : ClientConn) (s : Select) (plan : SelectPlan) (schema : List FieldSchema)
      → Keeps P (run_plan b.library b.printer b.milvus.reads (describing c) s plan schema)
  unfolding run_plan run_targets
  run_plan-Keeps c s plan schema w h =
      continue-Keeps P _ _
        (λ done w1 h1.
          continue-Keeps P _ _ (λ targets. select_result-Keeps (describing c) targets []) h1)
        h

  get_collection_schema-Keeps :
      (c : ClientConn) (table : Bytes)
      → Keeps P (get_collection_schema b.library b.printer b.milvus.reads c table)
  unfolding get_collection_schema
  get_collection_schema-Keeps c table w h =
      continue-Keeps P _ _ (λ schema w1 h1. h1) (read table w h)

  select_with-Keeps :
      (c : ClientConn) (s : Select) (row : Option (Bytes × Value))
      → Keeps P (select_with b.library b.printer b.milvus.reads (describing c) s row)
  select_with-Keeps c s (some (name, v)) w h = rows-Keeps (describing c) _ _ w h
  select_with-Keeps c s none w h =
      continue-Keeps P _ _
        (λ plan w1 h1.
          continue-Keeps P _ _ (λ schema. run_plan-Keeps c s plan schema)
            (get_collection_schema-Keeps (describing c) _ w1 h1))
        h

  handle_select-Keeps :
      (c : ClientConn) (s : Select)
      → Keeps P (handle_select b.library b.printer b.milvus.reads (describing c) s)
  unfolding handle_select
  handle_select-Keeps c s = select_with-Keeps c s _

  handle_show-Keeps :
      (c : ClientConn) (type : Bytes) → Keeps P (handle_show b.milvus (describing c) type)
  unfolding handle_show
  handle_show-Keeps c type =
      if-Keeps P (equal (to_upper type) (codes "DATABASES")) (rows (describing c) databases [])
        (if equal (to_upper type) (codes "TABLES") then rows (describing c) tables [] else refused)
        (rows-Keeps (describing c) databases [])
        (if-Keeps P (equal (to_upper type) (codes "TABLES")) (rows (describing c) tables []) refused
          (rows-Keeps (describing c) tables []) (λ w h. h))
    where
      databases : List Bytes
      databases = codes "DATABASES" ∷ []

      tables : List Bytes
      tables = codes "TABLES" ∷ []

      refused : Exec W QueryResult
      refused = lift (err (mysql_error er_unknown_error (unsupported_show type)))

  run_statement-Keeps :
      (c : ClientConn) (s : Statement) → Keeps P (run_statement b (describing c) s)
  unfolding run_statement dispatch
  run_statement-Keeps c (show_stmt type) w h =
      keep-Keeps P (describing c) (handle_show b.milvus (describing c) type)
        (handle_show-Keeps c type) w h
  run_statement-Keeps c (select_stmt s) w h =
      keep-Keeps P (describing c)
        (handle_select b.library b.printer b.milvus.reads (describing c) s)
        (handle_select-Keeps c s) w h
  run_statement-Keeps c (db_ddl_stmt action name) w h = h
  run_statement-Keeps c (ddl_stmt s) w h = h
  run_statement-Keeps c (insert_stmt s) w h = h
  run_statement-Keeps c (delete_stmt s) w h = h
  run_statement-Keeps c (use_stmt name) w h = h
  run_statement-Keeps c other_stmt w h = h

  parse_and_run-Keeps :
      (c : ClientConn) (sql : Bytes) → Keeps P (parse_and_run b (describing c) sql)
  parse_and_run-Keeps c sql w h =
      continue-Keeps P _ _
        (λ done w1 h1.
          continue-Keeps P _ _
            (λ normalized w2 h2. continue-Keeps P _ _ (λ s. run_statement-Keeps c s) h2) h1)
        h

  describe_table-Keeps :
      (c : ClientConn) (m : List Bytes)
      → Keeps P (describe_table b.milvus b.kinds b.formats (describing c) m)
  unfolding describe_table
  describe_table-Keeps c m w h = continue-Keeps P _ _ (λ r w' h'. h') h

  plain_command-Keeps :
      (c : ClientConn) (sql : Bytes)
      → HandledKeeps P (plain_command b.milvus b.kinds b.formats (describing c) b.regexps sql)
  unfolding plain_command lifecycle create_index drop_index show_indexes partition show_partitions
  plain_command-Keeps c sql =
      on_match-Keeps P _ _ _ (λ m w h. h)
        (on_match-Keeps P _ _ _ (describe_table-Keeps c) (
          on_match-Keeps P _ _ _ (λ m w h. h)
            (on_match-Keeps P _ _ _ (λ m w h. h)
              (on_match-Keeps P _ _ _
                (λ m.
                  rows-Keeps (describing c) (codes "Name" ∷ codes "Type" ∷ codes "Parameters" ∷ [])
                    [])
                (on_match-Keeps P _ _ _ (λ m w h. h)
                  (on_match-Keeps P _ _ _
                    (λ m. rows-Keeps (describing c) (codes "Partition" ∷ []) [])
                    (none-Keeps P QueryResult)))))))

  handle_milvus_command-Keeps :
      (c : ClientConn) (again : Bytes → Run W) (sql : Bytes)
      → HandledKeeps P
          (handle_milvus_command b.milvus b.kinds b.formats (describing c) b.regexps again sql)
  unfolding handle_milvus_command HandledKeeps
  handle_milvus_command-Keeps c again sql =
      if-HandledKeeps P (is_some (b.regexps.find_submatch upsert_pattern (trim_statement sql)))
        (some (pure (describing c, no_result)))
        (kept b.milvus b.kinds b.formats (describing c)
          (plain_command b.milvus b.kinds b.formats (describing c) b.regexps (trim_statement sql)))
        (λ w h. h)
        (kept-Keeps P b.milvus b.kinds b.formats (describing c) _ (plain_command-Keeps c _))

  command_or-Keeps :
      (c : ClientConn) (sql : Bytes) (handled : Option (Run W))
      → HandledKeeps P handled
      → Keeps P (command_or b (describing c) sql handled)
  unfolding HandledKeeps
  command_or-Keeps c sql (some m) h = h
  command_or-Keeps c sql none h = parse_and_run-Keeps c sql

  handle_query-Keeps :
      (c : ClientConn) (fuel : ℕ) (sql : Bytes) → Keeps P (handle_query b (describing c) fuel sql)
  unfolding handle_query
  handle_query-Keeps c zero sql = λ w h. h
  handle_query-Keeps c (suc fuel) sql =
      if-Keeps P (is_blank (trim_space sql)) (lift (err empty_statement))
        (command_or b (describing c) (trim_space sql) (
          handle_milvus_command b.milvus b.kinds b.formats (describing c) b.regexps
            (handle_query b (describing c) fuel) (trim_space sql)))
        (λ w h. h)
        (command_or-Keeps c (trim_space sql) _
          (handle_milvus_command-Keeps c (handle_query b (describing c) fuel) (trim_space sql)))

  -- Describing a statement, whatever it is and whether it fails or not, keeps each property of
  -- the Milvus service that `DescribeCollection` keeps: no other call is made.
  pub describe-Keeps : (c : ClientConn) (sql : Bytes) (w : W) → P w → P (describe b c sql w).1
  unfolding describe execute
  describe-Keeps c sql w h = continue-Keeps P _ _ (λ r w' h'. h') (handle_query-Keeps c 2 sql w h)
