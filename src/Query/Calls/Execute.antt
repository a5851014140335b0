-- ===== src/Query/Calls/Execute.antt =====
-- Every statement.
use milvus_sql_proxy.Base.{ℕ, zero, suc, Bytes, Option, none, some, is_some, if◌then◌else◌}
use milvus_sql_proxy.Base.Exec.{pure}
use milvus_sql_proxy.Base.Exec.Keeps.{Keeps, continue-Keeps, if-Keeps}
use milvus_sql_proxy.Ast.{is_blank}
use milvus_sql_proxy.Resultset.{no_result}
use milvus_sql_proxy.Session.{ClientConn}
use milvus_sql_proxy.Commands.Options.{trim_space}
use milvus_sql_proxy.Commands.Patterns.{upsert_pattern}
use milvus_sql_proxy.Commands.{Run, trim_statement, handle_milvus_command}
use milvus_sql_proxy.Query.Statements.{
  Statement, show_stmt, db_ddl_stmt, ddl_stmt, select_stmt, insert_stmt, delete_stmt, use_stmt,
  other_stmt,
}
use milvus_sql_proxy.Query.{
  Backends, dispatch, run_statement, parse_and_run, command_or, handle_query, execute,
}
use milvus_sql_proxy.Query.Calls.{CallsKeep}
use milvus_sql_proxy.Query.Calls.Reads.{handle_select-Keeps, handle_show-Keeps}
use milvus_sql_proxy.Query.Calls.Writes.{
  handle_insert-Keeps, handle_delete-Keeps, handle_ddl-Keeps, handle_db_ddl-Keeps,
  handle_use_db-Keeps,
}
use milvus_sql_proxy.Query.Calls.Commands.{plain_command-Keeps}
use milvus_sql_proxy.Query.Handled.{HandledKeeps, if-HandledKeeps, kept-Keeps}

module _ {W C : Type 0} (Q : W → Type 0) (b : Backends W C) (calls : CallsKeep Q b.milvus) where
  dispatch-Keeps : (c : ClientConn) (s : Statement) → Keeps Q (dispatch b c s)
  unfolding dispatch
  dispatch-Keeps c (show_stmt type) w h =
      continue-Keeps Q _ _ (λ r w' h'. h') (handle_show-Keeps Q b.milvus calls c type w h)
  dispatch-Keeps c (db_ddl_stmt action name) w h =
      continue-Keeps Q _ _ (λ r w' h'. h') (handle_db_ddl-Keeps Q b.milvus calls c action name w h)
  dispatch-Keeps c (ddl_stmt s) w h =
      continue-Keeps Q _ _ (λ r w' h'. h')
        (handle_ddl-Keeps Q b.milvus calls b.vector_keyword s w h)
  dispatch-Keeps c (select_stmt s) w h =
      continue-Keeps Q _ _ (λ r w' h'. h')
        (handle_select-Keeps Q b.milvus calls c b.library b.printer s w h)
  dispatch-Keeps c (insert_stmt s) w h =
      continue-Keeps Q _ _ (λ r w' h'. h')
        (handle_insert-Keeps Q b.milvus calls b.library b.column_api s w h)
  dispatch-Keeps c (delete_stmt s) w h =
      continue-Keeps Q _ _ (λ r w' h'. h')
        (handle_delete-Keeps Q b.milvus calls b.library b.column_api s w h)
  dispatch-Keeps c (use_stmt name) w h = handle_use_db-Keeps Q b.milvus calls c name w h
  dispatch-Keeps c other_stmt w h = h

  run_statement-Keeps : (c : ClientConn) (s : Statement) → Keeps Q (run_statement b c s)
  unfolding run_statement
  run_statement-Keeps c s = if-Keeps Q _ _ _ (λ w h. h) (dispatch-Keeps c s)

  parse_and_run-Keeps : (c : ClientConn) (sql : Bytes) → Keeps Q (parse_and_run b c sql)
  parse_and_run-Keeps c sql w h =
      continue-Keeps Q _ _
        (λ done w1 h1.
          continue-Keeps Q _ _
            (λ normalized w2 h2. continue-Keeps Q _ _ (λ s. run_statement-Keeps c s) h2) h1)
        h

  upsert-Keeps :
      (c : ClientConn) (m : Run W)
      → Keeps Q m
      → HandledKeeps Q (some (if c.describe then pure (c, no_result) else m))
  unfolding HandledKeeps
  upsert-Keeps c m k = if-Keeps Q c.describe _ _ (λ w h. h) k

  handle_milvus_command-Keeps :
      (c : ClientConn) (again : Bytes → Run W) (sql : Bytes)
      → ((text : Bytes) → Keeps Q (again text))
      → HandledKeeps Q (handle_milvus_command b.milvus b.kinds b.formats c b.regexps again sql)
  unfolding handle_milvus_command
  handle_milvus_command-Keeps c again sql k =
      if-HandledKeeps Q (is_some (b.regexps.find_submatch upsert_pattern (trim_statement sql))) _ _
        (upsert-Keeps c (again _) (k _))
        (kept-Keeps Q b.milvus b.kinds b.formats c _
          (plain_command-Keeps Q b.milvus calls b.kinds b.formats c b.regexps (trim_statement sql)))

  command_or-Keeps :
      (c : ClientConn) (sql : Bytes) (handled : Option (Run W))
      → HandledKeeps Q handled
      → Keeps Q (command_or b c sql handled)
  unfolding HandledKeeps
  command_or-Keeps c sql (some m) h = h
  command_or-Keeps c sql none h = parse_and_run-Keeps c sql

  handle_query-Keeps :
      (c : ClientConn) (fuel : ℕ) (sql : Bytes) → Keeps Q (handle_query b c fuel sql)
  unfolding handle_query
  handle_query-Keeps c zero sql = λ w h. h
  handle_query-Keeps c (suc fuel) sql =
      if-Keeps Q (is_blank (trim_space sql)) _ _ (λ w h. h)
        (command_or-Keeps c (trim_space sql) _ (
          handle_milvus_command-Keeps c (handle_query b c fuel) (trim_space sql)
            (λ text. handle_query-Keeps c fuel text)))

  -- A statement keeps each property of the Milvus service that each call of its client keeps.
  pub execute-Keeps : (c : ClientConn) (sql : Bytes) → Keeps Q (execute b c sql)
  unfolding execute
  execute-Keeps c sql = handle_query-Keeps c 2 sql
