-- ===== src/Query.antt =====
-- pkg/conn_query.go, and `Execute` and `Describe` of pkg/conn.go: from the text of a statement to
-- its handler. The parser, the regular expressions and the Milvus client are parameters.
pub mod Statements
pub mod Handlers
pub mod Quiet
pub mod Upsert
pub mod Handled
pub mod Calls
use milvus_sql_proxy.Base.{
  ℕ, zero, suc, Bool, true, false, not, ◌&&◌, ◌||◌, List, [], ◌∷◌, Bytes, codes, equal, to_upper,
  is_some, Option, none, some, if◌then◌else◌, Result, ok, err,
}
use milvus_sql_proxy.Base.Exec.{pure, lift, ◌>>=◌, ◌>>◌}
use milvus_sql_proxy.Error.{Error, empty_statement, unsupported_statement, out_of_fuel}
use milvus_sql_proxy.Ast.{is_blank}
use milvus_sql_proxy.Value.{Library}
use milvus_sql_proxy.Normalize.{normalize_types}
use milvus_sql_proxy.Resultset.{QueryResult, no_result}
use milvus_sql_proxy.Wire.Tag.{words}
use milvus_sql_proxy.Select.Vector.{equal_fold}
use milvus_sql_proxy.Select.Run.{handle_select}
use milvus_sql_proxy.Select.Run.Columns.{Printer}
use milvus_sql_proxy.Insert.{handle_insert, handle_delete}
use milvus_sql_proxy.Insert.Columns.{ColumnApi}
use milvus_sql_proxy.Ddl.Handlers.{handle_ddl}
use milvus_sql_proxy.Session.{ClientConn}
use milvus_sql_proxy.Milvus.{Milvus, writes, IndexKinds, Regexps, Formats}
use milvus_sql_proxy.Commands.Options.{trim_space}
use milvus_sql_proxy.Commands.{Run, keep, trim_statement, handle_milvus_command}
use milvus_sql_proxy.Query.Statements.{
  Statement, show_stmt, db_ddl_stmt, ddl_stmt, select_stmt, insert_stmt, delete_stmt, use_stmt,
  other_stmt, create_table_pattern, name_only_pattern,
}
use milvus_sql_proxy.Query.Handlers.{handle_show, handle_db_ddl, handle_use_db, written_result}

-- What a session takes from other code.
pub record Backends (W C : Type 0) : Type 0 where
  pub library : Library
  pub printer : Printer
  pub column_api : ColumnApi C
  pub milvus : Milvus W C
  pub kinds : IndexKinds
  pub formats : Formats
  pub regexps : Regexps
  -- `sqlparser.ParseStrictDDL`, and the spelling of its VECTOR type
  pub parse_strict_ddl : Bytes → Result Error Statement
  pub vector_keyword : Bytes

-- The switch on the first word of a statement.
unfoldable pub is_kind : Regexps → Bytes → Bytes → Bool
unfolding equal
is_kind re verb q =
    if equal verb (codes "CREATE")
    then is_some (re.find_submatch create_table_pattern q)
      || is_some (re.find_submatch name_only_pattern q)
    else if equal verb (codes "DROP") || equal verb (codes "USE")
    then is_some (re.find_submatch name_only_pattern q)
    else if equal verb (codes "SHOW")
    then equal_fold q (codes "show tables") || equal_fold q (codes "show databases")
    else equal verb (codes "SELECT")
      || equal verb (codes "INSERT")
      || equal verb (codes "REPLACE")
      || equal verb (codes "DELETE")

abbrev pub check_kind : Regexps → Bytes → List Bytes → Result Error (Unit {0})
check_kind re q [] = err empty_statement
check_kind re q (word ∷ more) =
    if is_kind re (to_upper word) q then ok tt else err unsupported_statement

-- `validateStatementKind`
unfoldable pub validate_statement_kind : Regexps → Bytes → Result Error (Unit {0})
unfolding trim_statement is_kind
validate_statement_kind re q = check_kind re (trim_statement q) (words (trim_statement q))

-- The statements that are described by running their handler.
abbrev pub is_described : Statement → Bool
is_described (select_stmt s) = true
is_described (show_stmt type) = true
is_described _ = false

module _ {W C : Type 0} (b : Backends W C) (c : ClientConn) where
  unfoldable pub dispatch : Statement → Run W
  unfolding handle_show handle_db_ddl handle_ddl handle_select handle_insert handle_delete
  dispatch (show_stmt type) = keep c (handle_show b.milvus c type)
  dispatch (db_ddl_stmt action name) = keep c (handle_db_ddl b.milvus c action name)
  dispatch (ddl_stmt s) = keep c (handle_ddl b.milvus.collections b.vector_keyword s)
  dispatch (select_stmt s) = keep c (handle_select b.library b.printer b.milvus.reads c s)
  dispatch (insert_stmt s) = do
    r ← handle_insert b.library b.column_api (writes b.milvus) s
    pure (c, written_result r)
  dispatch (delete_stmt s) = do
    handle_delete b.library b.column_api (writes b.milvus) s
    pure (c, no_result)
  dispatch (use_stmt name) = handle_use_db b.milvus c name
  dispatch other_stmt = lift (err unsupported_statement)

  unfoldable pub run_statement : Statement → Run W
  unfolding dispatch
  run_statement s = if c.describe && not (is_described s) then pure (c, no_result) else dispatch s

  abbrev pub parse_and_run : Bytes → Run W
  parse_and_run sql = do
    lift (validate_statement_kind b.regexps sql)
    normalized ← lift (normalize_types sql)
    s ← lift (b.parse_strict_ddl normalized)
    run_statement s

  abbrev pub command_or : Bytes → Option (Run W) → Run W
  command_or sql (some m) = m
  command_or sql none = parse_and_run sql

  -- `handleQuery`, which an UPSERT calls again with the statement that it stands for.
  unfoldable pub handle_query : ℕ → Bytes → Run W
  unfolding trim_space handle_milvus_command run_statement normalize_types validate_statement_kind
  handle_query zero text = lift (err out_of_fuel)
  handle_query (suc fuel) text =
      let sql = trim_space text in
      if is_blank sql
      then lift (err empty_statement)
      else command_or sql
          (handle_milvus_command b.milvus b.kinds b.formats c b.regexps (handle_query fuel) sql)

-- `Execute`; two calls are enough, the second for what an UPSERT stands for.
unfoldable pub execute : {W C : Type 0} → Backends W C → ClientConn → Bytes → Run W
unfolding handle_query
execute b c sql = handle_query b c 2 sql

abbrev pub leave_describe : {W : Type 0} → ClientConn × QueryResult → Run W
leave_describe (c, r) = pure (record c { describe = false }, r)

-- `Describe`
unfoldable pub describe : {W C : Type 0} → Backends W C → ClientConn → Bytes → Run W
unfolding execute
describe b c sql = execute b (record c { describe = true }) sql >>= leave_describe
