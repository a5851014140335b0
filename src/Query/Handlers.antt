-- ===== src/Query/Handlers.antt =====
-- pkg/show.go, pkg/dbddl.go and pkg/use.go, and the results of the handlers in pkg/insert.go.
use milvus_sql_proxy.Base.{List, [], ◌∷◌, Bytes, codes, equal, to_upper, none, if◌then◌else◌, err}
use milvus_sql_proxy.Base.Exec.{Exec, pure, lift, ◌>>=◌, ◌>>◌}
use milvus_sql_proxy.Error.{
  unsupported_show, unsupported_ddl, er_unknown_error, er_aborting_connection, er_database_name,
  mysql_error,
}
use milvus_sql_proxy.Value.{Value, string}
use milvus_sql_proxy.Resultset.{QueryResult, no_result, build_resultset}
use milvus_sql_proxy.Insert.{Written}
use milvus_sql_proxy.Ddl.Handlers.{with_code, coded}
use milvus_sql_proxy.Session.{ClientConn, write_resultset, rows}
use milvus_sql_proxy.Milvus.{Milvus}
use milvus_sql_proxy.Commands.{Run}

-- `databasesToValues` and `collectionsToValues`
unfoldable pub names_to_values : List Bytes → List (List Value)
names_to_values [] = []
names_to_values (n ∷ ns) = (string n ∷ []) ∷ names_to_values ns

-- The result of an INSERT.
abbrev pub written_result : Written → QueryResult
written_result r = record {
  status = 0;
  insert_id = r.insert_id;
  affected_rows = r.affected_rows;
  resultset = none;
}

module _ {W C : Type 0} (up : Milvus W C) (c : ClientConn) where
  -- One column of names, behind a SHOW; no names have one result either way.
  abbrev pub name_rows : Bytes → List Bytes → Exec W QueryResult
  name_rows column [] = rows c (column ∷ []) []
  name_rows column (n ∷ ns) = do
    r ←
        lift
          (with_code er_unknown_error (build_resultset [] (column ∷ []) (names_to_values (n ∷ ns))))
    pure (write_resultset c r)

  abbrev pub show_names : Bytes → Exec W (List Bytes) → Exec W QueryResult
  show_names column names =
      if c.describe
      then rows c (column ∷ []) []
      else do found ← coded er_aborting_connection names; name_rows column found

  unfoldable pub handle_show : Bytes → Exec W QueryResult
  unfolding rows names_to_values build_resultset equal
  handle_show type =
      if equal (to_upper type) (codes "DATABASES")
      then show_names (codes "DATABASES") up.list_databases
      else if equal (to_upper type) (codes "TABLES")
      then show_names (codes "TABLES") up.list_collections
      else lift (err (mysql_error er_unknown_error (unsupported_show type)))

  unfoldable pub handle_create_db : Bytes → Exec W QueryResult
  handle_create_db name = do
    coded er_aborting_connection (up.create_database name)
    pure (record { status = 0; insert_id = 0; affected_rows = 1; resultset = none })

  unfoldable pub handle_drop_db : Bytes → Exec W QueryResult
  handle_drop_db name = do coded er_aborting_connection (up.drop_database name); pure no_result

  unfoldable pub handle_db_ddl : Bytes → Bytes → Exec W QueryResult
  unfolding handle_create_db handle_drop_db equal
  handle_db_ddl action name =
      if equal action (codes "create")
      then handle_create_db name
      else if equal action (codes "drop")
      then handle_drop_db name
      else lift (err (mysql_error er_unknown_error (unsupported_ddl action)))

  -- `handleUseDB`: the session's database changes once the client's has.
  unfoldable pub handle_use_db : Bytes → Run W
  handle_use_db name = do
    coded er_database_name (up.using_database name)
    pure (record c { db = name }, no_result)
