-- ===== src/Mysql.antt =====
-- pkg/mysql.go: the handler of a MySQL connection. The protocol is github.com/go-mysql-org/go-mysql,
-- whose `BuildSimpleResultset` is a parameter; deadlines are left out.
pub mod Prepare
pub mod Connection
use milvus_sql_proxy.Base.{
  ℕ, Bool, true, false, List, [], map, Bytes, length, is_empty, Option, none, some, if◌then◌else◌,
  pos, Result, ok, err,
}
use milvus_sql_proxy.Base.Exec.{Exec, pure, lift, ◌>>=◌, ◌>>◌}
use milvus_sql_proxy.Error.{Error, no_field_list, unsupported_command}
use milvus_sql_proxy.Value.{Library, Value, bool, vector, signed, string, int64}
use milvus_sql_proxy.Bind.{mysql, bind_sql}
use milvus_sql_proxy.Resultset.{Field, Resultset, QueryResult, MysqlType}
use milvus_sql_proxy.Session.{ClientConn}
use milvus_sql_proxy.Query.{Backends, execute, describe}
use milvus_sql_proxy.Query.Handlers.{handle_use_db}

-- The name, the type and the character set of a column, and the rows as the protocol sends them.
pub record MysqlColumn : Type 0 where
  pub name : Bytes
  pub type : MysqlType
  pub charset : ℕ

pub record MysqlRows : Type 0 where
  pub columns : List MysqlColumn
  pub row_data : List Bytes

pub record MysqlResult : Type 0 where
  pub status : ℕ
  pub insert_id : ℕ
  pub affected_rows : ℕ
  pub rows : Option MysqlRows

-- `BuildSimpleResultset`: names, values, and whether the rows are binary.
abbrev pub BuildRows : Type 0
BuildRows = List Bytes → List (List Value) → Bool → Result Error MysqlRows

abbrev pub text_or_nothing : Option Bytes → Bytes
text_or_nothing none = []
text_or_nothing (some text) = text

-- A value as MySQL knows it: a Boolean is an integer and a vector is JSON.
unfoldable pub mysql_value : Library → Value → Value
mysql_value lib (bool true) = signed int64 (pos 1)
mysql_value lib (bool false) = signed int64 (pos 0)
mysql_value lib (vector v) = string (text_or_nothing (lib.json_marshal_floats v))
mysql_value lib v = v

abbrev pub mysql_row : Library → List Value → List Value
mysql_row lib = map (mysql_value lib)

abbrev pub column_of_field : Field → MysqlColumn
column_of_field f = record { name = f.name; type = f.type; charset = f.charset }

abbrev pub name_of_field : Field → Bytes
name_of_field f = f.name

-- A result without rows keeps the columns of its fields.
abbrev pub with_columns : Resultset → MysqlRows → MysqlRows
with_columns r built =
    if is_empty r.values then record built { columns = map column_of_field r.fields } else built

module _ (lib : Library) (build : BuildRows) where
  abbrev pub mysql_rows : Option Resultset → Bool → Result Error (Option MysqlRows)
  mysql_rows none binary = ok none
  mysql_rows (some r) binary =
      elim (build (map name_of_field r.fields) (map (mysql_row lib) r.values) binary) [
        | err e ↦ err e
        | ok built ↦ ok (some (with_columns r built))
      ]

  abbrev pub with_rows : QueryResult → Result Error (Option MysqlRows) → Result Error MysqlResult
  with_rows r (err e) = err e
  with_rows r (ok rows) =
      ok (record {
        status = 2;
        insert_id = r.insert_id;
        affected_rows = r.affected_rows;
        rows = rows;
      })

  -- `mysqlResult`; SERVER_STATUS_AUTOCOMMIT is 2.
  unfoldable pub mysql_result : QueryResult → Bool → Result Error MysqlResult
  unfolding mysql_value
  mysql_result r binary = with_rows r (mysql_rows r.resultset binary)

-- What a prepared statement announces: its parameters and its columns.
pub record Prepared : Type 0 where
  pub parameters : ℕ
  pub columns : ℕ

abbrev pub column_count : Option Resultset → ℕ
column_count none = 0
column_count (some r) = length r.fields

module _ {W C : Type 0} (b : Backends W C) (build : BuildRows) (c : ClientConn) where
  -- `UseDB`
  unfoldable pub use_db : Bytes → Exec W ClientConn
  unfolding handle_use_db
  use_db name = do r ← handle_use_db b.milvus c name; pure r.0

  -- `run`
  unfoldable pub run : Bytes → Bool → Exec W (ClientConn × MysqlResult)
  unfolding execute mysql_result
  run q binary = do
    r ← execute b c q
    m ← lift (mysql_result b.library build r.1 binary)
    pure (r.0, m)

  -- `HandleQuery`
  unfoldable pub handle_text_query : Bytes → Exec W (ClientConn × MysqlResult)
  unfolding run
  handle_text_query q = run q false

  -- `HandleStmtPrepare`
  unfoldable pub handle_stmt_prepare : Bytes → Exec W Prepared
  unfolding bind_sql describe
  handle_stmt_prepare q = do
    bound ← lift (bind_sql b.library q mysql [] true)
    r ← describe b c bound.0
    pure (record { parameters = bound.1; columns = column_count r.1.resultset })

  -- `HandleStmtExecute`
  unfoldable pub handle_stmt_execute : Bytes → List Value → Exec W (ClientConn × MysqlResult)
  unfolding bind_sql run
  handle_stmt_execute q args = do
    bound ← lift (bind_sql b.library q mysql args false)
    run bound.0 true

-- `HandleFieldList`, `HandleStmtClose` and `HandleOtherCommand`
abbrev pub handle_field_list : Result Error (List Field)
handle_field_list = err no_field_list

abbrev pub handle_stmt_close : Result Error (Unit {0})
handle_stmt_close = ok tt

abbrev pub handle_other_command : Result Error (Unit {0})
handle_other_command = err unsupported_command
