-- ===== src/Query/Statements.antt =====
-- The statements that github.com/xwb1989/sqlparser returns, as far as the dispatch tells them
-- apart, and the regular expressions of pkg/conn_query.go.
use milvus_sql_proxy.Base.{Bytes, codes}
use milvus_sql_proxy.Ast.{Select, Insert, Delete}
use milvus_sql_proxy.Ddl.Statements.{Ddl}

pub data Statement : Type 0 where
  -- the type of a SHOW
  show_stmt : Bytes → Statement
  -- the action and the name of the database
  db_ddl_stmt : Bytes → Bytes → Statement
  ddl_stmt : Ddl → Statement
  select_stmt : Select → Statement
  insert_stmt : Insert → Statement
  delete_stmt : Delete → Statement
  use_stmt : Bytes → Statement
  other_stmt : Statement

abbrev pub create_table_pattern : Bytes
create_table_pattern =
    codes
      "(?is)^CREATE\\s+TABLE\\s+(?:[A-Za-z_][A-Za-z0-9_]*|`[A-Za-z_][A-Za-z0-9_]*`)\\s*\\(.*\\)$"

abbrev pub name_only_pattern : Bytes
name_only_pattern =
    codes
      "(?i)^(?:DROP TABLE|CREATE DATABASE|DROP DATABASE|USE)\\s+(?:[A-Za-z_][A-Za-z0-9_]*|`[A-Za-z_][A-Za-z0-9_]*`)$"
