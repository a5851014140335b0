-- ===== src/Ddl/Statements.antt =====
-- The DDL statements of github.com/xwb1989/sqlparser, as far as pkg/ddl.go takes them apart.
use milvus_sql_proxy.Base.{ℕ, Bool, List, Bytes, Option}

-- querypb.Type, as `SQLType` returns it.
pub data SqlType : Type 0 where
  sql_int8 sql_int16 sql_int32 sql_int64 sql_float32 sql_float64 sql_text sql_varchar : SqlType
  sql_date sql_datetime sql_other : SqlType

pub record ColumnDefinition : Type 0 where
  pub name : Bytes
  pub type_name : Bytes
  pub sql_type : SqlType
  pub length : Option Bytes
  -- whether there is a DEFAULT, an ON UPDATE and a scale
  pub has_default : Bool
  pub has_on_update : Bool
  pub has_scale : Bool
  pub is_unsigned : Bool
  pub is_zerofill : Bool
  pub charset : Bytes
  pub collate : Bytes
  pub autoincrement : Bool
  -- the parser's private constants, whose order `colKeyNone` and its followers repeat
  pub key_opt : ℕ
  pub comment : Option Bytes

pub record TableSpec : Type 0 where
  pub columns : List ColumnDefinition
  pub options : Bytes
  -- the number of table-level indexes
  pub indexes : ℕ

pub record Ddl : Type 0 where
  pub action : Bytes
  -- qualifier and name of a new table, and of a table that is there
  pub new_qualifier : Bytes
  pub new_name : Bytes
  pub qualifier : Bytes
  pub table : Bytes
  pub if_exists : Bool
  pub table_spec : Option TableSpec
