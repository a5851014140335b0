-- ===== src/Ddl/Handlers.antt =====
-- `handleDDL`, `handleCreateTable` and `handleDropTable`. The Milvus client is a parameter.
use milvus_sql_proxy.Base.{not, ◌||◌, Bytes, codes, equal, if◌then◌else◌, Result, ok, err, refuse}
use milvus_sql_proxy.Base.Exec.{Exec, pure, lift, ◌>>=◌, ◌>>◌}
use milvus_sql_proxy.Error.{
  Error, unsupported_ddl, unsupported_drop, mysql_error, MysqlCode, er_unknown_error,
  er_cant_create_table, er_cant_drop_field_or_key,
}
use milvus_sql_proxy.Ast.{is_blank}
use milvus_sql_proxy.Resultset.{QueryResult, no_result}
use milvus_sql_proxy.Ddl.Statements.{Ddl}
use milvus_sql_proxy.Ddl.{MilvusSchema, ddl_to_milvus_schema}

-- `CreateCollection` and `DropCollection` of the Milvus client.
pub record Collections (W : Type 0) : Type 0 where
  pub create_collection : MilvusSchema → Exec W (Unit {0})
  pub drop_collection : Bytes → Exec W (Unit {0})

-- `mysql.NewError(code, err.Error())`
abbrev pub with_code : {A : Type 0} → MysqlCode → Result Error A → Result Error A
with_code code (ok a) = ok a
with_code code (err e) = err (mysql_error code e)

abbrev pub coded : {W A : Type 0} → MysqlCode → Exec W A → Exec W A
coded code m w = let (r, after) = m w in (with_code code r, after)

module _ {W : Type 0} (client : Collections W) (vector_keyword : Bytes) where
  unfoldable pub handle_create_table : Ddl → Exec W QueryResult
  unfolding ddl_to_milvus_schema
  handle_create_table stmt = do
    schema ← lift (with_code er_cant_create_table (ddl_to_milvus_schema vector_keyword stmt))
    coded er_cant_create_table (client.create_collection schema)
    pure no_result

  unfoldable pub handle_drop_table : Ddl → Exec W QueryResult
  handle_drop_table stmt = do
    lift (refuse (not (is_blank stmt.qualifier) || stmt.if_exists) unsupported_drop)
    coded er_cant_drop_field_or_key (client.drop_collection stmt.table)
    pure no_result

  unfoldable pub handle_ddl : Ddl → Exec W QueryResult
  unfolding handle_create_table handle_drop_table equal
  handle_ddl stmt =
      if equal stmt.action (codes "create")
      then handle_create_table stmt
      else if equal stmt.action (codes "drop")
      then handle_drop_table stmt
      else lift (err (mysql_error er_unknown_error (unsupported_ddl stmt.action)))
