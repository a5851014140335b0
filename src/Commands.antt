-- ===== src/Commands.antt =====
-- `handleMilvusCommand` of pkg/commands.go: the statements that the SQL parser does not know, found
-- by regular expressions. Options has the options of CREATE INDEX.
pub mod Options
pub mod Patterns
pub mod Complete
mod Steps
unfoldable pub use Steps.*
use milvus_sql_proxy.Base.{
  List, [], ◌∷◌, map, Bytes, codes, equal, to_upper, set, Option, none, some, is_some,
  if◌then◌else◌,
}
use milvus_sql_proxy.Base.Exec.{Exec, pure, lift, ◌>>=◌, ◌>>◌}
use milvus_sql_proxy.Value.{Value, string, bool}
use milvus_sql_proxy.Resultset.{
  Field, Resultset, QueryResult, no_result, result_field, field_bool, build_resultset,
}
use milvus_sql_proxy.Insert.Values.{FieldSchema}
use milvus_sql_proxy.Indexes.{Index, list_indexes}
use milvus_sql_proxy.Select.Run.{schema_or_error}
use milvus_sql_proxy.Session.{ClientConn, write_resultset, rows}
use milvus_sql_proxy.Milvus.{Milvus, IndexKinds, Regexps, Formats}
use milvus_sql_proxy.Commands.Options.{index_params, build_index, param}
use milvus_sql_proxy.Commands.Patterns.{
  lifecycle_pattern, describe_pattern, create_index_pattern, drop_index_pattern,
  show_indexes_pattern, partition_pattern, show_partitions_pattern, upsert_pattern,
}

module _ {W C : Type 0} (up : Milvus W C) (kinds : IndexKinds) (formats : Formats)
    (c : ClientConn) where
  abbrev pub lifecycle_call : Bytes → Bytes → Exec W (Unit {0})
  lifecycle_call verb name =
      if equal verb (codes "LOAD")
      then up.load_collection name
      else if equal verb (codes "RELEASE")
      then up.release_collection name
      else if equal verb (codes "FLUSH")
      then up.flush name
      else pure tt

  unfoldable pub lifecycle : List Bytes → Exec W QueryResult
  unfolding equal
  lifecycle m = unless_described c (do
    verb ← lift (group m 1)
    name ← lift (group m 2)
    done (lifecycle_call (to_upper verb) name))

  abbrev pub describe_names : List Bytes
  describe_names =
      codes "Field" ∷ codes "Type" ∷ codes "PrimaryKey" ∷ codes "AutoID" ∷ codes "Parameters" ∷ []

  abbrev pub bool_result : Bytes → Field
  bool_result name = result_field name field_bool

  -- The columns of a DESCRIBE, two of which are Boolean.
  abbrev pub describe_columns : Resultset → Resultset
  describe_columns r = record r {
    fields =
        set (set r.fields 2 (bool_result (codes "PrimaryKey"))) 3 (bool_result (codes "AutoID"));
  }

  abbrev pub describe_row : FieldSchema → List Value
  describe_row f =
      string f.name
      ∷ string (formats.type_name f.data_type)
      ∷ bool f.primary_key
      ∷ bool f.auto_id
      ∷ string (formats.json_params f.type_params)
      ∷ []

  abbrev pub described_columns : Exec W QueryResult
  described_columns = do
    r ← lift (build_resultset [] describe_names [])
    pure (write_resultset c (describe_columns r))

  unfoldable pub describe_table : List Bytes → Exec W QueryResult
  unfolding build_resultset rows
  describe_table m = if c.describe then described_columns else do
    name ← lift (group m 1)
    found ← up.reads.describe_collection name
    schema ← lift (schema_or_error found)
    rows c describe_names (map describe_row schema)

  unfoldable pub create_index : List Bytes → Exec W QueryResult
  unfolding index_params build_index
  create_index m = unless_described c (do
    kind ← lift (group m 4)
    options ← lift (group m 5)
    params ← lift (index_params (to_upper kind) options)
    built ← lift (build_index kinds params)
    name ← lift (group m 1)
    table ← lift (group m 2)
    field ← lift (group m 3)
    done (
        up.create_index table field
          (record { name = name; kind = param params (codes "index_type"); params = built })))

  unfoldable pub drop_index : List Bytes → Exec W QueryResult
  drop_index m =
      unless_described c
        (do name ← lift (group m 1); table ← lift (group m 2); done (up.drop_index table name))

  abbrev pub index_row : Index → List Value
  index_row i = string i.name ∷ string i.kind ∷ string (formats.json_params i.params) ∷ []

  abbrev pub index_names : List Bytes
  index_names = codes "Name" ∷ codes "Type" ∷ codes "Parameters" ∷ []

  unfoldable pub show_indexes : List Bytes → Exec W QueryResult
  unfolding rows list_indexes
  show_indexes m = if c.describe then rows c index_names [] else do
    table ← lift (group m 1)
    indexes ← list_indexes up.reads.indexes table
    rows c index_names (map index_row indexes)

  abbrev pub partition_call : Bytes → Bytes → Bytes → Exec W (Unit {0})
  partition_call verb table name =
      if equal verb (codes "CREATE")
      then up.create_partition table name
      else if equal verb (codes "DROP")
      then up.drop_partition table name
      else if equal verb (codes "LOAD")
      then up.load_partitions table name
      else if equal verb (codes "RELEASE")
      then up.release_partitions table name
      else pure tt

  unfoldable pub partition : List Bytes → Exec W QueryResult
  unfolding equal
  partition m = unless_described c (do
    verb ← lift (group m 1)
    name ← lift (group m 2)
    table ← lift (group m 3)
    done (partition_call (to_upper verb) table name))

  unfoldable pub show_partitions : List Bytes → Exec W QueryResult
  unfolding rows
  show_partitions m = if c.describe then rows c (codes "Partition" ∷ []) [] else do
    table ← lift (group m 1)
    names ← up.show_partitions table
    rows c (codes "Partition" ∷ []) (map one_cell names)

  -- The commands but UPSERT, for a trimmed statement.
  unfoldable pub plain_command : Regexps → Bytes → Option (Exec W QueryResult)
  unfolding lifecycle describe_table create_index drop_index show_indexes partition show_partitions
  plain_command re sql = on_match (re.find_submatch lifecycle_pattern sql) lifecycle (
      on_match (re.find_submatch describe_pattern sql) describe_table (
        on_match (re.find_submatch create_index_pattern sql) create_index (
          on_match (re.find_submatch drop_index_pattern sql) drop_index (
            on_match (re.find_submatch show_indexes_pattern sql) show_indexes (
              on_match (re.find_submatch partition_pattern sql) partition
                (on_match (re.find_submatch show_partitions_pattern sql) show_partitions none))))))

  abbrev pub kept : Option (Exec W QueryResult) → Option (Run W)
  kept none = none
  kept (some m) = some (keep c m)

  -- `handleMilvusCommand`, none if it does not handle the statement; `again` is `handleQuery`.
  unfoldable pub handle_milvus_command : Regexps → (Bytes → Run W) → Bytes → Option (Run W)
  unfolding trim_statement plain_command
  handle_milvus_command re again statement =
      let sql = trim_statement statement in
      if is_some (re.find_submatch upsert_pattern sql)
      then some (
          if c.describe
          then pure (c, no_result)
          else again (re.replace_all upsert_pattern sql (codes "REPLACE INTO")))
      else kept (plain_command re sql)
