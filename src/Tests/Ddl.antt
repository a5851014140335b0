-- ===== src/Tests/Ddl.antt =====
-- A run of CREATE TABLE.
use milvus_sql_proxy.Base.{
  ℕ, zero, suc, length, ◌==◌, arith, true, false, ◌≡◌, refl, List, [], ◌∷◌, Bytes, codes, equal,
  Option, none, some, ok, All,
}
use milvus_sql_proxy.Resultset.{FieldType, field_int64, field_string, field_float_vector}
use milvus_sql_proxy.Insert.Values.{FieldSchema}
use milvus_sql_proxy.Ddl.Statements.{SqlType, sql_int64, sql_text, sql_other, ColumnDefinition, Ddl}
use milvus_sql_proxy.Ddl.{MilvusSchema, ddl_to_milvus_schema}
use milvus_sql_proxy.Ddl.Valid.{IsValid, ddl_to_milvus_schema-IsValid}
use milvus_sql_proxy.Ddl.Insertable.{ReadsZeros, IsInsertable, created-IsInsertable}
use milvus_sql_proxy.Value.{Library}
use milvus_sql_proxy.Tests.{library}
use milvus_sql_proxy.Tests.Insert.{listed}

abbrev column : Bytes → Bytes → SqlType → Option Bytes → ℕ → ColumnDefinition
column name type t length key = record {
  name = name;
  type_name = type;
  sql_type = t;
  length = length;
  has_default = false;
  has_on_update = false;
  has_scale = false;
  is_unsigned = false;
  is_zerofill = false;
  charset = [];
  collate = [];
  autoincrement = false;
  key_opt = key;
  comment = none;
}

-- create table notes (id bigint primary key, v vector(2), body text)
abbrev notes : Ddl
notes = record {
  action = codes "create";
  new_qualifier = [];
  new_name = codes "notes";
  qualifier = [];
  table = [];
  if_exists = false;
  table_spec = some (record {
    columns =
        column (codes "id") (codes "bigint") sql_int64 none 1
        ∷ column (codes "v") (codes "vector") sql_other (some (codes "2")) 0
        ∷ column (codes "body") (codes "text") sql_text none 0
        ∷ [];
    options = [];
    indexes = 0;
  });
}

abbrev field : Bytes → FieldType → List (Bytes × Bytes) → FieldSchema
field name t params = record {
  name = name;
  description = [];
  data_type = t;
  primary_key = false;
  auto_id = false;
  type_params = params;
}

abbrev notes_schema : MilvusSchema
notes_schema = record {
  collection_name = codes "notes";
  fields =
      record (field (codes "id") field_int64 []) { primary_key = true }
      ∷ field (codes "v") field_float_vector ((codes "dim", codes "2") ∷ [])
      ∷ field (codes "body") field_string []
      ∷ [];
  shard_num = 1;
}

notes_created : ddl_to_milvus_schema (codes "vector") notes ≡ ok notes_schema
unfolding ddl_to_milvus_schema equal
notes_created = refl

ddl_to_milvus_schema-IsValid_example : IsValid notes_schema
ddl_to_milvus_schema-IsValid_example =
    ddl_to_milvus_schema-IsValid (codes "vector") notes notes_schema notes_created

-- A library whose arrays of floats are written as the bytes that the floats are.
abbrev arrays : Library
arrays = record library { json_raw_array = λ s. some []; json_float32_array = λ s. some s }

zeros : (n : ℕ) → (text : Bytes) × ((length text == n) ≡ true)
zeros zero = ([], refl)
zeros (suc n) = let (text, same) = zeros n in (0 ∷ text, ground (arith, same))

arrays-ReadsZeros : ReadsZeros arrays
arrays-ReadsZeros = record {
  float = λ bits. (0, refl, refl);
  json = refl;
  array = λ n. let (text, same) = zeros n in (text, [], text, refl, refl, refl, same);
}

created-IsInsertable_example :
    All (IsInsertable arrays listed arrays-ReadsZeros) notes_schema.fields
created-IsInsertable_example =
    created-IsInsertable arrays listed arrays-ReadsZeros (codes "vector") notes notes_schema
      notes_created
