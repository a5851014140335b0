-- ===== src/Ddl.antt =====
-- pkg/ddl.go: CREATE TABLE and DROP TABLE. The logger is left out; `vector_keyword` is the
-- parser's spelling of its VECTOR type.
pub mod Statements
pub mod Handlers
pub mod Columns
pub mod Valid
pub mod Insertable
use milvus_sql_proxy.Base.{
  ℕ, ◌+◌, Bool, true, false, not, ◌&&◌, ◌||◌, List, [], ◌∷◌, Bytes, codes, equal, ltb, ◌==◌, Option,
  none, some, if◌then◌else◌, ℤ, pos, negsuc, Result, ok, err, ◌>>=◌, ◌>>◌, refuse,
}
use milvus_sql_proxy.Error.{
  Error, no_table_spec, unsupported_table_options, duplicate_column, reserved_distance,
  bad_field_name, bad_primary_type, bad_auto_id_type, bad_collection, unsupported_column_options,
  no_vector_length, bad_vector_length, unsupported_sql_type, no_var_char_length,
  bad_var_char_length, auto_increment_not_primary, unsupported_key, in_column,
}
use milvus_sql_proxy.Ast.{is_blank}
use milvus_sql_proxy.Decimal.{atoi, parse_int}
use milvus_sql_proxy.Select.Filter.{field_identifier}
use milvus_sql_proxy.Select.Vector.{equal_fold}
use milvus_sql_proxy.Resultset.{
  FieldType, field_bool, field_int8, field_int16, field_int32, field_int64, field_float,
  field_double, field_string, field_var_char, field_json, field_float_vector,
}
use milvus_sql_proxy.Insert.Values.{FieldSchema}
use milvus_sql_proxy.Insert.Columns.{seen_in}
use milvus_sql_proxy.Ddl.Statements.{
  SqlType, sql_int8, sql_int16, sql_int32, sql_int64, sql_float32, sql_float64, sql_text,
  sql_varchar, sql_date, sql_datetime, sql_other, ColumnDefinition, TableSpec, Ddl,
}

-- MilvusSchema; the shard count is always 1.
pub record MilvusSchema : Type 0 where
  pub collection_name : Bytes
  pub fields : List FieldSchema
  pub shard_num : ℕ

-- MilvusDataTypeMap
unfoldable pub milvus_type : SqlType → Option FieldType
milvus_type sql_int8 = some field_int8
milvus_type sql_int16 = some field_int16
milvus_type sql_int32 = some field_int32
milvus_type sql_int64 = some field_int64
milvus_type sql_float32 = some field_float
milvus_type sql_float64 = some field_double
milvus_type sql_text = some field_string
milvus_type sql_varchar = some field_var_char
milvus_type sql_date = some field_int32
milvus_type sql_datetime = some field_int64
milvus_type sql_other = none

abbrev pub has_length : ColumnDefinition → Bytes → Bool
has_length col text = equal_some col.length
  where
    equal_some : Option Bytes → Bool
    equal_some none = false
    equal_some (some s) = equal s text

abbrev pub has_unsupported_option : ColumnDefinition → Bool
has_unsupported_option col =
    col.has_default
    || col.has_on_update
    || col.is_unsigned
    || col.is_zerofill
    || col.has_scale
    || not (is_blank col.charset)
    || not (is_blank col.collate)

-- `err != nil || n < 1 || n > max`
abbrev pub outside : ℕ → Option ℤ → Bool
outside max none = true
outside max (some (pos n)) = ltb n 1 || ltb max n
outside max (some (negsuc n)) = true

-- The length that a type wants, as its one parameter.
unfoldable pub sized :
    ℕ → Bytes → Error → Error → Option Bytes → Result Error (List (Bytes × Bytes))
unfolding parse_int
sized max key missing bad none = err missing
sized max key missing bad (some text) =
    if outside max (atoi text) then err bad else ok ((key, text) ∷ [])

-- The data type and its parameters, as one pair.
abbrev pub with_type :
    FieldType
    → Result Error (List (Bytes × Bytes))
    → Result Error (FieldType × List (Bytes × Bytes))
with_type t params = params >>= λ ps. ok (t, ps)

abbrev pub mapped_type :
    ColumnDefinition → Option FieldType → Result Error (FieldType × List (Bytes × Bytes))
mapped_type col none = err unsupported_sql_type
mapped_type col (some field_var_char) =
    with_type field_var_char
      (sized 65535 (codes "max_length") no_var_char_length bad_var_char_length col.length)
mapped_type col (some t) = ok (t, [])

unfoldable pub column_type :
    Bytes → ColumnDefinition → Result Error (FieldType × List (Bytes × Bytes))
unfolding milvus_type sized equal
column_type vector_keyword col =
    if equal_fold col.type_name (codes "bool")
      || equal_fold col.type_name (codes "boolean")
      || (equal col.type_name (codes "tinyint") && has_length col (codes "1"))
    then ok (field_bool, [])
    else if equal_fold col.type_name (codes "json")
    then ok (field_json, [])
    else if equal col.type_name vector_keyword
    then with_type field_float_vector
        (sized 32768 (codes "dim") no_vector_length bad_vector_length col.length)
    else mapped_type col (milvus_type col.sql_type)

-- Whether the column is the primary key, and whether it is an auto-ID.
unfoldable pub column_key : ColumnDefinition → Result Error (Bool × Bool)
column_key col =
    if col.key_opt == 1
    then ok (true, col.autoincrement)
    else if col.key_opt == 0
    then (if col.autoincrement then err auto_increment_not_primary else ok (false, false))
    else err unsupported_key

abbrev pub text_of_comment : Option Bytes → Bytes
text_of_comment none = []
text_of_comment (some s) = s

-- `columnToMilvusField`
unfoldable pub column_to_milvus_field : Bytes → ColumnDefinition → Result Error FieldSchema
unfolding column_type column_key
column_to_milvus_field vector_keyword col = do
  refuse (has_unsupported_option col) unsupported_column_options
  (data_type, params) ← column_type vector_keyword col
  (primary, auto) ← column_key col
  ok (record {
    name = col.name;
    description = text_of_comment col.comment;
    data_type = data_type;
    primary_key = primary;
    auto_id = auto;
    type_params = params;
  })

-- `errors.Wrapf(err, "column[%s] …")`
abbrev pub wrap_column : {A : Type 0} → Bytes → Result Error A → Result Error A
wrap_column name (ok a) = ok a
wrap_column name (err e) = err (in_column name e)

unfoldable pub milvus_fields : Bytes → List ColumnDefinition → Result Error (List FieldSchema)
unfolding column_to_milvus_field
milvus_fields vector_keyword [] = ok []
milvus_fields vector_keyword (col ∷ cols) = do
  f ← wrap_column col.name (column_to_milvus_field vector_keyword col)
  fs ← milvus_fields vector_keyword cols
  ok (f ∷ fs)

abbrev pub is_type_int64 : FieldType → Bool
is_type_int64 field_int64 = true
is_type_int64 _ = false

abbrev pub is_type_var_char : FieldType → Bool
is_type_var_char field_var_char = true
is_type_var_char _ = false

abbrev pub is_type_vector : FieldType → Bool
is_type_vector field_float_vector = true
is_type_vector _ = false

abbrev pub one_if : Bool → ℕ
one_if true = 1
one_if false = 0

-- The loop over the fields, with the names seen and the two counters.
unfoldable pub check_fields : List Bytes → ℕ → ℕ → List FieldSchema → Result Error (ℕ × ℕ)
unfolding field_identifier equal
check_fields seen pk vectors [] = ok (pk, vectors)
check_fields seen pk vectors (f ∷ fs) = do
  refuse (seen_in seen f.name) duplicate_column
  refuse (equal f.name (codes "_distance")) reserved_distance
  refuse (not (field_identifier f.name)) bad_field_name
  refuse (f.primary_key && not (is_type_int64 f.data_type) && not (is_type_var_char f.data_type))
      bad_primary_type
  refuse (f.primary_key && f.auto_id && not (is_type_int64 f.data_type)) bad_auto_id_type
  check_fields (f.name ∷ seen) (pk + one_if f.primary_key)
      (vectors + one_if (is_type_vector f.data_type)) fs

abbrev pub check_counts : ℕ × ℕ → Result Error (Unit {0})
check_counts (pk, vectors) = refuse (not (pk == 1) || vectors == 0) bad_collection

abbrev pub table_spec_of : Option TableSpec → Result Error TableSpec
table_spec_of none = err no_table_spec
table_spec_of (some spec) = ok spec

-- `DDLToMilvusSchema`
unfoldable pub ddl_to_milvus_schema : Bytes → Ddl → Result Error MilvusSchema
unfolding milvus_fields check_fields
ddl_to_milvus_schema vector_keyword stmt = do
  spec ← table_spec_of stmt.table_spec
  refuse (not (is_blank stmt.new_qualifier) || not (is_blank spec.options) || ltb 0 spec.indexes)
      unsupported_table_options
  fields ← milvus_fields vector_keyword spec.columns
  counts ← check_fields [] 0 0 fields
  check_counts counts
  ok (record { collection_name = stmt.new_name; fields = fields; shard_num = 1 })
