-- ===== src/Resultset.antt =====
-- pkg/conn_resultvalue.go, `resultField` of pkg/select.go and `rows` of pkg/commands.go: query
-- results before a protocol encodes them. The result types are those of
-- github.com/flike/kingshard/mysql, as far as they are used.
pub mod Rectangular
use milvus_sql_proxy.Base.{
  ℕ, zero, suc, ◌+◌, Bool, true, false, not, ◌&&◌, ◌||◌, List, [], ◌∷◌, ◌++◌, map, Bytes, codes,
  length, is_empty, ◌==◌, Option, none, some, if◌then◌else◌, Result, ok, err, ◌>>=◌, ◌>>◌, refuse,
}
use milvus_sql_proxy.Error.{
  Error, invalid_value, unsupported_result_type, invalid_argument, row_columns, bad_json,
}
use milvus_sql_proxy.Decimal.{format_int, format_uint}
use milvus_sql_proxy.Value.{
  Value, null, bool, signed, unsigned, float32, float64, vector, bytes, string, unknown, Library,
}

pub data MysqlType : Type 0 where
  type_null type_tiny type_longlong type_double type_var_string : MysqlType

-- The flags that are set: BINARY, NOT_NULL and UNSIGNED.
pub record Flags : Type 0 where
  pub is_binary : Bool
  pub is_not_null : Bool
  pub is_unsigned : Bool

abbrev pub no_flags : Flags
no_flags = record { is_binary = false; is_not_null = false; is_unsigned = false }

pub record Field : Type 0 where
  pub name : Bytes
  pub type : MysqlType
  pub charset : ℕ
  pub flag : Flags

pub record Resultset : Type 0 where
  pub fields : List Field
  pub values : List (List Value)

pub record QueryResult : Type 0 where
  pub status : ℕ
  pub insert_id : ℕ
  pub affected_rows : ℕ
  pub resultset : Option Resultset

-- `writeOK(nil)`
abbrev pub no_result : QueryResult
no_result = record { status = 0; insert_id = 0; affected_rows = 0; resultset = none }

-- The field types of a Milvus collection (entity.FieldType).
pub data FieldType : Type 0 where
  field_bool field_int8 field_int16 field_int32 field_int64 field_float field_double : FieldType
  field_string field_var_char field_json field_float_vector field_other : FieldType

-- `formatValue`
unfoldable pub format_value : Library → Value → Result Error Bytes
unfolding format_int
format_value lib null = ok (codes "NULL")
format_value lib (bool true) = ok (codes "true")
format_value lib (bool false) = ok (codes "false")
format_value lib (signed k i) = ok (format_int i)
format_value lib (unsigned k n) = ok (format_uint n)
format_value lib (float32 f) = ok (lib.append_float (lib.widen f))
format_value lib (float64 f) = ok (lib.append_float f)
format_value lib (vector v) = elim (lib.json_marshal_floats v) [
  | none ↦ err bad_json
  | some text ↦ ok text
]
format_value lib (bytes s) = ok s
format_value lib (string s) = ok s
format_value lib unknown = err invalid_value

abbrev numeric : Bool → Flags
numeric is_unsigned = record { is_binary = true; is_not_null = true; is_unsigned = is_unsigned }

-- `formatField`: the field with the type of a value.
unfoldable pub format_field : Field → Value → Result Error Field
format_field f null = ok (record f { type = type_null })
format_field f (bool b) = ok (record f { charset = 63; type = type_tiny })
format_field f (signed k i) =
    ok (record f { charset = 63; type = type_longlong; flag = numeric false })
format_field f (unsigned k n) =
    ok (record f { charset = 63; type = type_longlong; flag = numeric true })
format_field f (float32 v) =
    ok (record f { charset = 63; type = type_double; flag = numeric false })
format_field f (float64 v) =
    ok (record f { charset = 63; type = type_double; flag = numeric false })
format_field f (string s) = ok (record f { charset = 33; type = type_var_string })
format_field f (bytes s) = ok (record f { charset = 33; type = type_var_string })
format_field f (vector v) = ok (record f { charset = 33; type = type_var_string })
format_field f unknown = err unsupported_result_type

-- The fields of `newEmptyResultset`.
unfoldable pub empty_field : Bytes → Field
empty_field name = record { name = name; type = type_var_string; charset = 33; flag = no_flags }

unfoldable pub new_empty_resultset : List Bytes → Resultset
unfolding empty_field
new_empty_resultset names = record { fields = map empty_field names; values = [] }

-- The loop over the first row, beside the fields; the two have one length here.
unfoldable pub format_fields : List Field → List Value → Result Error (List Field)
unfolding format_field
format_fields [] row = ok []
format_fields (f ∷ fs) [] = ok (f ∷ fs)
format_fields (f ∷ fs) (v ∷ row) = do g ← format_field f v; gs ← format_fields fs row; ok (g ∷ gs)

-- The loop over the rows, at row `i`; `columns` is `len(names)`, and `infer` says that the caller
-- gave no fields.
unfoldable pub check_rows :
    Bool → ℕ → ℕ → List Field → List (List Value) → Result Error (List Field)
unfolding format_fields
check_rows infer columns i fields [] = ok fields
check_rows infer columns i fields (row ∷ rows) = do
  refuse (not (length row == columns)) (row_columns i (length row) columns)
  next ← (if i == 0 && infer then format_fields fields row else ok fields)
  check_rows infer columns (i + 1) next rows

-- `buildResultset`
unfoldable pub build_resultset :
    List Field → List Bytes → List (List Value) → Result Error Resultset
unfolding new_empty_resultset check_rows
build_resultset fields names values = do
  refuse (not (is_empty fields) && not (length fields == length names)) invalid_argument
  let start = (if is_empty fields then (new_empty_resultset names).fields else fields)
  checked ← check_rows (is_empty fields) (length names) 0 start values
  ok (record { fields = checked; values = values })

-- `resultField`: the field of a result column with a Milvus type.
unfoldable pub result_field : Bytes → FieldType → Field
result_field name field_bool = record {
  name = name;
  type = type_tiny;
  charset = 63;
  flag = no_flags;
}
result_field name field_int8 = record {
  name = name;
  type = type_longlong;
  charset = 63;
  flag = no_flags;
}
result_field name field_int16 = record {
  name = name;
  type = type_longlong;
  charset = 63;
  flag = no_flags;
}
result_field name field_int32 = record {
  name = name;
  type = type_longlong;
  charset = 63;
  flag = no_flags;
}
result_field name field_int64 = record {
  name = name;
  type = type_longlong;
  charset = 63;
  flag = no_flags;
}
result_field name field_float = record {
  name = name;
  type = type_double;
  charset = 63;
  flag = no_flags;
}
result_field name field_double = record {
  name = name;
  type = type_double;
  charset = 63;
  flag = no_flags;
}
result_field name _ = record { name = name; type = type_var_string; charset = 33; flag = no_flags }
