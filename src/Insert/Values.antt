-- ===== src/Insert/Values.antt =====
-- `literalText` and `fieldValue`: a literal of a VALUES row as a value of the field's type.
pub mod Typed
use milvus_sql_proxy.Base.{
  ℕ, Bool, true, false, not, ◌||◌, List, [], ◌∷◌, Bytes, codes, equal, length, ltb, ◌==◌, any,
  Option, none, some, if◌then◌else◌, ℤ, pos, negsuc, Result, ok, err, ◌>>=◌, ◌>>◌, refuse,
}
use milvus_sql_proxy.Error.{
  Error, not_literal, bad_vector_call, bad_vector_argument, bad_number, non_finite,
  not_string_literal, too_long, bad_json, json_error, null_element, vector_dimension,
  unsupported_field_type,
}
use milvus_sql_proxy.Value.{
  Library, Value, bool, signed, float32, float64, vector, bytes, string, IntType, int8, int16,
  int32, int64,
}
use milvus_sql_proxy.Decimal.{parse_int, atoi}
use milvus_sql_proxy.Ast.{
  Expr, sql_val, bool_val, unary, func, str_val, int_val, float_val, SelectExpr, SelectExprs,
  aliased, done, then_select,
}
use milvus_sql_proxy.Select.Filter.{bool_text, signed_text}
use milvus_sql_proxy.Select.Vector.{equal_fold}
use milvus_sql_proxy.Wire.{parse_bool}
use milvus_sql_proxy.Postgres.Dictionary.{lookup}
use milvus_sql_proxy.Resultset.{
  FieldType, field_bool, field_int8, field_int16, field_int32, field_int64, field_float,
  field_double, field_var_char, field_json, field_float_vector,
}

-- entity.Field.
pub record FieldSchema : Type 0 where
  pub name : Bytes
  pub description : Bytes
  pub data_type : FieldType
  pub primary_key : Bool
  pub auto_id : Bool
  pub type_params : List (Bytes × Bytes)

unfoldable pub literal_text : Expr → Result Error Bytes
unfolding signed_text
literal_text (sql_val str_val text) = ok text
literal_text (sql_val int_val text) = ok text
literal_text (sql_val float_val text) = ok text
literal_text (bool_val b) = ok (bool_text b)
literal_text (unary op e) = signed_text not_literal op e
literal_text _ = err not_literal

-- The one argument of `json_vector`.
abbrev pub only_argument : SelectExprs → Result Error Expr
only_argument (then_select (aliased e alias) done) = ok e
only_argument (then_select e done) = err bad_vector_argument
only_argument _ = err bad_vector_call

unfoldable pub unwrap_vector : FieldType → Expr → Result Error Expr
unwrap_vector field_float_vector (func name args) =
    if equal_fold name (codes "json_vector") then only_argument args else err bad_vector_call
unwrap_vector t e = ok e

-- `f.TypeParams[key]`, the empty text if the key is missing, read by `strconv.Atoi`.
abbrev pub text_or_blank : Option Bytes → Bytes
text_or_blank none = []
text_or_blank (some text) = text

unfoldable pub type_param : FieldSchema → Bytes → Option ℤ
unfolding parse_int lookup
type_param f key = atoi (text_or_blank (lookup key f.type_params))

abbrev pub or_bad_number : {A : Type 0} → Option A → Result Error A
or_bad_number none = err bad_number
or_bad_number (some a) = ok a

unfoldable pub bool_field : Bytes → Result Error Value
unfolding parse_bool
bool_field text =
    if equal text (codes "1")
    then ok (bool true)
    else if equal text (codes "0")
    then ok (bool false)
    else or_bad_number (parse_bool text) >>= λ b. ok (bool b)

unfoldable pub int_field : ℕ → IntType → Bytes → Result Error Value
unfolding parse_int
int_field bits kind text = or_bad_number (parse_int bits text) >>= λ i. ok (signed kind i)

-- The float64 that `ParseFloat` returns, if it is finite.
unfoldable pub finite : Library → ℕ → Bytes → Result Error ℕ
finite lib bits text = do
  n ← or_bad_number (lib.parse_float bits text)
  refuse (lib.is_non_finite n) non_finite
  ok n

-- `err != nil || len(text) > max`
abbrev pub exceeds_length : ℕ → Option ℤ → Bool
exceeds_length n none = true
exceeds_length n (some (pos max)) = ltb max n
exceeds_length n (some (negsuc max)) = true

unfoldable pub var_char_field : FieldSchema → Expr → Bytes → Result Error Value
unfolding type_param
var_char_field f (sql_val str_val text) _ =
    if exceeds_length (length text) (type_param f (codes "max_length"))
    then err too_long
    else ok (string text)
var_char_field f _ _ = err not_string_literal

abbrev pub or_json_error : {A : Type 0} → Option A → Result Error A
or_json_error none = err json_error
or_json_error (some a) = ok a

-- `dim, _ := strconv.Atoi(…)`; `empty_column` has refused a text that is no number before.
abbrev pub dim_or_zero : Option ℤ → ℤ
dim_or_zero none = pos 0
dim_or_zero (some i) = i

abbrev pub check_dimension : List ℕ → ℤ → Result Error Value
check_dimension v (pos n) =
    if length v == n then ok (vector v) else err (vector_dimension (length v) (pos n))
check_dimension v (negsuc n) = err (vector_dimension (length v) (negsuc n))

unfoldable pub vector_field : Library → FieldSchema → Bytes → Result Error Value
unfolding type_param
vector_field lib f text = do
  raw ← or_json_error (lib.json_raw_array text)
  refuse (any (λ x. equal x (codes "null")) raw) null_element
  v ← or_json_error (lib.json_float32_array text)
  check_dimension v (dim_or_zero (type_param f (codes "dim")))

-- The switch on the type, for the text of the expression.
abbrev pub typed_value : Library → FieldSchema → FieldType → Expr → Bytes → Result Error Value
typed_value lib f field_bool e text = bool_field text
typed_value lib f field_int8 e text = int_field 8 int8 text
typed_value lib f field_int16 e text = int_field 16 int16 text
typed_value lib f field_int32 e text = int_field 32 int32 text
typed_value lib f field_int64 e text = int_field 64 int64 text
typed_value lib f field_float e text = finite lib 32 text >>= λ n. ok (float32 (lib.narrow n))
typed_value lib f field_double e text = finite lib 64 text >>= λ n. ok (float64 n)
typed_value lib f field_var_char e text = var_char_field f e text
typed_value lib f field_json e text = if lib.json_valid text then ok (bytes text) else err bad_json
typed_value lib f field_float_vector e text = vector_field lib f text
typed_value lib f _ e text = err unsupported_field_type

unfoldable pub field_value : Library → FieldSchema → Expr → Result Error Value
unfolding literal_text unwrap_vector bool_field int_field finite var_char_field vector_field
field_value lib f e = do
  inner ← unwrap_vector f.data_type e
  text ← literal_text inner
  typed_value lib f f.data_type inner text
