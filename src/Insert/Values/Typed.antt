-- ===== src/Insert/Values/Typed.antt =====
-- What a value of an insert satisfies: it is one of its field's type, in the field's bounds.
use milvus_sql_proxy.Base.{
  ℕ, ◌≤◌, Bool, true, false, ◌≡◌, refl, List, Bytes, codes, equal, length, ◌==◌, any, Option, none,
  some, if◌then◌else◌, ℤ, pos, negsuc, ok, err, ◌>>=◌, >>=-eq-ok, refuse-eq-ok, ok-injective, arith,
  Bool-cases, inl, inr,
}
use milvus_sql_proxy.Error.{null_element, non_finite, too_long, bad_json}
use milvus_sql_proxy.Value.{
  Library, Value, bool, signed, float32, float64, vector, bytes, string, IntType, int8, int16,
  int32, int64,
}
use milvus_sql_proxy.Ast.{Expr, sql_val, str_val}
use milvus_sql_proxy.Decimal.{parse_int}
use milvus_sql_proxy.Decimal.RoundTrip.{Fits, parse_int-Fits}
use milvus_sql_proxy.Wire.{parse_bool}
use milvus_sql_proxy.Resultset.{
  FieldType, field_bool, field_int8, field_int16, field_int32, field_int64, field_float,
  field_double, field_var_char, field_json, field_float_vector,
}
use milvus_sql_proxy.Insert.Values.{
  FieldSchema, type_param, bool_field, int_field, finite, var_char_field, vector_field, typed_value,
  field_value, unwrap_vector, literal_text, exceeds_length, check_dimension, or_bad_number,
  or_json_error, dim_or_zero,
}

module _ (lib : Library) (f : FieldSchema) where
  -- A string has the field's `max_length` at most, and a vector the field's `dim` elements.
  abbrev pub HasType : FieldType → Value → Type 0
  HasType field_bool (bool b) = Unit
  HasType field_int8 (signed int8 i) = Fits 8 i
  HasType field_int16 (signed int16 i) = Fits 16 i
  HasType field_int32 (signed int32 i) = Fits 32 i
  HasType field_int64 (signed int64 i) = Fits 64 i
  HasType field_float (float32 x) = Unit
  HasType field_double (float64 x) = lib.is_non_finite x ≡ false
  HasType field_var_char (string s) =
      (max : ℕ) × (type_param f (codes "max_length") ≡ some (pos max)) × (length s ≤ max)
  HasType field_json (bytes s) = lib.json_valid s ≡ true
  HasType field_float_vector (vector v) = dim_or_zero (type_param f (codes "dim")) ≡ pos (length v)
  HasType _ _ = ⊥

  bool_field-HasType : (text : Bytes) {v : Value} → bool_field text ≡ ok v → HasType field_bool v
  unfolding bool_field
  bool_field-HasType text {v} h =
      by_text (equal text (codes "1")) (equal text (codes "0")) (parse_bool text) h
    where
      by_text :
          (one nought : Bool) (o : Option Bool)
          → (if one
              then ok (bool true)
              else if nought
              then ok (bool false)
              else or_bad_number o >>= λ b. ok (bool b))
            ≡ ok v
          → HasType field_bool v
      by_text true nought o h = rw (← ok-injective h) tt
      by_text false true o h = rw (← ok-injective h) tt
      by_text false false none h = cc
      by_text false false (some b) h = rw (← ok-injective h) tt

  int_field-Fits :
      (bits : ℕ) (kind : IntType) (text : Bytes) {v : Value}
      → int_field bits kind text ≡ ok v
      → (i : ℤ) × (v ≡ signed kind i) × Fits bits i
  unfolding int_field
  int_field-Fits bits kind text {v} h = found (parse_int bits text) refl h
    where
      found :
          (o : Option ℤ)
          → parse_int bits text ≡ o
          → (or_bad_number o >>= λ i. ok (signed kind i)) ≡ ok v
          → (i : ℤ) × (v ≡ signed kind i) × Fits bits i
      found none e h = cc
      found (some i) e h = (i, cc, parse_int-Fits bits text e)

  finite-IsFinite :
      (bits : ℕ) (text : Bytes) {n : ℕ} → finite lib bits text ≡ ok n → lib.is_non_finite n ≡ false
  unfolding finite
  finite-IsFinite bits text h =
      let (m, em, h') = >>=-eq-ok (or_bad_number (lib.parse_float bits text)) _ h in
      let (good, same) = refuse-eq-ok (lib.is_non_finite m) non_finite _ h' in
      rw (← ok-injective same) good

  bounded-length :
      (n : ℕ) (o : Option ℤ)
      → exceeds_length n o ≡ false
      → (max : ℕ) × (o ≡ some (pos max)) × (n ≤ max)
  bounded-length n none h = cc
  bounded-length n (some (pos max)) h = (max, refl, ground arith)
  bounded-length n (some (negsuc max)) h = cc

  check_dimension-HasType :
      (v : List ℕ) (dim : ℤ) {x : Value}
      → check_dimension v dim ≡ ok x
      → (x ≡ vector v) × (dim ≡ pos (length v))
  check_dimension-HasType v (pos n) h = elim (Bool-cases (length v == n)) [
    | inl same ↦ (ground arith, ground arith)
    | inr other ↦ ground arith
  ]
  check_dimension-HasType v (negsuc n) h = cc

  vector_field-HasType :
      (text : Bytes) {x : Value} → vector_field lib f text ≡ ok x → HasType field_float_vector x
  unfolding vector_field
  vector_field-HasType text h =
      let (raw, er, h') = >>=-eq-ok (or_json_error (lib.json_raw_array text)) _ h in
      let (numbers, h'') = refuse-eq-ok (any (λ x. equal x (codes "null")) raw) null_element _ h' in
      let (v, ev, h''') = >>=-eq-ok (or_json_error (lib.json_float32_array text)) _ h'' in
      let (is_vector, fits) = check_dimension-HasType v _ h''' in rw is_vector fits

  var_char_field-HasType :
      (e : Expr) (text : Bytes) {x : Value}
      → var_char_field f e text ≡ ok x
      → HasType field_var_char x
  unfolding var_char_field
  var_char_field-HasType (sql_val str_val s) text {x} h =
      checked (exceeds_length (length s) (type_param f (codes "max_length"))) refl h
    where
      checked :
          (b : Bool)
          → exceeds_length (length s) (type_param f (codes "max_length")) ≡ b
          → (if b then err too_long else ok (string s)) ≡ ok x
          → HasType field_var_char x
      checked true fit h = cc
      checked false fit h = rw (← ok-injective h) (bounded-length (length s) _ fit)
  var_char_field-HasType _ text h = cc

  typed_value-HasType :
      (t : FieldType) (e : Expr) (text : Bytes) {x : Value}
      → typed_value lib f t e text ≡ ok x
      → HasType t x
  typed_value-HasType field_bool e text h = bool_field-HasType text h
  typed_value-HasType field_int8 e text h =
      let (i, is, fit) = int_field-Fits 8 int8 text h in rw is fit
  typed_value-HasType field_int16 e text h =
      let (i, is, fit) = int_field-Fits 16 int16 text h in rw is fit
  typed_value-HasType field_int32 e text h =
      let (i, is, fit) = int_field-Fits 32 int32 text h in rw is fit
  typed_value-HasType field_int64 e text h =
      let (i, is, fit) = int_field-Fits 64 int64 text h in rw is fit
  typed_value-HasType field_float e text h =
      let (n, en, h') = >>=-eq-ok (finite lib 32 text) _ h in rw (← ok-injective h') tt
  typed_value-HasType field_double e text h =
      let (n, en, h') = >>=-eq-ok (finite lib 64 text) _ h in
      rw (← ok-injective h') (finite-IsFinite 64 text en)
  typed_value-HasType field_var_char e text h = var_char_field-HasType e text h
  typed_value-HasType field_json e text {x} h = checked (lib.json_valid text) refl h
    where
      checked :
          (b : Bool)
          → lib.json_valid text ≡ b
          → (if b then ok (bytes text) else err bad_json) ≡ ok x
          → HasType field_json x
      checked true e h = rw (← ok-injective h) e
      checked false e h = cc
  typed_value-HasType field_float_vector e text h = vector_field-HasType text h
  typed_value-HasType _ e text h = cc

  -- A value that `fieldValue` makes for a field is one of the field's type: an integer in the range
  -- of its width, a double that is finite, a string of at most `max_length` bytes, a text that is
  -- valid JSON, or a vector with as many elements as the field's `dim`.
  pub field_value-HasType :
      (e : Expr) (x : Value) → field_value lib f e ≡ ok x → HasType f.data_type x
  unfolding field_value
  field_value-HasType e x h =
      let (inner, ei, h') = >>=-eq-ok (unwrap_vector f.data_type e) _ h in
      let (text, et, h'') = >>=-eq-ok (literal_text inner) _ h' in
      typed_value-HasType f.data_type inner text h''
