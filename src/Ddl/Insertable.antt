-- ===== src/Ddl/Insertable.antt =====
-- A table that DDL creates and what an insert can fill of it.
use milvus_sql_proxy.Base.{
  ℕ, zero, suc, ◌≤◌, ◌≡◌, refl, List, [], ◌∷◌, Bytes, codes, some, pos, ok, err, All, ◌⊎◌, inl, inr,
  arith, true, false, any, equal, ◌==◌, length, ◌>>=◌, Result,
}
use milvus_sql_proxy.Error.{Error, unsupported_field_type}
use milvus_sql_proxy.Value.{
  Library, Value, bool, signed, int8, int16, int32, int64, float32, float64, string, bytes, vector,
}
use milvus_sql_proxy.Ast.{Expr, sql_val, str_val, int_val, func, aliased, done, then_select}
use milvus_sql_proxy.Decimal.{parse_int}
use milvus_sql_proxy.Resultset.{
  FieldType, field_bool, field_int8, field_int16, field_int32, field_int64, field_float,
  field_double, field_var_char, field_json, field_string, field_float_vector, field_other,
}
use milvus_sql_proxy.Insert.Values.{
  FieldSchema, type_param, literal_text, unwrap_vector, typed_value, finite, vector_field,
  bool_field, int_field, var_char_field, field_value,
}
use milvus_sql_proxy.Insert.Columns.{ColumnApi, vector_column, empty_column_of, empty_column}
use milvus_sql_proxy.Ddl.Statements.{Ddl}
use milvus_sql_proxy.Ddl.{MilvusSchema, ddl_to_milvus_schema}
use milvus_sql_proxy.Ddl.Columns.{IsTyped, IsField}
use milvus_sql_proxy.Ddl.Valid.{ddl_to_milvus_schema-IsValid}

-- What the library reads: `0` as a finite float and as JSON, and an array of floats of each length.
pub record ReadsZeros (lib : Library) : Type 0 where
  pub float :
      (bits : ℕ)
      → (n : ℕ) × (lib.parse_float bits (codes "0") ≡ some n) × (lib.is_non_finite n ≡ false)
  pub json : lib.json_valid (codes "0") ≡ true
  pub array :
      (n : ℕ)
      → (text : Bytes) × (raw : List Bytes) × (v : List ℕ) × (lib.json_raw_array text ≡ some raw)
        × (any (λ x. equal x (codes "null")) raw ≡ false)
        × (lib.json_float32_array text ≡ some v)
        × ((length v == n) ≡ true)

module _ (lib : Library) (reads : ReadsZeros lib) where
  -- An insert takes a value for the field.
  abbrev pub Takes : FieldSchema → Type 0
  Takes f = (e : Expr) × (v : Value) × (field_value lib f e ≡ ok v)

  abbrev reads_as : FieldType → FieldSchema → Expr → Result Error Value
  reads_as t f e =
      unwrap_vector t e >>= λ inner. literal_text inner >>= λ text. typed_value lib f t inner text

  abbrev zero_literal : Expr
  zero_literal = sql_val int_val (codes "0")

  float_taken :
      (bits : ℕ) (make : ℕ → Value)
      → (v : Value) × ((finite lib bits (codes "0") >>= λ n. ok (make n)) ≡ ok v)
  unfolding finite
  float_taken bits make =
      let (n, read, is_finite) = reads.float bits in (make n, rw (read, is_finite) refl)

  vector_taken :
      (f : FieldSchema) (n : ℕ)
      → type_param f (codes "dim") ≡ some (pos n)
      → (text : Bytes) × (v : Value) × (vector_field lib f text ≡ ok v)
  unfolding vector_field
  vector_taken f n e =
      let (text, raw, v, as_raw, no_null, as_floats, size) = reads.array n in
      (text, vector v, rw (as_raw, no_null, as_floats, e, size) refl)

  typed-Takes :
      (t : FieldType) (f : FieldSchema)
      → IsTyped t f.type_params
      → ((e : Expr) × (v : Value) × (reads_as t f e ≡ ok v)) ⊎ (t ≡ field_string)
  unfolding literal_text unwrap_vector bool_field int_field var_char_field equal parse_int
      type_param
  typed-Takes field_bool f typed = inl (sql_val int_val (codes "1"), bool true, refl)
  typed-Takes field_int8 f typed = inl (zero_literal, signed int8 (pos 0), refl)
  typed-Takes field_int16 f typed = inl (zero_literal, signed int16 (pos 0), refl)
  typed-Takes field_int32 f typed = inl (zero_literal, signed int32 (pos 0), refl)
  typed-Takes field_int64 f typed = inl (zero_literal, signed int64 (pos 0), refl)
  typed-Takes field_float f typed =
      let (v, taken) = float_taken 32 (λ n. float32 (lib.narrow n)) in inl (zero_literal, v, taken)
  typed-Takes field_double f typed =
      let (v, taken) = float_taken 64 float64 in inl (zero_literal, v, taken)
  typed-Takes field_var_char f (n, e, low, high) =
      inl (sql_val str_val [], string [], rw e (ground arith))
  typed-Takes field_json f typed =
      inl (sql_val str_val (codes "0"), bytes (codes "0"), rw (reads.json) refl)
  typed-Takes field_float_vector f (n, e, low, high) =
      let (text, v, taken) = vector_taken f n e in
      inl (
        func (codes "json_vector") (then_select (aliased (sql_val str_val text) []) done),
        v,
        taken,
      )
  typed-Takes field_string f typed = inr refl
  typed-Takes field_other f typed = absurd typed

module _ {C : Type 0} (lib : Library) (api : ColumnApi C) (reads : ReadsZeros lib) where
  -- An insert finds a column for the field and takes a value for it, unless the field is a TEXT.
  abbrev pub IsInsertable : FieldSchema → Type 0
  IsInsertable f =
      (((c : C) × (empty_column lib api f ≡ ok c)) × Takes lib reads f)
      ⊎ ((f.data_type ≡ field_string) × (empty_column lib api f ≡ err unsupported_field_type))

  vector_column-ok :
      (f : FieldSchema) (n : ℕ)
      → type_param f (codes "dim") ≡ some (pos n)
      → 1 ≤ n
      → (c : C) × (vector_column lib api f.name (type_param f (codes "dim")) ≡ ok c)
  vector_column-ok f zero e h = absurd (omega arith)
  vector_column-ok f (suc n) e h = (api.new_column field_float_vector f.name (suc n), rw e refl)

  empty_column_of-IsInsertable :
      (t : FieldType) (f : FieldSchema)
      → IsTyped t f.type_params
      → ((c : C) × (empty_column_of lib api t f ≡ ok c))
        ⊎ ((t ≡ field_string) × (empty_column_of lib api t f ≡ err unsupported_field_type))
  unfolding empty_column_of type_param
  empty_column_of-IsInsertable field_float_vector f (n, e, low, high) =
      inl (vector_column-ok f n e low)
  empty_column_of-IsInsertable field_string f typed = inr (refl, refl)
  empty_column_of-IsInsertable field_other f typed = absurd typed
  empty_column_of-IsInsertable field_bool f typed = inl (_, refl)
  empty_column_of-IsInsertable _ f typed = inl (_, refl)

  field-IsInsertable : (f : FieldSchema) → IsTyped f.data_type f.type_params → IsInsertable f
  unfolding field_value
  field-IsInsertable f typed =
      both (empty_column_of-IsInsertable f.data_type f typed)
        (typed-Takes lib reads f.data_type f typed)
    where
      both :
          (((c : C) × (empty_column lib api f ≡ ok c))
            ⊎ ((f.data_type ≡ field_string)
                × (empty_column lib api f ≡ err unsupported_field_type)))
          → Takes lib reads f ⊎ (f.data_type ≡ field_string)
          → IsInsertable f
      both (inr text) taken = inr text
      both (inl column) (inl taken) = inl (column, taken)
      both (inl (c, e)) (inr text) = inr (text, unfold empty_column_of in rw text refl)

  All-IsInsertable : (fs : List FieldSchema) → All IsField fs → All IsInsertable fs
  All-IsInsertable [] h = tt
  All-IsInsertable (f ∷ fs) h = (field-IsInsertable f (h.0.typed), All-IsInsertable fs h.1)

  -- Every field of a table that CREATE TABLE accepts, of whatever type, has a column for an insert,
  -- and a literal whose value an insert takes for it, but for a TEXT column: CREATE TABLE takes it,
  -- and an insert refuses its type. This is of a library that reads `0` as a finite float and as
  -- JSON, and for each length some array of floats.
  pub created-IsInsertable :
      (vector_keyword : Bytes) (stmt : Ddl) (s : MilvusSchema)
      → ddl_to_milvus_schema vector_keyword stmt ≡ ok s
      → All IsInsertable s.fields
  created-IsInsertable vector_keyword stmt s h =
      All-IsInsertable s.fields (ddl_to_milvus_schema-IsValid vector_keyword stmt s h).fields
