-- ===== src/Ddl/Columns.antt =====
-- What holds of the field that a column of CREATE TABLE becomes.
use milvus_sql_proxy.Base.{
  not, ◌||◌, not-or-intro, ℕ, ◌≤◌, Bool, true, false, ◌&&◌, ◌||◌, ◌≡◌, refl, sym, ap, ◌∙◌, List, [],
  ◌∷◌, Bytes, codes, equal, equal_self, ltb, ◌==◌, Option, none, some, if◌then◌else◌, ℤ, pos,
  negsuc, Result, ok, err, >>=-eq-ok, refuse-eq-ok, ok-injective, All, arith, subst, inl, inr,
  Bool-cases,
}
use milvus_sql_proxy.Error.{
  Error, unsupported_column_options, no_vector_length, bad_vector_length,
  auto_increment_not_primary, unsupported_key,
}
use milvus_sql_proxy.Decimal.{atoi}
use milvus_sql_proxy.Select.Vector.{equal_fold}
use milvus_sql_proxy.Postgres.Dictionary.{lookup}
use milvus_sql_proxy.Resultset.{
  FieldType, field_bool, field_var_char, field_json, field_float_vector, field_other,
}
use milvus_sql_proxy.Insert.Values.{FieldSchema, text_or_blank}
use milvus_sql_proxy.Ddl.Statements.{SqlType, sql_int8, sql_varchar, sql_other, ColumnDefinition}
use milvus_sql_proxy.Ddl.{
  milvus_type, outside, sized, with_type, mapped_type, has_length, column_type, column_key,
  has_unsupported_option, column_to_milvus_field, wrap_column, milvus_fields,
}

-- The parameter `key` is a number from 1 to `max`.
abbrev pub Sized : ℕ → Bytes → List (Bytes × Bytes) → Type 0
Sized max key params =
    (n : ℕ) × (atoi (text_or_blank (lookup key params)) ≡ some (pos n)) × (1 ≤ n) × (n ≤ max)

-- A vector has its dimension, a string its maximal length, and there is no type that DDL has no
-- name for.
abbrev pub IsTyped : FieldType → List (Bytes × Bytes) → Type 0
IsTyped field_float_vector params = Sized 32768 (codes "dim") params
IsTyped field_var_char params = Sized 65535 (codes "max_length") params
IsTyped field_other params = ⊥
IsTyped _ params = Unit

sized-Sized :
    (max : ℕ) (key : Bytes) (missing bad : Error) (o : Option Bytes) {ps : List (Bytes × Bytes)}
    → sized max key missing bad o ≡ ok ps
    → Sized max key ps
unfolding sized lookup
sized-Sized max key missing bad none h = cc
sized-Sized max key missing bad (some text) {ps} h = by_number (atoi text) refl h
  where
    refused : ◌≡◌ {A = Result Error (List (Bytes × Bytes))} (err bad) (ok ps) → ⊥
    refused e = cc

    by_number :
        (o : Option ℤ)
        → atoi text ≡ o
        → (if outside max o then err bad else ok ((key, text) ∷ [])) ≡ ok ps
        → Sized max key ps
    by_number none e h = cc
    by_number (some (negsuc n)) e h = cc
    by_number (some (pos n)) e h = elim (Bool-cases (ltb n 1 || ltb max n)) [
      | inl out ↦ absurd (refused (rw out at h))
      | inr within ↦
          rw (← ok-injective (rw within at h), equal_self key, e)
            (n, refl, ground arith, ground arith)
    ]

-- The type of a column and its parameters.
abbrev IsTypedPair : FieldType × List (Bytes × Bytes) → Type 0
IsTypedPair (t, params) = IsTyped t params

with_type-IsTyped :
    (t : FieldType) (params : Result Error (List (Bytes × Bytes)))
    {p : FieldType × List (Bytes × Bytes)}
    → ((ps : List (Bytes × Bytes)) → params ≡ ok ps → IsTyped t ps)
    → with_type t params ≡ ok p
    → IsTypedPair p
with_type-IsTyped t params fits h =
    let (ps, e, h') = >>=-eq-ok params _ h in subst IsTypedPair (ok-injective h') (fits ps e)

mapped_type-IsTyped :
    (col : ColumnDefinition) (t : SqlType) {p : FieldType × List (Bytes × Bytes)}
    → mapped_type col (milvus_type t) ≡ ok p
    → IsTypedPair p
unfolding milvus_type
mapped_type-IsTyped col sql_varchar h =
    with_type-IsTyped field_var_char _ (λ ps e. sized-Sized _ _ _ _ col.length e) h
mapped_type-IsTyped col sql_other h = cc
mapped_type-IsTyped col sql_int8 h = subst IsTypedPair (ok-injective h) tt
mapped_type-IsTyped col _ h = subst IsTypedPair (ok-injective h) tt

column_type-IsTyped :
    (vector_keyword : Bytes) (col : ColumnDefinition) {p : FieldType × List (Bytes × Bytes)}
    → column_type vector_keyword col ≡ ok p
    → IsTypedPair p
unfolding column_type
column_type-IsTyped vector_keyword col {p} h =
    by_name
      (equal_fold col.type_name (codes "bool")
        || equal_fold col.type_name (codes "boolean")
        || (equal col.type_name (codes "tinyint") && has_length col (codes "1")))
      (equal_fold col.type_name (codes "json")) (equal col.type_name vector_keyword) h
  where
    by_name :
        (a b c : Bool)
        → (if a
            then ok (field_bool, [])
            else if b
            then ok (field_json, [])
            else if c
            then with_type field_float_vector
                (sized 32768 (codes "dim") no_vector_length bad_vector_length col.length)
            else mapped_type col (milvus_type col.sql_type))
          ≡ ok p
        → IsTypedPair p
    by_name true b c h = subst IsTypedPair (ok-injective h) tt
    by_name false true c h = subst IsTypedPair (ok-injective h) tt
    by_name false false true h =
        with_type-IsTyped field_float_vector _ (λ ps e. sized-Sized _ _ _ _ col.length e) h
    by_name false false false h = mapped_type-IsTyped col col.sql_type h

-- An auto-ID is the primary key.
column_key-auto :
    (col : ColumnDefinition) {k : Bool × Bool} → column_key col ≡ ok k → k.1 ≡ true → k.0 ≡ true
unfolding column_key
column_key-auto col {k} h auto = by_key (col.key_opt == 1) (col.key_opt == 0) col.autoincrement h
  where
    clash : false ≡ true → ⊥
    clash e = cc

    by_key :
        (a b c : Bool)
        → (if a
            then ok (true, c)
            else if b
            then (if c then err auto_increment_not_primary else ok (false, false))
            else err unsupported_key)
          ≡ ok k
        → k.0 ≡ true
    by_key true b c h = ap (λ x. x.0) (sym (ok-injective h))
    by_key false true true h = cc
    by_key false true false h = absurd (clash (ap (λ x. x.1) (ok-injective h) ∙ auto))
    by_key false false c h = cc

-- What the column gives for its field alone.
pub record IsField (f : FieldSchema) : Type 0 where
  pub typed : IsTyped f.data_type f.type_params
  pub auto_is_primary : (not f.auto_id || f.primary_key) ≡ true

column_to_milvus_field-IsField :
    (vector_keyword : Bytes) (col : ColumnDefinition) {f : FieldSchema}
    → column_to_milvus_field vector_keyword col ≡ ok f
    → IsField f
unfolding column_to_milvus_field
column_to_milvus_field-IsField vector_keyword col h =
    let (plain, h1) = refuse-eq-ok (has_unsupported_option col) unsupported_column_options _ h in
    let (p, et, h2) = >>=-eq-ok (column_type vector_keyword col) _ h1 in
    let (k, ek, h3) = >>=-eq-ok (column_key col) _ h2 in
    subst IsField (ok-injective h3) (record {
      typed = column_type-IsTyped vector_keyword col et;
      auto_is_primary = not-or-intro k.1 k.0 (column_key-auto col ek);
    })

wrap_column-eq-ok :
    {A : Type 0} (name : Bytes) (r : Result Error A) {a : A} → wrap_column name r ≡ ok a → r ≡ ok a
wrap_column-eq-ok name (ok a) h = h
wrap_column-eq-ok name (err e) h = cc

pub milvus_fields-All :
    (vector_keyword : Bytes) (cols : List ColumnDefinition) {fs : List FieldSchema}
    → milvus_fields vector_keyword cols ≡ ok fs
    → All IsField fs
unfolding milvus_fields
milvus_fields-All vector_keyword [] h = subst (All IsField) (ok-injective h) tt
milvus_fields-All vector_keyword (col ∷ cols) h =
    let (f, ef, h1) =
      >>=-eq-ok (wrap_column col.name (column_to_milvus_field vector_keyword col)) _ h in
    let (fs, es, h2) = >>=-eq-ok (milvus_fields vector_keyword cols) _ h1 in
    subst (All IsField) (ok-injective h2) (
      column_to_milvus_field-IsField vector_keyword col (wrap_column-eq-ok col.name _ ef),
      milvus_fields-All vector_keyword cols es,
    )
