-- ===== src/Ddl/Valid.antt =====
-- What holds of a schema that CREATE TABLE sends to the Milvus client.
use milvus_sql_proxy.Base.{
  ℕ, ◌+◌, ◌≤◌, Bool, true, false, not, ◌&&◌, ◌||◌, ◌≡◌, List, [], ◌∷◌, Bytes, codes, equal, ltb,
  ◌==◌, ok, subst, >>=-eq-ok, refuse-eq-ok, ok-injective, All, arith,
}
use milvus_sql_proxy.Error.{
  duplicate_column, reserved_distance, bad_field_name, bad_primary_type, bad_auto_id_type,
  unsupported_table_options, bad_collection,
}
use milvus_sql_proxy.Ast.{is_blank}
use milvus_sql_proxy.Select.Filter.{field_identifier}
use milvus_sql_proxy.Insert.Values.{FieldSchema}
use milvus_sql_proxy.Insert.Columns.{seen_in}
use milvus_sql_proxy.Ddl.Statements.{Ddl}
use milvus_sql_proxy.Ddl.Columns.{IsField, milvus_fields-All}
use milvus_sql_proxy.Ddl.{
  MilvusSchema, milvus_fields, is_type_int64, is_type_var_char, is_type_vector, one_if,
  check_fields, ddl_to_milvus_schema, table_spec_of,
}

-- The number of the fields that pass a test.
abbrev pub count_fields : (FieldSchema → Bool) → List FieldSchema → ℕ
count_fields test [] = 0
count_fields test (f ∷ fs) = one_if (test f) + count_fields test fs

-- No name is there twice, counting those seen before.
abbrev pub AllDistinct : List Bytes → List FieldSchema → Type 0
AllDistinct seen [] = Unit
AllDistinct seen (f ∷ fs) = (seen_in seen f.name ≡ false) × AllDistinct (f.name ∷ seen) fs

-- The field has an identifier for its name that is not the reserved one, and only a BIGINT or a
-- VARCHAR is a primary key, only a BIGINT an auto-ID one.
pub record IsNamed (f : FieldSchema) : Type 0 where
  pub identifier : field_identifier f.name ≡ true
  pub not_reserved : equal f.name (codes "_distance") ≡ false
  pub key_type :
      (not f.primary_key || is_type_int64 f.data_type || is_type_var_char f.data_type) ≡ true
  pub auto_type : (not f.primary_key || not f.auto_id || is_type_int64 f.data_type) ≡ true

pub record IsValid (s : MilvusSchema) : Type 0 where
  pub fields : All IsField s.fields
  pub names : All IsNamed s.fields
  pub distinct : AllDistinct [] s.fields
  pub one_key : count_fields (λ f. f.primary_key) s.fields ≡ 1
  pub some_vector : 1 ≤ count_fields (λ f. is_type_vector f.data_type) s.fields

-- What one round of the checks leaves to say.
abbrev Checked : List Bytes → ℕ → ℕ → List FieldSchema → ℕ × ℕ → Type 0
Checked seen pk vectors fs (pks, all) =
    All IsNamed fs
    × AllDistinct seen fs
    × (pks ≡ pk + count_fields (λ f. f.primary_key) fs)
    × (all ≡ vectors + count_fields (λ f. is_type_vector f.data_type) fs)

check_fields-Checked :
    (seen : List Bytes) (pk vectors : ℕ) (fs : List FieldSchema) {counts : ℕ × ℕ}
    → check_fields seen pk vectors fs ≡ ok counts
    → Checked seen pk vectors fs counts
unfolding check_fields
check_fields-Checked seen pk vectors [] h =
    subst (Checked seen pk vectors []) (ok-injective h) (tt, tt, omega arith, omega arith)
check_fields-Checked seen pk vectors (f ∷ fs) h =
    let (fresh, h1) = refuse-eq-ok (seen_in seen f.name) duplicate_column _ h in
    let (free, h2) = refuse-eq-ok (equal f.name (codes "_distance")) reserved_distance _ h1 in
    let (named, h3) = refuse-eq-ok (not (field_identifier f.name)) bad_field_name _ h2 in
    let (key, h4) =
      refuse-eq-ok
        (f.primary_key && not (is_type_int64 f.data_type) && not (is_type_var_char f.data_type))
        bad_primary_type _ h3 in
    let (auto, h5) =
      refuse-eq-ok (f.primary_key && f.auto_id && not (is_type_int64 f.data_type)) bad_auto_id_type
        _ h4 in
    let (all, distinct, keys, vector) =
      check_fields-Checked (f.name ∷ seen) (pk + one_if f.primary_key)
        (vectors + one_if (is_type_vector f.data_type)) fs h5 in
    (
      (
        record {
          identifier = ground (arith, named);
          not_reserved = free;
          key_type = ground (arith, key);
          auto_type = ground (arith, auto);
        },
        all,
      ),
      (fresh, distinct),
      omega (arith, keys),
      omega (arith, vector),
    )

-- The schema that a CREATE TABLE becomes is valid: each field has the parameters that its type
-- wants, within their bounds; names are identifiers, distinct, and none is `_distance`; just one
-- field is the primary key, which is a BIGINT or a VARCHAR; an auto-ID field is the primary key
-- and a BIGINT; and there is a vector field at least.
pub ddl_to_milvus_schema-IsValid :
    (vector_keyword : Bytes) (stmt : Ddl) (s : MilvusSchema)
    → ddl_to_milvus_schema vector_keyword stmt ≡ ok s
    → IsValid s
unfolding ddl_to_milvus_schema
ddl_to_milvus_schema-IsValid vector_keyword stmt s h =
    let (spec, es, h1) = >>=-eq-ok (table_spec_of stmt.table_spec) _ h in
    let (plain, h2) =
      refuse-eq-ok
        (not (is_blank stmt.new_qualifier) || not (is_blank spec.options) || ltb 0 spec.indexes)
        unsupported_table_options _ h1 in
    let (fields, ef, h3) = >>=-eq-ok (milvus_fields vector_keyword spec.columns) _ h2 in
    let (counts, ec, h4) = >>=-eq-ok (check_fields [] 0 0 fields) _ h3 in
    let (enough, h5) = refuse-eq-ok (not (counts.0 == 1) || counts.1 == 0) bad_collection _ h4 in
    let (names, distinct, keys, vectors) = check_fields-Checked [] 0 0 fields ec in
    subst IsValid (ok-injective h5) (record {
      fields = milvus_fields-All vector_keyword spec.columns ef;
      names = names;
      distinct = distinct;
      one_key = ground (arith, enough, keys);
      some_vector = ground (arith, enough, vectors);
    })
