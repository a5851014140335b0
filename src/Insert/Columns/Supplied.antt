-- ===== src/Insert/Columns/Supplied.antt =====
-- The names of an insert: each field that the server does not fill is supplied, just once.
use milvus_sql_proxy.Base.{
  ℕ, ◌+◌, Bool, true, false, not, ◌&&◌, ◌||◌, ◌≡◌, refl, List, [], ◌∷◌, Bytes, All, Option, none,
  some, ok, refuse, >>=-eq-ok, refuse-eq-ok, length, ◌==◌, arith, subst,
}
use milvus_sql_proxy.Error.{
  upsert_auto_id, duplicate_field, explicit_auto_id, missing_field, row_length,
}
use milvus_sql_proxy.Value.{Library}
use milvus_sql_proxy.Ast.{Expr, Insert, values}
use milvus_sql_proxy.Postgres.Dictionary.{lookup}
use milvus_sql_proxy.Insert.Values.{FieldSchema}
use milvus_sql_proxy.Insert.Columns.{
  ColumnApi, field_map, insert_names, seen_in, check_name, check_names, check_missing,
  check_lengths, fill_insert_columns, values_rows, has_auto_id,
}

-- No name is there twice, counting those seen before; each is a field's that is no auto-ID field.
abbrev pub AllNew : List (Bytes × FieldSchema) → List Bytes → List Bytes → Type 0
AllNew m seen [] = Unit
AllNew m seen (n ∷ ns) =
    ((f : FieldSchema) × (lookup n m ≡ some f) × (f.auto_id ≡ false))
    × (seen_in seen n ≡ false)
    × AllNew m (n ∷ seen) ns

-- The seen names, the last one first.
unfoldable pub onto : List Bytes → List Bytes → List Bytes
onto seen [] = seen
onto seen (n ∷ ns) = onto (n ∷ seen) ns

check_name-eq-ok :
    (seen : List Bytes) (n : Bytes) (o : Option FieldSchema) {u : Unit {0}}
    → check_name seen n o ≡ ok u
    → ((f : FieldSchema) × (o ≡ some f) × (f.auto_id ≡ false)) × (seen_in seen n ≡ false)
check_name-eq-ok seen n none h = cc
check_name-eq-ok seen n (some f) h =
    let (fresh, h') = refuse-eq-ok (seen_in seen n) (duplicate_field n) _ h in
    ((f, refl, last f.auto_id h'), fresh)
  where
    last : (b : Bool) {u : Unit {0}} → refuse b explicit_auto_id ≡ ok u → b ≡ false
    last true h = cc
    last false h = refl

check_names-AllNew :
    (m : List (Bytes × FieldSchema)) (seen ns : List Bytes) {all : List Bytes}
    → check_names m seen ns ≡ ok all
    → AllNew m seen ns × (all ≡ onto seen ns)
unfolding check_names onto
check_names-AllNew m seen [] h = (tt, ground arith)
check_names-AllNew m seen (n ∷ ns) h =
    let (u, eu, h') = >>=-eq-ok (check_name seen n (lookup n m)) _ h in
    let (known, fresh) = check_name-eq-ok seen n (lookup n m) eu in
    let (rest, same) = check_names-AllNew m (n ∷ seen) ns h' in ((known, fresh, rest), same)

-- A field is an auto-ID field, or its name is supplied.
abbrev pub IsSupplied : List Bytes → FieldSchema → Type 0
IsSupplied ns f = (f.auto_id || seen_in (onto [] ns) f.name) ≡ true

check_missing-All :
    (seen : List Bytes) (fs : List FieldSchema) {u : Unit {0}}
    → check_missing seen fs ≡ ok u
    → All (λ f. (f.auto_id || seen_in seen f.name) ≡ true) fs
unfolding check_missing
check_missing-All seen [] h = tt
check_missing-All seen (f ∷ fs) h =
    let (here, h') =
      refuse-eq-ok (not f.auto_id && not (seen_in seen f.name)) (missing_field f.name) _ h in
    (flip f.auto_id (seen_in seen f.name) here, check_missing-All seen fs h')
  where
    flip : (a b : Bool) → (not a && not b) ≡ false → (a || b) ≡ true
    flip true b h = refl
    flip false true h = refl
    flip false false h = cc

check_lengths-All :
    (i n : ℕ) (rows : List (List Expr)) {u : Unit {0}}
    → check_lengths i n rows ≡ ok u
    → All (λ row. length row ≡ n) rows
unfolding check_lengths
check_lengths-All i n [] h = tt
check_lengths-All i n (row ∷ rows) h =
    let (even, h') = refuse-eq-ok (not (length row == n)) (row_length (i + 1) (length row) n) _ h in
    (ground arith, check_lengths-All (i + 1) n rows h')

module _ {C : Type 0} (lib : Library) (api : ColumnApi C) where
  abbrev pub IsAccepted : List FieldSchema → Insert → List (List Expr) → Type 0
  IsAccepted schema s rows =
      AllNew (field_map [] schema) [] (insert_names schema s.columns)
      × All (IsSupplied (insert_names schema s.columns)) schema
      × All (λ row. length row ≡ length (insert_names schema s.columns)) rows
      × ((s.is_replace && has_auto_id lib api schema) ≡ false)

  -- An insert that is accepted names only fields of the schema that are no auto-ID fields, none of
  -- them twice, and every field of the schema that is no auto-ID field; each of its rows has one
  -- value for each name; and a REPLACE goes to a schema without auto-ID fields.
  pub fill_insert_columns-IsAccepted :
      (schema : List FieldSchema) (s : Insert) (rows : List (List Expr)) (columns : List C)
      → s.rows ≡ values rows
      → fill_insert_columns lib api schema s ≡ ok columns
      → IsAccepted schema s rows
  unfolding fill_insert_columns values_rows
  fill_insert_columns-IsAccepted schema s rows columns e h =
      let (read, er, h') = >>=-eq-ok (values_rows lib api s.rows) _ h in
      let m = field_map [] schema in
      let names = insert_names schema s.columns in
      let (seen, es, h'') = >>=-eq-ok (check_names m [] names) _ h' in
      let (allowed, h3) =
        refuse-eq-ok (s.is_replace && has_auto_id lib api schema) upsert_auto_id _ h'' in
      let (u, eu, h4) = >>=-eq-ok (check_missing seen schema) _ h3 in
      let (w, ew, h5) = >>=-eq-ok (check_lengths 0 (length names) read) _ h4 in
      let (fresh, all) = check_names-AllNew m [] names es in
      (
        fresh,
        subst (λ x. All (λ f. (f.auto_id || seen_in x f.name) ≡ true) schema) all
            (check_missing-All seen schema eu),
        rw (← same_rows rows (rw e at er)) (check_lengths-All 0 (length names) read ew),
        allowed,
      )
    where
      same_rows :
          (rows : List (List Expr)) {read : List (List Expr)}
          → values_rows lib api (values rows) ≡ ok read
          → read ≡ rows
      same_rows [] h = cc
      same_rows (row ∷ rows) h = ground arith
