-- ===== src/Resultset/Rectangular.antt =====
-- A result that is built has a value in every row for each of its fields.
use milvus_sql_proxy.Base.{
  ℕ, ◌+◌, Bool, true, false, not, ◌&&◌, ◌≡◌, refl, List, [], ◌∷◌, Bytes, length, length-map,
  is_empty, ◌==◌, arith, All, ok, >>=-eq-ok, refuse-eq-ok, ok-injective, if◌then◌else◌, map, ◌∙◌,
  ap, suc,
}
use milvus_sql_proxy.Value.{Value}
use milvus_sql_proxy.Resultset.{
  Field, Resultset, format_field, format_fields, check_rows, build_resultset, empty_field,
  new_empty_resultset,
}

abbrev pub IsRectangular : ℕ → List (List Value) → Type 0
IsRectangular n = All (λ row. length row ≡ n)

length-format_fields :
    (fs : List Field) (row : List Value) {gs : List Field}
    → format_fields fs row ≡ ok gs
    → length gs ≡ length fs
unfolding format_fields
length-format_fields [] row h = ground arith
length-format_fields (f ∷ fs) [] h = ground arith
length-format_fields (f ∷ fs) (v ∷ row) h =
    let (g, eg, h') = >>=-eq-ok (format_field f v) _ h in
    let (gs, es, h'') = >>=-eq-ok (format_fields fs row) _ h' in
    rw (← ok-injective h'') (ap suc (length-format_fields fs row es))

inferred-length :
    (first : Bool) (fs : List Field) (row : List Value) {next : List Field}
    → (if first then format_fields fs row else ok fs) ≡ ok next
    → length next ≡ length fs
inferred-length true fs row h = length-format_fields fs row h
inferred-length false fs row h = ground arith

check_rows-IsRectangular :
    (infer : Bool) (columns i : ℕ) (fs : List Field) (rows : List (List Value)) {gs : List Field}
    → check_rows infer columns i fs rows ≡ ok gs
    → (length gs ≡ length fs) × IsRectangular columns rows
unfolding check_rows
check_rows-IsRectangular infer columns i fs [] h = (ground arith, tt)
check_rows-IsRectangular infer columns i fs (row ∷ rows) h =
    let (even, h') = refuse-eq-ok (not (length row == columns)) _ _ h in
    let (next, en, h'') =
      >>=-eq-ok (if i == 0 && infer then format_fields fs row else ok fs) _ h' in
    let (same, rest) = check_rows-IsRectangular infer columns (i + 1) next rows h'' in
    (same ∙ inferred-length (i == 0 && infer) fs row en, (ground arith, rest))

-- A result set that `buildResultset` returns has one field for each name, and every row has one
-- value for each field; the rows are those that it was given.
pub build_resultset-IsRectangular :
    (fields : List Field) (names : List Bytes) (values : List (List Value)) {r : Resultset}
    → build_resultset fields names values ≡ ok r
    → (length r.fields ≡ length names)
      × IsRectangular (length r.fields) r.values
      × (r.values ≡ values)
unfolding build_resultset new_empty_resultset
build_resultset-IsRectangular fields names values {r} h =
    let (fit, h') =
      refuse-eq-ok (not (is_empty fields) && not (length fields == length names)) _ _ h in
    let (checked, ec, h'') = >>=-eq-ok (check_rows _ _ _ _ values) _ h' in
    let (same, rest) = check_rows-IsRectangular _ _ _ _ values ec in
    let one_each : length checked ≡ length names = same ∙ started fields fit in
    rw (← ok-injective h'') (one_each, rw one_each rest, refl)
  where
    started :
        (fields : List Field)
        → (not (is_empty fields) && not (length fields == length names)) ≡ false
        → length (if is_empty fields then map empty_field names else fields) ≡ length names
    started [] fit = length-map empty_field names
    started (f ∷ fs) fit = ground arith
