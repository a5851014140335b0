-- ===== src/Select/Vector.antt =====
-- `extractVector`: the one vector predicate of a condition, and what is left of the condition.
-- `strings.EqualFold` is modelled on ASCII letters.
pub mod Conjunct
use milvus_sql_proxy.Base.{
  ℕ, Bool, true, false, not, ◌&&◌, ◌||◌, [], ◌∷◌, Bytes, codes, equal, to_lower, Option, none, some,
  if◌then◌else◌, Result, ok, err, ◌>>=◌, ◌>>◌, refuse,
}
use milvus_sql_proxy.Error.{Error, second_vector, bad_vector_predicate}
use milvus_sql_proxy.Ast.{
  Expr, and_expr, or_expr, not_expr, paren_expr, comparison, col_name, sql_val, bool_val, unary,
  func, val_tuple, other, is_blank,
}

-- The three results of `extractVector`: what is left, if anything is, the field, empty if there
-- is no vector predicate, and the vector.
pub record Extracted : Type 0 where
  pub left : Option Expr
  pub field : Bytes
  pub vector : Option Expr

abbrev pub equal_fold : Bytes → Bytes → Bool
equal_fold s t = equal (to_lower s) (to_lower t)

-- A call of `json_vector`.
unfoldable pub is_json_vector : Expr → Bool
is_json_vector (func name exprs) = equal_fold name (codes "json_vector")
is_json_vector _ = false

-- The predicate `col LIKE json_vector(…)`, which needs a plain column on its left.
unfoldable pub vector_predicate : Expr → Expr → Bool → Result Error Extracted
vector_predicate (col_name qualifier name) right escape =
    if not (is_blank qualifier) || escape
    then err bad_vector_predicate
    else ok (record { left = none; field = name; vector = some right })
vector_predicate _ right escape = err bad_vector_predicate

abbrev pub in_parentheses : Extracted → Extracted
in_parentheses x = record x { left = wrap x.left }
  where
    wrap : Option Expr → Option Expr
    wrap none = none
    wrap (some e) = some (paren_expr e)

-- The conjunction of what two sides leave.
abbrev pub conjoin : Option Expr → Option Expr → Option Expr
conjoin none r = r
conjoin (some l) none = some l
conjoin (some l) (some r) = some (and_expr l r)

-- The case of an AND, behind its two recursive calls.
unfoldable pub merge : Extracted → Extracted → Result Error Extracted
merge l r =
    if not (is_blank l.field) && not (is_blank r.field)
    then err second_vector
    else ok (
        if not (is_blank r.field)
        then record { left = conjoin l.left r.left; field = r.field; vector = r.vector }
        else record { left = conjoin l.left r.left; field = l.field; vector = l.vector })

abbrev pub unchanged : Expr → Extracted
unchanged e = record { left = some e; field = []; vector = none }

unfoldable pub extract_vector : Expr → Result Error Extracted
unfolding vector_predicate merge is_json_vector
extract_vector (paren_expr e) = do x ← extract_vector e; ok (in_parentheses x)
extract_vector (and_expr l r) = do x ← extract_vector l; y ← extract_vector r; merge x y
extract_vector (comparison op l r escape) =
    if equal op (codes "like") && is_json_vector r
    then vector_predicate l r escape
    else ok (unchanged (comparison op l r escape))
extract_vector e = ok (unchanged e)
