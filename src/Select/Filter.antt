-- ===== src/Select/Filter.antt =====
-- `scalarFilter`, `filterPair` and `filterValue`: a WHERE expression as a Milvus filter text.
-- `strconv.Quote` is the library's.
pub mod Meaning
use milvus_sql_proxy.Base.{
  ℕ, Bool, true, false, not, ◌&&◌, ◌||◌, List, [], ◌∷◌, ◌++◌, Bytes, codes, equal, join, between,
  ◌==◌, if◌then◌else◌, Result, ok, err, ◌>>=◌, ◌>>◌, refuse,
}
use milvus_sql_proxy.Error.{
  Error, in_requires_list, in_requires_literals, like_requires_literal, unsupported_escape,
  unsupported_where, unsupported_value, unsupported_operator,
}
use milvus_sql_proxy.Value.{Library}
use milvus_sql_proxy.Ast.{
  ValType, str_val, int_val, float_val, other_val, Expr, and_expr, or_expr, not_expr, paren_expr,
  comparison, col_name, sql_val, bool_val, unary, func, val_tuple, other, Exprs, nil, cons,
  is_blank,
}

-- `^[A-Za-z_][A-Za-z0-9_]*$`
abbrev pub is_letter : ℕ → Bool
is_letter c = between b'A' b'Z' c || between b'a' b'z' c || c == b'_'

unfoldable pub is_word : Bytes → Bool
is_word [] = true
is_word (c ∷ s) = (is_letter c || between b'0' b'9' c) && is_word s

unfoldable pub field_identifier : Bytes → Bool
unfolding is_word
field_identifier [] = false
field_identifier (c ∷ s) = is_letter c && is_word s

abbrev pub is_sign : Bytes → Bool
is_sign op = equal op (codes "-") || equal op (codes "+")

abbrev pub bool_text : Bool → Bytes
bool_text true = codes "true"
bool_text false = codes "false"

-- `v.Operator + string(n.Val)` of a signed literal; both `filterValue` and `literalText` have it.
unfoldable pub signed_text : Error → Bytes → Expr → Result Error Bytes
signed_text e op (sql_val int_val text) = if is_sign op then ok (op ++ text) else err e
signed_text e op (sql_val float_val text) = if is_sign op then ok (op ++ text) else err e
signed_text e op _ = err e

unfoldable pub filter_value : Library → Expr → Result Error Bytes
unfolding signed_text field_identifier
filter_value lib (col_name qualifier name) =
    if is_blank qualifier && field_identifier name then ok name else err unsupported_value
filter_value lib (sql_val str_val text) = ok (lib.quote text)
filter_value lib (sql_val int_val text) = ok text
filter_value lib (sql_val float_val text) = ok text
filter_value lib (bool_val b) = ok (bool_text b)
filter_value lib (unary op e) = signed_text unsupported_value op e
filter_value lib _ = err unsupported_value

-- The types that the list of an IN may hold.
abbrev pub is_literal : Expr → Bool
is_literal (sql_val t text) = true
is_literal (bool_val b) = true
is_literal (unary op e) = true
is_literal _ = false

unfoldable pub filter_items : Library → Exprs → Result Error (List Bytes)
unfolding filter_value
filter_items lib nil = ok []
filter_items lib (cons e es) = do
  refuse (not (is_literal e)) in_requires_literals
  item ← filter_value lib e
  items ← filter_items lib es
  ok (item ∷ items)

abbrev pub tuple_items : Library → Expr → Result Error (List Bytes)
tuple_items lib (val_tuple es) = filter_items lib es
tuple_items lib _ = err in_requires_list

abbrev pub is_sql_val : Expr → Bool
is_sql_val (sql_val t text) = true
is_sql_val _ = false

-- `l op r`, the text behind the switch on the operator.
unfoldable pub comparison_text : Library → Bytes → Expr → Expr → Bool → Result Error Bytes
unfolding filter_value
comparison_text lib op left right escape = do
  refuse escape unsupported_escape
  l ← filter_value lib left
  r ← filter_value lib right
  ok (l ++ (codes " " ++ (op ++ (codes " " ++ r))))

unfoldable pub membership_text : Library → Bytes → Expr → Expr → Result Error Bytes
unfolding filter_value filter_items
membership_text lib op left right = do
  l ← filter_value lib left
  items ← tuple_items lib right
  ok (l ++ (codes " " ++ (op ++ (codes " [" ++ (join (codes ",") items ++ codes "]")))))

abbrev pub is_order : Bytes → Bool
is_order op =
    equal op (codes "<") || equal op (codes "<=") || equal op (codes ">") || equal op (codes ">=")

-- The case of a comparison.
unfoldable pub comparison_filter : Library → Bytes → Expr → Expr → Bool → Result Error Bytes
unfolding comparison_text membership_text equal
comparison_filter lib op left right escape =
    if equal op (codes "=")
    then comparison_text lib (codes "==") left right escape
    else if equal op (codes "!=") || equal op (codes "<>")
    then comparison_text lib (codes "!=") left right escape
    else if equal op (codes "in") || equal op (codes "not in")
    then membership_text lib op left right
    else if equal op (codes "like")
    then (if is_sql_val right
        then comparison_text lib op left right escape
        else err like_requires_literal)
    else if is_order op
    then comparison_text lib op left right escape
    else err (unsupported_operator op)

-- `filterPair`, behind its two recursive calls.
abbrev pub filter_pair : Bytes → Result Error Bytes → Result Error Bytes → Result Error Bytes
filter_pair op left right = do
  a ← left
  b ← right
  ok (codes "(" ++ (a ++ (codes " " ++ (op ++ (codes " " ++ (b ++ codes ")"))))))

unfoldable pub scalar_filter : Library → Expr → Result Error Bytes
unfolding comparison_filter
scalar_filter lib (and_expr l r) =
    filter_pair (codes "and") (scalar_filter lib l) (scalar_filter lib r)
scalar_filter lib (or_expr l r) =
    filter_pair (codes "or") (scalar_filter lib l) (scalar_filter lib r)
scalar_filter lib (not_expr e) = do x ← scalar_filter lib e; ok (codes "not (" ++ (x ++ codes ")"))
scalar_filter lib (paren_expr e) = do x ← scalar_filter lib e; ok (codes "(" ++ (x ++ codes ")"))
scalar_filter lib (comparison op l r escape) = comparison_filter lib op l r escape
scalar_filter lib _ = err unsupported_where
