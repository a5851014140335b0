-- ===== src/Select/Plan.antt =====
-- `planSelect` and `selectInteger`. `sqlparser.String`, which the projection is compared by, is a
-- parameter.
pub mod Meaning
pub mod Bounds
pub mod Placed
use milvus_sql_proxy.Base.{
  ℕ, ◌+◌, ◌%◌, ◌^◌, Bool, true, false, not, ◌&&◌, ◌||◌, List, [], ◌∷◌, Bytes, codes, is_empty,
  length, ltb, ◌==◌, Option, none, some, is_some, if◌then◌else◌, ℤ, pos, negsuc, Result, ok, err,
  ◌>>=◌, ◌>>◌, refuse,
}
use milvus_sql_proxy.Error.{
  Error, unsupported_clause, one_collection, joins, unsupported_table, bad_star, aliased_projection,
  qualified_projection, limit_too_large, not_integer_literal, bad_limit,
}
use milvus_sql_proxy.Decimal.{parse_int}
use milvus_sql_proxy.Value.{Library}
use milvus_sql_proxy.Ast.{
  Expr, col_name, sql_val, int_val, SelectExpr, star, aliased, other_select, SimpleTable,
  table_name, subquery, TableExpr, aliased_table, other_table, Limit, Select, is_blank,
}
use milvus_sql_proxy.Select.Filter.{scalar_filter}
use milvus_sql_proxy.Select.Vector.{equal_fold, Extracted, extract_vector}

pub record SelectPlan : Type 0 where
  pub table : Bytes
  pub filter : Bytes
  pub vector_field : Bytes
  pub vector_expr : Option Expr
  pub limit : ℕ
  pub offset : ℕ

abbrev pub non_negative : Option ℤ → Result Error ℕ
non_negative none = err bad_limit
non_negative (some (pos n)) = ok n
non_negative (some (negsuc n)) = err bad_limit

unfoldable pub select_integer : Expr → Result Error ℕ
unfolding parse_int
select_integer (sql_val int_val text) = non_negative (parse_int 64 text)
select_integer _ = err not_integer_literal

-- Clauses that have no counterpart in a Milvus query.
abbrev pub has_unsupported_clause : Select → Bool
has_unsupported_clause s =
    not (is_blank s.distinct)
    || not (is_empty s.group_by)
    || is_some s.having
    || not (is_empty s.order_by)
    || not (is_blank s.lock)

-- The table of `s.From[0]`.
unfoldable pub plain_table : TableExpr → Result Error Bytes
plain_table (aliased_table (table_name qualifier name) alias hints) =
    if not (is_blank alias) || hints || not (is_blank qualifier)
    then err unsupported_table
    else ok name
plain_table (aliased_table subquery alias hints) = err unsupported_table
plain_table other_table = err joins

unfoldable pub one_table : List TableExpr → Result Error Bytes
unfolding plain_table
one_table (t ∷ []) = plain_table t
one_table _ = err one_collection

abbrev pub plain_column : Expr → Result Error (Unit {0})
plain_column (col_name qualifier name) = refuse (not (is_blank qualifier)) qualified_projection
plain_column _ = err qualified_projection

-- One round over the `n` select expressions.
unfoldable pub check_projection : (Expr → Bytes) → ℕ → SelectExpr → Result Error (Unit {0})
check_projection render n (star qualifier) =
    refuse (not (n == 1) || not (is_blank qualifier)) bad_star
check_projection render n (aliased e alias) = do
  refuse (not (is_blank alias)) aliased_projection
  if equal_fold (render e) (codes "count(*)") && n == 1 then ok tt else plain_column e
check_projection render n other_select = err aliased_projection

unfoldable pub check_projections : (Expr → Bytes) → ℕ → List SelectExpr → Result Error (Unit {0})
unfolding check_projection
check_projections render n [] = ok tt
check_projections render n (e ∷ es) = do check_projection render n e; check_projections render n es

-- The filter of what is left of a condition; none is the empty text.
abbrev pub filter_left : Library → Option Expr → Result Error Bytes
filter_left lib none = ok []
filter_left lib (some e) = scalar_filter lib e

unfoldable pub plan_where : Library → Option Expr → SelectPlan → Result Error SelectPlan
unfolding extract_vector scalar_filter
plan_where lib none p = ok p
plan_where lib (some e) p = do
  x ← extract_vector e
  filter ← filter_left lib x.left
  ok (record p { vector_field = x.field; vector_expr = x.vector; filter = filter })

abbrev pub plan_offset : Option Expr → SelectPlan → Result Error SelectPlan
plan_offset none p = ok p
plan_offset (some e) p = do n ← select_integer e; ok (record p { offset = n })

unfoldable pub plan_limit : Option Limit → SelectPlan → Result Error SelectPlan
unfolding select_integer
plan_limit none p = ok p
plan_limit (some l) p = do
  n ← select_integer l.rowcount
  plan_offset l.offset (record p { limit = n })

abbrev pub max_rows : ℕ
max_rows = 16384

-- A sum of 64 bits, which may be negative: it is compared as an `int64`.
abbrev pub sum_exceeds : ℕ → ℕ → Bool
sum_exceeds limit offset =
    let sum = (limit + offset) % 2 ^ 64 in ltb max_rows sum && ltb sum (2 ^ 63)

abbrev pub exceeds : SelectPlan → Bool
exceeds p = ltb max_rows p.limit || ltb max_rows p.offset || sum_exceeds p.limit p.offset

unfoldable pub plan_select : Library → (Expr → Bytes) → Select → Result Error SelectPlan
unfolding one_table check_projections plan_where plan_limit
plan_select lib render s = do
  refuse (has_unsupported_clause s) unsupported_clause
  table ← one_table s.from
  check_projections render (length s.select_exprs) s.select_exprs
  let start : SelectPlan = record {
    table = table;
    filter = [];
    vector_field = [];
    vector_expr = none;
    limit = 100;
    offset = 0;
  }
  p ← plan_where lib s.where_expr start
  q ← plan_limit s.limit p
  refuse (exceeds q) limit_too_large
  ok q
