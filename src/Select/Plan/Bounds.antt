-- ===== src/Select/Plan/Bounds.antt =====
-- The rows that a plan may ask for.
use milvus_sql_proxy.Base.{
  ◌+◌, ◌≤◌, false, ◌≡◌, [], Bytes, none, ok, >>=-eq-ok, arith, length, ok-injective, refuse-eq-ok,
}
use milvus_sql_proxy.Value.{Library}
use milvus_sql_proxy.Ast.{Expr, Select}
use milvus_sql_proxy.Select.Plan.{
  SelectPlan, plan_select, plan_where, plan_limit, one_table, check_projections,
  has_unsupported_clause, exceeds, max_rows,
}

-- The stages of a plan that is made.
pub record Planned (lib : Library) (s : Select) (p : SelectPlan) : Type 0 where
  pub table : Bytes
  pub before : SelectPlan
  pub filtered :
      plan_where lib s.where_expr (record {
        table = table;
        filter = [];
        vector_field = [];
        vector_expr = none;
        limit = 100;
        offset = 0;
      })
      ≡ ok before
  pub limited : plan_limit s.limit before ≡ ok p
  pub fits : exceeds p ≡ false

pub plan_select-Planned :
    (lib : Library) (render : Expr → Bytes) (s : Select) {p : SelectPlan}
    → plan_select lib render s ≡ ok p
    → Planned lib s p
unfolding plan_select
plan_select-Planned lib render s {p} h =
    let (a, h1) = refuse-eq-ok (has_unsupported_clause s) _ _ h in
    let (t, b, h2) = >>=-eq-ok (one_table s.from) _ h1 in
    let (u, c, h3) =
      >>=-eq-ok (check_projections render (length s.select_exprs) s.select_exprs) _ h2 in
    let (q, d, h4) = >>=-eq-ok (plan_where lib s.where_expr _) _ h3 in
    let (r, e, h5) = >>=-eq-ok (plan_limit s.limit q) _ h4 in
    let (f, h6) = refuse-eq-ok (exceeds r) _ _ h5 in
    let same : r ≡ p = ok-injective h6 in
    record { table = t; before = q; filtered = d; limited = rw same at e; fits = rw same at f }

-- The limit and the offset of a plan together are at most 16384, as an exact sum, though the code
-- tests a sum of 64 bits that may wrap around.
pub plan_select-bounds :
    (lib : Library) (render : Expr → Bytes) (s : Select) {p : SelectPlan}
    → plan_select lib render s ≡ ok p
    → p.limit + p.offset ≤ max_rows
plan_select-bounds lib render s {p} h = within (plan_select-Planned lib render s h).fits
  where
    within : exceeds p ≡ false → p.limit + p.offset ≤ max_rows
    within e = ground arith
