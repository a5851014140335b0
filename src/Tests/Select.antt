-- ===== src/Tests/Select.antt =====
-- Runs of the planning of a SELECT.
use milvus_sql_proxy.Base.{◌+◌, ◌≤◌, Bool, true, false, ◌≡◌, refl, [], ◌∷◌, codes, none, some, ok}
use milvus_sql_proxy.Ast.{
  Expr, and_expr, or_expr, not_expr, paren_expr, comparison, col_name, sql_val, func, str_val,
  int_val, aliased, star, done, then_select, Select, aliased_table, table_name,
}
use milvus_sql_proxy.Select.Filter.{scalar_filter}
use milvus_sql_proxy.Select.Filter.Meaning.{Milvus, Means, holds, sql_atom, scalar_filter-Means}
use milvus_sql_proxy.Select.Plan.{SelectPlan, plan_select, max_rows}
use milvus_sql_proxy.Select.Plan.Bounds.{plan_select-bounds}
use milvus_sql_proxy.Select.Plan.Meaning.{Asks, plan_select-Asks}
use milvus_sql_proxy.Select.Plan.Placed.{IsPlaced, plan_select-IsPlaced}
use milvus_sql_proxy.Tests.{library}

-- Every comparison holds, and nothing is a member.
abbrev pub milvus : Milvus
milvus = record { compares = λ op l r. true; contains = λ op l items. false }

abbrev near_all : Expr → Expr → Bool
near_all l r = true

abbrev pub older : Expr
older = comparison (codes ">") (col_name [] (codes "age")) (sql_val int_val (codes "30")) false

abbrev vector_call : Expr
vector_call =
    func (codes "json_vector") (then_select (aliased (sql_val str_val (codes "[1]")) []) done)

abbrev is_near : Expr
is_near = comparison (codes "like") (col_name [] (codes "v")) vector_call false

-- age > 30 and v like json_vector('[1]')
abbrev both_parts : Expr
both_parts = and_expr older is_near

abbrev statement : Select
statement = record {
  distinct = [];
  select_exprs = star [] ∷ [];
  from = aliased_table (table_name [] (codes "people")) [] false ∷ [];
  where_expr = some both_parts;
  group_by = [];
  having = none;
  order_by = [];
  limit = some (record {
    rowcount = sql_val int_val (codes "10");
    offset = some (sql_val int_val (codes "5"));
  });
  lock = [];
}

abbrev plan : SelectPlan
plan = record {
  table = codes "people";
  filter = codes "age > 30";
  vector_field = codes "v";
  vector_expr = some vector_call;
  limit = 10;
  offset = 5;
}

planned : plan_select library (λ e. []) statement ≡ ok plan
unfolding plan_select scalar_filter
planned = refl

plan_select-Asks_example : Asks library milvus near_all both_parts plan
plan_select-Asks_example =
    plan_select-Asks library milvus near_all (λ e. []) statement both_parts refl (refl, refl)
      planned

plan_select-bounds_example : plan.limit + plan.offset ≤ max_rows
plan_select-bounds_example = plan_select-bounds library (λ e. []) statement planned

plan_select-IsPlaced_example : IsPlaced both_parts plan
plan_select-IsPlaced_example =
    plan_select-IsPlaced library (λ e. []) statement both_parts refl (refl, refl) planned

-- not (age > 30) or (age > 30)
abbrev either_way : Expr
either_way = or_expr (not_expr older) (paren_expr older)

either_way_text : scalar_filter library either_way ≡ ok (codes "(not (age > 30) or (age > 30))")
unfolding scalar_filter
either_way_text = refl

scalar_filter-Means_example :
    Means library milvus
      (holds (sql_atom library milvus) either_way)
      (codes "(not (age > 30) or (age > 30))")
scalar_filter-Means_example = scalar_filter-Means library milvus either_way either_way_text
