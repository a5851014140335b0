-- ===== src/Select/Plan/Meaning.antt =====
-- The filter and the vector predicate of a plan say together what the WHERE clause says.
use milvus_sql_proxy.Base.{
  Bool, true, false, not, ◌&&◌, ◌||◌, ◌≡◌, refl, ap, ap₂, [], Bytes, codes, equal, Option, none,
  some, ok, >>=-eq-ok, arith, Bool-cases, inl, inr, ◌⊎◌, ok-injective, if◌then◌else◌, equal_iff,
  subst,
}
use milvus_sql_proxy.Value.{Library}
use milvus_sql_proxy.Ast.{
  Expr, and_expr, or_expr, not_expr, paren_expr, comparison, sql_val, Select, Limit,
}
use milvus_sql_proxy.Select.Filter.{scalar_filter, comparison_filter, is_sql_val}
use milvus_sql_proxy.Select.Filter.Meaning.{holds, sql_atom, Milvus, Means, scalar_filter-Means}
use milvus_sql_proxy.Select.Vector.{is_json_vector, extract_vector}
use milvus_sql_proxy.Select.Vector.Conjunct.{
  IsNamed, holds_left, holds_vector, extract_vector-holds,
}
use milvus_sql_proxy.Select.Plan.{
  SelectPlan, plan_select, plan_where, plan_limit, plan_offset, filter_left, select_integer,
}
use milvus_sql_proxy.Select.Plan.Bounds.{plan_select-Planned}

-- A vector predicate stands somewhere in the condition, however deep.
unfoldable pub has_vector : Expr → Bool
unfolding is_json_vector
has_vector (and_expr l r) = has_vector l || has_vector r
has_vector (or_expr l r) = has_vector l || has_vector r
has_vector (not_expr e) = has_vector e
has_vector (paren_expr e) = has_vector e
has_vector (comparison op l r escape) = equal op (codes "like") && is_json_vector r
has_vector _ = false

sql_val-is_json_vector : (e : Expr) → is_sql_val e ≡ true → is_json_vector e ≡ false
unfolding is_json_vector
sql_val-is_json_vector (sql_val t s) h = refl
sql_val-is_json_vector _ h = cc

comparison-has_vector :
    (lib : Library) (op : Bytes) (l r : Expr) (escape : Bool) {s : Bytes}
    → comparison_filter lib op l r escape ≡ ok s
    → (equal op (codes "like") && is_json_vector r) ≡ false
unfolding comparison_filter
comparison-has_vector lib op l r escape h = elim (Bool-cases (equal op (codes "like"))) [
  | inl like ↦
      let same = (equal_iff op (codes "like")).0 like in
      elim (Bool-cases (is_sql_val r)) [
        | inl v ↦ rw (like, sql_val-is_json_vector r v)
        | inr v ↦ absurd (refused v (rw same at h))
      ]
  | inr differs ↦ rw differs
]
  where
    refused :
        {s : Bytes}
        → is_sql_val r ≡ false
        → comparison_filter lib (codes "like") l r escape ≡ ok s
        → ⊥
    refused v e = ground arith

pub scalar_filter-has_vector :
    (lib : Library) (e : Expr) {s : Bytes} → scalar_filter lib e ≡ ok s → has_vector e ≡ false
unfolding scalar_filter has_vector
scalar_filter-has_vector lib (and_expr l r) h =
    let (a, el, h') = >>=-eq-ok (scalar_filter lib l) _ h in
    let (b, er, h'') = >>=-eq-ok (scalar_filter lib r) _ h' in
    rw (scalar_filter-has_vector lib l el, scalar_filter-has_vector lib r er)
scalar_filter-has_vector lib (or_expr l r) h =
    let (a, el, h') = >>=-eq-ok (scalar_filter lib l) _ h in
    let (b, er, h'') = >>=-eq-ok (scalar_filter lib r) _ h' in
    rw (scalar_filter-has_vector lib l el, scalar_filter-has_vector lib r er)
scalar_filter-has_vector lib (not_expr e) h =
    scalar_filter-has_vector lib e (>>=-eq-ok (scalar_filter lib e) _ h).1
scalar_filter-has_vector lib (paren_expr e) h =
    scalar_filter-has_vector lib e (>>=-eq-ok (scalar_filter lib e) _ h).1
scalar_filter-has_vector lib (comparison op l r escape) h =
    comparison-has_vector lib op l r escape h
scalar_filter-has_vector lib _ h = cc

module _ (lib : Library) (m : Milvus) (near : Expr → Expr → Bool) where
  -- A predicate with `json_vector` asks what is near; any other is Milvus's comparison.
  abbrev pub plan_atom : Expr → Bool
  plan_atom (comparison op l r escape) =
      if equal op (codes "like") && is_json_vector r
      then near l r
      else sql_atom lib m (comparison op l r escape)
  plan_atom e = sql_atom lib m e

  holds-plan_atom : (e : Expr) → has_vector e ≡ false → holds plan_atom e ≡ holds (sql_atom lib m) e
  unfolding holds has_vector
  holds-plan_atom (and_expr l r) h =
      ap₂ ◌&&◌ (holds-plan_atom l (ground arith)) (holds-plan_atom r (ground arith))
  holds-plan_atom (or_expr l r) h =
      ap₂ ◌||◌ (holds-plan_atom l (ground arith)) (holds-plan_atom r (ground arith))
  holds-plan_atom (not_expr e) h = ap not (holds-plan_atom e h)
  holds-plan_atom (paren_expr e) h = holds-plan_atom e h
  holds-plan_atom (comparison op l r escape) h = rw h
  holds-plan_atom _ h = refl

  -- The text of a plan's filter; the empty text filters nothing.
  abbrev pub FilterMeans : Bool → Bytes → Type 0
  FilterMeans b s = ((s ≡ []) × (b ≡ true)) ⊎ Means lib m b s

  filter_left-FilterMeans :
      (o : Option Expr) {s : Bytes}
      → filter_left lib o ≡ ok s
      → FilterMeans (holds_left plan_atom o) s
  filter_left-FilterMeans none h = inl (ground arith, refl)
  filter_left-FilterMeans (some e) h =
      inr
        (rw (holds-plan_atom e (scalar_filter-has_vector lib e h)) (scalar_filter-Means lib m e h))

-- The LIMIT clause changes neither the filter nor the vector predicate.
abbrev SameWhere : SelectPlan → SelectPlan → Type 0
SameWhere p q =
    (p.filter ≡ q.filter) × (p.vector_field ≡ q.vector_field) × (p.vector_expr ≡ q.vector_expr)

plan_offset-SameWhere :
    (o : Option Expr) (q : SelectPlan) {p : SelectPlan} → plan_offset o q ≡ ok p → SameWhere p q
plan_offset-SameWhere none q h = ground arith
plan_offset-SameWhere (some e) q h =
    let (n, en, h') = >>=-eq-ok (select_integer e) _ h in ground arith

pub plan_limit-SameWhere :
    (o : Option Limit) (q : SelectPlan) {p : SelectPlan} → plan_limit o q ≡ ok p → SameWhere p q
unfolding plan_limit
plan_limit-SameWhere none q h = ground arith
plan_limit-SameWhere (some l) q h =
    let (n, en, h') = >>=-eq-ok (select_integer l.rowcount) _ h in
    plan_offset-SameWhere l.offset (record q { limit = n }) h'

module _ (lib : Library) (m : Milvus) (near : Expr → Expr → Bool) where
  -- What a plan asks of a row, as it stands for the condition `e`.
  abbrev pub Asks : Expr → SelectPlan → Type 0
  Asks e p =
      (b : Bool) × FilterMeans lib m near b p.filter
      × (holds (plan_atom lib m near) e
          ≡ (b && holds_vector (plan_atom lib m near) p.vector_field p.vector_expr))

  plan_where-Asks :
      (e : Expr) (q : SelectPlan) {p : SelectPlan}
      → IsNamed e
      → plan_where lib (some e) q ≡ ok p
      → Asks e p
  unfolding plan_where
  plan_where-Asks e q n h =
      let (x, ex, h') = >>=-eq-ok (extract_vector e) _ h in
      let (f, ef, h'') = >>=-eq-ok (filter_left lib x.left) _ h' in
      subst (Asks e) (ok-injective h'') (
        holds_left (plan_atom lib m near) x.left,
        filter_left-FilterMeans lib m near x.left ef,
        extract_vector-holds (plan_atom lib m near) e n ex,
      )

  Asks-SameWhere : (e : Expr) (p q : SelectPlan) → SameWhere p q → Asks e q → Asks e p
  Asks-SameWhere e p q (f, v, w) a = rw (f, v, w) a

  -- The plan of a statement asks for just the rows that its WHERE clause describes: the clause
  -- holds where the filter does and the vector predicate, if there is one, does. Every column of
  -- a comparison has a name.
  pub plan_select-Asks :
      (render : Expr → Bytes) (s : Select) (e : Expr) {p : SelectPlan}
      → s.where_expr ≡ some e
      → IsNamed e
      → plan_select lib render s ≡ ok p
      → Asks e p
  plan_select-Asks render s e {p} clause n h =
      let made = plan_select-Planned lib render s h in
      Asks-SameWhere e p made.before (plan_limit-SameWhere s.limit made.before made.limited)
        (plan_where-Asks e _ n (rw clause at made.filtered))
