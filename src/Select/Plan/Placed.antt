-- ===== src/Select/Plan/Placed.antt =====
-- Where the vector predicate of a plan stands in its WHERE clause.
use milvus_sql_proxy.Base.{
  ℕ, ◌+◌, ◌≤◌, Bool, true, false, ◌&&◌, ◌≡◌, refl, [], ◌∷◌, Bytes, codes, equal, Option, none, some,
  ok, >>=-eq-ok, arith, Bool-cases, inl, inr, sym, ◌∙◌, ap, ok-injective, subst, is_some,
}
use milvus_sql_proxy.Value.{Library}
use milvus_sql_proxy.Ast.{
  Expr, and_expr, or_expr, not_expr, paren_expr, comparison, col_name, Select,
}
use milvus_sql_proxy.Select.Vector.{
  Extracted, is_json_vector, vector_predicate, in_parentheses, conjoin, merge, extract_vector,
}
use milvus_sql_proxy.Select.Vector.Conjunct.{IsNamed, Paired, extract_vector-Splits}
use milvus_sql_proxy.Select.Plan.{SelectPlan, plan_select, plan_where, filter_left}
use milvus_sql_proxy.Select.Plan.Meaning.{
  has_vector, scalar_filter-has_vector, plan_limit-SameWhere,
}
use milvus_sql_proxy.Select.Plan.Bounds.{plan_select-Planned}

abbrev pub unit_if : Bool → ℕ
unit_if true = 1
unit_if false = 0

-- The vector predicates of a condition, wherever they stand.
unfoldable pub vectors : Expr → ℕ
unfolding is_json_vector
vectors (and_expr l r) = vectors l + vectors r
vectors (or_expr l r) = vectors l + vectors r
vectors (not_expr e) = vectors e
vectors (paren_expr e) = vectors e
vectors (comparison op l r escape) = unit_if (equal op (codes "like") && is_json_vector r)
vectors _ = 0

-- Those that are the condition itself or a part of its ANDs.
unfoldable pub conjoined_vectors : Expr → ℕ
unfolding is_json_vector
conjoined_vectors (and_expr l r) = conjoined_vectors l + conjoined_vectors r
conjoined_vectors (paren_expr e) = conjoined_vectors e
conjoined_vectors (comparison op l r escape) = unit_if (equal op (codes "like") && is_json_vector r)
conjoined_vectors _ = 0

vectors-no_vector : (e : Expr) → has_vector e ≡ false → vectors e ≡ 0
unfolding vectors has_vector
vectors-no_vector (and_expr l r) h =
    let a = vectors-no_vector l (ground arith) in
    let b = vectors-no_vector r (ground arith) in omega (arith, a, b)
vectors-no_vector (or_expr l r) h =
    let a = vectors-no_vector l (ground arith) in
    let b = vectors-no_vector r (ground arith) in omega (arith, a, b)
vectors-no_vector (not_expr e) h = vectors-no_vector e h
vectors-no_vector (paren_expr e) h = vectors-no_vector e h
vectors-no_vector (comparison op l r escape) h = rw h refl
vectors-no_vector _ h = refl

conjoined_vectors-le : (e : Expr) → conjoined_vectors e ≤ vectors e
unfolding vectors conjoined_vectors
conjoined_vectors-le (and_expr l r) =
    let a = conjoined_vectors-le l in let b = conjoined_vectors-le r in omega (arith, a, b)
conjoined_vectors-le (paren_expr e) = conjoined_vectors-le e
conjoined_vectors-le (comparison op l r escape) = omega arith
conjoined_vectors-le _ = omega arith

-- A count over what is left.
abbrev over : (Expr → ℕ) → Option Expr → ℕ
over count none = 0
over count (some e) = count e

abbrev Counts : (Expr → ℕ) → Expr → Extracted → Type 0
Counts count e x = count e ≡ unit_if (is_some x.vector) + over count x.left

-- What is counted through AND and parentheses.
record IsAdditive (count : Expr → ℕ) : Type 0 where
  and_sum : (l r : Expr) → count (and_expr l r) ≡ count l + count r
  predicate :
      (op : Bytes) (l r : Expr) (escape : Bool)
      → (equal op (codes "like") && is_json_vector r) ≡ true
      → count (comparison op l r escape) ≡ 1
  paren_same : (e : Expr) → count (paren_expr e) ≡ count e

paired : (e : Expr) {x : Extracted} → IsNamed e → extract_vector e ≡ ok x → Paired x
paired e n h = (extract_vector-Splits (λ a. true) e n h).1

vectors-IsAdditive : IsAdditive vectors
unfolding vectors
vectors-IsAdditive = record {
  and_sum = λ l r. refl;
  predicate = λ op l r escape v. ap unit_if v;
  paren_same = λ e. refl;
}

conjoined_vectors-IsAdditive : IsAdditive conjoined_vectors
unfolding conjoined_vectors
conjoined_vectors-IsAdditive = record {
  and_sum = λ l r. refl;
  predicate = λ op l r escape v. ap unit_if v;
  paren_same = λ e. refl;
}

module _ (count : Expr → ℕ) (additive : IsAdditive count) where
  over-conjoin : (l r : Option Expr) → over count (conjoin l r) ≡ over count l + over count r
  over-conjoin none r = omega arith
  over-conjoin (some l) none = omega arith
  over-conjoin (some l) (some r) = additive.and_sum l r

  merge-Counts :
      (l r : Expr) (x y : Extracted) {z : Extracted}
      → merge x y ≡ ok z
      → Paired x
      → Paired y
      → Counts count l x
      → Counts count r y
      → Counts count (and_expr l r) z
  unfolding merge
  merge-Counts l r x y h px py cx cy =
      ground (arith, additive.and_sum l r, over-conjoin x.left y.left)

  over-parentheses :
      (o : Option Expr)
      → over count (in_parentheses (record { left = o; field = []; vector = none })).left
        ≡ over count o
  over-parentheses none = refl
  over-parentheses (some e) = additive.paren_same e

  paren-Counts :
      (e : Expr) (x : Extracted) → Counts count e x → Counts count (paren_expr e) (in_parentheses x)
  paren-Counts e x h =
      additive.paren_same e
      ∙ h
      ∙ ap (λ n. unit_if (is_some x.vector) + n) (sym (over-parentheses x.left))

  predicate-Counts :
      (l r : Expr) (escape : Bool) (e : Expr) {z : Extracted}
      → count e ≡ 1
      → vector_predicate l r escape ≡ ok z
      → Counts count e z
  unfolding vector_predicate
  predicate-Counts (col_name [] name) r false e one h =
      subst (Counts count e) (ok-injective h) (omega (arith, one))
  predicate-Counts (col_name [] name) r true e one h = cc
  predicate-Counts (col_name (c ∷ q) name) r escape e one h = cc
  predicate-Counts _ r escape e one h = cc

  extract_vector-Counts :
      (e : Expr) {x : Extracted} → IsNamed e → extract_vector e ≡ ok x → Counts count e x
  unfolding extract_vector
  extract_vector-Counts (paren_expr e) n h =
      let (x, ex, h') = >>=-eq-ok (extract_vector e) _ h in
      subst (Counts count (paren_expr e)) (ok-injective h')
        (paren-Counts e x (extract_vector-Counts e n ex))
  extract_vector-Counts (and_expr l r) n h =
      let (x, ex, h') = >>=-eq-ok (extract_vector l) _ h in
      let (y, ey, h'') = >>=-eq-ok (extract_vector r) _ h' in
      merge-Counts l r x y h'' (paired l n.0 ex) (paired r n.1 ey) (extract_vector-Counts l n.0 ex)
        (extract_vector-Counts r n.1 ey)
  extract_vector-Counts (comparison op l r escape) n h =
      elim (Bool-cases (equal op (codes "like") && is_json_vector r)) [
        | inl v ↦
            predicate-Counts l r escape (comparison op l r escape)
              (additive.predicate op l r escape v) (rw v at h)
        | inr v ↦
            subst (Counts count (comparison op l r escape)) (ok-injective (rw v at h)) (omega arith)
      ]
  extract_vector-Counts e n h = subst (Counts count e) (ok-injective h) (omega arith)

-- The vector predicates of a condition are one or none, and stand among its ANDs, as a plan has
-- them.
abbrev pub IsPlaced : Expr → SelectPlan → Type 0
IsPlaced e p =
    (vectors e ≡ unit_if (is_some p.vector_expr))
    × (conjoined_vectors e ≡ unit_if (is_some p.vector_expr))

filter_left-none :
    (lib : Library) (o : Option Expr) {s : Bytes}
    → filter_left lib o ≡ ok s
    → (over vectors o ≡ 0) × (over conjoined_vectors o ≡ 0)
filter_left-none lib none h = (refl, refl)
filter_left-none lib (some e) h =
    let a = vectors-no_vector e (scalar_filter-has_vector lib e h) in
    let b = conjoined_vectors-le e in (a, omega (arith, a, b))

plan_where-IsPlaced :
    (lib : Library) (e : Expr) (q : SelectPlan) {p : SelectPlan}
    → IsNamed e
    → plan_where lib (some e) q ≡ ok p
    → IsPlaced e p
unfolding plan_where
plan_where-IsPlaced lib e q n h =
    let (x, ex, h') = >>=-eq-ok (extract_vector e) _ h in
    let (f, ef, h'') = >>=-eq-ok (filter_left lib x.left) _ h' in
    let (a, b) = filter_left-none lib x.left ef in
    let all = extract_vector-Counts vectors vectors-IsAdditive e n ex in
    let some_of = extract_vector-Counts conjoined_vectors conjoined_vectors-IsAdditive e n ex in
    subst (IsPlaced e) (ok-injective h'') (omega (arith, a, all), omega (arith, b, some_of))

-- The WHERE clause of a statement that is planned has at most one vector predicate in it, however
-- deep, and none in an OR or a NOT; and the plan has a vector just if there is one, which is then
-- the clause itself or a part of its ANDs. Every column that a comparison starts with has a name.
pub plan_select-IsPlaced :
    (lib : Library) (render : Expr → Bytes) (s : Select) (e : Expr) {p : SelectPlan}
    → s.where_expr ≡ some e
    → IsNamed e
    → plan_select lib render s ≡ ok p
    → IsPlaced e p
plan_select-IsPlaced lib render s e {p} clause n h =
    let made = plan_select-Planned lib render s h in
    let (filter, field, same) = plan_limit-SameWhere s.limit made.before made.limited in
    rw same (plan_where-IsPlaced lib e _ n (rw clause at made.filtered))
