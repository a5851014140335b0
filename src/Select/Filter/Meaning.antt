-- ===== src/Select/Filter/Meaning.antt =====
-- What a WHERE expression and a Milvus filter mean, and that `scalarFilter` keeps the meaning.
use milvus_sql_proxy.Base.{
  Bool, true, false, not, ◌&&◌, ◌||◌, ◌≡◌, ap, ap₂, List, [], ◌++◌, Bytes, codes, equal, join,
  if◌then◌else◌, Result, ok, err, >>=-eq-ok, arith, Bool-cases, inl, inr, equal-cases,
}
use milvus_sql_proxy.Error.{Error, unsupported_operator}
use milvus_sql_proxy.Value.{Library}
use milvus_sql_proxy.Ast.{Expr, and_expr, or_expr, not_expr, paren_expr, comparison}
use milvus_sql_proxy.Select.Filter.{
  filter_value, tuple_items, comparison_text, membership_text, comparison_filter, is_sql_val,
  is_order, scalar_filter,
}

-- A boolean expression over the predicates that are no AND, OR, NOT or pair of parentheses; `atom`
-- says which of those hold.
unfoldable pub holds : (Expr → Bool) → Expr → Bool
holds atom (and_expr l r) = holds atom l && holds atom r
holds atom (or_expr l r) = holds atom l || holds atom r
holds atom (not_expr e) = not (holds atom e)
holds atom (paren_expr e) = holds atom e
holds atom e = atom e

-- The filters that the proxy writes, as trees.
pub data Filter : Type 0 where
  both either : Filter → Filter → Filter
  negate group : Filter → Filter
  compare : Bytes → Bytes → Bytes → Filter
  member : Bytes → Bytes → List Bytes → Filter

unfoldable pub print : Filter → Bytes
print (both f g) =
    codes "(" ++ (print f ++ (codes " " ++ (codes "and" ++ (codes " " ++ (print g ++ codes ")")))))
print (either f g) =
    codes "(" ++ (print f ++ (codes " " ++ (codes "or" ++ (codes " " ++ (print g ++ codes ")")))))
print (negate f) = codes "not (" ++ (print f ++ codes ")")
print (group f) = codes "(" ++ (print f ++ codes ")")
print (compare op l r) = l ++ (codes " " ++ (op ++ (codes " " ++ r)))
print (member op l items) =
    l ++ (codes " " ++ (op ++ (codes " [" ++ (join (codes ",") items ++ codes "]"))))

-- How Milvus takes its comparisons and its memberships: operator, operand, operand or list.
pub record Milvus : Type 0 where
  pub compares : Bytes → Bytes → Bytes → Bool
  pub contains : Bytes → Bytes → List Bytes → Bool

unfoldable pub satisfies : Milvus → Filter → Bool
satisfies m (both f g) = satisfies m f && satisfies m g
satisfies m (either f g) = satisfies m f || satisfies m g
satisfies m (negate f) = not (satisfies m f)
satisfies m (group f) = satisfies m f
satisfies m (compare op l r) = m.compares op l r
satisfies m (member op l items) = m.contains op l items

-- The Milvus operator for an SQL one: `=` is `==`, `<>` is `!=`, the others are spelled alike.
unfoldable pub milvus_operator : Bytes → Bytes
milvus_operator op =
    if equal op (codes "=") then codes "==" else if equal op (codes "<>") then codes "!=" else op

abbrev pub text_of : Result Error Bytes → Bytes
text_of (ok s) = s
text_of (err e) = []

abbrev pub items_of : Result Error (List Bytes) → List Bytes
items_of (ok s) = s
items_of (err e) = []

-- An SQL comparison holds as Milvus takes the operands' texts; IN and NOT IN ask for membership.
unfoldable pub sql_atom : Library → Milvus → Expr → Bool
unfolding milvus_operator
sql_atom lib m (comparison op l r escape) =
    if equal op (codes "in") || equal op (codes "not in")
    then m.contains op (text_of (filter_value lib l)) (items_of (tuple_items lib r))
    else m.compares (milvus_operator op) (text_of (filter_value lib l))
        (text_of (filter_value lib r))
sql_atom lib m e = false

module _ (lib : Library) (m : Milvus) where
  -- A text that is the print of a filter with the meaning `b`.
  abbrev pub Means : Bool → Bytes → Type 0
  Means b s = (f : Filter) × (print f ≡ s) × (satisfies m f ≡ b)

  comparison_text-Means :
      (op : Bytes) (l r : Expr) (escape : Bool) {s : Bytes}
      → comparison_text lib op l r escape ≡ ok s
      → Means (m.compares op (text_of (filter_value lib l)) (text_of (filter_value lib r))) s
  unfolding comparison_text print satisfies
  comparison_text-Means op l r true h = cc
  comparison_text-Means op l r false h =
      let (a, el, h') = >>=-eq-ok (filter_value lib l) _ h in
      let (b, er, h'') = >>=-eq-ok (filter_value lib r) _ h' in
      (compare op a b, ground arith, rw (el, er))

  membership_text-Means :
      (op : Bytes) (l r : Expr) {s : Bytes}
      → membership_text lib op l r ≡ ok s
      → Means (m.contains op (text_of (filter_value lib l)) (items_of (tuple_items lib r))) s
  unfolding membership_text print satisfies
  membership_text-Means op l r h =
      let (a, el, h') = >>=-eq-ok (filter_value lib l) _ h in
      let (items, er, h'') = >>=-eq-ok (tuple_items lib r) _ h' in
      (member op a items, ground arith, rw (el, er))

  -- One of the operators that the switch knows, or none of them.
  comparison_filter-Means :
      (op : Bytes) (l r : Expr) (escape : Bool) {s : Bytes}
      → comparison_filter lib op l r escape ≡ ok s
      → Means (sql_atom lib m (comparison op l r escape)) s
  unfolding comparison_filter sql_atom
  comparison_filter-Means op l r escape {s} =
      equal-cases P op (codes "=") (comparison_text-Means _ l r escape) λ e1.
        equal-cases P op (codes "!=") (comparison_text-Means _ l r escape) λ e2.
          equal-cases P op (codes "<>") (comparison_text-Means _ l r escape) λ e3.
            equal-cases P op (codes "in") (membership_text-Means _ l r) λ e4.
              equal-cases P op (codes "not in") (membership_text-Means _ l r)
                λ e5. equal-cases P op (codes "like") like λ e6. rw (e1, e2, e3, e4, e5, e6) order
    where
      P : Bytes → Type 0
      P op =
          comparison_filter lib op l r escape ≡ ok s
          → Means (sql_atom lib m (comparison op l r escape)) s

      like : P (codes "like")
      like h = elim (Bool-cases (is_sql_val r)) [
        | inl v ↦ comparison_text-Means _ l r escape (rw v at h)
        | inr v ↦ absurd (ground arith)
      ]

      order :
          (if is_order op then comparison_text lib op l r escape else err (unsupported_operator op))
            ≡ ok s
          → Means (m.compares op (text_of (filter_value lib l)) (text_of (filter_value lib r))) s
      order h = elim (Bool-cases (is_order op)) [
        | inl o ↦ comparison_text-Means op l r escape (rw o at h)
        | inr o ↦ absurd (ground arith)
      ]

  -- Whatever `scalarFilter` accepts is printed as a filter of the same meaning: the connectives,
  -- with their parentheses, are those of the condition, and each comparison or membership is
  -- Milvus's own, under the operator of the table, of the same operands.
  pub scalar_filter-Means :
      (e : Expr) {s : Bytes} → scalar_filter lib e ≡ ok s → Means (holds (sql_atom lib m) e) s
  unfolding scalar_filter holds print satisfies
  scalar_filter-Means (and_expr l r) h =
      let (a, el, h') = >>=-eq-ok (scalar_filter lib l) _ h in
      let (b, er, h'') = >>=-eq-ok (scalar_filter lib r) _ h' in
      let (f, pf, mf) = scalar_filter-Means l el in
      let (g, pg, mg) = scalar_filter-Means r er in
      (both f g, rw (pf, pg) (ground arith), ap₂ ◌&&◌ mf mg)
  scalar_filter-Means (or_expr l r) h =
      let (a, el, h') = >>=-eq-ok (scalar_filter lib l) _ h in
      let (b, er, h'') = >>=-eq-ok (scalar_filter lib r) _ h' in
      let (f, pf, mf) = scalar_filter-Means l el in
      let (g, pg, mg) = scalar_filter-Means r er in
      (either f g, rw (pf, pg) (ground arith), ap₂ ◌||◌ mf mg)
  scalar_filter-Means (not_expr e) h =
      let (a, el, h') = >>=-eq-ok (scalar_filter lib e) _ h in
      let (f, pf, mf) = scalar_filter-Means e el in (negate f, rw pf (ground arith), ap not mf)
  scalar_filter-Means (paren_expr e) h =
      let (a, el, h') = >>=-eq-ok (scalar_filter lib e) _ h in
      let (f, pf, mf) = scalar_filter-Means e el in (group f, rw pf (ground arith), mf)
  scalar_filter-Means (comparison op l r escape) h = comparison_filter-Means op l r escape h
  scalar_filter-Means _ h = cc
