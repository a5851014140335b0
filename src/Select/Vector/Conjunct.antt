-- ===== src/Select/Vector/Conjunct.antt =====
-- Taking the vector predicate out of a condition keeps its meaning.
use milvus_sql_proxy.Base.{
  Bool, true, false, not, ◌&&◌, ◌≡◌, refl, [], ◌∷◌, Bytes, codes, equal, Option, none, some, ok,
  >>=-eq-ok, arith, Bool-cases, inl, inr, equal_iff, is_some, &&-true, subst, ok-injective,
}
use milvus_sql_proxy.Ast.{Expr, and_expr, paren_expr, comparison, col_name, is_blank}
use milvus_sql_proxy.Select.Filter.Meaning.{holds}
use milvus_sql_proxy.Select.Vector.{
  Extracted, is_json_vector, vector_predicate, in_parentheses, conjoin, merge, unchanged,
  extract_vector,
}

-- Each column that a comparison starts with has a name, as the grammar has it.
abbrev pub HasName : Expr → Type 0
HasName (col_name qualifier name) = is_blank name ≡ false
HasName _ = Unit

abbrev pub IsNamed : Expr → Type 0
IsNamed (and_expr l r) = IsNamed l × IsNamed r
IsNamed (paren_expr e) = IsNamed e
IsNamed (comparison op l r escape) = HasName l
IsNamed _ = Unit

-- What is left of a condition holds, and so does its vector predicate, if there is one.
abbrev pub holds_left : (Expr → Bool) → Option Expr → Bool
holds_left atom none = true
holds_left atom (some e) = holds atom e

abbrev pub holds_vector : (Expr → Bool) → Bytes → Option Expr → Bool
holds_vector atom field none = true
holds_vector atom field (some v) = atom (comparison (codes "like") (col_name [] field) v false)

-- A field comes with its vector, and only so.
abbrev pub Paired : Extracted → Type 0
Paired x = is_blank x.field ≡ not (is_some x.vector)

module _ (atom : Expr → Bool) where
  -- The condition that a result stands for.
  abbrev Splits : Bool → Extracted → Type 0
  Splits b x = b ≡ (holds_left atom x.left && holds_vector atom x.field x.vector)

  conjoin-holds :
      (l r : Option Expr) → holds_left atom (conjoin l r) ≡ (holds_left atom l && holds_left atom r)
  unfolding holds
  conjoin-holds none r = refl
  conjoin-holds (some l) none = ground arith
  conjoin-holds (some l) (some r) = refl

  merge-Splits :
      (a b : Bool) (x y : Extracted) {z : Extracted}
      → merge x y ≡ ok z
      → Splits a x × Paired x
      → Splits b y × Paired y
      → Splits (a && b) z × Paired z
  unfolding merge
  merge-Splits a b x y h (sx, px) (sy, py) = ground (arith, conjoin-holds x.left y.left)

  predicate-Splits :
      (l r : Expr) (escape : Bool) {z : Extracted}
      → HasName l
      → vector_predicate l r escape ≡ ok z
      → Splits (atom (comparison (codes "like") l r escape)) z × Paired z
  unfolding vector_predicate
  predicate-Splits (col_name [] name) r false n h = ground arith
  predicate-Splits (col_name [] name) r true n h = cc
  predicate-Splits (col_name (c ∷ q) name) r escape n h = cc
  predicate-Splits _ r escape n h = cc

  paren-Splits :
      (b : Bool) (x : Extracted)
      → Splits b x × Paired x
      → Splits b (in_parentheses x) × Paired (in_parentheses x)
  unfolding holds
  paren-Splits b x (s, p) = ground arith

  unchanged-Splits : (e : Expr) → Splits (holds atom e) (unchanged e) × Paired (unchanged e)
  unchanged-Splits e = ground arith

  pub extract_vector-Splits :
      (e : Expr) {x : Extracted}
      → IsNamed e
      → extract_vector e ≡ ok x
      → Splits (holds atom e) x × Paired x
  unfolding extract_vector holds
  extract_vector-Splits (paren_expr e) n h =
      let (x, ex, h') = >>=-eq-ok (extract_vector e) _ h in
      subst (λ z. Splits (holds atom e) z × Paired z) (ok-injective h')
        (paren-Splits (holds atom e) x (extract_vector-Splits e n ex))
  extract_vector-Splits (and_expr l r) n h =
      let (x, ex, h') = >>=-eq-ok (extract_vector l) _ h in
      let (y, ey, h'') = >>=-eq-ok (extract_vector r) _ h' in
      merge-Splits (holds atom l) (holds atom r) x y h'' (extract_vector-Splits l n.0 ex)
        (extract_vector-Splits r n.1 ey)
  extract_vector-Splits (comparison op l r escape) n h =
      elim (Bool-cases (equal op (codes "like") && is_json_vector r)) [
        | inl v ↦
            let like = (equal_iff op (codes "like")).0 (&&-true _ _ v).0 in
            rw like (predicate-Splits l r escape n (rw v at h))
        | inr v ↦
            subst (λ z. Splits (atom (comparison op l r escape)) z × Paired z)
              (ok-injective (rw v at h)) (unchanged-Splits (comparison op l r escape))
      ]
  extract_vector-Splits e n h =
      subst (λ z. Splits (holds atom e) z × Paired z) (ok-injective h) (unchanged-Splits e)

  -- A condition holds where what `extractVector` leaves of it holds together with the vector
  -- predicate that it takes out: nothing is lost, doubled, or moved out of an OR or a NOT. Every
  -- column of a comparison that stands in no OR and no NOT has a name.
  pub extract_vector-holds :
      (e : Expr) {x : Extracted}
      → IsNamed e
      → extract_vector e ≡ ok x
      → holds atom e ≡ (holds_left atom x.left && holds_vector atom x.field x.vector)
  extract_vector-holds e n h = (extract_vector-Splits e n h).0
