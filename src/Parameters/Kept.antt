-- ===== src/Parameters/Kept.antt =====
-- What the types of the parameters keep to.
use milvus_sql_proxy.Base.{
  ℕ, zero, suc, Bool, true, false, ◌==◌, ◌≡◌, ◌≢◌, refl, sym, ◌∙◌, List, [], ◌∷◌, Bytes, get_elem?,
  set, Option, none, some, if◌then◌else◌, ℤ, pos, negsuc, Result, ok, err, ok-injective, All, ◌⊎◌,
  inl, inr, subst, arith,
}
use milvus_sql_proxy.Base.Exec.Ensures.{Ensures, continue-eq-ok}
use milvus_sql_proxy.Error.{Error}
use milvus_sql_proxy.Ast.{
  Expr, col_name, sql_val, val_tuple, Exprs, nil, cons, InsertRows, values, other_rows,
}
use milvus_sql_proxy.Insert.Values.{FieldSchema}
use milvus_sql_proxy.Query.Statements.{Statement, insert_stmt}
use milvus_sql_proxy.Query.{Backends}
use milvus_sql_proxy.Parameters.{
  Visited, seen_comparison, seen_limit, Syntax, placeholder_number, is_unset, set_number, set_type,
  set_types, set_tuple, set_left, set_right, set_offset, visit, visit_all, visit_row, visit_rows,
  visit_values, visit_insert, default_types, statement_types, parsed_types, parameter_oids,
}

-- The second list has a type for each of the first, the same one if that is set.
pub data KeepsTypes : List ℕ → List ℕ → Type 0 where
  no_types : KeepsTypes [] []
  a_type :
      {o r : ℕ} {os rs : List ℕ}
      → (o ≡ 0) ⊎ (r ≡ o)
      → KeepsTypes os rs
      → KeepsTypes (o ∷ os) (r ∷ rs)

KeepsTypes-refl : (os : List ℕ) → KeepsTypes os os
KeepsTypes-refl [] = no_types
KeepsTypes-refl (o ∷ os) = a_type (inr refl) (KeepsTypes-refl os)

type_trans : {o p r : ℕ} → (o ≡ 0) ⊎ (p ≡ o) → (p ≡ 0) ⊎ (r ≡ p) → (o ≡ 0) ⊎ (r ≡ o)
type_trans (inl e) k = inl e
type_trans (inr e) (inl f) = inl (sym e ∙ f)
type_trans (inr e) (inr f) = inr (f ∙ e)

KeepsTypes-trans : {os ps rs : List ℕ} → KeepsTypes os ps → KeepsTypes ps rs → KeepsTypes os rs
KeepsTypes-trans no_types no_types = no_types
KeepsTypes-trans (a_type h k) (a_type h' k') = a_type (type_trans h h') (KeepsTypes-trans k k')

suc_unset : (o : ℕ) → (suc o == 0) ≡ false
suc_unset o = ground arith

set-KeepsTypes :
    (i oid : ℕ) (os : List ℕ)
    → KeepsTypes os (if is_unset (get_elem? os i) then set os i oid else os)
set-KeepsTypes i oid [] = no_types
set-KeepsTypes zero oid (zero ∷ os) = a_type (inl refl) (KeepsTypes-refl os)
set-KeepsTypes zero oid (suc o ∷ os) = rw (suc_unset o) (KeepsTypes-refl (suc o ∷ os))
set-KeepsTypes (suc i) oid (o ∷ os) = later (is_unset (get_elem? os i)) (set-KeepsTypes i oid os)
  where
    later :
        (unset : Bool)
        → KeepsTypes os (if unset then set os i oid else os)
        → KeepsTypes (o ∷ os) (if unset then o ∷ set os i oid else o ∷ os)
    later true k = a_type (inr refl) k
    later false k = a_type (inr refl) k

set_number-KeepsTypes : (n : Option ℤ) (oid : ℕ) (os : List ℕ) → KeepsTypes os (set_number n oid os)
set_number-KeepsTypes none oid os = KeepsTypes-refl os
set_number-KeepsTypes (some (pos zero)) oid os = KeepsTypes-refl os
set_number-KeepsTypes (some (pos (suc i))) oid os = set-KeepsTypes i oid os
set_number-KeepsTypes (some (negsuc i)) oid os = KeepsTypes-refl os

set_type-KeepsTypes : (e : Expr) (oid : ℕ) (os : List ℕ) → KeepsTypes os (set_type e oid os)
unfolding set_type
set_type-KeepsTypes (sql_val kind text) oid os =
    set_number-KeepsTypes (placeholder_number text) oid os
set_type-KeepsTypes _ oid os = KeepsTypes-refl os

set_types-KeepsTypes : (es : Exprs) (oid : ℕ) (os : List ℕ) → KeepsTypes os (set_types es oid os)
unfolding set_types
set_types-KeepsTypes nil oid os = KeepsTypes-refl os
set_types-KeepsTypes (cons e es) oid os =
    KeepsTypes-trans (set_type-KeepsTypes e oid os)
      (set_types-KeepsTypes es oid (set_type e oid os))

set_tuple-KeepsTypes : (e : Expr) (oid : ℕ) (os : List ℕ) → KeepsTypes os (set_tuple e oid os)
set_tuple-KeepsTypes (val_tuple es) oid os = set_types-KeepsTypes es oid os
set_tuple-KeepsTypes _ oid os = KeepsTypes-refl os

module _ (fields : List (Bytes × FieldSchema)) where
  set_right-KeepsTypes :
      (left right : Expr) (os : List ℕ) → KeepsTypes os (set_right fields left right os)
  set_right-KeepsTypes (col_name qualifier name) right os =
      KeepsTypes-trans (set_type-KeepsTypes right _ os) (set_tuple-KeepsTypes right _ _)
  set_right-KeepsTypes _ right os = KeepsTypes-refl os

  set_left-KeepsTypes :
      (left right : Expr) (os : List ℕ) → KeepsTypes os (set_left fields left right os)
  set_left-KeepsTypes left (col_name qualifier name) os = set_type-KeepsTypes left _ os
  set_left-KeepsTypes left _ os = KeepsTypes-refl os

  set_offset-KeepsTypes :
      (offset : Option Expr) (os : List ℕ) → KeepsTypes os (set_offset fields offset os)
  set_offset-KeepsTypes none os = KeepsTypes-refl os
  set_offset-KeepsTypes (some e) os = set_type-KeepsTypes e 20 os

  visit-KeepsTypes : (v : Visited) (os : List ℕ) → KeepsTypes os (visit fields v os)
  unfolding visit
  visit-KeepsTypes (seen_comparison left right) os =
      KeepsTypes-trans (set_right-KeepsTypes left right os) (set_left-KeepsTypes left right _)
  visit-KeepsTypes (seen_limit l) os =
      KeepsTypes-trans (set_type-KeepsTypes l.rowcount 20 os) (set_offset-KeepsTypes l.offset _)

  visit_all-KeepsTypes : (vs : List Visited) (os : List ℕ) → KeepsTypes os (visit_all fields vs os)
  unfolding visit_all
  visit_all-KeepsTypes [] os = KeepsTypes-refl os
  visit_all-KeepsTypes (v ∷ vs) os =
      KeepsTypes-trans (visit-KeepsTypes v os) (visit_all-KeepsTypes vs (visit fields v os))

  visit_row-KeepsTypes :
      (names : List Bytes) (row : List Expr) (os : List ℕ)
      → KeepsTypes os (visit_row fields names row os)
  unfolding visit_row
  visit_row-KeepsTypes [] row os = KeepsTypes-refl os
  visit_row-KeepsTypes (n ∷ ns) [] os = KeepsTypes-refl os
  visit_row-KeepsTypes (n ∷ ns) (e ∷ es) os =
      KeepsTypes-trans (set_type-KeepsTypes e _ os) (visit_row-KeepsTypes ns es _)

  visit_rows-KeepsTypes :
      (names : List Bytes) (rows : List (List Expr)) (os : List ℕ)
      → KeepsTypes os (visit_rows fields names rows os)
  unfolding visit_rows
  visit_rows-KeepsTypes names [] os = KeepsTypes-refl os
  visit_rows-KeepsTypes names (row ∷ rows) os =
      KeepsTypes-trans (visit_row-KeepsTypes names row os) (visit_rows-KeepsTypes names rows _)

  visit_values-KeepsTypes :
      (names : List Bytes) (rows : InsertRows) (os : List ℕ)
      → KeepsTypes os (visit_values fields names rows os)
  visit_values-KeepsTypes names (values rows) os = visit_rows-KeepsTypes names rows os
  visit_values-KeepsTypes names other_rows os = KeepsTypes-refl os

  visit_insert-KeepsTypes :
      (s : Statement) (schema : Option (List FieldSchema)) (os : List ℕ)
      → KeepsTypes os (visit_insert fields s schema os)
  visit_insert-KeepsTypes (insert_stmt s) (some schema) os = visit_values-KeepsTypes _ s.rows os
  visit_insert-KeepsTypes (insert_stmt s) none os = KeepsTypes-refl os
  visit_insert-KeepsTypes _ schema os = KeepsTypes-refl os

default_types-KeepsTypes : (os : List ℕ) → KeepsTypes os (default_types os)
default_types-KeepsTypes [] = no_types
default_types-KeepsTypes (zero ∷ os) = a_type (inl refl) (default_types-KeepsTypes os)
default_types-KeepsTypes (suc o ∷ os) = a_type (inr refl) (default_types-KeepsTypes os)

default_types-AreSet : (os : List ℕ) → All (λ r. r ≢ 0) (default_types os)
default_types-AreSet [] = tt
default_types-AreSet (zero ∷ os) = ((λ e. omega arith), default_types-AreSet os)
default_types-AreSet (suc o ∷ os) = ((λ e. omega arith), default_types-AreSet os)

-- Types that keep those given, and leave none unknown.
abbrev pub AreTypes : List ℕ → List ℕ → Type 0
AreTypes os rs = KeepsTypes os rs × All (λ r. r ≢ 0) rs

default_types-AreTypes :
    {os : List ℕ} (ps : List ℕ) → KeepsTypes os ps → AreTypes os (default_types ps)
default_types-AreTypes ps k =
    (KeepsTypes-trans k (default_types-KeepsTypes ps), default_types-AreSet ps)

statement_types-AreTypes :
    (syntax : Syntax) (s : Statement) (schema : Option (List FieldSchema)) (os : List ℕ)
    → AreTypes os (statement_types syntax s schema os)
unfolding statement_types
statement_types-AreTypes syntax s schema os = default_types-AreTypes _ (
    KeepsTypes-trans (visit_all-KeepsTypes _ (syntax.walk s) os)
      (visit_insert-KeepsTypes _ s schema _))

module _ {W C : Type 0} (b : Backends W C) (syntax : Syntax) where
  parsed_types-AreTypes :
      (os : List ℕ) (parsed : Result Error Statement)
      → Ensures (AreTypes os) (parsed_types b syntax os parsed)
  parsed_types-AreTypes os (err e) w rs h =
      subst (AreTypes os) (ok-injective h) (default_types-AreTypes os (KeepsTypes-refl os))
  parsed_types-AreTypes os (ok s) w rs h =
      let (schema, _, _, h1) = continue-eq-ok _ _ h in
      subst (AreTypes os) (ok-injective h1) (statement_types-AreTypes syntax s schema os)

  -- The types that are found for the parameters of a statement are as many as those that the
  -- client gave: a type that the client gave is kept, and each that it left open is filled in.
  pub parameter_oids-AreTypes :
      (q : Bytes) (oids rs : List ℕ) (w : W)
      → (parameter_oids b syntax q oids w).0 ≡ ok rs
      → AreTypes oids rs
  unfolding parameter_oids
  parameter_oids-AreTypes q [] rs w h = subst (AreTypes []) (ok-injective h) (no_types, tt)
  parameter_oids-AreTypes q (o ∷ os) rs w h =
      let (bound, _, _, h1) = continue-eq-ok _ _ h in parsed_types-AreTypes (o ∷ os) _ _ rs h1
