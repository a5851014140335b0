-- ===== src/Postgres/Dictionary.antt =====
-- The maps from names to statements and to portals, as association lists.
use milvus_sql_proxy.Base.{
  ℕ, suc, ◌≤◌, ◌≡◌, refl, List, [], ◌∷◌, Bytes, equal, equal_iff, equal_self, length, Option, none,
  some, if◌then◌else◌, arith,
}

module _ {V : Type 0} where
  unfoldable pub lookup : Bytes → List (Bytes × V) → Option V
  lookup k [] = none
  lookup k ((j, v) ∷ m) = if equal j k then some v else lookup k m

  -- `m[k] = v`
  unfoldable pub insert : Bytes → V → List (Bytes × V) → List (Bytes × V)
  insert k v [] = (k, v) ∷ []
  insert k v ((j, w) ∷ m) = if equal j k then (k, v) ∷ m else (j, w) ∷ insert k v m

  -- `delete(m, k)`
  unfoldable pub remove : Bytes → List (Bytes × V) → List (Bytes × V)
  remove k [] = []
  remove k ((j, w) ∷ m) = if equal j k then remove k m else (j, w) ∷ remove k m

  pub lookup-insert :
      (k j : Bytes) (v : V) (m : List (Bytes × V))
      → lookup j (insert k v m) ≡ (if equal k j then some v else lookup j m)
  unfolding lookup insert
  lookup-insert k j v [] = refl
  lookup-insert k j v ((i, w) ∷ m) =
      ground (arith, equal_iff k j, equal_iff i k, equal_iff i j, lookup-insert k j v m)

  pub lookup-insert_self :
      (k : Bytes) (v : V) (m : List (Bytes × V)) → lookup k (insert k v m) ≡ some v
  lookup-insert_self k v m = rw (lookup-insert k k v m, equal_self k)

  pub lookup-remove :
      (k j : Bytes) (m : List (Bytes × V))
      → lookup j (remove k m) ≡ (if equal k j then none else lookup j m)
  unfolding lookup remove
  lookup-remove k j [] = ground arith
  lookup-remove k j ((i, w) ∷ m) =
      ground (arith, equal_iff k j, equal_iff i k, equal_iff i j, lookup-remove k j m)

  -- The number of names that are not the empty one.
  unfoldable pub named : List (Bytes × V) → ℕ
  named [] = 0
  named (([], v) ∷ m) = named m
  named ((c ∷ k, v) ∷ m) = suc (named m)

  pub named-le-length : (m : List (Bytes × V)) → named m ≤ length m
  unfolding named
  named-le-length [] = omega arith
  named-le-length (([], v) ∷ m) = omega (arith, named-le-length m)
  named-le-length ((c ∷ k, v) ∷ m) = omega (arith, named-le-length m)

  pub named-insert_nil : (v : V) (m : List (Bytes × V)) → named (insert [] v m) ≡ named m
  unfolding named insert equal
  named-insert_nil v [] = refl
  named-insert_nil v (([], w) ∷ m) = refl
  named-insert_nil v ((c ∷ k, w) ∷ m) = ground (arith, named-insert_nil v m)

  pub named-insert-le :
      (k : Bytes) (v : V) (m : List (Bytes × V)) → named (insert k v m) ≤ suc (named m)
  unfolding named insert equal
  named-insert-le [] v [] = omega arith
  named-insert-le (d ∷ j) v [] = omega arith
  named-insert-le [] v (([], w) ∷ m) = ground (arith, named-insert-le [] v m)
  named-insert-le [] v ((c ∷ i, w) ∷ m) = ground (arith, named-insert-le [] v m)
  named-insert-le (d ∷ j) v (([], w) ∷ m) = ground (arith, named-insert-le (d ∷ j) v m)
  named-insert-le (d ∷ j) v ((c ∷ i, w) ∷ m) = ground (arith, named-insert-le (d ∷ j) v m)

  pub named-remove-le : (k : Bytes) (m : List (Bytes × V)) → named (remove k m) ≤ named m
  unfolding named remove equal
  named-remove-le k [] = omega arith
  named-remove-le [] (([], w) ∷ m) = ground (arith, named-remove-le [] m)
  named-remove-le [] ((c ∷ i, w) ∷ m) = ground (arith, named-remove-le [] m)
  named-remove-le (d ∷ j) (([], w) ∷ m) = ground (arith, named-remove-le (d ∷ j) m)
  named-remove-le (d ∷ j) ((c ∷ i, w) ∷ m) = ground (arith, named-remove-le (d ∷ j) m)

  -- An update of a name that is there adds none.
  pub named-insert_update :
      (k : Bytes) (v w : V) (m : List (Bytes × V))
      → lookup k m ≡ some w
      → named (insert k v m) ≡ named m
  unfolding named insert lookup equal
  named-insert_update k v w [] h = cc
  named-insert_update [] v w (([], u) ∷ m) h = refl
  named-insert_update [] v w ((c ∷ i, u) ∷ m) h = ground (arith, named-insert_update [] v w m h)
  named-insert_update (d ∷ j) v w (([], u) ∷ m) h = named-insert_update (d ∷ j) v w m h
  named-insert_update (d ∷ j) v w ((c ∷ i, u) ∷ m) h =
      ground (arith, named-insert_update (d ∷ j) v w m)
