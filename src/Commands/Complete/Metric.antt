-- ===== src/Commands/Complete/Metric.antt =====
-- What each step of `index_params` does to the kind and to the metric.
use milvus_sql_proxy.Base.{
  not, false-true, Bool, true, false, not, ◌≡◌, refl, sym, ap, ◌∙◌, List, [], ◌∷◌, Bytes, codes,
  equal, equal_iff, is_some, if◌then◌else◌, ok, err, >>=-eq-ok, refuse-eq-ok, ok-injective, arith,
  Bool-cases, inl, inr, ◌⊎◌,
}
use milvus_sql_proxy.Error.{bad_metric_type}
use milvus_sql_proxy.Ast.{is_blank}
use milvus_sql_proxy.Postgres.Dictionary.{lookup, insert, lookup-insert, lookup-insert_self}
use milvus_sql_proxy.Commands.Options.{
  trim_space, trim_quotes, split_pair, pair_or_error, is_option, add_option, add_options, param,
  with_default, is_metric, with_metric,
}

pub param-insert :
    (k j v : Bytes) (ps : List (Bytes × Bytes))
    → equal k j ≡ false
    → param (insert k v ps) j ≡ param ps j
param-insert k j v ps h = rw (lookup-insert k j v ps, h) refl

pub param-with_default :
    (k j v : Bytes) (ps : List (Bytes × Bytes))
    → equal k j ≡ false
    → param (with_default k v ps) j ≡ param ps j
unfolding with_default
param-with_default k j v ps h = elim (Bool-cases (is_blank (param ps k))) [
  | inl e ↦ rw e (param-insert k j v ps h)
  | inr e ↦ rw e refl
]

pub with_default-set :
    (k v : Bytes) (ps : List (Bytes × Bytes))
    → is_blank v ≡ false
    → is_blank (param (with_default k v ps) k) ≡ false
unfolding with_default
with_default-set k v ps h = elim (Bool-cases (is_blank (param ps k))) [
  | inl e ↦ rw (e, lookup-insert_self k v ps) h
  | inr e ↦ rw e e
]

pub index_type-ne-option : is_option (codes "index_type") ≡ false
unfolding equal
index_type-ne-option = refl

pub option-ne-index_type :
    (key : Bytes) → is_option key ≡ true → equal key (codes "index_type") ≡ false
option-ne-index_type key h = elim (Bool-cases (equal key (codes "index_type"))) [
  | inl e ↦ absurd (
      false-true (
        sym index_type-ne-option
        ∙ (sym (ap is_option ((equal_iff key (codes "index_type")).0 e)) ∙ h)))
  | inr e ↦ e
]

pub add_option-index_type :
    (ps : List (Bytes × Bytes)) (part : Bytes) {next : List (Bytes × Bytes)}
    → add_option ps part ≡ ok next
    → param next (codes "index_type") ≡ param ps (codes "index_type")
unfolding add_option
add_option-index_type ps part h =
    let ((k, v), ek, h1) = >>=-eq-ok (pair_or_error (split_pair part)) _ h in
    let (known, h2) = refuse-eq-ok (not (is_option (trim_space k))) _ _ h1 in
    let (fresh, h3) = refuse-eq-ok (is_some (lookup (trim_space k) ps)) _ _ h2 in
    sym (ap (λ next. param next (codes "index_type")) (ok-injective h3))
    ∙ param-insert (trim_space k) (codes "index_type") (trim_quotes (trim_space v)) ps
        (option-ne-index_type (trim_space k) (ground arith))

pub add_options-index_type :
    (ps : List (Bytes × Bytes)) (parts : List Bytes) {next : List (Bytes × Bytes)}
    → add_options ps parts ≡ ok next
    → param next (codes "index_type") ≡ param ps (codes "index_type")
unfolding add_options
add_options-index_type ps [] h = sym (ap (λ next. param next (codes "index_type")) (ok-injective h))
add_options-index_type ps (part ∷ parts) h =
    let (mid, e, h1) = >>=-eq-ok (add_option ps part) _ h in
    add_options-index_type mid parts h1 ∙ add_option-index_type ps part e

pub metric_cases :
    (inverted good : Bool) (ps qs : List (Bytes × Bytes)) {full : List (Bytes × Bytes)}
    → (if inverted then ok ps else if good then ok qs else err bad_metric_type) ≡ ok full
    → ((inverted ≡ true) × (ps ≡ full)) ⊎ ((good ≡ true) × (qs ≡ full))
metric_cases true good ps qs h = inl (refl, ok-injective h)
metric_cases false true ps qs h = inr (refl, ok-injective h)
metric_cases false false ps qs h = cc

pub with_metric-IsMetric :
    (kind : Bytes) (ps : List (Bytes × Bytes)) {full : List (Bytes × Bytes)}
    → with_metric kind ps ≡ ok full
    → (param full (codes "index_type") ≡ param ps (codes "index_type"))
      × (equal kind (codes "INVERTED") ≡ false
          → is_metric (param full (codes "metric_type")) ≡ true)
unfolding with_metric
with_metric-IsMetric kind ps h =
    let qs = with_default (codes "metric_type") (codes "L2") ps in
    elim (metric_cases (equal kind (codes "INVERTED")) (is_metric (param qs (codes "metric_type")))
      ps qs h) [
        | inl (e, same) ↦ (rw same refl, λ n. absurd (false-true (sym n ∙ e)))
        | inr (e, same) ↦ (
          rw (← same) (
              param-with_default (codes "metric_type") (codes "index_type") (codes "L2") ps
                distinct),
          λ n. rw (← same) e,
        )
      ]
  where
    distinct : equal (codes "metric_type") (codes "index_type") ≡ false
    distinct = ground arith
