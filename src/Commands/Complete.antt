-- ===== src/Commands/Complete.antt =====
-- The parameters of CREATE INDEX are complete for the kind of the index.
pub mod Metric
use milvus_sql_proxy.Commands.Complete.Metric.{
  param-with_default, with_default-set, add_options-index_type, with_metric-IsMetric,
}
use milvus_sql_proxy.Base.{
  or-intro, not, ◌&&◌, ◌||◌, Bool, true, false, not, ◌≡◌, refl, ap, ◌∙◌, List, [], ◌∷◌, Bytes,
  codes, equal, ok, >>=-eq-ok, ok-injective, subst, equal-cases,
}
use milvus_sql_proxy.Ast.{is_blank}
use milvus_sql_proxy.Postgres.Dictionary.{lookup}
use milvus_sql_proxy.Commands.Options.{
  add_options, param, with_default, is_metric, with_metric, with_defaults, parts_of, index_params,
}

-- The kind of the index; its metric, unless it is an inverted one; and the sizes of its kind.
pub record IsComplete (kind : Bytes) (params : List (Bytes × Bytes)) : Type 0 where
  pub type : param params (codes "index_type") ≡ kind
  pub metric :
      (equal kind (codes "INVERTED") || is_metric (param params (codes "metric_type"))) ≡ true
  pub hnsw :
      (not (equal kind (codes "HNSW"))
        || (not (is_blank (param params (codes "M")))
            && not (is_blank (param params (codes "efConstruction")))))
      ≡ true
  pub ivf_flat :
      (not (equal kind (codes "IVF_FLAT")) || not (is_blank (param params (codes "nlist")))) ≡ true

-- The kind and the metric of parameters that have them both.
record IsMeasured (kind : Bytes) (ps : List (Bytes × Bytes)) : Type 0 where
  type : param ps (codes "index_type") ≡ kind
  metric : equal kind (codes "INVERTED") ≡ false → is_metric (param ps (codes "metric_type")) ≡ true

with_default-IsMeasured :
    (kind k v : Bytes) (ps : List (Bytes × Bytes))
    → equal k (codes "index_type") ≡ false
    → equal k (codes "metric_type") ≡ false
    → IsMeasured kind ps
    → IsMeasured kind (with_default k v ps)
with_default-IsMeasured kind k v ps no_type no_metric m = record {
  type = param-with_default k (codes "index_type") v ps no_type ∙ m.type;
  metric =
      λ n. ap is_metric (param-with_default k (codes "metric_type") v ps no_metric) ∙ m.metric n;
}

both_filled : (a b : Bool) → a ≡ false → b ≡ false → (not a && not b) ≡ true
both_filled false false h k = refl
both_filled true b h k = cc
both_filled false true h k = cc

hnsw-IsComplete :
    (ps : List (Bytes × Bytes))
    → IsMeasured (codes "HNSW") ps
    → IsComplete (codes "HNSW") (with_defaults (codes "HNSW") ps)
unfolding with_defaults equal
hnsw-IsComplete ps m =
    let sized = with_default (codes "M") (codes "16") ps in
    let measured =
      with_default-IsMeasured _ (codes "efConstruction") (codes "200") sized refl refl
        (with_default-IsMeasured _ (codes "M") (codes "16") ps refl refl m) in
    record {
      type = measured.type;
      metric = or-intro _ _ measured.metric;
      hnsw =
          both_filled _ _
            (ap is_blank
                (param-with_default (codes "efConstruction") (codes "M") (codes "200") sized refl)
              ∙ with_default-set (codes "M") (codes "16") ps refl)
            (with_default-set (codes "efConstruction") (codes "200") sized refl);
      ivf_flat = refl;
    }

ivf_flat-IsComplete :
    (ps : List (Bytes × Bytes))
    → IsMeasured (codes "IVF_FLAT") ps
    → IsComplete (codes "IVF_FLAT") (with_defaults (codes "IVF_FLAT") ps)
unfolding with_defaults equal
ivf_flat-IsComplete ps m =
    let measured = with_default-IsMeasured _ (codes "nlist") (codes "128") ps refl refl m in
    record {
      type = measured.type;
      metric = or-intro _ _ measured.metric;
      hnsw = refl;
      ivf_flat = ap not (with_default-set (codes "nlist") (codes "128") ps refl);
    }

other-IsComplete :
    (kind : Bytes) (ps : List (Bytes × Bytes))
    → equal kind (codes "HNSW") ≡ false
    → equal kind (codes "IVF_FLAT") ≡ false
    → IsMeasured kind ps
    → IsComplete kind (with_defaults kind ps)
unfolding with_defaults
other-IsComplete kind ps not_hnsw not_ivf m =
    subst (IsComplete kind) {x = ps} (rw (not_hnsw, not_ivf) refl) (record {
      type = m.type;
      metric = or-intro _ _ m.metric;
      hnsw = rw not_hnsw refl;
      ivf_flat = rw not_ivf refl;
    })

with_defaults-IsComplete :
    (kind : Bytes) (ps : List (Bytes × Bytes))
    → IsMeasured kind ps
    → IsComplete kind (with_defaults kind ps)
with_defaults-IsComplete kind ps =
    equal-cases (λ k. IsMeasured k ps → IsComplete k (with_defaults k ps)) kind (codes "HNSW")
      (hnsw-IsComplete ps)
      (λ not_hnsw.
        equal-cases
          (λ k.
            equal k (codes "HNSW") ≡ false → IsMeasured k ps → IsComplete k (with_defaults k ps))
          kind (codes "IVF_FLAT") (λ e. ivf_flat-IsComplete ps)
          (λ not_ivf e. other-IsComplete kind ps e not_ivf) not_hnsw)

-- The parameters that CREATE INDEX takes from its options name the kind of the index; unless it is
-- INVERTED, they name one of the metrics L2, IP and COSINE; and those of HNSW and IVF_FLAT have the
-- sizes that the kind wants.
pub index_params-IsComplete :
    (kind options : Bytes) (params : List (Bytes × Bytes))
    → index_params kind options ≡ ok params
    → IsComplete kind params
unfolding index_params lookup equal
index_params-IsComplete kind options params h =
    let start : List (Bytes × Bytes) = (codes "index_type", kind) ∷ [] in
    let (given, eg, h1) = >>=-eq-ok (add_options start (parts_of options)) _ h in
    let (full, em, h2) = >>=-eq-ok (with_metric kind given) _ h1 in
    let (same, metric) = with_metric-IsMetric kind given em in
    subst (IsComplete kind) (ok-injective h2) (
      with_defaults-IsComplete kind full (record {
        type = same ∙ add_options-index_type start (parts_of options) eg;
        metric = metric;
      }))
