-- ===== src/Commands/Options.antt =====
-- The options of CREATE INDEX in pkg/commands.go, and `buildIndex`.
use milvus_sql_proxy.Base.{
  ℕ, Bool, not, ◌&&◌, ◌||◌, List, [], ◌∷◌, Bytes, codes, equal, is_empty, is_some, ◌==◌, Option,
  none, some, if◌then◌else◌, Result, ok, err, ◌>>=◌, ◌>>◌, refuse,
}
use milvus_sql_proxy.Error.{
  Error, bad_index_option, unsupported_index_option, duplicate_index_option, bad_metric_type,
  invalid_index_option, unsupported_index_kind,
}
use milvus_sql_proxy.Decimal.{atoi, parse_int}
use milvus_sql_proxy.Ast.{is_blank}
use milvus_sql_proxy.Wire.Tag.{is_space}
use milvus_sql_proxy.Postgres.Dictionary.{lookup, insert}
use milvus_sql_proxy.Insert.Values.{text_or_blank, or_bad_number}
use milvus_sql_proxy.Milvus.{IndexKinds}

-- `strings.Trim`, of the bytes that pass a test.
unfoldable pub trim_start : (ℕ → Bool) → Bytes → Bytes
trim_start test [] = []
trim_start test (c ∷ s) = let rest = trim_start test s in if test c then rest else c ∷ s

unfoldable pub trim_end : (ℕ → Bool) → Bytes → Bytes
trim_end test [] = []
trim_end test (c ∷ s) =
    let rest = trim_end test s in if is_empty rest && test c then [] else c ∷ rest

-- `strings.TrimSpace`
unfoldable pub trim_space : Bytes → Bytes
unfolding trim_start trim_end
trim_space s = trim_end is_space (trim_start is_space s)

abbrev is_quote_mark : ℕ → Bool
is_quote_mark c = c == b'\'' || c == b'"'

unfoldable pub trim_quotes : Bytes → Bytes
unfolding trim_start trim_end
trim_quotes s = trim_end is_quote_mark (trim_start is_quote_mark s)

-- A byte before the first of the parts.
abbrev pub onto_first : ℕ → List Bytes → List Bytes
onto_first c [] = (c ∷ []) ∷ []
onto_first c (part ∷ parts) = (c ∷ part) ∷ parts

-- `strings.Split(s, ",")`
unfoldable pub split_commas : Bytes → List Bytes
split_commas [] = [] ∷ []
split_commas (c ∷ s) =
    let rest = split_commas s in if c == b',' then [] ∷ rest else onto_first c rest

abbrev pub onto_key : ℕ → Option (Bytes × Bytes) → Option (Bytes × Bytes)
onto_key c none = none
onto_key c (some (key, value)) = some (c ∷ key, value)

-- `strings.SplitN(part, "=", 2)`, if it has two parts.
unfoldable pub split_pair : Bytes → Option (Bytes × Bytes)
split_pair [] = none
split_pair (c ∷ s) = let rest = split_pair s in if c == b'=' then some ([], s) else onto_key c rest

abbrev pub pair_or_error : Option (Bytes × Bytes) → Result Error (Bytes × Bytes)
pair_or_error none = err bad_index_option
pair_or_error (some kv) = ok kv

abbrev pub is_option : Bytes → Bool
is_option key =
    equal key (codes "metric_type")
    || equal key (codes "M")
    || equal key (codes "efConstruction")
    || equal key (codes "nlist")

-- One option.
unfoldable pub add_option : List (Bytes × Bytes) → Bytes → Result Error (List (Bytes × Bytes))
unfolding split_pair trim_space trim_quotes lookup insert equal
add_option params part = do
  kv ← pair_or_error (split_pair part)
  let key = trim_space kv.0
  refuse (not (is_option key)) (unsupported_index_option key)
  refuse (is_some (lookup key params)) duplicate_index_option
  ok (insert key (trim_quotes (trim_space kv.1)) params)

unfoldable pub add_options : List (Bytes × Bytes) → List Bytes → Result Error (List (Bytes × Bytes))
unfolding add_option
add_options params [] = ok params
add_options params (part ∷ parts) = do next ← add_option params part; add_options next parts

-- `params[key]`, the empty text if it is missing.
abbrev pub param : List (Bytes × Bytes) → Bytes → Bytes
param params key = text_or_blank (lookup key params)

-- `if params[key] == "" { params[key] = value }`
unfoldable pub with_default : Bytes → Bytes → List (Bytes × Bytes) → List (Bytes × Bytes)
unfolding lookup insert
with_default key value params =
    if is_blank (param params key) then insert key value params else params

abbrev pub is_metric : Bytes → Bool
is_metric s = equal s (codes "L2") || equal s (codes "IP") || equal s (codes "COSINE")

unfoldable pub with_metric : Bytes → List (Bytes × Bytes) → Result Error (List (Bytes × Bytes))
unfolding with_default lookup equal
with_metric kind params =
    if equal kind (codes "INVERTED")
    then ok params
    else let full = with_default (codes "metric_type") (codes "L2") params in
      if is_metric (param full (codes "metric_type")) then ok full else err bad_metric_type

-- The defaults of an index kind.
unfoldable pub with_defaults : Bytes → List (Bytes × Bytes) → List (Bytes × Bytes)
unfolding with_default equal
with_defaults kind params =
    if equal kind (codes "HNSW")
    then with_default (codes "efConstruction") (codes "200")
        (with_default (codes "M") (codes "16") params)
    else if equal kind (codes "IVF_FLAT")
    then with_default (codes "nlist") (codes "128") params
    else params

abbrev pub parts_of : Bytes → List Bytes
parts_of options = if is_blank options then [] else split_commas options

-- The parameters of an index of a kind, in upper case, from the text of its options.
unfoldable pub index_params : Bytes → Bytes → Result Error (List (Bytes × Bytes))
unfolding add_options split_commas with_metric with_defaults
index_params kind options = do
  given ← add_options ((codes "index_type", kind) ∷ []) (parts_of options)
  full ← with_metric kind given
  ok (with_defaults kind full)

-- `allowed` of `buildIndex`.
unfoldable pub is_allowed : Bytes → Bytes → Bool
unfolding equal
is_allowed kind key =
    equal key (codes "index_type")
    || (equal key (codes "metric_type") && not (equal kind (codes "INVERTED")))
    || (equal kind (codes "HNSW") && (equal key (codes "M") || equal key (codes "efConstruction")))
    || (equal kind (codes "IVF_FLAT") && equal key (codes "nlist"))

-- The first parameter that is not allowed; the code names any of them.
unfoldable pub check_params : Bytes → List (Bytes × Bytes) → Result Error (Unit {0})
unfolding is_allowed
check_params kind [] = ok tt
check_params kind ((key, value) ∷ params) = do
  refuse (not (is_allowed kind key)) (invalid_index_option key kind)
  check_params kind params

abbrev pub inverted_params : List (Bytes × Bytes)
inverted_params = (codes "index_type", codes "INVERTED") ∷ (codes "params", codes "{}") ∷ []

-- The switch on the kind of an index.
unfoldable pub new_index :
    IndexKinds → Bytes → List (Bytes × Bytes) → Result Error (List (Bytes × Bytes))
unfolding lookup parse_int equal
new_index kinds kind params =
    let metric = param params (codes "metric_type") in
    if equal kind (codes "FLAT")
    then kinds.flat metric
    else if equal kind (codes "HNSW")
    then (or_bad_number (atoi (param params (codes "M"))) >>= λ m.
        or_bad_number (atoi (param params (codes "efConstruction"))) >>= λ ef.
        kinds.hnsw metric m ef)
    else if equal kind (codes "IVF_FLAT")
    then (or_bad_number (atoi (param params (codes "nlist"))) >>= λ n. kinds.ivf_flat metric n)
    else if equal kind (codes "AUTOINDEX")
    then kinds.autoindex metric
    else if equal kind (codes "INVERTED")
    then ok inverted_params
    else err (unsupported_index_kind kind)

-- `buildIndex`: the parameters of the index.
unfoldable pub build_index : IndexKinds → List (Bytes × Bytes) → Result Error (List (Bytes × Bytes))
unfolding check_params new_index lookup
build_index kinds params = do
  check_params (param params (codes "index_type")) params
  new_index kinds (param params (codes "index_type")) params
