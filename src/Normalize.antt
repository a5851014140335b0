-- ===== src/Normalize.antt =====
-- `normalizeTypes` of pkg/bind.go: the type aliases of a CREATE TABLE, renamed for the parser.
pub mod Rewrites
use milvus_sql_proxy.Base.{
  ℕ, zero, suc, ◌+◌, Bool, true, false, ◌&&◌, ◌||◌, not, List, [], ◌∷◌, ◌++◌, Bytes, codes, length,
  equal, between, to_lower, to_upper, ◌==◌, if◌then◌else◌, Result, ok, err, ◌>>=◌,
}
use milvus_sql_proxy.Error.{Error, out_of_fuel}
use milvus_sql_proxy.Bind.{is_quote}
use milvus_sql_proxy.Select.Filter.{is_letter}
use milvus_sql_proxy.Wire.Tag.{is_space}

abbrev pub extend_span : Bytes → Bytes × Bytes → Bytes × Bytes
extend_span text (more, rest) = (text ++ more, rest)

-- Behind an opening quote: the text up to and with the closing one, or all of it, and the rest. A
-- quote behind a backslash and a doubled quote do not close.
unfoldable pub span_quoted : ℕ → Bytes → Bytes × Bytes
span_quoted quote [] = ([], [])
span_quoted quote (c ∷ []) = (c ∷ [], [])
span_quoted quote (c ∷ n ∷ s) =
    let pair = extend_span (c ∷ n ∷ []) (span_quoted quote s) in
    let plain = extend_span (c ∷ []) (span_quoted quote (n ∷ s)) in
    if c == b'\\'
    then pair
    else if c == quote
    then if n == quote then pair else (c ∷ [], n ∷ s)
    else plain

abbrev pub is_word_byte : ℕ → Bool
is_word_byte c = is_letter c || between b'0' b'9' c

unfoldable pub span_word : Bytes → Bytes × Bytes
span_word [] = ([], [])
span_word (c ∷ s) =
    let rest = span_word s in if is_word_byte c then (c ∷ rest.0, rest.1) else ([], c ∷ s)

-- The switch on a word.
unfoldable pub rename : Bytes → Bytes
unfolding equal
rename word =
    if equal (to_lower word) (codes "bool") || equal (to_lower word) (codes "boolean")
    then codes "tinyint(1)"
    else word

-- One round: what it writes, and what is left.
abbrev pub quoted_round : ℕ → Bytes × Bytes → Bytes × Bytes
quoted_round c (text, rest) = (c ∷ text, rest)

abbrev pub word_round : ℕ → Bytes × Bytes → Bytes × Bytes
word_round c (text, rest) = (rename (c ∷ text), rest)

unfoldable pub type_round : ℕ → Bytes → Bytes × Bytes
unfolding span_quoted span_word rename
type_round c s =
    if is_quote c
    then quoted_round c (span_quoted c s)
    else if is_letter c
    then word_round c (span_word s)
    else (c ∷ [], s)

unfoldable pub type_loop : ℕ → Bytes → Result Error Bytes
unfolding type_round
type_loop fuel [] = ok []
type_loop zero (c ∷ s) = err out_of_fuel
type_loop (suc fuel) (c ∷ s) =
    let (text, rest) = type_round c s in type_loop fuel rest >>= λ later. ok (text ++ later)

unfoldable pub trim_left : Bytes → Bytes
trim_left [] = []
trim_left (c ∷ s) = let rest = trim_left s in if is_space c then rest else c ∷ s

unfoldable pub has_prefix : Bytes → Bytes → Bool
has_prefix s [] = true
has_prefix [] (p ∷ ps) = false
has_prefix (c ∷ s) (p ∷ ps) = c == p && has_prefix s ps

-- The trailing space that `TrimSpace` cuts off as well makes no difference to the prefix.
unfoldable pub normalize_types : Bytes → Result Error Bytes
unfolding type_loop trim_left has_prefix
normalize_types q =
    if not (has_prefix (to_upper (trim_left q)) (codes "CREATE TABLE"))
    then ok q
    else type_loop (length q) q
