-- ===== src/Normalize/Rewrites.antt =====
-- What `normalizeTypes` changes, and what it does not.
use milvus_sql_proxy.Base.{
  ℕ, zero, suc, ◌≤◌, Bool, true, false, ◌≡◌, refl, ap, subst, ◌∙◌, [], ◌∷◌, ◌++◌, Bytes, codes,
  length, length-append, to_upper, to_lower, equal, equal_iff, ◌==◌, ◌≢◌, ◌||◌, false-true, sym,
  if◌then◌else◌, ok, All, arith, Bool-cases, inl, inr, ◌⊎◌,
}
use milvus_sql_proxy.Bind.{is_quote}
use milvus_sql_proxy.Select.Filter.{is_letter}
use milvus_sql_proxy.Normalize.{
  extend_span, span_quoted, is_word_byte, span_word, rename, quoted_round, word_round, type_round,
  type_loop, trim_left, has_prefix, normalize_types,
}

abbrev pub begins_word : Bytes → Bool
begins_word [] = false
begins_word (c ∷ s) = is_word_byte c

-- What becomes of a word.
pub data Renamed (w : Bytes) : Bytes → Type 0 where
  bool_word : to_lower w ≡ codes "bool" → Renamed w (codes "tinyint(1)")
  boolean_word : to_lower w ≡ codes "boolean" → Renamed w (codes "tinyint(1)")
  other_word : to_lower w ≢ codes "bool" → to_lower w ≢ codes "boolean" → Renamed w w

abbrev pub begins_with : ℕ → Bytes → Bool
begins_with quote [] = false
begins_with quote (c ∷ s) = c == quote

-- The text behind an opening quote, up to and with the quote that closes it, and the rest. A
-- backslash takes the next byte with it, a doubled quote is no end, and a quote that is not closed
-- reaches to the end of the text.
pub data Quotes (quote : ℕ) : Bytes → Bytes → Type 0 where
  unclosed : Quotes quote [] []
  dangling : (c : ℕ) → (c == b'\\') ≡ true → Quotes quote (c ∷ []) []
  escaped :
      (c n : ℕ) (s rest : Bytes)
      → (c == b'\\') ≡ true
      → Quotes quote s rest
      → Quotes quote (c ∷ n ∷ s) rest
  doubled :
      (c n : ℕ) (s rest : Bytes)
      → (c == b'\\') ≡ false
      → (c == quote) ≡ true
      → (n == quote) ≡ true
      → Quotes quote s rest
      → Quotes quote (c ∷ n ∷ s) rest
  closing :
      (c : ℕ) (rest : Bytes)
      → (c == b'\\') ≡ false
      → (c == quote) ≡ true
      → begins_with quote rest ≡ false
      → Quotes quote (c ∷ []) rest
  plain :
      (c : ℕ) (s rest : Bytes)
      → (c == b'\\') ≡ false
      → (c == quote) ≡ false
      → Quotes quote s rest
      → Quotes quote (c ∷ s) rest

-- A text falls into words, that are as long as they can be, quoted parts and other bytes; a word
-- is renamed, the others stay as they are.
pub data Renames : Bytes → Bytes → Type 0 where
  nothing : Renames [] []
  word :
      (c : ℕ) (s rest renamed out : Bytes)
      → is_letter c ≡ true
      → is_quote c ≡ false
      → All (λ d. is_word_byte d ≡ true) s
      → begins_word rest ≡ false
      → Renamed (c ∷ s) renamed
      → Renames rest out
      → Renames ((c ∷ s) ++ rest) (renamed ++ out)
  quoted :
      (c : ℕ) (s rest out : Bytes)
      → is_quote c ≡ true
      → Quotes c s rest
      → Renames rest out
      → Renames ((c ∷ s) ++ rest) ((c ∷ s) ++ out)
  byte :
      (c : ℕ) (rest out : Bytes)
      → is_quote c ≡ false
      → is_letter c ≡ false
      → Renames rest out
      → Renames (c ∷ rest) (c ∷ out)

rename-Renamed : (w : Bytes) → Renamed w (rename w)
unfolding rename
rename-Renamed w =
    by_word (equal (to_lower w) (codes "bool")) (equal (to_lower w) (codes "boolean")) refl refl
  where
    by_word :
        (a b : Bool)
        → equal (to_lower w) (codes "bool") ≡ a
        → equal (to_lower w) (codes "boolean") ≡ b
        → Renamed w (if a || b then codes "tinyint(1)" else w)
    by_word true b h k = bool_word ((equal_iff _ _).0 h)
    by_word false true h k = boolean_word ((equal_iff _ _).0 k)
    by_word false false h k =
        other_word (λ e. absurd (false-true (sym h ∙ (equal_iff _ _).1 e)))
          (λ e. absurd (false-true (sym k ∙ (equal_iff _ _).1 e)))

abbrev Spans : ℕ → Bytes × Bytes → Type 0
Spans quote o = Quotes quote o.0 o.1

span_quoted-Quotes :
    (quote : ℕ) (s : Bytes) → Quotes quote (span_quoted quote s).0 (span_quoted quote s).1
unfolding span_quoted
span_quoted-Quotes quote [] = unclosed
span_quoted-Quotes quote (c ∷ []) = last (c == b'\\') (c == quote) refl refl
  where
    last : (a b : Bool) → (c == b'\\') ≡ a → (c == quote) ≡ b → Quotes quote (c ∷ []) []
    last true b e f = dangling c e
    last false true e f = closing c [] e f refl
    last false false e f = plain c [] [] e f unclosed
span_quoted-Quotes quote (c ∷ n ∷ s) =
    by_bytes (c == b'\\') (c == quote) (n == quote) refl refl refl (span_quoted-Quotes quote s)
      (span_quoted-Quotes quote (n ∷ s))
  where
    by_bytes :
        (x y z : Bool)
        → (c == b'\\') ≡ x
        → (c == quote) ≡ y
        → (n == quote) ≡ z
        → Quotes quote (span_quoted quote s).0 (span_quoted quote s).1
        → Quotes quote (span_quoted quote (n ∷ s)).0 (span_quoted quote (n ∷ s)).1
        → Spans quote (
            if x
            then extend_span (c ∷ n ∷ []) (span_quoted quote s)
            else if y
            then if z then extend_span (c ∷ n ∷ []) (span_quoted quote s) else (c ∷ [], n ∷ s)
            else extend_span (c ∷ []) (span_quoted quote (n ∷ s)))
    by_bytes true y z e f g two one = escaped c n _ _ e two
    by_bytes false true true e f g two one = doubled c n _ _ e f g two
    by_bytes false true false e f g two one = closing c (n ∷ s) e f g
    by_bytes false false z e f g two one = plain c _ _ e f one

span_quoted-splits :
    (quote : ℕ) (s : Bytes) → (span_quoted quote s).0 ++ (span_quoted quote s).1 ≡ s
unfolding span_quoted
span_quoted-splits quote [] = refl
span_quoted-splits quote (c ∷ []) = refl
span_quoted-splits quote (c ∷ n ∷ s) =
    ground (arith, span_quoted-splits quote s, span_quoted-splits quote (n ∷ s))

span_word-splits :
    (s : Bytes)
    → ((span_word s).0 ++ (span_word s).1 ≡ s)
      × All (λ d. is_word_byte d ≡ true) (span_word s).0
      × (begins_word (span_word s).1 ≡ false)
unfolding span_word
span_word-splits [] = (refl, tt, refl)
span_word-splits (c ∷ s) = elim (Bool-cases (is_word_byte c)) [
  | inl e ↦ let (whole, all, ends) = span_word-splits s in rw e (ap (◌∷◌ c) whole, (e, all), ends)
  | inr e ↦ rw e (refl, tt, e)
]

append-length-le : (s t u : Bytes) → s ++ t ≡ u → length t ≤ length u
append-length-le s t u h = subst (λ x. length t ≤ length x) h (omega (arith, length-append s t))

-- What one round writes and leaves.
abbrev Rounds : ℕ → Bytes → Bytes × Bytes → Type 0
Rounds c s (text, rest) =
    (length rest ≤ length s) × ((out : Bytes) → Renames rest out → Renames (c ∷ s) (text ++ out))

quoted-Rounds :
    (c : ℕ) (s : Bytes) (o : Bytes × Bytes)
    → is_quote c ≡ true
    → Spans c o
    → o.0 ++ o.1 ≡ s
    → Rounds c s (quoted_round c o)
quoted-Rounds c s (text, rest) e spans whole = (
  append-length-le text rest s whole,
  λ out later.
      subst (λ x. Renames (c ∷ x) ((c ∷ text) ++ out)) whole (quoted c text rest out e spans later),
)

word-Rounds :
    (c : ℕ) (s : Bytes) (o : Bytes × Bytes)
    → is_letter c ≡ true
    → is_quote c ≡ false
    → (o.0 ++ o.1 ≡ s) × All (λ d. is_word_byte d ≡ true) o.0 × (begins_word o.1 ≡ false)
    → Rounds c s (word_round c o)
word-Rounds c s (text, rest) letter unquoted (whole, all, ends) = (
  append-length-le text rest s whole,
  λ out later.
      subst (λ x. Renames (c ∷ x) (rename (c ∷ text) ++ out)) whole
        (word c text rest (rename (c ∷ text)) out letter unquoted all ends
          (rename-Renamed (c ∷ text)) later),
)

type_round-Rounds : (c : ℕ) (s : Bytes) → Rounds c s (type_round c s)
unfolding type_round
type_round-Rounds c s = by_kind (is_quote c) (is_letter c) refl refl
  where
    by_kind :
        (a b : Bool)
        → is_quote c ≡ a
        → is_letter c ≡ b
        → Rounds c s (
            if a
            then quoted_round c (span_quoted c s)
            else if b
            then word_round c (span_word s)
            else (c ∷ [], s))
    by_kind true b quote letter =
        quoted-Rounds c s (span_quoted c s) quote (span_quoted-Quotes c s) (span_quoted-splits c s)
    by_kind false true quote letter =
        word-Rounds c s (span_word s) letter quote (span_word-splits s)
    by_kind false false quote letter = (omega arith, λ out later. byte c s out quote letter later)

type_loop-Renames :
    (fuel : ℕ) (q : Bytes)
    → length q ≤ fuel
    → (out : Bytes) × (type_loop fuel q ≡ ok out) × Renames q out
unfolding type_loop
type_loop-Renames fuel [] h = ([], refl, nothing)
type_loop-Renames zero (c ∷ s) h = absurd (omega arith)
type_loop-Renames (suc fuel) (c ∷ s) h =
    let (shorter, round) = type_round-Rounds c s in
    let (later, looped, renames) =
      type_loop-Renames fuel (type_round c s).1 (omega (arith, shorter, h)) in
    ((type_round c s).0 ++ later, rw looped refl, round later renames)

abbrev pub is_create_table : Bytes → Bool
is_create_table q = has_prefix (to_upper (trim_left q)) (codes "CREATE TABLE")

-- The text of a CREATE TABLE is rewritten to an end: its words BOOL and BOOLEAN, in any case,
-- become `tinyint(1)`, and its other words, the parts in quotes and all other bytes stay what and
-- where they are. Any other text is left as it is.
pub normalize_types-Renames :
    (q : Bytes)
    → (out : Bytes) × (normalize_types q ≡ ok out)
      × ((is_create_table q ≡ true) × Renames q out ⊎ (is_create_table q ≡ false) × (out ≡ q))
unfolding normalize_types
normalize_types-Renames q = elim (Bool-cases (is_create_table q)) [
  | inl e ↦
      let (out, looped, renames) = type_loop-Renames (length q) q (omega arith) in
      (out, rw e looped, inl (e, renames))
  | inr e ↦ (q, rw e refl, inr (e, refl))
]
