-- ===== src/Bind/Literal.antt =====
-- String arguments and string literals: what `sqlLiteral` writes is one token again, and spells
-- the same bytes.
use milvus_sql_proxy.Base.{
  ℕ, true, false, ◌≡◌, ◌≢◌, refl, [], ◌∷◌, ◌++◌, Option, none, some, Bytes, ◌==◌, arith, ok,
  Bool-cases, inl, inr, ap, ◌∙◌, append_assoc, if◌then◌else◌,
}
use milvus_sql_proxy.Bind.{
  Dialect, mysql, postgres, Quoted, scan_quoted, extend, quoted_token, close_quoted, next_is,
  next_token, literal_text,
}
use milvus_sql_proxy.Bind.SqlLiteral.{escape, escape_byte, string_literal}

-- How a reader of backslash escapes takes the text between the quotes: a backslash gives the
-- byte behind it, and `\0` the zero byte.
unfoldable pub unescape : Bytes → Bytes
unescape [] = []
unescape (c ∷ []) = c ∷ []
unescape (c ∷ n ∷ s) =
    let pair = (if n == b'0' then 0 else n) ∷ unescape s in
    let single = c ∷ unescape (n ∷ s) in if c == b'\\' then pair else single

unescape-plain : (c : ℕ) (s : Bytes) → c ≢ b'\\' → unescape (c ∷ s) ≡ c ∷ unescape s
unfolding unescape
unescape-plain c [] h = refl
unescape-plain c (n ∷ s) h = ground arith

unescape-escape_byte : (c : ℕ) (s : Bytes) → unescape (escape_byte c ++ s) ≡ c ∷ unescape s
unfolding unescape escape_byte
unescape-escape_byte c s = ground (arith, unescape-plain c s)

unescape-escape : (s : Bytes) → unescape (escape s) ≡ s
unfolding escape
unescape-escape [] = unfold unescape in refl
unescape-escape (c ∷ s) = unescape-escape_byte c (escape s) ∙ ap (◌∷◌ c) (unescape-escape s)

-- The text between PostgreSQL quotes that spells `s`.
unfoldable pub double_quotes : Bytes → Bytes
double_quotes [] = []
double_quotes (c ∷ s) = if c == b'\'' then b'\'' ∷ b'\'' ∷ double_quotes s else c ∷ double_quotes s

scan_quoted-plain :
    (d : Dialect) (q c : ℕ) (s : Bytes)
    → c ≢ q
    → c ≢ b'\\'
    → scan_quoted d q (c ∷ s) ≡ extend (c ∷ []) (c ∷ []) (scan_quoted d q s)
unfolding scan_quoted
scan_quoted-plain d q c [] h k = ground arith
scan_quoted-plain d q c (n ∷ s) h k = ground arith

scan_quoted-close :
    (d : Dialect) (q : ℕ) (s : Bytes)
    → next_is q s ≡ false
    → scan_quoted d q (q ∷ s) ≡ some (record { raw = q ∷ []; value = []; rest = s })
unfolding scan_quoted
scan_quoted-close d q [] h = ground arith
scan_quoted-close d q (n ∷ s) h = ground arith

-- The token that reads `raw` and leaves `rest`; its value is not looked at.
abbrev Reads : Bytes → Bytes → Option Quoted → Type 0
Reads raw rest none = ⊥
Reads raw rest (some t) = (t.raw ≡ raw) × (t.rest ≡ rest)

extend-Reads :
    (raw rest text value : Bytes) (o : Option Quoted)
    → Reads raw rest o
    → Reads (text ++ raw) rest (extend text value o)
extend-Reads raw rest text value none h = absurd h
extend-Reads raw rest text value (some t) h = (ap (◌++◌ text) h.0, h.1)

escape_byte-Reads :
    (c : ℕ) (raw rest s : Bytes)
    → Reads raw rest (scan_quoted mysql b'\'' s)
    → Reads (escape_byte c ++ raw) rest (scan_quoted mysql b'\'' (escape_byte c ++ s))
unfolding escape_byte
escape_byte-Reads c raw rest s h = ground (
  arith,
  extend-Reads raw rest (c ∷ []) (c ∷ []) (scan_quoted mysql b'\'' s) h,
  extend-Reads raw rest (b'\\' ∷ b'\\' ∷ []) [] (scan_quoted mysql b'\'' s) h,
  extend-Reads raw rest (b'\\' ∷ b'\'' ∷ []) [] (scan_quoted mysql b'\'' s) h,
  extend-Reads raw rest (b'\\' ∷ b'0' ∷ []) [] (scan_quoted mysql b'\'' s) h,
  scan_quoted-plain mysql b'\'' c s,
  pair b'\\' s,
  pair b'\'' s,
  pair b'0' s,
)
  where
    pair :
        (n : ℕ) (s : Bytes)
        → scan_quoted mysql b'\'' (b'\\' ∷ n ∷ s)
          ≡ extend (b'\\' ∷ n ∷ []) [] (scan_quoted mysql b'\'' s)
    pair n s = unfold scan_quoted in ground arith

escape-Reads :
    (v rest : Bytes)
    → next_is b'\'' rest ≡ false
    → Reads (escape v ++ b'\'' ∷ []) rest (scan_quoted mysql b'\'' (escape v ++ b'\'' ∷ rest))
unfolding escape
escape-Reads [] rest h = rw (scan_quoted-close mysql b'\'' rest h) (refl, refl)
escape-Reads (c ∷ v) rest h =
    rw
      (
        append_assoc (escape_byte c) (escape v) (b'\'' ∷ []),
        append_assoc (escape_byte c) (escape v) (b'\'' ∷ rest),
      )
      (escape_byte-Reads c _ rest _ (escape-Reads v rest h))

-- A string argument cannot end its literal early. Wherever the scan of MySQL text comes upon the
-- literal that `sqlLiteral` wrote for `v`, it reads exactly that literal as one token and goes on
-- behind it, whatever bytes `v` holds; a quote that follows at once would be read as doubled.
-- Between its quotes the literal spells `v`.
pub string_literal-token :
    (count : ℕ) (v rest : Bytes)
    → next_is b'\'' rest ≡ false
    → (next_token mysql count b'\'' (escape v ++ b'\'' ∷ rest)
        ≡ ok (literal_text count (string_literal v) rest))
      × (unescape (escape v) ≡ v)
unfolding next_token string_literal
string_literal-token count v rest h = (
  close (scan_quoted mysql b'\'' (escape v ++ b'\'' ∷ rest)) (escape-Reads v rest h),
  unescape-escape v,
)
  where
    close :
        (o : Option Quoted)
        → Reads (escape v ++ b'\'' ∷ []) rest o
        → close_quoted mysql b'\'' count o ≡ ok (literal_text count (string_literal v) rest)
    close none h = absurd h
    close (some t) h = unfold quoted_token in rw (h.0, h.1)

scan_quoted-doubled :
    (c : ℕ) (s : Bytes)
    → (c == b'\'') ≡ true
    → scan_quoted postgres b'\'' (b'\'' ∷ b'\'' ∷ s)
      ≡ extend (b'\'' ∷ b'\'' ∷ []) (c ∷ []) (scan_quoted postgres b'\'' s)
unfolding scan_quoted
scan_quoted-doubled c s h =
    let same : b'\'' ≡ c = ground arith in
    ap (λ k. extend (b'\'' ∷ b'\'' ∷ []) (k ∷ []) (scan_quoted postgres b'\'' s)) same

scan_quoted-ordinary :
    (c : ℕ) (s : Bytes)
    → (c == b'\'') ≡ false
    → scan_quoted postgres b'\'' (c ∷ s) ≡ extend (c ∷ []) (c ∷ []) (scan_quoted postgres b'\'' s)
unfolding scan_quoted
scan_quoted-ordinary c [] h = ground arith
scan_quoted-ordinary c (n ∷ s) h = ground arith

doubled :
    (v rest : Bytes)
    → next_is b'\'' rest ≡ false
    → (raw : Bytes) × (scan_quoted postgres b'\'' (double_quotes v ++ b'\'' ∷ rest)
        ≡ some (record { raw = raw; value = v; rest = rest }))
unfolding double_quotes
doubled [] rest h = (b'\'' ∷ [], scan_quoted-close postgres b'\'' rest h)
doubled (c ∷ v) rest h =
    let (raw, e) = doubled v rest h in
    elim (Bool-cases (c == b'\'')) [
      | inl quote ↦ (b'\'' ∷ b'\'' ∷ raw, rw quote (scan_quoted-doubled c _ quote ∙ rw e))
      | inr other ↦ (c ∷ raw, rw other (scan_quoted-ordinary c _ other ∙ rw e))
    ]

-- A PostgreSQL string token, in which a quote is doubled and a backslash is a byte like any
-- other, is rewritten as the backslash-escaped literal of the same value.
pub postgres_string-token :
    (count : ℕ) (v rest : Bytes)
    → next_is b'\'' rest ≡ false
    → (next_token postgres count b'\'' (double_quotes v ++ b'\'' ∷ rest)
        ≡ ok (literal_text count (string_literal v) rest))
      × (unescape (escape v) ≡ v)
unfolding next_token quoted_token
postgres_string-token count v rest h =
    let (raw, e) = doubled v rest h in (rw e refl, unescape-escape v)
