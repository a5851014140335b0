-- ===== src/Bind/Verbatim.antt =====
-- MySQL text without parameters goes through `bindSQL` unchanged: whatever quoted tokens and
-- comments it holds, the scan copies them.
use milvus_sql_proxy.Base.{
  ℕ, zero, suc, true, false, ◌≡◌, refl, [], ◌∷◌, ◌++◌, Option, none, some, Bytes, length, ◌==◌,
  arith, Result, ok, err, ap, ◌∙◌, >>=-eq-ok, append_assoc, append-nil, ◌&&◌,
}
use milvus_sql_proxy.Error.{Error}
use milvus_sql_proxy.Value.{Library}
use milvus_sql_proxy.Bind.{
  Dialect, mysql, Quoted, scan_quoted, extend, quoted_token, close_quoted, Token, split_line,
  split_comment, extend_comment, comment_token, next_is, next_token, tail, write_token, bind_loop,
  bind_sql, check_count,
}
use milvus_sql_proxy.Bind.Rounds.{next_token_cases}

-- The scanners split their text in two.
abbrev Splits : Bytes → Option Quoted → Type 0
Splits s none = Unit
Splits s (some t) = t.raw ++ t.rest ≡ s

extend-Splits :
    (s raw value : Bytes) (o : Option Quoted) → Splits s o → Splits (raw ++ s) (extend raw value o)
extend-Splits s raw value none h = tt
extend-Splits s raw value (some t) h = append_assoc raw t.raw t.rest ∙ ap (◌++◌ raw) h

pub scan_quoted-Splits : (d : Dialect) (q : ℕ) (s : Bytes) → Splits s (scan_quoted d q s)
unfolding scan_quoted
scan_quoted-Splits d q [] = tt
scan_quoted-Splits d q (c ∷ []) = ground arith
scan_quoted-Splits d q (c ∷ n ∷ s) = ground (
  arith,
  extend-Splits s (c ∷ n ∷ []) (q ∷ []) (scan_quoted d q s) (scan_quoted-Splits d q s),
  extend-Splits s (c ∷ n ∷ []) [] (scan_quoted d q s) (scan_quoted-Splits d q s),
  extend-Splits (n ∷ s) (c ∷ []) (c ∷ []) (scan_quoted d q (n ∷ s))
      (scan_quoted-Splits d q (n ∷ s)),
)

split_line-append : (s : Bytes) → (split_line s).0 ++ (split_line s).1 ≡ s
unfolding split_line
split_line-append [] = refl
split_line-append (c ∷ s) = ground (arith, split_line-append s)

abbrev SplitsComment : Bytes → Option (Bytes × Bytes) → Type 0
SplitsComment s none = Unit
SplitsComment s (some p) = p.0 ++ p.1 ≡ s

extend_comment-Splits :
    (c : ℕ) (s : Bytes) (o : Option (Bytes × Bytes))
    → SplitsComment s o
    → SplitsComment (c ∷ s) (extend_comment c o)
extend_comment-Splits c s none h = tt
extend_comment-Splits c s (some (text, rest)) h = ap (◌∷◌ c) h

split_comment-Splits : (s : Bytes) → SplitsComment s (split_comment s)
unfolding split_comment
split_comment-Splits [] = tt
split_comment-Splits (c ∷ []) = tt
split_comment-Splits (c ∷ n ∷ s) =
    ground (
      arith,
      extend_comment-Splits c (n ∷ s) (split_comment (n ∷ s)) (split_comment-Splits (n ∷ s)),
    )

-- Text that goes out as it is stands before what is left.
abbrev Copies : Bytes → Result Error Token → Type 0
Copies q (ok t) = t.index ≡ 0 → t.text ++ t.rest ≡ q
Copies q (err e) = Unit

quoted-Copies :
    (q count : ℕ) (s : Bytes) (o : Option Quoted)
    → Splits s o
    → Copies (q ∷ s) (close_quoted mysql q count o)
unfolding quoted_token
quoted-Copies q count s none h = tt
quoted-Copies q count s (some t) h = λ _. ap (◌∷◌ q) h

comment-Copies :
    (c count : ℕ) (s : Bytes) (o : Option (Bytes × Bytes))
    → (c == b'/' && next_is b'*' s) ≡ true
    → SplitsComment (tail s) o
    → Copies (c ∷ s) (comment_token count o)
comment-Copies c count s none e h = tt
comment-Copies c count [] (some (text, rest)) e h = ground arith
comment-Copies c count (n ∷ s) (some (text, rest)) e h = ground arith

next_token-Copies : (count c : ℕ) (s : Bytes) → Copies (c ∷ s) (next_token mysql count c s)
next_token-Copies count c s =
    next_token_cases (Copies (c ∷ s)) mysql count c s
      (λ _. quoted-Copies c count s (scan_quoted mysql c s) (scan_quoted-Splits mysql c s))
      (λ _ _ _. split_line-append (c ∷ s))
      (λ e. comment-Copies c count s (split_comment (tail s)) e (split_comment-Splits (tail s)))
      (λ _ _ none. absurd (omega arith)) (λ _ no. cc) (λ _. refl)

-- With no arguments a placeholder is an error.
write_token-nil :
    (lib : Library) (t : Token) {text : Bytes}
    → write_token lib [] false t ≡ ok text
    → (t.index ≡ 0) × (text ≡ t.text)
unfolding write_token
write_token-nil lib t h = ground arith

bind_loop-verbatim :
    (lib : Library) (fuel count : ℕ) (out q : Bytes) {u : Bytes} {n : ℕ}
    → bind_loop lib mysql [] false fuel count out q ≡ ok (u, n)
    → u ≡ out ++ q
unfolding bind_loop
bind_loop-verbatim lib fuel count out [] h = ground (arith, append-nil out)
bind_loop-verbatim lib zero count out (c ∷ s) h = cc
bind_loop-verbatim lib (suc fuel) count out (c ∷ s) h =
    let (t, read, h') = >>=-eq-ok (next_token mysql count c s) _ h in
    let (text, wrote, h'') = >>=-eq-ok (write_token lib [] false t) _ h' in
    let (zeroth, same) = write_token-nil lib t wrote in
    let copied = (rw read at (next_token-Copies count c s)) zeroth in
    bind_loop-verbatim lib fuel t.count (out ++ text) t.rest h''
    ∙ append_assoc out text t.rest
    ∙ ap (◌++◌ out) (rw same copied)

-- A MySQL text that binds with no arguments is sent on byte for byte.
pub bind_sql-verbatim :
    (lib : Library) (q : Bytes) {out : Bytes} {n : ℕ}
    → bind_sql lib q mysql [] false ≡ ok (out, n)
    → out ≡ q
unfolding bind_sql
bind_sql-verbatim lib q h =
    let ((u, m), looped, e) = >>=-eq-ok (bind_loop lib mysql [] false (length q) 0 [] q) _ h in
    check_text u m e ∙ bind_loop-verbatim lib (length q) 0 [] q looped
  where
    check_text :
        (u : Bytes) (m : ℕ) {t : Bytes} {n : ℕ} → check_count [] false (u, m) ≡ ok (t, n) → t ≡ u
    check_text u m h = ground arith
