-- ===== src/Bind/Rounds.antt =====
-- One round of the loop of `bindSQL`: what it leaves to be read, and how it moves the counter.
use milvus_sql_proxy.Base.{
  ℕ, suc, ◌+◌, ◌≤◌, ◌≢◌, true, false, ◌≡◌, [], ◌∷◌, Option, none, some, Bytes, length, ◌==◌, arith,
  Result, ok, err, ℤ, pos, negsuc, inl, inr, Bool-cases, ◌&&◌, not,
}
use milvus_sql_proxy.Error.{Error, out_of_fuel}
use milvus_sql_proxy.Decimal.{atoi}
use milvus_sql_proxy.Bind.{
  Dialect, mysql, postgres, Quoted, scan_quoted, extend, quoted_token, close_quoted, Token,
  split_line, split_comment, extend_comment, comment_token, split_digits, dollar_token, numbered,
  next_token, tail, is_quote, is_mysql, next_is, line_token, parameter, literal_text,
}

-- A bound on what a scanner leaves over.
abbrev Leaves : ℕ → Option Quoted → Type 0
Leaves n none = Unit
Leaves n (some t) = length t.rest ≤ n

extend-Leaves :
    (m n : ℕ) (raw value : Bytes) (o : Option Quoted)
    → Leaves m o
    → m ≤ n
    → Leaves n (extend raw value o)
extend-Leaves m n raw value none h le = tt
extend-Leaves m n raw value (some t) h le = omega arith

scan_quoted-Leaves : (d : Dialect) (q : ℕ) (s : Bytes) → Leaves (length s) (scan_quoted d q s)
unfolding scan_quoted
scan_quoted-Leaves d q [] = tt
scan_quoted-Leaves d q (c ∷ []) = ground arith
scan_quoted-Leaves d q (c ∷ n ∷ s) =
    let two = scan_quoted-Leaves d q s in
    let one = scan_quoted-Leaves d q (n ∷ s) in
    ground (
      arith,
      extend-Leaves (length s) (length (c ∷ n ∷ s)) (c ∷ n ∷ []) (q ∷ []) (scan_quoted d q s) two,
      extend-Leaves (length s) (length (c ∷ n ∷ s)) (c ∷ n ∷ []) [] (scan_quoted d q s) two,
      extend-Leaves (length (n ∷ s)) (length (c ∷ n ∷ s)) (c ∷ []) (c ∷ [])
          (scan_quoted d q (n ∷ s)) one,
    )

split_line-length : (s : Bytes) → length (split_line s).1 ≤ length s
unfolding split_line
split_line-length [] = omega arith
split_line-length (c ∷ s) = ground (arith, split_line-length s)

split_line-progress : (c : ℕ) (s : Bytes) → length (split_line (c ∷ s)).1 ≤ length s
unfolding split_line
split_line-progress c s = ground (arith, split_line-length s)

abbrev LeavesRest : ℕ → Option (Bytes × Bytes) → Type 0
LeavesRest n none = Unit
LeavesRest n (some p) = length p.1 ≤ n

extend_comment-LeavesRest :
    (n c : ℕ) (o : Option (Bytes × Bytes))
    → LeavesRest n o
    → LeavesRest (suc n) (extend_comment c o)
extend_comment-LeavesRest n c none h = tt
extend_comment-LeavesRest n c (some (text, rest)) h = omega arith

split_comment-LeavesRest : (s : Bytes) → LeavesRest (length s) (split_comment s)
unfolding split_comment
split_comment-LeavesRest [] = tt
split_comment-LeavesRest (c ∷ []) = tt
split_comment-LeavesRest (c ∷ n ∷ s) = ground (
  arith,
  extend_comment-LeavesRest (length (n ∷ s)) c (split_comment (n ∷ s))
      (split_comment-LeavesRest (n ∷ s)),
)

split_digits-length : (s : Bytes) → length (split_digits s).1 ≤ length s
unfolding split_digits
split_digits-length [] = omega arith
split_digits-length (c ∷ s) = ground (arith, split_digits-length s)

-- A round that succeeds leaves at most `n` bytes, never lowers the counter, and numbers a
-- parameter at most by it; a round that fails does not run out of fuel.
abbrev pub Advances : ℕ → ℕ → Result Error Token → Type 0
Advances n count (ok t) = (length t.rest ≤ n) × (count ≤ t.count) × (t.index ≤ t.count)
Advances n count (err e) = e ≢ out_of_fuel

quoted_token-Advances :
    (d : Dialect) (q n count : ℕ) (o : Option Quoted)
    → Leaves n o
    → Advances n count (close_quoted d q count o)
unfolding quoted_token
quoted_token-Advances d q n count none h = λ e. cc
quoted_token-Advances mysql q n count (some t) h = omega arith
quoted_token-Advances postgres q n count (some t) h = ground arith

comment_token-Advances :
    (n count : ℕ) (o : Option (Bytes × Bytes))
    → LeavesRest n o
    → Advances n count (comment_token count o)
comment_token-Advances n count none h = λ e. cc
comment_token-Advances n count (some (text, rest)) h = omega arith

numbered-Advances :
    (count : ℕ) (i : Option ℤ) (rest : Bytes) → Advances (length rest) count (numbered count i rest)
numbered-Advances count none rest = λ e. cc
numbered-Advances count (some (negsuc n)) rest = λ e. cc
numbered-Advances count (some (pos n)) rest = ground arith

Advances-mono :
    (m n count : ℕ) (r : Result Error Token) → Advances m count r → m ≤ n → Advances n count r
Advances-mono m n count (ok t) h le = omega arith
Advances-mono m n count (err e) h le = h

dollar_token-Advances :
    (n count : ℕ) (p : Bytes × Bytes) → length p.1 ≤ n → Advances n count (dollar_token count p)
unfolding dollar_token
dollar_token-Advances n count ([], rest) h = λ e. cc
dollar_token-Advances n count (c ∷ digits, rest) h =
    Advances-mono (length rest) n count (numbered count (atoi (c ∷ digits)) rest)
      (numbered-Advances count (atoi (c ∷ digits)) rest) h

tail-length : (s : Bytes) → length (tail s) ≤ length s
tail-length [] = omega arith
tail-length (c ∷ s) = omega arith

tail-progress :
    (count : ℕ) (s : Bytes)
    → Advances (length s) count (comment_token count (split_comment (tail s)))
tail-progress count s =
    Advances-mono (length (tail s)) (length s) count (comment_token count (split_comment (tail s)))
      (comment_token-Advances (length (tail s)) count (split_comment (tail s))
        (split_comment-LeavesRest (tail s)))
      (tail-length s)

-- The rounds of the loop, one by one.
module _ {κ} (P : Result Error Token → Type κ) (d : Dialect) (count c : ℕ) (s : Bytes)
    (quoted : is_quote c ≡ true → P (close_quoted d c count (scan_quoted d c s)))
    (line : is_quote c ≡ false
      → (c == b'-' && next_is b'-' s) ≡ true
      → P (ok (line_token count (split_line (c ∷ s)))))
    (comment : (c == b'/' && next_is b'*' s) ≡ true
      → P (comment_token count (split_comment (tail s))))
    (question : is_quote c ≡ false
      → (is_mysql d && c == b'?') ≡ true
      → P (ok (parameter (count + 1) (count + 1) s)))
    (dollar : is_quote c ≡ false
      → (not (is_mysql d) && c == b'$') ≡ true
      → P (dollar_token count (split_digits s)))
    (plain : P (ok (literal_text count (c ∷ []) s))) where
  pub next_token_cases : P (next_token d count c s)
  unfolding next_token
  next_token_cases = elim (Bool-cases (is_quote c)) [
    | inl q ↦ rw q (quoted q)
    | inr nq ↦ elim (Bool-cases (c == b'-' && next_is b'-' s)) [
      | inl l ↦ rw (nq, l) (line nq l)
      | inr nl ↦ elim (Bool-cases (c == b'/' && next_is b'*' s)) [
        | inl b ↦ rw (nq, nl, b) (comment b)
        | inr nb ↦ elim (Bool-cases (is_mysql d && c == b'?')) [
          | inl m ↦ rw (nq, nl, nb, m) (question nq m)
          | inr nm ↦ elim (Bool-cases (not (is_mysql d) && c == b'$')) [
            | inl p ↦ rw (nq, nl, nb, nm, p) (dollar nq p)
            | inr np ↦ rw (nq, nl, nb, nm, np) plain
          ]
        ]
      ]
    ]
  ]

pub next_token-Advances :
    (d : Dialect) (count c : ℕ) (s : Bytes) → Advances (length s) count (next_token d count c s)
next_token-Advances d count c s =
    next_token_cases (Advances (length s) count) d count c s
      (λ _.
        quoted_token-Advances d c (length s) count (scan_quoted d c s) (scan_quoted-Leaves d c s))
      (λ _ _. (split_line-progress c s, omega arith, omega arith)) (λ _. tail-progress count s)
      (λ _ _. omega arith)
      (λ _ _. dollar_token-Advances (length s) count (split_digits s) (split_digits-length s))
      (omega arith)
