-- ===== src/Bind/LineComment.antt =====
-- A minus sign before a placeholder. `sqlLiteral` writes a negative number with its sign and
-- nothing around it, so the two signs meet.
use milvus_sql_proxy.Base.{
  ℕ, zero, suc, Bool, true, false, not, ◌||◌, ◌==◌, any, ◌≡◌, refl, ap, List, [], ◌∷◌, ◌++◌, Bytes,
  length, arith, ok, sym, ◌∙◌, >>=-eq-ok, append_assoc, append-nil, negsuc,
}
use milvus_sql_proxy.Value.{Value, Library, IntType, signed}
use milvus_sql_proxy.Decimal.{format_uint}
use milvus_sql_proxy.Bind.{
  Dialect, mysql, split_line, next_token, write_token, bind_loop, bind_sql, check_count, line_token,
  parameter, literal_text, is_quote,
}
use milvus_sql_proxy.Bind.SqlLiteral.{sql_literal}

-- A byte that means nothing to the scanner, whatever follows it.
abbrev pub is_inert : ℕ → Bool
is_inert c = not (is_quote c || c == b'-' || c == b'/' || c == b'?' || c == b'$')

-- The builder only grows.
bind_loop-prefix :
    (lib : Library) (d : Dialect) (args : List Value) (describe : Bool) (fuel count : ℕ)
    (out q : Bytes) {u : Bytes} {n : ℕ}
    → bind_loop lib d args describe fuel count out q ≡ ok (u, n)
    → (w : Bytes) × (u ≡ out ++ w)
unfolding bind_loop
bind_loop-prefix lib d args describe fuel count out [] h = ([], ground (arith, append-nil out))
bind_loop-prefix lib d args describe zero count out (c ∷ s) h = ([], cc)
bind_loop-prefix lib d args describe (suc fuel) count out (c ∷ s) h =
    let (t, read, h') = >>=-eq-ok (next_token d count c s) _ h in
    let (text, wrote, h'') = >>=-eq-ok (write_token lib args describe t) _ h' in
    let (w, e) = bind_loop-prefix lib d args describe fuel t.count (out ++ text) t.rest h'' in
    (text ++ w, e ∙ append_assoc out text w)

module _ (lib : Library) (k : IntType) (n : ℕ) (args : List Value) where
  first_round :
      (s : Bytes) → next_token mysql 0 b'-' (b'?' ∷ s) ≡ ok (literal_text 0 (b'-' ∷ []) (b'?' ∷ s))
  unfolding next_token
  first_round s = refl

  second_round : (s : Bytes) → next_token mysql 0 b'?' s ≡ ok (parameter 1 1 s)
  unfolding next_token
  second_round s = refl

  written :
      (s : Bytes)
      → write_token lib (signed k (negsuc n) ∷ args) false (parameter 1 1 s)
        ≡ ok (b'-' ∷ format_uint (suc n))
  unfolding write_token sql_literal
  written s = refl

  two_rounds :
      (fuel : ℕ) (out s : Bytes)
      → bind_loop lib mysql
          (signed k (negsuc n) ∷ args)
          false
          (suc (suc fuel))
          0
          out
          (b'-' ∷ b'?' ∷ s)
        ≡ bind_loop lib mysql
            (signed k (negsuc n) ∷ args)
            false
            fuel
            1
            ((out ++ b'-' ∷ []) ++ b'-' ∷ format_uint (suc n))
            s
  unfolding bind_loop
  two_rounds fuel out s =
      rw (first_round s) (unfold write_token in rw (second_round s) (rw (written s)))

  plain_round :
      (c : ℕ) (s : Bytes)
      → is_inert c ≡ true
      → next_token mysql 0 c s ≡ ok (literal_text 0 (c ∷ []) s)
  unfolding next_token
  plain_round c s h = ground arith

  plain_step :
      (fuel c : ℕ) (s out : Bytes)
      → is_inert c ≡ true
      → bind_loop lib mysql (signed k (negsuc n) ∷ args) false (suc fuel) 0 out (c ∷ s)
        ≡ bind_loop lib mysql (signed k (negsuc n) ∷ args) false fuel 0 (out ++ c ∷ []) s
  unfolding bind_loop
  plain_step fuel c s out h = rw (plain_round c s h) (unfold write_token in refl)

  plain_rounds :
      (p s out : Bytes)
      → any (λ c. not (is_inert c)) p ≡ false
      → bind_loop lib mysql (signed k (negsuc n) ∷ args) false (length (p ++ s)) 0 out (p ++ s)
        ≡ bind_loop lib mysql (signed k (negsuc n) ∷ args) false (length s) 0 (out ++ p) s
  plain_rounds [] s out h = rw (append-nil out) refl
  plain_rounds (c ∷ p) s out h =
      plain_step (length (p ++ s)) c (p ++ s) out (ground arith)
      ∙ plain_rounds p s (out ++ c ∷ []) (ground arith)
      ∙ ap (λ o. bind_loop lib mysql (signed k (negsuc n) ∷ args) false (length s) 0 o s)
          (append_assoc out (c ∷ []) p)

  -- A statement whose first mark is a minus sign with a placeholder behind it, and which is bound
  -- to a negative integer there, goes on to the SQL parser with `--` in that place and its text up
  -- to there unchanged; at these two the scanner of `bindSQL` itself reads a comment up to the end
  -- of the line. The bytes before are no quote, minus, slash, question mark or dollar sign.
  pub bind_sql-line_comment :
      (p s : Bytes) {out : Bytes} {m : ℕ}
      → any (λ c. not (is_inert c)) p ≡ false
      → bind_sql lib (p ++ b'-' ∷ b'?' ∷ s) mysql (signed k (negsuc n) ∷ args) false ≡ ok (out, m)
      → (u : Bytes) × (out ≡ p ++ b'-' ∷ b'-' ∷ u)
        × (next_token mysql 0 b'-' (b'-' ∷ u) ≡ ok (line_token 0 (split_line (b'-' ∷ b'-' ∷ u))))
  unfolding bind_sql
  bind_sql-line_comment p s {out} {m} plain h =
      let q = p ++ b'-' ∷ b'?' ∷ s in
      let ((u, c), looped, e) =
        >>=-eq-ok (bind_loop lib mysql (signed k (negsuc n) ∷ args) false (length q) 0 [] q) _ h in
      let rounds = plain_rounds p (b'-' ∷ b'?' ∷ s) [] plain ∙ two_rounds (length s) p s in
      let (w, grown) =
        bind_loop-prefix lib mysql (signed k (negsuc n) ∷ args) false (length s) 1
          ((p ++ b'-' ∷ []) ++ b'-' ∷ format_uint (suc n)) s (sym rounds ∙ looped) in
      (
        format_uint (suc n) ++ w,
        kept (signed k (negsuc n) ∷ args) u c e ∙ grown ∙ placed p (format_uint (suc n)) w,
        unfold next_token in refl,
      )
    where
      kept :
          (args : List Value) (u : Bytes) (c : ℕ) {t : Bytes} {n : ℕ}
          → check_count args false (u, c) ≡ ok (t, n)
          → t ≡ u
      kept args u c h = ground arith

      placed : (p f w : Bytes) → ((p ++ b'-' ∷ []) ++ b'-' ∷ f) ++ w ≡ p ++ b'-' ∷ b'-' ∷ (f ++ w)
      placed [] f w = refl
      placed (x ∷ p) f w = ap (◌∷◌ x) (placed p f w)
