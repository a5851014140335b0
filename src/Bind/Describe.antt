-- ===== src/Bind/Describe.antt =====
-- The two uses of `bindSQL`: the count that a description announces is the number of arguments
-- with which the same text can be bound.
use milvus_sql_proxy.Base.{
  ◌↔◌, ℕ, zero, suc, ◌-◌, ◌≤◌, ◌<◌, Bool, true, false, ◌≡◌, refl, List, [], ◌∷◌, ◌++◌, Bytes,
  length, get_elem?, ◌==◌, arith, ok, Bool-cases, inl, inr, All, >>=-eq-ok, if◌then◌else◌, codes,
  sym, ◌∙◌,
}
use milvus_sql_proxy.Value.{
  Value, null, bool, signed, unsigned, float32, float64, vector, bytes, string, unknown, Library,
}
use milvus_sql_proxy.Bind.{
  Dialect, Token, next_token, write_token, argument_literal, bind_loop, bind_sql, check_count,
}
use milvus_sql_proxy.Bind.SqlLiteral.{sql_literal}
use milvus_sql_proxy.Bind.Rounds.{next_token-Advances}

-- The dynamic types that `sqlLiteral` has a text for.
abbrev pub IsBindable : Value → Type 0
IsBindable (vector v) = ⊥
IsBindable unknown = ⊥
IsBindable _ = Unit

module _ (lib : Library) where
  sql_literal-IsBindable :
      (v : Value) → IsBindable v → (text : Bytes) × (sql_literal lib v ≡ ok text)
  unfolding sql_literal
  sql_literal-IsBindable (bool true) h = (_, refl)
  sql_literal-IsBindable (bool false) h = (_, refl)
  sql_literal-IsBindable (vector v) h = absurd h
  sql_literal-IsBindable unknown h = absurd h
  sql_literal-IsBindable null h = (_, refl)
  sql_literal-IsBindable (signed k i) h = (_, refl)
  sql_literal-IsBindable (unsigned k i) h = (_, refl)
  sql_literal-IsBindable (float32 f) h = (_, refl)
  sql_literal-IsBindable (float64 f) h = (_, refl)
  sql_literal-IsBindable (bytes s) h = (_, refl)
  sql_literal-IsBindable (string s) h = (_, refl)

  argument_literal-IsBindable :
      (index i : ℕ) (args : List Value)
      → i < length args
      → All IsBindable args
      → (text : Bytes) × (argument_literal lib index (get_elem? args i) ≡ ok text)
  argument_literal-IsBindable index i [] h all = absurd (omega arith)
  argument_literal-IsBindable index zero (v ∷ args) h all = sql_literal-IsBindable v all.0
  argument_literal-IsBindable index (suc i) (v ∷ args) h all =
      argument_literal-IsBindable index i args (omega arith) all.1

  write_token-IsBindable :
      (args : List Value) (t : Token)
      → t.index ≤ length args
      → All IsBindable args
      → (text : Bytes) × (write_token lib args false t ≡ ok text)
  unfolding write_token
  write_token-IsBindable args t h all = elim (Bool-cases (t.index == 0)) [
    | inl same ↦ (t.text, rw same)
    | inr numbered ↦
        let (text, e) = argument_literal-IsBindable t.index (t.index - 1) args (ground arith) all in
        (text, rw numbered e)
  ]

  -- A description writes every token.
  write_token-describe :
      (args : List Value) (t : Token) → (text : Bytes) × (write_token lib args true t ≡ ok text)
  unfolding write_token
  write_token-describe args t = ((if t.index == 0 then t.text else codes "0"), ground arith)

  get_elem?-length :
      (index i : ℕ) (args : List Value) {text : Bytes}
      → argument_literal lib index (get_elem? args i) ≡ ok text
      → i < length args
  get_elem?-length index i [] h = cc
  get_elem?-length index zero (v ∷ args) h = omega arith
  get_elem?-length index (suc i) (v ∷ args) h = omega (arith, get_elem?-length index i args h)

  module _ (d : Dialect) where
    bind_loop-count :
        (args : List Value) (describe : Bool) (fuel count : ℕ) (out q : Bytes) {u : Bytes} {n : ℕ}
        → bind_loop lib d args describe fuel count out q ≡ ok (u, n)
        → count ≤ n
    unfolding bind_loop
    bind_loop-count args describe fuel count out [] h = ground arith
    bind_loop-count args describe zero count out (c ∷ s) h = cc
    bind_loop-count args describe (suc fuel) count out (c ∷ s) h =
        let (t, read, h') = >>=-eq-ok (next_token d count c s) _ h in
        let (text, wrote, h'') = >>=-eq-ok (write_token lib args describe t) _ h' in
        let moved = rw read at (next_token-Advances d count c s) in
        omega (arith, bind_loop-count args describe fuel t.count (out ++ text) t.rest h'', moved)

    bind_loop-of_describe :
        (args : List Value) (fuel count : ℕ) (out out' q : Bytes) {u : Bytes} {n : ℕ}
        → bind_loop lib d [] true fuel count out q ≡ ok (u, n)
        → n ≤ length args
        → All IsBindable args
        → (w : Bytes) × (bind_loop lib d args false fuel count out' q ≡ ok (w, n))
    unfolding bind_loop
    bind_loop-of_describe args fuel count out out' [] h le all = (out', ground arith)
    bind_loop-of_describe args zero count out out' (c ∷ s) h le all = cc
    bind_loop-of_describe args (suc fuel) count out out' (c ∷ s) h le all =
        let (t, read, h') = >>=-eq-ok (next_token d count c s) _ h in
        let (text, wrote, h'') = >>=-eq-ok (write_token lib [] true t) _ h' in
        let moved = rw read at (next_token-Advances d count c s) in
        let rest = bind_loop-count [] true fuel t.count (out ++ text) t.rest h'' in
        let (text', wrote') = write_token-IsBindable args t (omega arith) all in
        let (w, e) =
          bind_loop-of_describe args fuel t.count (out ++ text) (out' ++ text') t.rest h'' le all in
        (w, rw (read, wrote') e)

    bind_loop-describe_of :
        (args : List Value) (fuel count : ℕ) (out out' q : Bytes) {u : Bytes} {n : ℕ}
        → bind_loop lib d args false fuel count out q ≡ ok (u, n)
        → (w : Bytes) × (bind_loop lib d [] true fuel count out' q ≡ ok (w, n))
    unfolding bind_loop
    bind_loop-describe_of args fuel count out out' [] h = (out', ground arith)
    bind_loop-describe_of args zero count out out' (c ∷ s) h = cc
    bind_loop-describe_of args (suc fuel) count out out' (c ∷ s) h =
        let (t, read, h') = >>=-eq-ok (next_token d count c s) _ h in
        let (text, wrote, h'') = >>=-eq-ok (write_token lib args false t) _ h' in
        let (text', wrote') = write_token-describe [] t in
        let (w, e) =
          bind_loop-describe_of args fuel t.count (out ++ text) (out' ++ text') t.rest h'' in
        (w, rw (read, wrote') e)

check_count-keeps :
    (args : List Value) (describe : Bool) (u : Bytes) (m : ℕ) {t : Bytes} {n : ℕ}
    → check_count args describe (u, m) ≡ ok (t, n)
    → m ≡ n
check_count-keeps args describe u m h = ground arith

check_count-length :
    (args : List Value) (u : Bytes) (m : ℕ) {t : Bytes} {n : ℕ}
    → check_count args false (u, m) ≡ ok (t, n)
    → length args ≡ n
check_count-length args u m h = ground arith

check_count-passes :
    (args : List Value) (u : Bytes) (m : ℕ)
    → length args ≡ m
    → check_count args false (u, m) ≡ ok (u, m)
check_count-passes args u m h = ground arith

-- A text that is described with `n` parameters is bound by any `n` arguments of the types that
-- `sqlLiteral` supports, and the count returned is `n` again.
pub bind_sql-of_describe :
    (lib : Library) (q : Bytes) (d : Dialect) (args : List Value) {t : Bytes} {n : ℕ}
    → bind_sql lib q d [] true ≡ ok (t, n)
    → length args ≡ n
    → All IsBindable args
    → (out : Bytes) × (bind_sql lib q d args false ≡ ok (out, n))
unfolding bind_sql
bind_sql-of_describe lib q d args {t} {n} h same all =
    let ((u, m), looped, e) = >>=-eq-ok (bind_loop lib d [] true (length q) 0 [] q) _ h in
    let counted = check_count-keeps [] true u m e in
    let (w, done) =
      bind_loop-of_describe lib d args (length q) 0 [] [] q looped (omega arith) all in
    (w, rw (done, ← counted) (check_count-passes args w m (same ∙ sym counted)))

-- Conversely, a text that binds takes exactly the arguments given, and a description of it
-- announces their number.
pub bind_sql-describe_of :
    (lib : Library) (q : Bytes) (d : Dialect) (args : List Value) {out : Bytes} {n : ℕ}
    → bind_sql lib q d args false ≡ ok (out, n)
    → (length args ≡ n) × ((t : Bytes) × (bind_sql lib q d [] true ≡ ok (t, n)))
unfolding bind_sql
bind_sql-describe_of lib q d args {out} {n} h =
    let ((u, m), looped, e) = >>=-eq-ok (bind_loop lib d args false (length q) 0 [] q) _ h in
    let (w, done) = bind_loop-describe_of lib d args (length q) 0 [] [] q looped in
    (check_count-length args u m e, (w, rw (done, ← check_count-keeps args false u m e)))

-- With arguments of the types that `sqlLiteral` supports, a text binds, with the count `n`, just if
-- there are `n` of them and the text is described with `n` parameters: a description neither hides a
-- text that cannot be bound nor refuses one that can, and announces the right number.
pub bind_sql-iff_described :
    (lib : Library) (q : Bytes) (d : Dialect) (args : List Value) (n : ℕ)
    → All IsBindable args
    → ((out : Bytes) × (bind_sql lib q d args false ≡ ok (out, n)))
      ↔ ((length args ≡ n) × ((t : Bytes) × (bind_sql lib q d [] true ≡ ok (t, n))))
bind_sql-iff_described lib q d args n bindable = (
  (λ bound. bind_sql-describe_of lib q d args bound.1),
  (λ described. bind_sql-of_describe lib q d args described.1.1 described.0 bindable),
)
