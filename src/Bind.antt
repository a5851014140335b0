-- ===== src/Bind.antt =====
-- `bindSQL` of pkg/bind.go. The scan below is the loop of `bindSQL`, split in
-- what one round reads (`next_token`) and what it writes (`write_token`).
pub mod SqlLiteral
pub mod Rounds
pub mod Progress
pub mod Describe
pub mod Verbatim
pub mod Literal
pub mod LineComment
use milvus_sql_proxy.Bind.SqlLiteral.{string_literal, sql_literal}
use milvus_sql_proxy.Base.{
  ℕ, zero, suc, ◌+◌, ◌-◌, Bool, true, false, ◌&&◌, ◌||◌, not, List, [], ◌∷◌, ◌++◌, Option, none,
  some, Bytes, codes, length, get_elem?, ltb, ◌==◌, if◌then◌else◌, max, ℤ, pos, negsuc, Result, ok,
  err, ◌>>=◌, ◌>>◌,
}
use milvus_sql_proxy.Error.{
  Error, unterminated_quote, unterminated_comment, backtick_in_postgres, dollar_quoted,
  bad_parameter_number, missing_parameter, expected_parameters, out_of_fuel,
}
use milvus_sql_proxy.Value.{Value, Library}
use milvus_sql_proxy.Decimal.{atoi, is_digit}

pub data Dialect : Type 0 where
  mysql postgres : Dialect

abbrev pub is_mysql : Dialect → Bool
is_mysql mysql = true
is_mysql postgres = false

-- A quoted token behind its opening quote: the text up to and with the closing one, the value
-- that it spells in PostgreSQL, and what follows.
pub record Quoted : Type 0 where
  pub raw : Bytes
  pub value : Bytes
  pub rest : Bytes

abbrev pub extend : Bytes → Bytes → Option Quoted → Option Quoted
extend raw value none = none
extend raw value (some t) = some (record t { raw = raw ++ t.raw; value = value ++ t.value })

-- The inner loop of `bindSQL`; `none` is a token that is never closed.
unfoldable pub scan_quoted : Dialect → ℕ → Bytes → Option Quoted
scan_quoted d quote [] = none
scan_quoted d quote (c ∷ []) =
    if c == quote then some (record { raw = c ∷ []; value = []; rest = [] }) else none
scan_quoted d quote (c ∷ n ∷ s) =
    let doubled = extend (c ∷ n ∷ []) (quote ∷ []) (scan_quoted d quote s) in
    let escaped = extend (c ∷ n ∷ []) [] (scan_quoted d quote s) in
    let plain = extend (c ∷ []) (c ∷ []) (scan_quoted d quote (n ∷ s)) in
    if c == quote
    then if n == quote then doubled else some (record { raw = c ∷ []; value = []; rest = n ∷ s })
    else if c == b'\\' && is_mysql d
    then escaped
    else plain

-- What one round of the outer loop reads. `index` is 0 where the text goes out as it is, and
-- else the number of the parameter that takes its place; `count` is the counter after it.
pub record Token : Type 0 where
  pub text : Bytes
  pub index : ℕ
  pub count : ℕ
  pub rest : Bytes

abbrev pub literal_text : ℕ → Bytes → Bytes → Token
literal_text count text rest = record { text = text; index = 0; count = count; rest = rest }

abbrev pub parameter : ℕ → ℕ → Bytes → Token
parameter index count rest = record { text = []; index = index; count = count; rest = rest }

-- `strings.ReplaceAll(s, "`", "``")`.
unfoldable pub double_backticks : Bytes → Bytes
double_backticks [] = []
double_backticks (c ∷ s) =
    if c == b'`' then b'`' ∷ b'`' ∷ double_backticks s else c ∷ double_backticks s

-- A closed quoted token on the way out.
unfoldable pub quoted_token : Dialect → ℕ → ℕ → Quoted → Result Error Token
unfolding double_backticks string_literal
quoted_token mysql quote count t = ok (literal_text count (quote ∷ t.raw) t.rest)
quoted_token postgres quote count t =
    if quote == b'"'
    then ok (literal_text count (b'`' ∷ (double_backticks t.value ++ b'`' ∷ [])) t.rest)
    else if quote == b'\''
    then ok (literal_text count (string_literal t.value) t.rest)
    else err backtick_in_postgres

abbrev pub close_quoted : Dialect → ℕ → ℕ → Option Quoted → Result Error Token
close_quoted d quote count none = err unterminated_quote
close_quoted d quote count (some t) = quoted_token d quote count t

-- The text up to and with the first newline, or all of it, and what follows.
unfoldable pub split_line : Bytes → Bytes × Bytes
split_line [] = ([], [])
split_line (c ∷ s) =
    let rest = split_line s in if c == b'\n' then (c ∷ [], s) else (c ∷ rest.0, rest.1)

-- The text up to and with the first `*/`, and what follows.
abbrev pub extend_comment : ℕ → Option (Bytes × Bytes) → Option (Bytes × Bytes)
extend_comment c none = none
extend_comment c (some (text, rest)) = some (c ∷ text, rest)

unfoldable pub split_comment : Bytes → Option (Bytes × Bytes)
split_comment [] = none
split_comment (c ∷ []) = none
split_comment (c ∷ n ∷ s) =
    let later = extend_comment c (split_comment (n ∷ s)) in
    if c == b'*' && n == b'/' then some (c ∷ n ∷ [], s) else later

abbrev pub comment_token : ℕ → Option (Bytes × Bytes) → Result Error Token
comment_token count none = err unterminated_comment
comment_token count (some (text, rest)) = ok (literal_text count (codes "/*" ++ text) rest)

-- The digits behind a `$`, and what follows them.
unfoldable pub split_digits : Bytes → Bytes × Bytes
split_digits [] = ([], [])
split_digits (c ∷ s) =
    let rest = split_digits s in if is_digit c then (c ∷ rest.0, rest.1) else ([], c ∷ s)

abbrev pub numbered : ℕ → Option ℤ → Bytes → Result Error Token
numbered count none rest = err bad_parameter_number
numbered count (some (negsuc n)) rest = err bad_parameter_number
numbered count (some (pos n)) rest =
    if ltb n 1 || ltb 65535 n then err bad_parameter_number else ok (parameter n (max count n) rest)

unfoldable pub dollar_token : ℕ → Bytes × Bytes → Result Error Token
dollar_token count ([], rest) = err dollar_quoted
dollar_token count (c ∷ digits, rest) = numbered count (atoi (c ∷ digits)) rest

-- The next byte of a text is `c`.
abbrev pub next_is : ℕ → Bytes → Bool
next_is c [] = false
next_is c (n ∷ s) = n == c

abbrev pub is_quote : ℕ → Bool
is_quote c = c == b'\'' || c == b'"' || c == b'`'

abbrev pub line_token : ℕ → Bytes × Bytes → Token
line_token count (text, rest) = literal_text count text rest

abbrev pub tail : Bytes → Bytes
tail [] = []
tail (c ∷ s) = s

unfoldable pub next_token : Dialect → ℕ → ℕ → Bytes → Result Error Token
unfolding quoted_token scan_quoted split_line split_comment split_digits dollar_token
next_token d count c s =
    if is_quote c
    then close_quoted d c count (scan_quoted d c s)
    else if c == b'-' && next_is b'-' s
    then ok (line_token count (split_line (c ∷ s)))
    else if c == b'/' && next_is b'*' s
    then comment_token count (split_comment (tail s))
    else if is_mysql d && c == b'?'
    then ok (parameter (count + 1) (count + 1) s)
    else if not (is_mysql d) && c == b'$'
    then dollar_token count (split_digits s)
    else ok (literal_text count (c ∷ []) s)

-- An index is at least 1 here, so the argument is missing just where `idx > len(args)`.
abbrev pub argument_literal : Library → ℕ → Option Value → Result Error Bytes
argument_literal lib index none = err (missing_parameter index)
argument_literal lib index (some v) = sql_literal lib v

unfoldable pub write_token : Library → List Value → Bool → Token → Result Error Bytes
write_token lib args describe t =
    if t.index == 0
    then ok t.text
    else if describe
    then ok (codes "0")
    else argument_literal lib t.index (get_elem? args (t.index - 1))

-- `for i < len(q)`, on fuel, with the builder's text and the counter as its variables.
unfoldable pub bind_loop :
    Library → Dialect → List Value → Bool → ℕ → ℕ → Bytes → Bytes → Result Error (Bytes × ℕ)
bind_loop lib d args describe fuel count out [] = ok (out, count)
bind_loop lib d args describe zero count out (c ∷ s) = err out_of_fuel
bind_loop lib d args describe (suc fuel) count out (c ∷ s) = do
  t ← next_token d count c s
  text ← write_token lib args describe t
  bind_loop lib d args describe fuel t.count (out ++ text) t.rest

-- The test behind the loop.
abbrev pub check_count : List Value → Bool → Bytes × ℕ → Result Error (Bytes × ℕ)
check_count args describe (out, count) =
    if not describe && not (count == length args)
    then err (expected_parameters count (length args))
    else ok (out, count)

-- Each round reads at least one byte, so that the length of the query is fuel enough.
unfoldable pub bind_sql : Library → Bytes → Dialect → List Value → Bool → Result Error (Bytes × ℕ)
unfolding bind_loop next_token write_token
bind_sql lib q d args describe = do
  done ← bind_loop lib d args describe (length q) 0 [] q
  check_count args describe done
