-- ===== src/Decimal.antt =====
-- Decimal text: `strconv.Itoa`, `AppendInt`, `AppendUint`, `ParseInt(s, 10, bits)` and `Atoi`,
-- as the proxy uses them. A parse that fails, by its syntax or its range, is `none`.
pub mod RoundTrip
use milvus_sql_proxy.Base.{
  ℕ, zero, suc, ◌+◌, ◌-◌, ◌*◌, ◌/◌, ◌%◌, ◌^◌, Bool, true, false, ◌≡◌, refl, List, [], ◌∷◌, Option,
  none, some, Bytes, codes, between, leb, ltb, ◌==◌, if◌then◌else◌, ℤ, pos, negsuc, neg,
}

-- The digits of `n` before `out`, on fuel; `n` rounds are enough.
unfoldable pub emit : ℕ → ℕ → Bytes → Bytes
emit zero n out = out
emit (suc fuel) n out =
    let more = emit fuel (n / 10) ((b'0' + n % 10) ∷ out) in if n == 0 then out else more

unfoldable pub format_uint : ℕ → Bytes
unfolding emit
format_uint n = if n == 0 then b'0' ∷ [] else emit n n []

unfoldable pub format_int : ℤ → Bytes
unfolding format_uint
format_int (pos n) = format_uint n
format_int (negsuc n) = b'-' ∷ format_uint (suc n)

abbrev pub is_digit : ℕ → Bool
is_digit = between b'0' b'9'

-- The number that the digits spell behind `n`.
unfoldable pub scan : Bytes → ℕ → Option ℕ
scan [] n = some n
scan (c ∷ s) n = if is_digit c then scan s (n * 10 + (c - b'0')) else none

-- At least one digit.
unfoldable pub parse_uint : Bytes → Option ℕ
unfolding scan
parse_uint [] = none
parse_uint (c ∷ s) = scan (c ∷ s) 0

-- The two ranges of a signed integer of `bits` bits.
abbrev pub parse_positive : ℕ → Option ℕ → Option ℤ
parse_positive bits none = none
parse_positive bits (some n) = if ltb n (2 ^ (bits - 1)) then some (pos n) else none

abbrev pub parse_negative : ℕ → Option ℕ → Option ℤ
parse_negative bits none = none
parse_negative bits (some n) = if leb n (2 ^ (bits - 1)) then some (neg n) else none

unfoldable pub parse_int : ℕ → Bytes → Option ℤ
unfolding parse_uint
parse_int bits [] = none
parse_int bits (c ∷ s) =
    if c == b'-'
    then parse_negative bits (parse_uint s)
    else if c == b'+'
    then parse_positive bits (parse_uint s)
    else parse_positive bits (parse_uint (c ∷ s))

-- `strconv.Atoi`, where `int` has 64 bits.
abbrev pub atoi : Bytes → Option ℤ
atoi = parse_int 64
