-- ===== src/Decimal/RoundTrip.antt =====
-- Every integer in range is read back from its decimal text.
use native.Mathlib.Nat.{one-le-pow}
use milvus_sql_proxy.Base.{
  ℕ, zero, suc, ◌+◌, ◌-◌, ◌/◌, ◌%◌, ◌^◌, ◌≤◌, ◌<◌, ◌≢◌, inl, inr, true, ◌≡◌, refl, [], ◌∷◌, Option,
  none, some, Bytes, ◌==◌, ℤ, pos, negsuc, arith, All, Bool-cases, ◌∙◌,
}
use milvus_sql_proxy.Decimal.{
  emit, format_uint, format_int, scan, parse_uint, parse_int, parse_positive, parse_negative,
  is_digit,
}

scan-emit : (fuel n : ℕ) (out : Bytes) → n ≤ fuel → scan (emit fuel n out) 0 ≡ scan out n
unfolding emit scan
scan-emit zero n out h = ground arith
scan-emit (suc fuel) n out h = ground (arith, scan-emit fuel (n / 10) ((b'0' + n % 10) ∷ out))

-- Nothing but digits stands in the text.
emit-digits :
    (fuel n : ℕ) (out : Bytes)
    → All (λ c. is_digit c ≡ true) out
    → All (λ c. is_digit c ≡ true) (emit fuel n out)
unfolding emit
emit-digits zero n out h = h
emit-digits (suc fuel) n out h = ground (arith, emit-digits fuel (n / 10) ((b'0' + n % 10) ∷ out))

emit-ne-nil : (fuel n : ℕ) (out : Bytes) → out ≢ [] → emit fuel n out ≢ []
unfolding emit
emit-ne-nil zero n out h = h
emit-ne-nil (suc fuel) n out h = ground (arith, emit-ne-nil fuel (n / 10) ((b'0' + n % 10) ∷ out))

pub format_uint-digits : (n : ℕ) → All (λ c. is_digit c ≡ true) (format_uint n)
unfolding format_uint
format_uint-digits n = ground (arith, emit-digits n n [] tt)

pub format_uint-ne-nil : (n : ℕ) → format_uint n ≢ []
unfolding format_uint emit
format_uint-ne-nil zero e = cc
format_uint-ne-nil (suc n) e =
    emit-ne-nil n (suc n / 10) ((b'0' + suc n % 10) ∷ []) (λ q. cc) (ground arith)

pub parse_uint-format_uint : (n : ℕ) → parse_uint (format_uint n) ≡ some n
parse_uint-format_uint n = by_cons (format_uint n) (format_uint-ne-nil n) ∙ scanned n
  where
    by_cons : (s : Bytes) → s ≢ [] → parse_uint s ≡ scan s 0
    by_cons [] h = absurd (h refl)
    by_cons (c ∷ s) h = unfold parse_uint in refl

    scanned : (n : ℕ) → scan (format_uint n) 0 ≡ some n
    scanned n = unfold format_uint scan in ground (arith, scan-emit n n [])

parse_int-digits :
    (bits : ℕ) (s : Bytes)
    → All (λ c. is_digit c ≡ true) s
    → s ≢ []
    → parse_int bits s ≡ parse_positive bits (parse_uint s)
unfolding parse_int
parse_int-digits bits [] h ne = absurd (ne refl)
parse_int-digits bits (c ∷ s) h ne = ground arith

-- The integers of `bits` bits.
abbrev pub Fits : ℕ → ℤ → Type 0
Fits bits (pos n) = n < 2 ^ (bits - 1)
Fits bits (negsuc n) = n < 2 ^ (bits - 1)

-- A signed integer that fits in `bits` bits is read back from its decimal text by `ParseInt`.
pub parse_int-format_int : (bits : ℕ) (i : ℤ) → Fits bits i → parse_int bits (format_int i) ≡ some i
unfolding format_int
parse_int-format_int bits (pos n) h =
    parse_int-digits bits (format_uint n) (format_uint-digits n) (format_uint-ne-nil n)
    ∙ rw parse_uint-format_uint (ground arith)
parse_int-format_int bits (negsuc n) h =
    unfold parse_int in rw parse_uint-format_uint (ground arith)

parse_positive-Fits :
    (bits : ℕ) (o : Option ℕ) {i : ℤ} → parse_positive bits o ≡ some i → Fits bits i
parse_positive-Fits bits none e = cc
parse_positive-Fits bits (some n) e = ground arith

parse_negative-Fits :
    (bits : ℕ) (o : Option ℕ) {i : ℤ} → parse_negative bits o ≡ some i → Fits bits i
parse_negative-Fits bits none e = cc
parse_negative-Fits bits (some zero) e = ground (arith, one-le-pow (bits - 1) 2 (omega arith))
parse_negative-Fits bits (some (suc n)) e = ground arith

-- What `ParseInt` returns fits in the bits that it was asked for.
pub parse_int-Fits : (bits : ℕ) (s : Bytes) {i : ℤ} → parse_int bits s ≡ some i → Fits bits i
unfolding parse_int
parse_int-Fits bits [] h = cc
parse_int-Fits bits (c ∷ s) h = elim (Bool-cases (c == b'-')) [
  | inl minus ↦ parse_negative-Fits bits (parse_uint s) (rw minus at h)
  | inr other ↦ elim (Bool-cases (c == b'+')) [
    | inl plus ↦ parse_positive-Fits bits (parse_uint s) (rw (other, plus) at h)
    | inr digit ↦ parse_positive-Fits bits (parse_uint (c ∷ s)) (rw (other, digit) at h)
  ]
]
