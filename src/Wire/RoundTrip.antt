-- ===== src/Wire/RoundTrip.antt =====
-- An integer cell of a result, sent back as a parameter, is the same integer.
use native.Mathlib.Nat.{pow-suc}
use milvus_sql_proxy.Base.{
  ℕ, zero, suc, ◌+◌, ◌*◌, ◌/◌, ◌%◌, ◌^◌, ◌<◌, ◌≡◌, refl, [], ◌∷◌, ◌++◌, Bytes, length,
  length-append, arith, ◌∙◌, some, ℤ, pos, negsuc, ok, ◌⊎◌, inl, inr,
}
use milvus_sql_proxy.Decimal.{format_int}
use milvus_sql_proxy.Decimal.RoundTrip.{Fits, parse_int-format_int}
use milvus_sql_proxy.Value.{signed, Library, IntType, int64}
use milvus_sql_proxy.Resultset.{format_value}
use milvus_sql_proxy.Wire.{big_endian, read_big_endian, to_bits, of_bits, pg_value, pg_parameter}

read_big_endian-append :
    (acc : ℕ) (s : Bytes) (b : ℕ)
    → read_big_endian acc (s ++ b ∷ []) ≡ read_big_endian acc s * 256 + b
unfolding read_big_endian
read_big_endian-append acc [] b = refl
read_big_endian-append acc (c ∷ s) b = read_big_endian-append (acc * 256 + c) s b

length-big_endian : (n x : ℕ) → length (big_endian n x) ≡ n
unfolding big_endian
length-big_endian zero x = refl
length-big_endian (suc n) x =
    length-append (big_endian n (x / 256)) (x % 256 ∷ [])
    ∙ omega (arith, length-big_endian n (x / 256))

-- Bytes in network order are read back, as far as they reach.
pub read-big_endian : (n x : ℕ) → x < 256 ^ n → read_big_endian 0 (big_endian n x) ≡ x
unfolding big_endian
read-big_endian zero x h = unfold read_big_endian in omega arith
read-big_endian (suc n) x h =
    let bound : x < 256 ^ n * 256 = rw pow-suc at h in
    read_big_endian-append 0 (big_endian n (x / 256)) (x % 256)
    ∙ omega (arith, read-big_endian n (x / 256) (omega arith))

to_bits-lt : (i : ℤ) → to_bits 64 i < 256 ^ 8
unfolding to_bits
to_bits-lt (pos n) = omega arith
to_bits-lt (negsuc n) = omega arith

of_bits-to_bits : (i : ℤ) → Fits 64 i → of_bits 64 (to_bits 64 i) ≡ i
unfolding of_bits to_bits
of_bits-to_bits (pos n) h = ground arith
of_bits-to_bits (negsuc n) h = ground arith

module _ (lib : Library) (k : IntType) (i : ℤ) (fits : Fits 64 i) where
  sent_binary : pg_value lib (signed k i) 20 1 ≡ ok (some (big_endian 8 (to_bits 64 i)))
  unfolding pg_value
  sent_binary = rw (parse_int-format_int 64 i fits)

  sent_text : pg_value lib (signed k i) 20 0 ≡ ok (some (format_int i))
  unfolding pg_value format_value
  sent_text = refl

  read_binary : pg_parameter lib (some (big_endian 8 (to_bits 64 i))) 20 1 ≡ ok (signed int64 i)
  unfolding pg_parameter
  read_binary = rw (
    length-big_endian 8 (to_bits 64 i),
    read-big_endian 8 (to_bits 64 i) (to_bits-lt i),
    of_bits-to_bits i fits,
  )

  read_text : pg_parameter lib (some (format_int i)) 20 0 ≡ ok (signed int64 i)
  unfolding pg_parameter
  read_text = rw (parse_int-format_int 64 i fits)

  -- What PostgreSQL is sent for an integer of 64 bits or fewer under OID 20, in text or in
  -- binary, is read back by `pgParameter` in the same format as the same integer.
  pub pg_parameter-pg_value :
      (format : ℕ)
      → (format ≡ 0) ⊎ (format ≡ 1)
      → (text : Bytes) × (pg_value lib (signed k i) 20 format ≡ ok (some text))
        × (pg_parameter lib (some text) 20 format ≡ ok (signed int64 i))
  pg_parameter-pg_value format (inl e) = (format_int i, rw e sent_text, rw e read_text)
  pg_parameter-pg_value format (inr e) =
      (big_endian 8 (to_bits 64 i), rw e sent_binary, rw e read_binary)
