-- ===== src/Wire.antt =====
-- The value encodings of pkg/postgres.go: formats, type OIDs, parameters, cells, command tags.
-- `strings.Fields` and `strings.TrimSpace` are modelled on ASCII white space, and
-- `strings.ToUpper` on ASCII letters. Format codes are the 16 bits of an int16.
pub mod Tag
pub mod RoundTrip
use milvus_sql_proxy.Base.{
  ℕ, zero, suc, ◌+◌, ◌-◌, ◌*◌, ◌/◌, ◌%◌, ◌^◌, Bool, true, false, ◌&&◌, ◌||◌, List, [], ◌∷◌, ◌++◌,
  Bytes, codes, equal, length, get_elem?, ltb, ◌==◌, Option, none, some, if◌then◌else◌, ℤ, pos,
  negsuc, Result, ok, err, ◌>>=◌, ◌>>◌,
}
use milvus_sql_proxy.Error.{Error, expected_bool, bad_number, bad_binary_parameter}
use milvus_sql_proxy.Decimal.{format_int, format_uint, parse_int}
use milvus_sql_proxy.Value.{
  Value, null, bool, signed, unsigned, float32, float64, string, Library, int16, int32, int64,
}
use milvus_sql_proxy.Resultset.{MysqlType, type_tiny, type_longlong, type_double, format_value}

-- `formatAt`
unfoldable pub format_at : List ℕ → ℕ → ℕ
format_at [] i = 0
format_at (f ∷ []) i = f
format_at (f ∷ g ∷ fs) i = elim (get_elem? (f ∷ g ∷ fs) i) [ none ↦ 0 | some code ↦ code ]

abbrev pub all_codes : List ℕ → Bool
all_codes [] = true
all_codes (f ∷ fs) = (f == 0 || f == 1) && all_codes fs

-- `validFormats`
unfoldable pub valid_formats : List ℕ → ℕ → Bool
valid_formats fs n = (length fs == 0 || length fs == 1 || length fs == n) && all_codes fs

-- `pgOID`
unfoldable pub pg_oid : MysqlType → ℕ
pg_oid type_tiny = 16
pg_oid type_longlong = 20
pg_oid type_double = 701
pg_oid _ = 25

-- `binary.BigEndian`, on `n` bytes; the bits above are dropped.
unfoldable pub big_endian : ℕ → ℕ → Bytes
big_endian zero x = []
big_endian (suc n) x = big_endian n (x / 256) ++ (x % 256) ∷ []

unfoldable pub read_big_endian : ℕ → Bytes → ℕ
read_big_endian acc [] = acc
read_big_endian acc (b ∷ s) = read_big_endian (acc * 256 + b) s

-- The bit pattern of a signed integer, and the integer of a bit pattern.
unfoldable pub to_bits : ℕ → ℤ → ℕ
to_bits bits (pos n) = n % 2 ^ bits
to_bits bits (negsuc n) = (2 ^ bits - (n + 1)) % 2 ^ bits

unfoldable pub of_bits : ℕ → ℕ → ℤ
of_bits bits x = if ltb x (2 ^ (bits - 1)) then pos x else negsuc (2 ^ bits - (x + 1))

-- `fmt.Sprint`
unfoldable pub sprint : Library → Value → Bytes
unfolding format_int
sprint lib null = codes "<nil>"
sprint lib (bool true) = codes "true"
sprint lib (bool false) = codes "false"
sprint lib (signed k i) = format_int i
sprint lib (unsigned k n) = format_uint n
sprint lib (float32 f) = lib.sprint_float32 f
sprint lib (float64 f) = lib.sprint_float64 f
sprint lib (string s) = s
sprint lib v = lib.sprint_composite v

abbrev pub binary_bool : Value → Result Error (Option Bytes)
binary_bool (bool true) = ok (some (1 ∷ []))
binary_bool (bool false) = ok (some (0 ∷ []))
binary_bool _ = err expected_bool

abbrev pub binary_int : Option ℤ → Result Error (Option Bytes)
binary_int none = err bad_number
binary_int (some i) = ok (some (big_endian 8 (to_bits 64 i)))

abbrev pub binary_float : Option ℕ → Result Error (Option Bytes)
binary_float none = err bad_number
binary_float (some bits) = ok (some (big_endian 8 bits))

abbrev pub text_value : Library → Value → Result Error (Option Bytes)
text_value lib v = do text ← format_value lib v; ok (some text)

abbrev encode : Library → Value → ℕ → ℕ → Result Error (Option Bytes)
encode lib v oid format =
    if format == 0
    then text_value lib v
    else if oid == 16
    then binary_bool v
    else if oid == 20
    then binary_int (parse_int 64 (sprint lib v))
    else if oid == 701
    then binary_float (lib.parse_float 64 (sprint lib v))
    else text_value lib v

-- `pgValue`; no bytes at all stand for NULL.
unfoldable pub pg_value : Library → Value → ℕ → ℕ → Result Error (Option Bytes)
unfolding sprint big_endian to_bits
pg_value lib null oid format = ok none
pg_value lib v oid format = encode lib v oid format

-- `strconv.ParseBool`
unfoldable pub parse_bool : Bytes → Option Bool
parse_bool s =
    if equal s (codes "1")
      || equal s (codes "t")
      || equal s (codes "T")
      || equal s (codes "TRUE")
      || equal s (codes "true")
      || equal s (codes "True")
    then some true
    else if equal s (codes "0")
        || equal s (codes "f")
        || equal s (codes "F")
        || equal s (codes "FALSE")
        || equal s (codes "false")
        || equal s (codes "False")
    then some false
    else none

abbrev pub or_bad_number : Option Value → Result Error Value
or_bad_number none = err bad_number
or_bad_number (some v) = ok v

abbrev pub text_parameter : Library → Bytes → ℕ → Result Error Value
text_parameter lib text oid =
    if oid == 16
    then or_bad_number (mapped bool (parse_bool text))
    else if oid == 20 || oid == 21 || oid == 23
    then or_bad_number (mapped (signed int64) (parse_int 64 text))
    else if oid == 700 || oid == 701
    then or_bad_number (mapped float64 (lib.parse_float 64 text))
    else ok (string text)
  where
    mapped : {A : Type 0} → (A → Value) → Option A → Option Value
    mapped f none = none
    mapped f (some a) = some (f a)

abbrev pub binary_parameter : Bytes → ℕ → Result Error Value
binary_parameter text oid =
    if oid == 16 && length text == 1 && ltb (read_big_endian 0 text) 2
    then ok (bool (read_big_endian 0 text == 1))
    else if oid == 20 && length text == 8
    then ok (signed int64 (of_bits 64 (read_big_endian 0 text)))
    else if oid == 23 && length text == 4
    then ok (signed int32 (of_bits 32 (read_big_endian 0 text)))
    else if oid == 21 && length text == 2
    then ok (signed int16 (of_bits 16 (read_big_endian 0 text)))
    else if oid == 701 && length text == 8
    then ok (float64 (read_big_endian 0 text))
    else if oid == 700 && length text == 4
    then ok (float32 (read_big_endian 0 text))
    else if oid == 25 || oid == 1043 || oid == 114
    then ok (string text)
    else err (bad_binary_parameter oid)

-- `pgParameter`
unfoldable pub pg_parameter : Library → Option Bytes → ℕ → ℕ → Result Error Value
unfolding parse_bool read_big_endian of_bits
pg_parameter lib none oid format = ok null
pg_parameter lib (some text) oid format =
    if format == 0 then text_parameter lib text oid else binary_parameter text oid
