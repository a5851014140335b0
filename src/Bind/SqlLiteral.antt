-- ===== src/Bind/SqlLiteral.antt =====
-- `sqlLiteral` of pkg/bind.go: the text that an argument is bound as.
use milvus_sql_proxy.Base.{
  ℕ, true, false, [], ◌∷◌, ◌++◌, Bytes, codes, ◌==◌, if◌then◌else◌, Result, ok, err,
}
use milvus_sql_proxy.Error.{Error, unsupported_parameter_type}
use milvus_sql_proxy.Value.{
  Value, null, bool, signed, unsigned, float32, float64, vector, bytes, string, unknown, Library,
}
use milvus_sql_proxy.Decimal.{format_int, format_uint}

-- What the replacer of `sqlLiteral` writes for one byte.
unfoldable pub escape_byte : ℕ → Bytes
escape_byte c =
    if c == b'\\'
    then b'\\' ∷ b'\\' ∷ []
    else if c == b'\''
    then b'\\' ∷ b'\'' ∷ []
    else if c == 0
    then b'\\' ∷ b'0' ∷ []
    else c ∷ []

unfoldable pub escape : Bytes → Bytes
unfolding escape_byte
escape [] = []
escape (c ∷ s) = escape_byte c ++ escape s

unfoldable pub string_literal : Bytes → Bytes
string_literal s = b'\'' ∷ (escape s ++ b'\'' ∷ [])

unfoldable pub sql_literal : Library → Value → Result Error Bytes
unfolding string_literal escape format_int
sql_literal lib null = ok (codes "null")
sql_literal lib (string s) = ok (string_literal s)
sql_literal lib (bytes s) = ok (string_literal s)
sql_literal lib (bool true) = ok (codes "true")
sql_literal lib (bool false) = ok (codes "false")
sql_literal lib (signed k i) = ok (format_int i)
sql_literal lib (unsigned k n) = ok (format_uint n)
sql_literal lib (float32 f) = ok (lib.sprint_float32 f)
sql_literal lib (float64 f) = ok (lib.sprint_float64 f)
sql_literal lib (vector v) = err unsupported_parameter_type
sql_literal lib unknown = err unsupported_parameter_type
