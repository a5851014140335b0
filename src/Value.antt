-- ===== src/Value.antt =====
-- The dynamic values that travel through the proxy: query parameters, converted literals and
-- the cells of a result. Floats are their IEEE 754 bit patterns.
use milvus_sql_proxy.Base.{ℕ, Bool, List, Bytes, Option, ℤ}

pub data IntType : Type 0 where
  int8 int16 int32 int64 int : IntType

pub data UintType : Type 0 where
  uint8 uint16 uint32 uint64 uint : UintType

-- An `interface{}`; `unknown` stands for any type that no switch of the package names.
pub data Value : Type 0 where
  null : Value
  bool : Bool → Value
  signed : IntType → ℤ → Value
  unsigned : UintType → ℕ → Value
  float32 float64 : ℕ → Value
  vector : List ℕ → Value
  bytes string : Bytes → Value
  unknown : Value

-- What the model takes from Go's standard library without a definition of its own: decimal
-- floats, Go string quoting, and JSON.
pub record Library : Type 0 where
  -- `fmt.Sprint` of a float32 and of a float64
  pub sprint_float32 : ℕ → Bytes
  pub sprint_float64 : ℕ → Bytes
  -- `fmt.Sprint` of a value that is no number, boolean or string
  pub sprint_composite : Value → Bytes
  -- `strconv.AppendFloat(nil, v, 'f', -1, 64)`
  pub append_float : ℕ → Bytes
  -- `float64(v)` of a float32 and `float32(v)` of a float64
  pub widen : ℕ → ℕ
  pub narrow : ℕ → ℕ
  -- `strconv.ParseFloat(s, bits)`; the result is a float64
  pub parse_float : ℕ → Bytes → Option ℕ
  -- `math.IsNaN(v) || math.IsInf(v, 0)`
  pub is_non_finite : ℕ → Bool
  -- `strconv.Quote`
  pub quote : Bytes → Bytes
  -- `json.Valid`, and `json.Unmarshal` into `[]json.RawMessage` and into `[]float32`
  pub json_valid : Bytes → Bool
  pub json_raw_array : Bytes → Option (List Bytes)
  pub json_float32_array : Bytes → Option (List ℕ)
  -- `json.Marshal` of a `[]float32`, which fails on a value that is not finite
  pub json_marshal_floats : List ℕ → Option Bytes
