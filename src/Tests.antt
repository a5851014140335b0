-- ===== src/Tests.antt =====
-- Concrete runs. The library here is a stand-in for Go's: floats print and parse alike, and every
-- JSON array is `[1]`.
pub mod Bind
pub mod Select
pub mod Insert
pub mod Config
pub mod Postgres
pub mod Values
pub mod World
pub mod Ddl
pub mod Server
pub mod Session
pub mod Startup
pub mod Main
pub mod Connections
use milvus_sql_proxy.Base.{ℕ, true, false, List, [], ◌∷◌, ◌++◌, Bytes, codes, some}
use milvus_sql_proxy.Value.{Library}

abbrev pub library : Library
library = record {
  sprint_float32 = λ f. codes "1.5";
  sprint_float64 = λ f. codes "1.5";
  sprint_composite = λ v. codes "[]";
  append_float = λ f. codes "1.5";
  widen = λ f. f;
  narrow = λ f. f;
  parse_float = λ bits s. some 0;
  is_non_finite = λ f. false;
  quote = λ s. codes "\"" ++ (s ++ codes "\"");
  json_valid = λ s. true;
  json_raw_array = λ s. some (codes "1" ∷ []);
  json_float32_array = λ s. some (1 ∷ []);
  json_marshal_floats = λ v. some (codes "[1]");
}
