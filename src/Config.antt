-- ===== src/Config.antt =====
-- pkg/config.go: `Config.defaults` and the reading of a file, whose bytes and YAML are parameters.
pub mod Complete
use milvus_sql_proxy.Base.{
  Bool, true, false, not, ◌||◌, [], ◌∷◌, Bytes, codes, equal, ℤ, pos, negsuc, Result, ok, ◌>>=◌,
  ◌>>◌, refuse, zero,
}
use milvus_sql_proxy.Error.{Error, bad_mode, bad_timeout, bad_tls_pair}
use milvus_sql_proxy.Ast.{is_blank}

-- The Milvus service of a configuration.
pub record MilvusConfig : Type 0 where
  pub address : Bytes
  pub username : Bytes
  pub password : Bytes
  pub enable_tls_auth : Bool
  pub api_key : Bytes

pub record Config : Type 0 where
  pub mode : Bytes
  pub postgres_addr : Bytes
  pub user : Bytes
  pub password : Bytes
  pub tls_cert : Bytes
  pub tls_key : Bytes
  pub query_timeout_seconds : ℤ
  pub addr : Bytes
  pub milvus : MilvusConfig
  pub log_level : Bytes
  pub log_path : Bytes

abbrev pub or_default : Bytes → Bytes → Bytes
or_default [] s = s
or_default (c ∷ t) s = c ∷ t

abbrev pub default_timeout : ℤ → ℤ
default_timeout (pos zero) = pos 30
default_timeout i = i

abbrev pub is_negative : ℤ → Bool
is_negative (pos n) = false
is_negative (negsuc n) = true

abbrev pub is_mode : Bytes → Bool
is_mode s = equal s (codes "mysql") || equal s (codes "postgres") || equal s (codes "both")

-- `(c.TLSCert == "") != (c.TLSKey == "")`
abbrev pub differ : Bool → Bool → Bool
differ true b = not b
differ false b = b

unfoldable pub defaults : Config → Result Error Config
unfolding equal
defaults c = do
  let mode = or_default c.mode (codes "mysql")
  refuse (not (is_mode mode)) bad_mode
  let timeout = default_timeout c.query_timeout_seconds
  refuse (is_negative timeout) bad_timeout
  refuse (differ (is_blank c.tls_cert) (is_blank c.tls_key)) bad_tls_pair
  ok (record c {
    mode = mode;
    addr = or_default c.addr (codes "127.0.0.1:3306");
    postgres_addr = or_default c.postgres_addr (codes "127.0.0.1:5432");
    user = or_default c.user (codes "root");
    query_timeout_seconds = timeout;
  })

-- `ParseConfigData`, with `yaml.Unmarshal` into an empty configuration.
unfoldable pub parse_config_data : (Bytes → Result Error Config) → Bytes → Result Error Config
unfolding defaults
parse_config_data unmarshal text = do cfg ← unmarshal text; defaults cfg

-- `ParseConfigFile`, with `ioutil.ReadFile`.
unfoldable pub parse_config_file :
    (Bytes → Result Error Config) → (Bytes → Result Error Bytes) → Bytes → Result Error Config
unfolding parse_config_data
parse_config_file unmarshal read_file name = do
  text ← read_file name
  parse_config_data unmarshal text
