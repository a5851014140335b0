-- ===== src/Tests/Config.antt =====
-- A run of the defaults of a configuration.
use milvus_sql_proxy.Base.{false, ◌≡◌, refl, [], codes, equal, ok, pos}
use milvus_sql_proxy.Config.{Config, MilvusConfig, defaults}
use milvus_sql_proxy.Config.Complete.{IsComplete, defaults_settled}

abbrev pub local_milvus : MilvusConfig
local_milvus = record {
  address = codes "localhost:19530";
  username = [];
  password = [];
  enable_tls_auth = false;
  api_key = [];
}

abbrev pub blank : Config
blank = record {
  mode = [];
  addr = [];
  postgres_addr = [];
  user = [];
  query_timeout_seconds = pos 0;
  tls_cert = [];
  tls_key = [];
  password = [];
  milvus = local_milvus;
  log_level = [];
  log_path = [];
}

abbrev pub completed : Config
completed = record {
  mode = codes "mysql";
  addr = codes "127.0.0.1:3306";
  postgres_addr = codes "127.0.0.1:5432";
  user = codes "root";
  query_timeout_seconds = pos 30;
  tls_cert = [];
  tls_key = [];
  password = [];
  milvus = local_milvus;
  log_level = [];
  log_path = [];
}

defaulted : defaults blank ≡ ok completed
unfolding defaults equal
defaulted = refl

defaults_settled_example : IsComplete completed × (defaults completed ≡ ok completed)
defaults_settled_example = defaults_settled blank completed defaulted
