-- ===== src/Server/Goroutine.antt =====
-- The goroutine that `serve` starts for a connection: it is served in the mode of the listener, and
-- then what is deferred runs, also if serving it panics.
pub mod Restores
use milvus_sql_proxy.Base.{ℕ, not, List, Bytes, codes, equal, if◌then◌else◌}
use milvus_sql_proxy.Ast.{is_blank}
use milvus_sql_proxy.Config.{Config}
use milvus_sql_proxy.Session.{ClientConn, Clients}
use milvus_sql_proxy.Query.{Backends}
use milvus_sql_proxy.Parameters.{Syntax}
use milvus_sql_proxy.Mysql.{BuildRows}
use milvus_sql_proxy.Mysql.Connection.{Protocol, serve_mysql}
use milvus_sql_proxy.Postgres.Messages.{Frontend}
use milvus_sql_proxy.Postgres.Startup.{Hello, Credentials}
use milvus_sql_proxy.Postgres.Connection.{serve_postgres}
use milvus_sql_proxy.Server.{Server, unregister, finish}

-- What a client sends, as either protocol reads it.
pub record Input (P : Type 0) : Type 0 where
  pub hello : Hello
  pub messages : List Frontend
  pub packets : List P

-- The fields of `s.cfg` that `servePostgres` reads, and whether there is `s.tlsConfig`.
abbrev pub credentials_of : Config → Credentials
credentials_of cfg = record {
  user = cfg.user;
  password = cfg.password;
  tls = not (is_blank cfg.tls_cert);
}

module _ {W C K P : Type 0} (b : Backends W C) (syntax : Syntax) (build : BuildRows)
    (clients : Clients W) (protocol : Protocol (ClientConn × W) K P) where
  -- The Milvus service, once the connection is served.
  abbrev pub serve_conn : Config → Bytes → Input P → W → W
  serve_conn cfg mode input w =
      if equal mode (codes "postgres")
      then (serve_postgres b syntax clients (credentials_of cfg) input.hello input.messages w).world
      else serve_mysql b build clients protocol cfg input.packets w

  -- The functions that are deferred, the last one first.
  unfoldable pub goroutine : Config → Bytes → ℕ → Input P → W × Server → W × Server
  unfolding serve_postgres serve_mysql unregister finish
  goroutine cfg mode i input (w, s) = (serve_conn cfg mode input w, finish i (unregister i s))
