-- ===== src/Tests/Startup.antt =====
-- Runs of the PostgreSQL handshake.
use milvus_sql_proxy.Base.{false, true, ◌≡◌, refl, List, [], ◌∷◌, Bytes, codes, equal, some}
use milvus_sql_proxy.Postgres.Dictionary.{lookup}
use milvus_sql_proxy.Postgres.Startup.{
  ssl_request, startup_message, password_message, Hello, Credentials,
}
use milvus_sql_proxy.Postgres.Startup.Guard.{admits}
use milvus_sql_proxy.Postgres.Connection.{serve_postgres}
use milvus_sql_proxy.Postgres.Connection.Prepares.{KeepsConnecting, serve_postgres-Keeps}
use milvus_sql_proxy.Postgres.Messages.{
  statement, portal, Frontend, parse, describe, bind, close, sync,
}
use milvus_sql_proxy.Tests.Session.{ReadsOnly, read_described, syntax}
use milvus_sql_proxy.Tests.World.{backends, clients}

abbrev pub credentials : Credentials
credentials = record { user = codes "root"; password = codes "secret"; tls = false }

abbrev pub parameters : List (Bytes × Bytes)
parameters = (codes "user", codes "root") ∷ (codes "database", codes "sales") ∷ []

abbrev pub hello : Bytes → Hello
hello password = record {
  first = some ssl_request;
  handshake = false;
  second = some (startup_message parameters);
  authentication = some (password_message password);
}

pub wrong : admits credentials (hello (codes "guess")) ≡ false
unfolding admits equal lookup
wrong = refl

pub right : admits credentials (hello (codes "secret")) ≡ true
unfolding admits equal lookup
right = refl

-- A client prepares a statement, binds it and describes the portal.
abbrev preparation : List Frontend
preparation =
    parse (codes "s") (codes "drop table people") []
    ∷ bind (codes "p") (codes "s") [] [] []
    ∷ describe portal (codes "p")
    ∷ close statement (codes "s")
    ∷ sync
    ∷ []

connecting : KeepsConnecting ReadsOnly backends clients
unfolding equal
connecting = record {
  new_client = λ w h. h;
  using_database = λ name w h. h;
  describe_collection = read_described;
  close_client = λ w h. h;
}

serve_postgres-Keeps_example :
    ReadsOnly
      (serve_postgres backends syntax clients credentials
        (hello (codes "secret"))
        preparation
        []).world
serve_postgres-Keeps_example =
    serve_postgres-Keeps ReadsOnly backends syntax clients connecting credentials
      (hello (codes "secret")) preparation [] (tt, (tt, (tt, (tt, (tt, tt))))) refl
