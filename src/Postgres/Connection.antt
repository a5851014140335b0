-- ===== src/Postgres/Connection.antt =====
-- `servePostgres` as a whole: the handshake, the message loop, and the `Close` of the session. What
-- the client sends is an input; where it ends, receiving fails.
pub mod Closes
pub mod Guard
pub mod Admission
pub mod Prepares
use milvus_sql_proxy.Base.{false, List, [], Option, none, some}
use milvus_sql_proxy.Session.{ClientConn, Clients}
use milvus_sql_proxy.Query.{Backends}
use milvus_sql_proxy.Parameters.{Syntax}
use milvus_sql_proxy.Postgres.Messages.{Frontend, Backend}
use milvus_sql_proxy.Postgres.Handlers.{Conn}
use milvus_sql_proxy.Postgres.Loop.{Ending, serve}
use milvus_sql_proxy.Postgres.Startup.{Greeting, Hello, Credentials, start, session_of}

-- What was sent before and by the loop, and the Milvus service behind the connection.
pub record Served (W : Type 0) : Type 0 where
  pub greeted : List Greeting
  pub sent : List Backend
  pub world : W

-- The maps of a new connection.
abbrev pub new_conn : {W : Type 0} → W → Conn W
new_conn w = record { statements = []; portals = []; failed = false; world = w }

module _ {W C : Type 0} (b : Backends W C) (syntax : Syntax) (clients : Clients W) where
  -- `defer session.Close()`, behind the loop.
  abbrev pub close_session : List Greeting → List Backend × Ending (ClientConn × W) → Served W
  close_session greeted (sent, e) = record {
    greeted = greeted;
    sent = sent;
    world = clients.close_client (e.conn.world.1);
  }

  abbrev pub serve_session : List Greeting → List Frontend → W → Option ClientConn → Served W
  serve_session greeted msgs w none = record { greeted = greeted; sent = []; world = w }
  serve_session greeted msgs w (some c) =
      close_session greeted (serve b.library (session_of b syntax) msgs (new_conn (c, w)))

  -- `servePostgres`
  unfoldable pub serve_postgres : Credentials → Hello → List Frontend → W → Served W
  unfolding start serve session_of
  serve_postgres cfg h msgs w =
      let g = start b clients cfg h w in serve_session g.sent msgs g.world g.session
