-- ===== src/Postgres/Connection/Prepares.antt =====
-- What a whole connection that runs nothing does to the Milvus service.
use milvus_sql_proxy.Base.{
  Bool-cases, inl, inr, List, Bytes, codes, Option, none, some, Result, ok, err, All,
}
use milvus_sql_proxy.Base.Exec.Keeps.{Keeps, continue-Keeps}
use milvus_sql_proxy.Error.{Error}
use milvus_sql_proxy.Resultset.{QueryResult}
use milvus_sql_proxy.Session.{ClientConn, Clients, new_session}
use milvus_sql_proxy.Query.{Backends}
use milvus_sql_proxy.Query.Handlers.{handle_use_db}
use milvus_sql_proxy.Parameters.{Syntax}
use milvus_sql_proxy.Postgres.Messages.{Frontend}
use milvus_sql_proxy.Postgres.Startup.{
  Startup, startup_message, Authentication, password_message, other_authentication, Greeting, Hello,
  Credentials, used, open_session, authenticate, greet, start, has_credentials, parameter_of,
  database_of, receive_startup,
}
use milvus_sql_proxy.Postgres.Startup.Prepares.{Prepares, serve-Behind}
use milvus_sql_proxy.Postgres.Connection.{new_conn, serve_session, serve_postgres}

-- What is kept by the making, the use and the closing of a Milvus client, and by the one call that
-- describes a collection.
pub record KeepsConnecting {W C : Type 0} (Q : W → Type 0) (b : Backends W C) (clients : Clients W)
    : Type 0 where
  pub new_client : Keeps Q clients.new_client
  pub using_database : (name : Bytes) → Keeps Q (b.milvus.using_database name)
  pub describe_collection : (table : Bytes) → Keeps Q (b.milvus.reads.describe_collection table)
  pub close_client : (w : W) → Q w → Q (clients.close_client w)

module _ {W C : Type 0} (Q : W → Type 0) (b : Backends W C) (syntax : Syntax) (clients : Clients W)
    (k : KeepsConnecting Q b clients) where
  used-Keeps :
      (sent : List Greeting) (x : Result Error (ClientConn × QueryResult) × W)
      → Q x.1
      → Q (used b clients sent x).world
  used-Keeps sent (err e, w) h = k.close_client w h
  used-Keeps sent (ok (c, r), w) h = h

  handle_use_db-Keeps : (c : ClientConn) (name : Bytes) → Keeps Q (handle_use_db b.milvus c name)
  unfolding handle_use_db
  handle_use_db-Keeps c name w h =
      continue-Keeps Q _ _ (λ done w' h'. h') (k.using_database name w h)

  open_session-Keeps :
      (sent : List Greeting) (params : List (Bytes × Bytes)) (x : Result Error (Unit {0}) × W)
      → Q x.1
      → Q (open_session b clients sent params x).world
  open_session-Keeps sent params (err e, w) h = h
  open_session-Keeps sent params (ok done, w) h =
      used-Keeps sent _
        (handle_use_db-Keeps new_session (database_of (parameter_of params (codes "database"))) w h)

  authenticate-Keeps :
      (cfg : Credentials) (sent : List Greeting) (params : List (Bytes × Bytes))
      (auth : Option Authentication) (w : W)
      → Q w
      → Q (authenticate b clients cfg sent params auth w).world
  authenticate-Keeps cfg sent params none w h = h
  authenticate-Keeps cfg sent params (some other_authentication) w h = h
  authenticate-Keeps cfg sent params (some (password_message password)) w h =
      elim (Bool-cases (has_credentials cfg params password)) [
        | inl good ↦ rw good (open_session-Keeps sent params _ (k.new_client w h))
        | inr bad ↦ rw bad h
      ]

  greet-Keeps :
      (cfg : Credentials) (auth : Option Authentication) (sent : List Greeting)
      (first : Option Startup) (w : W)
      → Q w
      → Q (greet b clients cfg auth (sent, first) w).world
  greet-Keeps cfg auth sent (some (startup_message params)) w h =
      authenticate-Keeps cfg _ params auth w h
  greet-Keeps cfg auth sent none w h = h
  greet-Keeps cfg auth sent (some _) w h = h

  start-Keeps : (cfg : Credentials) (h : Hello) (w : W) → Q w → Q (start b clients cfg h w).world
  unfolding start
  start-Keeps cfg h w q =
      greet-Keeps cfg h.authentication (receive_startup cfg.tls h).0 (receive_startup cfg.tls h).1 w
        q

  serve_session-Keeps :
      (greeted : List Greeting) (msgs : List Frontend) (w : W) (session : Option ClientConn)
      → All Prepares msgs
      → Q w
      → Q (serve_session b syntax clients greeted msgs w session).world
  serve_session-Keeps greeted msgs w none only h = h
  serve_session-Keeps greeted msgs w (some c) only h =
      k.close_client _
        (serve-Behind Q b syntax k.describe_collection b.library msgs (new_conn (c, w)) only h)

  -- A client that runs nothing changes nothing. Whatever the handshake comes to, and whatever
  -- statements a client prepares, describes, binds and closes behind it, with whatever errors, the
  -- whole connection keeps each property of the Milvus service that these four keep: making a
  -- client, `UsingDatabase`, `DescribeCollection` and closing a client. No message is a Query or an
  -- Execute.
  pub serve_postgres-Keeps :
      (cfg : Credentials) (h : Hello) (msgs : List Frontend) (w : W)
      → All Prepares msgs
      → Q w
      → Q (serve_postgres b syntax clients cfg h msgs w).world
  unfolding serve_postgres
  serve_postgres-Keeps cfg h msgs w only q =
      let g = start b clients cfg h w in
      serve_session-Keeps g.sent msgs g.world g.session only (start-Keeps cfg h w q)
