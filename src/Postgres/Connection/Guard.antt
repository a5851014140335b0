-- ===== src/Postgres/Connection/Guard.antt =====
-- Whose messages are served.
use milvus_sql_proxy.Base.{false, ◌≡◌, refl, List, [], some, none, Option}
use milvus_sql_proxy.Session.{Clients, ClientConn}
use milvus_sql_proxy.Query.{Backends}
use milvus_sql_proxy.Parameters.{Syntax}
use milvus_sql_proxy.Postgres.Messages.{Frontend}
use milvus_sql_proxy.Postgres.Startup.{Hello, Credentials, Greeted, start}
use milvus_sql_proxy.Postgres.Startup.Guard.{admits, says_ok, start-IsTurnedAway}
use milvus_sql_proxy.Postgres.Connection.{Served, serve_session, serve_postgres}

-- A connection that serves no message and calls nothing of the Milvus service.
pub record IsRefused {W : Type 0} (w : W) (x : Served W) : Type 0 where
  pub silent : x.sent ≡ []
  pub world : x.world ≡ w
  pub not_ok : says_ok x.greeted ≡ false

module _ {W C : Type 0} (b : Backends W C) (syntax : Syntax) (clients : Clients W) where
  session-IsRefused :
      (g : Greeted W) (session : Option ClientConn) (msgs : List Frontend) (w : W)
      → session ≡ none
      → g.world ≡ w
      → says_ok g.sent ≡ false
      → IsRefused w (serve_session b syntax clients g.sent msgs g.world session)
  session-IsRefused g none msgs w e same quiet = record {
    silent = refl;
    world = same;
    not_ok = quiet;
  }
  session-IsRefused g (some c) msgs w e same quiet = cc

  -- A client that does not name the user and the password of the configuration, in a startup
  -- message and in a password message, gets no AuthenticationOk; none of the messages that it sends
  -- behind them is answered, and it causes no call of the Milvus service, not even a new client.
  pub serve_postgres-IsRefused :
      (cfg : Credentials) (h : Hello) (msgs : List Frontend) (w : W)
      → admits cfg h ≡ false
      → IsRefused w (serve_postgres b syntax clients cfg h msgs w)
  unfolding serve_postgres
  serve_postgres-IsRefused cfg h msgs w refused =
      let away = start-IsTurnedAway b clients cfg h w refused in
      let g = start b clients cfg h w in
      session-IsRefused g g.session msgs w away.session away.world away.silent
