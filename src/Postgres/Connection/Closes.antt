-- ===== src/Postgres/Connection/Closes.antt =====
-- A connection closes the Milvus client that is made for it.
use milvus_sql_proxy.Base.{
  ℕ, suc, ◌≡◌, refl, ◌∙◌, Bool-cases, inl, inr, List, [], ◌∷◌, Bytes, codes, Option, none, some,
  Result, ok, err, All, arith,
}
use milvus_sql_proxy.Error.{Error}
use milvus_sql_proxy.Resultset.{QueryResult}
use milvus_sql_proxy.Base.Exec.{opened}
use milvus_sql_proxy.Session.{ClientConn, Clients, new_session}
use milvus_sql_proxy.Query.{Backends, execute}
use milvus_sql_proxy.Query.Calls.{CallsKeep, CountsClients}
use milvus_sql_proxy.Query.Calls.Writes.{handle_use_db-Keeps}
use milvus_sql_proxy.Query.Calls.Execute.{execute-Keeps}
use milvus_sql_proxy.Parameters.{Syntax}
use milvus_sql_proxy.Postgres.Messages.{Frontend, query, execute as run_portal, close}
use milvus_sql_proxy.Postgres.Loop.{handle_sync, serve}
use milvus_sql_proxy.Postgres.Loop.Preserves.{Executes}
use milvus_sql_proxy.Postgres.Loop.Rule.{MayDo, serve-Finally}
use milvus_sql_proxy.Postgres.Startup.{
  Startup, startup_message, Authentication, password_message, other_authentication, Greeting, Hello,
  Credentials, Greeted, used, open_session, authenticate, greet, start, has_credentials,
  parameter_of, database_of, session_of, receive_startup,
}
use milvus_sql_proxy.Postgres.Startup.Prepares.{
  Behind, Behind-Preserved, close-Behind, with_session-Keeps,
}
use milvus_sql_proxy.Postgres.Connection.{new_conn, serve_session, serve_postgres}

module _ {W C : Type 0} (Q : W → Type 0) (b : Backends W C) (syntax : Syntax)
    (calls : CallsKeep Q b.milvus) where
  Executes-Behind : Executes (session_of b syntax) (Behind Q b syntax calls.describe_collection)
  unfolding session_of
  Executes-Behind c text h =
      with_session-Keeps Q b syntax calls.describe_collection c.world.0
        (execute b c.world.0 text c.world.1) (execute-Keeps Q b calls c.world.0 text c.world.1 h)

  MayDo-calls :
      (msgs : List Frontend)
      → All (MayDo (session_of b syntax) (Behind Q b syntax calls.describe_collection)) msgs
  MayDo-calls [] = tt
  MayDo-calls (query text ∷ msgs) = (Executes-Behind, MayDo-calls msgs)
  MayDo-calls (run_portal name max_rows ∷ msgs) = (Executes-Behind, MayDo-calls msgs)
  MayDo-calls (close target name ∷ msgs) =
      ((λ c k. close-Behind Q b syntax calls.describe_collection c target name k), MayDo-calls msgs)
  MayDo-calls (_ ∷ msgs) = (tt, MayDo-calls msgs)

  -- A connection keeps each property of the Milvus service that each call of its client keeps.
  pub serve-calls :
      (msgs : List Frontend) (c : ClientConn) (w : W)
      → Q w
      → Q (serve b.library (session_of b syntax) msgs (new_conn (c, w))).1.conn.world.1
  serve-calls msgs c w h =
      serve-Finally b.library (session_of b syntax) (Behind Q b syntax calls.describe_collection)
        (Behind-Preserved Q b syntax calls.describe_collection) (λ d flag k. k)
        (λ d k. unfold handle_sync in k) msgs (new_conn (c, w)) (MayDo-calls msgs) h

-- A session has one client.
abbrev pub sessions : Option ClientConn → ℕ → ℕ
sessions none n = n
sessions (some c) n = suc n

module _ {W C : Type 0} (b : Backends W C) (syntax : Syntax) (clients : Clients W)
    (open_count : W → ℕ) (k : CountsClients b clients open_count) where
  HasClient : ℕ → Greeted W → Type 0
  HasClient n g = open_count g.world ≡ sessions g.session n

  used-HasClient :
      (n : ℕ) (sent : List Greeting) (x : Result Error (ClientConn × QueryResult) × W)
      → open_count x.1 ≡ suc n
      → HasClient n (used b clients sent x)
  unfolding HasClient
  used-HasClient n sent (err e, w) h = k.close_client w ∙ omega (arith, h)
  used-HasClient n sent (ok (c, r), w) h = h

  open_session-HasClient :
      (n : ℕ) (sent : List Greeting) (params : List (Bytes × Bytes))
      (x : Result Error (Unit {0}) × W)
      → open_count x.1 ≡ opened x.0 n
      → HasClient n (open_session b clients sent params x)
  open_session-HasClient n sent params (err e, w) h = unfold HasClient in h
  open_session-HasClient n sent params (ok done, w) h = used-HasClient n sent _ (
      handle_use_db-Keeps (λ w. open_count w ≡ suc n) b.milvus (k.calls (suc n)) new_session
        (database_of (parameter_of params (codes "database"))) w h)

  authenticate-HasClient :
      (cfg : Credentials) (sent : List Greeting) (params : List (Bytes × Bytes))
      (auth : Option Authentication) (w : W)
      → HasClient (open_count w) (authenticate b clients cfg sent params auth w)
  unfolding HasClient
  authenticate-HasClient cfg sent params none w = refl
  authenticate-HasClient cfg sent params (some other_authentication) w = refl
  authenticate-HasClient cfg sent params (some (password_message password)) w =
      elim (Bool-cases (has_credentials cfg params password)) [
        | inl good ↦ rw good (
            open_session-HasClient (open_count w) sent params (clients.new_client w)
              (k.new_client w))
        | inr bad ↦ rw bad refl
      ]

  greet-HasClient :
      (cfg : Credentials) (auth : Option Authentication) (sent : List Greeting)
      (first : Option Startup) (w : W)
      → HasClient (open_count w) (greet b clients cfg auth (sent, first) w)
  unfolding HasClient
  greet-HasClient cfg auth sent (some (startup_message params)) w =
      authenticate-HasClient cfg _ params auth w
  greet-HasClient cfg auth sent none w = refl
  greet-HasClient cfg auth sent (some _) w = refl

  start-HasClient :
      (cfg : Credentials) (h : Hello) (w : W) → HasClient (open_count w) (start b clients cfg h w)
  unfolding start
  start-HasClient cfg h w =
      greet-HasClient cfg h.authentication (receive_startup cfg.tls h).0
        (receive_startup cfg.tls h).1 w

  serve_session-closes :
      (n : ℕ) (greeted : List Greeting) (msgs : List Frontend) (w : W) (session : Option ClientConn)
      → open_count w ≡ sessions session n
      → open_count (serve_session b syntax clients greeted msgs w session).world ≡ n
  serve_session-closes n greeted msgs w none h = h
  serve_session-closes n greeted msgs w (some c) h =
      k.close_client _
      ∙ omega (arith, serve-calls (λ w. open_count w ≡ suc n) b syntax (k.calls (suc n)) msgs c w h)

  -- A PostgreSQL connection leaves as many Milvus clients open as there were: the one that is made
  -- for it is closed, however the handshake ends, whatever the messages are, and also if one of them
  -- makes the connection panic.
  pub serve_postgres-closes :
      (cfg : Credentials) (h : Hello) (msgs : List Frontend) (w : W)
      → open_count (serve_postgres b syntax clients cfg h msgs w).world ≡ open_count w
  unfolding serve_postgres HasClient
  serve_postgres-closes cfg h msgs w =
      let g = start b clients cfg h w in
      serve_session-closes (open_count w) g.sent msgs g.world g.session (start-HasClient cfg h w)
