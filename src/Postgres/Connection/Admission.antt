-- ===== src/Postgres/Connection/Admission.antt =====
-- What comes of a client with the right credentials.
use milvus_sql_proxy.Base.{
  ℕ, Bool, false, true, ◌||◌, ◌≡◌, refl, List, [], ◌∷◌, ◌++◌, Bytes, codes, some, none, Option,
  Result, ok, err, arith,
}
use milvus_sql_proxy.Base.Exec.{continue}
use milvus_sql_proxy.Error.{Error, er_database_name, mysql_error}
use milvus_sql_proxy.Session.{Clients, new_session}
use milvus_sql_proxy.Query.{Backends}
use milvus_sql_proxy.Query.Handlers.{handle_use_db}
use milvus_sql_proxy.Parameters.{Syntax}
use milvus_sql_proxy.Postgres.Dictionary.{lookup}
use milvus_sql_proxy.Insert.Values.{text_or_blank}
use milvus_sql_proxy.Postgres.Messages.{Frontend}
use milvus_sql_proxy.Postgres.Loop.{serve}
use milvus_sql_proxy.Postgres.Startup.{
  Startup, ssl_request, startup_message, other_startup, Authentication, password_message,
  other_authentication, Greeting, failure, authentication_ok, cleartext_password, statuses, ready,
  Hello, Credentials, Greeted, parameter_of, database_of, receive_startup, start, session_of, used,
  open_session, authenticate, greet,
}
use milvus_sql_proxy.Postgres.Startup.Guard.{
  startup_parameters, admits_with, admits, says_ok, says_ok-append, receive_startup-silent,
}
use milvus_sql_proxy.Postgres.Connection.{Served, new_conn, serve_session, serve_postgres}

-- The database that a startup message asks for, by its parameter: `default` if that is missing or
-- empty.
pub data Asks : Option Bytes → Bytes → Type 0 where
  missing : Asks none (codes "default")
  empty : Asks (some []) (codes "default")
  named : (c : ℕ) (s : Bytes) → Asks (some (c ∷ s)) (c ∷ s)

database_of-Asks : (o : Option Bytes) → Asks o (database_of (text_or_blank o))
database_of-Asks none = missing
database_of-Asks (some []) = empty
database_of-Asks (some (c ∷ s)) = named c s

module _ {W C : Type 0} (b : Backends W C) (syntax : Syntax) (clients : Clients W) where
  -- A connection on a database: the messages are served by a new session on it, and the client is
  -- closed behind them.
  pub record IsServed (db : Bytes) (msgs : List Frontend) (w : W) (x : Served W) : Type 0 where
    pub said_ok : says_ok x.greeted ≡ true
    pub served :
        let behind =
          serve b.library
            (session_of b syntax)
            msgs
            (new_conn (record new_session { db = db }, w)) in
        (x.sent ≡ behind.0) × (x.world ≡ clients.close_client (behind.1.conn.world.1))

  -- A connection that ends with an error before it serves a message.
  pub record IsFailed (e : Error) (w : W) (x : Served W) : Type 0 where
    pub not_ok : says_ok x.greeted ≡ false
    pub says : (before : List Greeting) × (x.greeted ≡ before ++ failure e ∷ [])
    pub silent : x.sent ≡ []
    pub world : x.world ≡ w

  -- What comes of the connection, by what `UsingDatabase` returns, and before that, by what the
  -- making of a client does.
  abbrev pub EndsUsing : Bytes → List Frontend → Served W → Result Error (Unit {0}) × W → Type 0
  EndsUsing db msgs x (err e, w) =
      IsFailed (mysql_error er_database_name e) (clients.close_client w) x
  EndsUsing db msgs x (ok done, w) = IsServed db msgs w x

  abbrev pub EndsOpening : Bytes → List Frontend → Served W → Result Error (Unit {0}) × W → Type 0
  EndsOpening db msgs x (err e, w) = IsFailed e w x
  EndsOpening db msgs x (ok done, w) = EndsUsing db msgs x (b.milvus.using_database db w)

  abbrev greeted_then : List Frontend → Greeted W → Served W
  greeted_then msgs g = serve_session b syntax clients g.sent msgs g.world g.session

  says_ok-failure :
      (sent : List Greeting) (e : Error)
      → says_ok sent ≡ false
      → says_ok (sent ++ failure e ∷ []) ≡ false
  says_ok-failure sent e quiet = rw (says_ok-append sent (failure e ∷ []), quiet) refl

  used-EndsUsing :
      (sent : List Greeting) (db : Bytes) (msgs : List Frontend) (w : W)
      (o : Result Error (Unit {0}) × W)
      → says_ok sent ≡ false
      → b.milvus.using_database db w ≡ o
      → EndsUsing db msgs
          (greeted_then msgs (used b clients sent (handle_use_db b.milvus new_session db w)))
          o
  unfolding handle_use_db continue
  used-EndsUsing sent db msgs w (err e, v) quiet using = rw using (record {
    not_ok = says_ok-failure sent (mysql_error er_database_name e) quiet;
    says = (sent, refl);
    silent = refl;
    world = refl;
  })
  used-EndsUsing sent db msgs w (ok done, v) quiet using = rw using (record {
    said_ok =
        rw (says_ok-append sent (authentication_ok ∷ (statuses ++ ready ∷ [])))
          (last (says_ok sent));
    served = (refl, refl);
  })
    where
      last : (a : Bool) → (a || true) ≡ true
      last a = ground arith

  open_session-EndsOpening :
      (sent : List Greeting) (params : List (Bytes × Bytes)) (msgs : List Frontend)
      (o : Result Error (Unit {0}) × W)
      → says_ok sent ≡ false
      → EndsOpening
          (database_of (parameter_of params (codes "database")))
          msgs
          (greeted_then msgs (open_session b clients sent params o))
          o
  open_session-EndsOpening sent params msgs (err e, w) quiet = record {
    not_ok = says_ok-failure sent e quiet;
    says = (sent, refl);
    silent = refl;
    world = refl;
  }
  open_session-EndsOpening sent params msgs (ok done, w) quiet =
      used-EndsUsing sent (database_of (parameter_of params (codes "database"))) msgs w _ quiet refl

  -- The connection with the parameters of the startup message that is acted on.
  abbrev pub EndsFor : Option (List (Bytes × Bytes)) → List Frontend → W → Served W → Type 0
  EndsFor none msgs w x = ⊥
  EndsFor (some params) msgs w x =
      (db : Bytes) × Asks (lookup (codes "database") params) db
      × EndsOpening db msgs x (clients.new_client w)

  authenticate-EndsFor :
      (cfg : Credentials) (sent : List Greeting) (params : List (Bytes × Bytes))
      (auth : Option Authentication) (msgs : List Frontend) (w : W)
      → says_ok sent ≡ false
      → admits_with cfg (some params) auth ≡ true
      → EndsFor
          (some params)
          msgs
          w
          (greeted_then msgs (authenticate b clients cfg sent params auth w))
  authenticate-EndsFor cfg sent params none msgs w quiet h = cc
  authenticate-EndsFor cfg sent params (some other_authentication) msgs w quiet h = cc
  authenticate-EndsFor cfg sent params (some (password_message password)) msgs w quiet h = rw h (
    database_of (parameter_of params (codes "database")),
    database_of-Asks (lookup (codes "database") params),
    open_session-EndsOpening sent params msgs (clients.new_client w) quiet,
  )

  greet-EndsFor :
      (cfg : Credentials) (sent : List Greeting) (first : Option Startup)
      (auth : Option Authentication) (msgs : List Frontend) (w : W)
      → says_ok sent ≡ false
      → admits_with cfg (startup_parameters first) auth ≡ true
      → EndsFor
          (startup_parameters first)
          msgs
          w
          (greeted_then msgs (greet b clients cfg auth (sent, first) w))
  greet-EndsFor cfg sent none auth msgs w quiet h = cc
  greet-EndsFor cfg sent (some ssl_request) auth msgs w quiet h = cc
  greet-EndsFor cfg sent (some other_startup) auth msgs w quiet h = cc
  greet-EndsFor cfg sent (some (startup_message params)) auth msgs w quiet h =
      authenticate-EndsFor cfg (sent ++ cleartext_password ∷ []) params auth msgs w
        (rw (says_ok-append sent (cleartext_password ∷ []), quiet) refl) h

  -- A client that names the user and the password of the configuration is served on the database
  -- that its startup message asks for, `default` if the parameter is missing or empty, or hears why
  -- not. If the Milvus client cannot be made, or does not take that database, the last that is sent
  -- is that error (with the code of a bad database for the latter), there is no AuthenticationOk, no message is answered, and a client that was made
  -- is closed. Otherwise AuthenticationOk is sent, a new session on the database serves the
  -- messages, and the client is closed behind them.
  pub serve_postgres-EndsFor :
      (cfg : Credentials) (h : Hello) (msgs : List Frontend) (w : W)
      → admits cfg h ≡ true
      → EndsFor
          (startup_parameters (receive_startup cfg.tls h).1)
          msgs
          w
          (serve_postgres b syntax clients cfg h msgs w)
  unfolding serve_postgres start admits
  serve_postgres-EndsFor cfg h msgs w admitted =
      greet-EndsFor cfg (receive_startup cfg.tls h).0 (receive_startup cfg.tls h).1 h.authentication
        msgs w (receive_startup-silent cfg.tls h) admitted
