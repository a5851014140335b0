-- ===== src/Postgres/Startup.antt =====
-- The handshake of `servePostgres`, up to the message loop, and the SQL session behind the loop.
-- What the client sends is an input, none where receiving fails; a write that fails is not
-- modelled.
pub mod Guard
pub mod Prepares
use milvus_sql_proxy.Base.{
  Bool, true, false, ◌&&◌, List, [], ◌∷◌, ◌++◌, Bytes, codes, equal, Option, none, some,
  if◌then◌else◌, Result, ok, err,
}
use milvus_sql_proxy.Error.{Error}
use milvus_sql_proxy.Postgres.Dictionary.{lookup}
use milvus_sql_proxy.Insert.Values.{text_or_blank}
use milvus_sql_proxy.Resultset.{QueryResult}
use milvus_sql_proxy.Session.{ClientConn, Clients, new_session, with_session}
use milvus_sql_proxy.Query.{Backends, execute, describe}
use milvus_sql_proxy.Query.Handlers.{handle_use_db}
use milvus_sql_proxy.Parameters.{Syntax, parameter_oids}
use milvus_sql_proxy.Postgres.Handlers.{Session}

pub data Startup : Type 0 where
  ssl_request : Startup
  -- the parameters
  startup_message : List (Bytes × Bytes) → Startup
  other_startup : Startup

pub data Authentication : Type 0 where
  password_message : Bytes → Authentication
  other_authentication : Authentication

pub data Greeting : Type 0 where
  -- the bytes N and S
  no_ssl use_ssl : Greeting
  cleartext_password authentication_failed authentication_ok ready : Greeting
  failure : Error → Greeting
  parameter_status : Bytes → Bytes → Greeting

-- What a client sends, and whether a TLS handshake succeeds.
pub record Hello : Type 0 where
  pub first : Option Startup
  pub handshake : Bool
  pub second : Option Startup
  pub authentication : Option Authentication

-- The fields of the configuration that are read, and whether there is a TLS configuration.
pub record Credentials : Type 0 where
  pub user : Bytes
  pub password : Bytes
  pub tls : Bool

-- What was sent, and the state from there on: with a session, or none if the connection ends.
pub record Greeted (W : Type 0) : Type 0 where
  pub sent : List Greeting
  pub session : Option ClientConn
  pub world : W

abbrev pub parameter_of : List (Bytes × Bytes) → Bytes → Bytes
parameter_of params key = text_or_blank (lookup key params)

abbrev pub database_of : Bytes → Bytes
database_of [] = codes "default"
database_of (c ∷ s) = c ∷ s

abbrev pub statuses : List Greeting
statuses =
    parameter_status (codes "server_version") (codes "14.0")
    ∷ parameter_status (codes "client_encoding") (codes "UTF8")
    ∷ parameter_status (codes "standard_conforming_strings") (codes "on")
    ∷ parameter_status (codes "DateStyle") (codes "ISO, MDY")
    ∷ parameter_status (codes "TimeZone") (codes "UTC")
    ∷ []

abbrev pub has_credentials : Credentials → List (Bytes × Bytes) → Bytes → Bool
has_credentials cfg params password =
    equal (parameter_of params (codes "user")) cfg.user && equal password cfg.password

-- The startup message behind an answer to an SSL request.
abbrev pub after_ssl : Bool → Bool → Option Startup → List Greeting × Option Startup
after_ssl true true second = (use_ssl ∷ [], second)
after_ssl true false second = (use_ssl ∷ [], none)
after_ssl false handshake second = (no_ssl ∷ [], second)

unfoldable pub receive_startup : Bool → Hello → List Greeting × Option Startup
receive_startup tls h = answered h.first
  where
    answered : Option Startup → List Greeting × Option Startup
    answered (some ssl_request) = after_ssl tls h.handshake h.second
    answered first = ([], first)

module _ {W C : Type 0} (b : Backends W C) (clients : Clients W) where
  abbrev pub ended : List Greeting → W → Greeted W
  ended sent w = record { sent = sent; session = none; world = w }

  abbrev pub used : List Greeting → Result Error (ClientConn × QueryResult) × W → Greeted W
  used sent (err e, w) = ended (sent ++ failure e ∷ []) (clients.close_client w)
  used sent (ok (c, r), w) = record {
    sent = sent ++ authentication_ok ∷ (statuses ++ ready ∷ []);
    session = some c;
    world = w;
  }

  abbrev pub open_session :
      List Greeting → List (Bytes × Bytes) → Result Error (Unit {0}) × W → Greeted W
  open_session sent params (err e, w) = ended (sent ++ failure e ∷ []) w
  open_session sent params (ok done, w) =
      used sent (
        handle_use_db b.milvus new_session (database_of (parameter_of params (codes "database"))) w)

  abbrev pub authenticate :
      Credentials → List Greeting → List (Bytes × Bytes) → Option Authentication → W → Greeted W
  authenticate cfg sent params none w = ended sent w
  authenticate cfg sent params (some other_authentication) w =
      ended (sent ++ authentication_failed ∷ []) w
  authenticate cfg sent params (some (password_message password)) w =
      if has_credentials cfg params password
      then open_session sent params (clients.new_client w)
      else ended (sent ++ authentication_failed ∷ []) w

  abbrev pub greet :
      Credentials → Option Authentication → List Greeting × Option Startup → W → Greeted W
  greet cfg auth (sent, some (startup_message params)) w =
      authenticate cfg (sent ++ cleartext_password ∷ []) params auth w
  greet cfg auth (sent, _) w = ended sent w

  -- The handshake.
  unfoldable pub start : Credentials → Hello → W → Greeted W
  unfolding receive_startup handle_use_db lookup equal
  start cfg h w = greet cfg h.authentication (receive_startup cfg.tls h) w

-- `execute` with its describe flag, and `parameterOIDs`, on the session and the Milvus service.
unfoldable pub session_of : {W C : Type 0} → Backends W C → Syntax → Session (ClientConn × W)
unfolding execute describe parameter_oids
session_of b syntax = record {
  run = λ s q flag.
      let (c, w) = s in with_session c (if flag then describe b c q w else execute b c q w);
  parameter_oids = λ s q oids.
      let (c, w) = s in let (r, after) = parameter_oids b syntax q oids w in (r, (c, after));
}
