-- ===== src/Postgres/Startup/Guard.antt =====
-- Who gets no session.
use milvus_sql_proxy.Base.{
  equal, ◌&&◌, Bool, true, false, ◌||◌, ◌≡◌, refl, List, [], ◌∷◌, ◌++◌, any, Bytes, codes, Option,
  none, some, arith,
}
use milvus_sql_proxy.Session.{Clients}
use milvus_sql_proxy.Query.{Backends}
use milvus_sql_proxy.Postgres.Startup.{
  Startup, ssl_request, startup_message, other_startup, Authentication, password_message,
  other_authentication, Greeting, authentication_ok, authentication_failed, Hello, Credentials,
  Greeted, parameter_of, after_ssl, receive_startup, start, cleartext_password, greet, authenticate,
}

-- The parameters of the startup message that is acted on, if there is one.
abbrev pub startup_parameters : Option Startup → Option (List (Bytes × Bytes))
startup_parameters (some (startup_message params)) = some params
startup_parameters _ = none

abbrev pub admits_with : Credentials → Option (List (Bytes × Bytes)) → Option Authentication → Bool
admits_with cfg (some params) (some (password_message password)) =
    equal (parameter_of params (codes "user")) cfg.user && equal password cfg.password
admits_with cfg _ _ = false

-- Whether a client names the user and the password of the configuration.
unfoldable pub admits : Credentials → Hello → Bool
unfolding receive_startup
admits cfg h = admits_with cfg (startup_parameters (receive_startup cfg.tls h).1) h.authentication

abbrev pub is_authentication_ok : Greeting → Bool
is_authentication_ok authentication_ok = true
is_authentication_ok _ = false

abbrev pub says_ok : List Greeting → Bool
says_ok = any is_authentication_ok

pub says_ok-append : (xs ys : List Greeting) → says_ok (xs ++ ys) ≡ (says_ok xs || says_ok ys)
says_ok-append [] ys = refl
says_ok-append (x ∷ xs) ys = ground (arith, says_ok-append xs ys)

-- A client that is turned away: no session, and no call of the Milvus service.
pub record IsTurnedAway {W : Type 0} (w : W) (g : Greeted W) : Type 0 where
  pub session : g.session ≡ none
  pub world : g.world ≡ w
  pub silent : says_ok g.sent ≡ false

pub receive_startup-silent : (tls : Bool) (h : Hello) → says_ok (receive_startup tls h).0 ≡ false
unfolding receive_startup
receive_startup-silent tls h = answered h.first
  where
    after : (tls handshake : Bool) → says_ok (after_ssl tls handshake h.second).0 ≡ false
    after true true = refl
    after true false = refl
    after false handshake = refl

    answered :
        (first : Option Startup)
        → says_ok (receive_startup tls (record h { first = first })).0 ≡ false
    answered none = refl
    answered (some ssl_request) = after tls h.handshake
    answered (some (startup_message params)) = refl
    answered (some other_startup) = refl

module _ {W C : Type 0} (b : Backends W C) (clients : Clients W) where
  authenticate-IsTurnedAway :
      (cfg : Credentials) (sent : List Greeting) (params : List (Bytes × Bytes))
      (auth : Option Authentication) (w : W)
      → says_ok sent ≡ false
      → admits_with cfg (some params) auth ≡ false
      → IsTurnedAway w (authenticate b clients cfg sent params auth w)
  authenticate-IsTurnedAway cfg sent params none w quiet h = record {
    session = refl;
    world = refl;
    silent = quiet;
  }
  authenticate-IsTurnedAway cfg sent params (some other_authentication) w quiet h = record {
    session = refl;
    world = refl;
    silent = rw (says_ok-append sent (authentication_failed ∷ []), quiet) refl;
  }
  authenticate-IsTurnedAway cfg sent params (some (password_message password)) w quiet h =
      rw h (record {
        session = refl;
        world = refl;
        silent = rw (says_ok-append sent (authentication_failed ∷ []), quiet) refl;
      })

  greet-IsTurnedAway :
      (cfg : Credentials) (auth : Option Authentication) (sent : List Greeting)
      (first : Option Startup) (w : W)
      → says_ok sent ≡ false
      → admits_with cfg (startup_parameters first) auth ≡ false
      → IsTurnedAway w (greet b clients cfg auth (sent, first) w)
  greet-IsTurnedAway cfg auth sent (some (startup_message params)) w quiet h =
      authenticate-IsTurnedAway cfg (sent ++ cleartext_password ∷ []) params auth w
        (rw (says_ok-append sent (cleartext_password ∷ []), quiet) refl) h
  greet-IsTurnedAway cfg auth sent none w quiet h = record {
    session = refl;
    world = refl;
    silent = quiet;
  }
  greet-IsTurnedAway cfg auth sent (some ssl_request) w quiet h = record {
    session = refl;
    world = refl;
    silent = quiet;
  }
  greet-IsTurnedAway cfg auth sent (some other_startup) w quiet h = record {
    session = refl;
    world = refl;
    silent = quiet;
  }

  -- A client that does not name the user and the password of the configuration, in a startup
  -- message and in a password message, gets no session and no AuthenticationOk, and causes no call
  -- of the Milvus service, whatever else it sends.
  pub start-IsTurnedAway :
      (cfg : Credentials) (h : Hello) (w : W)
      → admits cfg h ≡ false
      → IsTurnedAway w (start b clients cfg h w)
  unfolding start admits
  start-IsTurnedAway cfg h w refused =
      greet-IsTurnedAway cfg h.authentication (receive_startup cfg.tls h).0
        (receive_startup cfg.tls h).1 w (receive_startup-silent cfg.tls h) refused
