-- ===== src/Server/Serve.antt =====
-- `serve`, the loop of a listener: what `Accept` returns is an input.
use milvus_sql_proxy.Base.{
  ℕ, Bool, true, false, ◌≡◌, refl, List, [], ◌∷◌, Option, none, some, if◌then◌else◌,
}
use milvus_sql_proxy.Error.{Error}
use milvus_sql_proxy.Server.{Server, accept}
use milvus_sql_proxy.Server.Steps.{step_accept, Steps, stays, then_step, counts}

pub data Accepted : Type 0 where
  connection : ℕ → Accepted
  -- `net.ErrClosed`
  listener_closed : Accepted
  accept_failed : Error → Accepted

-- The server, and what the loop returns; none while it goes on.
abbrev pub after_accept :
    (Server → Server × Option (Option Error)) → ℕ → Server → Server × Option (Option Error)
after_accept more i s = if s.closed then (s, some none) else more (accept i s)

unfoldable pub serve_listener : List Accepted → Server → Server × Option (Option Error)
unfolding accept
serve_listener [] s = (s, none)
serve_listener (connection i ∷ results) s = after_accept (serve_listener results) i s
serve_listener (listener_closed ∷ results) s = (s, some none)
serve_listener (accept_failed e ∷ results) s = (s, some (some e))

-- Each connection is a new one.
abbrev pub AreFresh : List Accepted → Server → Type 0
AreFresh [] s = Unit
AreFresh (connection i ∷ results) s = (counts i s.running ≡ false) × AreFresh results (accept i s)
AreFresh (_ ∷ results) s = Unit

or_closed :
    (P : Server → Type 0) (b : Bool) (s : Server) (rest : Server × Option (Option Error))
    → P s
    → P rest.0
    → P (if b then (s, some none) else rest).0
or_closed P true s rest h k = h
or_closed P false s rest h k = k

-- The loop of a listener is a run of the server's steps.
pub serve_listener-Steps :
    (results : List Accepted) (s : Server)
    → AreFresh results s
    → Steps s (serve_listener results s).0
unfolding serve_listener
serve_listener-Steps [] s fresh = stays
serve_listener-Steps (connection i ∷ results) s (new, fresh) =
    or_closed (Steps s) s.closed s (serve_listener results (accept i s)) stays
      (then_step (step_accept i new) (serve_listener-Steps results (accept i s) fresh))
serve_listener-Steps (listener_closed ∷ results) s fresh = stays
serve_listener-Steps (accept_failed e ∷ results) s fresh = stays

-- Once the server is closed, the loop registers nothing.
pub serve_listener-of_closed :
    (results : List Accepted) (s : Server) → s.closed ≡ true → (serve_listener results s).0 ≡ s
unfolding serve_listener
serve_listener-of_closed [] s closed = refl
serve_listener-of_closed (connection i ∷ results) s closed = rw closed refl
serve_listener-of_closed (listener_closed ∷ results) s closed = refl
serve_listener-of_closed (accept_failed e ∷ results) s closed = refl
