-- ===== src/Server/Run.antt =====
-- `Run` of a server over its listeners, and the `Close` that comes behind it. What the goroutines
-- of the listeners send, and whether a signal closes the server, are parameters.
pub mod Closes
pub mod First
use milvus_sql_proxy.Base.{
  Bool, false, true, List, [], ◌∷◌, Option, none, some, if◌then◌else◌, Result, ok, err,
}
use milvus_sql_proxy.Error.{Error}
use milvus_sql_proxy.Server.Listeners.{Network, Listener, shut_all}

-- Whether a signal has come meanwhile, the next result of a listener, and the end of the
-- connections.
pub record Events (W : Type 0) : Type 0 where
  pub signal : W → Bool × W
  pub result : W → Option Error × W
  pub wait : W → W

-- `closed`, and the error that `Run` is to return.
pub record Running : Type 0 where
  pub closed : Bool
  pub first : Option Error

abbrev pub outcome : Option Error → Result Error (Unit {0})
outcome none = ok tt
outcome (some e) = err e

module _ {W : Type 0} (net : Network W) (events : Events W) (all : List Listener) where
  -- `Close`, of the listeners
  unfoldable pub close_listeners : Running → W → Running × W
  unfolding shut_all
  close_listeners s w =
      if s.closed then (s, w) else (record s { closed = true }, shut_all net all w)

  -- The goroutine that waits for the context, when a signal has come.
  unfoldable pub on_signal : Running → Bool × W → Running × W
  unfolding close_listeners
  on_signal s (true, w) = close_listeners s w
  on_signal s (false, w) = (s, w)

  abbrev pub first_result : Running → Option Error → Error → W → Running × W
  first_result s none e w = close_listeners (record s { first = some e }) w
  first_result s (some f) e w = (s, w)

  unfoldable pub on_result : Running → Option Error × W → Running × W
  unfolding close_listeners
  on_result s (none, w) = (s, w)
  on_result s (some e, w) = first_result s s.first e w

  abbrev pub receive : Running × W → Running × W
  receive (s, w) = on_result s (events.result w)

  -- The loop of `Run`, one result for each listener.
  unfoldable pub run_loop : List Listener → Running → W → Running × W
  unfolding on_signal on_result
  run_loop [] s w = (s, w)
  run_loop (l ∷ ls) s w =
      let (s1, w1) = receive (on_signal s (events.signal w)) in run_loop ls s1 w1

  -- What is left of `Run`, and the deferred `Close`.
  abbrev pub end_run : Running × W → Result Error (Unit {0}) × W
  end_run (s, w) =
      let (s1, w1) = on_signal s (events.signal (events.wait w)) in
      (outcome s.first, (close_listeners s1 w1).1)

  -- `Run` and the deferred `Close` of the command.
  unfoldable pub run_and_close : W → Result Error (Unit {0}) × W
  unfolding run_loop
  run_and_close w = end_run (run_loop all (record { closed = false; first = none }) w)
