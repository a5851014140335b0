-- ===== src/Postgres/Loop.antt =====
-- One turn of the message loop, and runs of it. A transport that fails ends the connection and
-- is not modelled; `stops` is the end by Terminate or by a panic.
pub mod Preserves
pub mod PreservesPortals
pub mod Recovery
pub mod Ready
pub mod Rule
pub mod Limits
pub mod Pages
use milvus_sql_proxy.Base.{
  Bool, true, false, not, ◌&&◌, List, [], ◌∷◌, ◌++◌, Bytes, Option, none, some, if◌then◌else◌,
}
use milvus_sql_proxy.Error.{Error, bad_close_target, unsupported_message, index_panic}
use milvus_sql_proxy.Value.{Library}
use milvus_sql_proxy.Postgres.Dictionary.{remove}
use milvus_sql_proxy.Postgres.Handlers.{
  Session, Conn, Handled, reply, fail, handle_query, handle_parse, handle_describe,
}
use milvus_sql_proxy.Postgres.Portals.{handle_bind, handle_execute}
use milvus_sql_proxy.Postgres.Messages.{
  Target, statement, portal, invalid_target, Frontend, query, parse, describe, bind, execute, close,
  sync, flush, terminate, other_message, Backend, close_complete, ready_for_query, error_response,
}

pub data Turn (W : Type 0) : Type 0 where
  stops : Conn W → Turn W
  goes : Conn W → List Backend → Turn W

-- A connection behind a run, and whether it goes on.
pub record Ending (W : Type 0) : Type 0 where
  pub conn : Conn W
  pub alive : Bool

abbrev pub is_sync : Frontend → Bool
is_sync sync = true
is_sync _ = false

module _ {W : Type 0} where
  abbrev pub lives : Conn W → Ending W
  lives c = record { conn = c; alive = true }

  abbrev pub ends : Conn W → Ending W
  ends c = record { conn = c; alive = false }

  unfoldable pub handle_close : Conn W → Target → Bytes → Handled W
  handle_close c statement name =
      reply (record c { statements = remove name c.statements }) (close_complete ∷ [])
  handle_close c portal name =
      reply (record c { portals = remove name c.portals }) (close_complete ∷ [])
  handle_close c invalid_target name = fail c [] bad_close_target

  unfoldable pub handle_sync : Conn W → Handled W
  handle_sync c = reply (record c { failed = false; portals = [] }) (ready_for_query ∷ [])

  -- Behind the switch: an error is sent, and fails the connection until the next Sync.
  abbrev pub settle_error : Handled W → Option Error → Turn W
  settle_error h none = goes h.conn h.sent
  settle_error h (some index_panic) = stops h.conn
  settle_error h (some e) =
      goes (record (h.conn) { failed = true }) (h.sent ++ error_response e ∷ [])

  unfoldable pub settle : Handled W → Turn W
  settle h = settle_error h h.error

module _ {W : Type 0} (lib : Library) (session : Session W) where
  unfoldable pub handle : Conn W → Frontend → Handled W
  unfolding handle_close handle_sync
  handle c (query text) = handle_query lib session c text
  handle c (parse name text oids) = handle_parse lib session c name text oids
  handle c (describe target name) = handle_describe lib session c target name
  handle c (bind name st formats params result_formats) =
      handle_bind lib session c name st formats params result_formats
  handle c (execute name max_rows) = handle_execute lib session c name max_rows
  handle c (close target name) = handle_close c target name
  handle c sync = handle_sync c
  handle c flush = reply c []
  handle c terminate = fail c [] unsupported_message
  handle c other_message = fail c [] unsupported_message

  unfoldable pub turn : Conn W → Frontend → Turn W
  unfolding handle settle
  turn c terminate = stops c
  turn c msg = if c.failed && not (is_sync msg) then goes c [] else settle (handle c msg)

  -- All that is sent for a list of messages, and the connection behind them.
  abbrev pub continue_with : (Conn W → List Backend × Ending W) → Turn W → List Backend × Ending W
  continue_with k (stops c) = ([], ends c)
  continue_with k (goes c sent) = let later = k c in (sent ++ later.0, later.1)

  unfoldable pub serve : List Frontend → Conn W → List Backend × Ending W
  unfolding turn
  serve [] c = ([], lives c)
  serve (msg ∷ msgs) c = continue_with (serve msgs) (turn c msg)
