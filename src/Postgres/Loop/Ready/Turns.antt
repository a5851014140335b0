-- ===== src/Postgres/Loop/Ready/Turns.antt =====
-- How many ReadyForQuery one turn of the message loop sends.
use milvus_sql_proxy.Base.{
  ℕ, Bool, true, false, not, ◌&&◌, ◌||◌, ◌≡◌, refl, List, [], ◌∷◌, Option, none, some, arith,
  if◌then◌else◌, Bool-cases, inl, inr, Bytes, Result, ok, err, is_empty, ◌∙◌, subst,
}
use milvus_sql_proxy.Error.{Error, index_panic}
use milvus_sql_proxy.Value.{Library}
use milvus_sql_proxy.Bind.{postgres, bind_sql}
use milvus_sql_proxy.Resultset.{Resultset, QueryResult}
use milvus_sql_proxy.Wire.Tag.{words, pg_tag}
use milvus_sql_proxy.Postgres.Encoding.{pg_rows, pg_description}
use milvus_sql_proxy.Postgres.Handlers.{
  Session, Conn, Handled, run_session, rows_then_tag, query_result, run_query, end_query,
  start_query, handle_query,
}
use milvus_sql_proxy.Postgres.Messages.{
  Frontend, query, parse, describe, bind, execute, close, sync, flush, terminate, other_message,
  Target, statement, portal, invalid_target, Column, Backend, ready_for_query, error_response,
  command_complete,
}
use milvus_sql_proxy.Postgres.Loop.{
  Turn, stops, goes, is_sync, handle_close, handle_sync, settle_error, settle, handle, turn,
}
use milvus_sql_proxy.Postgres.Loop.Ready.{count_ready, count_ready-append, count_ready-pg_rows}
use milvus_sql_proxy.Postgres.Loop.Ready.Quiet.{
  IsQuiet, on_ok-IsQuiet, handle_parse-IsQuiet, handle_describe-IsQuiet, handle_bind-IsQuiet,
  handle_execute-IsQuiet,
}

abbrev pub is_query : Frontend → Bool
is_query (query text) = true
is_query _ = false

-- A Sync is answered in any case, a Query on a connection that has not failed.
unfoldable pub ready_after : Bool → Frontend → ℕ
ready_after failed msg = if is_sync msg || (is_query msg && not failed) then 1 else 0

abbrev HasReady : {W : Type 0} → ℕ → Turn W → Type 0
HasReady n (stops c) = Unit {0}
HasReady n (goes c sent) = count_ready sent ≡ n

module _ {W : Type 0} (lib : Library) (session : Session W) where
  rows_then_tag-IsQuiet :
      (c : Conn W) (q : Bytes) (r : QueryResult) (columns : List Column)
      (rows : List Backend × Option Error)
      → count_ready rows.0 ≡ 0
      → IsQuiet lib session (rows_then_tag lib session c q r columns rows)
  unfolding count_ready
  rows_then_tag-IsQuiet c q r columns (rows, some e) h = omega (arith, h)
  rows_then_tag-IsQuiet c q r columns (rows, none) h =
      omega (arith, h, count_ready-append rows (command_complete (pg_tag q r) ∷ []))

  start_query-IsQuiet :
      (c : Conn W) (text : Bytes) → IsQuiet lib session (start_query lib session c text)
  unfolding count_ready
  start_query-IsQuiet c text = elim (Bool-cases (is_empty (words text))) [
    | inl blank ↦ rw blank refl
    | inr more ↦ rw more (
        on_ok-IsQuiet lib session c (bind_sql lib text postgres [] false) _ λ bound.
          ran bound.0 (run_session lib session c bound.0 false).0
            (run_session lib session c bound.0 false).1)
  ]
    where
      of_result :
          (q : Bytes) (d : Conn W) (r : QueryResult) (o : Option Resultset)
          → IsQuiet lib session (query_result lib session q r o d)
      of_result q d r none = refl
      of_result q d r (some rs) =
          rows_then_tag-IsQuiet d q r (pg_description [] 0 rs.fields)
            (pg_rows lib rs.fields [] rs.values) (count_ready-pg_rows lib rs.fields [] rs.values)

      ran :
          (q : Bytes) (d : Conn W) (r : Result Error QueryResult)
          → IsQuiet lib session (run_query lib session q (d, r))
      ran q d (err e) = refl
      ran q d (ok r) = of_result q d r r.resultset

  -- A query ends in one ReadyForQuery, unless it panics.
  settle-end_query :
      (h : Handled W) (o : Option Error)
      → h.error ≡ o
      → count_ready h.sent ≡ 0
      → HasReady 1 (settle (end_query lib session h o))
  unfolding count_ready settle
  settle-end_query h none e quiet = count_ready-append h.sent (ready_for_query ∷ []) ∙ omega arith
  settle-end_query h (some index_panic) e quiet = rw e tt
  settle-end_query h (some fault) e quiet =
      count_ready-append h.sent (error_response fault ∷ ready_for_query ∷ []) ∙ omega arith

  settle_error-HasReady :
      (h : Handled W) (o : Option Error) → count_ready h.sent ≡ 0 → HasReady 0 (settle_error h o)
  unfolding count_ready
  settle_error-HasReady h none quiet = quiet
  settle_error-HasReady h (some index_panic) quiet = tt
  settle_error-HasReady h (some fault) quiet =
      count_ready-append h.sent (error_response fault ∷ []) ∙ omega arith

  settle-HasReady : (h : Handled W) → count_ready h.sent ≡ 0 → HasReady 0 (settle h)
  unfolding settle
  settle-HasReady h quiet = settle_error-HasReady h h.error quiet

  handle_close-IsQuiet :
      (c : Conn W) (target : Target) (name : Bytes)
      → IsQuiet lib session (handle_close c target name)
  unfolding handle_close count_ready
  handle_close-IsQuiet c statement name = refl
  handle_close-IsQuiet c portal name = refl
  handle_close-IsQuiet c invalid_target name = refl

  handled-HasReady :
      (c : Conn W) (msg : Frontend)
      → HasReady (ready_after false msg) (settle (handle lib session c msg))
  unfolding handle handle_query handle_sync count_ready ready_after
  handled-HasReady c (query text) =
      settle-end_query (start_query lib session c text) (start_query lib session c text).error refl
        (start_query-IsQuiet c text)
  handled-HasReady c (parse name text oids) =
      settle-HasReady _ (handle_parse-IsQuiet lib session c name text oids)
  handled-HasReady c (describe target name) =
      settle-HasReady _ (handle_describe-IsQuiet lib session c target name)
  handled-HasReady c (bind name st formats params result_formats) =
      settle-HasReady _ (handle_bind-IsQuiet lib session c name st formats params result_formats)
  handled-HasReady c (execute name max_rows) =
      settle-HasReady _ (handle_execute-IsQuiet lib session c name max_rows)
  handled-HasReady c (close target name) = settle-HasReady _ (handle_close-IsQuiet c target name)
  handled-HasReady c sync = unfold settle in refl
  handled-HasReady c flush = settle-HasReady _ refl
  handled-HasReady c terminate = settle-HasReady _ refl
  handled-HasReady c other_message = settle-HasReady _ refl

  guarded-HasReady :
      (c : Conn W) (failed : Bool) (msg : Frontend) (later : Turn W)
      → HasReady (ready_after false msg) later
      → HasReady (ready_after failed msg) (if failed && not (is_sync msg) then goes c [] else later)
  unfolding ready_after count_ready
  guarded-HasReady c false msg later h = h
  guarded-HasReady c true sync later h = h
  guarded-HasReady c true (query text) later h = refl
  guarded-HasReady c true msg later h = refl

  turn-HasReady :
      (c : Conn W) (msg : Frontend) → HasReady (ready_after c.failed msg) (turn lib session c msg)
  unfolding turn
  turn-HasReady c terminate = tt
  turn-HasReady c msg =
      guarded-HasReady c c.failed msg (settle (handle lib session c msg)) (handled-HasReady c msg)

  -- A turn that the connection outlives sends exactly one ReadyForQuery if its message is a Sync,
  -- or a Query on a connection that has not failed, whether the query succeeds or not; after any
  -- other message it sends none.
  pub turn-ready :
      (c d : Conn W) (msg : Frontend) (sent : List Backend)
      → turn lib session c msg ≡ goes d sent
      → count_ready sent ≡ ready_after c.failed msg
  turn-ready c d msg sent e = subst (HasReady (ready_after c.failed msg)) e (turn-HasReady c msg)
