-- ===== src/Postgres/Loop/Rule.antt =====
-- The rule of Preserves for a whole turn of the loop, and for a run of it.
use milvus_sql_proxy.Base.{
  Bool, true, not, ◌&&◌, List, [], ◌∷◌, Option, none, some, if◌then◌else◌, Bool-cases, inl, inr,
  All,
}
use milvus_sql_proxy.Error.{Error, index_panic}
use milvus_sql_proxy.Value.{Library}
use milvus_sql_proxy.Postgres.Handlers.{Session, Conn, Handled}
use milvus_sql_proxy.Postgres.Loop.{
  Turn, Ending, stops, goes, is_sync, handle, handle_close, handle_sync, settle, settle_error, turn,
  serve, continue_with,
}
use milvus_sql_proxy.Postgres.Loop.Preserves.{
  Preserved, Executes, handle_query-Keeps, handle_parse-Keeps, handle_describe-Keeps,
}
use milvus_sql_proxy.Postgres.Loop.PreservesPortals.{handle_bind-Keeps, handle_execute-Keeps}
use milvus_sql_proxy.Postgres.Messages.{
  Frontend, query, parse, describe, bind, execute, close, sync, flush, terminate, other_message,
}

-- A property of the connection behind a turn.
abbrev Behind : {W : Type 0} → (Conn W → Type 0) → Turn W → Type 0
Behind P (stops c) = P c
Behind P (goes c sent) = P c

-- A property of the connection behind a run, also of one that has ended.
abbrev pub Finally : {W : Type 0} → (Conn W → Type 0) → Ending W → Type 0
Finally P e = P e.conn

-- What a message may run or close without harm to the property.
abbrev pub MayDo : {W : Type 0} → Session W → (Conn W → Type 0) → Frontend → Type 0
MayDo session P (query text) = Executes session P
MayDo session P (execute name max_rows) = Executes session P
MayDo {W} session P (close target name) = (c : Conn W) → P c → P (handle_close c target name).conn
MayDo session P _ = Unit

module _ {W : Type 0} (lib : Library) (session : Session W) (P : Conn W → Type 0)
    (kept : Preserved session P)
    (flag : (c : Conn W) (b : Bool) → P c → P (record c { failed = b }))
    (synced : (c : Conn W) → P c → P (handle_sync c).conn) where
  handle-Keeps :
      (c : Conn W) (msg : Frontend) → MayDo session P msg → P c → P (handle lib session c msg).conn
  unfolding handle
  handle-Keeps c (query text) m p = handle_query-Keeps lib session P kept m c text p
  handle-Keeps c (parse name text oids) m p =
      handle_parse-Keeps lib session P kept c name text oids p
  handle-Keeps c (describe target name) m p =
      handle_describe-Keeps lib session P kept c target name p
  handle-Keeps c (bind name st formats params result_formats) m p =
      handle_bind-Keeps lib session P kept c name st formats params result_formats p
  handle-Keeps c (execute name max_rows) m p =
      handle_execute-Keeps lib session P kept m c name max_rows p
  handle-Keeps c (close target name) m p = m c p
  handle-Keeps c sync m p = synced c p
  handle-Keeps c flush m p = p
  handle-Keeps c terminate m p = p
  handle-Keeps c other_message m p = p

  settle-Behind : (h : Handled W) (e : Option Error) → P h.conn → Behind P (settle_error h e)
  settle-Behind h none p = p
  settle-Behind h (some index_panic) p = p
  settle-Behind h (some _) p = flag h.conn true p

  handled-Behind :
      (c : Conn W) (msg : Frontend)
      → MayDo session P msg
      → P c
      → Behind P
          (if c.failed && not (is_sync msg) then goes c [] else settle (handle lib session c msg))
  unfolding settle
  handled-Behind c msg m p = elim (Bool-cases (c.failed && not (is_sync msg))) [
    | inl ignored ↦ rw ignored p
    | inr taken ↦ rw taken (
        settle-Behind (handle lib session c msg) (handle lib session c msg).error
          (handle-Keeps c msg m p))
  ]

  turn-Behind :
      (c : Conn W) (msg : Frontend) → MayDo session P msg → P c → Behind P (turn lib session c msg)
  unfolding turn
  turn-Behind c terminate m p = p
  turn-Behind c msg m p = handled-Behind c msg m p

  pub serve-Finally :
      (msgs : List Frontend) (c : Conn W)
      → All (MayDo session P) msgs
      → P c
      → Finally P (serve lib session msgs c).1
  unfolding serve
  serve-Finally [] c m p = p
  serve-Finally (msg ∷ msgs) c m p =
      next (turn lib session c msg) (turn-Behind c msg m.0 p) (λ d. serve-Finally msgs d m.1)
    where
      next :
          (t : Turn W)
          → Behind P t
          → ((d : Conn W) → P d → Finally P (serve lib session msgs d).1)
          → Finally P (continue_with lib session (serve lib session msgs) t).1
      next (stops d) b k = b
      next (goes d sent) b k = k d b
