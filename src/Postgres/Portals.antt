-- ===== src/Postgres/Portals.antt =====
-- Bind and Execute: a portal is made from a statement and its arguments, runs at the first
-- Execute, and hands its rows out over one or more of them.
use milvus_sql_proxy.Base.{
  ℕ, ◌+◌, ◌-◌, Bool, true, false, not, ◌&&◌, List, [], ◌∷◌, ◌++◌, Bytes, length, is_some, ltb, leb,
  ◌==◌, Option, none, some, if◌then◌else◌, Result, ok, err,
}
use milvus_sql_proxy.Error.{
  Error, unknown_statement, unknown_portal, parameter_count, bad_parameter_formats,
  bad_result_formats, too_many_portals, portal_exists,
}
use milvus_sql_proxy.Ast.{is_blank}
use milvus_sql_proxy.Value.{Library}
use milvus_sql_proxy.Bind.{postgres, bind_sql}
use milvus_sql_proxy.Resultset.{Resultset, QueryResult}
use milvus_sql_proxy.Wire.{valid_formats}
use milvus_sql_proxy.Wire.Tag.{pg_tag}
use milvus_sql_proxy.Postgres.Dictionary.{lookup, insert}
use milvus_sql_proxy.Postgres.Encoding.{pg_rows, slice, pg_parameters}
use milvus_sql_proxy.Postgres.Handlers.{
  Session, Conn, Handled, max_names, reply, fail, on_ok, run_session,
}
use milvus_sql_proxy.Postgres.Messages.{
  Backend, bind_complete, portal_suspended, command_complete, Statement, Portal,
}

-- The columns of a described result.
abbrev pub columns : Option Resultset → ℕ
columns none = 0
columns (some rs) = length rs.fields

-- Where the rows of one Execute end, of `total` rows with `pos` sent; `max_rows` 0 is no bound.
unfoldable pub end_of_rows : ℕ → ℕ → ℕ → ℕ
end_of_rows max_rows pos total =
    if ltb 0 max_rows && ltb max_rows (total - pos) then pos + max_rows else total

module _ {W : Type 0} (lib : Library) (session : Session W) where
  -- Bind, once its text has been described.
  abbrev pub store_portal : Bytes → Bytes → List ℕ → Conn W × Result Error QueryResult → Handled W
  store_portal name text result_formats (c, err e) = fail c [] e
  store_portal name text result_formats (c, ok r) =
      if not (valid_formats result_formats (columns r.resultset))
      then fail c [] bad_result_formats
      else if leb max_names (length c.portals) && not (is_blank name)
      then fail c [] too_many_portals
      else if is_some (lookup name c.portals) && not (is_blank name)
      then fail c [] portal_exists
      else reply
          (record c {
            portals =
                insert name
                  (record {
                    query = text;
                    formats = result_formats;
                    result = none;
                    pos = 0;
                    completed = false;
                  })
                  c.portals;
          })
          (bind_complete ∷ [])

  abbrev pub bind_statement :
      Conn W → Bytes → List ℕ → List (Option Bytes) → List ℕ → Option Statement → Handled W
  bind_statement c name formats params result_formats none = fail c [] unknown_statement
  bind_statement c name formats params result_formats (some st) =
      if not (length params == length st.oids)
      then fail c [] parameter_count
      else if not (valid_formats formats (length params))
      then fail c [] bad_parameter_formats
      else on_ok c (pg_parameters lib formats 0 st.oids params) λ args.
        on_ok c (bind_sql lib st.query postgres args false)
          λ bound. store_portal name bound.0 result_formats (run_session lib session c bound.0 true)

  unfoldable pub handle_bind :
      Conn W → Bytes → Bytes → List ℕ → List (Option Bytes) → List ℕ → Handled W
  handle_bind c name st formats params result_formats =
      bind_statement c name formats params result_formats (lookup st c.statements)

  abbrev pub put_portal : Conn W → Bytes → Portal → Conn W
  put_portal c name p = record c { portals = insert name p c.portals }

  -- The end of a portal: its tag.
  abbrev pub complete_portal : Conn W → Bytes → Portal → QueryResult → List Backend → Handled W
  complete_portal c name p r sent =
      reply (put_portal c name (record p { completed = true }))
        (sent ++ command_complete (pg_tag p.query r) ∷ [])

  abbrev pub after_rows :
      Conn W → Bytes → Portal → QueryResult → Bool → List Backend × Option Error → Handled W
  after_rows c name p r more (rows, some e) = fail (put_portal c name p) rows e
  after_rows c name p r more (rows, none) =
      if more
      then reply (put_portal c name p) (rows ++ portal_suspended ∷ [])
      else complete_portal c name p r rows

  -- The rows from `p.pos` on, up to the bound; `r` is the portal's result.
  unfoldable pub send_rows : Conn W → Bytes → Portal → QueryResult → Resultset → ℕ → Handled W
  unfolding end_of_rows pg_rows
  send_rows c name p r rs max_rows =
      let end = end_of_rows max_rows p.pos (length rs.values) in
      after_rows c name (record p { pos = end }) r (ltb end (length rs.values))
        (pg_rows lib rs.fields p.formats (slice p.pos end rs.values))

  abbrev pub send_result : Conn W → Bytes → Portal → QueryResult → ℕ → Option Resultset → Handled W
  send_result c name p r max_rows none = complete_portal c name p r []
  send_result c name p r max_rows (some rs) =
      if p.completed then complete_portal c name p r [] else send_rows c name p r rs max_rows

  -- Execute, once the result is there; the portal keeps it.
  abbrev pub resume : Conn W → Bytes → Portal → ℕ → QueryResult → Handled W
  resume c name p max_rows r =
      send_result c name (record p { result = some r }) r max_rows r.resultset

  abbrev pub first_run : Bytes → Portal → ℕ → Conn W × Result Error QueryResult → Handled W
  first_run name p max_rows (c, err e) = fail c [] e
  first_run name p max_rows (c, ok r) = resume c name p max_rows r

  abbrev pub execute_result : Conn W → Bytes → Portal → ℕ → Option QueryResult → Handled W
  execute_result c name p max_rows none =
      first_run name p max_rows (run_session lib session c p.query false)
  execute_result c name p max_rows (some r) = resume c name p max_rows r

  abbrev pub execute_portal : Conn W → Bytes → ℕ → Option Portal → Handled W
  execute_portal c name max_rows none = fail c [] unknown_portal
  execute_portal c name max_rows (some p) = execute_result c name p max_rows p.result

  unfoldable pub handle_execute : Conn W → Bytes → ℕ → Handled W
  unfolding send_rows
  handle_execute c name max_rows = execute_portal c name max_rows (lookup name c.portals)
