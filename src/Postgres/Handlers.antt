-- ===== src/Postgres/Handlers.antt =====
-- The cases of the switch of the message loop. A handler returns the connection, what it sends
-- before it ends, and `opErr`. The SQL session is a parameter: `execute` is the closure of that
-- name, with its describe flag, and `parameter_oids` is the method `parameterOIDs`.
use milvus_sql_proxy.Base.{
  ℕ, Bool, true, false, not, ◌&&◌, List, [], ◌∷◌, ◌++◌, Bytes, length, is_empty, is_some, ltb, leb,
  Option, none, some, if◌then◌else◌, Result, ok, err,
}
use milvus_sql_proxy.Error.{
  Error, too_many_statements, too_many_types, statement_exists, unknown_statement, unknown_portal,
  bad_describe_target, index_panic,
}
use milvus_sql_proxy.Ast.{is_blank}
use milvus_sql_proxy.Value.{Library}
use milvus_sql_proxy.Bind.{postgres, bind_sql}
use milvus_sql_proxy.Resultset.{Resultset, QueryResult}
use milvus_sql_proxy.Wire.Tag.{pg_tag, words}
use milvus_sql_proxy.Postgres.Dictionary.{lookup, insert}
use milvus_sql_proxy.Postgres.Encoding.{pg_description, pg_rows, pad_oids}
use milvus_sql_proxy.Postgres.Messages.{
  Target, statement, portal, invalid_target, Column, Backend, empty_query, parse_complete, no_data,
  ready_for_query, error_response, parameter_description, row_description, command_complete,
  Statement, Portal,
}

pub record Session (W : Type 0) : Type 0 where
  pub run : W → Bytes → Bool → Result Error QueryResult × W
  pub parameter_oids : W → Bytes → List ℕ → Result Error (List ℕ) × W

pub record Conn (W : Type 0) : Type 0 where
  pub statements : List (Bytes × Statement)
  pub portals : List (Bytes × Portal)
  pub failed : Bool
  pub world : W

pub record Handled (W : Type 0) : Type 0 where
  pub conn : Conn W
  pub sent : List Backend
  pub error : Option Error

-- The bound on named statements and on named portals.
abbrev pub max_names : ℕ
max_names = 1024

module _ {W : Type 0} where
  abbrev pub reply : Conn W → List Backend → Handled W
  reply c sent = record { conn = c; sent = sent; error = none }

  abbrev pub fail : Conn W → List Backend → Error → Handled W
  fail c sent e = record { conn = c; sent = sent; error = some e }

  -- A failing operation leaves the rest of its case out.
  abbrev pub on_ok : {A : Type 0} → Conn W → Result Error A → (A → Handled W) → Handled W
  on_ok c (err e) k = fail c [] e
  on_ok c (ok a) k = k a

module _ {W : Type 0} (lib : Library) (session : Session W) where
  -- A call of the session's, whose state is the connection's world from there on.
  abbrev pub run_session : Conn W → Bytes → Bool → Conn W × Result Error QueryResult
  run_session c q flag = let (r, w) = session.run c.world q flag in (record c { world = w }, r)

  -- Simple query: what a result set and its tag are sent as.
  abbrev pub rows_then_tag :
      Conn W → Bytes → QueryResult → List Column → List Backend × Option Error → Handled W
  rows_then_tag c q r columns (rows, some e) = fail c (row_description columns ∷ rows) e
  rows_then_tag c q r columns (rows, none) =
      reply c (row_description columns ∷ (rows ++ command_complete (pg_tag q r) ∷ []))

  abbrev pub query_result : Bytes → QueryResult → Option Resultset → Conn W → Handled W
  query_result q r none c = reply c (command_complete (pg_tag q r) ∷ [])
  query_result q r (some rs) c =
      rows_then_tag c q r (pg_description [] 0 rs.fields) (pg_rows lib rs.fields [] rs.values)

  abbrev pub run_query : Bytes → Conn W × Result Error QueryResult → Handled W
  run_query q (c, err e) = fail c [] e
  run_query q (c, ok r) = query_result q r r.resultset c

  -- `fail(opErr)`, and then in any case `ReadyForQuery`; a panic is no `opErr`.
  abbrev pub end_query : Handled W → Option Error → Handled W
  end_query h none = reply h.conn (h.sent ++ ready_for_query ∷ [])
  end_query h (some index_panic) = h
  end_query h (some e) = reply h.conn (h.sent ++ error_response e ∷ ready_for_query ∷ [])

  abbrev pub start_query : Conn W → Bytes → Handled W
  start_query c text =
      if is_empty (words text)
      then reply c (empty_query ∷ [])
      else on_ok c (bind_sql lib text postgres [] false)
          λ bound. run_query bound.0 (run_session c bound.0 false)

  unfoldable pub handle_query : Conn W → Bytes → Handled W
  unfolding pg_rows pg_description
  handle_query c text = let h = start_query c text in end_query h h.error

  -- Parse, once the parameter OIDs are known.
  abbrev pub store_statement : Conn W → Bytes → Bytes → Result Error (List ℕ) × W → Handled W
  store_statement c name text (err e, w) = fail (record c { world = w }) [] e
  store_statement c name text (ok oids, w) =
      if is_some (lookup name c.statements) && not (is_blank name)
      then fail (record c { world = w }) [] statement_exists
      else reply
          (record c {
            world = w;
            statements = insert name (record { query = text; oids = oids }) c.statements;
          })
          (parse_complete ∷ [])

  unfoldable pub handle_parse : Conn W → Bytes → Bytes → List ℕ → Handled W
  handle_parse c name text oids =
      if leb max_names (length c.statements) && not (is_blank name)
      then fail c [] too_many_statements
      else on_ok c (bind_sql lib text postgres [] true) λ described.
        if ltb described.1 (length oids)
        then fail c [] too_many_types
        else store_statement c name text
            (session.parameter_oids c.world text (pad_oids described.1 oids))

  -- Describe, once the text and the formats are known.
  abbrev pub described : List ℕ → Option Resultset → List Backend
  described formats none = no_data ∷ []
  described formats (some rs) = row_description (pg_description formats 0 rs.fields) ∷ []

  abbrev pub describe_text : List Backend → List ℕ → Conn W × Result Error QueryResult → Handled W
  describe_text sent formats (c, err e) = fail c sent e
  describe_text sent formats (c, ok r) = reply c (sent ++ described formats r.resultset)

  abbrev pub describe_bound : Conn W → List Backend → Result Error (Bytes × ℕ) → Handled W
  describe_bound c sent (err e) = fail c sent e
  describe_bound c sent (ok (text, n)) = describe_text sent [] (run_session c text true)

  abbrev pub describe_statement : Conn W → Option Statement → Handled W
  describe_statement c none = fail c [] unknown_statement
  describe_statement c (some st) =
      describe_bound c (parameter_description st.oids ∷ []) (bind_sql lib st.query postgres [] true)

  abbrev pub describe_portal : Conn W → Option Portal → Handled W
  describe_portal c none = fail c [] unknown_portal
  describe_portal c (some p) = describe_text [] p.formats (run_session c p.query true)

  unfoldable pub handle_describe : Conn W → Target → Bytes → Handled W
  unfolding pg_description
  handle_describe c statement name = describe_statement c (lookup name c.statements)
  handle_describe c portal name = describe_portal c (lookup name c.portals)
  handle_describe c invalid_target name = fail c [] bad_describe_target
