-- ===== src/Postgres/Loop/PreservesPortals.antt =====
-- The rule of Preserves for the messages that make portals and run them.
use milvus_sql_proxy.Base.{
  ℕ, Bool, true, false, not, ◌&&◌, ◌≡◌, List, Bytes, length, leb, ◌==◌, Option, none, some, is_some,
  Bool-cases, Option-cases, inl, inr, Result, ok, err,
}
use milvus_sql_proxy.Error.{Error}
use milvus_sql_proxy.Ast.{is_blank}
use milvus_sql_proxy.Value.{Library}
use milvus_sql_proxy.Bind.{postgres, bind_sql}
use milvus_sql_proxy.Resultset.{Resultset, QueryResult}
use milvus_sql_proxy.Wire.{valid_formats}
use milvus_sql_proxy.Postgres.Dictionary.{lookup}
use milvus_sql_proxy.Postgres.Encoding.{pg_parameters}
use milvus_sql_proxy.Postgres.Handlers.{Session, Conn, max_names}
use milvus_sql_proxy.Postgres.Portals.{
  store_portal, bind_statement, handle_bind, columns, after_rows, send_rows, send_result, resume,
  first_run, execute_result, handle_execute,
}
use milvus_sql_proxy.Postgres.Messages.{Backend, Statement, Portal}
use milvus_sql_proxy.Postgres.Loop.Preserves.{Preserved, Executes, Keeps, on_ok-Keeps}

module _ {W : Type 0} (lib : Library) (session : Session W) (P : Conn W → Type 0)
    (kept : Preserved session P) where
  store_portal-Keeps :
      (c : Conn W) (name text : Bytes) (formats : List ℕ) (r : Result Error QueryResult)
      → P c
      → Keeps P (store_portal lib session name text formats (c, r))
  store_portal-Keeps c name text formats (err e) p = p
  store_portal-Keeps c name text formats (ok r) p =
      elim (Bool-cases (not (valid_formats formats (columns r.resultset)))) [
        | inl bad ↦ rw bad p
        | inr good ↦ elim (Bool-cases (leb max_names (length c.portals) && not (is_blank name))) [
          | inl full ↦ rw (good, full) p
          | inr room ↦ elim (Bool-cases (is_some (lookup name c.portals) && not (is_blank name))) [
            | inl taken ↦ rw (good, room, taken) p
            | inr free ↦ rw (good, room, free) (kept.portal c name _ room p)
          ]
        ]
      ]

  bind_statement-Keeps :
      (c : Conn W) (name : Bytes) (formats : List ℕ) (params : List (Option Bytes))
      (result_formats : List ℕ) (o : Option Statement)
      → P c
      → Keeps P (bind_statement lib session c name formats params result_formats o)
  bind_statement-Keeps c name formats params result_formats none p = p
  bind_statement-Keeps c name formats params result_formats (some st) p =
      elim (Bool-cases (not (length params == length st.oids))) [
        | inl uneven ↦ rw uneven p
        | inr even ↦ elim (Bool-cases (not (valid_formats formats (length params)))) [
          | inl bad ↦ rw (even, bad) p
          | inr good ↦
              rw (even, good)
                (on_ok-Keeps P c (pg_parameters lib formats 0 st.oids params) _ p λ args.
                  on_ok-Keeps P c (bind_sql lib st.query postgres args false) _ p λ bound.
                    store_portal-Keeps _ name bound.0 result_formats _ (kept.described c bound.0 p))
        ]
      ]

  pub handle_bind-Keeps :
      (c : Conn W) (name st : Bytes) (formats : List ℕ) (params : List (Option Bytes))
      (result_formats : List ℕ)
      → P c
      → Keeps P (handle_bind lib session c name st formats params result_formats)
  unfolding handle_bind
  handle_bind-Keeps c name st formats params result_formats p =
      bind_statement-Keeps c name formats params result_formats (lookup st c.statements) p

  after_rows-Keeps :
      (c : Conn W) (name : Bytes) (old new : Portal) (r : QueryResult) (more : Bool)
      (sent : List Backend × Option Error)
      → lookup name c.portals ≡ some old
      → P c
      → Keeps P (after_rows lib session c name new r more sent)
  after_rows-Keeps c name old new r more (rows, some e) found p = kept.update c name old _ found p
  after_rows-Keeps c name old new r true (rows, none) found p = kept.update c name old _ found p
  after_rows-Keeps c name old new r false (rows, none) found p = kept.update c name old _ found p

  resume-Keeps :
      (c : Conn W) (name : Bytes) (old : Portal) (max_rows : ℕ) (r : QueryResult)
      → lookup name c.portals ≡ some old
      → P c
      → Keeps P (resume lib session c name old max_rows r)
  resume-Keeps c name old max_rows r found p = sent r.resultset
    where
      sent :
          (o : Option Resultset)
          → Keeps P (send_result lib session c name (record old { result = some r }) r max_rows o)
      sent none = kept.update c name old _ found p
      sent (some rs) = elim (Bool-cases old.completed) [
        | inl over ↦ rw over (kept.update c name old _ found p)
        | inr open_ ↦ rw open_ (unfold send_rows in after_rows-Keeps c name old _ r _ _ found p)
      ]

  pub handle_execute-Keeps :
      Executes session P
      → (c : Conn W) (name : Bytes) (max_rows : ℕ) → P c
      → Keeps P (handle_execute lib session c name max_rows)
  unfolding handle_execute
  handle_execute-Keeps executed c name max_rows p = elim (Option-cases (lookup name c.portals)) [
    | inl missing ↦ rw missing p
    | inr (old, found) ↦ rw found (ran old found (old.result))
  ]
    where
      first :
          (old : Portal) (w : W) (r : Result Error QueryResult)
          → lookup name c.portals ≡ some old
          → P (record c { world = w })
          → Keeps P (first_run lib session name old max_rows (record c { world = w }, r))
      first old w (err e) found q = q
      first old w (ok r) found q = resume-Keeps (record c { world = w }) name old max_rows r found q

      ran :
          (old : Portal)
          → lookup name c.portals ≡ some old
          → (o : Option QueryResult) → Keeps P (execute_result lib session c name old max_rows o)
      ran old found none = first old _ _ found (executed c old.query p)
      ran old found (some r) = resume-Keeps c name old max_rows r found p
