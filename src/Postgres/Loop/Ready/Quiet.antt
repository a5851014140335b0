-- ===== src/Postgres/Loop/Ready/Quiet.antt =====
-- The messages of the extended protocol but Sync send no ReadyForQuery.
use milvus_sql_proxy.Base.{
  ℕ, Bool, true, false, not, ◌&&◌, ◌≡◌, refl, List, [], ◌∷◌, Option, none, some, arith,
  if◌then◌else◌, Bool-cases, inl, inr, Bytes, Result, ok, err, length, leb, ltb, ◌==◌, ◌∙◌,
}
use milvus_sql_proxy.Error.{Error, too_many_types}
use milvus_sql_proxy.Ast.{is_blank}
use milvus_sql_proxy.Value.{Library}
use milvus_sql_proxy.Bind.{postgres, bind_sql}
use milvus_sql_proxy.Resultset.{Resultset, QueryResult}
use milvus_sql_proxy.Wire.{valid_formats}
use milvus_sql_proxy.Postgres.Dictionary.{lookup}
use milvus_sql_proxy.Postgres.Encoding.{pg_parameters, pg_rows, pad_oids, slice}
use milvus_sql_proxy.Postgres.Handlers.{
  Session, Conn, Handled, max_names, fail, on_ok, run_session, handle_parse, store_statement,
  handle_describe, describe_statement, describe_portal, describe_bound, describe_text, described,
}
use milvus_sql_proxy.Postgres.Portals.{
  store_portal, bind_statement, handle_bind, after_rows, send_rows, send_result, resume, first_run,
  execute_result, execute_portal, handle_execute, end_of_rows,
}
use milvus_sql_proxy.Postgres.Messages.{
  Target, statement, portal, invalid_target, Backend, Statement, Portal, portal_suspended,
  parameter_description,
}
use milvus_sql_proxy.Postgres.Loop.Ready.{count_ready, count_ready-append, count_ready-pg_rows}

module _ {W : Type 0} (lib : Library) (session : Session W) where
  abbrev pub IsQuiet : Handled W → Type 0
  IsQuiet h = count_ready h.sent ≡ 0

  pub on_ok-IsQuiet :
      {A : Type 0} (c : Conn W) (r : Result Error A) (k : A → Handled W)
      → ((a : A) → IsQuiet (k a))
      → IsQuiet (on_ok c r k)
  unfolding count_ready
  on_ok-IsQuiet c (err e) k h = refl
  on_ok-IsQuiet c (ok a) k h = h a

  store_statement-IsQuiet :
      (c : Conn W) (name text : Bytes) (r : Result Error (List ℕ) × W)
      → IsQuiet (store_statement lib session c name text r)
  unfolding count_ready
  store_statement-IsQuiet c name text (err e, w) = refl
  store_statement-IsQuiet c name text (ok oids, w) = ground arith

  pub handle_parse-IsQuiet :
      (c : Conn W) (name text : Bytes) (oids : List ℕ)
      → IsQuiet (handle_parse lib session c name text oids)
  unfolding handle_parse count_ready
  handle_parse-IsQuiet c name text oids =
      elim (Bool-cases (leb max_names (length c.statements) && not (is_blank name))) [
        | inl full ↦ rw full refl
        | inr room ↦ rw room (on_ok-IsQuiet c (bind_sql lib text postgres [] true) _ described)
      ]
    where
      described :
          (d : Bytes × ℕ)
          → IsQuiet (
              if ltb d.1 (length oids)
              then fail c [] too_many_types
              else store_statement lib session c name text
                  (session.parameter_oids c.world text (pad_oids d.1 oids)))
      described d = elim (Bool-cases (ltb d.1 (length oids))) [
        | inl many ↦ rw many refl
        | inr few ↦ rw few (
            store_statement-IsQuiet c name text
              (session.parameter_oids c.world text (pad_oids d.1 oids)))
      ]

  described-IsQuiet :
      (sent : List Backend) (formats : List ℕ) (c : Conn W) (r : Result Error QueryResult)
      → count_ready sent ≡ 0
      → IsQuiet (describe_text lib session sent formats (c, r))
  unfolding count_ready
  described-IsQuiet sent formats c (err e) h = h
  described-IsQuiet sent formats c (ok r) h =
      count_ready-append sent (described lib session formats r.resultset)
      ∙ omega (arith, h, one_message r.resultset)
    where
      one_message : (o : Option Resultset) → count_ready (described lib session formats o) ≡ 0
      one_message none = refl
      one_message (some rs) = refl

  describe_statement-IsQuiet :
      (c : Conn W) (o : Option Statement) → IsQuiet (describe_statement lib session c o)
  unfolding count_ready
  describe_statement-IsQuiet c none = refl
  describe_statement-IsQuiet c (some st) = bound (bind_sql lib st.query postgres [] true)
    where
      bound :
          (r : Result Error (Bytes × ℕ))
          → IsQuiet (describe_bound lib session c (parameter_description st.oids ∷ []) r)
      bound (err e) = refl
      bound (ok (text, n)) =
          described-IsQuiet (parameter_description st.oids ∷ []) []
            (run_session lib session c text true).0 (run_session lib session c text true).1 refl

  describe_portal-IsQuiet :
      (c : Conn W) (o : Option Portal) → IsQuiet (describe_portal lib session c o)
  unfolding count_ready
  describe_portal-IsQuiet c none = refl
  describe_portal-IsQuiet c (some q) =
      described-IsQuiet [] q.formats (run_session lib session c q.query true).0
        (run_session lib session c q.query true).1 refl

  pub handle_describe-IsQuiet :
      (c : Conn W) (target : Target) (name : Bytes)
      → IsQuiet (handle_describe lib session c target name)
  unfolding handle_describe count_ready
  handle_describe-IsQuiet c statement name = describe_statement-IsQuiet c (lookup name c.statements)
  handle_describe-IsQuiet c portal name = describe_portal-IsQuiet c (lookup name c.portals)
  handle_describe-IsQuiet c invalid_target name = refl

  store_portal-IsQuiet :
      (c : Conn W) (name text : Bytes) (formats : List ℕ) (r : Result Error QueryResult)
      → IsQuiet (store_portal lib session name text formats (c, r))
  unfolding count_ready
  store_portal-IsQuiet c name text formats (err e) = refl
  store_portal-IsQuiet c name text formats (ok r) = ground arith

  bind_statement-IsQuiet :
      (c : Conn W) (name : Bytes) (formats : List ℕ) (params : List (Option Bytes))
      (result_formats : List ℕ) (o : Option Statement)
      → IsQuiet (bind_statement lib session c name formats params result_formats o)
  unfolding count_ready
  bind_statement-IsQuiet c name formats params result_formats none = refl
  bind_statement-IsQuiet c name formats params result_formats (some st) =
      elim (Bool-cases (not (length params == length st.oids))) [
        | inl uneven ↦ rw uneven refl
        | inr even ↦ elim (Bool-cases (not (valid_formats formats (length params)))) [
          | inl bad ↦ rw (even, bad) refl
          | inr good ↦
              rw (even, good)
                (on_ok-IsQuiet c (pg_parameters lib formats 0 st.oids params) _ λ args.
                  on_ok-IsQuiet c (bind_sql lib st.query postgres args false) _ λ bound.
                    store_portal-IsQuiet (run_session lib session c bound.0 true).0 name bound.0
                      result_formats (run_session lib session c bound.0 true).1)
        ]
      ]

  pub handle_bind-IsQuiet :
      (c : Conn W) (name st : Bytes) (formats : List ℕ) (params : List (Option Bytes))
      (result_formats : List ℕ)
      → IsQuiet (handle_bind lib session c name st formats params result_formats)
  unfolding handle_bind
  handle_bind-IsQuiet c name st formats params result_formats =
      bind_statement-IsQuiet c name formats params result_formats (lookup st c.statements)

  after_rows-IsQuiet :
      (c : Conn W) (name : Bytes) (p : Portal) (r : QueryResult) (more : Bool)
      (sent : List Backend × Option Error)
      → count_ready sent.0 ≡ 0
      → IsQuiet (after_rows lib session c name p r more sent)
  unfolding count_ready
  after_rows-IsQuiet c name p r more (rows, some e) h = h
  after_rows-IsQuiet c name p r true (rows, none) h =
      count_ready-append rows (portal_suspended ∷ []) ∙ omega arith
  after_rows-IsQuiet c name p r false (rows, none) h =
      count_ready-append rows (_ ∷ []) ∙ omega arith

  send_rows-IsQuiet :
      (c : Conn W) (name : Bytes) (p : Portal) (r : QueryResult) (rs : Resultset) (max_rows : ℕ)
      → IsQuiet (send_rows lib session c name p r rs max_rows)
  unfolding send_rows
  send_rows-IsQuiet c name p r rs max_rows =
      let end = end_of_rows max_rows p.pos (length rs.values) in
      after_rows-IsQuiet c name (record p { pos = end }) r (ltb end (length rs.values))
        (pg_rows lib rs.fields p.formats (slice p.pos end rs.values))
        (count_ready-pg_rows lib rs.fields p.formats (slice p.pos end rs.values))

  resume-IsQuiet :
      (c : Conn W) (name : Bytes) (p : Portal) (max_rows : ℕ) (r : QueryResult)
      → IsQuiet (resume lib session c name p max_rows r)
  unfolding count_ready
  resume-IsQuiet c name p max_rows r = sent r.resultset
    where
      sent :
          (o : Option Resultset)
          → IsQuiet (send_result lib session c name (record p { result = some r }) r max_rows o)
      sent none = refl
      sent (some rs) = elim (Bool-cases p.completed) [
        | inl over ↦ rw over refl
        | inr pending ↦ rw pending (
            send_rows-IsQuiet c name (record p { result = some r; completed = false }) r rs
              max_rows)
      ]

  pub handle_execute-IsQuiet :
      (c : Conn W) (name : Bytes) (max_rows : ℕ)
      → IsQuiet (handle_execute lib session c name max_rows)
  unfolding handle_execute count_ready
  handle_execute-IsQuiet c name max_rows = found (lookup name c.portals)
    where
      first :
          (p : Portal) (d : Conn W) (r : Result Error QueryResult)
          → IsQuiet (first_run lib session name p max_rows (d, r))
      first p d (err e) = refl
      first p d (ok r) = resume-IsQuiet d name p max_rows r

      ran :
          (p : Portal) (o : Option QueryResult)
          → IsQuiet (execute_result lib session c name p max_rows o)
      ran p none =
          first p (run_session lib session c p.query false).0
            (run_session lib session c p.query false).1
      ran p (some r) = resume-IsQuiet c name p max_rows r

      found : (o : Option Portal) → IsQuiet (execute_portal lib session c name max_rows o)
      found none = refl
      found (some p) = ran p p.result
