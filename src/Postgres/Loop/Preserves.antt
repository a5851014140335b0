-- ===== src/Postgres/Loop/Preserves.antt =====
-- What a handler may do to a connection, as one rule: a property that survives a description and a
-- look for types by the session, a guarded new statement or portal, and an update of a portal that
-- is there, survives every message but Close and Sync, if it survives a run by the session for
-- those that run.
use milvus_sql_proxy.Base.{
  ℕ, Bool, true, false, not, ◌&&◌, ◌≡◌, List, [], ◌∷◌, Bytes, length, ltb, leb, Option, none, some,
  is_some, is_empty, if◌then◌else◌, Bool-cases, inl, inr, Result, ok, err,
}
use milvus_sql_proxy.Error.{Error, index_panic, too_many_types}
use milvus_sql_proxy.Ast.{is_blank}
use milvus_sql_proxy.Value.{Library}
use milvus_sql_proxy.Bind.{postgres, bind_sql}
use milvus_sql_proxy.Resultset.{Resultset, QueryResult}
use milvus_sql_proxy.Wire.Tag.{words}
use milvus_sql_proxy.Postgres.Dictionary.{lookup, insert}
use milvus_sql_proxy.Postgres.Encoding.{pg_rows, pad_oids, pg_description}
use milvus_sql_proxy.Postgres.Handlers.{
  Session, Conn, Handled, max_names, reply, fail, on_ok, run_session, handle_query, start_query,
  end_query, query_result, rows_then_tag, run_query, handle_parse, store_statement, handle_describe,
  describe_statement, describe_portal, describe_bound, describe_text,
}
use milvus_sql_proxy.Postgres.Messages.{
  Target, statement, portal, invalid_target, Backend, empty_query, parameter_description, Statement,
  Portal,
}

pub record Preserved {W : Type 0} (session : Session W) (P : Conn W → Type 0) : Type 0 where
  pub described :
      (c : Conn W) (text : Bytes) → P c → P (record c { world = (session.run c.world text true).1 })
  pub parsed :
      (c : Conn W) (text : Bytes) (oids : List ℕ)
      → P c
      → P (record c { world = (session.parameter_oids c.world text oids).1 })
  pub statement :
      (c : Conn W) (name : Bytes) (st : Statement)
      → (leb max_names (length c.statements) && not (is_blank name)) ≡ false
      → (is_some (lookup name c.statements) && not (is_blank name)) ≡ false
      → P c
      → P (record c { statements = insert name st c.statements })
  pub portal :
      (c : Conn W) (name : Bytes) (p : Portal)
      → (leb max_names (length c.portals) && not (is_blank name)) ≡ false
      → P c
      → P (record c { portals = insert name p c.portals })
  pub update :
      (c : Conn W) (name : Bytes) (p q : Portal)
      → lookup name c.portals ≡ some p
      → P c
      → P (record c { portals = insert name q c.portals })

-- A property that survives a run.
abbrev pub Executes : {W : Type 0} → Session W → (Conn W → Type 0) → Type 0
Executes {W} session P =
    (c : Conn W) (text : Bytes) → P c → P (record c { world = (session.run c.world text false).1 })

module _ {W : Type 0} (P : Conn W → Type 0) where
  abbrev pub Keeps : Handled W → Type 0
  Keeps h = P h.conn

  pub on_ok-Keeps :
      {A : Type 0} (c : Conn W) (r : Result Error A) (k : A → Handled W)
      → P c
      → ((a : A) → Keeps (k a))
      → Keeps (on_ok c r k)
  on_ok-Keeps c (err e) k p h = p
  on_ok-Keeps c (ok a) k p h = h a

module _ {W : Type 0} (lib : Library) (session : Session W) (P : Conn W → Type 0)
    (kept : Preserved session P) where
  end_query-Keeps :
      (h : Handled W) (e : Option Error) → Keeps P h → Keeps P (end_query lib session h e)
  end_query-Keeps h none p = p
  end_query-Keeps h (some index_panic) p = p
  end_query-Keeps h (some _) p = p

  rows_then_tag-Keeps :
      (c : Conn W) (q : Bytes) (r : QueryResult) (o : Option Resultset)
      → P c
      → Keeps P (query_result lib session q r o c)
  rows_then_tag-Keeps c q r none p = p
  rows_then_tag-Keeps c q r (some rs) p = either (pg_rows lib rs.fields [] rs.values)
    where
      either :
          (sent : List Backend × Option Error)
          → Keeps P (rows_then_tag lib session c q r (pg_description [] 0 rs.fields) sent)
      either (rows, none) = p
      either (rows, some e) = p

  run_query-Keeps :
      (q : Bytes) (c : Conn W) (r : Result Error QueryResult)
      → P c
      → Keeps P (run_query lib session q (c, r))
  run_query-Keeps q c (err e) p = p
  run_query-Keeps q c (ok r) p = rows_then_tag-Keeps c q r r.resultset p

  pub handle_query-Keeps :
      Executes session P
      → (c : Conn W) (text : Bytes) → P c
      → Keeps P (handle_query lib session c text)
  unfolding handle_query
  handle_query-Keeps executed c text p =
      end_query-Keeps (start_query lib session c text) _ (started (is_empty (words text)))
    where
      started :
          (b : Bool)
          → Keeps P (
              if b
              then reply c (empty_query ∷ [])
              else on_ok c
                  (bind_sql lib text postgres [] false)
                  λ bound. run_query lib session bound.0 (run_session lib session c bound.0 false))
      started true = p
      started false = on_ok-Keeps P c (bind_sql lib text postgres [] false) _ p λ bound.
          run_query-Keeps bound.0 (record c { world = (session.run c.world bound.0 false).1 })
            (session.run c.world bound.0 false).0 (executed c bound.0 p)

  store_statement-Keeps :
      (c : Conn W) (name text : Bytes) (r : Result Error (List ℕ)) (w : W)
      → (leb max_names (length c.statements) && not (is_blank name)) ≡ false
      → P (record c { world = w })
      → Keeps P (store_statement lib session c name text (r, w))
  store_statement-Keeps c name text (err e) w g p = p
  store_statement-Keeps c name text (ok oids) w g p =
      elim (Bool-cases (is_some (lookup name c.statements) && not (is_blank name))) [
        | inl taken ↦ rw taken p
        | inr free ↦ rw free (kept.statement (record c { world = w }) name _ g free p)
      ]

  pub handle_parse-Keeps :
      (c : Conn W) (name text : Bytes) (oids : List ℕ)
      → P c
      → Keeps P (handle_parse lib session c name text oids)
  unfolding handle_parse
  handle_parse-Keeps c name text oids p =
      elim (Bool-cases (leb max_names (length c.statements) && not (is_blank name))) [
        | inl full ↦ rw full p
        | inr room ↦ rw room (on_ok-Keeps P c _ _ p (described room))
      ]
    where
      described :
          (leb max_names (length c.statements) && not (is_blank name)) ≡ false
          → (d : Bytes × ℕ)
          → Keeps P (
              if ltb d.1 (length oids)
              then fail c [] too_many_types
              else store_statement lib session c name text
                  (session.parameter_oids c.world text (pad_oids d.1 oids)))
      described room d = elim (Bool-cases (ltb d.1 (length oids))) [
        | inl many ↦ rw many p
        | inr few ↦
            rw few (
              store_statement-Keeps c name text _ _ room (kept.parsed c text (pad_oids d.1 oids) p))
      ]

  describe_text-Keeps :
      (sent : List Backend) (formats : List ℕ) (c : Conn W) (r : Result Error QueryResult)
      → P c
      → Keeps P (describe_text lib session sent formats (c, r))
  describe_text-Keeps sent formats c (err e) p = p
  describe_text-Keeps sent formats c (ok r) p = p

  describe_statement-Keeps :
      (c : Conn W) (o : Option Statement) → P c → Keeps P (describe_statement lib session c o)
  describe_statement-Keeps c none p = p
  describe_statement-Keeps c (some st) p = bound (bind_sql lib st.query postgres [] true)
    where
      bound :
          (r : Result Error (Bytes × ℕ))
          → Keeps P (describe_bound lib session c (parameter_description st.oids ∷ []) r)
      bound (err e) = p
      bound (ok (text, n)) =
          describe_text-Keeps (parameter_description st.oids ∷ []) []
            (record c { world = (session.run c.world text true).1 })
            (session.run c.world text true).0 (kept.described c text p)

  describe_portal-Keeps :
      (c : Conn W) (o : Option Portal) → P c → Keeps P (describe_portal lib session c o)
  describe_portal-Keeps c none p = p
  describe_portal-Keeps c (some q) p =
      describe_text-Keeps [] q.formats _ _ (kept.described c q.query p)

  pub handle_describe-Keeps :
      (c : Conn W) (target : Target) (name : Bytes)
      → P c
      → Keeps P (handle_describe lib session c target name)
  unfolding handle_describe
  handle_describe-Keeps c statement name p = describe_statement-Keeps c _ p
  handle_describe-Keeps c portal name p = describe_portal-Keeps c _ p
  handle_describe-Keeps c invalid_target name p = p
