-- ===== src/Postgres/Startup/Prepares.antt =====
-- What the message loop does to the Milvus service before the client runs anything.
use milvus_sql_proxy.Base.{
  ℕ, false, List, [], ◌∷◌, Bytes, codes, equal, ◌||◌, is_empty, Result, ok, err, All,
}
use milvus_sql_proxy.Base.Exec.{lift, pure}
use milvus_sql_proxy.Base.Exec.Keeps.{Keeps, if-Keeps, >>=-Keeps, lift-Keeps}
use milvus_sql_proxy.Error.{Error}
use milvus_sql_proxy.Ast.{is_blank}
use milvus_sql_proxy.Value.{Library}
use milvus_sql_proxy.Bind.{postgres, bind_sql}
use milvus_sql_proxy.Select.Run.{schema_or_error}
use milvus_sql_proxy.Session.{with_session, ClientConn}
use milvus_sql_proxy.Query.{Backends, describe}
use milvus_sql_proxy.Query.Statements.{Statement}
use milvus_sql_proxy.Query.Quiet.{describe-Keeps}
use milvus_sql_proxy.Parameters.{
  Syntax, placeholders, table_schema, parsed_types, bound_types, parameter_oids,
}
use milvus_sql_proxy.Postgres.Messages.{
  Target, statement, portal, invalid_target, Frontend, query, execute, close,
}
use milvus_sql_proxy.Postgres.Handlers.{Conn}
use milvus_sql_proxy.Postgres.Loop.{handle_close, handle_sync, serve}
use milvus_sql_proxy.Postgres.Loop.Preserves.{Preserved}
use milvus_sql_proxy.Postgres.Loop.Rule.{MayDo, Finally, serve-Finally}
use milvus_sql_proxy.Postgres.Startup.{session_of}

-- A message that runs nothing.
abbrev pub Prepares : Frontend → Type 0
Prepares (query text) = ⊥
Prepares (execute name max_rows) = ⊥
Prepares _ = Unit

module _ {W C : Type 0} (Q : W → Type 0) (b : Backends W C) (syntax : Syntax)
    (read : (table : Bytes) → Keeps Q (b.milvus.reads.describe_collection table)) where
  table_schema-Keeps : (table : Bytes) → Keeps Q (table_schema b syntax table)
  table_schema-Keeps table =
      if-Keeps Q (is_blank table || equal table (codes "dual")) (pure _) _ (λ w h. h)
        (>>=-Keeps Q _ _ (read table) λ found.
          >>=-Keeps Q (lift (schema_or_error found)) _ (lift-Keeps Q (schema_or_error found))
            (λ schema w h. h))

  parsed_types-Keeps :
      (oids : List ℕ) (s : Result Error Statement) → Keeps Q (parsed_types b syntax oids s)
  parsed_types-Keeps oids (err e) = λ w h. h
  parsed_types-Keeps oids (ok s) = >>=-Keeps Q _ _ (table_schema-Keeps _) (λ schema w h. h)

  parameter_oids-Keeps :
      (text : Bytes) (oids : List ℕ) → Keeps Q (parameter_oids b syntax text oids)
  unfolding parameter_oids
  parameter_oids-Keeps text oids =
      if-Keeps Q (is_empty oids) (pure oids) (bound_types b syntax text oids) (λ w h. h)
        (>>=-Keeps Q (lift _) _
          (lift-Keeps Q (bind_sql b.library text postgres (placeholders 1 oids) false))
          (λ bound. parsed_types-Keeps oids _))

  -- The property of the service, as one of the connection.
  abbrev pub Behind : Conn (ClientConn × W) → Type 0
  Behind c = Q c.world.1

  pub with_session-Keeps :
      {A : Type 0} (c : ClientConn) (x : Result Error (ClientConn × A) × W)
      → Q x.1
      → Q (with_session c x).1.1
  with_session-Keeps c (err e, w) h = h
  with_session-Keeps c (ok (next, a), w) h = h

  pub Behind-Preserved : Preserved (session_of b syntax) Behind
  unfolding session_of
  Behind-Preserved = record {
    described = λ c text h.
        with_session-Keeps c.world.0 (describe b c.world.0 text c.world.1)
          (describe-Keeps Q b read c.world.0 text c.world.1 h);
    parsed = λ c text oids h. parameter_oids-Keeps text oids c.world.1 h;
    statement = λ c name st room free h. h;
    portal = λ c name p room h. h;
    update = λ c name p q found h. h;
  }

  pub close-Behind :
      (c : Conn (ClientConn × W)) (target : Target) (name : Bytes)
      → Behind c
      → Behind (handle_close c target name).conn
  unfolding handle_close
  close-Behind c statement name h = h
  close-Behind c portal name h = h
  close-Behind c invalid_target name h = h

  MayDo-Behind :
      (msgs : List Frontend) → All Prepares msgs → All (MayDo (session_of b syntax) Behind) msgs
  MayDo-Behind [] h = tt
  MayDo-Behind (query text ∷ msgs) h = absurd h.0
  MayDo-Behind (execute name max_rows ∷ msgs) h = absurd h.0
  MayDo-Behind (close target name ∷ msgs) h =
      ((λ c k. close-Behind c target name k), MayDo-Behind msgs h.1)
  MayDo-Behind (_ ∷ msgs) h = (tt, MayDo-Behind msgs h.1)

  -- The message loop keeps each property of the Milvus service that `DescribeCollection` keeps, as
  -- long as no message is a Query or an Execute.
  pub serve-Behind :
      (lib : Library) (msgs : List Frontend) (c : Conn (ClientConn × W))
      → All Prepares msgs
      → Q c.world.1
      → Finally Behind (serve lib (session_of b syntax) msgs c).1
  serve-Behind lib msgs c only h =
      serve-Finally lib (session_of b syntax) Behind Behind-Preserved (λ d flag k. k)
        (λ d k. unfold handle_sync in k) msgs c (MayDo-Behind msgs only) h
