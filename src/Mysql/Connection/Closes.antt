-- ===== src/Mysql/Connection/Closes.antt =====
-- What a MySQL connection does to the Milvus service.
use milvus_sql_proxy.Base.{
  ℕ, suc, not, codes, Bool, true, ◌≡◌, ◌∙◌, List, [], ◌∷◌, Bytes, Result, ok, err, arith,
}
use milvus_sql_proxy.Base.Exec.{opened}
use milvus_sql_proxy.Base.Exec.Keeps.{Keeps, continue-Keeps}
use milvus_sql_proxy.Error.{Error}
use milvus_sql_proxy.Value.{Value}
use milvus_sql_proxy.Ast.{is_blank}
use milvus_sql_proxy.Config.{Config}
use milvus_sql_proxy.Session.{ClientConn, Clients, new_session, with_session}
use milvus_sql_proxy.Query.{Backends}
use milvus_sql_proxy.Query.Quiet.{describe-Keeps}
use milvus_sql_proxy.Query.Calls.{CallsKeep, CountsClients}
use milvus_sql_proxy.Query.Calls.Writes.{handle_use_db-Keeps}
use milvus_sql_proxy.Query.Calls.Execute.{execute-Keeps}
use milvus_sql_proxy.Mysql.{
  BuildRows, use_db, run, handle_text_query, handle_stmt_prepare, handle_stmt_execute,
}
use milvus_sql_proxy.Mysql.Connection.{
  Command, use_database, text_query, field_list, stmt_prepare, stmt_execute, stmt_close,
  other_command, Handler, Protocol, using_db, preparing, handler, after_command, serve_commands,
  serve_client, serve_mysql,
}

-- The library does nothing to the state of a handler but by its methods: what each of them keeps,
-- the library keeps.
pub record IsDriven {S K P : Type 0} (protocol : Protocol S K P) : Type 1 where
  pub new_conn :
      (Q : S → Type 0) (h : Handler S)
      → ((m : Command) (s : S) → Q s → Q (h m s).1)
      → (version : Bytes) (tls : Bool) (user password : Bytes) (s : S) → Q s
      → Q (protocol.new_conn version tls user password h s).1
  pub handle_command :
      (Q : S → Type 0) (h : Handler S)
      → ((m : Command) (s : S) → Q s → Q (h m s).1)
      → (p : P) (k : K) (s : S) → Q s
      → Q (protocol.handle_command p h k s).1

module _ {W C : Type 0} (Q : W → Type 0) (b : Backends W C) (build : BuildRows)
    (calls : CallsKeep Q b.milvus) where
  behind-with_session :
      {A : Type 0} (c : ClientConn) (x : Result Error (ClientConn × A) × W)
      → Q x.1
      → Q (with_session c x).1.1
  behind-with_session c (err e, w) h = h
  behind-with_session c (ok (next, a), w) h = h

  using_db-Keeps : (c : ClientConn) (name : Bytes) → Keeps Q (using_db b build c name)
  unfolding use_db
  using_db-Keeps c name w h =
      continue-Keeps Q _ _ (λ r w' h'. h')
        (continue-Keeps Q _ _ (λ r w' h'. h') (handle_use_db-Keeps Q b.milvus calls c name w h))

  run-Keeps : (c : ClientConn) (q : Bytes) (binary : Bool) → Keeps Q (run b build c q binary)
  unfolding run
  run-Keeps c q binary w h =
      continue-Keeps Q _ _ (λ r w1 h1. continue-Keeps Q _ _ (λ m w' h'. h') h1)
        (execute-Keeps Q b calls c q w h)

  preparing-Keeps : (c : ClientConn) (q : Bytes) → Keeps Q (preparing b build c q)
  unfolding handle_stmt_prepare
  preparing-Keeps c q w h =
      continue-Keeps Q _ _ (λ p w' h'. h')
        (continue-Keeps Q _ _
          (λ bound w1 h1.
            continue-Keeps Q _ _ (λ r w' h'. h')
              (describe-Keeps Q b calls.describe_collection c bound.0 w1 h1))
          h)

  handle_stmt_execute-Keeps :
      (c : ClientConn) (q : Bytes) (args : List Value)
      → Keeps Q (handle_stmt_execute b build c q args)
  unfolding handle_stmt_execute
  handle_stmt_execute-Keeps c q args w h =
      continue-Keeps Q _ _ (λ bound. run-Keeps c bound.0 true) h

  handler-Keeps : (m : Command) (s : ClientConn × W) → Q s.1 → Q (handler b build m s).1.1
  unfolding handler handle_text_query
  handler-Keeps (use_database name) (c, w) h =
      behind-with_session c (using_db b build c name w) (using_db-Keeps c name w h)
  handler-Keeps (text_query q) (c, w) h = behind-with_session c _ (run-Keeps c q _ w h)
  handler-Keeps (field_list table wildcard) s h = h
  handler-Keeps (stmt_prepare q) (c, w) h =
      behind-with_session c (preparing b build c q w) (preparing-Keeps c q w h)
  handler-Keeps (stmt_execute q args) (c, w) h =
      behind-with_session c (handle_stmt_execute b build c q args w)
        (handle_stmt_execute-Keeps c q args w h)
  handler-Keeps stmt_close s h = h
  handler-Keeps (other_command code arguments) s h = h

module _ {W C K P : Type 0} (b : Backends W C) (build : BuildRows) (clients : Clients W)
    (protocol : Protocol (ClientConn × W) K P) (driven : IsDriven protocol) where
  module _ (Q : W → Type 0) (calls : CallsKeep Q b.milvus) where
    after_command-Keeps :
        (more : K → ClientConn × W → ClientConn × W) (x : Result Error K × (ClientConn × W))
        → ((k : K) (s : ClientConn × W) → Q s.1 → Q (more k s).1)
        → Q x.1.1
        → Q (after_command b build clients protocol more x).1
    after_command-Keeps more (err e, s) k h = h
    after_command-Keeps more (ok conn, s) k h = k conn s h

    serve_commands-Keeps :
        (packets : List P) (k : K) (s : ClientConn × W)
        → Q s.1
        → Q (serve_commands b build clients protocol packets k s).1
    unfolding serve_commands
    serve_commands-Keeps [] k s h = h
    serve_commands-Keeps (p ∷ packets) k s h =
        after_command-Keeps (serve_commands b build clients protocol packets) _
          (serve_commands-Keeps packets)
          (driven.handle_command (λ s. Q s.1) (handler b build) (handler-Keeps Q b build calls) p k
            s h)

  module _ (open_count : W → ℕ) (counts : CountsClients b clients open_count) where
    serve_client-closes :
        (cfg : Config) (packets : List P) (n : ℕ) (x : Result Error (Unit {0}) × W)
        → open_count x.1 ≡ opened x.0 n
        → open_count (serve_client b build clients protocol cfg packets x) ≡ n
    serve_client-closes cfg packets n (err e, w) h = h
    serve_client-closes cfg packets n (ok done, w) h =
        let Q = λ (w : W). open_count w ≡ suc n in
        let calls = counts.calls (suc n) in
        let made =
          protocol.new_conn (codes "8.0.11-milvus-sql-proxy") (not (is_blank cfg.tls_cert)) cfg.user
            cfg.password (handler b build) (new_session, w) in
        let served =
          after_command-Keeps Q calls (serve_commands b build clients protocol packets) made
            (serve_commands-Keeps Q calls packets)
            (driven.new_conn (λ s. Q s.1) (handler b build) (handler-Keeps Q b build calls)
              (codes "8.0.11-milvus-sql-proxy") (not (is_blank cfg.tls_cert)) cfg.user cfg.password
              (new_session, w) h) in
        counts.close_client _ ∙ omega (arith, served)

    -- A MySQL connection leaves as many Milvus clients open as there were: the one that is made for it
    -- is closed, whether the handshake succeeds or not, and whatever commands follow. This is of a
    -- protocol library that acts on the session only by the methods of the handler.
    pub serve_mysql-closes :
        (cfg : Config) (packets : List P) (w : W)
        → open_count (serve_mysql b build clients protocol cfg packets w) ≡ open_count w
    unfolding serve_mysql
    serve_mysql-closes cfg packets w =
        serve_client-closes cfg packets (open_count w) (clients.new_client w) (counts.new_client w)
