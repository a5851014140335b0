-- ===== src/Mysql/Connection.antt =====
-- `serveMySQL`: the set-up of a connection, its commands, and the `Close` of the session. The
-- protocol library is a parameter: it makes a connection and handles one packet after the other, and
-- calls the methods of the handler for what it needs of the session. What the client sends is an
-- input, of packets that the library reads; where it ends, reading fails.
pub mod Closes
use milvus_sql_proxy.Base.{ℕ, not, Bool, List, [], ◌∷◌, Bytes, codes, Result, ok, err}
use milvus_sql_proxy.Base.Exec.{Exec, ◌>>=◌, pure}
use milvus_sql_proxy.Error.{Error}
use milvus_sql_proxy.Ast.{is_blank}
use milvus_sql_proxy.Value.{Value}
use milvus_sql_proxy.Resultset.{Field}
use milvus_sql_proxy.Config.{Config}
use milvus_sql_proxy.Session.{ClientConn, Clients, new_session, with_session}
use milvus_sql_proxy.Query.{Backends}
use milvus_sql_proxy.Mysql.{
  BuildRows, MysqlResult, Prepared, use_db, handle_text_query, handle_stmt_prepare,
  handle_stmt_execute, handle_field_list, handle_stmt_close, handle_other_command,
}

-- The methods of the handler, with their arguments, and what they return.
pub data Command : Type 0 where
  use_database : Bytes → Command
  text_query : Bytes → Command
  -- the table and the wildcard
  field_list : Bytes → Bytes → Command
  stmt_prepare : Bytes → Command
  stmt_execute : Bytes → List Value → Command
  stmt_close : Command
  other_command : ℕ → Bytes → Command

pub data Answer : Type 0 where
  done : Result Error (Unit {0}) → Answer
  queried : Result Error MysqlResult → Answer
  listed : Result Error (List Field) → Answer
  prepared : Result Error Prepared → Answer

-- A handler over the state `S`, and the library: the version and whether there is a TLS
-- configuration, the user and the password, and the packets that are read.
abbrev pub Handler : Type 0 → Type 0
Handler S = Command → S → Answer × S

pub record Protocol (S K P : Type 0) : Type 0 where
  pub new_conn : Bytes → Bool → Bytes → Bytes → Handler S → S → Result Error K × S
  pub handle_command : P → Handler S → K → S → Result Error K × S

module _ {W C : Type 0} (b : Backends W C) (build : BuildRows) where
  abbrev pub answer :
      {A : Type 0}
      → (Result Error A → Answer)
      → Result Error A × (ClientConn × W)
      → Answer × (ClientConn × W)
  answer f (r, s) = (f r, s)

  -- `UseDB` and `HandleStmtPrepare` have no other result than the session's and the announcement.
  abbrev pub using_db : ClientConn → Bytes → Exec W (ClientConn × Unit {0})
  using_db c name = use_db b build c name >>= λ next. pure (next, tt)

  abbrev pub preparing : ClientConn → Bytes → Exec W (ClientConn × Prepared)
  preparing c q = handle_stmt_prepare b build c q >>= λ p. pure (c, p)

  -- A `mysqlHandler`.
  unfoldable pub handler : Handler (ClientConn × W)
  unfolding use_db handle_text_query handle_stmt_prepare handle_stmt_execute
  handler (use_database name) (c, w) = answer done (with_session c (using_db c name w))
  handler (text_query q) (c, w) = answer queried (with_session c (handle_text_query b build c q w))
  handler (field_list table wildcard) s = (listed handle_field_list, s)
  handler (stmt_prepare q) (c, w) = answer prepared (with_session c (preparing c q w))
  handler (stmt_execute q args) (c, w) =
      answer queried (with_session c (handle_stmt_execute b build c q args w))
  handler stmt_close s = (done handle_stmt_close, s)
  handler (other_command code arguments) s = (done handle_other_command, s)

module _ {W C K P : Type 0} (b : Backends W C) (build : BuildRows) (clients : Clients W)
    (protocol : Protocol (ClientConn × W) K P) where
  -- The loop over `HandleCommand`.
  abbrev pub after_command :
      (K → ClientConn × W → ClientConn × W) → Result Error K × (ClientConn × W) → ClientConn × W
  after_command more (err e, s) = s
  after_command more (ok k, s) = more k s

  unfoldable pub serve_commands : List P → K → ClientConn × W → ClientConn × W
  unfolding handler
  serve_commands [] k s = s
  serve_commands (p ∷ packets) k s =
      after_command (serve_commands packets) (protocol.handle_command p (handler b build) k s)

  -- The service behind the session, once it is closed.
  abbrev pub close_behind : ClientConn × W → W
  close_behind (c, w) = clients.close_client w

  abbrev pub serve_client : Config → List P → Result Error (Unit {0}) × W → W
  serve_client cfg packets (err e, w) = w
  serve_client cfg packets (ok opened, w) = close_behind (
      after_command (serve_commands packets) (
        protocol.new_conn (codes "8.0.11-milvus-sql-proxy") (not (is_blank cfg.tls_cert)) cfg.user
          cfg.password (handler b build) (new_session, w)))

  -- `serveMySQL`
  unfoldable pub serve_mysql : Config → List P → W → W
  unfolding serve_commands handler
  serve_mysql cfg packets w = serve_client cfg packets (clients.new_client w)
