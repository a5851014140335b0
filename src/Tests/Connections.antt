-- ===== src/Tests/Connections.antt =====
-- Whole connections: a MySQL client whose packets are the calls of the handler, and a PostgreSQL
-- client that runs a statement.
use milvus_sql_proxy.Base.{
  some, ℕ, suc, ◌-◌, ◌≡◌, refl, List, [], ◌∷◌, codes, equal, if◌then◌else◌, Result, ok,
}
use milvus_sql_proxy.Base.Exec.{continue}
use milvus_sql_proxy.Error.{Error}
use milvus_sql_proxy.Session.{ClientConn}
use milvus_sql_proxy.Query.Calls.{CallsKeep, CountsClients}
use milvus_sql_proxy.Mysql.Connection.{
  Command, use_database, text_query, stmt_prepare, Handler, Protocol, serve_mysql,
}
use milvus_sql_proxy.Mysql.Connection.Closes.{IsDriven, serve_mysql-closes}
use milvus_sql_proxy.Postgres.Messages.{Frontend, query, terminate}
use milvus_sql_proxy.Postgres.Connection.{serve_postgres}
use milvus_sql_proxy.Postgres.Startup.{receive_startup}
use milvus_sql_proxy.Postgres.Connection.Guard.{IsRefused, serve_postgres-IsRefused}
use milvus_sql_proxy.Postgres.Connection.Admission.{EndsFor, serve_postgres-EndsFor}
use milvus_sql_proxy.Postgres.Connection.Closes.{serve_postgres-closes}
use milvus_sql_proxy.Server.{Server, new_server, accept}
use milvus_sql_proxy.Server.Steps.{step_accept, stays, then_step}
use milvus_sql_proxy.Server.Goroutine.{Input, goroutine}
use milvus_sql_proxy.Server.Goroutine.Restores.{IsRestored, goroutine-IsRestored}
use milvus_sql_proxy.Commands.{on_match}
use milvus_sql_proxy.Wire.Tag.{words_onto}
use milvus_sql_proxy.Tests.Config.{blank}
use milvus_sql_proxy.Tests.Session.{syntax, build}
use milvus_sql_proxy.Tests.Startup.{credentials, hello, parameters, wrong, right}
use milvus_sql_proxy.Tests.World.{Log, backends, clients}

-- The Milvus clients that are open, by the log of the calls made.
open_clients : Log → ℕ
open_clients [] = 0
open_clients (call ∷ log) =
    let before = open_clients log in
    if equal call (codes "connect")
    then suc before
    else if equal call (codes "close")
    then before - 1
    else before

calls_open : (n : ℕ) → CallsKeep (λ w. open_clients w ≡ n) backends.milvus
unfolding open_clients equal
calls_open n = record {
  describe_collection = λ a w h. h;
  query = λ a w h. h;
  search = λ a w h. h;
  service_describe_index = λ a b w h. h;
  describe_index = λ a b w h. h;
  upsert = λ a b w h. h;
  insert = λ a b w h. h;
  delete = λ a b w h. h;
  create_collection = λ a w h. h;
  drop_collection = λ a w h. h;
  list_databases = λ w h. h;
  list_collections = λ w h. h;
  create_database = λ a w h. h;
  drop_database = λ a w h. h;
  using_database = λ a w h. h;
  load_collection = λ a w h. h;
  release_collection = λ a w h. h;
  flush = λ a w h. h;
  create_partition = λ a b w h. h;
  drop_partition = λ a b w h. h;
  load_partitions = λ a b w h. h;
  release_partitions = λ a b w h. h;
  show_partitions = λ a w h. h;
  create_index = λ table field index w h. h;
  drop_index = λ a b w h. h;
}

counted : CountsClients backends clients open_clients
unfolding open_clients equal
counted = record { new_client = λ w. refl; close_client = λ w. refl; calls = calls_open }

-- A packet is a call of the handler.
abbrev answer_command :
    Command
    → Handler (ClientConn × Log)
    → ClientConn × Log
    → Result Error (Unit {0}) × (ClientConn × Log)
answer_command m h s = (ok tt, (h m s).1)

abbrev protocol : Protocol (ClientConn × Log) (Unit {0}) Command
protocol = record {
  new_conn = λ version tls user password h s. answer_command (use_database (codes "sales")) h s;
  handle_command = λ m h k s. answer_command m h s;
}

protocol-IsDriven : IsDriven protocol
protocol-IsDriven = record {
  new_conn = λ Q h keeps version tls user password s q. keeps (use_database (codes "sales")) s q;
  handle_command = λ Q h keeps m k s q. keeps m s q;
}

abbrev packets : List Command
packets = stmt_prepare (codes "select ?") ∷ text_query (codes "select n, id from people") ∷ []

serve_mysql-closes_example :
    open_clients (serve_mysql backends build clients protocol blank packets []) ≡ 0
unfolding open_clients
serve_mysql-closes_example =
    serve_mysql-closes backends build clients protocol protocol-IsDriven open_clients counted blank
      packets []

serve_postgres-closes_example :
    open_clients
      (serve_postgres backends syntax clients credentials
        (hello (codes "secret"))
        (query (codes "select n, id from people") ∷ terminate ∷ [])
        []).world
    ≡ 0
unfolding open_clients
serve_postgres-closes_example =
    serve_postgres-closes backends syntax clients open_clients counted credentials
      (hello (codes "secret")) (query (codes "select n, id from people") ∷ terminate ∷ []) []

mysql_calls :
    serve_mysql backends build clients protocol blank packets []
    ≡ codes "close"
      ∷ codes "query"
      ∷ codes "describe"
      ∷ codes "describe"
      ∷ codes "use"
      ∷ codes "connect"
      ∷ []
unfolding serve_mysql continue equal on_match words_onto
mysql_calls = refl

abbrev selecting : List Frontend
selecting = query (codes "select n, id from people") ∷ terminate ∷ []

serve_postgres-IsRefused_example :
    IsRefused []
      (serve_postgres backends syntax clients credentials (hello (codes "guess")) selecting [])
serve_postgres-IsRefused_example =
    serve_postgres-IsRefused backends syntax clients credentials (hello (codes "guess")) selecting
      [] wrong

serve_postgres-EndsFor_example :
    EndsFor backends syntax clients
      (some parameters)
      selecting
      []
      (serve_postgres backends syntax clients credentials (hello (codes "secret")) selecting [])
unfolding receive_startup
serve_postgres-EndsFor_example =
    serve_postgres-EndsFor backends syntax clients credentials (hello (codes "secret")) selecting []
      right

-- A server with one connection.
abbrev busy : Server
busy = accept 1 new_server

abbrev input : Input Command
input = record { hello = hello (codes "secret"); messages = selecting; packets = packets }

goroutine-IsRestored_example :
    IsRestored open_clients
      ([], busy)
      (goroutine backends syntax build clients protocol blank
        (codes "mysql")
        2
        input
        ([], accept 2 busy))
unfolding accept
goroutine-IsRestored_example =
    goroutine-IsRestored backends syntax build clients protocol protocol-IsDriven open_clients
      counted blank (codes "mysql") 2 input [] busy
      (then_step (step_accept {s = new_server} 1 refl) stays) refl refl
