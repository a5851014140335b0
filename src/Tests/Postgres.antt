-- ===== src/Tests/Postgres.antt =====
-- Runs of the message loop of a PostgreSQL connection.
use milvus_sql_proxy.Base.{
  ℕ, ◌+◌, true, false, ◌≡◌, refl, List, [], ◌∷◌, ◌++◌, codes, equal, none, some, ok, arith, map,
  pos,
}
use milvus_sql_proxy.Resultset.{format_value, QueryResult, Resultset, result_field, field_int64}
use milvus_sql_proxy.Postgres.Dictionary.{lookup, named}
use milvus_sql_proxy.Postgres.Handlers.{Session, Conn, handle_query}
use milvus_sql_proxy.Postgres.Messages.{
  statement, Frontend, query, parse, execute, close, sync, ready_for_query, command_complete,
  Statement, Portal,
}
use milvus_sql_proxy.Value.{signed, int64}
use milvus_sql_proxy.Bind.{bind_sql}
use milvus_sql_proxy.Wire.{pg_value}
use milvus_sql_proxy.Wire.Tag.{words_onto, pg_tag}
use milvus_sql_proxy.Postgres.Loop.{goes, turn, serve}
use milvus_sql_proxy.Postgres.Loop.Rule.{Finally}
use milvus_sql_proxy.Postgres.Loop.Limits.{IsBounded, Knows, serve-IsBounded, serve-Knows}
use milvus_sql_proxy.Postgres.Loop.Recovery.{serve-recovers}
use milvus_sql_proxy.Postgres.Encoding.{pg_rows}
use milvus_sql_proxy.Postgres.Loop.Pages.{Encodes}
use milvus_sql_proxy.Postgres.Loop.Pages.Runs.{RunHands, serve-pages}
use milvus_sql_proxy.Postgres.Loop.Ready.{count_ready}
use milvus_sql_proxy.Postgres.Loop.Ready.Turns.{ready_after, turn-ready}
use milvus_sql_proxy.Tests.{library}

abbrev done : QueryResult
done = record { status = 0; insert_id = 0; affected_rows = 0; resultset = none }

-- A session that counts its calls.
abbrev counting : Session ℕ
counting = record { run = λ w q flag. (ok done, w + 1); parameter_oids = λ w q oids. (ok oids, w) }

abbrev load : Statement
load = record { query = codes "load table t"; oids = [] }

-- A connection that has failed.
abbrev failed : Conn ℕ
failed = record { statements = (codes "s", load) ∷ []; portals = []; failed = true; world = 5 }

abbrev running : Conn ℕ
running = record failed { failed = false }

abbrev skipped : List Frontend
skipped = parse (codes "u") (codes "select 1") [] ∷ execute (codes "p") 0 ∷ []

serve-recovers_example :
    let behind = serve library counting (close statement (codes "u") ∷ []) running in
    serve library counting (skipped ++ sync ∷ close statement (codes "u") ∷ []) failed
    ≡ (ready_for_query ∷ behind.0, behind.1)
serve-recovers_example =
    serve-recovers library counting skipped (close statement (codes "u") ∷ []) failed refl
      (tt, (tt, tt))

abbrev messages : List Frontend
messages = parse (codes "u") (codes "load table u") [] ∷ execute (codes "p") 0 ∷ sync ∷ []

running-IsBounded : IsBounded running
unfolding named
running-IsBounded = record { statements = omega arith; portals = omega arith }

serve-IsBounded_example : Finally IsBounded (serve library counting messages running).1
serve-IsBounded_example = serve-IsBounded library counting messages running running-IsBounded

known : lookup (codes "s") running.statements ≡ some load
unfolding lookup equal
known = refl

serve-Knows_example :
    Finally (Knows (codes "s") load refl) (serve library counting messages running).1
serve-Knows_example =
    serve-Knows (codes "s") load refl library counting messages running (tt, (tt, (tt, tt))) known

loaded :
    turn library counting running (query (codes "load table t"))
    ≡ goes (record running { world = 6 }) (command_complete (codes "LOAD") ∷ ready_for_query ∷ [])
unfolding turn equal handle_query words_onto bind_sql pg_tag
loaded = refl

turn-ready_example :
    count_ready (command_complete (codes "LOAD") ∷ ready_for_query ∷ [])
    ≡ ready_after false (query (codes "load table t"))
turn-ready_example =
    turn-ready library counting running (record running { world = 6 })
      (query (codes "load table t")) (command_complete (codes "LOAD") ∷ ready_for_query ∷ []) loaded

-- Two rows of one column.
abbrev two_rows : Resultset
two_rows = record {
  fields = result_field (codes "id") field_int64 ∷ [];
  values = (signed int64 (pos 1) ∷ []) ∷ (signed int64 (pos 2) ∷ []) ∷ [];
}

abbrev selected : QueryResult
selected = record { status = 0; insert_id = 0; affected_rows = 0; resultset = some two_rows }

abbrev selecting : Session ℕ
selecting = record {
  run = λ w q flag. (ok selected, w + 1);
  parameter_oids = λ w q oids. (ok oids, w);
}

abbrev fresh : Portal
fresh = record {
  query = codes "select id from t";
  formats = [];
  result = none;
  pos = 0;
  completed = false;
}

abbrev bound : Conn ℕ
bound = record { statements = []; portals = (codes "p", fresh) ∷ []; failed = false; world = 5 }

there : lookup (codes "p") bound.portals ≡ some fresh
unfolding lookup equal
there = refl

encodes : Encodes library two_rows.fields [] two_rows.values
unfolding pg_rows pg_value format_value
encodes = refl

serve-pages_example :
    RunHands library selecting
      (codes "p")
      selected
      two_rows
      []
      6
      0
      (serve library selecting (execute (codes "p") 1 ∷ map (execute (codes "p")) (0 ∷ [])) bound)
serve-pages_example =
    serve-pages library selecting (codes "p") selected two_rows [] 6 bound fresh 1 (0 ∷ []) there
      (refl, refl, refl, refl) refl refl refl encodes
