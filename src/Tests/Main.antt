-- ===== src/Tests/Main.antt =====
-- Runs of the command: its world is the number of listeners and log files that are open, and the
-- results that the listeners have yet to send, with the addresses that were shut.
use milvus_sql_proxy.Base.{
  ℕ, suc, ◌-◌, Bool, any, equal_iff, ◌||◌, true, false, ◌≡◌, refl, List, [], ◌∷◌, Bytes, codes,
  equal, Option, none, some, ok, err,
}
use milvus_sql_proxy.Base.Exec.{continue}
use milvus_sql_proxy.Error.{Error, library}
use milvus_sql_proxy.Config.{Config}
use milvus_sql_proxy.Server.Listeners.{Network, Listener}
use milvus_sql_proxy.Server.Run.{Events, outcome, run_loop, run_and_close}
use milvus_sql_proxy.Server.Run.First.{
  first_error, started, received, StaysShut, ShutFor, run_and_close-first,
}
use milvus_sql_proxy.Main.{debug, info, Process, Os, main}
use milvus_sql_proxy.Main.Closed.{CountsOpen, IsRestored, main-IsRestored}
use milvus_sql_proxy.Tests.Config.{blank}

record World : Type 0 where
  open_count : ℕ
  results : List (Option Error)
  addresses_shut : List Bytes

abbrev opens : World → World
opens w = record w { open_count = suc w.open_count }

abbrev closes : World → World
closes w = record w { open_count = w.open_count - 1 }

abbrev next_result : List (Option Error) → World → Option Error × World
next_result [] w = (none, w)
next_result (r ∷ results) w = (r, record w { results = results })

abbrev network : Network World
network = record {
  listen = λ addr w. (ok tt, opens w);
  shut = λ addr w. record (closes w) { addresses_shut = addr ∷ w.addresses_shut };
  load_key_pair = λ cert key w. (ok tt, w);
}

abbrev events : Events World
events = record { signal = λ w. (false, w); result = λ w. next_result w.results w; wait = λ w. w }

abbrev two_listeners : List Listener
two_listeners =
    (codes "mysql", codes "127.0.0.1:3306") ∷ (codes "postgres", codes "127.0.0.1:5432") ∷ []

abbrev serving : World
serving = record { open_count = 2; results = none ∷ some (library 7) ∷ []; addresses_shut = [] }

second_fails :
    received network events two_listeners two_listeners started serving
    ≡ none ∷ some (library 7) ∷ []
unfolding received
second_fails = refl

-- The address of a listener is among those that were shut.
IsShut : Listener → World → Type 0
IsShut l w = any (λ addr. equal addr l.1) w.addresses_shut ≡ true

shut_stays : StaysShut network events IsShut
unfolding IsShut
shut_stays = record {
  shut = λ l w. rw ((equal_iff l.1 l.1).1 refl) refl;
  other = λ l m w h. later (equal m.1 l.1) h;
  signal = λ l w h. h;
  result = λ l w h. kept w.results l w h;
}
  where
    later : (b : Bool) {c : Bool} → c ≡ true → (b || c) ≡ true
    later true h = refl
    later false h = h

    kept :
        (rs : List (Option Error)) (l : Listener) (w : World)
        → IsShut l w
        → IsShut l (next_result rs w).1
    kept [] l w h = h
    kept (r ∷ rs) l w h = h

run_and_close-first_example :
    ((run_and_close network events two_listeners serving).0
      ≡ outcome (first_error (received network events two_listeners two_listeners started serving)))
    × ((some_results : List Listener)
        → ShutFor network events two_listeners IsShut shut_stays
            (first_error (received network events two_listeners some_results started serving))
            (run_loop network events two_listeners some_results started serving).1)
run_and_close-first_example =
    run_and_close-first network events two_listeners IsShut shut_stays serving

both_closed : run_and_close network events two_listeners serving ≡ (
  err (library 7),
  record {
    open_count = 0;
    results = [];
    addresses_shut = codes "127.0.0.1:5432" ∷ codes "127.0.0.1:3306" ∷ [];
  },
)
unfolding run_and_close
both_closed = refl

-- The log goes to a file.
abbrev configuration : Config
configuration = record blank {
  mode = codes "both";
  log_level = codes "warn";
  log_path = codes "/var/log";
}

abbrev os : Os World Bytes
os = record {
  parse_flags = λ args w.
      (ok (record { config = codes "c.yaml"; log_level = codes "DEBUG"; version = false }), w);
  print_version = λ w. w;
  print_error = λ e w. w;
  read_file = λ name w. ok [];
  unmarshal = λ text. ok configuration;
  join_path = λ directory name. name;
  new_handler = λ name size kept w. (ok name, opens w);
  close_logger = λ l w. closes w;
  network = network;
  events = events;
}

result_open :
    (results : List (Option Error)) (w : World)
    → (next_result results w).1.open_count ≡ w.open_count
result_open [] w = refl
result_open (r ∷ results) w = refl

os-CountsOpen : CountsOpen os (λ w. w.open_count)
os-CountsOpen = record {
  listeners = record {
    load_key_pair = λ cert key w. refl;
    listen = λ addr w. refl;
    shut = λ addr w. refl;
    signal = λ w. refl;
    result = λ w. result_open w.results w;
    wait = λ w. refl;
  };
  parse_flags = λ args w. refl;
  print_version = λ w. refl;
  print_error = λ e w. refl;
  new_handler = λ name size kept w. refl;
  close_logger = λ l w. refl;
}

abbrev process : Process World Bytes
process = record {
  logger = record { handler = none; level = info };
  world = record { open_count = 1; results = none ∷ some (library 7) ∷ []; addresses_shut = [] };
}

served_with_debug : main os [] process ≡ (
  1,
  record {
    logger = record { handler = none; level = debug };
    world = record {
      open_count = 1;
      results = [];
      addresses_shut = codes "127.0.0.1:5432" ∷ codes "127.0.0.1:3306" ∷ [];
    };
  },
)
unfolding main continue equal
served_with_debug = refl

main-IsRestored_example : IsRestored (λ w. w.open_count) process (main os [] process).1
main-IsRestored_example = main-IsRestored os (λ w. w.open_count) os-CountsOpen [] process
