-- ===== src/Main/Closed.antt =====
-- What a run of the command leaves open.
use milvus_sql_proxy.Base.{
  ℕ, ◌-◌, ◌≡◌, refl, ◌∙◌, List, Bytes, ok, err, some, Result, Bool-cases, inl, inr, arith,
}
use milvus_sql_proxy.Ast.{is_blank}
use milvus_sql_proxy.Error.{Error}
use milvus_sql_proxy.Base.Exec.{continue, opened}
use milvus_sql_proxy.Config.{Config, or_default, parse_config_file}
use milvus_sql_proxy.Server.Listeners.{Listener, new_listeners}
use milvus_sql_proxy.Server.Run.{run_and_close}
use milvus_sql_proxy.Server.Run.Closes.{
  CountsListeners, run_and_close-open, HasOpened, new_listeners-HasOpened,
}
use milvus_sql_proxy.Main.{
  Logger, Process, Flags, Os, run_server, log_to_file, run_logged, configured, with_flags, run,
  exited, main, set_log_level, log_level,
}

-- A count of the listeners and the log files that are open.
pub record CountsOpen {W H : Type 0} (os : Os W H) (open_count : W → ℕ) : Type 0 where
  pub listeners : CountsListeners os.network os.events open_count
  pub parse_flags :
      (args : List Bytes) (w : W) → open_count (os.parse_flags args w).1 ≡ open_count w
  pub print_version : (w : W) → open_count (os.print_version w) ≡ open_count w
  pub print_error : (e : Error) (w : W) → open_count (os.print_error e w) ≡ open_count w
  pub new_handler :
      (name : Bytes) (size kept : ℕ) (w : W)
      → open_count (os.new_handler name size kept w).1
        ≡ opened (os.new_handler name size kept w).0 (open_count w)
  pub close_logger : (l : Logger H) (w : W) → open_count (os.close_logger l w) ≡ open_count w - 1

-- What `run` leaves of a process: as many open as there were, and the same global logger, but for
-- its level.
pub record IsRestored {W H : Type 0} (open_count : W → ℕ) (p after : Process W H) : Type 0 where
  pub closed : open_count after.world ≡ open_count p.world
  pub handler : after.logger.handler ≡ p.logger.handler

module _ {W H : Type 0} (os : Os W H) (open_count : W → ℕ) (c : CountsOpen os open_count) where
  run_server-open : (cfg : Config) (w : W) → open_count (run_server os cfg w).1 ≡ open_count w
  unfolding run_server
  run_server-open cfg w =
      served (open_count w) (new_listeners os.network cfg w)
        (new_listeners-HasOpened os.network os.events open_count c.listeners cfg w)
    where
      served :
          (n : ℕ) (x : Result Error (List Listener) × W)
          → HasOpened os.network os.events open_count c.listeners n x
          → open_count (continue (λ ls w. run_and_close os.network os.events ls w) x).1 ≡ n
      served n (err e, w) h = h
      served n (ok ls, w) h =
          run_and_close-open os.network os.events open_count c.listeners ls n w h

  log_to_file-IsRestored :
      (cfg : Config) (level : Bytes) (p : Process W H) (x : Result Error H × W)
      → open_count x.1 ≡ opened x.0 (open_count p.world)
      → IsRestored open_count p (log_to_file os cfg level p x).1
  log_to_file-IsRestored cfg level p (err e, w) h = record { closed = h; handler = refl }
  log_to_file-IsRestored cfg level p (ok file, w) h =
      let served = run_server-open cfg w in
      let closed =
        c.close_logger (record { handler = some file; level = log_level level })
          (run_server os cfg w).1 in
      record { closed = omega arith; handler = refl }

  run_logged-IsRestored :
      (cfg : Config) (level : Bytes) (p : Process W H)
      → IsRestored open_count p (run_logged os cfg level p).1
  unfolding run_logged
  run_logged-IsRestored cfg level p = elim (Bool-cases (is_blank cfg.log_path)) [
    | inl e ↦ rw e (record { closed = run_server-open cfg p.world; handler = refl })
    | inr e ↦ rw e (log_to_file-IsRestored cfg level p _ (c.new_handler _ _ _ p.world))
  ]

  configured-IsRestored :
      (flags : Flags) (p : Process W H) (cfg : Result Error Config)
      → IsRestored open_count p (configured os flags p cfg).1
  configured-IsRestored flags p (err e) = record { closed = refl; handler = refl }
  configured-IsRestored flags p (ok cfg) =
      let level = or_default flags.log_level cfg.log_level in
      let rest = run_logged-IsRestored cfg level (set_log_level level p) in
      record { closed = rest.closed; handler = rest.handler }

  with_flags-IsRestored :
      (p : Process W H) (x : Result Error Flags × W)
      → open_count x.1 ≡ open_count p.world
      → IsRestored open_count p (with_flags os p x).1
  with_flags-IsRestored p (err e, w) h = record { closed = h; handler = refl }
  with_flags-IsRestored p (ok flags, w) h = elim (Bool-cases flags.version) [
    | inl e ↦ rw e (record { closed = c.print_version w ∙ h; handler = refl })
    | inr e ↦
        let rest =
          configured-IsRestored flags (record p { world = w })
            (parse_config_file os.unmarshal (λ name. os.read_file name w) flags.config) in
        rw e (record { closed = rest.closed ∙ h; handler = rest.handler })
  ]

  run-IsRestored : (args : List Bytes) (p : Process W H) → IsRestored open_count p (run os args p).1
  unfolding run
  run-IsRestored args p =
      with_flags-IsRestored p (os.parse_flags args p.world) (c.parse_flags args p.world)

  -- The command leaves no listener and no log file open, and puts the global logger back, on every
  -- path: a wrong flag, a configuration or a log file that cannot be read, a second listener that
  -- cannot be opened, a listener that fails, a signal, or none of these.
  pub main-IsRestored :
      (args : List Bytes) (p : Process W H) → IsRestored open_count p (main os args p).1
  unfolding main
  main-IsRestored args p = reported (run os args p) (run-IsRestored args p)
    where
      reported :
          (x : Result Error (Unit {0}) × Process W H)
          → IsRestored open_count p x.1
          → IsRestored open_count p (exited os x).1
      reported (ok done, after) h = h
      reported (err e, after) h = record {
        closed = c.print_error e after.world ∙ h.closed;
        handler = h.handler;
      }
