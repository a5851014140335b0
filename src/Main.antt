-- ===== src/Main.antt =====
-- cmd/milvus-sql.go: the command line. The flag package, the YAML reader, the files and the network
-- are parameters.
pub mod Closed
use milvus_sql_proxy.Base.{
  ℕ, ◌^◌, Bool, List, Bytes, codes, equal, to_lower, Option, some, if◌then◌else◌, Result, ok, err,
}
use milvus_sql_proxy.Error.{Error, in_configuration}
use milvus_sql_proxy.Base.Exec.{Exec, continue}
use milvus_sql_proxy.Ast.{is_blank}
use milvus_sql_proxy.Config.{Config, or_default, parse_config_file}
use milvus_sql_proxy.Server.Listeners.{Network, new_listeners}
use milvus_sql_proxy.Server.Run.{Events, run_and_close}

pub data LogLevel : Type 0 where
  debug info warn error : LogLevel

-- The switch of `setLogLevel`.
unfoldable pub log_level : Bytes → LogLevel
unfolding equal
log_level text =
    let level = to_lower text in
    if equal level (codes "debug")
    then debug
    else if equal level (codes "warn")
    then warn
    else if equal level (codes "error")
    then error
    else info

-- A logger: the file handler that it writes to, none for that of the start, and its level.
pub record Logger (H : Type 0) : Type 0 where
  pub handler : Option H
  pub level : LogLevel

-- The global logger, and the rest of the world.
pub record Process (W H : Type 0) : Type 0 where
  pub logger : Logger H
  pub world : W

-- `setLogLevel`
abbrev pub set_log_level : {W H : Type 0} → Bytes → Process W H → Process W H
set_log_level text p = record p {
  logger = record { handler = p.logger.handler; level = log_level text };
}

pub record Flags : Type 0 where
  pub config : Bytes
  pub log_level : Bytes
  pub version : Bool

pub record Os (W H : Type 0) : Type 0 where
  pub parse_flags : List Bytes → Exec W Flags
  pub print_version : W → W
  pub print_error : Error → W → W
  pub read_file : Bytes → W → Result Error Bytes
  pub unmarshal : Bytes → Result Error Config
  pub join_path : Bytes → Bytes → Bytes
  -- the file, its greatest size, and the number of old files that are kept
  pub new_handler : Bytes → ℕ → ℕ → Exec W H
  -- `Close` of a logger
  pub close_logger : Logger H → W → W
  pub network : Network W
  pub events : Events W

module _ {W H : Type 0} (os : Os W H) where
  -- From `NewServer` to the end of `run`, with the deferred `Close`.
  unfoldable pub run_server : Config → Exec W (Unit {0})
  unfolding new_listeners run_and_close continue
  run_server cfg w =
      continue (λ ls w. run_and_close os.network os.events ls w) (new_listeners os.network cfg w)

  -- A new logger becomes the global one; when it is closed, the old one is put back.
  abbrev pub log_to_file :
      Config → Bytes → Process W H → Result Error H × W → Result Error (Unit {0}) × Process W H
  log_to_file cfg level p (err e, w) = (err e, record p { world = w })
  log_to_file cfg level p (ok h, w) =
      let logger : Logger H = record { handler = some h; level = log_level level } in
      let (r, after) = run_server cfg w in (r, record p { world = os.close_logger logger after })

  abbrev pub back :
      Process W H → Result Error (Unit {0}) × W → Result Error (Unit {0}) × Process W H
  back p (r, w) = (r, record p { world = w })

  unfoldable pub run_logged : Config → Bytes → Process W H → Result Error (Unit {0}) × Process W H
  unfolding run_server log_level
  run_logged cfg level p =
      if is_blank cfg.log_path
      then back p (run_server cfg p.world)
      else log_to_file cfg level p
          (os.new_handler (os.join_path cfg.log_path (codes "sys.log")) (2 ^ 30) 1 p.world)

  abbrev pub configured :
      Flags → Process W H → Result Error Config → Result Error (Unit {0}) × Process W H
  configured flags p (err e) = (err (in_configuration e), p)
  configured flags p (ok cfg) =
      let level = or_default flags.log_level cfg.log_level in
      run_logged cfg level (set_log_level level p)

  abbrev pub with_flags :
      Process W H → Result Error Flags × W → Result Error (Unit {0}) × Process W H
  with_flags p (err e, w) = (err e, record p { world = w })
  with_flags p (ok flags, w) =
      if flags.version
      then (ok tt, record p { world = os.print_version w })
      else configured flags (record p { world = w })
          (parse_config_file os.unmarshal (λ name. os.read_file name w) flags.config)

  -- `run`
  unfoldable pub run : List Bytes → Process W H → Result Error (Unit {0}) × Process W H
  unfolding run_logged log_level parse_config_file
  run args p = with_flags p (os.parse_flags args p.world)

  -- `main`, with the status that the process exits with.
  abbrev pub exited : Result Error (Unit {0}) × Process W H → ℕ × Process W H
  exited (ok done, p) = (0, p)
  exited (err e, p) = (1, record p { world = os.print_error e p.world })

  unfoldable pub main : List Bytes → Process W H → ℕ × Process W H
  unfolding run
  main args p = exited (run args p)
