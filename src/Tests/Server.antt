-- ===== src/Tests/Server.antt =====
-- A run of a server: two connections, one of which ends before the server is closed.
use milvus_sql_proxy.Base.{refl}
use milvus_sql_proxy.Server.{Server, new_server, accept, unregister, finish, close}
use milvus_sql_proxy.Server.Steps.{
  step_accept, step_unregister, step_finish, Steps, stays, then_step, IsSound, reached-IsSound,
}
use milvus_sql_proxy.Server.Shutdown.{finishes, IsClosing, close-IsClosing}

abbrev busy_server : Server
busy_server = finish 1 (unregister 1 (accept 2 (accept 1 new_server)))

serving : Steps new_server busy_server
unfolding accept unregister finish
serving = then_step (step_accept {s = new_server} 1 refl) (
    then_step (step_accept 2 refl)
      (then_step (step_unregister 1 refl) (then_step (step_finish 1 refl refl) stays)))

-- The last connection ends once the server is closed, and another one comes too late.
abbrev last_server : Server
last_server = finish 2 (unregister 2 (accept 3 (close busy_server)))

closing : Steps (close busy_server) last_server
unfolding accept unregister finish close
closing =
    then_step (step_accept 3 refl)
      (then_step (step_unregister 2 refl) (then_step (step_finish 2 refl refl) stays))

reached-IsSound_example : IsSound busy_server
reached-IsSound_example = reached-IsSound serving

close-IsClosing_example : IsClosing busy_server last_server (finishes closing)
close-IsClosing_example = close-IsClosing serving closing
