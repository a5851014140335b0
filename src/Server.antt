-- ===== src/Server.antt =====
-- pkg/server.go: the connections of a server, as steps of one state. A step is what stands between
-- a lock and its release, or what a goroutine does at once; sockets and TLS are left out.
pub mod Steps
pub mod Listeners
pub mod Shutdown
pub mod Run
pub mod Serve
pub mod Goroutine
use milvus_sql_proxy.Base.{ℕ, Bool, true, false, List, [], ◌∷◌, ◌==◌, if◌then◌else◌}

-- A connection in the map `conns`, and whether it is cancelled and closed.
pub record Connection : Type 0 where
  pub id : ℕ
  pub cancelled : Bool

-- `conns`, `closed`, whether the listeners are open, and the connections that `wg` counts.
pub record Server : Type 0 where
  pub conns : List Connection
  pub closed : Bool
  pub listening : Bool
  pub running : List ℕ

-- The server that `NewServer` returns.
abbrev pub new_server : Server
new_server = record { conns = []; closed = false; listening = true; running = [] }

-- `delete(s.conns, co)`
unfoldable pub drop_conn : ℕ → List Connection → List Connection
drop_conn i [] = []
drop_conn i (c ∷ cs) = let rest = drop_conn i cs in if c.id == i then rest else c ∷ rest

-- `s.wg.Done()` of one connection.
unfoldable pub done_one : ℕ → List ℕ → List ℕ
done_one i [] = []
done_one i (j ∷ js) = let rest = j ∷ done_one i js in if j == i then js else rest

unfoldable pub cancel_all : List Connection → List Connection
cancel_all [] = []
cancel_all (c ∷ cs) = record { id = c.id; cancelled = true } ∷ cancel_all cs

-- The step behind `Accept`: a server that is closed closes the connection at once.
unfoldable pub accept : ℕ → Server → Server
accept i s = if s.closed then s else record s {
  conns = record { id = i; cancelled = false } ∷ s.conns;
  running = i ∷ s.running;
}

unfoldable pub unregister : ℕ → Server → Server
unfolding drop_conn
unregister i s = record s { conns = drop_conn i s.conns }

unfoldable pub finish : ℕ → Server → Server
unfolding done_one
finish i s = record s { running = done_one i s.running }

-- `Close`
unfoldable pub close : Server → Server
unfolding cancel_all
close s =
    if s.closed
    then s
    else record s { closed = true; listening = false; conns = cancel_all s.conns }
