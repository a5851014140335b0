-- ===== src/Server/Goroutine/Restores.antt =====
-- What is left of a connection once it is served.
use milvus_sql_proxy.Base.{
  ℕ, Bool, true, false, ◌≡◌, refl, sym, ◌∙◌, ap, List, [], ◌∷◌, Bytes, codes, equal, ◌==◌, arith,
  All, Bool-cases, inl, inr, if◌then◌else◌, false-true,
}
use milvus_sql_proxy.Config.{Config}
use milvus_sql_proxy.Session.{ClientConn, Clients}
use milvus_sql_proxy.Query.{Backends}
use milvus_sql_proxy.Query.Calls.{CountsClients}
use milvus_sql_proxy.Parameters.{Syntax}
use milvus_sql_proxy.Mysql.{BuildRows}
use milvus_sql_proxy.Mysql.Connection.{Protocol}
use milvus_sql_proxy.Mysql.Connection.Closes.{IsDriven, serve_mysql-closes}
use milvus_sql_proxy.Postgres.Connection.Closes.{serve_postgres-closes}
use milvus_sql_proxy.Server.{
  Connection, Server, new_server, drop_conn, done_one, accept, unregister, finish,
}
use milvus_sql_proxy.Server.Steps.{Steps, counts, registers, reached-IsHeld}
use milvus_sql_proxy.Server.Shutdown.{done_one_self}
use milvus_sql_proxy.Server.Goroutine.{Input, credentials_of, serve_conn, goroutine}

-- The server is what it was, and so is the number of Milvus clients that are open.
pub record IsRestored {W : Type 0} (open_count : W → ℕ) (before after : W × Server) : Type 0 where
  pub server : after.1 ≡ before.1
  pub clients : open_count after.0 ≡ open_count before.0

drop_conn-of_absent : (i : ℕ) (cs : List Connection) → registers i cs ≡ false → drop_conn i cs ≡ cs
unfolding drop_conn
drop_conn-of_absent i [] h = refl
drop_conn-of_absent i (c ∷ cs) h = ground (arith, drop_conn-of_absent i cs)

not_registered :
    (i : ℕ) (js : List ℕ) (cs : List Connection)
    → counts i js ≡ false
    → All (λ c. counts c.id js ≡ true) cs
    → registers i cs ≡ false
not_registered i js [] h k = refl
not_registered i js (c ∷ cs) h k = elim (Bool-cases (c.id == i)) [
  | inl e ↦
      let same : c.id ≡ i = ground (arith, e) in
      absurd (false-true (sym h ∙ ap (λ n. counts n js) (sym same) ∙ k.0))
  | inr e ↦ rw e (not_registered i js cs h k.1)
]

otherwise : (b : Bool) (s t : Server) → b ≡ false → (if b then s else t) ≡ t
otherwise true s t e = absurd (false-true (sym e))
otherwise false s t e = refl

accept-of_open :
    (i : ℕ) (s : Server)
    → s.closed ≡ false
    → accept i s
      ≡ record s { conns = record { id = i; cancelled = false } ∷ s.conns; running = i ∷ s.running }
unfolding accept
accept-of_open i s ready = otherwise s.closed s _ ready

drop_conn_self :
    (i : ℕ) (flag : Bool) (cs : List Connection)
    → registers i cs ≡ false
    → drop_conn i (record { id = i; cancelled = flag } ∷ cs) ≡ cs
unfolding drop_conn
drop_conn_self i flag cs absent = ground (arith, drop_conn-of_absent i cs absent)

-- A connection that is new leaves the server as it was.
left_as_it_was :
    (i : ℕ) (s : Server)
    → s.closed ≡ false
    → registers i s.conns ≡ false
    → finish i (unregister i (accept i s)) ≡ s
unfolding unregister finish
left_as_it_was i s ready absent =
    ap (λ t. finish i (unregister i t)) (accept-of_open i s ready)
    ∙ ap (λ cs. record s { conns = cs; running = done_one i (i ∷ s.running) })
        (drop_conn_self i false s.conns absent)
    ∙ ap (λ js. record s { running = js }) (done_one_self i s.running)

module _ {W C K P : Type 0} (b : Backends W C) (syntax : Syntax) (build : BuildRows)
    (clients : Clients W) (protocol : Protocol (ClientConn × W) K P) (driven : IsDriven protocol)
    (open_count : W → ℕ) (counted : CountsClients b clients open_count) where
  serve_conn-closes :
      (cfg : Config) (mode : Bytes) (input : Input P) (w : W)
      → open_count (serve_conn b syntax build clients protocol cfg mode input w) ≡ open_count w
  serve_conn-closes cfg mode input w = elim (Bool-cases (equal mode (codes "postgres"))) [
    | inl e ↦ rw e (
        serve_postgres-closes b syntax clients open_count counted (credentials_of cfg) input.hello
          input.messages w)
    | inr e ↦
        rw e (
          serve_mysql-closes b build clients protocol driven open_count counted cfg input.packets w)
  ]

  -- A new connection that an open server accepts, in whatever state it is, and serves to its end,
  -- with nothing between, leaves the server as it was: the same connections are registered, `Run`
  -- waits for the same ones, and as many Milvus clients are open, in either mode and whatever the
  -- client sends.
  pub goroutine-IsRestored :
      (cfg : Config) (mode : Bytes) (i : ℕ) (input : Input P) (w : W) (s : Server)
      → Steps new_server s
      → s.closed ≡ false
      → counts i s.running ≡ false
      → IsRestored open_count
          (w, s)
          (goroutine b syntax build clients protocol cfg mode i input (w, accept i s))
  unfolding goroutine
  goroutine-IsRestored cfg mode i input w s reached ready fresh = record {
    server =
        left_as_it_was i s ready
          (not_registered i s.running s.conns fresh (reached-IsHeld reached).counted);
    clients = serve_conn-closes cfg mode input w;
  }
