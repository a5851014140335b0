-- ===== src/Session.antt =====
-- pkg/conn.go and `rows` of pkg/commands.go: what a SQL session keeps besides its Milvus client,
-- and how a handler leaves its result. The context, the lock and the connection id are left out.
use milvus_sql_proxy.Base.{ℕ, Bool, false, List, [], Bytes, codes, some, Result, ok, err}
use milvus_sql_proxy.Error.{Error}
use milvus_sql_proxy.Base.Exec.{Exec, pure, lift, ◌>>=◌}
use milvus_sql_proxy.Value.{Value}
use milvus_sql_proxy.Resultset.{Resultset, QueryResult, build_resultset}

-- ClientConn. The result of a statement is what its handler returns.
pub record ClientConn : Type 0 where
  pub db : Bytes
  pub status : ℕ
  pub describe : Bool

-- `NewSession`; SERVER_STATUS_AUTOCOMMIT is 2.
abbrev pub new_session : ClientConn
new_session = record { db = codes "default"; status = 2; describe = false }

-- The Milvus client of a session: `client.NewClient` in `newSession` of the server, and the `Close`
-- of the session.
pub record Clients (W : Type 0) : Type 0 where
  pub new_client : Exec W (Unit {0})
  pub close_client : W → W

-- `writeResultset`
abbrev pub write_resultset : ClientConn → Resultset → QueryResult
write_resultset c r = record {
  status = c.status;
  insert_id = 0;
  affected_rows = 0;
  resultset = some r;
}

-- `rows`
unfoldable pub rows :
    {W : Type 0} → ClientConn → List Bytes → List (List Value) → Exec W QueryResult
unfolding build_resultset
rows c names values = do r ← lift (build_resultset [] names values); pure (write_resultset c r)

-- What a call of a session returns, and the session and the service behind it; an error leaves the
-- session as it was.
abbrev pub with_session :
    {W A : Type 0}
    → ClientConn
    → Result Error (ClientConn × A) × W
    → Result Error A × (ClientConn × W)
with_session c (err e, w) = (err e, (c, w))
with_session c (ok (next, a), w) = (ok a, (next, w))
