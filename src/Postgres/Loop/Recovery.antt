-- ===== src/Postgres/Loop/Recovery.antt =====
-- What an error of the extended protocol does: the messages up to the next Sync are skipped.
use milvus_sql_proxy.Base.{true, false, ◌≡◌, refl, List, [], ◌∷◌, ◌++◌, arith, All}
use milvus_sql_proxy.Value.{Library}
use milvus_sql_proxy.Postgres.Handlers.{Session, Conn}
use milvus_sql_proxy.Postgres.Loop.{goes, handle, settle, turn, serve, handle_sync}
use milvus_sql_proxy.Postgres.Messages.{Frontend, sync, terminate, ready_for_query}

-- Neither Sync nor Terminate.
abbrev pub IsSkipped : Frontend → Type 0
IsSkipped sync = ⊥
IsSkipped terminate = ⊥
IsSkipped _ = Unit

module _ {W : Type 0} (lib : Library) (session : Session W) where
  turn-failed :
      (c : Conn W) (msg : Frontend)
      → c.failed ≡ true
      → IsSkipped msg
      → turn lib session c msg ≡ goes c []
  unfolding turn
  turn-failed c sync f s = absurd s
  turn-failed c terminate f s = absurd s
  turn-failed c _ f s = rw f refl

  turn-sync :
      (c : Conn W)
      → turn lib session c sync
        ≡ goes (record c { failed = false; portals = [] }) (ready_for_query ∷ [])
  unfolding turn handle settle handle_sync
  turn-sync c = ground arith

  -- A connection that has failed sends nothing and changes nothing, not even the session, until
  -- the next Sync, if no Terminate comes before it; that one Sync is answered by one ReadyForQuery, forgets the portals, keeps the
  -- statements, and the messages behind it are served as usual.
  pub serve-recovers :
      (msgs rest : List Frontend) (c : Conn W)
      → c.failed ≡ true
      → All IsSkipped msgs
      → let behind = serve lib session rest (record c { failed = false; portals = [] }) in
        serve lib session (msgs ++ sync ∷ rest) c ≡ (ready_for_query ∷ behind.0, behind.1)
  unfolding serve
  serve-recovers [] rest c f s = rw (turn-sync c)
  serve-recovers (msg ∷ msgs) rest c f s =
      rw (turn-failed c msg f s.0) (serve-recovers msgs rest c f s.1)
