-- ===== src/Postgres/Loop/Limits.antt =====
-- The maps of a connection stay small, and a named statement stays what it was.
use milvus_sql_proxy.Base.{
  ◌≤◌, false, not, ◌&&◌, ◌≡◌, List, [], ◌∷◌, Bytes, equal, equal_iff, length, leb, some, is_some,
  arith, Bool-cases, inl, inr, All,
}
use milvus_sql_proxy.Ast.{is_blank}
use milvus_sql_proxy.Value.{Library}
use milvus_sql_proxy.Postgres.Dictionary.{
  lookup, insert, named, named-le-length, named-insert_nil, named-insert-le, named-remove-le,
  named-insert_update, lookup-insert, lookup-remove,
}
use milvus_sql_proxy.Postgres.Handlers.{Session, Conn, max_names}
use milvus_sql_proxy.Postgres.Loop.{handle_close, handle_sync, serve}
use milvus_sql_proxy.Postgres.Loop.Preserves.{Preserved}
use milvus_sql_proxy.Postgres.Loop.Rule.{MayDo, Finally, serve-Finally}
use milvus_sql_proxy.Postgres.Messages.{
  Target, statement, portal, invalid_target, Frontend, query, execute, close, Statement,
}

-- At most 1024 statements and at most 1024 portals have a name.
pub record IsBounded {W : Type 0} (c : Conn W) : Type 0 where
  pub statements : named c.statements ≤ max_names
  pub portals : named c.portals ≤ max_names

-- The guard before an insertion keeps the bound.
insert-bounded :
    {V : Type 0} (k : Bytes) (v : V) (m : List (Bytes × V))
    → named m ≤ max_names
    → (leb max_names (length m) && not (is_blank k)) ≡ false
    → named (insert k v m) ≤ max_names
insert-bounded [] v m h g = rw (named-insert_nil v m) h
insert-bounded (b ∷ k) v m h g = ground (arith, named-insert-le (b ∷ k) v m, named-le-length m)

IsBounded-world :
    {W : Type 0} (c : Conn W) {w : W} → IsBounded c → IsBounded (record c { world = w })
IsBounded-world c b = record { statements = b.statements; portals = b.portals }

IsBounded-Preserved : {W : Type 0} (session : Session W) → Preserved session IsBounded
IsBounded-Preserved session = record {
  described = λ c text b. IsBounded-world c b;
  parsed = λ c text oids b. IsBounded-world c b;
  statement = λ c name st room free b. record {
    statements = insert-bounded name st c.statements b.statements room;
    portals = b.portals;
  };
  portal = λ c name p room b. record {
    statements = b.statements;
    portals = insert-bounded name p c.portals b.portals room;
  };
  update = λ c name p q found b. record {
    statements = b.statements;
    portals = rw (named-insert_update name q p c.portals found) b.portals;
  };
}

close-IsBounded :
    {W : Type 0} (c : Conn W) (target : Target) (name : Bytes)
    → IsBounded c
    → IsBounded (handle_close c target name).conn
unfolding handle_close
close-IsBounded c statement name b = omega (arith, named-remove-le name c.statements, b)
close-IsBounded c portal name b = omega (arith, named-remove-le name c.portals, b)
close-IsBounded c invalid_target name b = b

sync-IsBounded : {W : Type 0} (c : Conn W) → IsBounded c → IsBounded (handle_sync c).conn
unfolding handle_sync named
sync-IsBounded c b = omega (arith, b)

MayDo-IsBounded :
    {W : Type 0} (session : Session W) (msgs : List Frontend) → All (MayDo session IsBounded) msgs
MayDo-IsBounded session [] = tt
MayDo-IsBounded session (query text ∷ msgs) =
    ((λ c q b. IsBounded-world c b), MayDo-IsBounded session msgs)
MayDo-IsBounded session (execute name max_rows ∷ msgs) =
    ((λ c q b. IsBounded-world c b), MayDo-IsBounded session msgs)
MayDo-IsBounded session (close target name ∷ msgs) =
    ((λ c b. close-IsBounded c target name b), MayDo-IsBounded session msgs)
MayDo-IsBounded session (_ ∷ msgs) = (tt, MayDo-IsBounded session msgs)

-- A connection that holds at most 1024 named statements and at most 1024 named portals holds no
-- more of them after any list of messages, also if it ends with one of them.
pub serve-IsBounded :
    {W : Type 0} (lib : Library) (session : Session W) (msgs : List Frontend) (c : Conn W)
    → IsBounded c
    → Finally IsBounded (serve lib session msgs c).1
serve-IsBounded {W} lib session msgs c b =
    serve-Finally lib session IsBounded (IsBounded-Preserved session)
      (λ d flag v. record { statements = v.statements; portals = v.portals }) sync-IsBounded msgs c
      (MayDo-IsBounded session msgs) b

module _ (name : Bytes) (st : Statement) (is_named : is_blank name ≡ false) where
  -- The connection knows the statement `st` under `name`.
  abbrev pub Knows : {W : Type 0} → Conn W → Type 0
  Knows c = lookup name c.statements ≡ some st

  Knows-insert :
      (m : List (Bytes × Statement)) (other : Bytes) (v : Statement)
      → (is_some (lookup other m) && not (is_blank other)) ≡ false
      → lookup name m ≡ some st
      → lookup name (insert other v m) ≡ some st
  Knows-insert m other v free h =
      rw (lookup-insert other name v m) (elim (Bool-cases (equal other name)) [
        | inl same ↦ absurd (clash ((equal_iff other name).0 same))
        | inr differs ↦ rw differs h
      ])
    where
      clash : other ≡ name → ⊥
      clash e = ground arith

  Knows-Preserved : {W : Type 0} (session : Session W) → Preserved session Knows
  Knows-Preserved session = record {
    described = λ c text h. h;
    parsed = λ c text oids h. h;
    statement = λ c other v room free h. Knows-insert c.statements other v free h;
    portal = λ c other p room h. h;
    update = λ c other p q found h. h;
  }

  -- A message that is no Close of this statement.
  abbrev pub Spares : Frontend → Type 0
  Spares (close statement other) = equal other name ≡ false
  Spares _ = Unit

  MayDo-Knows :
      {W : Type 0} (session : Session W) (msgs : List Frontend)
      → All Spares msgs
      → All (MayDo session Knows) msgs
  MayDo-Knows session [] s = tt
  MayDo-Knows session (query text ∷ msgs) s = ((λ c q h. h), MayDo-Knows session msgs s.1)
  MayDo-Knows session (execute name max_rows ∷ msgs) s =
      ((λ c q h. h), MayDo-Knows session msgs s.1)
  MayDo-Knows session (close statement other ∷ msgs) s = (
    (λ c h. unfold handle_close in rw (lookup-remove other name c.statements, s.0) h),
    MayDo-Knows session msgs s.1,
  )
  MayDo-Knows session (close portal other ∷ msgs) s =
      ((λ c h. unfold handle_close in h), MayDo-Knows session msgs s.1)
  MayDo-Knows session (close invalid_target other ∷ msgs) s =
      ((λ c h. unfold handle_close in h), MayDo-Knows session msgs s.1)
  MayDo-Knows session (_ ∷ msgs) s = (tt, MayDo-Knows session msgs s.1)

  -- A prepared statement with a name stays what it was prepared as, through errors and Syncs
  -- and further Parses of the same name, until a Close names it.
  pub serve-Knows :
      {W : Type 0} (lib : Library) (session : Session W) (msgs : List Frontend) (c : Conn W)
      → All Spares msgs
      → lookup name c.statements ≡ some st
      → Finally Knows (serve lib session msgs c).1
  serve-Knows {W} lib session msgs c s h =
      serve-Finally lib session Knows (Knows-Preserved session) (λ d flag v. v)
        (λ d v. unfold handle_sync in v) msgs c (MayDo-Knows session msgs s) h
