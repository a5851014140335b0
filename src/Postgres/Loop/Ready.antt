-- ===== src/Postgres/Loop/Ready.antt =====
-- When the server says that it is ready.
pub mod Quiet
pub mod Turns
use milvus_sql_proxy.Base.{
  ℕ, ◌+◌, ◌≡◌, refl, List, [], ◌∷◌, ◌++◌, Option, arith, Bytes, Result, ok, err,
}
use milvus_sql_proxy.Error.{Error}
use milvus_sql_proxy.Value.{Library, Value}
use milvus_sql_proxy.Resultset.{Field}
use milvus_sql_proxy.Postgres.Encoding.{pg_rows, sends}
use milvus_sql_proxy.Postgres.Messages.{Backend, ready_for_query}

-- The number of ReadyForQuery among the messages sent.
abbrev pub ready : Backend → ℕ
ready ready_for_query = 1
ready _ = 0

unfoldable pub count_ready : List Backend → ℕ
count_ready [] = 0
count_ready (m ∷ ms) = ready m + count_ready ms

pub count_ready-append :
    (ms ns : List Backend) → count_ready (ms ++ ns) ≡ count_ready ms + count_ready ns
unfolding count_ready
count_ready-append [] ns = omega arith
count_ready-append (m ∷ ms) ns = omega (arith, count_ready-append ms ns)

count_ready-sends :
    (r : Result Error (List (Option Bytes))) (later : List Backend × Option Error)
    → count_ready later.0 ≡ 0
    → count_ready (sends r later).0 ≡ 0
unfolding count_ready
count_ready-sends (err e) later h = refl
count_ready-sends (ok cells) (sent, error) h = omega arith

pub count_ready-pg_rows :
    (lib : Library) (fields : List Field) (formats : List ℕ) (rows : List (List Value))
    → count_ready (pg_rows lib fields formats rows).0 ≡ 0
unfolding pg_rows count_ready
count_ready-pg_rows lib fields formats [] = refl
count_ready-pg_rows lib fields formats (row ∷ rows) =
    count_ready-sends _ _ (count_ready-pg_rows lib fields formats rows)
