-- ===== src/Postgres/Loop/Pages/Runs.antt =====
-- Runs of Executes of one portal.
use milvus_sql_proxy.Base.{
  ℕ, Bool, true, false, not, ◌&&◌, ◌≡◌, refl, sym, ap, subst, ◌∙◌, List, [], ◌∷◌, ◌++◌, map,
  append_assoc, Bytes, none, some, if◌then◌else◌, ok,
}
use milvus_sql_proxy.Value.{Library}
use milvus_sql_proxy.Resultset.{Resultset, QueryResult}
use milvus_sql_proxy.Postgres.Dictionary.{lookup}
use milvus_sql_proxy.Postgres.Handlers.{Session, Conn}
use milvus_sql_proxy.Postgres.Portals.{handle_execute}
use milvus_sql_proxy.Postgres.Messages.{Frontend, execute, Backend, Portal}
use milvus_sql_proxy.Postgres.Loop.{
  Ending, lives, goes, is_sync, turn, settle, settle_error, handle, continue_with, serve,
}
use milvus_sql_proxy.Postgres.Loop.Pages.{data_rows, data_rows-append, Encodes}
use milvus_sql_proxy.Postgres.Loop.Pages.Executes.{
  Moves, Hands, IsAt, rows_from, IsFresh, execute-Moves, first-Moves,
}

module _ {W : Type 0} (lib : Library) (session : Session W) (name : Bytes) (r : QueryResult)
    (rs : Resultset) (formats : List ℕ) (w : W) where
  turn-execute :
      (c : Conn W) (max_rows : ℕ)
      → c.failed ≡ false
      → (handle_execute lib session c name max_rows).error ≡ none
      → turn lib session c (execute name max_rows)
        ≡ goes
            (handle_execute lib session c name max_rows).conn
            (handle_execute lib session c name max_rows).sent
  unfolding turn handle settle
  turn-execute c max_rows running good =
      by_failed c.failed running
      ∙ ap (settle_error (handle_execute lib session c name max_rows)) good
    where
      by_failed :
          (b : Bool)
          → b ≡ false
          → (if b && not (is_sync (execute name max_rows))
              then goes c []
              else settle (handle_execute lib session c name max_rows))
            ≡ settle (handle_execute lib session c name max_rows)
      by_failed true e = cc
      by_failed false e = refl

  -- What a run of Executes sends from row `n` on, and where it leaves the portal.
  abbrev pub RunHands : ℕ → List Backend × Ending W → Type 0
  RunHands n out =
      (d : Conn W) × (out.1 ≡ lives d) × Hands lib session name r rs formats w n out.0 d

  step-RunHands :
      (c : Conn W) (n max_rows : ℕ) (msgs : List Frontend)
      → c.failed ≡ false
      → Moves lib session name r rs formats w n (handle_execute lib session c name max_rows)
      → ((d : Conn W) (to : ℕ)
          → IsAt lib session name r rs formats w d to
          → RunHands to (serve lib session msgs d))
      → RunHands n (serve lib session (execute name max_rows ∷ msgs) c)
  unfolding serve
  step-RunHands c n max_rows msgs running (good, (to, at, page)) later =
      let h = handle_execute lib session c name max_rows in
      let (d, there, (last, at_last, rest)) = later h.conn to at in
      subst (λ t. RunHands n (continue_with lib session (serve lib session msgs) t))
        (sym (turn-execute c max_rows running good))
        (
          d,
          there,
          (
            last,
            at_last,
            page
                ∙ ap (λ x. data_rows h.sent ++ x) rest
                ∙ sym (
                    append_assoc (data_rows h.sent) _
                      (rows_from lib session name r rs formats w last))
                ∙ ap (λ x. x ++ rows_from lib session name r rs formats w last)
                    (sym (data_rows-append h.sent _)),
          ),
        )

  serve-RunHands :
      (c : Conn W) (n : ℕ) (bounds : List ℕ)
      → r.resultset ≡ some rs
      → Encodes lib rs.fields formats rs.values
      → IsAt lib session name r rs formats w c n
      → RunHands n (serve lib session (map (execute name) bounds) c)
  serve-RunHands c n [] holds encodes at =
      (c, unfold serve in refl, (n, at, unfold serve data_rows in refl))
  serve-RunHands c n (k ∷ bounds) holds encodes at =
      step-RunHands c n k (map (execute name) bounds) at.running
        (execute-Moves lib session name r rs formats w c n k holds encodes at)
        (λ d to there. serve-RunHands d to bounds holds encodes there)

  -- A portal that has not run yet is executed one or more times, with any bounds on the rows of
  -- each time. The session runs the query just once; the DataRows sent are those of its rows from
  -- the first up to the position of the portal, each once and in order; and a portal that is
  -- completed stands behind the last row. Here the connection has not failed, the query gives
  -- rows, and each of their cells has an encoding.
  pub serve-pages :
      (c : Conn W) (p : Portal) (bound : ℕ) (bounds : List ℕ)
      → lookup name c.portals ≡ some p
      → IsFresh lib session name r rs formats w p
      → c.failed ≡ false
      → session.run c.world p.query false ≡ (ok r, w)
      → r.resultset ≡ some rs
      → Encodes lib rs.fields formats rs.values
      → RunHands 0 (serve lib session (execute name bound ∷ map (execute name) bounds) c)
  serve-pages c p bound bounds found fresh running ran holds encodes =
      step-RunHands c 0 bound (map (execute name) bounds) running
        (first-Moves lib session name r rs formats w c p bound holds encodes found fresh running
          ran)
        (λ d to at. serve-RunHands d to bounds holds encodes at)
