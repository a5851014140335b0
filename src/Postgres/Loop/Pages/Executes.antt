-- ===== src/Postgres/Loop/Pages/Executes.antt =====
-- Successive Executes of a portal hand its rows out.
use milvus_sql_proxy.Base.{
  ℕ, ◌≤◌, Bool, true, false, ◌≡◌, refl, sym, ap, ap₂, subst, ◌∙◌, List, [], ◌∷◌, ◌++◌, append-nil,
  Bytes, length, take, drop, take-append-drop, ltb, Option, none, some, arith, ok,
}
use milvus_sql_proxy.Error.{Error}
use milvus_sql_proxy.Value.{Library}
use milvus_sql_proxy.Resultset.{Resultset, QueryResult}
use milvus_sql_proxy.Postgres.Dictionary.{lookup, insert, lookup-insert_self}
use milvus_sql_proxy.Postgres.Encoding.{pg_rows, slice}
use milvus_sql_proxy.Postgres.Handlers.{Session, Conn, Handled}
use milvus_sql_proxy.Wire.Tag.{pg_tag}
use milvus_sql_proxy.Postgres.Portals.{
  end_of_rows, after_rows, send_rows, send_result, resume, execute_portal, execute_result,
  first_run, handle_execute,
}
use milvus_sql_proxy.Postgres.Messages.{Backend, command_complete, portal_suspended, Portal}
use milvus_sql_proxy.Postgres.Loop.Pages.{
  data_rows, data_rows-append, row_messages, Encodes, row_messages-append, data_rows-row_messages,
  slice-append-drop, end_of_rows-bounds,
}

-- A portal `name` with the result `r`, whose rows are those of `rs`, in a session left at `w`.
module _ {W : Type 0} (lib : Library) (session : Session W) (name : Bytes) (r : QueryResult)
    (rs : Resultset) (formats : List ℕ) (w : W) where
  -- The messages of the rows from position `n` on.
  abbrev pub rows_from : ℕ → List Backend
  rows_from n = row_messages lib rs.fields formats (drop n rs.values)

  -- The portal stands at row `n`; if it is completed, that is the end.
  pub record IsAt (c : Conn W) (n : ℕ) : Type 0 where
    pub portal : Portal
    pub found : lookup name c.portals ≡ some portal
    pub result : portal.result ≡ some r
    pub formats_kept : portal.formats ≡ formats
    pub position : portal.pos ≡ n
    pub fits : n ≤ length rs.values
    pub finished : portal.completed ≡ true → n ≡ length rs.values
    pub running : c.failed ≡ false
    pub world_kept : c.world ≡ w

  -- What is sent from row `n` on: rows up to a later position, and the portal stands there.
  abbrev pub Hands : ℕ → List Backend → Conn W → Type 0
  Hands n sent c = (to : ℕ) × IsAt c to × (rows_from n ≡ data_rows sent ++ rows_from to)

  abbrev pub Moves : ℕ → Handled W → Type 0
  Moves n h = (h.error ≡ none) × Hands n h.sent h.conn

  -- A portal that Bind has just made.
  abbrev pub IsFresh : Portal → Type 0
  IsFresh p = (p.result ≡ none) × (p.pos ≡ 0) × (p.completed ≡ false) × (p.formats ≡ formats)

  -- The portal between two Executes.
  abbrev at_row : Portal → ℕ → Bool → Portal
  at_row p n completed = record p { result = some r; pos = n; completed = completed }

  put-IsAt :
      (c : Conn W) (p : Portal) (n : ℕ) (completed : Bool)
      → p.formats ≡ formats
      → n ≤ length rs.values
      → (completed ≡ true → n ≡ length rs.values)
      → c.failed ≡ false
      → c.world ≡ w
      → IsAt (record c { portals = insert name (at_row p n completed) c.portals }) n
  put-IsAt c p n completed kept fits finished running same = record {
    portal = at_row p n completed;
    found = lookup-insert_self name (at_row p n completed) c.portals;
    result = refl;
    formats_kept = kept;
    position = refl;
    fits = fits;
    finished = finished;
    running = running;
    world_kept = same;
  }

  -- A message behind the rows that is none itself.
  data_rows-last :
      (rows : List Backend) (m : Backend) (n to : ℕ)
      → data_rows rows ≡ rows
      → data_rows (m ∷ []) ≡ []
      → rows_from n ≡ rows ++ rows_from to
      → rows_from n ≡ data_rows (rows ++ m ∷ []) ++ rows_from to
  data_rows-last rows m n to only other page =
      page
      ∙ ap (λ x. x ++ rows_from to)
          (sym (data_rows-append rows (m ∷ []) ∙ ap₂ ◌++◌ only other ∙ append-nil rows))

  after_rows-Moves :
      (c : Conn W) (p : Portal) (n to : ℕ) (more : Bool) (sent : List Backend × Option Error)
      → p.formats ≡ formats
      → to ≤ length rs.values
      → (more ≡ false → to ≡ length rs.values)
      → c.failed ≡ false
      → c.world ≡ w
      → sent.1 ≡ none
      → data_rows sent.0 ≡ sent.0
      → rows_from n ≡ sent.0 ++ rows_from to
      → Moves n (after_rows lib session c name (at_row p to false) r more sent)
  after_rows-Moves c p n to more (rows, some e) kept fits last running same h only page = cc
  after_rows-Moves c p n to true (rows, none) kept fits last running same h only page = (
    refl,
    (
      to,
      put-IsAt c p to false kept fits (λ e. cc) running same,
      data_rows-last rows portal_suspended n to only (unfold data_rows in refl) page,
    ),
  )
  after_rows-Moves c p n to false (rows, none) kept fits last running same h only page = (
    refl,
    (
      to,
      put-IsAt c p to true kept fits (λ e. last refl) running same,
      data_rows-last rows (command_complete (pg_tag p.query r)) n to only (unfold data_rows in refl)
          page,
    ),
  )

  page :
      (n to : ℕ)
      → Encodes lib rs.fields formats rs.values
      → n ≤ to
      → Encodes lib rs.fields formats (slice n to rs.values)
        × (rows_from n ≡ row_messages lib rs.fields formats (slice n to rs.values) ++ rows_from to)
  page n to encodes h =
      let all =
        row_messages-append lib rs.fields formats (take n rs.values) (drop n rs.values)
          (rw (take-append-drop n rs.values) encodes) in
      let split =
        row_messages-append lib rs.fields formats (slice n to rs.values) (drop to rs.values)
          (rw (slice-append-drop n to rs.values h) all.1) in
      (
        split.0,
        ap (row_messages lib rs.fields formats) (sym (slice-append-drop n to rs.values h))
            ∙ split.2,
      )

  send_rows-Moves :
      (c : Conn W) (p : Portal) (n max_rows : ℕ)
      → Encodes lib rs.fields formats rs.values
      → p.formats ≡ formats
      → n ≤ length rs.values
      → c.failed ≡ false
      → c.world ≡ w
      → Moves n (send_rows lib session c name (at_row p n false) r rs max_rows)
  unfolding send_rows
  send_rows-Moves c p n max_rows encodes kept fits running same =
      let to = end_of_rows max_rows n (length rs.values) in
      let (forward, within) = end_of_rows-bounds max_rows n (length rs.values) fits in
      let (sends_all, parts) = page n to encodes forward in
      let rows = slice n to rs.values in
      after_rows-Moves c p n to (ltb to (length rs.values)) (pg_rows lib rs.fields p.formats rows)
        kept within (λ e. ground arith) running same (rw kept sends_all)
        (rw kept (data_rows-row_messages lib rs.fields formats rows)) (rw kept parts)

  resume-Moves :
      (c : Conn W) (p : Portal) (max_rows : ℕ)
      → r.resultset ≡ some rs
      → Encodes lib rs.fields formats rs.values
      → p.formats ≡ formats
      → p.pos ≤ length rs.values
      → (p.completed ≡ true → p.pos ≡ length rs.values)
      → c.failed ≡ false
      → c.world ≡ w
      → Moves p.pos (resume lib session c name p max_rows r)
  resume-Moves c p max_rows holds encodes kept fits finished running same =
      subst
        (λ o.
          Moves p.pos (send_result lib session c name (record p { result = some r }) r max_rows o))
        (sym holds) (by_completed p.completed refl)
    where
      by_completed :
          (b : Bool)
          → p.completed ≡ b
          → Moves p.pos (
              send_result lib session c name
                (record p { result = some r; completed = b })
                r
                max_rows
                (some rs))
      by_completed true e = (
        refl,
        (
          p.pos,
          put-IsAt c p p.pos true kept fits (λ over. finished e) running same,
          unfold data_rows in refl,
        ),
      )
      by_completed false e = send_rows-Moves c p p.pos max_rows encodes kept fits running same

  pub execute-Moves :
      (c : Conn W) (n max_rows : ℕ)
      → r.resultset ≡ some rs
      → Encodes lib rs.fields formats rs.values
      → IsAt c n
      → Moves n (handle_execute lib session c name max_rows)
  unfolding handle_execute
  execute-Moves c n max_rows holds encodes at =
      subst (λ o. Moves n (execute_portal lib session c name max_rows o)) (sym at.found)
        (subst (λ o. Moves n (execute_result lib session c name at.portal max_rows o))
          (sym at.result)
          (subst (λ k. Moves k (resume lib session c name at.portal max_rows r)) at.position
            (resume-Moves c at.portal max_rows holds encodes at.formats_kept
              (rw at.position at.fits) (λ e. at.position ∙ at.finished e) at.running
              at.world_kept)))

  pub first-Moves :
      (c : Conn W) (p : Portal) (max_rows : ℕ)
      → r.resultset ≡ some rs
      → Encodes lib rs.fields formats rs.values
      → lookup name c.portals ≡ some p
      → IsFresh p
      → c.failed ≡ false
      → session.run c.world p.query false ≡ (ok r, w)
      → Moves 0 (handle_execute lib session c name max_rows)
  unfolding handle_execute
  first-Moves c p max_rows holds encodes found (fresh, start, open_yet, kept) running ran =
      subst (λ o. Moves 0 (execute_portal lib session c name max_rows o)) (sym found)
        (subst (λ o. Moves 0 (execute_result lib session c name p max_rows o)) (sym fresh)
          (subst
            (λ o. Moves 0 (first_run lib session name p max_rows (record c { world = o.1 }, o.0)))
            (sym ran)
            (subst (λ k. Moves k (resume lib session (record c { world = w }) name p max_rows r))
              start
              (resume-Moves (record c { world = w }) p max_rows holds encodes kept
                (rw start (omega arith)) (λ e. absurd (not_both e open_yet)) running refl))))
    where
      not_both : {b : Bool} → b ≡ true → b ≡ false → ⊥
      not_both e f = cc
