-- ===== src/Server/Steps.antt =====
-- The steps of a server, and what holds of every state that they reach.
use milvus_sql_proxy.Base.{
  Bool-cases, inl, inr, ap, not, ◌⊎◌, ◌||◌, false-true, ℕ, Bool, true, false, ◌≡◌, refl, sym, ◌∙◌,
  List, [], ◌∷◌, any, ◌==◌, arith, All, if◌then◌else◌,
}
use milvus_sql_proxy.Server.{
  Connection, Server, new_server, drop_conn, done_one, cancel_all, accept, unregister, finish,
  close,
}

abbrev pub counts : ℕ → List ℕ → Bool
counts i js = any (λ j. j == i) js

abbrev pub registers : ℕ → List Connection → Bool
registers i cs = any (λ c. c.id == i) cs

-- A connection is new when it is accepted, and its goroutine takes it from the map before it ends.
pub data Step : Server → Server → Type 0 where
  step_accept : {s : Server} (i : ℕ) → counts i s.running ≡ false → Step s (accept i s)
  step_unregister : {s : Server} (i : ℕ) → counts i s.running ≡ true → Step s (unregister i s)
  step_finish :
      {s : Server} (i : ℕ)
      → counts i s.running ≡ true
      → registers i s.conns ≡ false
      → Step s (finish i s)
  step_close : {s : Server} → Step s (close s)

pub data Steps : Server → Server → Type 0 where
  stays : {s : Server} → Steps s s
  then_step : {s t u : Server} → Step s t → Steps t u → Steps s u

-- Each connection of the map is counted; a server that is closed does not listen, and the
-- connections of its map are cancelled.
pub record IsSound (s : Server) : Type 0 where
  pub counted : All (λ c. counts c.id s.running ≡ true) s.conns
  pub cancelled : (s.closed ≡ false) ⊎ All (λ c. c.cancelled ≡ true) s.conns
  pub deaf : (not s.closed || not s.listening) ≡ true

-- The same, as what a closed server has.
pub record IsHeld (s : Server) : Type 0 where
  pub counted : All (λ c. counts c.id s.running ≡ true) s.conns
  pub cancelled : s.closed ≡ true → All (λ c. c.cancelled ≡ true) s.conns
  pub deaf : s.closed ≡ true → s.listening ≡ false

All-map :
    {P Q : Connection → Type 0} (cs : List Connection)
    → ((c : Connection) → P c → Q c)
    → All P cs
    → All Q cs
All-map [] f h = tt
All-map (c ∷ cs) f h = (f c h.0, All-map cs f h.1)

All-drop_conn :
    (P : Connection → Type 0) (i : ℕ) (cs : List Connection) → All P cs → All P (drop_conn i cs)
unfolding drop_conn
All-drop_conn P i [] h = tt
All-drop_conn P i (c ∷ cs) h = keep (c.id == i) (All-drop_conn P i cs h.1)
  where
    keep :
        (b : Bool)
        → All P (drop_conn i cs)
        → All P (if b then drop_conn i cs else c ∷ drop_conn i cs)
    keep true rest = rest
    keep false rest = (h.0, rest)

counts-done_one :
    (j i : ℕ) (js : List ℕ)
    → counts j js ≡ true
    → (j == i) ≡ false
    → counts j (done_one i js) ≡ true
unfolding done_one
counts-done_one j i [] h n = h
counts-done_one j i (k ∷ js) h n = ground (arith, counts-done_one j i js)

All-done_one :
    (i : ℕ) (js : List ℕ) (cs : List Connection)
    → registers i cs ≡ false
    → All (λ c. counts c.id js ≡ true) cs
    → All (λ c. counts c.id (done_one i js) ≡ true) cs
All-done_one i js [] n h = tt
All-done_one i js (c ∷ cs) n h =
    (counts-done_one c.id i js h.0 (ground arith), All-done_one i js cs (ground arith) h.1)

cancel_all-counted :
    (js : List ℕ) (cs : List Connection)
    → All (λ c. counts c.id js ≡ true) cs
    → All (λ c. counts c.id js ≡ true) (cancel_all cs)
unfolding cancel_all
cancel_all-counted js [] h = tt
cancel_all-counted js (c ∷ cs) h = (h.0, cancel_all-counted js cs h.1)

cancel_all-cancelled : (cs : List Connection) → All (λ c. c.cancelled ≡ true) (cancel_all cs)
unfolding cancel_all
cancel_all-cancelled [] = tt
cancel_all-cancelled (c ∷ cs) = (refl, cancel_all-cancelled cs)

counts-later : (i j : ℕ) (js : List ℕ) → counts j js ≡ true → counts j (i ∷ js) ≡ true
counts-later i j js h = ground arith

pub counts_self : (i : ℕ) (js : List ℕ) → counts i (i ∷ js) ≡ true
counts_self i js = ground arith

-- To prove something of either state, prove it of each.
pub either :
    (P : Server → Type 0) (b : Bool) (s t : Server)
    → (b ≡ true → P s)
    → (b ≡ false → P t)
    → P (if b then s else t)
either P true s t h k = h refl
either P false s t h k = k refl

accept-IsHeld : (i : ℕ) (s : Server) → IsHeld s → IsHeld (accept i s)
unfolding accept
accept-IsHeld i s h =
    either IsHeld s.closed s _ (λ e. h)
      λ e. record {
        counted = (
          counts_self i s.running,
          All-map s.conns (λ c. counts-later i c.id s.running) h.counted,
        );
        cancelled = λ c. absurd (false-true (sym e ∙ c));
        deaf = λ c. absurd (false-true (sym e ∙ c));
      }

close-IsHeld : (s : Server) → IsHeld s → IsHeld (close s)
unfolding close
close-IsHeld s h =
    either IsHeld s.closed s _ (λ e. h)
      λ e. record {
        counted = cancel_all-counted s.running s.conns h.counted;
        cancelled = λ c. cancel_all-cancelled s.conns;
        deaf = λ c. refl;
      }

Step-IsHeld : {s t : Server} → Step s t → IsHeld s → IsHeld t
unfolding unregister finish
Step-IsHeld (step_accept {s} i fresh) h = accept-IsHeld i s h
Step-IsHeld (step_unregister {s} i running) h = record {
  counted = All-drop_conn _ i s.conns h.counted;
  cancelled = λ c. All-drop_conn _ i s.conns (h.cancelled c);
  deaf = h.deaf;
}
Step-IsHeld (step_finish {s} i running gone) h = record {
  counted = All-done_one i s.running s.conns gone h.counted;
  cancelled = h.cancelled;
  deaf = h.deaf;
}
Step-IsHeld (step_close {s}) h = close-IsHeld s h

pub Steps-IsHeld : {s t : Server} → Steps s t → IsHeld s → IsHeld t
Steps-IsHeld stays h = h
Steps-IsHeld (then_step one more) h = Steps-IsHeld more (Step-IsHeld one h)

pub reached-IsHeld : {t : Server} → Steps new_server t → IsHeld t
reached-IsHeld steps =
    Steps-IsHeld steps
      (record { counted = tt; cancelled = λ c. tt; deaf = λ c. absurd (false-true c) })

-- In every state that a new server reaches, each connection that is registered is one of those
-- that `Run` waits for; and either the server is not closed, or it does not listen and each
-- registered connection is cancelled.
pub reached-IsSound : {t : Server} → Steps new_server t → IsSound t
reached-IsSound {t} steps =
    let held = reached-IsHeld steps in
    record {
      counted = held.counted;
      cancelled = elim (Bool-cases t.closed) [ inl e ↦ inr (held.cancelled e) | inr e ↦ inl e ];
      deaf = closed_or t.closed held.deaf;
    }
  where
    closed_or : (b : Bool) → (b ≡ true → t.listening ≡ false) → (not b || not t.listening) ≡ true
    closed_or true h = ap not (h refl)
    closed_or false h = refl
