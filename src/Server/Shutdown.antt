-- ===== src/Server/Shutdown.antt =====
-- Closing a server.
use milvus_sql_proxy.Base.{
  false-true, ℕ, suc, ◌+◌, true, false, ◌≡◌, refl, sym, ap, ◌∙◌, List, [], ◌∷◌, length, arith, All,
}
use milvus_sql_proxy.Server.{Server, new_server, done_one, accept, unregister, finish, close}
use milvus_sql_proxy.Server.Steps.{
  step_accept, step_unregister, step_finish, step_close, Steps, stays, then_step, Steps-IsHeld,
  reached-IsHeld, counts, either,
}

pub done_one_self : (i : ℕ) (js : List ℕ) → done_one i (i ∷ js) ≡ js
unfolding done_one
done_one_self i js = ground arith

length-done_one_counted :
    (i : ℕ) (js : List ℕ) → counts i js ≡ true → suc (length (done_one i js)) ≡ length js
unfolding done_one
length-done_one_counted i [] h = cc
length-done_one_counted i (j ∷ js) h = ground (arith, length-done_one_counted i js)

-- How many of the steps are the end of a goroutine.
unfoldable pub finishes : {s t : Server} → Steps s t → ℕ
finishes stays = 0
finishes (then_step (step_accept i new) more) = finishes more
finishes (then_step (step_unregister i running) more) = finishes more
finishes (then_step (step_finish i running gone) more) = suc (finishes more)
finishes (then_step step_close more) = finishes more

accept-of_closed : (i : ℕ) (s : Server) → s.closed ≡ true → accept i s ≡ s
unfolding accept
accept-of_closed i s c =
    either (λ t. t ≡ s) s.closed s _ (λ e. refl) (λ e. absurd (false-true (sym e ∙ c)))

close-running : (s : Server) → (close s).running ≡ s.running
unfolding close
close-running s = either (λ t. t.running ≡ s.running) s.closed s _ (λ e. refl) (λ e. refl)

close-closed : (s : Server) → (close s).closed ≡ true
unfolding close
close-closed s = either (λ t. t.closed ≡ true) s.closed s _ (λ e. e) (λ e. refl)

closed-finishes :
    {s t : Server} (steps : Steps s t)
    → s.closed ≡ true
    → (t.closed ≡ true) × (finishes steps + length t.running ≡ length s.running)
unfolding finishes unregister finish
closed-finishes stays c = (c, omega arith)
closed-finishes {t} (then_step (step_accept {s} i new) more) c =
    let same = accept-of_closed i s c in
    let (later, count) = closed-finishes more (ap (λ x. x.closed) same ∙ c) in
    (later, count ∙ ap (λ x. length x.running) same)
closed-finishes (then_step (step_unregister {s} i running) more) c = closed-finishes more c
closed-finishes (then_step (step_finish {s} i running gone) more) c =
    let (later, count) = closed-finishes more c in
    let one = length-done_one_counted i s.running running in (later, omega (arith, count, one))
closed-finishes (then_step (step_close {s}) more) c =
    let (later, count) = closed-finishes more (close-closed s) in
    (later, count ∙ ap length (close-running s))

-- What is left of a server that was closed at `s`, after more steps.
pub record IsClosing (s t : Server) (ended : ℕ) : Type 0 where
  pub closed : t.closed ≡ true
  pub deaf : t.listening ≡ false
  pub cancelled : All (λ c. c.cancelled ≡ true) t.conns
  pub remaining : ended + length t.running ≡ length s.running

-- Once a server that was reached is closed, it stays closed and does not listen, whatever steps
-- come, and each connection that is registered is cancelled; and the goroutines that have ended
-- since then, with those that `Run` still waits for, are just as many as it waited for at the
-- `Close`: none is added, and each end counts one down.
pub close-IsClosing :
    {s t : Server}
    → Steps new_server s
    → (steps : Steps (close s) t) → IsClosing s t (finishes steps)
close-IsClosing {s} {t} reached steps =
    let (closed, count) = closed-finishes steps (close-closed s) in
    let held = Steps-IsHeld (then_step (step_close {s = s}) steps) (reached-IsHeld reached) in
    record {
      closed = closed;
      deaf = held.deaf closed;
      cancelled = held.cancelled closed;
      remaining = count ∙ ap length (close-running s);
    }
