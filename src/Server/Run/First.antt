-- ===== src/Server/Run/First.antt =====
-- The error that `Run` returns.
use milvus_sql_proxy.Base.{
  Bool, true, false, false-true, All, ◌≡◌, refl, ap, subst, ◌∙◌, List, [], ◌∷◌, Option, none, some,
  Bool-cases, inl, inr,
}
use milvus_sql_proxy.Error.{Error}
use milvus_sql_proxy.Server.Listeners.{Network, Listener, shut_all}
use milvus_sql_proxy.Server.Run.{
  Events, Running, outcome, close_listeners, on_signal, on_result, first_result, receive, run_loop,
  end_run, run_and_close,
}

-- The first of the results that is an error.
abbrev pub first_error : List (Option Error) → Option Error
first_error [] = none
first_error (none ∷ results) = first_error results
first_error (some e ∷ results) = some e

abbrev pub started : Running
started = record { closed = false; first = none }

-- `shut` shuts a listener, and what else a server does or what happens to it leaves it shut.
pub record StaysShut {W : Type 0} (net : Network W) (events : Events W)
    (Shut : Listener → W → Type 0) : Type 0 where
  pub shut : (l : Listener) (w : W) → Shut l (net.shut l.1 w)
  pub other : (l m : Listener) (w : W) → Shut l w → Shut l (net.shut m.1 w)
  pub signal : (l : Listener) (w : W) → Shut l w → Shut l (events.signal w).1
  pub result : (l : Listener) (w : W) → Shut l w → Shut l (events.result w).1

-- A server that `Run` has an error of is closed.
abbrev pub IsClosedFor : Option Error → Bool → Type 0
IsClosedFor none closed = Unit
IsClosedFor (some e) closed = closed ≡ true

module _ {W : Type 0} (net : Network W) (events : Events W) (Shut : Listener → W → Type 0)
    (stays : StaysShut net events Shut) where
  shut_all-other :
      (l : Listener) (ls : List Listener) (w : W) → Shut l w → Shut l (shut_all net ls w)
  unfolding shut_all
  shut_all-other l [] w h = h
  shut_all-other l (m ∷ ls) w h = shut_all-other l ls (net.shut m.1 w) (stays.other l m w h)

  shut_all-Shut : (ls : List Listener) (w : W) → All (λ l. Shut l (shut_all net ls w)) ls
  unfolding shut_all
  shut_all-Shut [] w = tt
  shut_all-Shut (l ∷ ls) w =
      (shut_all-other l ls (net.shut l.1 w) (stays.shut l w), shut_all-Shut ls (net.shut l.1 w))

module _ {W : Type 0} (net : Network W) (events : Events W) (all : List Listener) where
  -- The results that the loop of `Run` receives, one for each listener.
  unfoldable pub received : List Listener → Running → W → List (Option Error)
  unfolding on_signal on_result
  received [] s w = []
  received (l ∷ ls) s w =
      let x = on_signal net events all s (events.signal w) in
      let (s1, w1) = receive net events all x in (events.result x.1).0 ∷ received ls s1 w1

module _ {W : Type 0} (net : Network W) (events : Events W) (all : List Listener)
    (Shut : Listener → W → Type 0) (stays : StaysShut net events Shut) where
  abbrev pub either_first : Option Error → Option Error → Option Error
  either_first none later = later
  either_first (some e) later = some e

  abbrev AllShut : W → Type 0
  AllShut w = All (λ l. Shut l w) all

  -- The listeners are shut once the server is closed, and it is once there is an error.
  abbrev IsSound : Running → W → Type 0
  IsSound s w = (s.closed ≡ true → AllShut w) × IsClosedFor s.first s.closed

  close_listeners-closed :
      (s : Running) (w : W)
      → ((close_listeners net events all s w).0.closed ≡ true)
        × ((close_listeners net events all s w).0.first ≡ s.first)
  unfolding close_listeners
  close_listeners-closed s w = elim (Bool-cases s.closed) [
    | inl e ↦ rw e (refl, refl)
    | inr e ↦ rw e (refl, refl)
  ]

  on_signal-first : (s : Running) (x : Bool × W) → (on_signal net events all s x).0.first ≡ s.first
  unfolding on_signal
  on_signal-first s (true, w) = (close_listeners-closed s w).1
  on_signal-first s (false, w) = refl

  first_result-first :
      (s : Running) (first : Option Error) (e : Error) (w : W)
      → s.first ≡ first
      → (first_result net events all s first e w).0.first ≡ either_first first (some e)
  first_result-first s none e w h = (close_listeners-closed (record s { first = some e }) w).1
  first_result-first s (some f) e w h = h

  either_first-none : (first : Option Error) → first ≡ either_first first none
  either_first-none none = refl
  either_first-none (some e) = refl

  on_result-first :
      (s : Running) (x : Option Error × W)
      → (on_result net events all s x).0.first ≡ either_first s.first x.0
  unfolding on_result
  on_result-first s (none, w) = either_first-none s.first
  on_result-first s (some e, w) = first_result-first s s.first e w refl

  either_first-cons :
      (first result : Option Error) (results : List (Option Error))
      → either_first (either_first first result) (first_error results)
        ≡ either_first first (first_error (result ∷ results))
  either_first-cons none none results = refl
  either_first-cons none (some e) results = refl
  either_first-cons (some f) result results = refl

  run_loop-first :
      (ls : List Listener) (s : Running) (w : W)
      → (run_loop net events all ls s w).0.first
        ≡ either_first s.first (first_error (received net events all ls s w))
  unfolding run_loop received
  run_loop-first [] s w = either_first-none s.first
  run_loop-first (l ∷ ls) s w =
      let signalled = on_signal net events all s (events.signal w) in
      let result = events.result signalled.1 in
      let next = on_result net events all signalled.0 result in
      run_loop-first ls next.0 next.1
      ∙ ap (λ f. either_first f (first_error (received net events all ls next.0 next.1)))
          (on_result-first signalled.0 result
            ∙ ap (λ f. either_first f result.0) (on_signal-first s (events.signal w)))
      ∙ either_first-cons s.first result.0 (received net events all ls next.0 next.1)

  -- With an error, each listener is shut.
  abbrev pub ShutFor : Option Error → W → Type 0
  ShutFor none w = Unit
  ShutFor (some e) w = AllShut w

  All-kept :
      (ls : List Listener) (w v : W)
      → ((l : Listener) → Shut l w → Shut l v)
      → All (λ l. Shut l w) ls
      → All (λ l. Shut l v) ls
  All-kept [] w v keeps h = tt
  All-kept (l ∷ ls) w v keeps h = (keeps l h.0, All-kept ls w v keeps h.1)

  IsClosedFor-true :
      (first : Option Error) (closed : Bool) → closed ≡ true → IsClosedFor first closed
  IsClosedFor-true none closed h = tt
  IsClosedFor-true (some e) closed h = h

  -- Closing needs nothing of the error before.
  close_listeners-IsSound :
      (s : Running) (w : W)
      → (s.closed ≡ true → AllShut w)
      → IsSound (close_listeners net events all s w).0 (close_listeners net events all s w).1
  unfolding close_listeners
  close_listeners-IsSound s w h = elim (Bool-cases s.closed) [
    | inl e ↦ rw e ((λ c. h e), IsClosedFor-true s.first true refl)
    | inr e ↦
        rw e ((λ c. shut_all-Shut net events Shut stays all w), IsClosedFor-true s.first true refl)
  ]

  on_signal-IsSound :
      (s : Running) (x : Bool × W)
      → IsSound s x.1
      → IsSound (on_signal net events all s x).0 (on_signal net events all s x).1
  unfolding on_signal
  on_signal-IsSound s (true, w) h = close_listeners-IsSound s w h.0
  on_signal-IsSound s (false, w) h = h

  first_result-IsSound :
      (s : Running) (first : Option Error) (e : Error) (w : W)
      → s.first ≡ first
      → IsSound s w
      → IsSound
          (first_result net events all s first e w).0
          (first_result net events all s first e w).1
  first_result-IsSound s none e w same h =
      close_listeners-IsSound (record s { first = some e }) w h.0
  first_result-IsSound s (some f) e w same h = h

  on_result-IsSound :
      (s : Running) (x : Option Error × W)
      → IsSound s x.1
      → IsSound (on_result net events all s x).0 (on_result net events all s x).1
  unfolding on_result
  on_result-IsSound s (none, w) h = h
  on_result-IsSound s (some e, w) h = first_result-IsSound s s.first e w refl h

  IsSound-signal : (s : Running) (w : W) → IsSound s w → IsSound s (events.signal w).1
  IsSound-signal s w h = ((λ c. All-kept all w _ (λ l. stays.signal l w) (h.0 c)), h.1)

  IsSound-result : (s : Running) (w : W) → IsSound s w → IsSound s (events.result w).1
  IsSound-result s w h = ((λ c. All-kept all w _ (λ l. stays.result l w) (h.0 c)), h.1)

  run_loop-IsSound :
      (ls : List Listener) (s : Running) (w : W)
      → IsSound s w
      → IsSound (run_loop net events all ls s w).0 (run_loop net events all ls s w).1
  unfolding run_loop
  run_loop-IsSound [] s w h = h
  run_loop-IsSound (l ∷ ls) s w h =
      let signalled = on_signal net events all s (events.signal w) in
      let next = on_result net events all signalled.0 (events.result signalled.1) in
      run_loop-IsSound ls next.0 next.1 (
        on_result-IsSound signalled.0 (events.result signalled.1) (
          IsSound-result signalled.0 signalled.1
            (on_signal-IsSound s (events.signal w) (IsSound-signal s w h))))

  ShutFor-IsSound :
      (first : Option Error) (closed : Bool) (w : W)
      → (closed ≡ true → AllShut w)
      → IsClosedFor first closed
      → ShutFor first w
  ShutFor-IsSound none closed w h k = tt
  ShutFor-IsSound (some e) closed w h k = h k

  run_loop-ShutFor :
      (ls : List Listener) (w : W)
      → ShutFor
          (first_error (received net events all ls started w))
          (run_loop net events all ls started w).1
  run_loop-ShutFor ls w =
      let end = run_loop net events all ls started w in
      let sound = run_loop-IsSound ls started w ((λ c. absurd (false-true c)), tt) in
      subst (λ f. ShutFor f end.1) (run_loop-first ls started w)
        (ShutFor-IsSound end.0.first end.0.closed end.1 sound.0 sound.1)

  end_run-outcome : (x : Running × W) → (end_run net events all x).0 ≡ outcome x.0.first
  end_run-outcome (s, w) = refl

  -- `Run` returns the first error among the results that it receives of its listeners, one result
  -- for each, and no error if there is none among them. And the listeners are closed as soon as an
  -- error is received, not only behind the loop: after each number of results, if there is an error
  -- among them, each listener is shut. That a listener is shut is what `shut` of it makes so, and
  -- what neither the other calls of `shut` nor the signals and the results undo.
  pub run_and_close-first :
      (w : W)
      → ((run_and_close net events all w).0
          ≡ outcome (first_error (received net events all all started w)))
        × ((some_results : List Listener)
            → ShutFor
                (first_error (received net events all some_results started w))
                (run_loop net events all some_results started w).1)
  unfolding run_and_close
  run_and_close-first w = (
    end_run-outcome (run_loop net events all all started w)
        ∙ ap outcome (run_loop-first all started w),
    λ ls. run_loop-ShutFor ls w,
  )
