-- ===== src/Server/Run/Closes.antt =====
-- How many listeners a server leaves open.
use milvus_sql_proxy.Base.{
  ℕ, ◌+◌, ◌-◌, Bool, true, false, ◌≡◌, refl, ◌∙◌, List, [], ◌∷◌, length, length-append, Bool-cases,
  inl, inr, Bytes, codes, Option, none, some, if◌then◌else◌, Result, ok, err, arith,
}
use milvus_sql_proxy.Ast.{is_blank}
use milvus_sql_proxy.Error.{Error}
use milvus_sql_proxy.Base.Exec.{Exec, lift, continue, opened}
use milvus_sql_proxy.Config.{Config, defaults}
use milvus_sql_proxy.Server.Listeners.{
  Network, Listener, serves, shut_all, bound, bind_mode, load_certificate, new_listeners,
}
use milvus_sql_proxy.Server.Run.{
  Events, Running, close_listeners, on_signal, on_result, first_result, receive, run_loop, end_run,
  run_and_close,
}

-- A count of what is open: `listen` opens one, unless it fails, and `shut` closes one; nothing else
-- that a server calls or that happens to it opens or closes any.
pub record CountsListeners {W : Type 0} (net : Network W) (events : Events W) (open_count : W → ℕ)
    : Type 0 where
  pub load_key_pair :
      (cert key : Bytes) (w : W) → open_count (net.load_key_pair cert key w).1 ≡ open_count w
  pub listen :
      (addr : Bytes) (w : W)
      → open_count (net.listen addr w).1 ≡ opened (net.listen addr w).0 (open_count w)
  pub shut : (addr : Bytes) (w : W) → open_count (net.shut addr w) ≡ open_count w - 1
  pub signal : (w : W) → open_count (events.signal w).1 ≡ open_count w
  pub result : (w : W) → open_count (events.result w).1 ≡ open_count w
  pub wait : (w : W) → open_count (events.wait w) ≡ open_count w

module _ {W : Type 0} (net : Network W) (events : Events W) (open_count : W → ℕ)
    (c : CountsListeners net events open_count) where
  shut_all-open :
      (ls : List Listener) (n : ℕ) (w : W)
      → open_count w ≡ length ls + n
      → open_count (shut_all net ls w) ≡ n
  unfolding shut_all
  shut_all-open [] n w h = omega arith
  shut_all-open (l ∷ ls) n w h = shut_all-open ls n (net.shut l.1 w) (omega (arith, c.shut l.1 w))

  -- The listeners are open just if the server is not closed.
  abbrev Holds : List Listener → ℕ → Running × W → Type 0
  Holds all n (s, w) = open_count w ≡ (if s.closed then n else length all + n)

  -- A server that is closed has none of its listeners open.
  abbrev IsShut : ℕ → Running × W → Type 0
  IsShut n (s, w) = (s.closed ≡ true) × (open_count w ≡ n)

  module _ (all : List Listener) (n : ℕ) where
    close_listeners-IsShut :
        (s : Running) (w : W) → Holds all n (s, w) → IsShut n (close_listeners net events all s w)
    unfolding close_listeners
    close_listeners-IsShut s w h = ground (arith, shut_all-open all n w)

    IsShut-Holds : (x : Running × W) → IsShut n x → Holds all n x
    IsShut-Holds (s, w) (closed, h) = rw closed h

    close_listeners-Holds :
        (s : Running) (w : W)
        → Holds all n (s, w)
        → Holds all n (close_listeners net events all s w)
    close_listeners-Holds s w h =
        IsShut-Holds (close_listeners net events all s w) (close_listeners-IsShut s w h)

    on_signal-Holds :
        (s : Running) (x : Bool × W)
        → Holds all n (s, x.1)
        → Holds all n (on_signal net events all s x)
    unfolding on_signal
    on_signal-Holds s (true, w) h = close_listeners-Holds s w h
    on_signal-Holds s (false, w) h = h

    first_result-Holds :
        (s : Running) (first : Option Error) (e : Error) (w : W)
        → Holds all n (s, w)
        → Holds all n (first_result net events all s first e w)
    first_result-Holds s none e w h = close_listeners-Holds (record s { first = some e }) w h
    first_result-Holds s (some f) e w h = h

    on_result-Holds :
        (s : Running) (x : Option Error × W)
        → Holds all n (s, x.1)
        → Holds all n (on_result net events all s x)
    unfolding on_result
    on_result-Holds s (none, w) h = h
    on_result-Holds s (some e, w) h = first_result-Holds s s.first e w h

    receive-Holds : (x : Running × W) → Holds all n x → Holds all n (receive net events all x)
    receive-Holds (s, w) h = on_result-Holds s (events.result w) (c.result w ∙ h)

    signal-Holds :
        (s : Running) (w : W)
        → Holds all n (s, w)
        → Holds all n (on_signal net events all s (events.signal w))
    signal-Holds s w h = on_signal-Holds s (events.signal w) (c.signal w ∙ h)

    run_loop-Holds :
        (ls : List Listener) (s : Running) (w : W)
        → Holds all n (s, w)
        → Holds all n (run_loop net events all ls s w)
    unfolding run_loop
    run_loop-Holds [] s w h = h
    run_loop-Holds (l ∷ ls) s w h =
        let x = receive net events all (on_signal net events all s (events.signal w)) in
        run_loop-Holds ls x.0 x.1 (receive-Holds _ (signal-Holds s w h))

    end_run-open : (x : Running × W) → Holds all n x → open_count (end_run net events all x).1 ≡ n
    end_run-open (s, w) h =
        let waited = signal-Holds s (events.wait w) (c.wait w ∙ h) in
        (close_listeners-IsShut _ _ waited).1

    pub run_and_close-open :
        (w : W) → open_count w ≡ length all + n → open_count (run_and_close net events all w).1 ≡ n
    unfolding run_and_close
    run_and_close-open w h = end_run-open _ (run_loop-Holds all _ w h)

  -- What is open behind `NewServer`: its listeners, unless it fails.
  abbrev pub HasOpened : ℕ → Result Error (List Listener) × W → Type 0
  HasOpened n (err e, w) = open_count w ≡ n
  HasOpened n (ok ls, w) = open_count w ≡ length ls + n

  bound-HasOpened :
      (ls : List Listener) (l : Listener) (n m : ℕ) (x : Result Error (Unit {0}) × W)
      → m ≡ length ls + n
      → open_count x.1 ≡ opened x.0 m
      → HasOpened n (bound net ls l x)
  bound-HasOpened ls l n m (err e, w) h k = shut_all-open ls n w (k ∙ h)
  bound-HasOpened ls l n m (ok done, w) h k = omega (arith, length-append ls (l ∷ []))

  bind_mode-HasOpened :
      (cfg : Config) (l : Listener) (ls : List Listener) (n : ℕ) (w : W)
      → open_count w ≡ length ls + n
      → HasOpened n (bind_mode net cfg l ls w)
  unfolding bind_mode
  bind_mode-HasOpened cfg l ls n w h = elim (Bool-cases (serves cfg l.0)) [
    | inl e ↦ rw e (bound-HasOpened ls l n (open_count w) (net.listen l.1 w) h (c.listen l.1 w))
    | inr e ↦ rw e h
  ]

  continue-HasOpened :
      {A : Type 0} (n : ℕ) (next : A → Exec W (List Listener)) (x : Result Error A × W)
      → open_count x.1 ≡ n
      → ((a : A) (w : W) → open_count w ≡ n → HasOpened n (next a w))
      → HasOpened n (continue next x)
  unfolding continue
  continue-HasOpened n next (err e, w) h k = h
  continue-HasOpened n next (ok a, w) h k = k a w h

  load_certificate-open :
      (cfg : Config) (w : W) → open_count (load_certificate net cfg w).1 ≡ open_count w
  load_certificate-open cfg w = elim (Bool-cases (is_blank cfg.tls_cert)) [
    | inl e ↦ rw e refl
    | inr e ↦ rw e (c.load_key_pair cfg.tls_cert cfg.tls_key w)
  ]

  pub new_listeners-HasOpened :
      (given : Config) (w : W) → HasOpened (open_count w) (new_listeners net given w)
  unfolding new_listeners continue
  new_listeners-HasOpened given w =
      let n = open_count w in
      continue-HasOpened n _ (lift (defaults given) w) refl λ cfg w1 h1.
        continue-HasOpened n _ (load_certificate net cfg w1) (load_certificate-open cfg w1 ∙ h1)
          λ done w2 h2.
            listening n (codes "postgres", cfg.postgres_addr) cfg
              (bind_mode net cfg (codes "mysql", cfg.addr) [] w2)
              (bind_mode-HasOpened cfg (codes "mysql", cfg.addr) [] n w2 (omega (arith, h2)))
    where
      listening :
          (n : ℕ) (l : Listener) (cfg : Config) (x : Result Error (List Listener) × W)
          → HasOpened n x
          → HasOpened n (continue (λ ls. bind_mode net cfg l ls) x)
      listening n l cfg (err e, w) h = h
      listening n l cfg (ok ls, w) h = bind_mode-HasOpened cfg l ls n w h
