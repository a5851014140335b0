-- ===== src/Server/Listeners.antt =====
-- `NewServer`: its listeners. The network and the certificates are parameters.
use milvus_sql_proxy.Base.{
  Bool, true, false, ◌||◌, ◌≡◌, sym, ap, ◌∙◌, List, [], ◌∷◌, ◌++◌, Bytes, codes, equal,
  if◌then◌else◌, Result, ok, err, ok-injective, append-nil,
}
use milvus_sql_proxy.Base.Exec.{Exec, pure, lift, ◌>>=◌, ◌>>◌}
use milvus_sql_proxy.Base.Exec.Ensures.{continue-eq-ok}
use milvus_sql_proxy.Error.{Error}
use milvus_sql_proxy.Ast.{is_blank}
use milvus_sql_proxy.Config.{Config, defaults}

-- `net.Listen` and the `Close` of a listener, by its address, and `tls.LoadX509KeyPair`.
pub record Network (W : Type 0) : Type 0 where
  pub listen : Bytes → Exec W (Unit {0})
  pub shut : Bytes → W → W
  pub load_key_pair : Bytes → Bytes → Exec W (Unit {0})

-- A listener: its mode and its address.
abbrev pub Listener : Type 0
Listener = Bytes × Bytes

-- `cfg.Mode == mode || cfg.Mode == "both"`
abbrev pub serves : Config → Bytes → Bool
serves cfg mode = equal cfg.mode mode || equal cfg.mode (codes "both")

module _ {W : Type 0} (net : Network W) where
  -- `Close` of a server that has no connections yet.
  unfoldable pub shut_all : List Listener → W → W
  shut_all [] w = w
  shut_all (l ∷ ls) w = shut_all ls (net.shut l.1 w)

  abbrev pub bound :
      List Listener → Listener → Result Error (Unit {0}) × W → Result Error (List Listener) × W
  bound ls l (err e, w) = (err e, shut_all ls w)
  bound ls l (ok done, w) = (ok (ls ++ l ∷ []), w)

  -- `bind`, if the mode is served; what was bound before is closed if it fails.
  unfoldable pub bind_mode : Config → Listener → List Listener → Exec W (List Listener)
  unfolding shut_all equal
  bind_mode cfg l ls = if serves cfg l.0 then (λ w. bound ls l (net.listen l.1 w)) else pure ls

  abbrev pub load_certificate : Config → Exec W (Unit {0})
  load_certificate cfg =
      if is_blank cfg.tls_cert then pure tt else net.load_key_pair cfg.tls_cert cfg.tls_key

  -- The listeners of `NewServer`.
  unfoldable pub new_listeners : Config → Exec W (List Listener)
  unfolding defaults bind_mode
  new_listeners given = do
    cfg ← lift (defaults given)
    load_certificate cfg
    ls ← bind_mode cfg (codes "mysql", cfg.addr) []
    bind_mode cfg (codes "postgres", cfg.postgres_addr) ls

-- The listeners that a configuration asks for.
unfoldable pub wanted : Config → List Listener
unfolding equal
wanted cfg =
    (if serves cfg (codes "mysql") then (codes "mysql", cfg.addr) ∷ [] else [])
    ++ (if serves cfg (codes "postgres") then (codes "postgres", cfg.postgres_addr) ∷ [] else [])

module _ {W : Type 0} (net : Network W) where
  bound-adds :
      (ls : List Listener) (l : Listener) (x : Result Error (Unit {0}) × W) {all : List Listener}
      → (bound net ls l x).0 ≡ ok all
      → all ≡ ls ++ l ∷ []
  bound-adds ls l (err e, w) h = cc
  bound-adds ls l (ok done, w) h = sym (ok-injective h)

  bind_mode-adds :
      (cfg : Config) (l : Listener) (ls : List Listener) (w : W) {all : List Listener}
      → (bind_mode net cfg l ls w).0 ≡ ok all
      → all ≡ ls ++ (if serves cfg l.0 then l ∷ [] else [])
  unfolding bind_mode
  bind_mode-adds cfg l ls w {all} h = choose (serves cfg l.0) h
    where
      choose :
          (b : Bool)
          → ((if b then (λ w. bound net ls l (net.listen l.1 w)) else pure ls) w).0 ≡ ok all
          → all ≡ ls ++ (if b then l ∷ [] else [])
      choose true h = bound-adds ls l (net.listen l.1 w) h
      choose false h = sym (ok-injective h) ∙ sym (append-nil ls)

  -- A server that is made has the listeners that its configuration asks for once the defaults are
  -- filled in, the one for MySQL first.
  pub new_listeners-wanted :
      (given : Config) (w : W) (all : List Listener)
      → (new_listeners net given w).0 ≡ ok all
      → (cfg : Config) × (defaults given ≡ ok cfg) × (all ≡ wanted cfg)
  unfolding new_listeners wanted
  new_listeners-wanted given w all h =
      let (cfg, w1, filled, h1) = continue-eq-ok _ _ h in
      let (loaded, w2, _, h2) = continue-eq-ok _ _ h1 in
      let (ls, w3, first, h3) = continue-eq-ok _ _ h2 in
      (
        cfg,
        filled,
        bind_mode-adds cfg (codes "postgres", cfg.postgres_addr) ls w3 h3
            ∙ ap
                (λ ls.
                  ls
                  ++ (if serves cfg (codes "postgres")
                      then (codes "postgres", cfg.postgres_addr) ∷ []
                      else []))
                (bind_mode-adds cfg (codes "mysql", cfg.addr) [] w2 first),
      )
