-- ===== src/Config/Complete.antt =====
-- What `defaults` accepts and what it changes.
use milvus_sql_proxy.Base.{
  Bool, true, false, not, ◌≡◌, refl, [], ◌∷◌, Bytes, codes, equal, ℤ, pos, negsuc, ok, refuse-eq-ok,
  ok-injective, zero, suc, ℕ,
}
use milvus_sql_proxy.Error.{bad_mode, bad_timeout, bad_tls_pair}
use milvus_sql_proxy.Ast.{is_blank}
use milvus_sql_proxy.Config.{
  Config, or_default, default_timeout, is_negative, is_mode, differ, defaults,
}

-- A configuration that the server can run with.
abbrev pub IsComplete : Config → Type 0
IsComplete c =
    (is_mode c.mode ≡ true)
    × (is_blank c.addr ≡ false)
    × (is_blank c.postgres_addr ≡ false)
    × (is_blank c.user ≡ false)
    × ((n : ℕ) × (c.query_timeout_seconds ≡ pos (suc n)))
    × (is_blank c.tls_cert ≡ is_blank c.tls_key)

or_default-filled : (s : Bytes) (c : ℕ) (t : Bytes) → is_blank (or_default s (c ∷ t)) ≡ false
or_default-filled [] c t = refl
or_default-filled (d ∷ s) c t = refl

default_timeout-positive :
    (i : ℤ) → is_negative (default_timeout i) ≡ false → (n : ℕ) × (default_timeout i ≡ pos (suc n))
default_timeout-positive (pos zero) h = (29, refl)
default_timeout-positive (pos (suc n)) h = (n, refl)
default_timeout-positive (negsuc n) h = cc

not-differ : (a b : Bool) → differ a b ≡ false → a ≡ b
not-differ true true h = refl
not-differ true false h = cc
not-differ false true h = cc
not-differ false false h = refl

accepted : (b : Bool) → not b ≡ false → b ≡ true
accepted true h = refl
accepted false h = cc

-- What `defaults` accepts it completes: the mode is one of the three, no address and no user is
-- blank, the timeout is positive, and there is a certificate just if there is a key.
pub defaults-IsComplete : (c d : Config) → defaults c ≡ ok d → IsComplete d
unfolding defaults
defaults-IsComplete c d h =
    let (mode, h1) =
      refuse-eq-ok (not (is_mode (or_default c.mode (codes "mysql")))) bad_mode _ h in
    let (positive, h2) =
      refuse-eq-ok (is_negative (default_timeout c.query_timeout_seconds)) bad_timeout _ h1 in
    let (paired, h3) =
      refuse-eq-ok (differ (is_blank c.tls_cert) (is_blank c.tls_key)) bad_tls_pair _ h2 in
    rw (← ok-injective h3) (
      accepted _ mode,
      or_default-filled c.addr _ _,
      or_default-filled c.postgres_addr _ _,
      or_default-filled c.user _ _,
      default_timeout-positive _ positive,
      not-differ _ _ paired,
    )

or_default-kept : (s d : Bytes) → is_blank s ≡ false → or_default s d ≡ s
or_default-kept [] d h = cc
or_default-kept (c ∷ s) d h = refl

mode-kept : (s d : Bytes) → is_mode s ≡ true → or_default s d ≡ s
unfolding equal
mode-kept [] d h = cc
mode-kept (c ∷ s) d h = refl

timeout-kept :
    (i : ℤ) (n : ℕ)
    → i ≡ pos (suc n)
    → (default_timeout i ≡ i) × (is_negative (default_timeout i) ≡ false)
timeout-kept i n h = rw h (refl, refl)

differ-same : (a b : Bool) → a ≡ b → differ a b ≡ false
differ-same true b h = rw (← h) refl
differ-same false b h = rw (← h) refl

-- A configuration with a mode of the three, no blank address and no blank user, a positive
-- timeout, and a certificate just if there is a key, is left as it is; so `defaults` changes
-- nothing the second time.
pub defaults_complete : (c : Config) → IsComplete c → defaults c ≡ ok c
unfolding defaults
defaults_complete c (mode, addr, postgres_addr, user, (n, timeout), paired) =
    let (kept, positive) = timeout-kept c.query_timeout_seconds n timeout in
    rw
      (
        positive,
        mode-kept c.mode _ mode,
        mode,
        differ-same _ _ paired,
        kept,
        or_default-kept c.addr _ addr,
        or_default-kept c.postgres_addr _ postgres_addr,
        or_default-kept c.user _ user,
      )
      refl

-- What `defaults` accepts it completes, once and for all: the mode is one of the three, no address
-- and no user is blank, the timeout is positive, and there is a certificate just if there is a key;
-- and a second call changes nothing.
pub defaults_settled : (c d : Config) → defaults c ≡ ok d → IsComplete d × (defaults d ≡ ok d)
defaults_settled c d h =
    let complete = defaults-IsComplete c d h in (complete, defaults_complete d complete)
