-- ===== src/Base/Text.antt =====
-- Go strings and byte slices are lists of byte values here.
use Prim.Native.Nat.{ℕ, ◌+◌, ◌-◌}
use Prim.Native.Char.{code}
use Prim.Native.String.{String}
use mathlib.Core.Path.{◌≡◌, refl}
use mathlib.Core.Logic.{◌↔◌, inl, inr}
use mathlib.Core.Bool.{Bool, true, false, ◌&&◌}
use mathlib.Core.List.{List, [], ◌∷◌, ◌++◌, map}
use native.Mathlib.Omega.{arith}
use milvus_sql_proxy.Base.Tests.{◌==◌, between, if◌then◌else◌, Bool-cases}

abbrev pub Bytes : Type 0
Bytes = List ℕ

-- The code points of a literal: its bytes, since every literal below is ASCII.
abbrev pub codes : String → Bytes
codes String.[] = []
codes (String.◌∷◌ c s) = code c ∷ codes s

-- `==` on Go strings.
unfoldable pub equal : Bytes → Bytes → Bool
equal [] [] = true
equal (x ∷ xs) (y ∷ ys) = x == y && equal xs ys
equal _ _ = false

pub equal_iff : (s t : Bytes) → (equal s t ≡ true) ↔ (s ≡ t)
unfolding equal
equal_iff [] [] = ground arith
equal_iff [] (d ∷ t) = ground arith
equal_iff (c ∷ s) [] = ground arith
equal_iff (c ∷ s) (d ∷ t) = ground (arith, equal_iff s t)

pub equal_self : (a : Bytes) → equal a a ≡ true
equal_self a = (equal_iff a a).1 refl

-- The ASCII part of `strings.ToLower` and `strings.ToUpper`.
abbrev pub to_lower_byte : ℕ → ℕ
to_lower_byte c = if between b'A' b'Z' c then c + 32 else c

abbrev pub to_upper_byte : ℕ → ℕ
to_upper_byte c = if between b'a' b'z' c then c - 32 else c

abbrev pub to_lower : Bytes → Bytes
to_lower = map to_lower_byte

abbrev pub to_upper : Bytes → Bytes
to_upper = map to_upper_byte

-- `strings.Join(items, sep)`.
unfoldable pub join : Bytes → List Bytes → Bytes
join sep [] = []
join sep (x ∷ []) = x
join sep (x ∷ y ∷ r) = x ++ (sep ++ join sep (y ∷ r))

-- To prove something of a text, prove it of the text `k`, and of any other.
pub equal-cases {κ} : (P : Bytes → Type κ) (s k : Bytes) → P k → (equal s k ≡ false → P s) → P s
equal-cases P s k same other = elim (Bool-cases (equal s k)) [
  | inl e ↦ rw ((equal_iff s k).0 e) same
  | inr e ↦ other e
]
