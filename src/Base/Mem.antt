-- ===== src/Base/Mem.antt =====
-- Addresses, maps over them and their updates.
use Prim.Native.Nat.{ℕ, suc, ◌+◌}
use native.Mathlib.Omega.{arith}
use mathlib.Core.Path.{◌≡◌}
use mathlib.Core.Bool.{Bool, false, ◌||◌}
use mathlib.Core.List.{List, [], ◌∷◌, ◌++◌}
use progetto_so.Base.Tests.{◌==◌, if◌then◌else◌}
use progetto_so.Base.Control.{Cmd, ok, fault}

-- An address; `null` is NULL. `i + 1` stands for the i-th entry of the static table pointed into.
abbrev pub Ptr : Type 0
Ptr = ℕ

abbrev pub null : Ptr
null = 0

abbrev pub update : {A : Type 0} → (Ptr → A) → Ptr → A → Ptr → A
update f p v q = if q == p then v else f q

-- Reading or writing through NULL is a fault.
abbrev pub guard_ptr : {S : Type 0} → Ptr → Cmd S (Unit {0})
guard_ptr p s = if p == null then fault else ok tt s

abbrev pub has : Ptr → List Ptr → Bool
has a [] = false
has a (x ∷ xs) = (a == x) || has a xs

abbrev pub length {ℓ} : {A : Type ℓ} → List A → ℕ
length [] = 0
length (x ∷ xs) = suc (length xs)

pub length-append {ℓ} : {A : Type ℓ} (xs ys : List A) → length (xs ++ ys) ≡ length xs + length ys
length-append [] ys = omega arith
length-append (x ∷ xs) ys = omega (arith, length-append xs ys)
