-- ===== src/Base/Control.antt =====
-- Commands over a state: they return, leave the nucleus for good, fault, or run out of fuel.
use Prim.Native.Nat.{ℕ}
use mathlib.Core.Path.{◌≡◌, refl}
use mathlib.Core.Bool.{Bool, true, false}

-- How control leaves a handler: the primitives of the machine's library that do not return.
pub data Outcome : Type 0 where
  load_state : ℕ → Outcome  -- LDST of the saved state of the process at this address
  load_exception_state : ℕ → ℕ → Outcome  -- LDST of `sup_exceptState[i]` of a support structure
  load_context : ℕ → ℕ → ℕ → Outcome  -- LDCXT of a stack pointer, a status and a pc
  halt : Outcome
  panic : Outcome
  wait : Outcome
  syscall : ℕ → Outcome  -- a SYSCALL raised by the nucleus itself

pub data Run (S A : Type 0) : Type 0 where
  ok : A → S → Run S A
  stop : Outcome → S → Run S A
  fault : Run S A
  out_of_fuel : Run S A

abbrev pub Cmd : Type 0 → Type 0 → Type 0
Cmd S A = S → Run S A

abbrev pub pure : {S A : Type 0} → A → Cmd S A
pure = ok

module _ {S A B : Type 0} where
  abbrev pub and_then : Run S A → (A → Cmd S B) → Run S B
  and_then (ok a s) k = k a s
  and_then (stop o s) k = stop o s
  and_then fault k = fault
  and_then out_of_fuel k = out_of_fuel

  infixl 5 ◌>>=◌ ◌>>◌
  abbrev pub ◌>>=◌ : Cmd S A → (A → Cmd S B) → Cmd S B
  m >>= k = λ s. and_then (m s) k

  abbrev pub ◌>>◌ : Cmd S A → Cmd S B → Cmd S B
  m >> n = m >>= λ _. n

module _ {S : Type 0} where
  -- An `if` statement with no `else`.
  abbrev pub when : Bool → Cmd S (Unit {0}) → Cmd S (Unit {0})
  when true m = m
  when false m = ok tt

  abbrev pub get : {A : Type 0} → (S → A) → Cmd S A
  get f s = ok (f s) s

  abbrev pub leave : {A : Type 0} → Outcome → Cmd S A
  leave o s = stop o s

-- A command over a part of the state, run inside the whole.
abbrev pub embed : {S T A : Type 0} → (T → S) → Run T A → Run S A
embed put (ok a t) = ok a (put t)
embed put (stop o t) = stop o (put t)
embed put fault = fault
embed put out_of_fuel = out_of_fuel

abbrev pub on_part : {S T A : Type 0} → (S → T) → (S → T → S) → Cmd T A → Cmd S A
on_part part put m s = embed (put s) (m (part s))

-- The run returns, with a result and a state for which `P` holds.
pub data Returns {S A : Type 0} (P : A → S → Type 0) : Run S A → Type 0 where
  returned : {a : A} {s : S} → P a s → Returns P (ok a s)

module _ {S A : Type 0} {P : A → S → Type 0} where
  pub Returns-and_then :
      {B : Type 0} {Q : B → S → Type 0} {r : Run S A} {k : A → Cmd S B}
      → Returns P r
      → ((a : A) (s : S) → P a s → Returns Q (k a s))
      → Returns Q (and_then r k)
  Returns-and_then (returned h) next = next _ _ h

  pub Returns-inv : {r : Run S A} → Returns P r → (a : A) × (s : S) × (r ≡ ok a s) × P a s
  Returns-inv (returned {a} {s} h) = (a, s, refl, h)

  pub Returns-weaken :
      {Q : A → S → Type 0} {r : Run S A}
      → Returns P r
      → ((a : A) (s : S) → P a s → Q a s)
      → Returns Q r
  Returns-weaken (returned h) weaken = returned (weaken _ _ h)

-- The run ends by leaving the nucleus as `o`, in a state for which `P` holds.
pub data Leaves {S A : Type 0} (o : Outcome) (P : S → Type 0) : Run S A → Type 0 where
  left : {s : S} → P s → Leaves o P (stop o s)

pub Leaves-inv :
    {S A : Type 0} {o : Outcome} {P : S → Type 0} {r : Run S A}
    → Leaves o P r
    → (s : S) × (r ≡ stop o s) × P s
Leaves-inv (left {s} h) = (s, refl, h)

pub Leaves-weaken :
    {S A : Type 0} {o : Outcome} {P Q : S → Type 0} {r : Run S A}
    → Leaves o P r
    → ((s : S) → P s → Q s)
    → Leaves o Q r
Leaves-weaken (left h) weaken = left (weaken _ h)

pub Returns-Leaves :
    {S A B : Type 0} {P : A → S → Type 0} {o : Outcome} {Q : S → Type 0} {r : Run S A}
    {k : A → Cmd S B}
    → Returns P r
    → ((a : A) (s : S) → P a s → Leaves o Q (k a s))
    → Leaves o Q (and_then r k)
Returns-Leaves (returned h) next = next _ _ h
