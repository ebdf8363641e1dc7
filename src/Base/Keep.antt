-- ===== src/Base/Keep.antt =====
-- Runs that neither fault nor run out of fuel, and keep a predicate of the state.
use mathlib.Core.Path.{◌≡◌, refl, subst}
use progetto_so.Base.Control.{
  Outcome, Run, ok, stop, Cmd, and_then, Returns, returned, Leaves, left,
}

-- However the run ends, it ends in a state for which `P` holds.
pub data Safe {S A : Type 0} (P : S → Type 0) : Run S A → Type 0 where
  goes_on : {a : A} {s : S} → P s → Safe P (ok a s)
  leaves : {o : Outcome} {s : S} → P s → Safe P (stop o s)

module _ {S A : Type 0} {P : S → Type 0} where
  pub Safe-and_then :
      {B : Type 0} {r : Run S A} {k : A → Cmd S B}
      → Safe P r
      → ((a : A) (s : S) → P s → Safe P (k a s))
      → Safe P (and_then r k)
  Safe-and_then (goes_on h) next = next _ _ h
  Safe-and_then (leaves h) next = leaves h

  pub Safe-left : {o : Outcome} {t : S} {r : Run S A} → Safe P r → r ≡ stop o t → P t
  Safe-left (goes_on h) e = absurd (cc)
  Safe-left (leaves {s = s} h) e = let same : s ≡ _ = cc in subst P same h

  pub Safe-returned : {a : A} {t : S} {r : Run S A} → Safe P r → r ≡ ok a t → P t
  Safe-returned (goes_on {s = s} h) e = let same : s ≡ _ = cc in subst P same h
  Safe-returned (leaves h) e = absurd (cc)

  pub Safe-weaken : {Q : S → Type 0} {r : Run S A} → Safe P r → ((s : S) → P s → Q s) → Safe Q r
  Safe-weaken (goes_on h) weaken = goes_on (weaken _ h)
  Safe-weaken (leaves h) weaken = leaves (weaken _ h)

  pub Returns-Safe :
      {Q : A → S → Type 0} {r : Run S A} → Returns Q r → ((a : A) (s : S) → Q a s → P s) → Safe P r
  Returns-Safe (returned h) keep = goes_on (keep _ _ h)

-- The run leaves, in one way or another, in a state for which `P` holds.
pub data Ends {S A : Type 0} (P : S → Type 0) : Run S A → Type 0 where
  ends : {o : Outcome} {s : S} → P s → Ends P (stop o s)

module _ {S A : Type 0} {P : S → Type 0} where
  pub Ends-inv : {r : Run S A} → Ends P r → (o : Outcome) × (s : S) × (r ≡ stop o s)
  Ends-inv (ends {o} {s} h) = (o, s, refl)

  pub Ends-Safe : {r : Run S A} → Ends P r → Safe P r
  Ends-Safe (ends h) = leaves h

  pub Ends-weaken : {Q : S → Type 0} {r : Run S A} → Ends P r → ((s : S) → P s → Q s) → Ends Q r
  Ends-weaken (ends h) weaken = ends (weaken _ h)

  -- What follows is not reached.
  pub Ends-and_then :
      {B : Type 0} {r : Run S A} → Ends P r → (k : A → Cmd S B) → Ends P (and_then r k)
  Ends-and_then (ends h) k = ends h

  -- What comes first returns, and the rest leaves.
  pub Returns-Ends :
      {B : Type 0} {Q : A → S → Type 0} {r : Run S A} {k : A → Cmd S B}
      → Returns Q r
      → ((a : A) (s : S) → Q a s → Ends P (k a s))
      → Ends P (and_then r k)
  Returns-Ends (returned h) next = next _ _ h

  pub Leaves-Ends :
      {o : Outcome} {Q : S → Type 0} {r : Run S A} → Leaves o Q r → ((s : S) → Q s → P s) → Ends P r
  Leaves-Ends (left h) keep = ends (keep _ h)

  -- What comes first may leave or return; what follows leaves.
  pub Safe-Ends :
      {B : Type 0} {r : Run S A} {k : A → Cmd S B}
      → Safe P r
      → ((a : A) (s : S) → P s → Ends P (k a s))
      → Ends P (and_then r k)
  Safe-Ends (goes_on h) next = next _ _ h
  Safe-Ends (leaves h) next = ends h
