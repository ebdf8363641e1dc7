-- ===== src/Asl/Lookup.antt =====
-- The map that a list of entries stands for, when an entry is changed, put in or taken out.
use progetto_so.Base.{
  ◌≤◌, ◌<◌, ◌≡◌, refl, inl, inr, List, [], ◌∷◌, ◌++◌, arith, Ptr, ltb, ◌==◌, if◌then◌else◌,
  Bool-cases,
}
use mathlib.Core.Path.{subst, sym}
use progetto_so.Asl.Entries.{Entry, IsAscending, queue_of, under, from}

abbrev pub AllUnder : Ptr → List Entry → Type 0
AllUnder a [] = Unit {0}
AllUnder a (e ∷ es) = (e.add < a) × AllUnder a es

-- The first entry, if any, is for a higher semaphore.
abbrev pub StartsAbove : Ptr → List Entry → Type 0
StartsAbove a [] = Unit {0}
StartsAbove a (e ∷ es) = a < e.add

pub under-AllUnder : (a : Ptr) (es : List Entry) → AllUnder a (under a es)
under-AllUnder a [] = tt
under-AllUnder a (e ∷ es) = elim (Bool-cases (ltb e.add a)) [
  | inl h ↦ rw h (ground arith, under-AllUnder a es)
  | inr h ↦ rw h tt
]

module _ (a b : Ptr) where
  pub queue_of-skip : (us vs : List Entry) → AllUnder a us → queue_of a (us ++ vs) ≡ queue_of a vs
  queue_of-skip [] vs h = refl
  queue_of-skip (u ∷ us) vs (h, hs) = ground (arith, queue_of-skip us vs hs)

  pub queue_of-none :
      (low : Ptr) (vs : List Entry) → IsAscending low vs → a ≤ low → queue_of a vs ≡ []
  queue_of-none low [] asc le = refl
  queue_of-none low (v ∷ vs) (lt, asc) le = ground (arith, queue_of-none v.add vs asc (omega arith))

  pub queue_of-change :
      (e e' : Entry) (us vs : List Entry)
      → AllUnder a us
      → e.add ≡ a
      → e'.add ≡ a
      → queue_of b (us ++ e' ∷ vs) ≡ (if b == a then e'.blocks else queue_of b (us ++ e ∷ vs))
  queue_of-change e e' [] vs h g g' = ground (arith, g, g')
  queue_of-change e e' (u ∷ us) vs (h, hs) g g' =
      ground (arith, queue_of-change e e' us vs hs g g', h)

  pub queue_of-put :
      (e : Entry) (us vs : List Entry)
      → AllUnder a us
      → e.add ≡ a
      → queue_of b (us ++ e ∷ vs) ≡ (if b == a then e.blocks else queue_of b (us ++ vs))
  queue_of-put e [] vs h g = ground (arith, g)
  queue_of-put e (u ∷ us) vs (h, hs) g = ground (arith, queue_of-put e us vs hs g, h)

  pub queue_of-drop :
      (e : Entry) (us vs : List Entry)
      → AllUnder a us
      → e.add ≡ a
      → IsAscending a vs
      → queue_of b (us ++ vs) ≡ (if b == a then [] else queue_of b (us ++ e ∷ vs))
  queue_of-drop e [] vs h g asc = ground (arith, g, queue_of-none a vs asc (omega arith))
  queue_of-drop e (u ∷ us) vs (h, hs) g asc = ground (arith, queue_of-drop e us vs hs g asc, h)

pub IsAscending-right :
    (low : Ptr) (e : Entry) (us vs : List Entry)
    → IsAscending low (us ++ e ∷ vs)
    → IsAscending e.add vs
IsAscending-right low e [] vs h = h.1
IsAscending-right low e (u ∷ us) vs h = IsAscending-right u.add e us vs h.1

pub IsAscending-change :
    (low : Ptr) (e e' : Entry) (us vs : List Entry)
    → e'.add ≡ e.add
    → IsAscending low (us ++ e ∷ vs)
    → IsAscending low (us ++ e' ∷ vs)
IsAscending-change low e e' [] vs g h =
    (omega (arith, g, h.0), subst (λ a. IsAscending a vs) (sym g) h.1)
IsAscending-change low e e' (u ∷ us) vs g h = (h.0, IsAscending-change u.add e e' us vs g h.1)

pub IsAscending-put :
    (low : Ptr) (e : Entry) (us vs : List Entry)
    → low < e.add
    → AllUnder e.add us
    → StartsAbove e.add vs
    → IsAscending low (us ++ vs)
    → IsAscending low (us ++ e ∷ vs)
IsAscending-put low e [] [] lt u above h = (lt, tt)
IsAscending-put low e [] (v ∷ vs) lt u above h = (lt, (above, h.1))
IsAscending-put low e (u ∷ us) vs lt (below, rest) above h =
    (h.0, IsAscending-put u.add e us vs below rest above h.1)

IsAscending-lower :
    (low low' : Ptr) (vs : List Entry) → low ≤ low' → IsAscending low' vs → IsAscending low vs
IsAscending-lower low low' [] le h = tt
IsAscending-lower low low' (v ∷ vs) le h = (omega (arith, h.0), h.1)

pub IsAscending-drop :
    (low : Ptr) (e : Entry) (us vs : List Entry)
    → IsAscending low (us ++ e ∷ vs)
    → IsAscending low (us ++ vs)
IsAscending-drop low e [] vs h = IsAscending-lower low e.add vs (omega (arith, h.0)) h.1
IsAscending-drop low e (u ∷ us) vs h = (h.0, IsAscending-drop u.add e us vs h.1)

pub IsAscending-suffix :
    (low : Ptr) (us vs : List Entry)
    → IsAscending low (us ++ vs)
    → (low' : Ptr) × IsAscending low' vs
IsAscending-suffix low [] vs h = (low, h)
IsAscending-suffix low (u ∷ us) vs h = IsAscending-suffix u.add us vs h.1

-- A semaphore that does not stand at its place is not active.
pub queue_of-absent :
    (a low : Ptr) (us vs : List Entry)
    → AllUnder a us
    → StartsAbove a vs
    → IsAscending low (us ++ vs)
    → queue_of a (us ++ vs) ≡ []
queue_of-absent a low [] [] h above asc = refl
queue_of-absent a low [] (v ∷ vs) h above (lt, asc) =
    ground (arith, queue_of-none a a v.add vs asc (omega arith), above)
queue_of-absent a low (u ∷ us) vs (h, hs) above (lt, asc) =
    ground (arith, queue_of-absent a u.add us vs hs above asc, h)

-- What stands behind the entries below `a`: the entry of `a`, or none of that semaphore.
pub data FromCases (a : Ptr) (vs : List Entry) : Type 0 where
  active : (e : Entry) (rest : List Entry) → vs ≡ e ∷ rest → e.add ≡ a → FromCases a vs
  inactive : StartsAbove a vs → FromCases a vs

pub from-cases : (a : Ptr) (es : List Entry) → FromCases a (from a es)
from-cases a [] = inactive tt
from-cases a (e ∷ es) = elim (Bool-cases (ltb e.add a)) [
  | inl h ↦ rw h (from-cases a es)
  | inr h ↦ rw h (elim (Bool-cases (e.add == a)) [
    | inl g ↦ active e es refl (ground arith)
    | inr g ↦ inactive (ground arith)
  ])
]
