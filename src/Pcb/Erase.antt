-- ===== src/Pcb/Erase.antt =====
-- A block taken out of a list, and where it stands: the lists behind `outProcQ` of src/pcb.c.
use mathlib.Core.List.{append_assoc}
use progetto_so.Base.{
  ◌≡◌, refl, ◌⊎◌, inl, inr, true, false, List, [], ◌∷◌, ◌++◌, arith, if◌then◌else◌, ◌==◌,
  Bool-cases, Ptr, has, ap,
}
use progetto_so.Pcb.Ring.{Distinct, has-append}

abbrev pub erase : Ptr → List Ptr → List Ptr
erase p [] = []
erase p (x ∷ xs) = if p == x then xs else x ∷ erase p xs

pub has-split :
    (p : Ptr) (xs : List Ptr)
    → has p xs ≡ true
    → (us : List Ptr) × (vs : List Ptr) × (xs ≡ us ++ p ∷ vs)
has-split p [] h = absurd (cc)
has-split p (x ∷ xs) h = elim (Bool-cases (p == x)) [
  | inl e ↦ ([], xs, ground arith)
  | inr e ↦ let (us, vs, same) = has-split p xs (ground arith) in (x ∷ us, vs, ap (λ l. x ∷ l) same)
]

pub snoc-cases : (xs : List Ptr) → (xs ≡ []) ⊎ ((zs : List Ptr) × (z : Ptr) × (xs ≡ zs ++ z ∷ []))
snoc-cases [] = inl refl
snoc-cases (x ∷ xs) = elim (snoc-cases xs) [
  | inl e ↦ inr ([], x, ap (λ l. x ∷ l) e)
  | inr (zs, z, e) ↦ inr (x ∷ zs, z, ap (λ l. x ∷ l) e)
]

pub erase-append_first :
    (p : Ptr) (xs ys : List Ptr) → has p xs ≡ false → erase p (xs ++ p ∷ ys) ≡ xs ++ ys
erase-append_first p [] ys h = ground arith
erase-append_first p (x ∷ xs) ys h = ground (arith, erase-append_first p xs ys)

pub Distinct-snoc_inv :
    (z : Ptr) (zs : List Ptr) → Distinct (zs ++ z ∷ []) → (has z zs ≡ false) × Distinct zs
Distinct-snoc_inv z [] d = (refl, tt)
Distinct-snoc_inv z (x ∷ zs) d =
    let (out, rest) = Distinct-snoc_inv z zs d.1 in
    (ground (arith, has-append x zs (z ∷ [])), (ground (arith, has-append x zs (z ∷ [])), rest))

pub Distinct-without : (p : Ptr) (us vs : List Ptr) → Distinct (us ++ p ∷ vs) → Distinct (us ++ vs)
Distinct-without p [] vs d = d.1
Distinct-without p (x ∷ us) vs d =
    (ground (arith, has-append x us vs, has-append x us (p ∷ vs)), Distinct-without p us vs d.1)

pub erase-middle :
    (tp p : Ptr) (us vs : List Ptr)
    → has p us ≡ false
    → erase p (us ++ p ∷ vs ++ tp ∷ []) ≡ us ++ vs ++ tp ∷ []
erase-middle tp p us vs h =
    rw (append_assoc, append_assoc) (erase-append_first p us (vs ++ tp ∷ []) h)

-- A block of a list with no repetition does not stand before its place.
pub not-has_before : (p : Ptr) (us vs : List Ptr) → Distinct (us ++ p ∷ vs) → has p us ≡ false
not-has_before p [] vs d = refl
not-has_before p (x ∷ us) vs d =
    ground (arith, has-append x us (p ∷ vs), not-has_before p us vs d.1)

pub erase_self : (p : Ptr) → erase p (p ∷ []) ≡ []
erase_self p = ground arith

pub has-snoc : (q : Ptr) (ls : List Ptr) → has q (ls ++ q ∷ []) ≡ true
has-snoc q [] = ground arith
has-snoc q (l ∷ ls) = ground (arith, has-snoc q ls)
