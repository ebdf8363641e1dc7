-- ===== src/Pcb/Pigeon.antt =====
-- What is left of a list without a block, and how many different blocks there can be.
use progetto_so.Base.{
  ℕ, zero, suc, ◌≤◌, ◌<◌, ◌≡◌, refl, ap, ◌∙◌, inl, inr, true, false, Bool-cases, List, [], ◌∷◌,
  arith, Ptr, has, length, ◌==◌,
}
use progetto_so.Pcb.Ring.{Distinct}
use progetto_so.Pcb.Erase.{erase}

pub has-erase_part : (p q : Ptr) (xs : List Ptr) → has q (erase p xs) ≡ true → has q xs ≡ true
has-erase_part p q [] h = h
has-erase_part p q (x ∷ xs) h = ground (arith, has-erase_part p q xs)

pub has-erase_self : (p : Ptr) (xs : List Ptr) → Distinct xs → has p (erase p xs) ≡ false
has-erase_self p [] d = refl
has-erase_self p (x ∷ xs) (out, d) = elim (Bool-cases (p == x)) [
  | inl h ↦ let eq : p ≡ x = ground arith in rw h (ap (λ v. has v xs) eq ∙ out)
  | inr h ↦ ground (arith, has-erase_self p xs d, h)
]

Distinct-erase : (p : Ptr) (xs : List Ptr) → Distinct xs → Distinct (erase p xs)
Distinct-erase p [] d = tt
Distinct-erase p (x ∷ xs) (out, d) = elim (Bool-cases (p == x)) [
  | inl h ↦ rw h d
  | inr h ↦ rw h (part, Distinct-erase p xs d)
]
  where
    part : has x (erase p xs) ≡ false
    part = elim (Bool-cases (has x (erase p xs))) [
      | inl g ↦ absurd (ground (arith, has-erase_part p x xs g, out))
      | inr g ↦ g
    ]

length-erase : (p : Ptr) (xs : List Ptr) → has p xs ≡ true → length xs ≡ suc (length (erase p xs))
length-erase p [] h = absurd (cc)
length-erase p (x ∷ xs) h = ground (arith, length-erase p xs)

smaller_of :
    (n q : ℕ) (ys : List Ptr) → has (suc n) ys ≡ false → has q ys ≡ true → q ≤ suc n → q ≤ n
smaller_of n q ys out i le = elim (Bool-cases (q == suc n)) [
  | inl h ↦
      let eq : q ≡ suc n = ground arith in absurd (ground (arith, ap (λ v. has v ys) eq, i, out))
  | inr h ↦ ground (arith, le)
]

-- Different numbers from 1 to `n` are at most `n`.
pub length-le :
    (n : ℕ) (xs : List Ptr)
    → Distinct xs
    → ((q : Ptr) → has q xs ≡ true → (0 < q) × (q ≤ n))
    → length xs ≤ n
length-le zero [] d h = omega arith
length-le zero (x ∷ xs) d h = absurd (omega (arith, h x (ground arith)))
length-le (suc n) xs d h = elim (Bool-cases (has (suc n) xs)) [
  | inl i ↦
      let smaller = length-le n (erase (suc n) xs) (Distinct-erase (suc n) xs d) (λ q j. (
        (h q (has-erase_part (suc n) q xs j)).0,
        smaller_of n q (erase (suc n) xs) (has-erase_self (suc n) xs d) j
            (h q (has-erase_part (suc n) q xs j)).1,
      )) in
      omega (arith, length-erase (suc n) xs i, smaller)
  | inr o ↦ omega (arith, length-le n xs d (λ q j. ((h q j).0, smaller_of n q xs o j (h q j).1)))
]
