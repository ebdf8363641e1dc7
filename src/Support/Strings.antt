-- ===== src/Support/Strings.antt =====
-- Fuel for the loops over strings, and the arithmetic of their counters.
use progetto_so.Base.{ℕ, suc, ◌+◌, ◌≡◌, List, [], ◌∷◌, length, arith}

-- A round of fuel for each character.
abbrev pub more : List ℕ → ℕ → ℕ
more [] k = k
more (c ∷ cs) k = suc (more cs k)

pub more_lem : (cs : List ℕ) (k : ℕ) → more cs k ≡ length cs + k
more_lem [] k = omega arith
more_lem (c ∷ cs) k = omega (arith, more_lem cs k)

pub plus_zero : (n : ℕ) → n ≡ n + 0
plus_zero n = omega arith

pub count : (n m : ℕ) → n + 1 + m ≡ n + suc m
count n m = omega arith
