-- ===== src/Asl/Find.antt =====
-- `findSemInActiveList` of src/asl.c: where a semaphore stands in the active list.
use progetto_so.Base.{
  ℕ, zero, suc, ◌+◌, ◌≤◌, ◌<◌, ◌≡◌, refl, ◌≢◌, inl, inr, true, false, Bool-cases, List, [], ◌∷◌,
  ◌++◌, ap, sym, ◌∙◌, arith, Ptr, null, length, ltb, ok, Returns, returned, Returns-weaken,
}
use mathlib.Core.Path.{subst}
use progetto_so.Pcb.Defs.{max_proc}
use progetto_so.Asl.Defs.{Semds, max_add, find_loop, find_sem_in_active_list}

-- Behind the descriptor `p` come the descriptors `ds`, and then the upper sentinel.
abbrev pub IsActive : (nx add : Ptr → Ptr) → Ptr → List Ptr → Type 0
IsActive nx add p [] = (p ≢ null) × (nx p ≢ null) × (add (nx p) ≡ max_add)
IsActive nx add p (d ∷ ds) = (p ≢ null) × (nx p ≡ d) × (add d < max_add) × IsActive nx add d ds

abbrev pub end_of : Ptr → List Ptr → Ptr
end_of p [] = p
end_of p (d ∷ ds) = end_of d ds

abbrev pub AllBelow : (Ptr → Ptr) → Ptr → List Ptr → Type 0
AllBelow add a [] = Unit {0}
AllBelow add a (d ∷ ds) = (add d < a) × AllBelow add a ds

-- The descriptor `q` is the last before the place of `a`: those up to it belong to semaphores below
-- `a`, and the next one does not.
abbrev pub IsPlace : Semds → Ptr → Ptr → List Ptr → Ptr → Type 0
IsPlace s a p ds q =
    (before : List Ptr) × (after : List Ptr) × (ds ≡ before ++ after)
    × (q ≡ end_of p before)
    × AllBelow s.s_sem_add a before
    × (a ≤ s.s_sem_add (s.s_next q))

active_next : (nx add : Ptr → Ptr) (p : Ptr) (ds : List Ptr) → IsActive nx add p ds → p ≢ null
active_next nx add p [] h = h.0
active_next nx add p (d ∷ ds) h = h.0

pub find_last :
    (k a p : ℕ) (s : Semds)
    → p ≢ null
    → s.s_next p ≢ null
    → s.s_sem_add (s.s_next p) ≡ max_add
    → find_loop (suc k) a p s ≡ ok p s
unfolding find_loop
find_last k a p s h h' e = ground arith

pub find_here :
    (k a p : ℕ) (s : Semds)
    → p ≢ null
    → s.s_next p ≢ null
    → ltb (s.s_sem_add (s.s_next p)) a ≡ false
    → find_loop (suc k) a p s ≡ ok p s
unfolding find_loop
find_here k a p s h h' e = ground arith

pub find_further :
    (k a p : ℕ) (s : Semds)
    → p ≢ null
    → s.s_next p ≢ null
    → ltb (s.s_sem_add (s.s_next p)) a ≡ true
    → s.s_sem_add (s.s_next p) < max_add
    → find_loop (suc k) a p s ≡ find_loop k a (s.s_next p) s
unfolding find_loop
find_further k a p s h h' e lt = ground arith

find_loop-IsPlace :
    (ds : List Ptr) (k a p : ℕ) (s : Semds)
    → IsActive s.s_next s.s_sem_add p ds
    → a ≤ max_add
    → length ds < k
    → Returns (λ q t. IsPlace s a p ds q × (t ≡ s)) (find_loop k a p s)
find_loop-IsPlace ds zero a p s active le lt = absurd (omega (arith, lt))
find_loop-IsPlace [] (suc k) a p s (h, h', e) le lt =
    rw (find_last k a p s h h' e) (returned (([], [], refl, refl, tt, omega (arith, e, le)), refl))
find_loop-IsPlace (d ∷ ds) (suc k) a p s (h, is_d, below, active) le lt =
    let active' : IsActive s.s_next s.s_sem_add (s.s_next p) ds =
      subst (λ v. IsActive s.s_next s.s_sem_add v ds) (sym is_d) active in
    let real = active_next s.s_next s.s_sem_add (s.s_next p) ds active' in
    let add_is = ap s.s_sem_add is_d in
    elim (Bool-cases (ltb (s.s_sem_add (s.s_next p)) a)) [
      | inl e ↦ rw (find_further k a p s h real e (omega (arith, add_is, below))) (
          Returns-weaken (find_loop-IsPlace ds k a (s.s_next p) s active' le (omega (arith, lt)))
            (λ q t ((before, after, split, is_end, under, up), same). (
              (
                d ∷ before,
                after,
                ap (λ l. d ∷ l) split,
                is_end ∙ ap (λ v. end_of v before) is_d,
                (ground (arith, e, add_is), under),
                up,
              ),
              same,
            )))
      | inr e ↦
          rw (find_here k a p s h real e)
            (returned (([], d ∷ ds, refl, refl, tt, ground (arith, e)), refl))
    ]

-- `findSemInActiveList` always ends on an active list of at most the forty descriptors behind the
-- lower sentinel, changes nothing, and answers the descriptor behind which the semaphore stands or
-- is to be inserted, given that its address is not above that of the upper sentinel.
pub find_sem-IsPlace :
    (a : Ptr) (ds : List Ptr) (s : Semds)
    → IsActive s.s_next s.s_sem_add s.semd_h ds
    → a ≤ max_add
    → length ds ≤ max_proc
    → Returns (λ q t. IsPlace s a s.semd_h ds q × (t ≡ s)) (find_sem_in_active_list a s)
unfolding find_sem_in_active_list
find_sem-IsPlace a ds s active le bound =
    find_loop-IsPlace ds (max_proc + 2) a s.semd_h s active le (omega (arith, bound))
