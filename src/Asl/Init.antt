-- ===== src/Asl/Init.antt =====
-- `initASL` of src/asl.c: no semaphore is active, and forty descriptors are free.
use progetto_so.Base.{
  ℕ, zero, suc, ◌+◌, ◌≤◌, ◌<◌, ◌≡◌, refl, ap, ◌∙◌, inl, inr, true, false, Bool-cases, List, [], ◌∷◌,
  arith, Ptr, null, update, has, length, ◌==◌, Returns, returned, Returns-weaken,
}
use mathlib.Core.Path.{subst}
use progetto_so.Pcb.Defs.{max_proc}
use progetto_so.Pcb.Ring.{Distinct}
use progetto_so.Asl.Defs.{Semds, max_add, semd_entry, init_free, init_asl}
use progetto_so.Asl.Seg.{IsFree-update}
use progetto_so.Asl.Entries.{IsFree, Represents}

-- The free descriptors before round `i` of the loop: different ones, all of earlier rounds.
abbrev Freed : ℕ → List Ptr → Semds → Type 0
Freed i free s =
    IsFree s.s_next s.semd_free_h free
    × Distinct free
    × ((q : Ptr) → has q free ≡ true → (2 < q) × (q ≤ i))

-- The loop changes nothing but the free list.
record OnlyFree (i : ℕ) (s t : Semds) : Type 0 where
  lower : (q : Ptr) → q ≤ i → t.s_next q ≡ s.s_next q
  rest : t ≡ record s { s_next = t.s_next; semd_free_h = t.semd_free_h }

abbrev one_more : ℕ → Semds → Semds
one_more i s = record s {
  semd_free_h = semd_entry i;
  s_next = update s.s_next (semd_entry i) s.semd_free_h;
}

init_free_step : (k i : ℕ) (s : Semds) → init_free (suc k) i s ≡ init_free k (i + 1) (one_more i s)
unfolding init_free
init_free_step k i s = ground arith

one_more-Freed :
    (i : ℕ) (free : List Ptr) (s : Semds)
    → 2 ≤ i
    → Freed i free s
    → Freed (i + 1) (semd_entry i ∷ free) (one_more i s)
one_more-Freed i free s le (list, distinct, range) =
    let out : has (semd_entry i) free ≡ false = elim (Bool-cases (has (semd_entry i) free)) [
      | inl h ↦ absurd (omega (arith, (range (semd_entry i) h).1))
      | inr h ↦ h
    ] in
    (
      (
        refl,
        subst (λ h. IsFree (one_more i s).s_next h free) (ground arith)
            (IsFree-update s.s_next (semd_entry i) s.semd_free_h s.semd_free_h free list out),
      ),
      (out, distinct),
      λ q h. elim (Bool-cases (q == semd_entry i)) [
        | inl g ↦ ground (arith, le)
        | inr g ↦ ground (arith, range q (ground (arith, h)))
      ],
    )

plus_zero : (n : ℕ) → n ≡ n + 0
plus_zero n = omega arith

count : (n k : ℕ) → n + 1 + k ≡ n + suc k
count n k = omega arith

init_free-Freed :
    (k i : ℕ) (free : List Ptr) (s : Semds)
    → 2 ≤ i
    → Freed i free s
    → Returns
        (λ _ t.
          ((free' : List Ptr) × Freed (i + k) free' t × (length free' ≡ length free + k))
          × OnlyFree i s t)
        (init_free k i s)
unfolding init_free
init_free-Freed zero i free s le h = returned (
  (free, subst (λ n. Freed n free s) (plus_zero i) h, omega arith),
  record { lower = λ q n. refl; rest = refl },
)
init_free-Freed (suc k) i free s le h = rw (init_free_step k i s) (
    Returns-weaken
      (init_free-Freed k (i + 1) (semd_entry i ∷ free) (one_more i s) (omega (arith, le))
        (one_more-Freed i free s le h))
      (λ _ t ((free', h', len), only). (
        (free', subst (λ n. Freed n free' t) (count i k) h', omega (arith, len)),
        record {
          lower = λ q n. only.lower q (omega (arith, n)) ∙ ground (arith, n);
          rest = only.rest;
        },
      )))

-- The state when the loop of `initASL` starts.
abbrev emptied : Semds → Semds
emptied s = record s {
  semd_free_h = null;
  s_next = update (update s.s_next (semd_entry 0) (semd_entry 1)) (semd_entry 1) null;
  s_proc_q = update (update s.s_proc_q (semd_entry 0) null) (semd_entry 1) null;
  s_sem_add = update (update s.s_sem_add (semd_entry 0) null) (semd_entry 1) max_add;
  semd_h = semd_entry 0;
}

init_asl_run : (s : Semds) → init_asl s ≡ init_free max_proc 2 (emptied s)
unfolding init_asl
init_asl_run s = refl

-- `initASL` makes a list with no active semaphore, from any state, and changes no block.
pub init_asl-Represents :
    (s : Semds) → Returns (λ _ t. Represents t (λ _. []) × (t.pcbs ≡ s.pcbs)) (init_asl s)
init_asl-Represents s = rw (init_asl_run s) (
    Returns-weaken
      (init_free-Freed max_proc 2 [] (emptied s) (omega arith) (refl, tt, λ q h. absurd (cc)))
      (λ _ t ((free, (list, distinct, range), len), only). (
        record {
          entries = [];
          free = free;
          asl = record {
            head = ap (λ (u : Semds). u.semd_h) only.rest;
            upper_add = ap (λ (u : Semds). u.s_sem_add 2) only.rest;
            upper_queue = ap (λ (u : Semds). u.s_proc_q 2) only.rest;
            links = only.lower 1 (omega arith);
            ascending = tt;
            holds = tt;
            free_list = list;
            distinct = distinct;
            free_in_table = λ q h. (range q h).0;
            count = omega (arith, len);
          };
          agrees = λ a. refl;
        },
        ap (λ (u : Semds). u.pcbs) only.rest,
      )))
