-- ===== src/Tests/Waiting.antt =====
-- The semaphores of src/asl.c with the blocks 1 and 2 of src/pcb.c waiting on one of them.
use progetto_so.Base.{
  ℕ, zero, suc, ◌+◌, ◌≤◌, ◌<◌, ◌≡◌, refl, true, false, inl, inr, Bool-cases, List, [], ◌∷◌, arith,
  Ptr, null, update, has, ◌==◌, if◌then◌else◌, ok, Returns,
}
use mathlib.Core.Path.{subst}
use progetto_so.Pcb.Defs.{Pcbs}
use progetto_so.Pcb.Ring.{Distinct, ring}
use progetto_so.Asl.Defs.{
  Semds, max_add, insert_blocked, remove_blocked, out_blocked, head_blocked, init_asl,
}
use progetto_so.Asl.Entries.{IsFree, Represents}
use progetto_so.Asl.Room.{insert_blocked-ne_full}
use progetto_so.Asl.Blocked.{enqueued, Inserted, insert_blocked-Inserted}
use progetto_so.Asl.Remove.{Removed, remove_blocked-Removed}
use progetto_so.Asl.Out.{TakenOff, out_blocked-TakenOff}
use progetto_so.Asl.Head.{head_blocked_lem}
use progetto_so.Asl.Init.{init_asl-Represents}
use progetto_so.Tests.Queues.{to_null, swap_two, two}

-- The descriptors 4, 5, … in their list, the last of which ends it.
abbrev spare : ℕ → ℕ → List Ptr
spare zero d = []
spare (suc n) d = d ∷ spare n (d + 1)

abbrev pub chained : Ptr → Ptr
chained q = if q == 1 then 3 else if q == 3 then 2 else if q == 42 then null else q + 1

-- The blocks 1 and 2 wait on `a`, and the block 4 is alone in another ring.
abbrev pub table : Ptr → Pcbs
table a = record two {
  p_next = update swap_two 4 4;
  p_prev = update swap_two 4 4;
  p_sem_add = update (update to_null 1 a) 2 a;
}

abbrev pub waiting : Ptr → Semds
waiting a = record {
  s_next = chained;
  s_sem_add = update (update to_null 3 a) 2 max_add;
  s_proc_q = update to_null 3 2;
  semd_free_h = 4;
  semd_h = 1;
  pcbs = table a;
}

abbrev pub waiters : Ptr → Ptr → List Ptr
waiters a b = if a == b then 1 ∷ 2 ∷ [] else []

has-spare : (n d q : ℕ) → has q (spare n d) ≡ true → d ≤ q
has-spare zero d q i = absurd (cc)
has-spare (suc n) d q i = ground (arith, has-spare n (d + 1) q)

spare-Distinct : (n d : ℕ) → Distinct (spare n d)
spare-Distinct zero d = tt
spare-Distinct (suc n) d = (out, spare-Distinct n (d + 1))
  where
    out : has d (spare n (d + 1)) ≡ false
    out = elim (Bool-cases (has d (spare n (d + 1)))) [
      | inl h ↦ absurd (omega (arith, has-spare n (d + 1) d h))
      | inr h ↦ h
    ]

links_spare : (n d : ℕ) → 3 < d → d + n ≡ 42 → IsFree chained d (spare (suc n) d)
links_spare zero d over last = (refl, ground (arith, over, last))
links_spare (suc n) d over last =
    let next : d + 1 ≡ chained d = ground (arith, over, last) in
    (
      refl,
      subst (λ h. IsFree chained h (spare (suc n) (d + 1))) next
          (links_spare n (d + 1) (omega (arith, over)) (omega (arith, last))),
    )

pub waiting-Represents : (a : Ptr) → 0 < a → a < max_add → Represents (waiting a) (waiters a)
waiting-Represents a positive below = record {
  entries = record { desc = 3; add = a; blocks = 1 ∷ 2 ∷ [] } ∷ [];
  free = spare 39 4;
  asl = record {
    head = refl;
    upper_add = refl;
    upper_queue = refl;
    links = (refl, refl);
    ascending = (positive, tt);
    holds = (
      record {
        in_table = omega arith;
        not_free = refl;
        is_add = refl;
        below_max = below;
        queue = ring (1 ∷ []) refl refl (refl, (refl, tt)) (refl, refl, (refl, refl));
        waits = λ h. cc;
        marked = λ q i. ground arith;
        in_pool = λ q i. ground arith;
      },
      tt,
    );
    free_list = links_spare 38 4 (omega arith) refl;
    distinct = spare-Distinct 39 4;
    free_in_table = λ q i. omega (arith, has-spare 39 4 q i);
    count = refl;
  };
  agrees = λ b. refl;
}

hundred : Represents (waiting 100) (waiters 100)
hundred = waiting-Represents 100 (omega arith) (omega arith)

insert_blocked-Inserted_example :
    Returns (Inserted (waiting 100) (waiters 100) 50 7) (insert_blocked 50 7 (waiting 100))
insert_blocked-Inserted_example =
    insert_blocked-Inserted (waiting 100) (waiters 100) 50 7 hundred (omega arith) (omega arith)
      (omega arith) (omega arith) (λ b. ground arith)

remove_blocked-Removed_example :
    Returns
      (Removed (waiting 100) (waiters 100) 100 (1 ∷ 2 ∷ []))
      (remove_blocked 100 (waiting 100))
remove_blocked-Removed_example =
    remove_blocked-Removed (waiting 100) (waiters 100) 100 hundred (omega arith)

out_blocked-TakenOff_example :
    Returns (TakenOff (waiting 100) (waiters 100) 100 2) (out_blocked 2 (waiting 100))
out_blocked-TakenOff_example = out_blocked-TakenOff (waiting 100) (waiters 100) 100 2 hundred refl

head_blocked_lem_example : head_blocked 100 (waiting 100) ≡ ok 1 (waiting 100)
head_blocked_lem_example = head_blocked_lem (waiting 100) (waiters 100) 100 hundred (omega arith)

init_asl-Represents_example :
    Returns (λ _ t. Represents t (λ _. []) × (t.pcbs ≡ table 100)) (init_asl (waiting 100))
init_asl-Represents_example = init_asl-Represents (waiting 100)

insert_blocked-ne_full_example :
    Returns
      (λ full t. (full ≡ false) × Represents t (enqueued (waiters 100) 50 7))
      (insert_blocked 50 7 (waiting 100))
insert_blocked-ne_full_example =
    insert_blocked-ne_full (waiting 100) (waiters 100) 50 7 hundred (omega arith) (omega arith)
      (omega arith) (omega arith) (λ b. ground arith)
