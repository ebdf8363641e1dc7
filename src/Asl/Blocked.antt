-- ===== src/Asl/Blocked.antt =====
-- `insertBlocked` of src/asl.c on the map from semaphores to queues.
use progetto_so.Base.{
  ◌≤◌, ◌<◌, ◌≡◌, ◌≢◌, ◌⊎◌, inl, inr, refl, sym, ap, ◌∙◌, Bool, true, false, List, [], ◌∷◌, ◌++◌,
  arith, Ptr, null, has, ◌==◌, if◌then◌else◌, ok, Returns, returned, Returns-weaken,
}
use mathlib.Core.Path.{subst}
use progetto_so.Pcb.Defs.{max_proc}
use progetto_so.Pcb.Queue.{OnlyLinks}
use progetto_so.Asl.Defs.{Semds, max_add, semd_entry, find_sem_in_active_list, insert_blocked}
use progetto_so.Asl.Find.{end_of}
use progetto_so.Asl.Seg.{first, Seg-next}
use progetto_so.Asl.Entries.{Entry, descs, under, from, IsAsl, queue_of, Represents, split_at}
use progetto_so.Asl.Locate.{find_sem_run, AllHold-left, AllHold-right, end_of-ne_null}
use progetto_so.Asl.Lookup.{
  AllUnder, StartsAbove, under-AllUnder, queue_of-skip, FromCases, queue_of-absent, queue_of-change,
  queue_of-put, active, inactive, from-cases,
}
use progetto_so.Asl.Frame.{All, Without, out_of_each}
use progetto_so.Asl.Insert.{marked, Grown, insert_active}
use progetto_so.Asl.InsertNew.{insert_new, next-ne, asl_links}
use progetto_so.Asl.InsertRun.{insert_run_full}

-- The map after a block is put behind the queue of `a`.
abbrev pub enqueued : (Ptr → List Ptr) → (a p : Ptr) → Ptr → List Ptr
enqueued f a p b = if b == a then f a ++ p ∷ [] else f b

-- Either there is no descriptor for the semaphore and nothing is changed, or the block is at the end
-- of the semaphore's queue, marked with its address, and only links of that queue have changed.
abbrev pub Inserted : Semds → (Ptr → List Ptr) → (a p : Ptr) → Bool → Semds → Type 0
Inserted s f a p full t =
    (full ≡ true) × (t ≡ s) × (f a ≡ []) × (s.semd_free_h ≡ null)
    ⊎ (full ≡ false)
      × Represents t (enqueued f a p)
      × OnlyLinks (f a ++ p ∷ []) (marked s p a) t.pcbs

module _ (s : Semds) (f : Ptr → List Ptr) (a p : Ptr) (us vs : List Entry) where
  insert_at_active :
      (free : List Ptr) (e : Entry)
      → IsAsl s (us ++ e ∷ vs) free
      → ((b : Ptr) → queue_of b (us ++ e ∷ vs) ≡ f b)
      → under a (us ++ e ∷ vs) ≡ us
      → AllUnder a us
      → e.add ≡ a
      → a < max_add
      → p ≢ null
      → p ≤ max_proc
      → All (Without p) (us ++ e ∷ vs)
      → Returns (Inserted s f a p) (insert_blocked a p s)
  insert_at_active free e asl agrees is_under low is_a below real pool without =
      let found =
        find_sem_run s free (us ++ e ∷ vs) a asl.head asl.links asl.holds asl.upper_add
          (omega arith) (omega (arith, asl.count))
        ∙ ap (λ l. ok (end_of (semd_entry 0) (descs l)) s) is_under in
      let f_is : e.blocks ≡ f a =
        ground (arith, is_a, queue_of-skip a a us (e ∷ vs) low, agrees a) in
      let run =
        insert_active s free us vs e p asl (subst (λ v. AllUnder v us) (sym is_a) low)
          (subst (λ v. find_sem_in_active_list v s ≡ ok (end_of (semd_entry 0) (descs us)) s)
            (sym is_a) found)
          real pool without in
      Returns-weaken (subst (λ v. Returns (Grown s free us vs e p) (insert_blocked v p s)) is_a run)
        (λ full t (not_full, asl', links). inr (
          not_full,
          record {
            entries = us ++ record e { blocks = e.blocks ++ p ∷ [] } ∷ vs;
            free = free;
            asl = asl';
            agrees = λ b.
                queue_of-change a b e (record e { blocks = e.blocks ++ p ∷ [] }) us vs low is_a is_a
                ∙ ground (arith, f_is, agrees b);
          },
          subst (λ l. OnlyLinks (l ++ p ∷ []) (marked s p a) t.pcbs) f_is
              (subst (λ v. OnlyLinks (e.blocks ++ p ∷ []) (marked s p v) t.pcbs) is_a links),
        ))

  -- The semaphore is not active, and is put in or has no descriptor.
  insert_at_inactive :
      (free : List Ptr)
      → IsAsl s (us ++ vs) free
      → ((b : Ptr) → queue_of b (us ++ vs) ≡ f b)
      → under a (us ++ vs) ≡ us
      → AllUnder a us
      → StartsAbove a vs
      → 0 < a
      → a < max_add
      → p ≢ null
      → p ≤ max_proc
      → All (Without p) (us ++ vs)
      → Returns (Inserted s f a p) (insert_blocked a p s)
  insert_at_inactive [] asl agrees is_under low above positive below real pool without =
      let hl = AllHold-left s [] us vs asl.holds in
      let hr = AllHold-right s [] us vs asl.holds in
      let found =
        find_sem_run s [] (us ++ vs) a asl.head asl.links asl.holds asl.upper_add (omega arith)
          (omega (arith, asl.count))
        ∙ ap (λ l. ok (end_of (semd_entry 0) (descs l)) s) is_under in
      let place = next-ne s [] a vs hr above below asl.upper_add in
      rw
        (insert_run_full a p (end_of (semd_entry 0) (descs us)) (first (descs vs) (semd_entry 1)) s
          found (end_of-ne_null s [] (semd_entry 0) us (omega arith) hl)
          (Seg-next s.s_next (semd_entry 0) (semd_entry 1) (descs us) (descs vs)
            (asl_links s [] us vs a p asl))
          place.0 place.1 asl.free_list)
        (returned (
          inl (
            refl,
            refl,
            sym (agrees a) ∙ queue_of-absent a 0 us vs low above asl.ascending,
            asl.free_list,
          )))
  insert_at_inactive (d ∷ free) asl agrees is_under low above positive below real pool without =
      let f_is : f a ≡ [] = sym (agrees a) ∙ queue_of-absent a 0 us vs low above asl.ascending in
      Returns-weaken
        (insert_new s free us vs a p d asl is_under low above positive below real pool without)
        (λ full t (not_full, asl', links). inr (
          not_full,
          record {
            entries = us ++ record { desc = d; add = a; blocks = p ∷ [] } ∷ vs;
            free = free;
            asl = asl';
            agrees = λ b.
                queue_of-put a b (record { desc = d; add = a; blocks = p ∷ [] }) us vs low refl
                ∙ ground (arith, f_is, agrees b);
          },
          subst (λ l. OnlyLinks (l ++ p ∷ []) (marked s p a) t.pcbs) (sym f_is) links,
        ))

insert_by_cases :
    (s : Semds) (f : Ptr → List Ptr) (a p : Ptr) (us vs : List Entry) (free : List Ptr)
    → IsAsl s (us ++ vs) free
    → ((b : Ptr) → queue_of b (us ++ vs) ≡ f b)
    → under a (us ++ vs) ≡ us
    → AllUnder a us
    → FromCases a vs
    → 0 < a
    → a < max_add
    → p ≢ null
    → p ≤ max_proc
    → All (Without p) (us ++ vs)
    → Returns (Inserted s f a p) (insert_blocked a p s)
insert_by_cases s f a p us vs free asl agrees is_under low (active e rest split is_a) pos below real
      pool without =
    insert_at_active s f a p us rest free e (subst (λ l. IsAsl s (us ++ l) free) split asl)
      (subst (λ l. (b : Ptr) → queue_of b (us ++ l) ≡ f b) split agrees)
      (subst (λ l. under a (us ++ l) ≡ us) split is_under) low is_a below real pool
      (subst (λ l. All (Without p) (us ++ l)) split without)
insert_by_cases s f a p us vs free asl agrees is_under low (inactive above) pos below real pool
      without =
    insert_at_inactive s f a p us vs free asl agrees is_under low above pos below real pool without

-- `insertBlocked` puts the block at the end of the queue of its semaphore, marks it with the
-- semaphore and leaves every other queue as it was; it answers TRUE, and changes nothing, only where
-- no process waits on the semaphore and no descriptor is free. The semaphore's address is between
-- those of the sentinels, and the block is one of the forty and in no queue.
pub insert_blocked-Inserted :
    (s : Semds) (f : Ptr → List Ptr) (a p : Ptr)
    → Represents s f
    → 0 < a
    → a < max_add
    → p ≢ null
    → p ≤ max_proc
    → ((b : Ptr) → has p (f b) ≡ false)
    → Returns (Inserted s f a p) (insert_blocked a p s)
insert_blocked-Inserted s f a p r positive below real pool out =
    let es = r.entries in
    let split = split_at a es in
    insert_by_cases s f a p (under a es) (from a es) r.free
      (subst (λ l. IsAsl s l r.free) split r.asl)
      (subst (λ l. (b : Ptr) → queue_of b l ≡ f b) split r.agrees) (ap (under a) (sym split))
      (under-AllUnder a es) (from-cases a es) positive below real pool
      (subst (λ l. All (Without p) l) split
        (out_of_each p 0 es r.asl.ascending (λ b. ap (has p) (r.agrees b) ∙ out b)))
