-- ===== src/Asl/InsertNew.antt =====
-- `insertBlocked` of src/asl.c where the semaphore is not active: a free descriptor is put in, or
-- there is none.
use progetto_so.Base.{
  ◌≤◌, ◌<◌, ◌≡◌, ◌≢◌, refl, sym, ap, ◌∙◌, Bool, true, false, List, [], ◌∷◌, ◌++◌, arith, Ptr, null,
  update, has, length, length-append, ok, Returns, returned, Returns-inv,
}
use mathlib.Core.Path.{subst}
use progetto_so.Pcb.Defs.{Pcbs, max_proc}
use progetto_so.Pcb.Ring.{Distinct, empty}
use progetto_so.Pcb.Queue.{OnlyLinks, Queued, insert_proc_q-append}
use progetto_so.Asl.Defs.{Semds, max_add, semd_entry, insert_blocked}
use progetto_so.Asl.Find.{end_of}
use progetto_so.Asl.Seg.{first, Seg-next, Seg-update, Seg-insert, IsFree-update}
use progetto_so.Asl.Entries.{Seg, Entry, descs, under, AllHold, IsAsl}
use progetto_so.Asl.Locate.{
  end_of-ne_null, descs-append, AllHold-left, AllHold-right, AllHold-append, descs-Distinct,
  free-not_has, sentinel-not_has, find_sem_run,
}
use progetto_so.Asl.Lookup.{AllUnder, StartsAbove, IsAscending-suffix, IsAscending-put}
use progetto_so.Asl.Frame.{
  All, Holds-Frame, AllHold-map, All-both, All-left, All-right, Other, under-Other, starts-Other,
  Without, Disjoint-snoc,
}
use progetto_so.Asl.Insert.{marked, Queued-Frame, Queued-Holds}
use progetto_so.Asl.InsertRun.{taken, put_in, insert_run_new, taken-hold, not_free-end}

-- The descriptor behind the place is for another semaphore.
pub next-ne :
    (s : Semds) (free : List Ptr) (a : Ptr) (vs : List Entry)
    → AllHold s free vs
    → StartsAbove a vs
    → a < max_add
    → s.s_sem_add (semd_entry 1) ≡ max_add
    → (first (descs vs) (semd_entry 1) ≢ null) × (s.s_sem_add (first (descs vs) (semd_entry 1)) ≢ a)
next-ne s free a [] h above lt up = (omega arith, omega (arith, lt, up))
next-ne s free a (v ∷ vs) (h, hs) above lt up =
    (omega (arith, h.in_table), omega (arith, h.is_add, above))

module _ (s : Semds) (free : List Ptr) (us vs : List Entry) (a p : Ptr) where
  abbrev pub fresh : Ptr → Entry
  fresh d = record { desc = d; add = a; blocks = p ∷ [] }

  pub asl_links :
      IsAsl s (us ++ vs) free → Seg s.s_next (semd_entry 0) (descs us ++ descs vs) (semd_entry 1)
  asl_links asl =
      subst (λ l. Seg s.s_next (semd_entry 0) l (semd_entry 1)) (descs-append us vs) asl.links

  pub asl-Distinct : IsAsl s (us ++ vs) free → Distinct (semd_entry 0 ∷ descs us ++ descs vs)
  asl-Distinct asl =
      subst (λ l. Distinct (semd_entry 0 ∷ l)) (descs-append us vs)
        (
          sentinel-not_has s free (semd_entry 0) (us ++ vs) asl.holds (omega arith),
          descs-Distinct s free 0 (us ++ vs) asl.holds asl.ascending,
        )

  asl_apart :
      (d : Ptr)
      → IsAsl s (us ++ vs) free
      → has d free ≡ true
      → has d (semd_entry 0 ∷ descs us ++ descs vs) ≡ false
  asl_apart d asl i =
      subst (λ l. has d (semd_entry 0 ∷ l) ≡ false) (descs-append us vs)
        (ground (arith, free-not_has s free d (us ++ vs) asl.holds i, asl.free_in_table d i))

-- What `insertBlocked` leaves where the descriptor `d` is put in for the semaphore `a`.
abbrev pub PutIn : Semds → List Ptr → (us vs : List Entry) → (a p d : Ptr) → Bool → Semds → Type 0
PutIn s free us vs a p d full t =
    (full ≡ false)
    × IsAsl t (us ++ fresh s free us vs a p d ∷ vs) free
    × OnlyLinks (p ∷ []) (marked s p a) t.pcbs

module _ (s : Semds) (free : List Ptr) (us vs : List Entry) (a p d : Ptr) where
  -- The entries of the other semaphores hold still.
  put-others :
      (tp : Ptr) (t : Pcbs)
      → Queued (marked s p a) [] p tp t
      → (ws : List Entry) → AllHold s (d ∷ free) ws
      → All (Other a) ws
      → All (Without p) ws
      → AllHold (put_in s d (end_of (semd_entry 0) (descs us)) a tp t) free ws
  put-others tp t queued ws holds others without =
      AllHold-map
        (λ u hu (ne, out).
          Holds-Frame
            (Queued-Frame s (put_in s d (end_of (semd_entry 0) (descs us)) a tp t) a p d tp []
              queued (λ q n. ground (arith, n)) (λ q n. ground (arith, n)))
            hu (ground (arith, hu.not_free)) (Disjoint-snoc p u.blocks [] out (λ q i. refl))
            (ground (arith, hu.not_free)))
        ws holds (All-both (Other a) (Without p) ws others without)

  put_in-IsAsl :
      (tp : Ptr) (t : Pcbs)
      → IsAsl s (us ++ vs) (d ∷ free)
      → Queued (marked s p a) [] p tp t
      → AllUnder a us
      → StartsAbove a vs
      → 0 < a
      → a < max_add
      → p ≤ max_proc
      → All (Without p) (us ++ vs)
      → IsAsl
          (put_in s d (end_of (semd_entry 0) (descs us)) a tp t)
          (us ++ fresh s free us vs a p d ∷ vs)
          free
  put_in-IsAsl tp t asl queued low above positive below pool without =
      let e = fresh s free us vs a p d in
      let q = end_of (semd_entry 0) (descs us) in
      let u = put_in s d q a tp t in
      let hl = AllHold-left s (d ∷ free) us vs asl.holds in
      let hr = AllHold-right s (d ∷ free) us vs asl.holds in
      let apart = asl_apart s (d ∷ free) us vs a p d asl (ground arith) in
      let out_q = not_free-end s (d ∷ free) us hl asl.free_in_table in
      let still = put-others tp t queued in
      let suffix = IsAscending-suffix 0 us vs asl.ascending in
      let free_rest =
        IsFree-update (update (update s.s_next d null) d (update s.s_next d null q)) q d
          (s.s_next d) free
          (IsFree-update (update s.s_next d null) d (update s.s_next d null q) (s.s_next d) free
            (IsFree-update s.s_next d null (s.s_next d) free asl.free_list.1 asl.distinct.0)
            asl.distinct.0)
          (ground (arith, out_q)) in
      let in_table : 2 < d = asl.free_in_table d (ground arith) in
      record {
        head = asl.head;
        upper_add = ground (arith, asl.upper_add, in_table);
        upper_queue = ground (arith, asl.upper_queue, in_table);
        links =
            subst (λ l. Seg u.s_next (semd_entry 0) l (semd_entry 1))
              (sym (descs-append us (e ∷ vs)))
              (Seg-insert (update s.s_next d null) (semd_entry 0) d (semd_entry 1) (descs us)
                (descs vs)
                (Seg-update s.s_next d null (semd_entry 0) (semd_entry 1) (descs us ++ descs vs)
                  (asl_links s (d ∷ free) us vs a p asl) apart)
                (asl-Distinct s (d ∷ free) us vs a p asl) apart);
        ascending = IsAscending-put 0 e us vs positive low above asl.ascending;
        holds =
            AllHold-append u free us (e ∷ vs)
              (still us hl (under-Other a us low) (All-left (Without p) us vs without))
              (
                Queued-Holds s u free a p d tp [] queued in_table asl.distinct.0 (ground arith)
                    below (ground arith) (λ r i. cc) (λ r i. ground (arith, i, pool)),
                still vs hr (starts-Other a suffix.0 vs above suffix.1)
                    (All-right (Without p) us vs without),
              );
        free_list = free_rest;
        distinct = asl.distinct.1;
        free_in_table = λ r i. asl.free_in_table r (ground (arith, i));
        count = omega (arith, asl.count, length-append us (e ∷ vs), length-append us vs);
      }

  -- `insertBlocked` takes the first free descriptor for a semaphore that is not active.
  pub insert_new :
      IsAsl s (us ++ vs) (d ∷ free)
      → under a (us ++ vs) ≡ us
      → AllUnder a us
      → StartsAbove a vs
      → 0 < a
      → a < max_add
      → p ≢ null
      → p ≤ max_proc
      → All (Without p) (us ++ vs)
      → Returns (PutIn s free us vs a p d) (insert_blocked a p s)
  insert_new asl is_under low above positive below real pool without =
      let q = end_of (semd_entry 0) (descs us) in
      let hl = AllHold-left s (d ∷ free) us vs asl.holds in
      let hr = AllHold-right s (d ∷ free) us vs asl.holds in
      let in_table : 2 < d = asl.free_in_table d (ground arith) in
      let bound : length (us ++ vs) ≤ max_proc = omega (arith, asl.count) in
      let place = next-ne s (d ∷ free) a vs hr above below asl.upper_add in
      let apart : has d (semd_entry 0 ∷ descs (us ++ vs)) ≡ false =
        ground (arith, free-not_has s (d ∷ free) d (us ++ vs) asl.holds, in_table) in
      let links = asl_links s (d ∷ free) us vs a p asl in
      let found =
        find_sem_run s (d ∷ free) (us ++ vs) a asl.head asl.links asl.holds asl.upper_add
          (omega arith) bound
        ∙ ap (λ l. ok (end_of (semd_entry 0) (descs l)) s) is_under in
      let again =
        find_sem_run (taken s d) (d ∷ free) (us ++ vs) a asl.head
          (Seg-update s.s_next d null (semd_entry 0) (semd_entry 1) (descs (us ++ vs)) asl.links
            apart)
          (taken-hold s d free (us ++ vs) asl.holds) (ground (arith, asl.upper_add, in_table))
          (omega arith) bound
        ∙ ap (λ l. ok (end_of (semd_entry 0) (descs l)) (taken s d)) is_under in
      let (tp, t, run, queued) =
        Returns-inv (insert_proc_q-append null p [] (marked s p a) (empty refl) real refl) in
      rw
        (insert_run_new a p q (first (descs vs) (semd_entry 1)) d tp s t found
          (end_of-ne_null s (d ∷ free) (semd_entry 0) us (omega arith) hl)
          (Seg-next s.s_next (semd_entry 0) (semd_entry 1) (descs us) (descs vs) links) place.0
          place.1 asl.free_list.0 (omega (arith, in_table)) again real run)
        (returned
          (refl, put_in-IsAsl tp t asl queued low above positive below pool without, queued.2))
