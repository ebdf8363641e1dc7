-- ===== src/Asl/Insert.antt =====
-- `insertBlocked` of src/asl.c where the semaphore is already active.
use progetto_so.Base.{
  suc, ◌+◌, ◌≤◌, ◌<◌, ◌≡◌, ◌≢◌, refl, sym, ap, ◌∙◌, Bool, true, false, List, [], ◌∷◌, ◌++◌, arith,
  Ptr, null, update, has, length, ok, Returns, returned, Returns-inv,
}
use mathlib.Core.Path.{subst}
use progetto_so.Pcb.Defs.{Pcbs, insert_proc_q, max_proc}
use progetto_so.Pcb.Ring.{has-append, IsQueue}
use progetto_so.Pcb.Queue.{OnlyLinks, Queued, insert_proc_q-append}
use progetto_so.Asl.Defs.{Semds, max_add, semd_entry, find_sem_in_active_list, insert_blocked}
use progetto_so.Asl.Find.{end_of}
use progetto_so.Asl.Seg.{Seg-next}
use progetto_so.Asl.Entries.{Seg, Entry, descs, Holds, AllHold, IsAsl}
use progetto_so.Asl.Locate.{
  end_of-ne_null, descs-append, AllHold-left, AllHold-right, AllHold-append,
}
use progetto_so.Asl.Lookup.{AllUnder, IsAscending-change, IsAscending-right}
use progetto_so.Asl.Frame.{
  Frame, All, Holds-Frame, AllHold-map, All-both, All-left, All-right, Other, under-Other,
  above-Other, Disjoint-marked, Without, Disjoint-snoc,
}

pub insert_run_active :
    (a p q d tp : Ptr) (s : Semds) (t : Pcbs)
    → find_sem_in_active_list a s ≡ ok q s
    → q ≢ null
    → s.s_next q ≡ d
    → d ≢ null
    → s.s_sem_add d ≡ a
    → p ≢ null
    → insert_proc_q (s.s_proc_q d) p (record s.pcbs { p_sem_add = update s.pcbs.p_sem_add p a })
      ≡ ok tp t
    → insert_blocked a p s ≡ ok false (record s { pcbs = t; s_proc_q = update s.s_proc_q d tp })
unfolding insert_blocked
insert_run_active a p q d tp s t found real is_d real' add real'' run = ground arith

-- The block `p` marked as waiting on `a`.
abbrev pub marked : Semds → Ptr → Ptr → Pcbs
marked s p a = record s.pcbs { p_sem_add = update s.pcbs.p_sem_add p a }

-- A block behind the queue of one descriptor changes nothing of the others.
pub Queued-Frame :
    (s t : Semds) (a p d tp : Ptr) (xs : List Ptr)
    → Queued (marked s p a) xs p tp t.pcbs
    → ((q : Ptr) → q ≢ d → t.s_sem_add q ≡ s.s_sem_add q)
    → ((q : Ptr) → q ≢ d → t.s_proc_q q ≡ s.s_proc_q q)
    → Frame d (xs ++ p ∷ []) s t
Queued-Frame s t a p d tp xs queued adds procs = record {
  add = adds;
  proc_q = procs;
  next = queued.2.outside_next;
  prev = queued.2.outside_prev;
  sem_add = λ q o.
      ap (λ (u : Pcbs). u.p_sem_add q) queued.2.rest ∙ ground (arith, has-append q xs (p ∷ []), o);
}

snoc-ne-nil : (xs : List Ptr) (p : Ptr) → (xs ++ p ∷ []) ≢ []
snoc-ne-nil [] p = λ h. cc
snoc-ne-nil (x ∷ xs) p = λ h. cc

-- The entry of a descriptor whose queue has got the block `p`.
pub Queued-Holds :
    (s t : Semds) (free : List Ptr) (a p d tp : Ptr) (xs : List Ptr)
    → Queued (marked s p a) xs p tp t.pcbs
    → 2 < d
    → has d free ≡ false
    → t.s_sem_add d ≡ a
    → a < max_add
    → t.s_proc_q d ≡ tp
    → ((q : Ptr) → has q xs ≡ true → s.pcbs.p_sem_add q ≡ a)
    → ((q : Ptr) → has q (xs ++ p ∷ []) ≡ true → q ≤ max_proc)
    → Holds t free (record { desc = d; add = a; blocks = xs ++ p ∷ [] })
Queued-Holds s t free a p d tp xs queued table out add below is_tp marks pool = record {
  in_table = table;
  not_free = out;
  is_add = add;
  below_max = below;
  queue = subst (λ v. IsQueue t.pcbs.p_next t.pcbs.p_prev v (xs ++ p ∷ [])) (sym is_tp) queued.1;
  waits = snoc-ne-nil xs p;
  marked = λ q i.
      ap (λ (u : Pcbs). u.p_sem_add q) queued.2.rest
      ∙ ground (arith, marks q, has-append q xs (p ∷ []), i);
  in_pool = pool;
}

pub length-change :
    (e e' : Entry) (us vs : List Entry) → length (us ++ e' ∷ vs) ≡ length (us ++ e ∷ vs)
length-change e e' [] vs = refl
length-change e e' (u ∷ us) vs = ap suc (length-change e e' us vs)

pub descs-change :
    (e e' : Entry) (us vs : List Entry)
    → e'.desc ≡ e.desc
    → descs (us ++ e' ∷ vs) ≡ descs (us ++ e ∷ vs)
descs-change e e' [] vs h = ap (λ d. d ∷ descs vs) h
descs-change e e' (u ∷ us) vs h = ap (λ l. u.desc ∷ l) (descs-change e e' us vs h)

module _ (s : Semds) (free : List Ptr) (us vs : List Entry) (e : Entry) (p : Ptr) where
  abbrev grown : Entry
  grown = record e { blocks = e.blocks ++ p ∷ [] }

  -- The entries of the other semaphores hold still.
  others-hold :
      (t : Semds) (tp : Ptr)
      → Queued (marked s p e.add) e.blocks p tp t.pcbs
      → t.s_sem_add ≡ s.s_sem_add
      → t.s_proc_q ≡ update s.s_proc_q e.desc tp
      → Holds s free e
      → (ws : List Entry) → AllHold s free ws
      → All (Other e.add) ws
      → All (Without p) ws
      → AllHold t free ws
  others-hold t tp queued adds procs h ws holds others without =
      AllHold-map
        (λ u hu (ne, out).
          Holds-Frame
            (Queued-Frame s t e.add p e.desc tp e.blocks queued (λ q n. ap (λ f. f q) adds)
              (λ q n. ap (λ f. f q) procs ∙ ground (arith, n)))
            hu (λ eq. ne (sym hu.is_add ∙ ap s.s_sem_add eq ∙ h.is_add))
            (Disjoint-snoc p u.blocks e.blocks out
              (Disjoint-marked s free e.add u e.blocks hu ne h.marked))
            hu.not_free)
        ws holds (All-both (Other e.add) (Without p) ws others without)

  -- What `insertBlocked` leaves where the semaphore of `e` is active.
  abbrev pub Grown : Bool → Semds → Type 0
  Grown full t =
      (full ≡ false)
      × IsAsl t (us ++ grown ∷ vs) free
      × OnlyLinks (e.blocks ++ p ∷ []) (marked s p e.add) t.pcbs

  pub insert_active :
      IsAsl s (us ++ e ∷ vs) free
      → AllUnder e.add us
      → find_sem_in_active_list e.add s ≡ ok (end_of (semd_entry 0) (descs us)) s
      → p ≢ null
      → p ≤ max_proc
      → All (Without p) (us ++ e ∷ vs)
      → Returns Grown (insert_blocked e.add p s)
  insert_active asl low found real pool without =
      let h = (AllHold-right s free us (e ∷ vs) asl.holds).0 in
      let hl = AllHold-left s free us (e ∷ vs) asl.holds in
      let hr = (AllHold-right s free us (e ∷ vs) asl.holds).1 in
      let wl = All-left (Without p) us (e ∷ vs) without in
      let wr = All-right (Without p) us (e ∷ vs) without in
      let asc = IsAscending-right 0 e us vs asl.ascending in
      let next = Seg-next s.s_next (semd_entry 0) (semd_entry 1) (descs us) (descs (e ∷ vs)) (
        subst (λ l. Seg s.s_next (semd_entry 0) l (semd_entry 1)) (descs-append us (e ∷ vs))
          asl.links) in
      let real_desc : e.desc ≢ null = omega (arith, h.in_table) in
      let (tp, t, run, queued) = Returns-inv (
        insert_proc_q-append (s.s_proc_q e.desc) p e.blocks (marked s p e.add) h.queue real wr.0) in
      let u : Semds = record s { pcbs = t; s_proc_q = update s.s_proc_q e.desc tp } in
      let still = others-hold u tp queued refl refl h in
      rw
        (insert_run_active e.add p (end_of (semd_entry 0) (descs us)) e.desc tp s t found
          (end_of-ne_null s free (semd_entry 0) us (omega arith) hl) next real_desc h.is_add real
          run)
        (returned (
          refl,
          record {
            head = asl.head;
            upper_add = asl.upper_add;
            upper_queue = ground (arith, h.in_table, asl.upper_queue);
            links =
                subst (λ l. Seg s.s_next (semd_entry 0) l (semd_entry 1))
                  (sym (descs-change e grown us vs refl)) asl.links;
            ascending = IsAscending-change 0 e grown us vs refl asl.ascending;
            holds =
                AllHold-append u free us (grown ∷ vs) (still us hl (under-Other e.add us low) wl) (
                  Queued-Holds s u free e.add p e.desc tp e.blocks queued h.in_table h.not_free
                      h.is_add h.below_max (ground arith) h.marked
                      (λ q i. ground (arith, h.in_pool q, has-append q e.blocks (p ∷ []), i, pool)),
                  still vs hr (above-Other e.add e.add vs (omega arith) asc) wr.1,
                );
            free_list = asl.free_list;
            distinct = asl.distinct;
            free_in_table = asl.free_in_table;
            count = ap (λ n. n + length free) (length-change e grown us vs) ∙ asl.count;
          },
          queued.2,
        ))
