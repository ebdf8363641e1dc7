-- ===== src/Asl/Out.antt =====
-- `outBlocked` and `headBlocked` of src/asl.c on the map from semaphores to queues.
use progetto_so.Base.{
  ◌≤◌, ◌<◌, ◌≡◌, ◌≢◌, refl, sym, ap, ◌∙◌, true, false, inl, inr, Bool-cases, List, [], ◌∷◌, ◌++◌,
  arith, Ptr, null, update, has, length, ◌==◌, ok, Returns, returned, Returns-inv,
}
use mathlib.Core.Path.{subst}
use progetto_so.Pcb.Defs.{Pcbs, out_proc_q, max_proc}
use progetto_so.Pcb.Ring.{IsQueue-no_null}
use progetto_so.Pcb.Queue.{OnlyLinks}
use progetto_so.Pcb.Erase.{erase}
use progetto_so.Pcb.Takeout.{TakenOut}
use progetto_so.Pcb.Pigeon.{has-erase_part, has-erase_self, length-le}
use progetto_so.Pcb.Out.{out_proc_q-erase}
use progetto_so.Pcb.Frame.{IsQueue-Distinct, IsQueue-empty, IsQueue-ne_null}
use progetto_so.Asl.Defs.{Semds, semd_entry, find_sem_in_active_list, out_blocked}
use progetto_so.Asl.Find.{end_of}
use progetto_so.Asl.Seg.{Seg-next}
use progetto_so.Asl.Entries.{
  Entry, descs, Holds, under, from, IsAsl, queue_of, Represents, split_at,
}
use progetto_so.Asl.Locate.{find_sem_run, AllHold-left, AllHold-right, end_of-ne_null}
use progetto_so.Asl.Lookup.{
  AllUnder, under-AllUnder, IsAscending-right, FromCases, queue_of-absent, queue_of-change,
  queue_of-drop, active, inactive, from-cases,
}
use progetto_so.Asl.InsertNew.{asl_links}
use progetto_so.Asl.Release.{Taken, kept, dropped, kept-IsAsl, dropped-IsAsl}
use progetto_so.Asl.Remove.{Unblocked, requeued, queue_at}

out_run_kept :
    (p q d tp : Ptr) (s : Semds) (t : Pcbs)
    → find_sem_in_active_list (s.pcbs.p_sem_add p) s ≡ ok q s
    → q ≢ null
    → s.s_next q ≡ d
    → d ≢ null
    → p ≢ null
    → out_proc_q (s.s_proc_q d) p s.pcbs ≡ ok (p, tp) t
    → tp ≢ null
    → out_blocked p s ≡ ok p (kept s d tp t p)
unfolding out_blocked
out_run_kept p q d tp s t found real is_d real_d real_p run some = ground arith

out_run_dropped :
    (p q d : Ptr) (s : Semds) (t : Pcbs)
    → find_sem_in_active_list (s.pcbs.p_sem_add p) s ≡ ok q s
    → q ≢ null
    → s.s_next q ≡ d
    → d ≢ null
    → p ≢ null
    → out_proc_q (s.s_proc_q d) p s.pcbs ≡ ok (p, null) t
    → out_blocked p s ≡ ok p (dropped s d q t p)
unfolding out_blocked
out_run_dropped p q d s t found real is_d real_d real_p run = ground arith

out_run_none :
    (p q d : Ptr) (s : Semds)
    → find_sem_in_active_list (s.pcbs.p_sem_add p) s ≡ ok q s
    → q ≢ null
    → s.s_next q ≡ d
    → d ≢ null
    → p ≢ null
    → out_proc_q (s.s_proc_q d) p s.pcbs ≡ ok (null, s.s_proc_q d) s.pcbs
    → out_blocked p s ≡ ok null (record s { s_proc_q = update s.s_proc_q d (s.s_proc_q d) })
unfolding out_blocked
out_run_none p q d s found real is_d real_d real_p run = ground arith

-- What `outBlocked` leaves of a block that waits on `a`.
abbrev pub TakenOff : Semds → (Ptr → List Ptr) → (a p : Ptr) → Ptr → Semds → Type 0
TakenOff s f a p x t = (x ≡ p) × Represents t (requeued f a (erase p (f a))) × Unblocked s p (f a) t

pub positive : (q : Ptr) (xs : List Ptr) → has q xs ≡ true → has null xs ≡ false → 0 < q
positive q xs i no_null = elim (Bool-cases (q == null)) [
  | inl h ↦
      let eq : q ≡ null = ground arith in absurd (ground (arith, ap (λ v. has v xs) eq, i, no_null))
  | inr h ↦ ground arith
]

pub queue-length :
    (s : Semds) (free : List Ptr) (e : Entry) → Holds s free e → length e.blocks ≤ max_proc
queue-length s free e h =
    let nx = s.pcbs.p_next in
    let pv = s.pcbs.p_prev in
    let no_null = IsQueue-no_null nx pv (s.s_proc_q e.desc) e.blocks h.queue in
    length-le max_proc e.blocks (IsQueue-Distinct nx pv (s.s_proc_q e.desc) e.blocks h.queue)
      (λ q i. (positive q e.blocks i no_null, h.in_pool q i))

module _ (s : Semds) (f : Ptr → List Ptr) (us vs : List Entry) (free : List Ptr) (e : Entry)
    (p : Ptr) where
  -- The rest of the queue decides whether the descriptor is kept.
  out_rest :
      (ys : List Ptr) (tp : Ptr) (t : Pcbs)
      → erase p e.blocks ≡ ys
      → IsAsl s (us ++ e ∷ vs) free
      → ((b : Ptr) → queue_of b (us ++ e ∷ vs) ≡ f b)
      → AllUnder e.add us
      → find_sem_in_active_list (s.pcbs.p_sem_add p) s ≡ ok (end_of (semd_entry 0) (descs us)) s
      → end_of (semd_entry 0) (descs us) ≢ null
      → s.s_next (end_of (semd_entry 0) (descs us)) ≡ e.desc
      → p ≢ null
      → e.blocks ≡ f e.add
      → out_proc_q (s.s_proc_q e.desc) p s.pcbs ≡ ok (p, tp) t
      → Taken s e p tp ys t
      → t.p_next p ≡ null
      → t.p_prev p ≡ null
      → Returns (TakenOff s f e.add p) (out_blocked p s)
  out_rest [] tp t is_rest asl agrees low found real behind real_p f_is run tk next prev =
      let own = (AllHold-right s free us (e ∷ vs) asl.holds).0 in
      let none_left = IsQueue-empty t.p_next t.p_prev tp tk.left in
      rw
        (out_run_dropped p (end_of (semd_entry 0) (descs us)) e.desc s t found real behind
          (omega (arith, own.in_table)) real_p
          (subst (λ v. out_proc_q (s.s_proc_q e.desc) p s.pcbs ≡ ok (p, v) t) none_left run))
        (returned (
          refl,
          record {
            entries = us ++ vs;
            free = e.desc ∷ free;
            asl = dropped-IsAsl s e p tp [] t tk free us vs asl low;
            agrees = λ b.
                queue_of-drop e.add b e us vs low refl (IsAscending-right 0 e us vs asl.ascending)
                ∙ ground (arith, agrees b, ap (erase p) f_is, is_rest);
          },
          (t, refl, subst (λ l. OnlyLinks l s.pcbs t) f_is tk.links, next, prev),
        ))
  out_rest (z ∷ zs) tp t is_rest asl agrees low found real behind real_p f_is run tk next prev =
      let own = (AllHold-right s free us (e ∷ vs) asl.holds).0 in
      let some : (z ∷ zs) ≢ [] = λ h. cc in
      rw
        (out_run_kept p (end_of (semd_entry 0) (descs us)) e.desc tp s t found real behind
          (omega (arith, own.in_table)) real_p run
          (IsQueue-ne_null t.p_next t.p_prev tp (z ∷ zs) tk.left some))
        (returned (
          refl,
          record {
            entries = us ++ record e { blocks = z ∷ zs } ∷ vs;
            free = free;
            asl = kept-IsAsl s e p tp (z ∷ zs) t tk free us vs asl low some;
            agrees = λ b.
                queue_of-change e.add b e (record e { blocks = z ∷ zs }) us vs low refl refl
                ∙ ground (arith, agrees b, ap (erase p) f_is, is_rest);
          },
          (t, refl, subst (λ l. OnlyLinks l s.pcbs t) f_is tk.links, next, prev),
        ))

  out_at_active :
      IsAsl s (us ++ e ∷ vs) free
      → ((b : Ptr) → queue_of b (us ++ e ∷ vs) ≡ f b)
      → under e.add (us ++ e ∷ vs) ≡ us
      → AllUnder e.add us
      → has p e.blocks ≡ true
      → Returns (TakenOff s f e.add p) (out_blocked p s)
  out_at_active asl agrees is_under low i =
      let own = (AllHold-right s free us (e ∷ vs) asl.holds).0 in
      let hl = AllHold-left s free us (e ∷ vs) asl.holds in
      let nx = s.pcbs.p_next in
      let pv = s.pcbs.p_prev in
      let no_null = IsQueue-no_null nx pv (s.s_proc_q e.desc) e.blocks own.queue in
      let real_p : p ≢ null = omega (arith, positive p e.blocks i no_null) in
      let found =
        ap (λ v. find_sem_in_active_list v s) (own.marked p i)
        ∙ find_sem_run s free (us ++ e ∷ vs) e.add asl.head asl.links asl.holds asl.upper_add
            (omega (arith, own.below_max)) (omega (arith, asl.count))
        ∙ ap (λ l. ok (end_of (semd_entry 0) (descs l)) s) is_under in
      let taken_out =
        subst
          (λ b.
            Returns (TakenOut s.pcbs (s.s_proc_q e.desc) e.blocks p b)
              (out_proc_q (s.s_proc_q e.desc) p s.pcbs))
          i
          (out_proc_q-erase (s.s_proc_q e.desc) p e.blocks s.pcbs own.queue
            (queue-length s free e own)) in
      let ((x, tp), t, run, (is_p, left, links, next, prev)) = Returns-inv taken_out in
      out_rest (erase p e.blocks) tp t refl asl agrees low found
        (end_of-ne_null s free (semd_entry 0) us (omega arith) hl)
        (Seg-next s.s_next (semd_entry 0) (semd_entry 1) (descs us) (descs (e ∷ vs))
          (asl_links s free us (e ∷ vs) e.add p asl))
        real_p (sym (queue_at e.add us vs e low refl) ∙ agrees e.add)
        (subst (λ v. out_proc_q (s.s_proc_q e.desc) p s.pcbs ≡ ok (v, tp) t) is_p run)
        (record {
          was = i;
          left = left;
          links = links;
          part = λ q j. has-erase_part p q e.blocks j;
          gone =
              has-erase_self p e.blocks
                (IsQueue-Distinct nx pv (s.s_proc_q e.desc) e.blocks own.queue);
        })
        next prev

out_by_cases :
    (s : Semds) (f : Ptr → List Ptr) (a p : Ptr) (us vs : List Entry) (free : List Ptr)
    → IsAsl s (us ++ vs) free
    → ((b : Ptr) → queue_of b (us ++ vs) ≡ f b)
    → under a (us ++ vs) ≡ us
    → AllUnder a us
    → FromCases a vs
    → has p (f a) ≡ true
    → Returns (TakenOff s f a p) (out_blocked p s)
out_by_cases s f a p us vs free asl agrees is_under low (active e rest split is_a) i =
    let agrees' : (b : Ptr) → queue_of b (us ++ e ∷ rest) ≡ f b =
      subst (λ l. (b : Ptr) → queue_of b (us ++ l) ≡ f b) split agrees in
    let low' = subst (λ v. AllUnder v us) (sym is_a) low in
    subst (λ v. Returns (TakenOff s f v p) (out_blocked p s)) is_a
      (out_at_active s f us rest free e p (subst (λ l. IsAsl s (us ++ l) free) split asl) agrees'
        (subst (λ v. under v (us ++ e ∷ rest) ≡ us) (sym is_a)
          (subst (λ l. under a (us ++ l) ≡ us) split is_under))
        low' (ap (has p) (sym (queue_at a us rest e low is_a) ∙ agrees' a) ∙ i))
out_by_cases s f a p us vs free asl agrees is_under low (inactive above) i = absurd (
    ground
      (arith, i, ap (has p) (sym (agrees a) ∙ queue_of-absent a 0 us vs low above asl.ascending)))

-- `outBlocked` takes a waiting block out of the queue of its semaphore wherever it stands, clears
-- its mark and its links, and leaves the others waiting in order and every other queue as it was.
pub out_blocked-TakenOff :
    (s : Semds) (f : Ptr → List Ptr) (a p : Ptr)
    → Represents s f
    → has p (f a) ≡ true
    → Returns (TakenOff s f a p) (out_blocked p s)
out_blocked-TakenOff s f a p r i =
    let es = r.entries in
    let split = split_at a es in
    out_by_cases s f a p (under a es) (from a es) r.free (subst (λ l. IsAsl s l r.free) split r.asl)
      (subst (λ l. (b : Ptr) → queue_of b l ≡ f b) split r.agrees) (ap (under a) (sym split))
      (under-AllUnder a es) (from-cases a es) i
