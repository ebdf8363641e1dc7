-- ===== src/Asl/Remove.antt =====
-- `removeBlocked` of src/asl.c on the map from semaphores to queues.
use progetto_so.Base.{
  ◌<◌, ◌≡◌, ◌≢◌, refl, sym, ap, ◌∙◌, List, [], ◌∷◌, ◌++◌, arith, Ptr, null, ◌==◌, if◌then◌else◌, ok,
  Returns, returned, Returns-inv,
}
use mathlib.Core.Path.{subst}
use progetto_so.Pcb.Defs.{Pcbs, remove_proc_q}
use progetto_so.Pcb.Ring.{IsQueue, IsQueue-no_null}
use progetto_so.Pcb.Queue.{OnlyLinks, remove_proc_q-Dequeued}
use progetto_so.Pcb.Frame.{IsQueue-Distinct, IsQueue-empty, IsQueue-ne_null}
use progetto_so.Asl.Defs.{Semds, max_add, semd_entry, find_sem_in_active_list, remove_blocked}
use progetto_so.Asl.Find.{end_of}
use progetto_so.Asl.Seg.{first, Seg-next}
use progetto_so.Asl.Entries.{Entry, descs, under, from, IsAsl, queue_of, Represents, split_at}
use progetto_so.Asl.Locate.{find_sem_run, AllHold-left, AllHold-right, end_of-ne_null}
use progetto_so.Asl.Lookup.{
  AllUnder, under-AllUnder, IsAscending-right, queue_of-skip, FromCases, queue_of-absent,
  queue_of-change, queue_of-drop, active, inactive, from-cases,
}
use progetto_so.Asl.InsertNew.{next-ne, asl_links}
use progetto_so.Asl.Release.{Taken, unmarked, kept, dropped, kept-IsAsl, dropped-IsAsl}

remove_run_kept :
    (a q d x tp : Ptr) (s : Semds) (t : Pcbs)
    → find_sem_in_active_list a s ≡ ok q s
    → q ≢ null
    → s.s_next q ≡ d
    → d ≢ null
    → s.s_sem_add d ≡ a
    → remove_proc_q (s.s_proc_q d) s.pcbs ≡ ok (x, tp) t
    → tp ≢ null
    → x ≢ null
    → remove_blocked a s ≡ ok x (kept s d tp t x)
unfolding remove_blocked
remove_run_kept a q d x tp s t found real is_d real_d add run some real_x = ground arith

remove_run_dropped :
    (a q d x : Ptr) (s : Semds) (t : Pcbs)
    → find_sem_in_active_list a s ≡ ok q s
    → q ≢ null
    → s.s_next q ≡ d
    → d ≢ null
    → s.s_sem_add d ≡ a
    → remove_proc_q (s.s_proc_q d) s.pcbs ≡ ok (x, null) t
    → x ≢ null
    → remove_blocked a s ≡ ok x (dropped s d q t x)
unfolding remove_blocked
remove_run_dropped a q d x s t found real is_d real_d add run real_x = ground arith

remove_run_none :
    (a q n : Ptr) (s : Semds)
    → find_sem_in_active_list a s ≡ ok q s
    → q ≢ null
    → s.s_next q ≡ n
    → n ≢ null
    → s.s_sem_add n ≢ a
    → remove_blocked a s ≡ ok null s
unfolding remove_blocked
remove_run_none a q n s found real is_n real_n other = ground arith

-- Of the blocks only links of the queue `xs` and the mark of `x`, which is on no queue, have
-- changed.
abbrev pub Unblocked : Semds → Ptr → List Ptr → Semds → Type 0
Unblocked s x xs t =
    (u : Pcbs) × (t.pcbs ≡ unmarked u x)
    × OnlyLinks xs s.pcbs u
    × (u.p_next x ≡ null)
    × (u.p_prev x ≡ null)

-- The map with another queue for `a`.
abbrev pub requeued : (Ptr → List Ptr) → Ptr → List Ptr → Ptr → List Ptr
requeued f a xs b = if b == a then xs else f b

-- What `removeBlocked` answers and leaves, by the queue of the semaphore.
abbrev pub Removed : Semds → (Ptr → List Ptr) → Ptr → List Ptr → Ptr → Semds → Type 0
Removed s f a [] x t = (x ≡ null) × (t ≡ s)
Removed s f a (y ∷ ys) x t = (x ≡ y) × Represents t (requeued f a ys) × Unblocked s y (y ∷ ys) t

dequeued-Taken :
    (s : Semds) (e : Entry) (y tp : Ptr) (ys : List Ptr) (t : Pcbs)
    → e.blocks ≡ y ∷ ys
    → IsQueue s.pcbs.p_next s.pcbs.p_prev (s.s_proc_q e.desc) (y ∷ ys)
    → IsQueue t.p_next t.p_prev tp ys
    → OnlyLinks (y ∷ ys) s.pcbs t
    → Taken s e y tp ys t
dequeued-Taken s e y tp ys t h queue left links = record {
  was = rw h (ground arith);
  left = left;
  links = subst (λ l. OnlyLinks l s.pcbs t) (sym h) links;
  part = λ q i. rw h (ground (arith, i));
  gone = (IsQueue-Distinct s.pcbs.p_next s.pcbs.p_prev (s.s_proc_q e.desc) (y ∷ ys) queue).0;
}

module _ (s : Semds) (f : Ptr → List Ptr) (us vs : List Entry) (free : List Ptr) (e : Entry) where
  -- The rest of the queue decides whether the descriptor is kept.
  remove_rest :
      (y : Ptr) (ys : List Ptr) (tp : Ptr) (t : Pcbs)
      → IsAsl s (us ++ e ∷ vs) free
      → ((b : Ptr) → queue_of b (us ++ e ∷ vs) ≡ f b)
      → AllUnder e.add us
      → find_sem_in_active_list e.add s ≡ ok (end_of (semd_entry 0) (descs us)) s
      → end_of (semd_entry 0) (descs us) ≢ null
      → s.s_next (end_of (semd_entry 0) (descs us)) ≡ e.desc
      → y ≢ null
      → remove_proc_q (s.s_proc_q e.desc) s.pcbs ≡ ok (y, tp) t
      → Taken s e y tp ys t
      → OnlyLinks (y ∷ ys) s.pcbs t
      → t.p_next y ≡ null
      → t.p_prev y ≡ null
      → Returns (Removed s f e.add (y ∷ ys)) (remove_blocked e.add s)
  remove_rest y [] tp t asl agrees low found real behind real_y run tk links next prev =
      let own = (AllHold-right s free us (e ∷ vs) asl.holds).0 in
      let none_left = IsQueue-empty t.p_next t.p_prev tp tk.left in
      rw
        (remove_run_dropped e.add (end_of (semd_entry 0) (descs us)) e.desc y s t found real behind
          (omega (arith, own.in_table)) own.is_add
          (subst (λ v. remove_proc_q (s.s_proc_q e.desc) s.pcbs ≡ ok (y, v) t) none_left run)
          real_y)
        (returned (
          refl,
          record {
            entries = us ++ vs;
            free = e.desc ∷ free;
            asl = dropped-IsAsl s e y tp [] t tk free us vs asl low;
            agrees = λ b.
                queue_of-drop e.add b e us vs low refl (IsAscending-right 0 e us vs asl.ascending)
                ∙ ground (arith, agrees b);
          },
          (t, refl, links, next, prev),
        ))
  remove_rest y (z ∷ zs) tp t asl agrees low found real behind real_y run tk links next prev =
      let own = (AllHold-right s free us (e ∷ vs) asl.holds).0 in
      let some : (z ∷ zs) ≢ [] = λ h. cc in
      rw
        (remove_run_kept e.add (end_of (semd_entry 0) (descs us)) e.desc y tp s t found real behind
          (omega (arith, own.in_table)) own.is_add run
          (IsQueue-ne_null t.p_next t.p_prev tp (z ∷ zs) tk.left some) real_y)
        (returned (
          refl,
          record {
            entries = us ++ record e { blocks = z ∷ zs } ∷ vs;
            free = free;
            asl = kept-IsAsl s e y tp (z ∷ zs) t tk free us vs asl low some;
            agrees = λ b.
                queue_of-change e.add b e (record e { blocks = z ∷ zs }) us vs low refl refl
                ∙ ground (arith, agrees b);
          },
          (t, refl, links, next, prev),
        ))

  remove_at_active :
      (xs : List Ptr)
      → e.blocks ≡ xs
      → IsAsl s (us ++ e ∷ vs) free
      → ((b : Ptr) → queue_of b (us ++ e ∷ vs) ≡ f b)
      → under e.add (us ++ e ∷ vs) ≡ us
      → AllUnder e.add us
      → Returns (Removed s f e.add xs) (remove_blocked e.add s)
  remove_at_active [] h asl agrees is_under low =
      absurd ((AllHold-right s free us (e ∷ vs) asl.holds).0.waits h)
  remove_at_active (y ∷ ys) h asl agrees is_under low =
      let own = (AllHold-right s free us (e ∷ vs) asl.holds).0 in
      let hl = AllHold-left s free us (e ∷ vs) asl.holds in
      let queue =
        subst (λ l. IsQueue s.pcbs.p_next s.pcbs.p_prev (s.s_proc_q e.desc) l) h own.queue in
      let found =
        find_sem_run s free (us ++ e ∷ vs) e.add asl.head asl.links asl.holds asl.upper_add
          (omega (arith, own.below_max)) (omega (arith, asl.count))
        ∙ ap (λ l. ok (end_of (semd_entry 0) (descs l)) s) is_under in
      let ((x, tp), t, run, (is_y, left, links, next, prev)) =
        Returns-inv (remove_proc_q-Dequeued (s.s_proc_q e.desc) (y ∷ ys) s.pcbs queue) in
      let real = end_of-ne_null s free (semd_entry 0) us (omega arith) hl in
      let behind =
        Seg-next s.s_next (semd_entry 0) (semd_entry 1) (descs us) (descs (e ∷ vs))
          (asl_links s free us (e ∷ vs) e.add y asl) in
      let taken = dequeued-Taken s e y tp ys t h queue left links in
      let real_y : y ≢ null =
        ground
          (arith, IsQueue-no_null s.pcbs.p_next s.pcbs.p_prev (s.s_proc_q e.desc) (y ∷ ys) queue) in
      remove_rest y ys tp t asl agrees low found real behind real_y
        (subst (λ v. remove_proc_q (s.s_proc_q e.desc) s.pcbs ≡ ok (v, tp) t) is_y run) taken links
        next prev

-- The blocks that wait on a semaphore are those of its entry.
pub queue_at :
    (a : Ptr) (us vs : List Entry) (e : Entry)
    → AllUnder a us
    → e.add ≡ a
    → queue_of a (us ++ e ∷ vs) ≡ e.blocks
queue_at a us vs e low is_a = ground (arith, is_a, queue_of-skip a a us (e ∷ vs) low)

remove_by_cases :
    (s : Semds) (f : Ptr → List Ptr) (a : Ptr) (us vs : List Entry) (free : List Ptr)
    → IsAsl s (us ++ vs) free
    → ((b : Ptr) → queue_of b (us ++ vs) ≡ f b)
    → under a (us ++ vs) ≡ us
    → AllUnder a us
    → FromCases a vs
    → a < max_add
    → Returns (Removed s f a (f a)) (remove_blocked a s)
remove_by_cases s f a us vs free asl agrees is_under low (active e rest split is_a) below =
    let agrees' : (b : Ptr) → queue_of b (us ++ e ∷ rest) ≡ f b =
      subst (λ l. (b : Ptr) → queue_of b (us ++ l) ≡ f b) split agrees in
    subst (λ v. Returns (Removed s f v (f v)) (remove_blocked v s)) is_a
      (remove_at_active s f us rest free e (f e.add)
        (sym (queue_at e.add us rest e (subst (λ v. AllUnder v us) (sym is_a) low) refl)
          ∙ agrees' e.add)
        (subst (λ l. IsAsl s (us ++ l) free) split asl) agrees'
        (subst (λ v. under v (us ++ e ∷ rest) ≡ us) (sym is_a)
          (subst (λ l. under a (us ++ l) ≡ us) split is_under))
        (subst (λ v. AllUnder v us) (sym is_a) low))
remove_by_cases s f a us vs free asl agrees is_under low (inactive above) below =
    let hl = AllHold-left s free us vs asl.holds in
    let hr = AllHold-right s free us vs asl.holds in
    let found =
      find_sem_run s free (us ++ vs) a asl.head asl.links asl.holds asl.upper_add
        (omega (arith, below)) (omega (arith, asl.count))
      ∙ ap (λ l. ok (end_of (semd_entry 0) (descs l)) s) is_under in
    let place = next-ne s free a vs hr above below asl.upper_add in
    let none : f a ≡ [] = sym (agrees a) ∙ queue_of-absent a 0 us vs low above asl.ascending in
    subst (λ l. Returns (Removed s f a l) (remove_blocked a s)) (sym none)
      (rw
        (remove_run_none a (end_of (semd_entry 0) (descs us)) (first (descs vs) (semd_entry 1)) s
          found (end_of-ne_null s free (semd_entry 0) us (omega arith) hl)
          (Seg-next s.s_next (semd_entry 0) (semd_entry 1) (descs us) (descs vs)
            (asl_links s free us vs a a asl))
          place.0 place.1)
        (returned (refl, refl)))

-- `removeBlocked` takes the block that has waited longest on a semaphore below the upper sentinel,
-- clears its mark and its links, and leaves the others waiting in order and every other queue as it
-- was; where none waits it answers NULL and changes nothing.
pub remove_blocked-Removed :
    (s : Semds) (f : Ptr → List Ptr) (a : Ptr)
    → Represents s f
    → a < max_add
    → Returns (Removed s f a (f a)) (remove_blocked a s)
remove_blocked-Removed s f a r below =
    let es = r.entries in
    let split = split_at a es in
    remove_by_cases s f a (under a es) (from a es) r.free
      (subst (λ l. IsAsl s l r.free) split r.asl)
      (subst (λ l. (b : Ptr) → queue_of b l ≡ f b) split r.agrees) (ap (under a) (sym split))
      (under-AllUnder a es) (from-cases a es) below
