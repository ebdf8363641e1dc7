-- ===== src/Asl/Head.antt =====
-- `headBlocked` of src/asl.c on the map from semaphores to queues.
use progetto_so.Base.{◌<◌, ◌≡◌, ◌≢◌, refl, sym, ap, ◌∙◌, List, [], ◌∷◌, ◌++◌, arith, Ptr, null, ok}
use mathlib.Core.Path.{subst}
use progetto_so.Pcb.Defs.{head_proc_q}
use progetto_so.Pcb.Ring.{IsQueue}
use progetto_so.Pcb.Frame.{IsQueue-head, IsQueue-ne_null, first_or}
use progetto_so.Asl.Defs.{Semds, max_add, semd_entry, find_sem_in_active_list, head_blocked}
use progetto_so.Asl.Find.{end_of}
use progetto_so.Asl.Seg.{first, Seg-next}
use progetto_so.Asl.Entries.{Entry, descs, under, from, IsAsl, queue_of, Represents, split_at}
use progetto_so.Asl.Locate.{find_sem_run, AllHold-left, AllHold-right, end_of-ne_null}
use progetto_so.Asl.Lookup.{
  AllUnder, under-AllUnder, FromCases, queue_of-absent, active, inactive, from-cases,
}
use progetto_so.Asl.InsertNew.{next-ne, asl_links}
use progetto_so.Asl.Remove.{queue_at}

head_run :
    (a q d tp : Ptr) (s : Semds)
    → find_sem_in_active_list a s ≡ ok q s
    → q ≢ null
    → s.s_next q ≡ d
    → d ≢ null
    → s.s_sem_add d ≡ a
    → s.s_proc_q d ≡ tp
    → tp ≢ null
    → head_blocked a s ≡ ok (s.pcbs.p_next tp) s
unfolding head_blocked head_proc_q
head_run a q d tp s found real is_d real_d add is_tp some = ground arith

head_run_none :
    (a q n : Ptr) (s : Semds)
    → find_sem_in_active_list a s ≡ ok q s
    → q ≢ null
    → s.s_next q ≡ n
    → n ≢ null
    → s.s_sem_add n ≢ a
    → head_blocked a s ≡ ok null s
unfolding head_blocked
head_run_none a q n s found real is_n real_n other = ground arith

module _ (s : Semds) (us vs : List Entry) (free : List Ptr) where
  head_at_active :
      (e : Entry) (xs : List Ptr)
      → e.blocks ≡ xs
      → IsAsl s (us ++ e ∷ vs) free
      → under e.add (us ++ e ∷ vs) ≡ us
      → head_blocked e.add s ≡ ok (first_or null xs) s
  head_at_active e [] h asl is_under =
      absurd ((AllHold-right s free us (e ∷ vs) asl.holds).0.waits h)
  head_at_active e (y ∷ ys) h asl is_under =
      let own = (AllHold-right s free us (e ∷ vs) asl.holds).0 in
      let hl = AllHold-left s free us (e ∷ vs) asl.holds in
      let nx = s.pcbs.p_next in
      let pv = s.pcbs.p_prev in
      let tp = s.s_proc_q e.desc in
      let queue = subst (λ l. IsQueue nx pv tp l) h own.queue in
      let found =
        find_sem_run s free (us ++ e ∷ vs) e.add asl.head asl.links asl.holds asl.upper_add
          (omega (arith, own.below_max)) (omega (arith, asl.count))
        ∙ ap (λ l. ok (end_of (semd_entry 0) (descs l)) s) is_under in
      head_run e.add (end_of (semd_entry 0) (descs us)) e.desc tp s found
        (end_of-ne_null s free (semd_entry 0) us (omega arith) hl)
        (Seg-next s.s_next (semd_entry 0) (semd_entry 1) (descs us) (descs (e ∷ vs))
          (asl_links s free us (e ∷ vs) e.add y asl))
        (omega (arith, own.in_table)) own.is_add refl
        (IsQueue-ne_null nx pv tp (y ∷ ys) queue (λ g. cc))
      ∙ ap (λ v. ok v s) (IsQueue-head nx pv tp y ys queue)

head_by_cases :
    (s : Semds) (f : Ptr → List Ptr) (a : Ptr) (us vs : List Entry) (free : List Ptr)
    → IsAsl s (us ++ vs) free
    → ((b : Ptr) → queue_of b (us ++ vs) ≡ f b)
    → under a (us ++ vs) ≡ us
    → AllUnder a us
    → FromCases a vs
    → a < max_add
    → head_blocked a s ≡ ok (first_or null (f a)) s
head_by_cases s f a us vs free asl agrees is_under low (active e rest split is_a) below =
    subst (λ v. head_blocked v s ≡ ok (first_or null (f a)) s) is_a
      (head_at_active s us rest free e (f a)
        (sym (queue_at a us rest e low is_a)
          ∙ subst (λ l. queue_of a (us ++ l) ≡ f a) split (agrees a))
        (subst (λ l. IsAsl s (us ++ l) free) split asl)
        (subst (λ v. under v (us ++ e ∷ rest) ≡ us) (sym is_a)
          (subst (λ l. under a (us ++ l) ≡ us) split is_under)))
head_by_cases s f a us vs free asl agrees is_under low (inactive above) below =
    let hl = AllHold-left s free us vs asl.holds in
    let hr = AllHold-right s free us vs asl.holds in
    let found =
      find_sem_run s free (us ++ vs) a asl.head asl.links asl.holds asl.upper_add
        (omega (arith, below)) (omega (arith, asl.count))
      ∙ ap (λ l. ok (end_of (semd_entry 0) (descs l)) s) is_under in
    let place = next-ne s free a vs hr above below asl.upper_add in
    head_run_none a (end_of (semd_entry 0) (descs us)) (first (descs vs) (semd_entry 1)) s found
      (end_of-ne_null s free (semd_entry 0) us (omega arith) hl)
      (Seg-next s.s_next (semd_entry 0) (semd_entry 1) (descs us) (descs vs)
        (asl_links s free us vs a a asl))
      place.0 place.1
    ∙ ap (λ l. ok (first_or null l) s)
        (sym (sym (agrees a) ∙ queue_of-absent a 0 us vs low above asl.ascending))

-- `headBlocked` answers the block that has waited longest on a semaphore below the upper sentinel,
-- or NULL where none waits, and changes nothing.
pub head_blocked_lem :
    (s : Semds) (f : Ptr → List Ptr) (a : Ptr)
    → Represents s f
    → a < max_add
    → head_blocked a s ≡ ok (first_or null (f a)) s
head_blocked_lem s f a r below =
    let es = r.entries in
    let split = split_at a es in
    head_by_cases s f a (under a es) (from a es) r.free (subst (λ l. IsAsl s l r.free) split r.asl)
      (subst (λ l. (b : Ptr) → queue_of b l ≡ f b) split r.agrees) (ap (under a) (sym split))
      (under-AllUnder a es) (from-cases a es) below
