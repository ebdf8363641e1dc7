-- ===== src/Asl/InsertRun.antt =====
-- `insertBlocked` of src/asl.c for a new semaphore: its run, and the descriptor that it takes.
use progetto_so.Base.{
  ◌<◌, ◌≡◌, ◌≢◌, refl, true, false, List, [], ◌∷◌, arith, Ptr, null, update, has, Bool-cases, inl,
  inr, ok,
}
use progetto_so.Pcb.Defs.{Pcbs, insert_proc_q}
use progetto_so.Asl.Defs.{Semds, semd_entry, find_sem_in_active_list, insert_blocked}
use progetto_so.Asl.Find.{end_of}
use progetto_so.Asl.Seg.{end_of-has}
use progetto_so.Asl.Entries.{Entry, descs, AllHold}
use progetto_so.Asl.Locate.{free-not_has}
use progetto_so.Asl.Frame.{Frame, Holds-Frame}
use progetto_so.Asl.Insert.{marked}

-- The state after `newSemd` has taken the descriptor `d`.
abbrev pub taken : Semds → Ptr → Semds
taken s d = record s {
  semd_free_h = s.s_next d;
  s_next = update s.s_next d null;
  s_proc_q = update s.s_proc_q d null;
  s_sem_add = update s.s_sem_add d null;
}

-- The state after `d` has been put in behind `q` for the semaphore `a`, with the queue `tp`.
abbrev pub put_in : Semds → (d q a tp : Ptr) → Pcbs → Semds
put_in s d q a tp t = record s {
  semd_free_h = s.s_next d;
  s_next = update (update (update s.s_next d null) d (update s.s_next d null q)) q d;
  s_proc_q = update (update (update s.s_proc_q d null) d null) d tp;
  s_sem_add = update (update s.s_sem_add d null) d a;
  pcbs = t;
}

pub insert_run_new :
    (a p q n d tp : Ptr) (s : Semds) (t : Pcbs)
    → find_sem_in_active_list a s ≡ ok q s
    → q ≢ null
    → s.s_next q ≡ n
    → n ≢ null
    → s.s_sem_add n ≢ a
    → s.semd_free_h ≡ d
    → d ≢ null
    → find_sem_in_active_list a (taken s d) ≡ ok q (taken s d)
    → p ≢ null
    → insert_proc_q null p (marked s p a) ≡ ok tp t
    → insert_blocked a p s ≡ ok false (put_in s d q a tp t)
unfolding insert_blocked
insert_run_new a p q n d tp s t found real is_n real_n other is_d real_d again real_p run =
    ground arith

pub insert_run_full :
    (a p q n : Ptr) (s : Semds)
    → find_sem_in_active_list a s ≡ ok q s
    → q ≢ null
    → s.s_next q ≡ n
    → n ≢ null
    → s.s_sem_add n ≢ a
    → s.semd_free_h ≡ null
    → insert_blocked a p s ≡ ok true s
unfolding insert_blocked
insert_run_full a p q n s found real is_n real_n other none = ground arith

taken-Frame : (s : Semds) (d : Ptr) → Frame d [] s (taken s d)
taken-Frame s d = record {
  add = λ q n. ground (arith, n);
  proc_q = λ q n. ground (arith, n);
  next = λ q o. refl;
  prev = λ q o. refl;
  sem_add = λ q o. refl;
}

pub taken-hold :
    (s : Semds) (d : Ptr) (free : List Ptr) (es : List Entry)
    → AllHold s (d ∷ free) es
    → AllHold (taken s d) (d ∷ free) es
taken-hold s d free [] h = tt
taken-hold s d free (e ∷ es) (h, hs) = (
  Holds-Frame (taken-Frame s d) h (ground (arith, h.not_free)) (λ q i. refl) h.not_free,
  taken-hold s d free es hs,
)

pub not_free-end :
    (s : Semds) (free : List Ptr) (us : List Entry)
    → AllHold s free us
    → ((q : Ptr) → has q free ≡ true → 2 < q)
    → has (end_of (semd_entry 0) (descs us)) free ≡ false
not_free-end s free us h table =
    let q = end_of (semd_entry 0) (descs us) in
    elim (Bool-cases (has q free)) [
      | inl i ↦ absurd (
          ground
            (arith, table q i, free-not_has s free q us h i, end_of-has (semd_entry 0) (descs us)))
      | inr o ↦ o
    ]
