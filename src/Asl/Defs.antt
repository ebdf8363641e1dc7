-- ===== src/Asl/Defs.antt =====
-- src/asl.c: the table of semaphore descriptors, the free list and the active list.
use progetto_so.Base.{
  ℕ, zero, suc, ◌+◌, Bool, true, false, not, ◌&&◌, ◌||◌, Ptr, null, update, guard_ptr, ltb, ◌==◌,
  if◌then◌else◌, Cmd, ok, out_of_fuel, pure, on_part, ◌>>=◌, ◌>>◌, when,
}
use progetto_so.Pcb.Defs.{
  Pcbs, max_proc, set_sem_add, mk_empty_proc_q, empty_proc_q, insert_proc_q, remove_proc_q,
  out_proc_q, head_proc_q,
}
use progetto_so.Pcb.Defs as Pcb

-- The address that marks the upper sentinel.
abbrev pub max_add : Ptr
max_add = 0x7FFFFFFF

-- Every `semd_t`, field by field, the two list heads, and the process control blocks.
pub record Semds : Type 0 where
  pub s_next : Ptr → Ptr
  pub s_sem_add : Ptr → Ptr
  pub s_proc_q : Ptr → Ptr
  pub semd_free_h : Ptr
  pub semd_h : Ptr
  pub pcbs : Pcbs

abbrev pub load : (Semds → Ptr → Ptr) → Ptr → Cmd Semds Ptr
load f p = guard_ptr p >> λ s. ok (f s p) s

abbrev pub set_s_next : Ptr → Ptr → Cmd Semds (Unit {0})
set_s_next p v = guard_ptr p >> λ s. ok tt (record s { s_next = update s.s_next p v })

abbrev pub set_s_sem_add : Ptr → Ptr → Cmd Semds (Unit {0})
set_s_sem_add p v = guard_ptr p >> λ s. ok tt (record s { s_sem_add = update s.s_sem_add p v })

abbrev pub set_s_proc_q : Ptr → Ptr → Cmd Semds (Unit {0})
set_s_proc_q p v = guard_ptr p >> λ s. ok tt (record s { s_proc_q = update s.s_proc_q p v })

abbrev pub set_semd_free_h : Ptr → Cmd Semds (Unit {0})
set_semd_free_h v s = ok tt (record s { semd_free_h = v })

abbrev pub set_semd_h : Ptr → Cmd Semds (Unit {0})
set_semd_h v s = ok tt (record s { semd_h = v })

abbrev semd_free : Cmd Semds Ptr
semd_free s = ok s.semd_free_h s

-- A function of pcb.c, called from here.
abbrev pub in_pcbs : {A : Type 0} → Cmd Pcbs A → Cmd Semds A
in_pcbs = on_part (λ s. s.pcbs) (λ s t. record s { pcbs = t })

-- The address of `semd_table[i]`.
abbrev pub semd_entry : ℕ → Ptr
semd_entry i = i + 1

-- The loop of `initASL`, with the rounds left and the index of the round.
unfoldable pub init_free : ℕ → ℕ → Cmd Semds (Unit {0})
init_free zero i = pure tt
init_free (suc k) i = do
  tmp ← semd_free
  if tmp == null
      then (do set_semd_free_h (semd_entry i); set_s_next (semd_entry i) null)
      else (do set_semd_free_h (semd_entry i); set_s_next (semd_entry i) tmp)
  init_free k (i + 1)

unfoldable pub init_asl : Cmd Semds (Unit {0})
init_asl = do
  set_semd_free_h null
  set_s_next (semd_entry 0) (semd_entry 1)
  set_s_proc_q (semd_entry 0) mk_empty_proc_q
  set_s_sem_add (semd_entry 0) null
  set_s_next (semd_entry 1) null
  set_s_proc_q (semd_entry 1) mk_empty_proc_q
  set_s_sem_add (semd_entry 1) max_add
  set_semd_h (semd_entry 0)
  init_free max_proc 2

-- The `while` of `findSemInActiveList`, from `tmp` on.
unfoldable pub find_loop : ℕ → Ptr → Ptr → Cmd Semds Ptr
find_loop zero sem_add tmp = λ _. out_of_fuel
find_loop (suc k) sem_add tmp = do
  next ← load Semds.s_next tmp
  add ← load Semds.s_sem_add next
  if ltb add sem_add && not (add == max_add) then find_loop k sem_add next else pure tmp

-- The active list holds at most the two sentinels and the forty descriptors.
unfoldable pub find_sem_in_active_list : Ptr → Cmd Semds Ptr
unfolding find_loop
find_sem_in_active_list sem_add = λ s. find_loop (max_proc + 2) sem_add s.semd_h s

unfoldable pub new_semd : Cmd Semds Ptr
new_semd = do
  tmp ← semd_free
  if tmp == null then pure null else do
    next ← load Semds.s_next tmp
    set_semd_free_h next
    set_s_next tmp null
    set_s_proc_q tmp mk_empty_proc_q
    set_s_sem_add tmp null
    pure tmp

unfoldable pub free_semd : Ptr → Cmd Semds (Unit {0})
free_semd semd = do
  tmp ← semd_free
  set_semd_free_h semd
  set_s_next semd (if tmp == null then null else tmp)

-- `insertProcQ(&q->s_procQ, p)` for a descriptor `q`.
unfoldable pub insert_into : Ptr → Ptr → Cmd Semds (Unit {0})
insert_into q p = do
  tp ← load Semds.s_proc_q q
  tp' ← in_pcbs (insert_proc_q tp p)
  set_s_proc_q q tp'

-- True where there is no descriptor left for a new semaphore.
unfoldable pub insert_blocked : Ptr → Ptr → Cmd Semds Bool
unfolding insert_into new_semd
insert_blocked sem_add p = do
  tmp ← find_sem_in_active_list sem_add
  next ← load Semds.s_next tmp
  add ← load Semds.s_sem_add next
  if add == sem_add
      then (do in_pcbs (set_sem_add p sem_add); insert_into next p; pure false)
      else (do
        new_sem ← new_semd
        if new_sem == null then pure true else do
          tmp' ← find_sem_in_active_list sem_add
          in_pcbs (set_sem_add p sem_add)
          set_s_sem_add new_sem sem_add
          set_s_proc_q new_sem mk_empty_proc_q
          after ← load Semds.s_next tmp'
          set_s_next new_sem after
          set_s_next tmp' new_sem
          insert_into new_sem p
          pure false)

-- A descriptor whose queue has become empty leaves the active list: the same lines of
-- `removeBlocked` and `outBlocked`.
unfoldable pub release_if_empty : Ptr → Cmd Semds (Unit {0})
unfolding free_semd
release_if_empty tmp = do
  next ← load Semds.s_next tmp
  q ← load Semds.s_proc_q next
  when (empty_proc_q q) (do
    after ← load Semds.s_next next
    set_s_next tmp after
    set_s_next next null
    set_s_sem_add next null
    set_s_proc_q next mk_empty_proc_q
    free_semd next)

unfoldable pub remove_blocked : Ptr → Cmd Semds Ptr
unfolding release_if_empty
remove_blocked sem_add = do
  tmp ← find_sem_in_active_list sem_add
  next ← load Semds.s_next tmp
  add ← load Semds.s_sem_add next
  if add == sem_add
      then (do
        tp ← load Semds.s_proc_q next
        (removed, tp') ← in_pcbs (remove_proc_q tp)
        set_s_proc_q next tp'
        release_if_empty tmp
        in_pcbs (set_sem_add removed null)
        pure removed)
      else pure null

unfoldable pub out_blocked : Ptr → Cmd Semds Ptr
unfolding release_if_empty
out_blocked p = do
  sem_add ← in_pcbs (Pcb.load Pcbs.p_sem_add p)
  tmp ← find_sem_in_active_list sem_add
  next ← load Semds.s_next tmp
  tp ← load Semds.s_proc_q next
  (released, tp') ← in_pcbs (out_proc_q tp p)
  set_s_proc_q next tp'
  if released == null
      then pure null
      else do release_if_empty tmp; in_pcbs (set_sem_add released null); pure released

unfoldable pub head_blocked : Ptr → Cmd Semds Ptr
head_blocked sem_add = do
  tmp ← find_sem_in_active_list sem_add
  next ← load Semds.s_next tmp
  tp ← load Semds.s_proc_q next
  if empty_proc_q tp || (tmp == null) then pure null else do
    add ← load Semds.s_sem_add next
    if not (add == sem_add) then pure null else in_pcbs (head_proc_q tp)
