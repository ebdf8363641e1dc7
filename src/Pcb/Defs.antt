-- ===== src/Pcb/Defs.antt =====
-- src/pcb.c: the table of process control blocks, the free list, the process queues and the trees.
use progetto_so.Base.{
  ℕ, zero, suc, ◌+◌, ◌%◌, Bool, not, ℤ, pos, ◌+ℤ◌, ◌-ℤ◌, Ptr, null, update, guard_ptr, ◌==◌,
  if◌then◌else◌, Cmd, ok, out_of_fuel, pure, ◌>>=◌, ◌>>◌, when,
}

-- `state_t`: the general registers, and the rest of a saved processor state.
pub record ProcState : Type 0 where
  pub gpr : ℕ → ℕ
  pub entry_hi : ℕ
  pub cause : ℕ
  pub status : ℕ
  pub pc_epc : ℕ
  pub hi : ℕ
  pub lo : ℕ

abbrev pub max_proc : ℕ
max_proc = 40

-- Every `pcb_t`, field by field: `p_next p` is the field `p_next` of the block at `p`. With them
-- stand the globals that pcb.c writes.
pub record Pcbs : Type 0 where
  pub p_next : Ptr → Ptr
  pub p_prev : Ptr → Ptr
  pub p_prnt : Ptr → Ptr
  pub p_child : Ptr → Ptr
  pub p_next_sib : Ptr → Ptr
  pub p_prev_sib : Ptr → Ptr
  pub p_s : Ptr → ProcState
  pub p_time : Ptr → ℤ
  pub p_sem_add : Ptr → Ptr
  pub p_support_struct : Ptr → Ptr
  pub pcb_free_h : Ptr
  pub process_count : ℤ

-- `p->f`, and `p->f = v`.
abbrev pub load : {A : Type 0} → (Pcbs → Ptr → A) → Ptr → Cmd Pcbs A
load f p = guard_ptr p >> λ s. ok (f s p) s

abbrev pub set_next : Ptr → Ptr → Cmd Pcbs (Unit {0})
set_next p v = guard_ptr p >> λ s. ok tt (record s { p_next = update s.p_next p v })

abbrev pub set_prev : Ptr → Ptr → Cmd Pcbs (Unit {0})
set_prev p v = guard_ptr p >> λ s. ok tt (record s { p_prev = update s.p_prev p v })

abbrev pub set_prnt : Ptr → Ptr → Cmd Pcbs (Unit {0})
set_prnt p v = guard_ptr p >> λ s. ok tt (record s { p_prnt = update s.p_prnt p v })

abbrev pub set_child : Ptr → Ptr → Cmd Pcbs (Unit {0})
set_child p v = guard_ptr p >> λ s. ok tt (record s { p_child = update s.p_child p v })

abbrev pub set_next_sib : Ptr → Ptr → Cmd Pcbs (Unit {0})
set_next_sib p v = guard_ptr p >> λ s. ok tt (record s { p_next_sib = update s.p_next_sib p v })

abbrev pub set_prev_sib : Ptr → Ptr → Cmd Pcbs (Unit {0})
set_prev_sib p v = guard_ptr p >> λ s. ok tt (record s { p_prev_sib = update s.p_prev_sib p v })

abbrev pub set_sem_add : Ptr → Ptr → Cmd Pcbs (Unit {0})
set_sem_add p v = guard_ptr p >> λ s. ok tt (record s { p_sem_add = update s.p_sem_add p v })

abbrev pub set_support : Ptr → Ptr → Cmd Pcbs (Unit {0})
set_support p v =
    guard_ptr p >> λ s. ok tt (record s { p_support_struct = update s.p_support_struct p v })

abbrev pub set_time : Ptr → ℤ → Cmd Pcbs (Unit {0})
set_time p v = guard_ptr p >> λ s. ok tt (record s { p_time = update s.p_time p v })

abbrev pub set_state : Ptr → ProcState → Cmd Pcbs (Unit {0})
set_state p v = guard_ptr p >> λ s. ok tt (record s { p_s = update s.p_s p v })

abbrev set_free_h : Ptr → Cmd Pcbs (Unit {0})
set_free_h v s = ok tt (record s { pcb_free_h = v })

abbrev free_h : Cmd Pcbs Ptr
free_h s = ok s.pcb_free_h s

abbrev count_down : Cmd Pcbs (Unit {0})
count_down s = ok tt (record s { process_count = s.process_count -ℤ pos 1 })

abbrev count_up : Cmd Pcbs (Unit {0})
count_up s = ok tt (record s { process_count = s.process_count +ℤ pos 1 })

-- The address of `pcbFree_table[i]`.
abbrev pub entry : ℕ → Ptr
entry i = i + 1

-- The loop of `initPcbs`, with the rounds left and the index of the round.
unfoldable pub init_links : ℕ → ℕ → Cmd Pcbs (Unit {0})
init_links zero i = pure tt
init_links (suc k) i = do
  set_next (entry (i % max_proc)) (entry ((i + 1) % max_proc))
  set_prev (entry ((i + 1) % max_proc)) (entry (i % max_proc))
  init_links k (i + 1)

unfoldable pub init_pcbs : Cmd Pcbs (Unit {0})
unfolding init_links
init_pcbs = do set_free_h (entry 0); init_links max_proc 0

unfoldable pub unlink_pcb : Ptr → Cmd Pcbs Ptr
unlink_pcb p = do
  before ← load Pcbs.p_prev p
  after ← load Pcbs.p_next p
  set_next before after
  after' ← load Pcbs.p_next p
  before' ← load Pcbs.p_prev p
  set_prev after' before'
  set_prev p null
  set_next p null
  pure p

-- The list is circular; the block is inserted behind its end.
unfoldable pub free_pcb : Ptr → Cmd Pcbs (Unit {0})
free_pcb p = if p == null then pure tt else do
  h ← free_h
  if h == null then (do set_free_h p; set_prev p p; set_next p p) else (do
    set_next p h
    last ← load Pcbs.p_prev h
    set_prev p last
    set_prev h p
    last' ← load Pcbs.p_prev p
    set_next last' p)
  count_down

-- A block taken from the free list, its links and its accounting cleared.
unfoldable pub clear_fields : Ptr → Cmd Pcbs (Unit {0})
clear_fields p = do
  set_prev p null
  set_next p null
  set_child p null
  set_prnt p null
  set_next_sib p null
  set_prev_sib p null
  set_support p null
  set_time p (pos 0)

unfoldable pub alloc_pcb : Cmd Pcbs Ptr
unfolding clear_fields
alloc_pcb = do
  h ← free_h
  if h == null then pure null else do
    after ← load Pcbs.p_next h
    set_free_h (if h == after then null else after)
    unlink_pcb h
    clear_fields h
    count_up
    pure h

abbrev pub mk_empty_proc_q : Ptr
mk_empty_proc_q = null

abbrev pub empty_proc_q : Ptr → Bool
empty_proc_q tp = tp == null

-- A queue is known by its tail pointer. Where the C function is given `pcb_t **tp`, the model is
-- given `*tp` and returns its new value.
unfoldable pub insert_proc_q : Ptr → Ptr → Cmd Pcbs Ptr
insert_proc_q tp p = do
  if empty_proc_q tp then (do set_next p p; set_prev p p) else (do
    set_prev p tp
    first ← load Pcbs.p_next tp
    set_next p first
    set_next tp p
    first' ← load Pcbs.p_next p
    set_prev first' p)
  pure p

unfoldable pub head_proc_q : Ptr → Cmd Pcbs Ptr
head_proc_q tp = if empty_proc_q tp then pure null else load Pcbs.p_next tp

-- Returns the block that was taken, or NULL, and the new tail.
unfoldable pub remove_proc_q : Ptr → Cmd Pcbs (Ptr × Ptr)
unfolding head_proc_q unlink_pcb
remove_proc_q tp = if empty_proc_q tp then pure (null, tp) else do
  tmp ← head_proc_q tp
  taken ← unlink_pcb tmp
  pure (taken, if tmp == tp then null else tp)

-- The `do … while` of `outProcQ`: is `p` met on the way from `iter` to `tp`?
unfoldable pub out_loop : ℕ → Ptr → Ptr → Ptr → Cmd Pcbs Ptr
unfolding unlink_pcb
out_loop zero tp p iter = λ _. out_of_fuel
out_loop (suc k) tp p iter =
    if iter == p
    then unlink_pcb iter
    else do next ← load Pcbs.p_next iter; if next == tp then pure null else out_loop k tp p next

unfoldable pub out_proc_q : Ptr → Ptr → Cmd Pcbs (Ptr × Ptr)
unfolding out_loop unlink_pcb
out_proc_q tp p =
    if empty_proc_q tp
    then pure (null, tp)
    else if tp == p
    then (do
      before ← load Pcbs.p_prev tp
      taken ← unlink_pcb p
      pure (taken, if tp == before then null else before))
    else (do first ← load Pcbs.p_next tp; taken ← out_loop max_proc tp p first; pure (taken, tp))

unfoldable pub empty_child : Ptr → Cmd Pcbs Bool
empty_child p = do first ← load Pcbs.p_child p; pure (first == null)

-- The `while` of `insertChild`: the last sibling, from `iter` on.
unfoldable pub last_sib : ℕ → Ptr → Cmd Pcbs Ptr
last_sib zero iter = λ _. out_of_fuel
last_sib (suc k) iter = do
  next ← load Pcbs.p_next_sib iter
  if next == null then pure iter else last_sib k next

unfoldable pub insert_child : Ptr → Ptr → Cmd Pcbs (Unit {0})
unfolding empty_child last_sib
insert_child prnt p = do
  set_prnt p prnt
  set_next_sib p null
  none_yet ← empty_child prnt
  if none_yet then (do set_child prnt p; set_prev_sib p null) else (do
    first ← load Pcbs.p_child prnt
    last ← last_sib max_proc first
    set_next_sib last p
    set_prev_sib p last)

unfoldable pub unlink_child : Ptr → Cmd Pcbs Ptr
unlink_child p = do
  set_prnt p null
  before ← load Pcbs.p_prev_sib p
  when (not (before == null))
      (do after ← load Pcbs.p_next_sib p; set_next_sib before after; set_prev_sib p null)
  after ← load Pcbs.p_next_sib p
  when (not (after == null))
      (do before' ← load Pcbs.p_prev_sib p; set_prev_sib after before'; set_next_sib p null)
  pure p

unfoldable pub remove_child : Ptr → Cmd Pcbs Ptr
unfolding empty_child unlink_child
remove_child p = do
  childless ← empty_child p
  if childless then pure null else do
    child ← load Pcbs.p_child p
    after ← load Pcbs.p_next_sib child
    set_child p after
    unlink_child child
    pure child

unfoldable pub out_child : Ptr → Cmd Pcbs Ptr
unfolding unlink_child
out_child p = do
  prnt ← load Pcbs.p_prnt p
  if prnt == null then pure null else do
    first ← load Pcbs.p_child prnt
    when (first == p) (do before ← load Pcbs.p_prev_sib p; set_child prnt before)
    unlink_child p
    pure p
