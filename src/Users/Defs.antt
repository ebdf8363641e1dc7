-- ===== src/Users/Defs.antt =====
-- src/p3test.c: the process that sets up the support level, starts the user processes and waits
-- for them. Its system calls to the nucleus are logged in their order.
use progetto_so.Base.{
  ℕ, zero, suc, ◌+◌, ◌-◌, ◌*◌, ◌^◌, ℤ, pos, Ptr, update, guard_ptr, List, [], ◌∷◌, ◌++◌, Cmd, ok,
  pure, get, leave, on_part, ◌>>=◌, ◌>>◌, Outcome,
}
use progetto_so.Pcb.Defs.{ProcState}
use progetto_so.Nucleus.Machine.{Arch, Context, with_reg, word, device_num}
use progetto_so.Support.Defs.{Supps, alloc_supp, dealloc_supp}
use progetto_so.Vm.Defs.{Pager, init_uproc_pagetable, init_swap_structs, page_size}

-- Where the linker puts the static table `uproc_supp` and the two handlers.
pub record Image : Type 0 where
  pub uproc_supp : ℕ → Ptr
  pub handle_page_fault : ℕ
  pub handle_support_level_exceptions : ℕ

-- `SYSCALL(1, &uproc_state, supp, 0)`, and `SYSCALL(PASSEREN, &masterSem, 0, 0)`.
pub data Call : Type 0 where
  create_process : ProcState → Ptr → Call
  passeren_master : Call

pub record Users : Type 0 where
  pub supps : Supps
  pub pager : Pager
  pub sup_except_context : Ptr → ℕ → Context
  pub device_semaphores : ℕ → ℤ
  pub printer_semaphores : ℕ → ℤ
  pub term_write_semaphores : ℕ → ℤ
  pub term_read_semaphores : ℕ → ℤ
  pub master_sem : ℤ
  pub uproc_state : ProcState
  pub ram_top : ℕ
  pub calls : List Call  -- oldest first

abbrev pub uproc_max : ℕ
uproc_max = 8

-- `a - b` on words.
abbrev pub word_sub : ℕ → ℕ → ℕ
word_sub a b = word (a + (2 ^ 32 - word b))

abbrev pub in_supps : {A : Type 0} → Cmd Supps A → Cmd Users A
in_supps = on_part (λ s. s.supps) (λ s t. record s { supps = t })

abbrev pub in_pager : {A : Type 0} → Cmd Pager A → Cmd Users A
in_pager = on_part (λ s. s.pager) (λ s t. record s { pager = t })

-- The loops of `initDevSemaphores`: `n` cells from `i` on become 1.
unfoldable pub all_one : ℕ → ℕ → (ℕ → ℤ) → ℕ → ℤ
all_one zero i t = t
all_one (suc n) i t = all_one n (i + 1) (update t i (pos 1))

unfoldable pub init_dev_semaphores : Arch → Cmd Users (Unit {0})
unfolding all_one
init_dev_semaphores arch s = ok tt (record s {
  device_semaphores = all_one device_num 0 s.device_semaphores;
  printer_semaphores = all_one arch.dev_per_int 1 s.printer_semaphores;
  term_write_semaphores = all_one arch.dev_per_int 1 s.term_write_semaphores;
  term_read_semaphores = all_one arch.dev_per_int 1 s.term_read_semaphores;
})

unfoldable pub init_uproc_state : Arch → ℕ → Cmd Users (Unit {0})
init_uproc_state arch asid s =
    let st = with_reg arch.reg_sp 0xC0000000 (with_reg arch.reg_t9 0x800000B0 s.uproc_state) in
    ok tt (record s {
      uproc_state = record st {
        pc_epc = 0x800000B0;
        status = 0x0800FF01;
        entry_hi = word (asid * 2 ^ 6);
      };
    })

unfoldable pub init_uproc_support : Image → Ptr → Cmd Users (Unit {0})
init_uproc_support image supp = do
  asid ← get (λ s. s.pager.sup_asid supp)
  (λ s. ok tt (record s {
    sup_except_context = update s.sup_except_context supp (
        update
          (update (s.sup_except_context supp) 0 (record {
            stack_ptr = word_sub s.ram_top (asid * 2 * page_size);
            status = 0x08000001;
            pc = image.handle_page_fault;
          }))
          1
          (record {
            stack_ptr = word_sub s.ram_top ((asid * 2 + 1) * page_size);
            status = 0x08000001;
            pc = image.handle_support_level_exceptions;
          }));
  }))
  in_pager (init_uproc_pagetable supp)

-- `supp->sup_asid = asid`.
abbrev pub set_asid : Ptr → ℕ → Cmd Users (Unit {0})
set_asid supp asid = guard_ptr supp >> λ s.
    ok tt (record s { pager = record s.pager { sup_asid = update s.pager.sup_asid supp asid } })

abbrev pub syscall : Call → Cmd Users (Unit {0})
syscall c s = ok tt (record s { calls = s.calls ++ c ∷ [] })

-- The body of the loop of `initUProcs`, for the structure that `alloc_supp` gave.
unfoldable pub init_uproc : Arch → Image → ℕ → Ptr → Cmd Users (Unit {0})
unfolding init_uproc_support init_uproc_state
init_uproc arch image i supp = do
  set_asid supp (i + 1)
  init_uproc_support image supp
  asid ← get (λ s. s.pager.sup_asid supp)
  init_uproc_state arch asid
  st ← get (λ s. s.uproc_state)
  syscall (Call.create_process st supp)

-- The loop of `initUProcs`, with the rounds left and the index of the round.
unfoldable pub init_uprocs : Arch → Image → ℕ → ℕ → Cmd Users (Unit {0})
unfolding init_uproc
init_uprocs arch image zero i = pure tt
init_uprocs arch image (suc n) i = do
  supp ← in_supps alloc_supp
  init_uproc arch image i supp
  init_uprocs arch image n (i + 1)

-- The loop of `initSuppStack`.
unfoldable pub init_supp_stack : Image → ℕ → ℕ → Cmd Users (Unit {0})
init_supp_stack image zero i = pure tt
init_supp_stack image (suc n) i = do
  in_supps (dealloc_supp (image.uproc_supp i))
  init_supp_stack image n (i + 1)

-- The loop of `waitForUprocs`.
unfoldable pub wait_for_uprocs : ℕ → Cmd Users (Unit {0})
wait_for_uprocs zero = pure tt
wait_for_uprocs (suc n) = do syscall Call.passeren_master; wait_for_uprocs n

unfoldable pub test_phase_3 : Arch → Image → Cmd Users (Unit {0})
unfolding init_dev_semaphores init_supp_stack init_uprocs wait_for_uprocs
test_phase_3 arch image = do
  in_pager init_swap_structs
  init_dev_semaphores arch
  init_supp_stack image uproc_max 0
  (λ s. ok tt (record s { master_sem = pos 0 }))
  init_uprocs arch image uproc_max 0
  wait_for_uprocs uproc_max
  leave (Outcome.syscall 2)
