-- ===== src/Vm/Faults.antt =====
-- `handlePageFault`, `setSwapFloor` and `frameAddrInPool` of src/vmSupport.c, and
-- `getMissingPageFromSupp` of src/sysSupport.c.
use progetto_so.Base.{
  ℕ, ◌+◌, ◌*◌, ◌%◌, ◌^◌, pos, ◌+ℤ◌, ◌-ℤ◌, ◌==◌, if◌then◌else◌, Ptr, Cmd, ok, leave, ◌>>=◌, ◌>>◌,
  Outcome,
}
use progetto_so.Pcb.Defs.{ProcState}
use progetto_so.Support.Console.{terminate}
use progetto_so.Vm.Defs.{Mmu, Pager, PteRef, find_page, get_missing_page, handle_tlb_invalid}

-- `SYSCALL(PASSEREN, &swapSem)`, seen from the process: it goes on once the nucleus has let it pass.
abbrev pub swap_passeren : Cmd Pager (Unit {0})
swap_passeren s = ok tt (record s { swap_sem = s.swap_sem -ℤ pos 1 })

abbrev pub swap_verhogen : Cmd Pager (Unit {0})
swap_verhogen s = ok tt (record s { swap_sem = s.swap_sem +ℤ pos 1 })

-- `swapFloor` as it is set from the words at 0x18 and 0x1C of the memory.
unfoldable pub set_swap_floor : (ℕ → ℕ) → ℕ
set_swap_floor mem = (mem 0x0018 + mem 0x001C) % 2 ^ 32

unfoldable pub frame_addr_in_pool : ℕ → ℕ → ℕ
frame_addr_in_pool swap_floor frame_index = (swap_floor + frame_index * 4096) % 2 ^ 32

module _ (mmu : Mmu) where
  -- The same search as `getMissingPage`, for the address in the saved state.
  unfoldable pub get_missing_page_from_supp : Ptr → ProcState → Cmd Pager PteRef
  unfolding get_missing_page find_page
  get_missing_page_from_supp supp saved = get_missing_page mmu supp saved.entry_hi

  -- `handlePageFault` for the support structure that the nucleus answers and its
  -- `sup_exceptState[0]`, which is loaded at the end.
  unfoldable pub handle_page_fault : ℕ → Ptr → ProcState → Cmd Pager (Unit {0})
  unfolding get_missing_page_from_supp handle_tlb_invalid
  handle_page_fault exc_mod supp saved =
      if saved.cause == exc_mod then leave (Outcome.syscall terminate) else (do
        swap_passeren
        page ← get_missing_page_from_supp supp saved
        handle_tlb_invalid mmu page
        swap_verhogen
        leave (Outcome.load_exception_state supp 0))
