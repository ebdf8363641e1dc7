-- ===== src/Tests/Pages.antt =====
-- The pager on the machine as its manual describes it.
use progetto_so.Base.{
  ◌+◌, ◌*◌, ◌/◌, ◌%◌, ◌^◌, ◌<◌, ◌≡◌, refl, ◌≢◌, pos, negsuc, [], arith, ◌==◌, Ptr, update, Returns,
  ◌>>◌, ◌&&◌, Bool-cases, inl, inr, true, Leaves, Outcome, ℕ,
}
use progetto_so.Pcb.Defs.{ProcState}
use progetto_so.Vm.Faults.{handle_page_fault}
use progetto_so.Vm.Pool.{IsPool, low_word}
use progetto_so.Vm.PageFault.{Served, page_fault-IsPool}
use progetto_so.Vm.Refill.{Refilled, utlb_refill-Refilled}
use progetto_so.Vm.Defs.{
  Mmu, Pager, pool_size, max_pages, frame_is_occupied, page_size, dirty_on, frame_pool_start,
  get_page_num, init_uproc_pagetable, update_frame_index_to_replace, mark_entry_present_at_index,
  mark_pt_entry_not_valid, utlb_refill_handler, write_from_pool_to_dev,
}
use progetto_so.Vm.Frames.{IsChoice, update_frame_index-IsChoice}
use progetto_so.Vm.Pages.{init_uproc_pagetable-pages}
use progetto_so.Vm.Transfers.{OnlyTransfer, write_back-ne_frame}

abbrev mmu : Mmu
mmu = record {
  get_vpn = λ hi. hi / 2 ^ 12 % 2 ^ 18;
  get_asid = λ hi. hi / 2 ^ 6 % 2 ^ 6;
  get_pfn = λ lo. lo / 2 ^ 12 % 2 ^ 20;
  probe = λ _ _. 2 ^ 31;
  slot = λ index. index / 2 ^ 8 % 2 ^ 6;
  dev_per_int = 8;
  entrylo_valid = λ lo. lo / 2 ^ 9 % 2 == 1;
}

-- Three frames are taken, and the third was replaced last.
abbrev pub pager : Pager
pager = record {
  sw_asid = update (update (update (λ _. negsuc 0) 0 (pos 1)) 1 (pos 1)) 2 (pos 2);
  sw_page_no = λ _. 0;
  sw_pte = λ _. (7, 5);
  swap_sem = pos 1;
  frame_index_to_replace = 2;
  pte_entry_hi = λ _ _. 0;
  pte_entry_lo = λ _ _. 0;
  sup_asid = λ _. 2;
  tlb_hi = λ _. 0;
  tlb_lo = λ _. 0;
  tlb_index = 0;
  transfers = [];
}

update_frame_index-IsChoice_example :
    Returns
      (λ _ t.
        (t.frame_index_to_replace < pool_size)
        × IsChoice pager t.frame_index_to_replace
        × (t ≡ record pager { frame_index_to_replace = t.frame_index_to_replace }))
      (update_frame_index_to_replace pager)
update_frame_index-IsChoice_example = update_frame_index-IsChoice pager

init_uproc_pagetable-pages_example :
    Returns
      (λ _ t.
        (get_page_num mmu (t.pte_entry_hi 7 31) ≡ 31)
        × (mmu.get_asid (t.pte_entry_hi 7 31) ≡ 2)
        × (t.pte_entry_lo 7 31 ≡ dirty_on)
        × ((q : Ptr) → q ≢ 7 → t.pte_entry_hi q ≡ pager.pte_entry_hi q)
        × ((q : Ptr) → q ≢ 7 → t.pte_entry_lo q ≡ pager.pte_entry_lo q)
        × (t ≡ record pager { pte_entry_hi = t.pte_entry_hi; pte_entry_lo = t.pte_entry_lo }))
      (init_uproc_pagetable 7 pager)
init_uproc_pagetable-pages_example =
    init_uproc_pagetable-pages mmu 7 31 pager (record { vpn = λ hi. refl; asid = λ hi. refl })
      (omega arith) (omega arith)

write_back-ne_frame_example :
    Returns
      (λ _ t. OnlyTransfer (λ x. x.data0 ≢ frame_pool_start mmu + 2 * page_size) t.transfers)
      ((mark_entry_present_at_index mmu (7, 5)
          >> mark_pt_entry_not_valid (7, 5)
          >> write_from_pool_to_dev mmu 2)
        pager)
write_back-ne_frame_example =
    write_back-ne_frame mmu 2 7 5 pager (record { pfn = λ lo. refl; devices = refl }) (omega arith)
      refl refl

-- The page table of a process, and the missing page 5.
abbrev mapped : Pager
mapped = record pager { pte_entry_hi = λ _ i. (0x80000 + i) * 4096 + 128 }

utlb_refill-Refilled_example :
    Leaves
      (Outcome.load_state 3)
      (Refilled mmu 7 0x80005010 mapped)
      (utlb_refill_handler mmu 3 7 0x80005010 mapped)
utlb_refill-Refilled_example =
    utlb_refill-Refilled mmu 3 7 0x80005010 5 mapped (omega arith) (omega arith) (omega arith) refl

-- The pool is full, the next frame is the third, and the page 5 of the process 7 is in it.
abbrev full : Pager
full = record pager {
  sw_asid = λ _. pos 2;
  frame_index_to_replace = 1;
  pte_entry_hi = λ _ j. j * 2 ^ 12 + 2 * 2 ^ 6;
  pte_entry_lo = update (λ _ _. 0) 7 (update (λ _. 0) 5 (low_word mmu 2));
}

full-IsPool : IsPool mmu full
unfolding frame_is_occupied
full-IsPool (p, j) valid = elim (Bool-cases ((p == 7) && (j == 5))) [
  | inl same ↦
      let e₀ : p ≡ 7 = ground arith in
      let e₁ : j ≡ 5 = ground arith in (2, omega arith, cc, refl, ground (arith, e₀, e₁))
  | inr other ↦ absurd (ground (arith, valid, other))
]

abbrev faulted : ProcState
faulted = record {
  gpr = λ _. 0;
  entry_hi = 6 * 2 ^ 12;
  cause = 8;
  status = 0;
  pc_epc = 0;
  hi = 0;
  lo = 0;
}

users :
    (m : ℕ) → m < max_pages → frame_is_occupied (pos (mmu.get_asid (full.pte_entry_hi 7 m))) ≡ true
unfolding frame_is_occupied
users m below =
    let asid : mmu.get_asid (full.pte_entry_hi 7 m) ≡ 2 = omega arith in ground (arith, asid)

page_fault-IsPool_example :
    Leaves
      (Outcome.load_exception_state 7 0)
      (Served mmu 7 faulted full)
      (handle_page_fault mmu 1 7 faulted full)
page_fault-IsPool_example =
    page_fault-IsPool mmu 1 7 6 faulted full full-IsPool (omega arith) (omega arith) refl users
