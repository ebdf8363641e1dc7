-- ===== src/Vm/Defs.antt =====
-- src/vmSupport.c: page tables, the swap pool and the pager; from src/sysSupport.c the search for
-- the missing page and the TLB refill.
use Prim.Native.Nat.{bit_or}
use progetto_so.Base.{
  ℕ, zero, suc, ◌+◌, ◌-◌, ◌*◌, ◌/◌, ◌%◌, ◌^◌, ℤ, pos, negsuc, Bool, true, false, ◌&&◌, Ptr,
  guard_ptr, update, leb, ◌==◌, if◌then◌else◌, Option, none, some, List, [], ◌∷◌, ◌++◌, Cmd, ok,
  pure, get, leave, when, ◌>>=◌, ◌>>◌, Outcome,
}

-- The macros of the machine's headers on page table entries, and the TLB's probe: the value of the
-- index register after `TLBP`, given the high words of the TLB and the searched one.
pub record Mmu : Type 0 where
  pub get_vpn : ℕ → ℕ
  pub get_asid : ℕ → ℕ
  pub get_pfn : ℕ → ℕ
  pub probe : (ℕ → ℕ) → ℕ → ℕ
  pub slot : ℕ → ℕ  -- the TLB slot that an index register names
  pub dev_per_int : ℕ
  pub entrylo_valid : ℕ → Bool  -- `(lo & ENTRYLO_VALID) >> ENTRYLO_VALID_BIT`

abbrev pub page_size : ℕ
page_size = 4096

abbrev pub max_pages : ℕ
max_pages = 32

abbrev pub pool_size : ℕ
pool_size = 16

abbrev pub dirty_on : ℕ
dirty_on = 0x400

abbrev pub valid_on : ℕ
valid_on = 0x200

abbrev pub tlb_size : ℕ
tlb_size = 16

-- `pteEntry_t`s are named by their support structure and their index in its page table.
abbrev pub PteRef : Type 0
PteRef = Ptr × ℕ

-- A transfer that the pager asks of a flash device.
pub record Transfer : Type 0 where
  pub device : ℤ
  pub data0 : ℕ
  pub command : ℕ

pub record Pager : Type 0 where
  pub sw_asid : ℕ → ℤ
  pub sw_page_no : ℕ → ℕ
  pub sw_pte : ℕ → PteRef
  pub swap_sem : ℤ
  pub frame_index_to_replace : ℕ
  pub pte_entry_hi : Ptr → ℕ → ℕ
  pub pte_entry_lo : Ptr → ℕ → ℕ
  pub sup_asid : Ptr → ℕ
  pub tlb_hi : ℕ → ℕ
  pub tlb_lo : ℕ → ℕ
  pub tlb_index : ℕ
  pub transfers : List Transfer  -- oldest first

-- The loop of `initSwapTable`, with the rounds left and the index of the round.
unfoldable pub init_swap_table : ℕ → ℕ → (ℕ → ℤ) → ℕ → ℤ
init_swap_table zero i t = t
init_swap_table (suc k) i t = init_swap_table k (i + 1) (update t i (negsuc 0))

unfoldable pub init_swap_structs : Cmd Pager (Unit {0})
unfolding init_swap_table
init_swap_structs s =
    ok tt (record s { sw_asid = init_swap_table pool_size 0 s.sw_asid; swap_sem = pos 1 })

-- The loop of `getFreeAsid`, over the bits from `i` on.
unfoldable pub free_asid_loop : ℕ → ℕ → ℕ → ℤ
free_asid_loop zero i bitmap = negsuc 0
free_asid_loop (suc k) i bitmap =
    let later = free_asid_loop k (i + 1) bitmap in
    if (bitmap / 2 ^ i) % 2 == 1 then pos i else later

unfoldable pub get_free_asid : ℕ → ℤ
unfolding free_asid_loop
get_free_asid bitmap = free_asid_loop 8 1 bitmap

unfoldable pub get_vpn_address : ℕ → ℕ
get_vpn_address index = if index == 31 then 0xBFFFF else 0x80000 + index

-- The high word that `init_uproc_pagetable` gives the page `i` of the process `asid`.
unfoldable pub entry_hi : ℕ → ℕ → ℕ
unfolding get_vpn_address
entry_hi asid i = bit_or (get_vpn_address i * 2 ^ 12 % 2 ^ 32) (asid * 2 ^ 6)

-- The loop of `init_uproc_pagetable`, on the two words of the entries.
unfoldable pub init_entries : ℕ → ℕ → ℕ → (ℕ → ℕ) × (ℕ → ℕ) → (ℕ → ℕ) × (ℕ → ℕ)
init_entries zero i asid t = t
init_entries (suc k) i asid (hi, lo) =
    init_entries k (i + 1) asid (update hi i (entry_hi asid i), update lo i dirty_on)

unfoldable pub init_uproc_pagetable : Ptr → Cmd Pager (Unit {0})
init_uproc_pagetable supp s =
    let (hi, lo) =
      init_entries max_pages 0 (s.sup_asid supp) (s.pte_entry_hi supp, s.pte_entry_lo supp) in
    ok tt (record s {
      pte_entry_hi = update s.pte_entry_hi supp hi;
      pte_entry_lo = update s.pte_entry_lo supp lo;
    })

unfoldable pub is_free : ℤ → Bool
is_free (negsuc zero) = true
is_free _ = false

-- The loop of `updateFrameIndexToReplace`: the first frame from `i` on with the mark -1.
unfoldable pub free_frame : ℕ → ℕ → (ℕ → ℤ) → Option ℕ
free_frame zero i t = none
free_frame (suc k) i t =
    let later = free_frame k (i + 1) t in if is_free (t i) then some i else later

unfoldable pub next_frame : Option ℕ → ℕ → ℕ
next_frame (some i) old = i
next_frame none old = (old + 1) % pool_size

unfoldable pub update_frame_index_to_replace : Cmd Pager (Unit {0})
unfolding free_frame next_frame is_free
update_frame_index_to_replace s = ok tt (record s {
  frame_index_to_replace = next_frame (free_frame pool_size 0 s.sw_asid) s.frame_index_to_replace;
})

unfoldable pub frame_is_occupied : ℤ → Bool
frame_is_occupied (pos n) = leb 1 n && leb n 8
frame_is_occupied (negsuc n) = false

-- `lo & ~VALIDON`: VALIDON is the bit 9.
abbrev pub clear_valid : ℕ → ℕ
clear_valid lo = lo - lo / 2 ^ 9 % 2 * 2 ^ 9

abbrev pub pte_lo : PteRef → Cmd Pager ℕ
pte_lo (supp, i) = get (λ s. s.pte_entry_lo supp i)

abbrev pub pte_hi : PteRef → Cmd Pager ℕ
pte_hi (supp, i) = get (λ s. s.pte_entry_hi supp i)

abbrev pub set_pte_lo : PteRef → ℕ → Cmd Pager (Unit {0})
set_pte_lo (supp, i) v s =
    ok tt
      (record s { pte_entry_lo = update s.pte_entry_lo supp (update (s.pte_entry_lo supp) i v) })

unfoldable pub mark_pt_entry_not_valid : PteRef → Cmd Pager (Unit {0})
mark_pt_entry_not_valid e = do lo ← pte_lo e; set_pte_lo e (clear_valid lo)

-- `TLBWI` at a slot.
abbrev pub write_tlb : ℕ → ℕ → ℕ → Cmd Pager (Unit {0})
write_tlb slot hi lo s =
    ok tt (record s { tlb_hi = update s.tlb_hi slot hi; tlb_lo = update s.tlb_lo slot lo })

unfoldable pub update_tlb_index : Cmd Pager (Unit {0})
update_tlb_index s = ok tt (record s { tlb_index = (s.tlb_index + 1) % tlb_size })

module _ (mmu : Mmu) where
  abbrev pub frame_pool_start : ℕ
  frame_pool_start = 0x20000000 + 32 * page_size + 2 * (mmu.dev_per_int * page_size)

  unfoldable pub get_page_num : ℕ → ℕ
  get_page_num hi = let block = mmu.get_vpn hi in if block == 0x3FFFF then max_pages - 1 else block

  -- A hit has the top bit of the index register clear. The entry that is read back is then
  -- written with the valid bit off.
  unfoldable pub mark_tlb_entry_not_valid : PteRef → Cmd Pager (Unit {0})
  mark_tlb_entry_not_valid e = do
    hi ← pte_hi e
    index ← get (λ s. mmu.probe s.tlb_hi hi)
    when (index / 2 ^ 31 == 0) (do
      lo ← get (λ s. s.tlb_lo (mmu.slot index))
      write_tlb (mmu.slot index) hi (clear_valid lo))

  -- The loop of `removePagesFromTLB`, over the page table from `i` on.
  unfoldable pub remove_pages_from_tlb : ℕ → ℕ → Ptr → Cmd Pager (Unit {0})
  remove_pages_from_tlb zero i supp = pure tt
  remove_pages_from_tlb (suc k) i supp = do
    lo ← pte_lo (supp, i)
    when (mmu.entrylo_valid lo) (mark_tlb_entry_not_valid (supp, i))
    remove_pages_from_tlb k (i + 1) supp

  unfoldable pub update_entry_in_tlb : PteRef → Cmd Pager (Unit {0})
  update_entry_in_tlb e = do
    hi ← pte_hi e
    lo ← pte_lo e
    index ← get (λ s. mmu.probe s.tlb_hi hi)
    when (index / 2 ^ 31 == 0) (write_tlb (mmu.slot index) hi lo)

  -- `dev->dtp.data0 = …; dev->dtp.command = …; SYSCALL(IOWAIT, …)`.
  abbrev pub transfer : ℤ → ℕ → ℕ → Cmd Pager (Unit {0})
  transfer dev data0 command s = ok tt (record s {
    transfers = s.transfers ++ record { device = dev; data0 = data0; command = command } ∷ [];
  })

  unfoldable pub pred_ℤ : ℤ → ℤ
  pred_ℤ (pos zero) = negsuc 0
  pred_ℤ (pos (suc n)) = pos n
  pred_ℤ (negsuc n) = negsuc (suc n)

  unfoldable pub write_from_pool_to_dev : ℕ → Cmd Pager (Unit {0})
  unfolding pred_ℤ
  write_from_pool_to_dev frame = do
    asid ← get (λ s. s.sw_asid frame)
    block ← get (λ s. s.sw_page_no frame)
    entry ← get (λ s. s.sw_pte frame)
    lo ← pte_lo entry
    transfer (pred_ℤ asid) ((frame_pool_start + mmu.get_pfn lo * page_size) % 2 ^ 32)
        (bit_or (block * 2 ^ 8) 3)

  unfoldable pub write_from_dev_to_pool : PteRef → Cmd Pager (Unit {0})
  unfolding pred_ℤ get_page_num
  write_from_dev_to_pool page = do
    hi ← pte_hi page
    index ← get (λ s. s.frame_index_to_replace)
    transfer (pred_ℤ (pos (mmu.get_asid hi))) (frame_pool_start + index * page_size)
        (bit_or (get_page_num hi * 2 ^ 8) 2)

  unfoldable pub update_swap_table_entry : ℕ → PteRef → Cmd Pager (Unit {0})
  unfolding get_page_num
  update_swap_table_entry frame page = do
    hi ← pte_hi page
    (λ s. ok tt (record s {
      sw_asid = update s.sw_asid frame (pos (mmu.get_asid hi));
      sw_pte = update s.sw_pte frame page;
      sw_page_no = update s.sw_page_no frame (get_page_num hi);
    }))

  unfoldable pub mark_entry_present_at_index : PteRef → Cmd Pager (Unit {0})
  mark_entry_present_at_index page = do
    index ← get (λ s. s.frame_index_to_replace)
    set_pte_lo page (bit_or (bit_or (frame_pool_start + index * page_size) valid_on) dirty_on)

  unfoldable pub mark_invalid_and_save : ℕ → Cmd Pager (Unit {0})
  unfolding mark_pt_entry_not_valid mark_tlb_entry_not_valid write_from_pool_to_dev
  mark_invalid_and_save frame = do
    entry ← get (λ s. s.sw_pte frame)
    mark_pt_entry_not_valid entry
    mark_tlb_entry_not_valid entry
    write_from_pool_to_dev frame

  unfoldable pub mark_valid_and_update_tlb : PteRef → Cmd Pager (Unit {0})
  unfolding mark_entry_present_at_index update_entry_in_tlb
  mark_valid_and_update_tlb page = do mark_entry_present_at_index page; update_entry_in_tlb page

  -- `handleTLBInvalid`, for the missing page.
  unfoldable pub handle_tlb_invalid : PteRef → Cmd Pager (Unit {0})
  unfolding update_frame_index_to_replace mark_invalid_and_save write_from_dev_to_pool
      update_swap_table_entry mark_valid_and_update_tlb
  handle_tlb_invalid page = do
    update_frame_index_to_replace
    frame ← get (λ s. s.frame_index_to_replace)
    asid ← get (λ s. s.sw_asid frame)
    when (frame_is_occupied asid) (mark_invalid_and_save frame)
    write_from_dev_to_pool page
    update_swap_table_entry frame page
    mark_valid_and_update_tlb page

  -- The loop of `getMissingPage` and `getMissingPageFromSupp`: the first entry from `i` on with
  -- the virtual page number `vpn`.
  unfoldable pub find_page : ℕ → ℕ → ℕ → (ℕ → ℕ) → Option ℕ
  find_page zero i vpn hi = none
  find_page (suc k) i vpn hi =
      let later = find_page k (i + 1) vpn hi in if mmu.get_vpn (hi i) == vpn then some i else later

  -- Where no entry has the page, the process is killed.
  unfoldable pub get_missing_page : Ptr → ℕ → Cmd Pager PteRef
  unfolding find_page
  get_missing_page supp bad = do
    found ← get (λ s. find_page max_pages 0 (mmu.get_vpn bad) (s.pte_entry_hi supp))
    elim found [ none ↦ leave (Outcome.syscall 2) | some i ↦ pure (supp, i) ]

  -- `uTLB_RefillHandler`, up to the `loadProcess` that ends it.
  -- `running` is `currentProcess`, and `supp` its support structure.
  unfoldable pub utlb_refill_handler : (running supp : Ptr) → ℕ → Cmd Pager (Unit {0})
  unfolding get_missing_page update_tlb_index
  utlb_refill_handler running supp bad = do
    page ← get_missing_page supp bad
    hi ← pte_hi page
    lo ← pte_lo page
    slot ← get (λ s. s.tlb_index)
    write_tlb slot hi lo
    update_tlb_index
    guard_ptr running
    leave (Outcome.load_state running)
