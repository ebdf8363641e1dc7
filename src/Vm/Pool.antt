-- ===== src/Vm/Pool.antt =====
-- The frames of the swap pool of src/vmSupport.c: each valid page has one of its own.
use Prim.Native.Nat.{bit_or}
use progetto_so.Base.{
  ℕ, [], ◌∷◌, ◌++◌, ◌+◌, ◌*◌, ◌/◌, ◌%◌, ◌^◌, ◌<◌, ◌≡◌, refl, Bool, true, false, inl, inr,
  Bool-cases, pos, ◌==◌, arith, Ptr, update, ok, Returns, returned,
}
use progetto_so.Vm.Defs.{
  Mmu, Pager, PteRef, page_size, pool_size, valid_on, dirty_on, frame_pool_start, clear_valid,
  frame_is_occupied, update_frame_index_to_replace, mark_pt_entry_not_valid,
  mark_tlb_entry_not_valid, write_from_pool_to_dev, write_from_dev_to_pool, update_swap_table_entry,
  get_page_num, pred_ℤ, mark_entry_present_at_index, update_entry_in_tlb, mark_invalid_and_save,
  mark_valid_and_update_tlb, handle_tlb_invalid,
}
use progetto_so.Vm.Frames.{chosen}

-- The bit VALIDON of an entry.
abbrev pub is_valid : ℕ → Bool
is_valid lo = lo / 2 ^ 9 % 2 == 1

-- The low word of an entry that is present in the frame `i`.
abbrev pub low_word : Mmu → ℕ → ℕ
low_word mmu i = bit_or (bit_or (frame_pool_start mmu + i * page_size) valid_on) dirty_on

abbrev pub lo_of : Pager → PteRef → ℕ
lo_of s (supp, j) = s.pte_entry_lo supp j

-- The page is present in a frame, and the swap table has it there.
abbrev pub InFrame : Mmu → Pager → PteRef → Type 0
InFrame mmu s page =
    (i : ℕ) × (i < pool_size)
    × (s.sw_pte i ≡ page)
    × (frame_is_occupied (s.sw_asid i) ≡ true)
    × (lo_of s page ≡ low_word mmu i)

-- Every valid page is in its frame. Two of them are in different frames, since the swap table has
-- one page for each.
abbrev pub IsPool : Mmu → Pager → Type 0
IsPool mmu s = (page : PteRef) → is_valid (lo_of s page) ≡ true → InFrame mmu s page

abbrev pub set_lo : (Ptr → ℕ → ℕ) → PteRef → ℕ → Ptr → ℕ → ℕ
set_lo lo (supp, j) v = update lo supp (update (lo supp) j v)

-- The page of the frame `i` is not valid any more.
abbrev pub without : Pager → ℕ → Ptr → ℕ → ℕ
without s i = set_lo s.pte_entry_lo (s.sw_pte i) (clear_valid (lo_of s (s.sw_pte i)))

module _ (mmu : Mmu) where
  pub save_run :
      (i : ℕ) (s : Pager)
      → Returns
          (λ _ t. t ≡ record s {
            pte_entry_lo = without s i;
            tlb_hi = t.tlb_hi;
            tlb_lo = t.tlb_lo;
            transfers = t.transfers;
          })
          (mark_invalid_and_save mmu i s)
  unfolding mark_invalid_and_save mark_pt_entry_not_valid mark_tlb_entry_not_valid
      write_from_pool_to_dev
  save_run i s =
      let (supp, j) = s.sw_pte i in
      elim (Bool-cases (mmu.probe s.tlb_hi (s.pte_entry_hi supp j) / 2 ^ 31 == 0)) [
        | inl hit ↦ rw hit (returned refl)
        | inr miss ↦ rw miss (returned refl)
      ]

  pub load_run :
      (page : PteRef) (s : Pager)
      → Returns
          (λ _ t. t ≡ record s {
            pte_entry_lo = set_lo s.pte_entry_lo page (low_word mmu s.frame_index_to_replace);
            tlb_hi = t.tlb_hi;
            tlb_lo = t.tlb_lo;
          })
          (mark_valid_and_update_tlb mmu page s)
  unfolding mark_valid_and_update_tlb mark_entry_present_at_index update_entry_in_tlb
  load_run (supp, j) s =
      elim (Bool-cases (mmu.probe s.tlb_hi (s.pte_entry_hi supp j) / 2 ^ 31 == 0)) [
        | inl hit ↦ rw hit (returned refl)
        | inr miss ↦ rw miss (returned refl)
      ]

  -- The page is read into the frame, and the swap table has it there.
  abbrev pub swapped : ℕ → PteRef → Pager → Pager
  swapped i (supp, j) s =
      let hi = s.pte_entry_hi supp j in
      record s {
        transfers =
            s.transfers
            ++ record {
              device = pred_ℤ mmu (pos (mmu.get_asid hi));
              data0 = frame_pool_start mmu + s.frame_index_to_replace * page_size;
              command = bit_or (get_page_num mmu hi * 2 ^ 8) 2;
            }
              ∷ [];
        sw_asid = update s.sw_asid i (pos (mmu.get_asid hi));
        sw_pte = update s.sw_pte i (supp, j);
        sw_page_no = update s.sw_page_no i (get_page_num mmu hi);
      }

  abbrev pub aimed : Pager → Pager
  aimed s = record s { frame_index_to_replace = chosen s }

  pub page_run_full :
      (page : PteRef) (s u t : Pager)
      → frame_is_occupied (s.sw_asid (chosen s)) ≡ true
      → mark_invalid_and_save mmu (chosen s) (aimed s) ≡ ok tt u
      → mark_valid_and_update_tlb mmu page (swapped (chosen s) page u) ≡ ok tt t
      → handle_tlb_invalid mmu page s ≡ ok tt t
  unfolding handle_tlb_invalid update_frame_index_to_replace write_from_dev_to_pool
      update_swap_table_entry
  page_run_full page s u t full saved loaded = ground arith

  pub page_run_free :
      (page : PteRef) (s t : Pager)
      → frame_is_occupied (s.sw_asid (chosen s)) ≡ false
      → mark_valid_and_update_tlb mmu page (swapped (chosen s) page (aimed s)) ≡ ok tt t
      → handle_tlb_invalid mmu page s ≡ ok tt t
  unfolding handle_tlb_invalid update_frame_index_to_replace write_from_dev_to_pool
      update_swap_table_entry
  page_run_free page s t free loaded = ground arith
