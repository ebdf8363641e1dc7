-- ===== src/Vm/Transfers.antt =====
-- Where the pager reads a page from and writes it back to: src/vmSupport.c.
use Prim.Native.Nat.{bit_or}
use mathlib.Core.Path.{subst}
use progetto_so.Base.{
  ℕ, ◌+◌, ◌*◌, ◌/◌, ◌%◌, ◌^◌, ◌<◌, ◌≡◌, refl, ◌≢◌, Bool, true, not, List, [], ◌∷◌, arith, ◌==◌,
  Returns, returned, Returns-weaken, sym, ◌>>◌,
}
use progetto_so.Vm.Defs.{
  Mmu, Pager, Transfer, page_size, pool_size, frame_pool_start, clear_valid,
  mark_entry_present_at_index, mark_pt_entry_not_valid, write_from_pool_to_dev,
}
use progetto_so.Vm.Pages.{holds_under, holds_under-at}

-- The manual's layout of a low word, and the machine's eight devices to a line.
pub record LowWord (mmu : Mmu) : Type 0 where
  pub pfn : (lo : ℕ) → mmu.get_pfn lo ≡ lo / 2 ^ 12 % 2 ^ 20
  pub devices : mmu.dev_per_int ≡ 8

pool : ℕ
pool = 0x20030000

low_word : ℕ → ℕ
low_word i = bit_or (bit_or (pool + i * page_size) 0x200) 0x400

elsewhere : ℕ → Bool
elsewhere i = not (
    ((pool + clear_valid (low_word i) / 2 ^ 12 % 2 ^ 20 * page_size) % 2 ^ 32)
    == (pool + i * page_size))

elsewhere_table : holds_under elsewhere 16 ≡ true
unfolding holds_under elsewhere low_word pool
elsewhere_table = refl

elsewhere_lem :
    (i : ℕ)
    → i < pool_size
    → (pool + clear_valid (low_word i) / 2 ^ 12 % 2 ^ 20 * page_size) % 2 ^ 32
      ≢ pool + i * page_size
unfolding elsewhere
elsewhere_lem i h = ground (arith, holds_under-at elsewhere 16 i h elsewhere_table)

abbrev pub OnlyTransfer : (Transfer → Type 0) → List Transfer → Type 0
OnlyTransfer P [] = ⊥
OnlyTransfer P (x ∷ []) = P x
OnlyTransfer P (x ∷ y ∷ xs) = ⊥

OnlyTransfer-map :
    {P Q : Transfer → Type 0} (xs : List Transfer)
    → ((x : Transfer) → P x → Q x)
    → OnlyTransfer P xs
    → OnlyTransfer Q xs
OnlyTransfer-map [] f h = h
OnlyTransfer-map (x ∷ []) f h = f x h
OnlyTransfer-map (x ∷ y ∷ xs) f h = h

save_run :
    (mmu : Mmu) (f supp idx : ℕ) (s : Pager)
    → mmu.dev_per_int ≡ 8
    → s.sw_pte f ≡ (supp, idx)
    → s.transfers ≡ []
    → Returns
        (λ _ t.
          OnlyTransfer
            (λ x.
              x.data0
              ≡ (pool + mmu.get_pfn (clear_valid (low_word s.frame_index_to_replace)) * page_size)
                % 2 ^ 32)
            t.transfers)
        ((mark_entry_present_at_index mmu (supp, idx)
            >> mark_pt_entry_not_valid (supp, idx)
            >> write_from_pool_to_dev mmu f)
          s)
unfolding mark_entry_present_at_index mark_pt_entry_not_valid write_from_pool_to_dev low_word pool
save_run mmu f supp idx s d e e' = rw (e', e, d) (returned (ground arith))

-- A page that was loaded into a frame of the pool and is later evicted from it is not written back
-- from that frame: the address given to the device is another one, for each of the sixteen frames.
pub write_back-ne_frame :
    (mmu : Mmu) (f supp idx : ℕ) (s : Pager)
    → LowWord mmu
    → s.frame_index_to_replace < pool_size
    → s.sw_pte f ≡ (supp, idx)
    → s.transfers ≡ []
    → Returns
        (λ _ t.
          OnlyTransfer
            (λ x. x.data0 ≢ frame_pool_start mmu + s.frame_index_to_replace * page_size)
            t.transfers)
        ((mark_entry_present_at_index mmu (supp, idx)
            >> mark_pt_entry_not_valid (supp, idx)
            >> write_from_pool_to_dev mmu f)
          s)
unfolding pool
write_back-ne_frame mmu f supp idx s w h e e' =
    let i = s.frame_index_to_replace in
    Returns-weaken (save_run mmu f supp idx s w.devices e e') λ _ t post.
      OnlyTransfer-map t.transfers
        (λ x same.
          subst (λ n. x.data0 ≢ 0x20000000 + 32 * page_size + 2 * (n * page_size) + i * page_size)
            (sym w.devices)
            (subst (λ a. a ≢ pool + i * page_size) (sym same)
              (subst (λ p. (pool + p * page_size) % 2 ^ 32 ≢ pool + i * page_size)
                (sym (w.pfn (clear_valid (low_word i)))) (elsewhere_lem i h))))
        post
