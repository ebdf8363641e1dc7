-- ===== src/Vm/Pages.antt =====
-- Page tables: `init_uproc_pagetable`, `getPageNum` and `getFreeAsid` of src/vmSupport.c.
use progetto_so.Base.{
  ℕ, zero, suc, ◌+◌, ◌/◌, ◌%◌, ◌^◌, ◌<◌, ◌≡◌, refl, ◌≢◌, pos, Bool, true, false, ◌&&◌, not, ltb,
  arith, ◌==◌, if◌then◌else◌, Ptr, update, Returns, returned, ap, ◌∙◌,
}
use progetto_so.Vm.Defs.{
  Mmu, Pager, max_pages, dirty_on, entry_hi, init_entries, init_uproc_pagetable, get_page_num,
  get_free_asid,
}

-- The manual's layout of a high word: the page number in the bits 12 to 29, the ASID in 6 to 11.
pub record HighWord (mmu : Mmu) : Type 0 where
  pub vpn : (hi : ℕ) → mmu.get_vpn hi ≡ hi / 2 ^ 12 % 2 ^ 18
  pub asid : (hi : ℕ) → mmu.get_asid hi ≡ hi / 2 ^ 6 % 2 ^ 6

-- Does the test hold of all numbers under the bound?
unfoldable pub holds_under : (ℕ → Bool) → ℕ → Bool
holds_under test zero = true
holds_under test (suc bound) = if test bound then holds_under test bound else false

pub holds_under-at :
    (test : ℕ → Bool) (bound i : ℕ) → i < bound → holds_under test bound ≡ true → test i ≡ true
unfolding holds_under
holds_under-at test zero i h all = absurd (omega arith)
holds_under-at test (suc bound) i h all = ground (arith, holds_under-at test bound i)

page_of : ℕ → ℕ
page_of block = if block == 0x3FFFF then 31 else block

fits : ℕ → ℕ → Bool
fits asid i =
    (page_of (entry_hi asid i / 2 ^ 12 % 2 ^ 18) == i) && (entry_hi asid i / 2 ^ 6 % 2 ^ 6 == asid)

fits_table : holds_under (λ asid. holds_under (λ i. fits asid i) 32) 64 ≡ true
unfolding holds_under fits page_of entry_hi
fits_table = refl

fits_all : (asid i : ℕ) → asid < 64 → i < 32 → fits asid i ≡ true
fits_all asid i h h' =
    holds_under-at (λ j. fits asid j) 32 i h'
      (holds_under-at (λ a. holds_under (λ j. fits a j) 32) 64 asid h fits_table)

entry_hi_fields :
    (mmu : Mmu) (asid i : ℕ)
    → HighWord mmu
    → asid < 64
    → i < max_pages
    → (get_page_num mmu (entry_hi asid i) ≡ i) × (mmu.get_asid (entry_hi asid i) ≡ asid)
unfolding fits page_of get_page_num
entry_hi_fields mmu asid i w h h' =
    ground (arith, w.vpn (entry_hi asid i), w.asid (entry_hi asid i), fits_all asid i)

init_entries_lem :
    (k i asid r : ℕ) (hi lo : ℕ → ℕ)
    → ((init_entries k i asid (hi, lo)).0 r
        ≡ (if not (ltb r i) && ltb r (i + k) then entry_hi asid r else hi r))
      × ((init_entries k i asid (hi, lo)).1 r
          ≡ (if not (ltb r i) && ltb r (i + k) then dirty_on else lo r))
unfolding init_entries
init_entries_lem zero i asid r hi lo = ground arith
init_entries_lem (suc k) i asid r hi lo = ground (
  arith,
  init_entries_lem k (i + 1) asid r (update hi i (entry_hi asid i)) (update lo i dirty_on),
)

read_back : (f : Ptr → ℕ → ℕ) (g : ℕ → ℕ) (p r : ℕ) {v : ℕ} → g r ≡ v → update f p g p r ≡ v
read_back f g p r e = ground arith

-- `init_uproc_pagetable` gives every entry its own page number and the ASID of the process, writable
-- and not yet valid; the words of other page tables and all else are as they were. The bits of a high
-- word lie as in the manual, the ASID is below 64, and the entry is one of the table's.
pub init_uproc_pagetable-pages :
    (mmu : Mmu) (supp r : ℕ) (s : Pager)
    → HighWord mmu
    → s.sup_asid supp < 64
    → r < max_pages
    → Returns
        (λ _ t.
          (get_page_num mmu (t.pte_entry_hi supp r) ≡ r)
          × (mmu.get_asid (t.pte_entry_hi supp r) ≡ s.sup_asid supp)
          × (t.pte_entry_lo supp r ≡ dirty_on)
          × ((q : Ptr) → q ≢ supp → t.pte_entry_hi q ≡ s.pte_entry_hi q)
          × ((q : Ptr) → q ≢ supp → t.pte_entry_lo q ≡ s.pte_entry_lo q)
          × (t ≡ record s { pte_entry_hi = t.pte_entry_hi; pte_entry_lo = t.pte_entry_lo }))
        (init_uproc_pagetable supp s)
unfolding init_uproc_pagetable
init_uproc_pagetable-pages mmu supp r s w h h' =
    let asid = s.sup_asid supp in
    let made = init_entries_lem max_pages 0 asid r (s.pte_entry_hi supp) (s.pte_entry_lo supp) in
    let fields = entry_hi_fields mmu asid r w h h' in
    let hi_r : (init_entries max_pages 0 asid (s.pte_entry_hi supp, s.pte_entry_lo supp)).0 r
        ≡ entry_hi asid r =
      made.0 ∙ ground arith in
    let lo_r : (init_entries max_pages 0 asid (s.pte_entry_hi supp, s.pte_entry_lo supp)).1 r
        ≡ dirty_on =
      made.1 ∙ ground arith in
    returned (
      ap (get_page_num mmu) (read_back s.pte_entry_hi _ supp r hi_r) ∙ fields.0,
      ap mmu.get_asid (read_back s.pte_entry_hi _ supp r hi_r) ∙ fields.1,
      read_back s.pte_entry_lo _ supp r lo_r,
      λ q ne. ground arith,
      λ q ne. ground arith,
      refl,
    )

-- The bitmap has eight bits, so `getFreeAsid`, which reads the bits 1 to 8, never finds the ASID 8.
pub get_free_asid-ne_eight : (bitmap : ℕ) → bitmap < 256 → get_free_asid bitmap ≢ pos 8
unfolding get_free_asid
get_free_asid-ne_eight bitmap h = ground arith
