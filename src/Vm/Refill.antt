-- ===== src/Vm/Refill.antt =====
-- src/sysSupport.c: the search for the missing page and the refill of the TLB.
use progetto_so.Base.{
  ℕ, zero, suc, ◌+◌, ◌%◌, ◌≤◌, ◌<◌, ◌≡◌, refl, ◌≢◌, Option, some, false, inl, inr, Bool-cases, ◌==◌,
  ap, update, arith, Ptr, null, stop, Outcome, Leaves, left, if◌then◌else◌,
}
use progetto_so.Vm.Defs.{
  Mmu, Pager, max_pages, tlb_size, find_page, get_missing_page, update_tlb_index,
  utlb_refill_handler,
}

module _ (mmu : Mmu) (vpn : ℕ) (hi : ℕ → ℕ) where
  -- The search found an entry of the page, below the bound.
  abbrev pub Found : ℕ → Option ℕ → Type 0
  Found bound r = (m : ℕ) × (r ≡ some m) × (m < bound) × (mmu.get_vpn (hi m) ≡ vpn)

  not_equal :
      (i j : ℕ) → i ≤ j → mmu.get_vpn (hi j) ≡ vpn → (mmu.get_vpn (hi i) == vpn) ≡ false → i + 1 ≤ j
  not_equal i j h e n = elim (Bool-cases (i == j)) [
    | inl same ↦
        let eq : i ≡ j = ground arith in
        absurd (ground (arith, ap (λ m. mmu.get_vpn (hi m)) eq, e, n))
    | inr other ↦ ground (arith, other, h)
  ]

  pub find_page-Found :
      (k i j : ℕ)
      → i ≤ j
      → j < i + k
      → mmu.get_vpn (hi j) ≡ vpn
      → Found (i + k) (find_page mmu k i vpn hi)
  unfolding find_page
  find_page-Found zero i j h h' e = absurd (omega (arith, h, h'))
  find_page-Found (suc k) i j h h' e = elim (Bool-cases (mmu.get_vpn (hi i) == vpn)) [
    | inl here ↦ (i, ground arith, omega arith, ground arith)
    | inr not_here ↦
        let (m, found, below, same) =
          find_page-Found k (i + 1) j (not_equal i j h e not_here) (omega (arith, h')) e in
        (m, ground arith, omega (arith, below), same)
  ]

-- The entry `m` of the page table of `supp` has the page of the address `bad`, and stands in the
-- slot of the TLB that was next; the other slots are as they were, and the slot behind it is next,
-- the first one behind the last of the sixteen. Nothing else is changed.
abbrev pub Refilled : Mmu → Ptr → ℕ → Pager → Pager → Type 0
Refilled mmu supp bad s t =
    ((m : ℕ) × (m < max_pages)
      × (mmu.get_vpn (s.pte_entry_hi supp m) ≡ mmu.get_vpn bad)
      × (t.tlb_hi s.tlb_index ≡ s.pte_entry_hi supp m)
      × (t.tlb_lo s.tlb_index ≡ s.pte_entry_lo supp m))
    × ((i : ℕ) → i ≢ s.tlb_index → t.tlb_hi i ≡ s.tlb_hi i)
    × ((i : ℕ) → i ≢ s.tlb_index → t.tlb_lo i ≡ s.tlb_lo i)
    × (t.tlb_index ≡ (if s.tlb_index == 15 then 0 else s.tlb_index + 1))
    × (t ≡ record s { tlb_hi = t.tlb_hi; tlb_lo = t.tlb_lo; tlb_index = t.tlb_index })

refill_run :
    (mmu : Mmu) (running supp : Ptr) (bad m : ℕ) (s : Pager)
    → running ≢ null
    → find_page mmu max_pages 0 (mmu.get_vpn bad) (s.pte_entry_hi supp) ≡ some m
    → utlb_refill_handler mmu running supp bad s
      ≡ stop (Outcome.load_state running) (record s {
        tlb_hi = update s.tlb_hi s.tlb_index (s.pte_entry_hi supp m);
        tlb_lo = update s.tlb_lo s.tlb_index (s.pte_entry_lo supp m);
        tlb_index = (s.tlb_index + 1) % tlb_size;
      })
unfolding utlb_refill_handler get_missing_page update_tlb_index
refill_run mmu running supp bad m s real h =
    let is_real : (running == null) ≡ false = ground (arith, real) in rw (h, is_real) refl

-- `uTLB_RefillHandler` finds an entry of the missing page whenever the page table has one, and puts
-- it into the next slot of the TLB; the slot behind it is next, around the sixteen, the other slots and
-- the page tables stay as they were, and the running process, which is not NULL, is loaded again. The
-- next slot is one of the sixteen.
pub utlb_refill-Refilled :
    (mmu : Mmu) (running supp : Ptr) (bad j : ℕ) (s : Pager)
    → running ≢ null
    → s.tlb_index < tlb_size
    → j < max_pages
    → mmu.get_vpn (s.pte_entry_hi supp j) ≡ mmu.get_vpn bad
    → Leaves
        (Outcome.load_state running)
        (Refilled mmu supp bad s)
        (utlb_refill_handler mmu running supp bad s)
utlb_refill-Refilled mmu running supp bad j s real slot h e =
    let (m, found, below, same) =
      find_page-Found mmu (mmu.get_vpn bad) (s.pte_entry_hi supp) max_pages 0 j (omega arith) h e in
    rw (refill_run mmu running supp bad m s real found) (
      left (
        (m, below, same, ground arith, ground arith),
        λ i n. ground arith,
        λ i n. ground arith,
        ground (arith, slot),
        refl,
      ))
