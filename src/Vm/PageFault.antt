-- ===== src/Vm/PageFault.antt =====
-- `handlePageFault` of src/vmSupport.c keeps every valid page in a frame of its own.
use progetto_so.Base.{
  ℕ, ◌<◌, ◌≡◌, ◌≢◌, refl, sym, ap, ◌∙◌, true, false, inl, inr, Bool-cases, ◌&&◌, pos, ◌+ℤ◌, ◌-ℤ◌,
  -ℤ_cancel, ◌==◌, arith, Ptr, update, ok, stop, Outcome, Returns, returned, Returns-inv, Leaves,
  left, some,
}
use mathlib.Core.Path.{subst}
use progetto_so.Pcb.Defs.{ProcState}
use progetto_so.Vm.Defs.{
  Mmu, Pager, PteRef, pool_size, max_pages, clear_valid, frame_is_occupied, find_page,
  get_missing_page, handle_tlb_invalid,
}
use progetto_so.Vm.Faults.{get_missing_page_from_supp, handle_page_fault}
use progetto_so.Vm.Frames.{chosen, chosen_lt}
use progetto_so.Vm.Refill.{find_page-Found}
use progetto_so.Vm.Pool.{
  is_valid, low_word, InFrame, IsPool, set_lo, without, save_run, load_run, swapped, aimed,
  page_run_full, page_run_free,
}

clear_valid_lem : (lo : ℕ) → is_valid (clear_valid lo) ≡ false
clear_valid_lem lo = ground arith

-- Among the entries `lo` those that are still valid are as they were, and not of the frame `i`.
abbrev Emptied : Pager → ℕ → (Ptr → ℕ → ℕ) → Type 0
Emptied s i lo =
    (supp j : ℕ)
    → is_valid (lo supp j) ≡ true
    → (lo supp j ≡ s.pte_entry_lo supp j)
      × (s.sw_pte i ≡ (supp, j) → frame_is_occupied (s.sw_asid i) ≡ true → ⊥)

cleared-Emptied :
    (s : Pager) (i p k : ℕ)
    → s.sw_pte i ≡ (p, k)
    → Emptied s i (set_lo s.pte_entry_lo (p, k) (clear_valid (s.pte_entry_lo p k)))
cleared-Emptied s i p k is_pk supp j valid = elim (Bool-cases ((supp == p) && (j == k))) [
  | inl same ↦ absurd (ground (arith, valid, same, clear_valid_lem (s.pte_entry_lo p k)))
  | inr other ↦ (
    ground (arith, other),
    λ e full.
        let e₀ : p ≡ supp = ap (λ (r : PteRef). r.0) (sym is_pk ∙ e) in
        let e₁ : k ≡ j = ap (λ (r : PteRef). r.1) (sym is_pk ∙ e) in
        absurd (ground (arith, other, e₀, e₁)),
  )
]

free-Emptied :
    (s : Pager) (i : ℕ) → frame_is_occupied (s.sw_asid i) ≡ false → Emptied s i s.pte_entry_lo
free-Emptied s i free supp j valid = (refl, λ e full. absurd (cc))

pooled :
    (mmu : Mmu) (s t : Pager) (supp j : ℕ) (i a : ℕ) (lo : Ptr → ℕ → ℕ)
    → IsPool mmu s
    → i < pool_size
    → frame_is_occupied (pos a) ≡ true
    → Emptied s i lo
    → t.sw_asid ≡ update s.sw_asid i (pos a)
    → t.sw_pte ≡ update s.sw_pte i (supp, j)
    → t.pte_entry_lo ≡ set_lo lo (supp, j) (low_word mmu i)
    → IsPool mmu t × InFrame mmu t (supp, j)
pooled mmu s t supp j i a lo h bound full emptied asid pte low = (others, here)
  where
    here : InFrame mmu t (supp, j)
    here = (
      i,
      bound,
      ap (λ m. m i) pte ∙ ground arith,
      ap (λ m. frame_is_occupied (m i)) asid ∙ ground (arith, full),
      ap (λ m. m supp j) low ∙ ground arith,
    )

    kept : (q n : ℕ) → is_valid (lo q n) ≡ true → t.pte_entry_lo q n ≡ lo q n → InFrame mmu t (q, n)
    kept q n valid same =
        let (old, gone) = emptied q n valid in
        let (k, k_bound, is_page, occupied, word) = h (q, n) (ap is_valid (sym old) ∙ valid) in
        elim (Bool-cases (k == i)) [
          | inl at_i ↦
              let eq : i ≡ k = ground arith in
              absurd (
                gone (ap s.sw_pte eq ∙ is_page)
                  (ap (λ m. frame_is_occupied (s.sw_asid m)) eq ∙ occupied))
          | inr away ↦ (
            k,
            k_bound,
            ap (λ m. m k) pte ∙ ground (arith, away, is_page),
            ap (λ m. frame_is_occupied (m k)) asid ∙ ground (arith, away, occupied),
            same ∙ old ∙ word,
          )
        ]

    others : IsPool mmu t
    others (q, n) valid = elim (Bool-cases ((q == supp) && (n == j))) [
      | inl same ↦
          let e₀ : supp ≡ q = ground arith in
          let e₁ : j ≡ n = ground arith in
          let e : ◌≡◌ {A = PteRef} (supp, j) (q, n) = cc in subst (λ r. InFrame mmu t r) e here
      | inr other ↦
          let as_it_was : t.pte_entry_lo q n ≡ lo q n =
            ap (λ m. m q n) low ∙ ground (arith, other) in
          kept q n (ap is_valid (sym as_it_was) ∙ valid) as_it_was
    ]

module _ (mmu : Mmu) (s : Pager) (supp j : ℕ) where
  -- What the pager leaves, given the ASID of the page.
  abbrev Paged : Pager → Type 0
  Paged t = IsPool mmu t × InFrame mmu t (supp, j) × (t.swap_sem ≡ s.swap_sem)

  pages_in :
      IsPool mmu s
      → frame_is_occupied (pos (mmu.get_asid (s.pte_entry_hi supp j))) ≡ true
      → Returns (λ _ t. Paged t) (handle_tlb_invalid mmu (supp, j) s)
  pages_in h user = elim (Bool-cases (frame_is_occupied (s.sw_asid (chosen s)))) [
    | inl full ↦
        let (_, u, saved, is_u) = Returns-inv (save_run mmu (chosen s) (aimed mmu s)) in
        let (_, t, loaded, is_t) =
          Returns-inv (load_run mmu (supp, j) (swapped mmu (chosen s) (supp, j) u)) in
        rw (page_run_full mmu (supp, j) s u t full saved loaded) (
          returned (
            let old = s.sw_pte (chosen s) in
            let (pool, here) =
              pooled mmu s t supp j (chosen s) (mmu.get_asid (s.pte_entry_hi supp j))
                (without s (chosen s)) h (chosen_lt s) user
                (cleared-Emptied s (chosen s) old.0 old.1 refl)
                (ap (λ (v : Pager). v.sw_asid) is_t
                  ∙ ap
                      (λ (v : Pager).
                        update v.sw_asid (chosen s) (pos (mmu.get_asid (v.pte_entry_hi supp j))))
                      is_u)
                (ap (λ (v : Pager). v.sw_pte) is_t
                  ∙ ap (λ (v : Pager). update v.sw_pte (chosen s) (supp, j)) is_u)
                (ap (λ (v : Pager). v.pte_entry_lo) is_t
                  ∙ ap
                      (λ (v : Pager).
                        set_lo v.pte_entry_lo (supp, j) (low_word mmu v.frame_index_to_replace))
                      is_u) in
            (
              pool,
              here,
              ap (λ (v : Pager). v.swap_sem) is_t ∙ ap (λ (v : Pager). v.swap_sem) is_u,
            )))
    | inr free ↦
        let (_, t, loaded, is_t) =
          Returns-inv (load_run mmu (supp, j) (swapped mmu (chosen s) (supp, j) (aimed mmu s))) in
        rw (page_run_free mmu (supp, j) s t free loaded) (
          returned (
            let (pool, here) =
              pooled mmu s t supp j (chosen s) (mmu.get_asid (s.pte_entry_hi supp j)) s.pte_entry_lo
                h (chosen_lt s) user (free-Emptied s (chosen s) free)
                (ap (λ (v : Pager). v.sw_asid) is_t) (ap (λ (v : Pager). v.sw_pte) is_t)
                (ap (λ (v : Pager). v.pte_entry_lo) is_t) in
            (pool, here, ap (λ (v : Pager). v.swap_sem) is_t)))
  ]

fault_run :
    (mmu : Mmu) (exc_mod supp m : ℕ) (saved : ProcState) (s t : Pager)
    → saved.cause ≢ exc_mod
    → find_page mmu max_pages 0 (mmu.get_vpn saved.entry_hi) (s.pte_entry_hi supp) ≡ some m
    → handle_tlb_invalid mmu (supp, m) (record s { swap_sem = s.swap_sem -ℤ pos 1 }) ≡ ok tt t
    → handle_page_fault mmu exc_mod supp saved s
      ≡ stop (Outcome.load_exception_state supp 0) (record t { swap_sem = t.swap_sem +ℤ pos 1 })
unfolding handle_page_fault get_missing_page_from_supp get_missing_page
fault_run mmu exc_mod supp m saved s t other found run = ground arith

-- The page of the address is in a frame, and every valid page is.
abbrev pub Served : Mmu → ℕ → ProcState → Pager → Pager → Type 0
Served mmu supp saved s t =
    IsPool mmu t
    × ((m : ℕ) × (mmu.get_vpn (s.pte_entry_hi supp m) ≡ mmu.get_vpn saved.entry_hi)
        × InFrame mmu t (supp, m))
    × (t.swap_sem ≡ s.swap_sem)

-- A page fault on a page that the page table has: the process goes on with that page in a frame of
-- the pool, the swap semaphore is as it was, and, if every valid page was in the frame that the swap
-- table says, so it is afterwards: the page that had to leave the frame is not valid any more. The
-- entries of the page table carry one of the ASIDs 1 to 8.
pub page_fault-IsPool :
    (mmu : Mmu) (exc_mod supp j : ℕ) (saved : ProcState) (s : Pager)
    → IsPool mmu s
    → saved.cause ≢ exc_mod
    → j < max_pages
    → mmu.get_vpn (s.pte_entry_hi supp j) ≡ mmu.get_vpn saved.entry_hi
    → ((m : ℕ)
        → m < max_pages
        → frame_is_occupied (pos (mmu.get_asid (s.pte_entry_hi supp m))) ≡ true)
    → Leaves
        (Outcome.load_exception_state supp 0)
        (Served mmu supp saved s)
        (handle_page_fault mmu exc_mod supp saved s)
page_fault-IsPool mmu exc_mod supp j saved s h other bound is_page users =
    let (m, found, below, same) =
      find_page-Found mmu (mmu.get_vpn saved.entry_hi) (s.pte_entry_hi supp) max_pages 0 j
        (omega arith) (omega (arith, bound)) is_page in
    let (_, t, run, (pool, here, sem)) = Returns-inv (
      pages_in mmu (record s { swap_sem = s.swap_sem -ℤ pos 1 }) supp m h
        (users m (omega (arith, below)))) in
    rw (fault_run mmu exc_mod supp m saved s t other found run)
      (left (pool, (m, same, here), ap (λ n. n +ℤ pos 1) sem ∙ -ℤ_cancel s.swap_sem (pos 1)))
