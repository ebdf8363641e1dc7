-- ===== src/Pcb/Init.antt =====
-- `initPcbs` of src/pcb.c: the free list of the whole table.
use progetto_so.Base.{
  ℕ, zero, suc, ◌+◌, ◌≡◌, refl, Bool, true, false, not, ◌&&◌, List, [], ◌∷◌, arith, ◌==◌, Ptr, has,
  Run, ok, stop, fault, out_of_fuel, Returns, returned,
}
use progetto_so.Pcb.Defs.{Pcbs, entry, max_proc, init_pcbs}
use progetto_so.Pcb.Ring.{Chain, Distinct}
use progetto_so.Pcb.Alloc.{IsFreeList}

-- The same facts as one Boolean test, for chains of known blocks.
chain_test : (nx pv : Ptr → Ptr) → Ptr → List Ptr → Ptr → Bool
chain_test nx pv a [] b = (nx a == b) && (pv b == a)
chain_test nx pv a (x ∷ xs) b = (nx a == x) && ((pv x == a) && chain_test nx pv x xs b)

chain_test_sound :
    (nx pv : Ptr → Ptr) (a : Ptr) (xs : List Ptr) (b : Ptr)
    → chain_test nx pv a xs b ≡ true
    → Chain nx pv a xs b
unfolding chain_test
chain_test_sound nx pv a [] b h = ground arith
chain_test_sound nx pv a (x ∷ xs) b h =
    (ground arith, ground arith, chain_test_sound nx pv x xs b (ground arith))

distinct_test : List Ptr → Bool
distinct_test [] = true
distinct_test (x ∷ xs) = not (has x xs) && distinct_test xs

distinct_test_sound : (xs : List Ptr) → distinct_test xs ≡ true → Distinct xs
unfolding distinct_test
distinct_test_sound [] h = tt
distinct_test_sound (x ∷ xs) h = (ground arith, distinct_test_sound xs (ground arith))

-- The blocks of `pcbFree_table`, in order.
abbrev pub entries_from : ℕ → ℕ → List Ptr
entries_from zero i = []
entries_from (suc k) i = entry i ∷ entries_from k (i + 1)

&&_right : (b c : Bool) → (b && c) ≡ true → c ≡ true
&&_right b c h = ground arith

IsInit : Unit {0} → Pcbs → Type 0
IsInit _ t = IsFreeList t.p_next t.p_prev t.pcb_free_h (entries_from max_proc 0)

init_test : Run Pcbs (Unit {0}) → Bool
init_test (ok _ t) =
    (t.pcb_free_h == entry 0)
    && chain_test t.p_next t.p_prev (entry 0) (entries_from 39 1) (entry 0)
init_test _ = false

init_test_sound : (r : Run Pcbs (Unit {0})) → init_test r ≡ true → Returns IsInit r
unfolding init_test IsInit distinct_test
init_test_sound (ok _ t) h = returned (
  ground arith,
  refl,
  distinct_test_sound (entries_from max_proc 0) refl,
  chain_test_sound t.p_next t.p_prev (entry 0) (entries_from 39 1) (entry 0) (&&_right _ _ h),
)
init_test_sound (stop o t) h = cc
init_test_sound fault h = cc
init_test_sound out_of_fuel h = cc

-- `initPcbs` makes the free list of all forty blocks, whatever the links were before.
pub init_pcbs-IsFreeList :
    (s : Pcbs)
    → Returns
        (λ _ t. IsFreeList t.p_next t.p_prev t.pcb_free_h (entries_from max_proc 0))
        (init_pcbs s)
unfolding init_pcbs chain_test init_test IsInit
init_pcbs-IsFreeList s = init_test_sound (init_pcbs s) refl
