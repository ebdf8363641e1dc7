-- ===== src/Users/Starts.antt =====
-- src/p3test.c: the free support structures and the user processes that are started from them.
use progetto_so.Base.{
  leave, pos, ℕ, zero, suc, ◌+◌, ◌*◌, ◌^◌, ◌<◌, ◌≤◌, ◌≡◌, refl, ◌≢◌, false, Ptr, sym, ap, ◌∙◌,
  length, ◌==◌, null, has, List, [], ◌∷◌, ◌++◌, Cmd, arith, Run, Returns, returned, Leaves, left,
  Outcome, Returns-Leaves, Returns-and_then, Returns-weaken,
}
use progetto_so.Support.Defs.{Supps, alloc_supp, dealloc_supp}
use progetto_so.Support.Stack.{IsStack, alloc_supp-Popped, dealloc_supp-push}
use mathlib.Core.Path.{subst}
use mathlib.Core.List.{append-nil, append_assoc}
use progetto_so.Base.Control.{embed}
use progetto_so.Pcb.Defs.{ProcState}
use progetto_so.Nucleus.Machine.{Arch}
use progetto_so.Vm.Defs.{init_uproc_pagetable, init_swap_structs}
use progetto_so.Users.Defs.{
  Call, test_phase_3, init_dev_semaphores, wait_for_uprocs, Image, Users, init_supp_stack, in_supps,
  init_uproc, init_uprocs, init_uproc_state, init_uproc_support,
}

-- The table's first `n` entries from `i` on, pushed in turn on a stack.
abbrev pub pushed : Image → ℕ → ℕ → List Ptr → List Ptr
pushed image zero i xs = xs
pushed image (suc n) i xs = pushed image n (i + 1) (image.uproc_supp i ∷ xs)

-- Distinct entries of the table stand at distinct addresses, none of them NULL.
abbrev pub IsTable : Image → Type 0
IsTable image =
    ((i : ℕ) → image.uproc_supp i ≢ null)
    × ((i j : ℕ) → i ≢ j → image.uproc_supp i ≢ image.uproc_supp j)

abbrev Stack : Supps → List Ptr → Type 0
Stack s xs = IsStack s.next_supp s.prev_supp null s.free_supp_tp xs

-- Nothing of the table from `i` on is in the list.
abbrev Fresh : Image → ℕ → List Ptr → Type 0
Fresh image i xs = (j : ℕ) → i ≤ j → has (image.uproc_supp j) xs ≡ false

in_supps-Returns :
    {A : Type 0} {P : A → Supps → Type 0} (m : Cmd Supps A) (s : Users)
    → Returns P (m s.supps)
    → Returns (λ a t. P a t.supps × (t ≡ record s { supps = t.supps })) (in_supps m s)
in_supps-Returns {A} {P} m s h = embedded s h
  where
    embedded :
        {r : Run Supps A} (s : Users)
        → Returns P r
        → Returns
            (λ a t. P a t.supps × (t ≡ record s { supps = t.supps }))
            (embed (λ t. record s { supps = t }) r)
    embedded s (returned p) = returned (p, refl)

-- The calls asked of the nucleus so far.
abbrev SameCalls : Users → Users → Type 0
SameCalls s t = t.calls ≡ s.calls

-- Pushing the table's entries from `i` on, none of which is in the stack.
init_supp_stack-push :
    (image : Image) (n i : ℕ) (xs : List Ptr) (s : Users)
    → IsTable image
    → Fresh image i xs
    → Stack s.supps xs
    → Returns
        (λ _ t. Stack t.supps (pushed image n i xs) × SameCalls s t)
        (init_supp_stack image n i s)
unfolding init_supp_stack
init_supp_stack-push image zero i xs s table fresh stack = returned (stack, refl)
init_supp_stack-push image (suc n) i xs s table fresh stack =
    Returns-and_then
      (in_supps-Returns (dealloc_supp (image.uproc_supp i)) s (
        dealloc_supp-push (image.uproc_supp i) xs s.supps stack (table.0 i)
          (fresh i (omega arith))))
      (λ _ t (stack', same).
        Returns-weaken
          (init_supp_stack-push image n (i + 1) (image.uproc_supp i ∷ xs) t table
            (λ j le. ground (arith, fresh j (omega (arith, le)), table.1 j i (omega (arith, le))))
            stack')
          (λ _ u (stack'', c). (stack'', c ∙ ap (λ v. v.calls) same)))

-- What `initUProcs` asks of the nucleus for the process `asid`: it starts at the first address of
-- the user's segment with the stack at its end, marked with its ASID; its status has the local timer,
-- every interrupt line and interrupts on, and no other bit, so that it is not in user mode.
abbrev pub Starts : Arch → ℕ → ProcState → Type 0
Starts arch asid st =
    (st.pc_epc ≡ 0x800000B0)
    × (st.gpr arch.reg_t9 ≡ 0x800000B0)
    × (st.gpr arch.reg_sp ≡ 0xC0000000)
    × (st.entry_hi ≡ asid * 2 ^ 6)
    × (st.status ≡ 2 ^ 27 + 255 * 2 ^ 8 + 1)

-- One request for each structure, in order, with the ASIDs from `asid` on.
abbrev pub Requests : Arch → ℕ → List Ptr → List Call → Type 0
Requests arch asid [] rs = rs ≡ []
Requests arch asid (p ∷ ps) [] = ⊥
Requests arch asid (p ∷ ps) (Call.passeren_master ∷ rs) = ⊥
Requests arch asid (p ∷ ps) (Call.create_process st supp ∷ rs) =
    (supp ≡ p) × Starts arch asid st × Requests arch (asid + 1) ps rs

init_uproc_run :
    (arch : Arch) (image : Image) (i : ℕ) (supp : Ptr) (s : Users)
    → arch.reg_t9 ≢ arch.reg_sp
    → i + 1 < 2 ^ 6
    → supp ≢ null
    → Returns
        (λ _ t.
          (t.supps ≡ s.supps)
          × (t.calls ≡ s.calls ++ Call.create_process t.uproc_state supp ∷ [])
          × Starts arch (i + 1) t.uproc_state)
        (init_uproc arch image i supp s)
unfolding init_uproc init_uproc_support init_uproc_state init_uproc_pagetable
init_uproc_run arch image i supp s apart bound nonnull =
    let is_real : (supp == null) ≡ false = ground (arith, nonnull) in
    rw (is_real) (
      returned (
        refl,
        refl,
        (ground arith, ground arith, ground (arith, apart), ground (arith, bound), ground arith),
      ))

-- The state after the loop: the structures are off the stack, and each was asked for.
abbrev pub Started : Arch → ℕ → List Ptr → List Ptr → Users → Users → Type 0
Started arch i ps rest s t =
    Stack t.supps rest
    × ((rs : List Call) × (t.calls ≡ s.calls ++ rs) × Requests arch (i + 1) ps rs)

init_uprocs-Started :
    (arch : Arch) (image : Image) (ps rest : List Ptr) (i : ℕ) (s : Users)
    → arch.reg_t9 ≢ arch.reg_sp
    → i + length ps < 2 ^ 6
    → Stack s.supps (ps ++ rest)
    → Returns (λ _ t. Started arch i ps rest s t) (init_uprocs arch image (length ps) i s)
unfolding init_uprocs
init_uprocs-Started arch image [] rest i s apart bound stack =
    returned (stack, ([], sym (append-nil s.calls), refl))
init_uprocs-Started arch image (p ∷ ps) rest i s apart bound stack =
    Returns-and_then
      (in_supps-Returns alloc_supp s (alloc_supp-Popped (p ∷ ps ++ rest) s.supps stack))
      (λ a t ((is_p, stack', _, _), same).
        Returns-and_then
          (init_uproc_run arch image i a t apart (omega (arith, bound))
            (ground (arith, is_p, stack.1)))
          (λ _ u (supps, created, starts).
            Returns-weaken
              (init_uprocs-Started arch image ps rest (i + 1) u apart (omega (arith, bound))
                (subst (λ v. Stack v (ps ++ rest)) (sym supps) stack'))
              (λ _ v (stack'', (rs, more, requests)). (
                stack'',
                (
                  Call.create_process u.uproc_state a ∷ rs,
                  more
                      ∙ ap (λ l. l ++ rs)
                          (created
                            ∙ ap (λ w. w.calls ++ Call.create_process u.uproc_state a ∷ []) same)
                      ∙ append_assoc s.calls (Call.create_process u.uproc_state a ∷ []) rs,
                  (is_p, starts, requests),
                ),
              ))))

abbrev pub waits : ℕ → List Call
waits zero = []
waits (suc n) = Call.passeren_master ∷ waits n

wait_for_uprocs-waits :
    (n : ℕ) (s : Users)
    → Returns (λ _ t. (t.supps ≡ s.supps) × (t.calls ≡ s.calls ++ waits n)) (wait_for_uprocs n s)
unfolding wait_for_uprocs
wait_for_uprocs-waits zero s = returned (refl, sym (append-nil s.calls))
wait_for_uprocs-waits (suc n) s =
    Returns-weaken
      (wait_for_uprocs-waits n (record s { calls = s.calls ++ Call.passeren_master ∷ [] }))
      (λ _ t (supps, more).
        (supps, more ∙ append_assoc s.calls (Call.passeren_master ∷ []) (waits n)))

-- `test_phase_3` asks the nucleus for one process for each entry of `uproc_supp`, the last entry
-- first, with the ASIDs 1 to 8 in order, each starting at the user's first address with a stack and
-- with all interrupts and the local timer on, but not the bit USERPON; no structure stays free; behind
-- all these requests it waits eight times on the master semaphore, and then it ends itself. The hypotheses: the entries are distinct and not NULL, no
-- structure is on the stack at first, and the registers t9 and sp are two.
pub test_phase_3-Started :
    (arch : Arch) (image : Image) (s : Users)
    → IsTable image
    → arch.reg_t9 ≢ arch.reg_sp
    → s.supps.free_supp_tp ≡ null
    → Leaves
        (Outcome.syscall 2)
        (λ t.
          IsStack t.supps.next_supp t.supps.prev_supp null t.supps.free_supp_tp []
          × ((rs : List Call) × (t.calls ≡ s.calls ++ (rs ++ waits 8))
              × Requests arch 1 (pushed image 8 0 []) rs))
        (test_phase_3 arch image s)
unfolding test_phase_3 init_swap_structs init_dev_semaphores
test_phase_3-Started arch image s table apart empty =
    Returns-Leaves (init_supp_stack-push image 8 0 [] _ table (λ _ _. refl) empty)
      (λ _ t (stack, before).
        Returns-Leaves
          (init_uprocs-Started arch image (pushed image 8 0 []) [] 0
            (record t { master_sem = pos 0 }) apart (omega arith) stack)
          (λ _ u (stack', (rs, more, requests)).
            Returns-Leaves {k = λ _. leave (Outcome.syscall 2)} (wait_for_uprocs-waits 8 u)
              (λ _ v (supps, waited). left (
                subst (λ w. Stack w []) (sym supps) stack',
                (
                  rs,
                  waited
                      ∙ ap (λ l. l ++ waits 8) (more ∙ ap (λ l. l ++ rs) before)
                      ∙ append_assoc s.calls rs (waits 8),
                  requests,
                ),
              ))))
