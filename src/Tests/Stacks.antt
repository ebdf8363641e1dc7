-- ===== src/Tests/Stacks.antt =====
-- src/initSupp.c with the structures 1 and 2 free, 2 on top.
use progetto_so.Base.{[], ◌∷◌, arith, null, update, Returns}
use progetto_so.Support.Defs.{Supps, alloc_supp}
use progetto_so.Support.Stack.{IsStack, Popped, alloc_supp-Popped}

abbrev pub pair : Supps
pair = record {
  next_supp = update (λ _. null) 1 2;
  prev_supp = update (λ _. null) 2 1;
  free_supp_tp = 2;
}

pub pair-IsStack : IsStack pair.next_supp pair.prev_supp null pair.free_supp_tp (2 ∷ 1 ∷ [])
pair-IsStack = ground arith

alloc_supp-Popped_example : Returns (Popped pair (2 ∷ 1 ∷ [])) (alloc_supp pair)
alloc_supp-Popped_example = alloc_supp-Popped (2 ∷ 1 ∷ []) pair pair-IsStack
