-- ===== src/Tests/Queues.antt =====
-- The queues of src/pcb.c on a table whose blocks 1 and 2 form a ring.
use progetto_so.Base.{◌≡◌, refl, pos, [], ◌∷◌, arith, Ptr, null, update, has, Returns}
use progetto_so.Pcb.Defs.{
  Pcbs, max_proc, init_pcbs, alloc_pcb, insert_proc_q, remove_proc_q, out_proc_q,
}
use progetto_so.Pcb.Ring.{IsQueue, ring}
use progetto_so.Pcb.Queue.{Queued, Dequeued, insert_proc_q-append, remove_proc_q-Dequeued}
use progetto_so.Pcb.Out.{out_proc_q-erase}
use progetto_so.Pcb.Takeout.{TakenOut}
use progetto_so.Pcb.Alloc.{IsFreeList, Allocated, alloc_pcb-Allocated}
use progetto_so.Pcb.Init.{entries_from, init_pcbs-IsFreeList}

abbrev pub to_null : Ptr → Ptr
to_null _ = null

abbrev pub swap_two : Ptr → Ptr
swap_two = update (update to_null 1 2) 2 1

abbrev pub two : Pcbs
two = record {
  p_next = swap_two;
  p_prev = swap_two;
  p_prnt = to_null;
  p_child = to_null;
  p_next_sib = to_null;
  p_prev_sib = to_null;
  p_s =
      λ _. record { gpr = λ _. 0; entry_hi = 0; cause = 0; status = 0; pc_epc = 0; hi = 0; lo = 0 };
  p_time = λ _. pos 0;
  p_sem_add = to_null;
  p_support_struct = to_null;
  pcb_free_h = 1;
  process_count = pos 3;
}

pub two-IsQueue : IsQueue two.p_next two.p_prev 2 (1 ∷ 2 ∷ [])
two-IsQueue = ring (1 ∷ []) refl refl (refl, (refl, tt)) (refl, refl, (refl, refl))

two_free : IsFreeList two.p_next two.p_prev two.pcb_free_h (1 ∷ 2 ∷ [])
two_free = (refl, refl, (refl, (refl, tt)), (refl, refl, (refl, refl)))

insert_proc_q-append_example : Returns (Queued two (1 ∷ 2 ∷ []) 3) (insert_proc_q 2 3 two)
insert_proc_q-append_example =
    insert_proc_q-append 2 3 (1 ∷ 2 ∷ []) two two-IsQueue (omega arith) refl

remove_proc_q-Dequeued_example : Returns (Dequeued two (1 ∷ 2 ∷ [])) (remove_proc_q 2 two)
remove_proc_q-Dequeued_example = remove_proc_q-Dequeued 2 (1 ∷ 2 ∷ []) two two-IsQueue

out_proc_q-erase_example :
    Returns (TakenOut two 2 (1 ∷ 2 ∷ []) 2 (has 2 (1 ∷ 2 ∷ []))) (out_proc_q 2 2 two)
out_proc_q-erase_example = out_proc_q-erase 2 2 (1 ∷ 2 ∷ []) two two-IsQueue (omega arith)

alloc_pcb-Allocated_example : Returns (λ p t. (p ≡ 1) × Allocated (2 ∷ []) 1 two t) (alloc_pcb two)
alloc_pcb-Allocated_example = alloc_pcb-Allocated 1 (2 ∷ []) two two_free

init_pcbs-IsFreeList_example :
    Returns
      (λ _ t. IsFreeList t.p_next t.p_prev t.pcb_free_h (entries_from max_proc 0))
      (init_pcbs two)
init_pcbs-IsFreeList_example = init_pcbs-IsFreeList two
