-- ===== src/Tests/Trees.antt =====
-- The trees of src/pcb.c: the process 1 with the children 2, 3 and 4.
use progetto_so.Base.{◌≡◌, refl, [], ◌∷◌, arith, null, update, Returns}
use progetto_so.Pcb.Defs.{Pcbs, insert_child, remove_child, out_child}
use progetto_so.Pcb.Tree.{IsChildren, insert_child-append}
use progetto_so.Pcb.Detach.{
  FirstRemoved, remove_child-FirstRemoved, out_child-loses_siblings, out_child-breaks_back_link,
}
use progetto_so.Tests.Queues.{to_null, two}

abbrev family : Pcbs
family = record two {
  p_prnt = update (update (update to_null 2 1) 3 1) 4 1;
  p_child = update to_null 1 2;
  p_next_sib = update (update to_null 2 3) 3 4;
  p_prev_sib = update (update to_null 3 2) 4 3;
}

family-IsChildren : IsChildren family 1 (2 ∷ 3 ∷ 4 ∷ [])
family-IsChildren = ground arith

insert_child-append_example :
    Returns (λ _ t. IsChildren t 1 (2 ∷ 3 ∷ 4 ∷ 5 ∷ [])) (insert_child 1 5 family)
insert_child-append_example =
    insert_child-append 1 5 (2 ∷ 3 ∷ 4 ∷ []) family family-IsChildren (omega arith) (omega arith)
      refl (omega arith)

remove_child-FirstRemoved_example :
    Returns (FirstRemoved family 1 (2 ∷ 3 ∷ 4 ∷ [])) (remove_child 1 family)
remove_child-FirstRemoved_example =
    remove_child-FirstRemoved 1 (2 ∷ 3 ∷ 4 ∷ []) family family-IsChildren (omega arith)

out_child-loses_siblings_example :
    Returns
      (λ r t. (r ≡ 2) × (t.p_child 1 ≡ null) × (t.p_prnt 3 ≡ 1) × (t.p_prnt 2 ≡ null))
      (out_child 2 family)
out_child-loses_siblings_example =
    out_child-loses_siblings 1 2 3 (4 ∷ []) family family-IsChildren (omega arith)

out_child-breaks_back_link_example :
    Returns (λ r t. (r ≡ 3) × (t.p_next_sib 2 ≡ 4) × (t.p_prev_sib 4 ≡ null)) (out_child 3 family)
out_child-breaks_back_link_example =
    out_child-breaks_back_link 1 2 3 4 family (omega arith) (omega arith) (omega arith)
      (omega arith) (omega arith) (omega arith) refl (omega arith) refl refl
