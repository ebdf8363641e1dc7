-- ===== src/Pcb/Orphan.antt =====
-- What `outChild` of src/pcb.c changes of the tree, wherever the child stands.
use progetto_so.Base.{
  ◌≡◌, ◌≢◌, refl, ap, ◌∙◌, inl, inr, Bool-cases, arith, if◌then◌else◌, Ptr, null, update, ok,
  and_then, Returns, returned, Returns-and_then, ◌==◌,
}
use progetto_so.Pcb.Defs.{Pcbs, unlink_child, out_child}
use progetto_so.Pcb.Forest.{KeepsFirst, OnlyTree}

-- Only links of the child, its neighbours and its parent are changed.
pub record IsOut (s : Pcbs) (p : Ptr) (t : Pcbs) : Type 0 where
  pub child : (q : Ptr) → q ≢ s.p_prnt p → t.p_child q ≡ s.p_child q
  pub next : (q : Ptr) → q ≢ p → q ≢ s.p_prev_sib p → t.p_next_sib q ≡ s.p_next_sib q
  pub prev : KeepsFirst s.p_prev_sib t.p_prev_sib
  pub tree : OnlyTree s t

-- `unlinkChild` changes no child pointer.
record IsUnlinked (s : Pcbs) (p : Ptr) (t : Pcbs) : Type 0 where
  child : t.p_child ≡ s.p_child
  next : (q : Ptr) → q ≢ p → q ≢ s.p_prev_sib p → t.p_next_sib q ≡ s.p_next_sib q
  prev : KeepsFirst s.p_prev_sib t.p_prev_sib
  tree : OnlyTree s t

module _ (p : Ptr) (s : Pcbs) where
  alone_run :
      p ≢ null
      → s.p_prev_sib p ≡ null
      → s.p_next_sib p ≡ null
      → unlink_child p s ≡ ok p (record s { p_prnt = update s.p_prnt p null })
  unfolding unlink_child
  alone_run hp hb ha = ground arith

  first_run :
      (a : Ptr)
      → p ≢ null
      → s.p_prev_sib p ≡ null
      → s.p_next_sib p ≡ a
      → a ≢ null
      → unlink_child p s
        ≡ ok p (record s {
          p_prnt = update s.p_prnt p null;
          p_prev_sib = update s.p_prev_sib a null;
          p_next_sib = update s.p_next_sib p null;
        })
  unfolding unlink_child
  first_run a hp hb ea ha = ground arith

  last_run :
      (b : Ptr)
      → p ≢ null
      → s.p_prev_sib p ≡ b
      → b ≢ null
      → s.p_next_sib p ≡ null
      → unlink_child p s
        ≡ ok p (record s {
          p_prnt = update s.p_prnt p null;
          p_prev_sib = update s.p_prev_sib p null;
          p_next_sib = update s.p_next_sib b null;
        })
  unfolding unlink_child
  last_run b hp eb hb ha = ground arith

  middle_run :
      (b a : Ptr)
      → p ≢ null
      → s.p_prev_sib p ≡ b
      → b ≢ null
      → s.p_next_sib p ≡ a
      → a ≢ null
      → unlink_child p s
        ≡ ok p (record s {
          p_prnt = update s.p_prnt p null;
          p_prev_sib = update (update s.p_prev_sib p null) a null;
          p_next_sib = update (update s.p_next_sib b a) p null;
        })
  unfolding unlink_child
  middle_run b a hp eb hb ea ha = ground arith

  unlink_child-IsUnlinked : p ≢ null → Returns (λ _ t. IsUnlinked s p t) (unlink_child p s)
  unlink_child-IsUnlinked hp = elim (Bool-cases (s.p_prev_sib p == null)) [
    | inl b ↦ elim (Bool-cases (s.p_next_sib p == null)) [
      | inl a ↦ rw (alone_run hp (ground arith) (ground arith)) (
          returned
            (record { child = refl; next = λ q g h. refl; prev = λ q none. none; tree = refl }))
      | inr a ↦ rw (first_run (s.p_next_sib p) hp (ground arith) refl (ground arith)) (
          returned (record {
            child = refl;
            next = λ q g h. ground arith;
            prev = λ q none. ground (arith, none);
            tree = refl;
          }))
    ]
    | inr b ↦ elim (Bool-cases (s.p_next_sib p == null)) [
      | inl a ↦ rw (last_run (s.p_prev_sib p) hp refl (ground arith) (ground arith)) (
          returned (record {
            child = refl;
            next = λ q g h. ground arith;
            prev = λ q none. ground (arith, none);
            tree = refl;
          }))
      | inr a ↦
          rw
            (middle_run (s.p_prev_sib p) (s.p_next_sib p) hp refl (ground arith) refl
              (ground arith))
            (returned (record {
              child = refl;
              next = λ q g h. ground arith;
              prev = λ q none. ground (arith, none);
              tree = refl;
            }))
    ]
  ]

-- The state in which `outChild` calls `unlinkChild`.
abbrev passed_on : Pcbs → Ptr → Pcbs
passed_on s p =
    if s.p_child (s.p_prnt p) == p
    then record s { p_child = update s.p_child (s.p_prnt p) (s.p_prev_sib p) }
    else s

no_parent_run : (p : Ptr) (s : Pcbs) → p ≢ null → s.p_prnt p ≡ null → out_child p s ≡ ok null s
unfolding out_child
no_parent_run p s hp e = ground arith

parent_run :
    (p : Ptr) (s : Pcbs)
    → p ≢ null
    → s.p_prnt p ≢ null
    → out_child p s ≡ and_then (unlink_child p (passed_on s p)) (λ _. ok p)
unfolding out_child
parent_run p s hp e = ground arith

-- `outChild` changes links of the tree only: the first child of the parent, the next siblings of the
-- child and of the one before it, and previous siblings, which become NULL.
pub out_child-IsOut : (p : Ptr) (s : Pcbs) → p ≢ null → Returns (λ _ t. IsOut s p t) (out_child p s)
out_child-IsOut p s hp = elim (Bool-cases (s.p_prnt p == null)) [
  | inl h ↦ rw (no_parent_run p s hp (ground arith)) (
      returned
        (record { child = λ q g. refl; next = λ q g i. refl; prev = λ q none. none; tree = refl }))
  | inr h ↦ rw (parent_run p s hp (ground arith)) (elim (Bool-cases (s.p_child (s.p_prnt p) == p)) [
    | inl g ↦ rw g (
        Returns-and_then
          (unlink_child-IsUnlinked p
            (record s { p_child = update s.p_child (s.p_prnt p) (s.p_prev_sib p) }) hp)
          λ _ t out. returned (record {
            child = λ q ne. ap (λ m. m q) out.child ∙ ground arith;
            next = out.next;
            prev = out.prev;
            tree = out.tree;
          }))
    | inr g ↦ rw g (
        Returns-and_then (unlink_child-IsUnlinked p s hp) λ _ t out. returned (record {
          child = λ q ne. ap (λ m. m q) out.child;
          next = out.next;
          prev = out.prev;
          tree = out.tree;
        }))
  ])
]
