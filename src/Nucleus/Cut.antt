-- ===== src/Nucleus/Cut.antt =====
-- A child is cut from its parent by `removeChild` of src/pcb.c, and ends with all below it.
use progetto_so.Base.{
  ◌≡◌, ◌≢◌, ap, ◌∙◌, sym, true, false, List, [], ◌∷◌, ◌++◌, arith, Ptr, null, has,
}
use mathlib.Core.Path.{subst}
use mathlib.Core.List.{append_assoc}
use progetto_so.Pcb.Defs.{Pcbs}
use progetto_so.Pcb.Ring.{has-append, has-ne, out_ne}
use progetto_so.Pcb.Forest.{
  Forest, leafless, tree, blocks, Grows, IsFirst, IsBelow, Grows-frame, IsFirst-frame, has-root,
  has-below, has-behind, IsCut,
}
use progetto_so.Nucleus.Machine.{Kernel}
use progetto_so.Nucleus.Switch.{procs}
use progetto_so.Nucleus.After.{withouts, erases, After, After-append, After-weaken, treed}
use progetto_so.Nucleus.Subtree.{After-cut}

-- The sibling behind a block is another one.
pub ne_next :
    (child nx pv : Ptr → Ptr) (x q : Ptr) (behind : Forest)
    → Grows child nx pv q behind
    → x ≢ null
    → has x (blocks behind) ≡ false
    → x ≢ q
ne_next child nx pv x q leafless none real out = ground arith
ne_next child nx pv x q (tree y below behind) (e, real_y, h, first, rest) real out =
    λ same. absurd (ground (arith, has-root y below behind, out, same ∙ e))

-- With the first child away, the next one is the first.
next_IsFirst :
    (s v : Pcbs) (p x : Ptr) (behind : Forest)
    → IsCut s p x v
    → Grows s.p_child s.p_next_sib s.p_prev_sib (s.p_next_sib x) behind
    → IsFirst v.p_prev_sib behind
next_IsFirst s v p x leafless cut h = tt
next_IsFirst s v p x (tree y below behind) cut (e, real, h, first, rest) =
    ap v.p_prev_sib (sym e) ∙ cut.first (λ none. real (sym e ∙ none))

module _ (k : Kernel) (v : Pcbs) (p x : Ptr) (below behind : Forest) where
  -- The child keeps what stands below it.
  pub cut_below :
      IsCut (procs k) p x v
      → Grows
          (procs k).p_child
          (procs k).p_next_sib
          (procs k).p_prev_sib
          ((procs k).p_child x)
          below
      → IsFirst (procs k).p_prev_sib below
      → has p (blocks (tree x below behind)) ≡ false
      → has x (blocks below) ≡ false
      → IsBelow v x below
  cut_below cut h first out apart = (
    subst (λ q. Grows v.p_child v.p_next_sib v.p_prev_sib q below)
        (sym (
          cut.children x (has-ne x p (blocks (tree x below behind)) (has-root x below behind) out)))
        (Grows-frame (procs k).p_child (procs k).p_next_sib (procs k).p_prev_sib v.p_child
          v.p_next_sib v.p_prev_sib cut.prev ((procs k).p_child x) below
          (λ q i.
            cut.children q
              (has-ne q p (blocks (tree x below behind)) (has-below x below behind q i) out))
          (λ q i. cut.next q (has-ne q x (blocks below) i apart)) h),
    IsFirst-frame (procs k).p_prev_sib v.p_prev_sib below cut.prev first,
  )

  -- The siblings behind it are the children that are left.
  pub cut_behind :
      (f : Ptr → List Ptr) (xs fs ps : List Ptr) (t : Kernel)
      → IsCut (procs k) p x v
      → After (treed k v) f xs fs ps (x ∷ blocks below) t
      → Grows
          (procs k).p_child
          (procs k).p_next_sib
          (procs k).p_prev_sib
          ((procs k).p_next_sib x)
          behind
      → has p (blocks (tree x below behind)) ≡ false
      → ((q : Ptr) → has q (blocks behind) ≡ true → has q (x ∷ blocks below) ≡ false)
      → IsBelow (procs t) p behind
  cut_behind f xs fs ps t cut after h out apart = (
    subst (λ q. Grows (procs t).p_child (procs t).p_next_sib (procs t).p_prev_sib q behind)
        (sym (
          after.child p (ground (arith, has-append p (blocks below) (x ∷ blocks behind), out))
          ∙ cut.child))
        (Grows-frame (procs k).p_child (procs k).p_next_sib (procs k).p_prev_sib (procs t).p_child
          (procs t).p_next_sib (procs t).p_prev_sib (λ q none. after.first q (cut.prev q none))
          ((procs k).p_next_sib x) behind
          (λ q i.
            after.child q (apart q i)
            ∙ cut.children q
                (has-ne q p (blocks (tree x below behind)) (has-behind x below behind q i) out))
          (λ q i.
            after.next q (apart q i)
            ∙ cut.next q (out_ne q x (x ∷ blocks below) (apart q i) (ground arith)))
          h),
    IsFirst-frame v.p_prev_sib (procs t).p_prev_sib behind after.first
        (next_IsFirst (procs k) v p x behind cut h),
  )

  -- One child ends with all below it, and then the others.
  pub one_After :
      (f : Ptr → List Ptr) (xs fs : List Ptr) (t u : Kernel)
      → IsCut (procs k) p x v
      → After (treed k v) f xs fs (blocks below ++ x ∷ []) (x ∷ blocks below) t
      → After t
          (withouts (blocks below ++ x ∷ []) f)
          (erases (blocks below ++ x ∷ []) xs)
          (fs ++ (blocks below ++ x ∷ []))
          (blocks behind)
          (p ∷ blocks behind)
          u
      → After k f xs fs (blocks (tree x below behind)) (p ∷ blocks (tree x below behind)) u
  one_After f xs fs t u cut a b =
      let all = blocks (tree x below behind) in
      let hs = (x ∷ blocks below) ++ p ∷ blocks behind in
      After-weaken k u f xs fs all (p ∷ x ∷ hs) (p ∷ all)
        (λ q o. ground (
          arith,
          has-append q (blocks below) (x ∷ blocks behind),
          has-append q (blocks below) (p ∷ blocks behind),
          o,
        ))
        (After-cut k v f xs fs all hs p x u cut (
          subst (λ l. After (treed k v) f xs fs l hs u)
            (append_assoc (blocks below) (x ∷ []) (blocks behind))
            (After-append (treed k v) t f xs fs (blocks below ++ x ∷ []) (x ∷ blocks below)
              (blocks behind) (p ∷ blocks behind) u a b)))
