-- ===== src/Pcb/Forest.antt =====
-- The processes below a process of src/pcb.c, as a forest, and the first of its trees taken away.
use progetto_so.Base.{
  ◌≡◌, ◌≢◌, refl, sym, inl, inr, Bool-cases, true, List, [], ◌∷◌, ◌++◌, arith, Ptr, null, has,
  Returns, returned, ◌==◌,
}
use mathlib.Core.Path.{subst}
use progetto_so.Pcb.Defs.{Pcbs, remove_child}
use progetto_so.Pcb.Ring.{has-append}
use progetto_so.Pcb.Frame.{SameAt}
use progetto_so.Pcb.Detach.{remove_run_last, remove_run}

-- The trees of a list of siblings: the first block, those below it, and the siblings behind it.
pub data Forest : Type 0 where
  leafless : Forest
  tree : Ptr → Forest → Forest → Forest

-- The blocks, each behind those below it.
abbrev pub blocks : Forest → List Ptr
blocks leafless = []
blocks (tree x below behind) = blocks below ++ x ∷ blocks behind

-- No sibling stands before the first.
abbrev pub IsFirst : (Ptr → Ptr) → Forest → Type 0
IsFirst pv leafless = Unit {0}
IsFirst pv (tree x below behind) = pv x ≡ null

-- From `q` on, the links to children and siblings lead through the forest.
abbrev pub Grows : (child nx pv : Ptr → Ptr) → Ptr → Forest → Type 0
Grows child nx pv q leafless = q ≡ null
Grows child nx pv q (tree x below behind) =
    (q ≡ x)
    × (x ≢ null)
    × Grows child nx pv (child x) below
    × IsFirst pv below
    × Grows child nx pv (nx x) behind

-- The processes below `p`.
abbrev pub IsBelow : Pcbs → Ptr → Forest → Type 0
IsBelow s p t = Grows s.p_child s.p_next_sib s.p_prev_sib (s.p_child p) t × IsFirst s.p_prev_sib t

module _ (p : Ptr) (below behind : Forest) where
  pub has-below :
      (q : Ptr) → has q (blocks below) ≡ true → has q (blocks (tree p below behind)) ≡ true
  has-below q i = ground (arith, has-append q (blocks below) (p ∷ blocks behind), i)

  pub has-behind :
      (q : Ptr) → has q (blocks behind) ≡ true → has q (blocks (tree p below behind)) ≡ true
  has-behind q i = ground (arith, has-append q (blocks below) (p ∷ blocks behind), i)

  pub has-root : has p (blocks (tree p below behind)) ≡ true
  has-root = ground (arith, has-append p (blocks below) (p ∷ blocks behind))

-- A process with no sibling before it is left without one.
abbrev pub KeepsFirst : (pv pv' : Ptr → Ptr) → Type 0
KeepsFirst pv pv' = (q : Ptr) → pv q ≡ null → pv' q ≡ null

pub IsFirst-frame :
    (pv pv' : Ptr → Ptr) (t : Forest) → KeepsFirst pv pv' → IsFirst pv t → IsFirst pv' t
IsFirst-frame pv pv' leafless keeps h = h
IsFirst-frame pv pv' (tree x below behind) keeps h = keeps x h

module _ (child nx pv child' nx' pv' : Ptr → Ptr) (keeps : KeepsFirst pv pv') where
  -- The forest is the same in another state that has the same links at its blocks.
  pub Grows-frame :
      (q : Ptr) (t : Forest)
      → SameAt (blocks t) child child'
      → SameAt (blocks t) nx nx'
      → Grows child nx pv q t
      → Grows child' nx' pv' q t
  Grows-frame q leafless c n h = h
  Grows-frame q (tree x below behind) c n (e, real, h, first, rest) = (
    e,
    real,
    subst (λ r. Grows child' nx' pv' r below) (sym (c x (has-root x below behind)))
        (Grows-frame (child x) below (λ r i. c r (has-below x below behind r i))
          (λ r i. n r (has-below x below behind r i)) h),
    IsFirst-frame pv pv' below keeps first,
    subst (λ r. Grows child' nx' pv' r behind) (sym (n x (has-root x below behind)))
        (Grows-frame (nx x) behind (λ r i. c r (has-behind x below behind r i))
          (λ r i. n r (has-behind x below behind r i)) rest),
  )

-- Only links of the tree are changed.
abbrev pub OnlyTree : Pcbs → Pcbs → Type 0
OnlyTree s t = t ≡ record s {
  p_prnt = t.p_prnt;
  p_child = t.p_child;
  p_next_sib = t.p_next_sib;
  p_prev_sib = t.p_prev_sib;
}

-- `x` is taken from the children of `p`.
pub record IsCut (s : Pcbs) (p x : Ptr) (t : Pcbs) : Type 0 where
  pub orphan : t.p_prnt x ≡ null
  pub child : t.p_child p ≡ s.p_next_sib x
  pub first : s.p_next_sib x ≢ null → t.p_prev_sib (s.p_next_sib x) ≡ null
  pub children : (q : Ptr) → q ≢ p → t.p_child q ≡ s.p_child q
  pub next : (q : Ptr) → q ≢ x → t.p_next_sib q ≡ s.p_next_sib q
  pub prev : KeepsFirst s.p_prev_sib t.p_prev_sib
  pub tree : OnlyTree s t

-- `removeChild` takes the first child away, whatever the other links are.
pub remove_child-IsCut :
    (p x : Ptr) (s : Pcbs)
    → p ≢ null
    → x ≢ null
    → x ≢ s.p_next_sib x
    → s.p_child p ≡ x
    → s.p_prev_sib x ≡ null
    → Returns (λ r t. (r ≡ x) × IsCut s p x t) (remove_child p s)
remove_child-IsCut p x s hp hx ne e first = elim (Bool-cases (s.p_next_sib x == null)) [
  | inl h ↦
      let last : s.p_next_sib x ≡ null = ground arith in
      rw (remove_run_last p x s hp hx e last first) (
        returned (
          refl,
          record {
            orphan = ground arith;
            child = ground (arith, last);
            first = λ more. absurd (more last);
            children = λ q other. ground arith;
            next = λ q other. refl;
            prev = λ q none. none;
            tree = refl;
          },
        ))
  | inr h ↦ rw (remove_run p x (s.p_next_sib x) s hp hx (ground arith) e refl first) (
      returned (
        refl,
        record {
          orphan = ground arith;
          child = ground arith;
          first = λ more. ground arith;
          children = λ q other. ground arith;
          next = λ q other. ground arith;
          prev = λ q none. ground (arith, none);
          tree = refl;
        },
      ))
]
