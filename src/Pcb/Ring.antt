-- ===== src/Pcb/Ring.antt =====
-- Doubly linked chains and circular queues, as the links of src/pcb.c form them.
use mathlib.Core.Bool.{or_assoc}
use mathlib.Core.Path.{subst}
use progetto_so.Base.{
  ap, ◌≢◌, ◌≡◌, refl, sym, ◌∙◌, true, false, ◌||◌, List, [], ◌∷◌, ◌++◌, arith, Ptr, null, update,
  has,
}

-- From `a` the links lead through the blocks `xs` to `b`, and back.
abbrev pub Chain : (nx pv : Ptr → Ptr) → Ptr → List Ptr → Ptr → Type 0
Chain nx pv a [] b = (nx a ≡ b) × (pv b ≡ a)
Chain nx pv a (x ∷ xs) b = (nx a ≡ x) × (pv x ≡ a) × Chain nx pv x xs b

abbrev pub Distinct : List Ptr → Type 0
Distinct [] = Unit {0}
Distinct (x ∷ xs) = (has x xs ≡ false) × Distinct xs

pub has-append :
    (q : Ptr) (front back : List Ptr) → has q (front ++ back) ≡ (has q front || has q back)
has-append q [] back = refl
has-append q (head ∷ front) back = rw (has-append q front back, or_assoc)

-- A block that is in a list differs from one that is not.
pub has-ne : (q r : Ptr) (ys : List Ptr) → has q ys ≡ true → has r ys ≡ false → q ≢ r
has-ne q r ys i o = λ same. absurd (ground (arith, i, o, ap (λ v. has v ys) same))

pub out_ne : (q r : Ptr) (ys : List Ptr) → has q ys ≡ false → has r ys ≡ true → q ≢ r
out_ne q r ys o i = λ same. has-ne r q ys i o (sym same)

pub Distinct-append_right : (xs ys : List Ptr) → Distinct (xs ++ ys) → Distinct ys
Distinct-append_right [] ys d = d
Distinct-append_right (x ∷ xs) ys d = Distinct-append_right xs ys d.1

pub Distinct-append_left : (xs ys : List Ptr) → Distinct (xs ++ ys) → Distinct xs
Distinct-append_left [] ys d = tt
Distinct-append_left (x ∷ xs) ys d =
    (ground (arith, has-append x xs ys), Distinct-append_left xs ys d.1)

-- What is in the one part is not in the other.
pub Distinct-append_apart :
    (xs ys : List Ptr) (q : Ptr) → Distinct (xs ++ ys) → has q ys ≡ true → has q xs ≡ false
Distinct-append_apart [] ys q d i = refl
Distinct-append_apart (x ∷ xs) ys q d i =
    ground (arith, has-append x xs ys, Distinct-append_apart xs ys q d.1 i)

-- Appending a block that is not there keeps a list free of repetitions.
pub Distinct-snoc :
    (p : Ptr) (xs : List Ptr) → Distinct xs → has p xs ≡ false → Distinct (xs ++ p ∷ [])
Distinct-snoc p [] d h = (refl, tt)
Distinct-snoc p (x ∷ xs) d h =
    (ground (arith, has-append x xs (p ∷ [])), Distinct-snoc p xs d.1 (ground arith))

module _ (nx pv : Ptr → Ptr) where
  pub Chain-join :
      (a p b : Ptr) (us vs : List Ptr)
      → Chain nx pv a us p
      → Chain nx pv p vs b
      → Chain nx pv a (us ++ p ∷ vs) b
  Chain-join a p b [] vs c d = (c.0, c.1, d)
  Chain-join a p b (u ∷ us) vs c d = (c.0, c.1, Chain-join u p b us vs c.2 d)

  pub Chain-split :
      (a p b : Ptr) (us vs : List Ptr)
      → Chain nx pv a (us ++ p ∷ vs) b
      → Chain nx pv a us p × Chain nx pv p vs b
  Chain-split a p b [] vs c = ((c.0, c.1), c.2)
  Chain-split a p b (u ∷ us) vs c =
      let (first, second) = Chain-split u p b us vs c.2 in ((c.0, c.1, first), second)

  -- A write of a forward link outside the chain leaves it whole.
  pub Chain-update_next :
      (q v a b : Ptr) (xs : List Ptr)
      → Chain nx pv a xs b
      → has q (a ∷ xs) ≡ false
      → Chain (update nx q v) pv a xs b
  Chain-update_next q v a b [] c out = (ground arith, c.1)
  Chain-update_next q v a b (x ∷ xs) c out =
      (ground arith, c.1, Chain-update_next q v x b xs c.2 (ground arith))

  pub Chain-update_prev :
      (q v a b : Ptr) (xs : List Ptr)
      → Chain nx pv a xs b
      → has q (b ∷ xs) ≡ false
      → Chain nx (update pv q v) a xs b
  Chain-update_prev q v a b [] c out = (c.0, ground arith)
  Chain-update_prev q v a b (x ∷ xs) c out =
      (c.0, ground arith, Chain-update_prev q v x b xs c.2 (ground arith))

  -- The block before the end, and the block after the start, stand in the chain.
  pub has-before : (a b : Ptr) (xs : List Ptr) → Chain nx pv a xs b → has (pv b) (a ∷ xs) ≡ true
  has-before a b [] c = ground arith
  has-before a b (x ∷ xs) c = ground (arith, has-before x b xs c.2)

  pub has-after : (a b : Ptr) (xs : List Ptr) → Chain nx pv a xs b → has (nx a) (b ∷ xs) ≡ true
  has-after a b [] c = ground arith
  has-after a b (x ∷ xs) c = ground arith

-- A new start `p`, linked before the first block, takes the place of the old start.
pub Chain-restart :
    (nx pv : Ptr → Ptr) (a p b : Ptr) (xs : List Ptr)
    → Chain nx pv a xs b
    → has p (b ∷ xs) ≡ false
    → has a xs ≡ false
    → Distinct (b ∷ xs)
    → Chain (update nx p (nx a)) (update pv (nx a) p) p xs b
Chain-restart nx pv a p b [] c h₁ h₂ d = ground arith
Chain-restart nx pv a p b (x ∷ xs) (c, c', rest) h₁ h₂ d = (
  ground arith,
  ground arith,
  subst (λ f. Chain (update nx p f) (update pv f p) x xs b) (sym c)
      (Chain-update_prev (update nx p x) pv x p x b xs
        (Chain-update_next nx pv p x x b xs rest (ground arith)) (ground arith)),
)

module _ (nx pv : Ptr → Ptr) (p : Ptr) where
  -- The links after `p` is taken out between `u` and `w`.
  abbrev pub cut_next : Ptr → Ptr → Ptr → Ptr
  cut_next u w = update (update nx u w) p null

  abbrev pub cut_prev : Ptr → Ptr → Ptr → Ptr
  cut_prev u w = update (update pv w u) p null

  -- Taking `p` out of a chain, between the block `u` before it and the block `w` behind it.
  Chain-cut_first :
      (w a b : Ptr) (vs : List Ptr)
      → Chain nx pv p vs b
      → nx p ≡ w
      → has a (p ∷ vs) ≡ false
      → has p (b ∷ vs) ≡ false
      → Distinct (b ∷ vs)
      → Chain (cut_next a w) (cut_prev a w) a vs b
  Chain-cut_first w a b [] c e h₁ h₂ d = ground arith
  Chain-cut_first w a b (v ∷ vs) (c, c', rest) e h₁ h₂ d = (
    ground arith,
    ground arith,
    Chain-update_prev (cut_next a w) (update pv w a) p null v b vs
        (Chain-update_prev (cut_next a w) pv w a v b vs
          (Chain-update_next (update nx a w) pv p null v b vs
            (Chain-update_next nx pv a w v b vs rest (ground arith)) (ground arith))
          (ground arith))
        (ground arith),
  )

  pub Chain-cut :
      (u w a b : Ptr) (us vs : List Ptr)
      → Chain nx pv a us p
      → Chain nx pv p vs b
      → pv p ≡ u
      → nx p ≡ w
      → Distinct (a ∷ us ++ p ∷ vs)
      → has b (us ++ p ∷ vs) ≡ false
      → Chain (cut_next u w) (cut_prev u w) a (us ++ vs) b
  Chain-cut u w a b [] vs (c, c') rest eu ew d h =
      subst (λ t. Chain (cut_next t w) (cut_prev t w) a vs b) (sym c' ∙ eu)
        (Chain-cut_first w a b vs rest ew d.0 (ground arith) (ground arith))
  Chain-cut u w a b (x ∷ us) vs (c, c', first) rest eu ew d h = (
    ground (arith, has-before nx pv x p us first, has-append a us (p ∷ vs)),
    ground (arith, has-after nx pv p b vs rest, has-append x us (p ∷ vs)),
    Chain-cut u w x b us vs first rest eu ew d.1 (ground arith),
  )

-- A queue known by its tail `tp`, NULL when it is empty, holds the blocks `xs`, oldest first.
pub data IsQueue (nx pv : Ptr → Ptr) : Ptr → List Ptr → Type 0 where
  empty : {tp : Ptr} → tp ≡ null → IsQueue nx pv tp []
  ring :
      {tp : Ptr} {xs : List Ptr} (ys : List Ptr)
      → xs ≡ ys ++ tp ∷ []
      → has null (tp ∷ ys) ≡ false
      → Distinct (tp ∷ ys)
      → Chain nx pv tp ys tp
      → IsQueue nx pv tp xs

-- No block of a queue is NULL.
pub IsQueue-no_null :
    (nx pv : Ptr → Ptr) (tp : Ptr) (xs : List Ptr) → IsQueue nx pv tp xs → has null xs ≡ false
IsQueue-no_null nx pv tp _ (empty e) = refl
IsQueue-no_null nx pv tp _ (ring ys e n d c) =
    subst (λ zs. has null zs ≡ false) (sym e) (ground (arith, has-append null ys (tp ∷ [])))
