-- ===== src/Pcb/Frame.antt =====
-- A queue is the same in another state that has the same links at its blocks.
use progetto_so.Base.{◌≡◌, true, List, [], ◌∷◌, arith, Ptr, has, sym, ◌∙◌, ap, refl, ◌≢◌, null}
use mathlib.Core.Path.{subst}
use progetto_so.Pcb.Ring.{Chain, Distinct, Distinct-snoc, has-append, IsQueue, empty, ring}

abbrev pub SameAt : List Ptr → (f g : Ptr → Ptr) → Type 0
SameAt xs f g = (q : Ptr) → has q xs ≡ true → g q ≡ f q

pub Chain-frame :
    (nx pv nx' pv' : Ptr → Ptr) (a b : Ptr) (xs : List Ptr)
    → SameAt (a ∷ xs) nx nx'
    → SameAt (b ∷ xs) pv pv'
    → Chain nx pv a xs b
    → Chain nx' pv' a xs b
Chain-frame nx pv nx' pv' a b [] h h' c = (h a (ground arith) ∙ c.0, h' b (ground arith) ∙ c.1)
Chain-frame nx pv nx' pv' a b (x ∷ xs) h h' c = (
  h a (ground arith) ∙ c.0,
  h' x (ground arith) ∙ c.1,
  Chain-frame nx pv nx' pv' x b xs (λ q i. h q (ground arith)) (λ q i. h' q (ground arith)) c.2,
)

pub IsQueue-frame :
    (nx pv nx' pv' : Ptr → Ptr) (tp : Ptr) (xs : List Ptr)
    → SameAt xs nx nx'
    → SameAt xs pv pv'
    → IsQueue nx pv tp xs
    → IsQueue nx' pv' tp xs
IsQueue-frame nx pv nx' pv' tp _ h h' (empty e) = empty e
IsQueue-frame nx pv nx' pv' tp xs h h' (ring ys e n d c) = ring ys e n d (
    Chain-frame nx pv nx' pv' tp tp ys
      (λ q i. h q (ap (has q) e ∙ ground (arith, has-append q ys (tp ∷ []))))
      (λ q i. h' q (ap (has q) e ∙ ground (arith, has-append q ys (tp ∷ [])))) c)

pub IsQueue-Distinct :
    (nx pv : Ptr → Ptr) (tp : Ptr) (xs : List Ptr) → IsQueue nx pv tp xs → Distinct xs
IsQueue-Distinct nx pv tp _ (empty e) = tt
IsQueue-Distinct nx pv tp xs (ring ys e n d c) =
    subst (λ l. Distinct l) (sym e) (Distinct-snoc tp ys d.1 d.0)

-- The tail is NULL for the empty queue, and for no other.
pub IsQueue-empty : (nx pv : Ptr → Ptr) (tp : Ptr) → IsQueue nx pv tp [] → tp ≡ null
IsQueue-empty nx pv tp (empty e) = e
IsQueue-empty nx pv tp (ring [] e n d c) = absurd (cc)
IsQueue-empty nx pv tp (ring (y ∷ ys) e n d c) = absurd (cc)

pub IsQueue-ne_null :
    (nx pv : Ptr → Ptr) (tp : Ptr) (xs : List Ptr) → IsQueue nx pv tp xs → xs ≢ [] → tp ≢ null
IsQueue-ne_null nx pv tp _ (empty e) h = absurd (h refl)
IsQueue-ne_null nx pv tp xs (ring ys e n d c) h = ground arith

abbrev pub first_or : Ptr → List Ptr → Ptr
first_or p [] = p
first_or p (x ∷ xs) = x

-- The tail of a queue points to its oldest block.
pub IsQueue-head :
    (nx pv : Ptr → Ptr) (tp y : Ptr) (ys : List Ptr) → IsQueue nx pv tp (y ∷ ys) → nx tp ≡ y
IsQueue-head nx pv tp y ys (ring [] e n d c) = c.0 ∙ sym (ap (first_or tp) e)
IsQueue-head nx pv tp y ys (ring (z ∷ zs) e n d c) = c.0 ∙ sym (ap (first_or tp) e)
