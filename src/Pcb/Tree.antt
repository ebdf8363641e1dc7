-- ===== src/Pcb/Tree.antt =====
-- The process trees of src/pcb.c: the children of a process as a list.
use mathlib.Core.Path.{subst}
use progetto_so.Base.{
  ℕ, zero, suc, ◌≤◌, ◌<◌, ◌≡◌, refl, ◌≢◌, false, List, [], ◌∷◌, ◌++◌, arith, Ptr, null, update, has,
  length, ok, Returns, returned,
}
use progetto_so.Pcb.Ring.{has-append}
use progetto_so.Pcb.Defs.{Pcbs, max_proc, last_sib, insert_child, empty_child}

-- From `p` on, the siblings `xs` behind `before`, the last of which has no next one.
abbrev pub Siblings : (nx pv pa : Ptr → Ptr) → (prnt before p : Ptr) → List Ptr → Type 0
Siblings nx pv pa prnt before p [] = p ≡ null
Siblings nx pv pa prnt before p (x ∷ xs) =
    (p ≡ x)
    × (x ≢ null)
    × (pa x ≡ prnt)
    × (pv x ≡ before)
    × (has x xs ≡ false)
    × Siblings nx pv pa prnt x (nx x) xs

-- The children of `prnt` are the blocks `xs`, oldest first.
abbrev pub IsChildren : Pcbs → Ptr → List Ptr → Type 0
IsChildren s prnt xs = Siblings s.p_next_sib s.p_prev_sib s.p_prnt prnt null (s.p_child prnt) xs

abbrev pub last_of : Ptr → List Ptr → Ptr
last_of p [] = p
last_of p (x ∷ xs) = last_of x xs

-- The siblings behind a block, with the link to the first of them left out.
pub from_there :
    (nx pv pa : Ptr → Ptr) (prnt before p y : Ptr) (ys : List Ptr)
    → Siblings nx pv pa prnt before p (y ∷ ys)
    → Siblings nx pv pa prnt before y (y ∷ ys)
from_there nx pv pa prnt before p y ys h = (refl, h.1, h.2, h.3, h.4, h.5)

pub last_sib_lem :
    (k : ℕ) (prnt before x : Ptr) (xs : List Ptr) (s : Pcbs)
    → Siblings s.p_next_sib s.p_prev_sib s.p_prnt prnt before x (x ∷ xs)
    → length xs < k
    → last_sib k x s ≡ ok (last_of x xs) s
unfolding last_sib
last_sib_lem zero prnt before x xs s h f = absurd (omega arith)
last_sib_lem (suc k) prnt before x [] s h f = ground arith
last_sib_lem (suc k) prnt before x (y ∷ ys) s (e, ne, pa, pv, d, rest) f =
    ground (arith, last_sib_lem k prnt x y ys s (from_there _ _ _ prnt x _ y ys rest))

pub has-last_of : (x : Ptr) (xs : List Ptr) (q : Ptr) → has q (x ∷ xs) ≡ false → q ≢ last_of x xs
has-last_of x [] q h = ground arith
has-last_of x (y ∷ ys) q h = has-last_of y ys q (ground arith)

pub has-last_of_tail : (x y : Ptr) (ys : List Ptr) → has x (y ∷ ys) ≡ false → x ≢ last_of x (y ∷ ys)
has-last_of_tail x y ys h = has-last_of y ys x h

-- The links after `p` is put behind `last`.
abbrev pub sib_next : (nx : Ptr → Ptr) → Ptr → Ptr → Ptr → Ptr
sib_next nx p last = update (update nx p null) last p

pub Siblings-insert :
    (nx pv pa : Ptr → Ptr) (prnt p before x : Ptr) (xs : List Ptr) (last : Ptr)
    → Siblings nx pv pa prnt before x (x ∷ xs)
    → has p (x ∷ xs) ≡ false
    → p ≢ null
    → last_of x xs ≡ last
    → Siblings
        (sib_next nx p last)
        (update pv p last)
        (update pa p prnt)
        prnt
        before
        x
        (x ∷ xs ++ p ∷ [])
Siblings-insert nx pv pa prnt p before x [] last (e, ne, ea, ep, d, rest) out hp el = (
  refl,
  ne,
  ground arith,
  ground arith,
  ground arith,
  (ground arith, hp, ground arith, ground arith, refl, ground arith),
)
Siblings-insert nx pv pa prnt p before x (y ∷ ys) last (e, ne, ea, ep, d, rest) out hp el =
    let there =
      Siblings-insert nx pv pa prnt p x y ys last (from_there nx pv pa prnt x (nx x) y ys rest)
        (ground arith) hp el in
    let far : x ≢ last = subst (λ l. x ≢ l) el (has-last_of_tail x y ys d) in
    (
      refl,
      ne,
      ground arith,
      ground arith,
      ground (arith, has-append x (y ∷ ys) (p ∷ [])),
      (ground arith, there.1, there.2, there.3, there.4, there.5),
    )

pub insert_run_first :
    (prnt p : Ptr) (s : Pcbs)
    → prnt ≢ null
    → p ≢ null
    → s.p_child prnt ≡ null
    → insert_child prnt p s
      ≡ ok tt (record s {
        p_prnt = update s.p_prnt p prnt;
        p_child = update s.p_child prnt p;
        p_next_sib = update s.p_next_sib p null;
        p_prev_sib = update s.p_prev_sib p null;
      })
unfolding insert_child empty_child
insert_run_first prnt p s h hp e = ground arith

-- The state in which `insertChild` looks for the last sibling.
abbrev pub attached : Pcbs → Ptr → Ptr → Pcbs
attached s prnt p = record s {
  p_prnt = update s.p_prnt p prnt;
  p_next_sib = update s.p_next_sib p null;
}

pub insert_run :
    (prnt p first last : Ptr) (s : Pcbs)
    → prnt ≢ null
    → p ≢ null
    → first ≢ null
    → last ≢ null
    → s.p_child prnt ≡ first
    → last_sib max_proc first (attached s prnt p) ≡ ok last (attached s prnt p)
    → insert_child prnt p s
      ≡ ok tt (record s {
        p_prnt = update s.p_prnt p prnt;
        p_next_sib = sib_next s.p_next_sib p last;
        p_prev_sib = update s.p_prev_sib p last;
      })
unfolding insert_child empty_child
insert_run prnt p first last s h hp hf hl e loop = ground arith

pub Siblings-attached :
    (nx pv pa : Ptr → Ptr) (prnt p before q : Ptr) (xs : List Ptr)
    → Siblings nx pv pa prnt before q xs
    → has p xs ≡ false
    → Siblings (update nx p null) pv (update pa p prnt) prnt before q xs
Siblings-attached nx pv pa prnt p before q [] h out = h
Siblings-attached nx pv pa prnt p before q (x ∷ xs) (e, ne, ea, ep, d, rest) out = (
  e,
  ne,
  ground arith,
  ep,
  d,
  subst (λ t. Siblings (update nx p null) pv (update pa p prnt) prnt x t xs) (ground arith)
      (Siblings-attached nx pv pa prnt p x (nx x) xs rest (ground arith)),
)

pub last_of-ne_null :
    (nx pv pa : Ptr → Ptr) (prnt before q x : Ptr) (xs : List Ptr)
    → Siblings nx pv pa prnt before q (x ∷ xs)
    → last_of x xs ≢ null
last_of-ne_null nx pv pa prnt before q x [] h = h.1
last_of-ne_null nx pv pa prnt before q x (y ∷ ys) h =
    last_of-ne_null nx pv pa prnt x (nx x) y ys h.5

-- `insertChild` makes the block the last child of its new parent.
pub insert_child-append :
    (prnt p : Ptr) (xs : List Ptr) (s : Pcbs)
    → IsChildren s prnt xs
    → prnt ≢ null
    → p ≢ null
    → has p xs ≡ false
    → length xs ≤ max_proc
    → Returns (λ _ t. IsChildren t prnt (xs ++ p ∷ [])) (insert_child prnt p s)
insert_child-append prnt p [] s h hq hp out f =
    rw (insert_run_first prnt p s hq hp h)
      (returned (ground arith, hp, ground arith, ground arith, refl, ground arith))
insert_child-append prnt p (x ∷ xs) s h hq hp out f =
    let at_x = from_there s.p_next_sib s.p_prev_sib s.p_prnt prnt null (s.p_child prnt) x xs h in
    let old =
      Siblings-attached s.p_next_sib s.p_prev_sib s.p_prnt prnt p null x (x ∷ xs) at_x out in
    let new =
      Siblings-insert s.p_next_sib s.p_prev_sib s.p_prnt prnt p null x xs (last_of x xs) at_x out hp
        refl in
    rw
      (insert_run prnt p x (last_of x xs) s hq hp h.1
        (last_of-ne_null s.p_next_sib s.p_prev_sib s.p_prnt prnt null x x xs at_x) h.0
        (last_sib_lem max_proc prnt null x xs (attached s prnt p) old f))
      (returned (h.0, new.1, new.2, new.3, new.4, new.5))
