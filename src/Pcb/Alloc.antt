-- ===== src/Pcb/Alloc.antt =====
-- The free list of src/pcb.c, and `allocPcb`.
use mathlib.Core.Path.{subst}
use mathlib.Core.List.{append-nil}
use progetto_so.Base.{
  ◌≡◌, refl, ◌≢◌, false, List, [], ◌∷◌, arith, if◌then◌else◌, ◌==◌, pos, ◌+ℤ◌, Ptr, null, update,
  has, ok, Returns, returned,
}
use progetto_so.Pcb.Defs.{Pcbs, alloc_pcb, unlink_pcb}
use progetto_so.Pcb.Ring.{
  Chain, Distinct, has-append, has-before, Distinct-snoc, Chain-cut, Chain-update_next,
  Chain-update_prev, cut_next, cut_prev,
}

-- The free list is known by its head `h`, NULL when it is empty.
abbrev pub IsFreeList : (nx pv : Ptr → Ptr) → Ptr → List Ptr → Type 0
IsFreeList nx pv h [] = h ≡ null
IsFreeList nx pv h (x ∷ xs) =
    (h ≡ x) × (has null (x ∷ xs) ≡ false) × Distinct (x ∷ xs) × Chain nx pv x xs x

-- What `allocPcb` leaves: a block with clear links, the rest of the free list, one more process.
pub record Allocated (xs : List Ptr) (p : Ptr) (s t : Pcbs) : Type 0 where
  pub free : IsFreeList t.p_next t.p_prev t.pcb_free_h xs
  pub counted : t.process_count ≡ s.process_count +ℤ pos 1
  pub next_clear : t.p_next p ≡ null
  pub prev_clear : t.p_prev p ≡ null
  pub prnt_clear : t.p_prnt p ≡ null
  pub child_clear : t.p_child p ≡ null
  pub next_sib_clear : t.p_next_sib p ≡ null
  pub prev_sib_clear : t.p_prev_sib p ≡ null
  pub support_clear : t.p_support_struct p ≡ null
  pub time_clear : t.p_time p ≡ pos 0
  pub outside_next : (q : Ptr) → has q (p ∷ xs) ≡ false → t.p_next q ≡ s.p_next q
  pub outside_prev : (q : Ptr) → has q (p ∷ xs) ≡ false → t.p_prev q ≡ s.p_prev q
  pub others_prnt : (q : Ptr) → q ≢ p → t.p_prnt q ≡ s.p_prnt q
  pub others_child : (q : Ptr) → q ≢ p → t.p_child q ≡ s.p_child q

abbrev pub alloc_result : Pcbs → Ptr → Ptr → Pcbs
alloc_result s h h' = record s {
  p_next = update (cut_next s.p_next s.p_prev h (s.p_prev h) (s.p_next h)) h null;
  p_prev = update (cut_prev s.p_next s.p_prev h (s.p_prev h) (s.p_next h)) h null;
  p_prnt = update s.p_prnt h null;
  p_child = update s.p_child h null;
  p_next_sib = update s.p_next_sib h null;
  p_prev_sib = update s.p_prev_sib h null;
  p_support_struct = update s.p_support_struct h null;
  p_time = update s.p_time h (pos 0);
  pcb_free_h = h';
  process_count = s.process_count +ℤ pos 1;
}

pub alloc_run :
    (h h' : Ptr) (s : Pcbs)
    → s.pcb_free_h ≡ h
    → (if h == s.p_next h then null else s.p_next h) ≡ h'
    → h ≢ null
    → s.p_next h ≢ null
    → s.p_prev h ≢ null
    → alloc_pcb s ≡ ok h (alloc_result s h h')
unfolding alloc_pcb unlink_pcb
alloc_run h h' s e r hh hn hp = ground arith

-- On an empty free list `allocPcb` answers NULL and changes nothing.
pub alloc_pcb-none : (s : Pcbs) → s.pcb_free_h ≡ null → alloc_pcb s ≡ ok null s
unfolding alloc_pcb
alloc_pcb-none s e = ground arith

-- The ring from the second block on, once the first is out.
pub Chain-alloc :
    (nx pv : Ptr → Ptr) (x y : Ptr) (ys : List Ptr)
    → Distinct (x ∷ y ∷ ys)
    → Chain nx pv x (y ∷ ys) x
    → Chain
        (update (cut_next nx pv x (pv x) (nx x)) x null)
        (update (cut_prev nx pv x (pv x) (nx x)) x null)
        y
        ys
        y
Chain-alloc nx pv x y ys d (c, c', rest) =
    let next' = cut_next nx pv x (pv x) (nx x) in
    let prev' = cut_prev nx pv x (pv x) (nx x) in
    let cut =
      Chain-cut nx pv x (pv x) (nx x) y y ys [] rest (c, c') refl refl
        (ground (arith, has-append y ys (x ∷ [])), Distinct-snoc x ys d.1.1 (ground arith))
        (ground (arith, has-append y ys (x ∷ []))) in
    let whole = subst (λ l. Chain next' prev' y l y) (append-nil ys) cut in
    Chain-update_prev (update next' x null) prev' x null y y ys
      (Chain-update_next next' prev' x null y y ys whole (ground arith)) (ground arith)

pub alloc_one :
    (x : Ptr) (s : Pcbs)
    → IsFreeList s.p_next s.p_prev s.pcb_free_h (x ∷ [])
    → Returns (λ p t. (p ≡ x) × Allocated [] x s t) (alloc_pcb s)
alloc_one x s (e, n, d, (c, c')) =
    rw (alloc_run x null s e (ground arith) (ground arith) (ground arith) (ground arith)) (
      returned (
        refl,
        record {
          free = refl;
          counted = refl;
          next_clear = ground arith;
          prev_clear = ground arith;
          prnt_clear = ground arith;
          child_clear = ground arith;
          next_sib_clear = ground arith;
          prev_sib_clear = ground arith;
          support_clear = ground arith;
          time_clear = ground arith;
          outside_next = λ q o. ground arith;
          outside_prev = λ q o. ground arith;
          others_prnt = λ q o. ground arith;
          others_child = λ q o. ground arith;
        },
      ))

pub alloc_more :
    (x y : Ptr) (ys : List Ptr) (s : Pcbs)
    → IsFreeList s.p_next s.p_prev s.pcb_free_h (x ∷ y ∷ ys)
    → Returns (λ p t. (p ≡ x) × Allocated (y ∷ ys) x s t) (alloc_pcb s)
alloc_more x y ys s (e, n, d, c) =
    let before = has-before s.p_next s.p_prev y x ys c.2 in
    rw (alloc_run x y s e (ground arith) (ground arith) (ground arith) (ground arith)) (
      returned (
        refl,
        record {
          free = (refl, ground arith, d.1, Chain-alloc s.p_next s.p_prev x y ys d c);
          counted = refl;
          next_clear = ground arith;
          prev_clear = ground arith;
          prnt_clear = ground arith;
          child_clear = ground arith;
          next_sib_clear = ground arith;
          prev_sib_clear = ground arith;
          support_clear = ground arith;
          time_clear = ground arith;
          outside_next = λ q o. ground arith;
          outside_prev = λ q o. ground arith;
          others_prnt = λ q o. ground arith;
          others_child = λ q o. ground arith;
        },
      ))

-- `allocPcb` hands out the first free block with its links and accounting cleared, keeps the rest
-- of the free list, and counts one more process.
pub alloc_pcb-Allocated :
    (x : Ptr) (xs : List Ptr) (s : Pcbs)
    → IsFreeList s.p_next s.p_prev s.pcb_free_h (x ∷ xs)
    → Returns (λ p t. (p ≡ x) × Allocated xs x s t) (alloc_pcb s)
alloc_pcb-Allocated x [] s f = alloc_one x s f
alloc_pcb-Allocated x (y ∷ ys) s f = alloc_more x y ys s f
