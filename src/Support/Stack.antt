-- ===== src/Support/Stack.antt =====
-- The free support structures form a stack, linked both ways.
use mathlib.Core.Path.{subst}
use progetto_so.Base.{
  ◌≡◌, refl, ◌≢◌, false, List, [], ◌∷◌, arith, Ptr, null, update, has, ok, Returns, returned,
}
use progetto_so.Support.Defs.{Supps, alloc_supp, dealloc_supp}

-- From `tp` down: each structure points to the one below it and, but for the top, to the one above.
abbrev pub IsStack : (nx pv : Ptr → Ptr) → (above tp : Ptr) → List Ptr → Type 0
IsStack nx pv above tp [] = tp ≡ null
IsStack nx pv above tp (x ∷ xs) =
    (tp ≡ x) × (x ≢ null) × (has x xs ≡ false) × (nx x ≡ above) × IsStack nx pv x (pv x) xs

IsStack-update_next :
    (nx pv : Ptr → Ptr) (q v above tp : Ptr) (xs : List Ptr)
    → IsStack nx pv above tp xs
    → has q xs ≡ false
    → IsStack (update nx q v) pv above tp xs
IsStack-update_next nx pv q v above tp [] h o = h
IsStack-update_next nx pv q v above tp (x ∷ xs) (e, ne, d, up, rest) o =
    (e, ne, d, ground arith, IsStack-update_next nx pv q v x (pv x) xs rest (ground arith))

IsStack-update_prev :
    (nx pv : Ptr → Ptr) (q v above tp : Ptr) (xs : List Ptr)
    → IsStack nx pv above tp xs
    → has q xs ≡ false
    → IsStack nx (update pv q v) above tp xs
IsStack-update_prev nx pv q v above tp [] h o = h
IsStack-update_prev nx pv q v above tp (x ∷ xs) (e, ne, d, up, rest) o = (
  e,
  ne,
  d,
  up,
  subst (λ t. IsStack nx (update pv q v) x t xs) (ground arith)
      (IsStack-update_prev nx pv q v x (pv x) xs rest (ground arith)),
)

alloc_run_last :
    (x : Ptr) (s : Supps)
    → s.free_supp_tp ≡ x
    → x ≢ null
    → s.prev_supp x ≡ null
    → alloc_supp s
      ≡ ok x (record s {
        next_supp = update s.next_supp x null;
        prev_supp = update s.prev_supp x null;
        free_supp_tp = null;
      })
unfolding alloc_supp
alloc_run_last x s e h p = ground arith

alloc_run :
    (x y : Ptr) (s : Supps)
    → s.free_supp_tp ≡ x
    → x ≢ null
    → s.prev_supp x ≡ y
    → y ≢ null
    → alloc_supp s
      ≡ ok x (record s {
        next_supp = update (update s.next_supp y null) x null;
        prev_supp = update s.prev_supp x null;
        free_supp_tp = y;
      })
unfolding alloc_supp
alloc_run x y s e h p g = ground arith

dealloc_run_first :
    (x : Ptr) (s : Supps)
    → s.free_supp_tp ≡ null
    → x ≢ null
    → dealloc_supp x s
      ≡ ok tt (record s {
        next_supp = update s.next_supp x null;
        prev_supp = update s.prev_supp x null;
        free_supp_tp = x;
      })
unfolding dealloc_supp
dealloc_run_first x s e h = ground arith

dealloc_run :
    (x y : Ptr) (s : Supps)
    → s.free_supp_tp ≡ y
    → x ≢ null
    → y ≢ null
    → dealloc_supp x s
      ≡ ok tt (record s {
        next_supp = update (update s.next_supp x null) y x;
        prev_supp = update s.prev_supp x y;
        free_supp_tp = x;
      })
unfolding dealloc_supp
dealloc_run x y s e h g = ground arith

-- What `alloc_supp` answers and leaves, for the free structures from the top down.
abbrev pub Popped : Supps → List Ptr → Ptr → Supps → Type 0
Popped s [] p t = (p ≡ null) × (t ≡ s)
Popped s (x ∷ xs) p t =
    (p ≡ x)
    × IsStack t.next_supp t.prev_supp null t.free_supp_tp xs
    × (t.next_supp x ≡ null)
    × (t.prev_supp x ≡ null)

-- `alloc_supp` pops the structure that was freed last, and clears its links; with none left it
-- answers NULL and changes nothing.
pub alloc_supp-Popped :
    (xs : List Ptr) (s : Supps)
    → IsStack s.next_supp s.prev_supp null s.free_supp_tp xs
    → Returns (Popped s xs) (alloc_supp s)
unfolding alloc_supp
alloc_supp-Popped [] s e = rw e (returned (refl, refl))
alloc_supp-Popped (x ∷ []) s (e, ne, d, up, last) =
    rw (alloc_run_last x s e ne last) (returned (refl, refl, ground arith, ground arith))
alloc_supp-Popped (x ∷ y ∷ ys) s (e, ne, d, up, (e', ne', d', up', rest)) =
    rw (alloc_run x y s e ne e' ne') (
      returned (
        refl,
        (
          refl,
          ne',
          d',
          ground arith,
          subst
              (λ t.
                IsStack (update (update s.next_supp y null) x null) (update s.prev_supp x null) y t
                  ys)
              (ground arith)
              (IsStack-update_prev _ s.prev_supp x null y (s.prev_supp y) ys
                (IsStack-update_next (update s.next_supp y null) s.prev_supp x null y
                  (s.prev_supp y) ys
                  (IsStack-update_next s.next_supp s.prev_supp y null y (s.prev_supp y) ys rest d')
                  (ground arith))
                (ground arith)),
        ),
        ground arith,
        ground arith,
      ))

-- `dealloc_supp` pushes a structure that is not yet free; the top of the stack has none above it.
pub dealloc_supp-push :
    (p : Ptr) (xs : List Ptr) (s : Supps)
    → IsStack s.next_supp s.prev_supp null s.free_supp_tp xs
    → p ≢ null
    → has p xs ≡ false
    → Returns
        (λ _ t. IsStack t.next_supp t.prev_supp null t.free_supp_tp (p ∷ xs))
        (dealloc_supp p s)
dealloc_supp-push p [] s e h out =
    rw (dealloc_run_first p s e h) (returned (refl, h, refl, ground arith, ground arith))
dealloc_supp-push p (y ∷ ys) s (e, ne, d, up, rest) h out = rw (dealloc_run p y s e h ne) (
    returned (
      refl,
      h,
      out,
      ground arith,
      (
        ground arith,
        ne,
        d,
        ground arith,
        subst
            (λ t. IsStack (update (update s.next_supp p null) y p) (update s.prev_supp p y) y t ys)
            (ground arith)
            (IsStack-update_prev _ s.prev_supp p y y (s.prev_supp y) ys
              (IsStack-update_next (update s.next_supp p null) s.prev_supp y p y (s.prev_supp y) ys
                (IsStack-update_next s.next_supp s.prev_supp p null y (s.prev_supp y) ys rest
                  (ground arith))
                d)
              (ground arith)),
      ),
    ))
