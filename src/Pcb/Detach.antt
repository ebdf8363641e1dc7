-- ===== src/Pcb/Detach.antt =====
-- Children taken from their parent: `removeChild` and `outChild` of src/pcb.c.
use mathlib.Core.Path.{subst}
use progetto_so.Base.{
  ◌≡◌, refl, ◌≢◌, false, List, [], ◌∷◌, arith, Ptr, null, update, has, ok, Returns, returned,
}
use progetto_so.Pcb.Defs.{Pcbs, remove_child, out_child}
use progetto_so.Pcb.Tree.{Siblings, IsChildren}

-- What `removeChild` answers and leaves.
abbrev pub FirstRemoved : Pcbs → Ptr → List Ptr → Ptr → Pcbs → Type 0
FirstRemoved s prnt [] r t = (r ≡ null) × (t ≡ s)
FirstRemoved s prnt (x ∷ xs) r t =
    (r ≡ x)
    × IsChildren t prnt xs
    × (t.p_prnt x ≡ null)
    × (t.p_next_sib x ≡ null)
    × (t.p_prev_sib x ≡ null)

pub remove_run_last :
    (prnt x : Ptr) (s : Pcbs)
    → prnt ≢ null
    → x ≢ null
    → s.p_child prnt ≡ x
    → s.p_next_sib x ≡ null
    → s.p_prev_sib x ≡ null
    → remove_child prnt s
      ≡ ok x (record s { p_child = update s.p_child prnt null; p_prnt = update s.p_prnt x null })
unfolding remove_child
remove_run_last prnt x s hq hx e en ep = ground arith

pub remove_run :
    (prnt x y : Ptr) (s : Pcbs)
    → prnt ≢ null
    → x ≢ null
    → y ≢ null
    → s.p_child prnt ≡ x
    → s.p_next_sib x ≡ y
    → s.p_prev_sib x ≡ null
    → remove_child prnt s
      ≡ ok x (record s {
        p_child = update s.p_child prnt y;
        p_prnt = update s.p_prnt x null;
        p_prev_sib = update s.p_prev_sib y null;
        p_next_sib = update s.p_next_sib x null;
      })
unfolding remove_child
remove_run prnt x y s hq hx hy e en ep = ground arith

Siblings-detached :
    (nx pv pa : Ptr → Ptr) (prnt p b before q : Ptr) (xs : List Ptr)
    → Siblings nx pv pa prnt before q xs
    → has p xs ≡ false
    → has b xs ≡ false
    → Siblings (update nx p null) (update pv b null) (update pa p null) prnt before q xs
Siblings-detached nx pv pa prnt p b before q [] h out off = h
Siblings-detached nx pv pa prnt p b before q (x ∷ xs) (e, ne, ea, ep, d, rest) out off = (
  e,
  ne,
  ground arith,
  ground arith,
  d,
  subst (λ t. Siblings (update nx p null) (update pv b null) (update pa p null) prnt x t xs)
      (ground arith)
      (Siblings-detached nx pv pa prnt p b x (nx x) xs rest (ground arith) (ground arith)),
)

-- `removeChild` takes the first child away and leaves the others in order; with no child it
-- answers NULL and changes nothing.
pub remove_child-FirstRemoved :
    (prnt : Ptr) (xs : List Ptr) (s : Pcbs)
    → IsChildren s prnt xs
    → prnt ≢ null
    → Returns (FirstRemoved s prnt xs) (remove_child prnt s)
unfolding remove_child
remove_child-FirstRemoved prnt [] s h hq = rw (none_run h hq) (returned (refl, refl))
  where
    none_run : s.p_child prnt ≡ null → prnt ≢ null → remove_child prnt s ≡ ok null s
    none_run e g = ground arith
remove_child-FirstRemoved prnt (x ∷ []) s (e, ne, ea, ep, d, last) hq =
    rw (remove_run_last prnt x s hq ne e last ep)
      (returned (refl, ground arith, ground arith, last, ep))
remove_child-FirstRemoved prnt (x ∷ y ∷ ys) s (e, ne, ea, ep, d, (e', ne', ea', ep', d', rest)) hq =
    rw (remove_run prnt x y s hq ne ne' e e' ep) (
      returned (
        refl,
        (
          ground arith,
          ne',
          ground arith,
          ground arith,
          d',
          subst
              (λ t.
                Siblings (update s.p_next_sib x null) (update s.p_prev_sib y null)
                  (update s.p_prnt x null) prnt y t ys)
              (ground arith)
              (Siblings-detached s.p_next_sib s.p_prev_sib s.p_prnt prnt x y y (s.p_next_sib y) ys
                rest (ground arith) d'),
        ),
        ground arith,
        ground arith,
        ground arith,
      ))

-- `outChild` of the first of several children: the parent is left with no child at all, while the
-- second child still names it as its parent. The other children can no longer be reached.
pub out_child-loses_siblings :
    (prnt x y : Ptr) (ys : List Ptr) (s : Pcbs)
    → IsChildren s prnt (x ∷ y ∷ ys)
    → prnt ≢ null
    → Returns
        (λ r t. (r ≡ x) × (t.p_child prnt ≡ null) × (t.p_prnt y ≡ prnt) × (t.p_prnt x ≡ null))
        (out_child x s)
unfolding out_child
out_child-loses_siblings prnt x y ys s (e, ne, ea, ep, d, (e', ne', ea', ep', d', rest)) hq =
    rw first_run (returned (refl, ground arith, ground arith, ground arith))
  where
    first_run :
        out_child x s
        ≡ ok x (record s {
          p_child = update s.p_child prnt null;
          p_prnt = update s.p_prnt x null;
          p_prev_sib = update s.p_prev_sib y null;
          p_next_sib = update s.p_next_sib x null;
        })
    first_run = ground arith

-- `outChild` of a child with neighbours on both sides: the next one is left with no previous
-- sibling, though the one before still stands in the list and points to it.
pub out_child-breaks_back_link :
    (prnt u x y : Ptr) (s : Pcbs)
    → prnt ≢ null
    → u ≢ null
    → x ≢ null
    → y ≢ null
    → u ≢ x
    → x ≢ y
    → s.p_prnt x ≡ prnt
    → s.p_child prnt ≢ x
    → s.p_prev_sib x ≡ u
    → s.p_next_sib x ≡ y
    → Returns (λ r t. (r ≡ x) × (t.p_next_sib u ≡ y) × (t.p_prev_sib y ≡ null)) (out_child x s)
unfolding out_child
out_child-breaks_back_link prnt u x y s hq hu hx hy ux xy ea nf ep en =
    rw middle_run (returned (refl, ground arith, ground arith))
  where
    middle_run :
        out_child x s
        ≡ ok x (record s {
          p_prnt = update s.p_prnt x null;
          p_prev_sib = update (update s.p_prev_sib x null) y null;
          p_next_sib = update (update s.p_next_sib u y) x null;
        })
    middle_run = ground arith
