-- ===== src/Pcb/Out.antt =====
-- `outProcQ` of src/pcb.c: a block taken out of the middle of a queue.
use mathlib.Core.Path.{subst, sym}
use progetto_so.Base.{
  ℕ, suc, ◌≤◌, ◌<◌, ◌≡◌, refl, ◌≢◌, inl, inr, true, false, List, [], ◌∷◌, ◌++◌, arith,
  if◌then◌else◌, ◌==◌, Bool-cases, Ptr, null, has, length, length-append, ok, Returns, returned, ap,
  ◌∙◌,
}
use progetto_so.Pcb.Defs.{Pcbs, out_loop, out_proc_q, unlink_pcb, max_proc}
use progetto_so.Pcb.Ring.{Chain, Distinct, has-append, IsQueue, empty, ring}
use progetto_so.Pcb.Erase.{has-split, snoc-cases, erase_self, has-snoc}
use progetto_so.Pcb.Takeout.{
  out_loop_lem, TakenOut, out_run_tail, out_run_none, out_tail, out_middle,
}

out_run_empty : (tp p : Ptr) (s : Pcbs) → tp ≡ null → out_proc_q tp p s ≡ ok (null, tp) s
unfolding out_proc_q
out_run_empty tp p s e = ground arith

out_loop_self :
    (k : ℕ) (tp p : Ptr) (s : Pcbs)
    → tp ≢ null
    → p ≢ tp
    → s.p_next tp ≡ tp
    → out_loop (suc k) tp p tp s ≡ ok null s
unfolding out_loop
out_loop_self k tp p s h ne e = ground arith

out_loop_ring :
    (tp p : Ptr) (ys : List Ptr) (s : Pcbs)
    → p ≢ tp
    → has null (tp ∷ ys) ≡ false
    → Distinct (tp ∷ ys)
    → Chain s.p_next s.p_prev tp ys tp
    → length ys < max_proc
    → out_loop max_proc tp p (s.p_next tp) s ≡ (if has p ys then unlink_pcb p s else ok null s)
out_loop_ring tp p [] s ne n d (c, c') f =
    subst (λ q. out_loop max_proc tp p q s ≡ ok null s) (sym c)
      (out_loop_self 39 tp p s (ground arith) ne c)
out_loop_ring tp p (y ∷ ys) s ne n d (c, c', rest) f =
    subst (λ q. out_loop max_proc tp p q s ≡ (if has p (y ∷ ys) then unlink_pcb p s else ok null s))
      (sym c) (out_loop_lem max_proc tp p y ys s rest (omega arith) (ground arith) (ground arith))

-- The tail, alone in its queue.
out_alone :
    (tp : Ptr) (s : Pcbs)
    → tp ≢ null
    → s.p_next tp ≡ tp
    → s.p_prev tp ≡ tp
    → Returns (TakenOut s tp (tp ∷ []) tp true) (out_proc_q tp tp s)
out_alone tp s h e e' =
    rw (out_run_tail tp tp null s (ground arith) h refl (ground arith) (ground arith)) (
      returned (
        refl,
        rw (erase_self tp) (empty refl),
        record {
          outside_next = λ q o. ground arith;
          outside_prev = λ q o. ground arith;
          rest = refl;
        },
        ground arith,
        ground arith,
      ))

out_ring_tail :
    (tp : Ptr) (ys : List Ptr) (s : Pcbs)
    → has null (tp ∷ ys) ≡ false
    → Distinct (tp ∷ ys)
    → Chain s.p_next s.p_prev tp ys tp
    → Returns (TakenOut s tp (ys ++ tp ∷ []) tp true) (out_proc_q tp tp s)
out_ring_tail tp ys s = elim (snoc-cases ys) [
  | inl e ↦ subst Claim (sym e) (λ n d (c, c'). out_alone tp s (ground arith) c c')
  | inr (zs, z, e) ↦ subst Claim (sym e) (λ n d c. out_tail tp z zs s n d c)
]
  where
    Claim : List Ptr → Type 0
    Claim ls =
        has null (tp ∷ ls) ≡ false
        → Distinct (tp ∷ ls)
        → Chain s.p_next s.p_prev tp ls tp
        → Returns (TakenOut s tp (ls ++ tp ∷ []) tp true) (out_proc_q tp tp s)

out_ring_middle :
    (tp p : Ptr) (ys : List Ptr) (s : Pcbs)
    → has p ys ≡ true
    → out_loop max_proc tp p (s.p_next tp) s ≡ unlink_pcb p s
    → has null (tp ∷ ys) ≡ false
    → Distinct (tp ∷ ys)
    → Chain s.p_next s.p_prev tp ys tp
    → Returns (TakenOut s tp (ys ++ tp ∷ []) p true) (out_proc_q tp p s)
out_ring_middle tp p ys s h loop =
    let (us, vs, e) = has-split p ys h in
    subst Claim (sym e) (λ n d c. out_middle tp p us vs s n d c loop)
  where
    Claim : List Ptr → Type 0
    Claim ls =
        has null (tp ∷ ls) ≡ false
        → Distinct (tp ∷ ls)
        → Chain s.p_next s.p_prev tp ls tp
        → Returns (TakenOut s tp (ls ++ tp ∷ []) p true) (out_proc_q tp p s)

-- Whichever block of the ring is asked for, or none of it.
out_ring :
    (tp p : Ptr) (ys : List Ptr) (s : Pcbs)
    → has null (tp ∷ ys) ≡ false
    → Distinct (tp ∷ ys)
    → Chain s.p_next s.p_prev tp ys tp
    → length ys < max_proc
    → Returns (TakenOut s tp (ys ++ tp ∷ []) p (has p (ys ++ tp ∷ []))) (out_proc_q tp p s)
out_ring tp p ys s n d c f = elim (Bool-cases (p == tp)) [
  | inl e ↦
      let same : p ≡ tp = ground arith in
      subst
        (λ q. Returns (TakenOut s tp (ys ++ tp ∷ []) q (has q (ys ++ tp ∷ []))) (out_proc_q tp q s))
        (sym same)
        (subst (λ b. Returns (TakenOut s tp (ys ++ tp ∷ []) tp b) (out_proc_q tp tp s))
          (sym (has-snoc tp ys)) (out_ring_tail tp ys s n d c))
  | inr ne ↦ elim (Bool-cases (has p ys)) [
    | inl h ↦
        subst (λ b. Returns (TakenOut s tp (ys ++ tp ∷ []) p b) (out_proc_q tp p s))
          (sym (has_member h))
          (out_ring_middle tp p ys s h (out_loop_ring tp p ys s (ground arith) n d c f ∙ rw h) n d
            c)
    | inr h ↦
        subst (λ b. Returns (TakenOut s tp (ys ++ tp ∷ []) p b) (out_proc_q tp p s))
          (sym (has_neither h ne))
          (rw
            (out_run_none tp p s (ground arith) (ground arith)
              (out_loop_ring tp p ys s (ground arith) n d c f ∙ rw h))
            (returned (refl, refl, refl)))
  ]
]
  where
    has_member : has p ys ≡ true → has p (ys ++ tp ∷ []) ≡ true
    has_member h = ground (arith, has-append p ys (tp ∷ []))

    has_neither : has p ys ≡ false → (p == tp) ≡ false → has p (ys ++ tp ∷ []) ≡ false
    has_neither h g = ground (arith, has-append p ys (tp ∷ []))

-- `outProcQ` takes a block out of the queue wherever it stands and clears its links; if it is not
-- in the queue, the function answers NULL and changes nothing. The queue holds at most the 40
-- blocks of the table.
pub out_proc_q-erase :
    (tp p : Ptr) (xs : List Ptr) (s : Pcbs)
    → IsQueue s.p_next s.p_prev tp xs
    → length xs ≤ max_proc
    → Returns (TakenOut s tp xs p (has p xs)) (out_proc_q tp p s)
out_proc_q-erase tp p _ s (empty e) f = rw (out_run_empty tp p s e) (returned (refl, refl, refl))
out_proc_q-erase tp p _ s (ring {xs} ys e n d c) f =
    subst (λ zs. Returns (TakenOut s tp zs p (has p zs)) (out_proc_q tp p s)) (sym e)
      (out_ring tp p ys s n d c (omega (arith, ap (length {0}) e, length-append ys (tp ∷ []))))
