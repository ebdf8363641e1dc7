-- ===== src/Pcb/Free.antt =====
-- The free list of src/pcb.c: `initPcbs`, `allocPcb`, `freePcb`.
use progetto_so.Base.{
  ◌≡◌, refl, ◌≢◌, false, List, [], ◌∷◌, ◌++◌, arith, pos, ◌-ℤ◌, Ptr, null, update, has, ok, Returns,
  returned,
}
use progetto_so.Pcb.Defs.{Pcbs, free_pcb}
use progetto_so.Pcb.Ring.{
  Chain, Distinct, has-append, has-before, Distinct-snoc, Chain-join, Chain-update_next,
  Chain-update_prev,
}
use progetto_so.Pcb.Alloc.{IsFreeList}

-- What `freePcb` leaves: the block at the end of the free list, one process less.
pub record Freed (xs : List Ptr) (p : Ptr) (s t : Pcbs) : Type 0 where
  pub free : IsFreeList t.p_next t.p_prev t.pcb_free_h (xs ++ p ∷ [])
  pub counted : t.process_count ≡ s.process_count -ℤ pos 1
  pub outside_next : (q : Ptr) → has q (xs ++ p ∷ []) ≡ false → t.p_next q ≡ s.p_next q
  pub outside_prev : (q : Ptr) → has q (xs ++ p ∷ []) ≡ false → t.p_prev q ≡ s.p_prev q
  pub rest : t ≡ record s {
    p_next = t.p_next;
    p_prev = t.p_prev;
    pcb_free_h = t.pcb_free_h;
    process_count = t.process_count;
  }

free_run :
    (h p : Ptr) (s : Pcbs)
    → s.pcb_free_h ≡ h
    → h ≢ null
    → p ≢ null
    → p ≢ h
    → s.p_prev h ≢ null
    → free_pcb p s
      ≡ ok tt (record s {
        p_next = update (update s.p_next p h) (s.p_prev h) p;
        p_prev = update (update s.p_prev p (s.p_prev h)) h p;
        process_count = s.process_count -ℤ pos 1;
      })
unfolding free_pcb
free_run h p s e hh hp ne hv = ground arith

-- A new end `p`, linked behind the last block, takes the place of the old end.
Chain-re_end :
    (nx pv : Ptr → Ptr) (p b last a : Ptr) (xs : List Ptr)
    → Chain nx pv a xs b
    → pv b ≡ last
    → Distinct (a ∷ xs)
    → has p (a ∷ xs) ≡ false
    → Chain (update nx last p) (update pv p last) a xs p
Chain-re_end nx pv p b last a [] c e d h = ground arith
Chain-re_end nx pv p b last a (x ∷ xs) (c, c', rest) e d h = (
  ground (arith, has-before nx pv x b xs rest),
  ground arith,
  Chain-re_end nx pv p b last x xs rest e d.1 (ground arith),
)

Chain-free :
    (nx pv : Ptr → Ptr) (h p : Ptr) (ys : List Ptr)
    → Chain nx pv h ys h
    → Distinct (h ∷ ys)
    → has p (h ∷ ys) ≡ false
    → Chain (update (update nx p h) (pv h) p) (update (update pv p (pv h)) h p) h (ys ++ p ∷ []) h
Chain-free nx pv h p ys c d out =
    let next' = update (update nx p h) (pv h) p in
    let prev' = update pv p (pv h) in
    let before = has-before nx pv h h ys c in
    let opened =
      Chain-re_end (update nx p h) pv p h (pv h) h ys (Chain-update_next nx pv p h h h ys c out)
        refl d out in
    Chain-join next' (update prev' h p) h p h ys []
      (Chain-update_prev next' prev' h p h p ys opened (ground arith)) (ground arith, ground arith)

free_run_empty :
    (p : Ptr) (s : Pcbs)
    → s.pcb_free_h ≡ null
    → p ≢ null
    → free_pcb p s
      ≡ ok tt (record s {
        p_next = update s.p_next p p;
        p_prev = update s.p_prev p p;
        pcb_free_h = p;
        process_count = s.process_count -ℤ pos 1;
      })
unfolding free_pcb
free_run_empty p s e h = ground arith

-- `freePcb` puts a block behind the end of the free list, and counts one process less.
pub free_pcb-Freed :
    (p : Ptr) (xs : List Ptr) (s : Pcbs)
    → IsFreeList s.p_next s.p_prev s.pcb_free_h xs
    → p ≢ null
    → has p xs ≡ false
    → Returns (λ _ t. Freed xs p s t) (free_pcb p s)
free_pcb-Freed p [] s e hp out = rw (free_run_empty p s e hp) (
    returned (record {
      free = (refl, ground arith, (refl, tt), (ground arith, ground arith));
      counted = refl;
      outside_next = λ q o. ground arith;
      outside_prev = λ q o. ground arith;
      rest = refl;
    }))
free_pcb-Freed p (x ∷ ys) s (e, n, d, c) hp out =
    let before = has-before s.p_next s.p_prev x x ys c in
    rw (free_run x p s e (ground arith) hp (ground arith) (ground arith)) (
      returned (record {
        free = (
          e,
          ground (arith, has-append null ys (p ∷ [])),
          (ground (arith, has-append x ys (p ∷ [])), Distinct-snoc p ys d.1 (ground arith)),
          Chain-free s.p_next s.p_prev x p ys c d out,
        );
        counted = refl;
        outside_next = λ q o. ground (arith, has-append q ys (p ∷ []));
        outside_prev = λ q o. ground (arith, has-append q ys (p ∷ []));
        rest = refl;
      }))
