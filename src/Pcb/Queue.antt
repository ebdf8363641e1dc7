-- ===== src/Pcb/Queue.antt =====
-- The process queues of src/pcb.c as lists of blocks.
use mathlib.Core.Path.{subst, sym}
use progetto_so.Base.{
  ◌≡◌, refl, ◌≢◌, false, List, [], ◌∷◌, ◌++◌, arith, if◌then◌else◌, ◌==◌, Ptr, null, update, has,
  ok, Returns, returned,
}
use progetto_so.Pcb.Defs.{Pcbs, insert_proc_q, remove_proc_q, unlink_pcb}
use progetto_so.Pcb.Ring.{
  Chain, Distinct, has-append, has-after, Distinct-snoc, Chain-join, Chain-cut, Chain-restart,
  Chain-update_next, Chain-update_prev, IsQueue, empty, ring, cut_next, cut_prev,
}

-- What an operation on the queue of the blocks `xs` leaves alone: every link of the other blocks,
-- and every field but the two links.
pub record OnlyLinks (xs : List Ptr) (s t : Pcbs) : Type 0 where
  pub outside_next : (q : Ptr) → has q xs ≡ false → t.p_next q ≡ s.p_next q
  pub outside_prev : (q : Ptr) → has q xs ≡ false → t.p_prev q ≡ s.p_prev q
  pub rest : t ≡ record s { p_next = t.p_next; p_prev = t.p_prev }

insert_run :
    (tp p : Ptr) (s : Pcbs)
    → tp ≢ null
    → p ≢ null
    → p ≢ tp
    → s.p_next tp ≢ null
    → insert_proc_q tp p s
      ≡ ok p (record s {
        p_next = update (update s.p_next p (s.p_next tp)) tp p;
        p_prev = update (update s.p_prev p tp) (s.p_next tp) p;
      })
unfolding insert_proc_q
insert_run tp p s h₁ h₂ h₃ h₄ = ground arith

-- Where `unlinkPCB` finds both neighbours, it joins them and clears the links of the block.
pub unlink_run :
    (p : Ptr) (s : Pcbs)
    → p ≢ null
    → s.p_next p ≢ null
    → s.p_prev p ≢ null
    → unlink_pcb p s
      ≡ ok p (record s {
        p_next = cut_next s.p_next s.p_prev p (s.p_prev p) (s.p_next p);
        p_prev = cut_prev s.p_next s.p_prev p (s.p_prev p) (s.p_next p);
      })
unfolding unlink_pcb
unlink_run p s h₁ h₂ h₃ = ground arith

insert_run_empty :
    (tp p : Ptr) (s : Pcbs)
    → tp ≡ null
    → p ≢ null
    → insert_proc_q tp p s
      ≡ ok p (record s { p_next = update s.p_next p p; p_prev = update s.p_prev p p })
unfolding insert_proc_q
insert_run_empty tp p s h₁ h₂ = ground arith

Chain-insert :
    (nx pv : Ptr → Ptr) (tp p : Ptr) (ys : List Ptr)
    → Chain nx pv tp ys tp
    → Distinct (tp ∷ ys)
    → has p (tp ∷ ys) ≡ false
    → Chain
        (update (update nx p (nx tp)) tp p)
        (update (update pv p tp) (nx tp) p)
        p
        (ys ++ tp ∷ [])
        p
Chain-insert nx pv tp p ys c d h =
    let moved = Chain-update_prev nx pv p tp tp tp ys c h in
    let restarted = Chain-restart nx (update pv p tp) tp p tp ys moved h d.0 d in
    let next' = update nx p (nx tp) in
    let prev' = update (update pv p tp) (nx tp) p in
    Chain-join (update next' tp p) prev' p tp p ys []
      (Chain-update_next next' prev' tp p p tp ys restarted (ground arith))
      (ground arith, ground (arith, has-after nx pv tp tp ys c))

-- `p` stands at the end of the queue, and only links of its blocks have changed.
abbrev pub Queued : Pcbs → List Ptr → Ptr → Ptr → Pcbs → Type 0
Queued s xs p tp t =
    (tp ≡ p) × IsQueue t.p_next t.p_prev tp (xs ++ p ∷ []) × OnlyLinks (xs ++ p ∷ []) s t

insert_ring :
    (tp p : Ptr) (ys : List Ptr) (s : Pcbs)
    → has null (tp ∷ ys) ≡ false
    → Distinct (tp ∷ ys)
    → Chain s.p_next s.p_prev tp ys tp
    → p ≢ null
    → has p (ys ++ tp ∷ []) ≡ false
    → Returns (Queued s (ys ++ tp ∷ []) p) (insert_proc_q tp p s)
insert_ring tp p ys s n d c hp h =
    rw
      (insert_run tp p s (ground arith) hp (ground (arith, has-append p ys (tp ∷ [])))
        (ground (arith, has-after s.p_next s.p_prev tp tp ys c)))
      (returned (
        refl,
        ring (ys ++ tp ∷ []) refl (ground (arith, has-append null ys (tp ∷ [])))
            (h, Distinct-snoc tp ys d.1 d.0)
            (Chain-insert s.p_next s.p_prev tp p ys c d
              (ground (arith, has-append p ys (tp ∷ [])))),
        record {
          outside_next = λ q o.
              ground (arith, has-append q (ys ++ tp ∷ []) (p ∷ []), has-append q ys (tp ∷ []));
          outside_prev = λ q o. ground (
            arith,
            has-append q (ys ++ tp ∷ []) (p ∷ []),
            has-append q ys (tp ∷ []),
            has-after s.p_next s.p_prev tp tp ys c,
          );
          rest = refl;
        },
      ))

-- `insertProcQ` appends the block to the queue, and makes it the tail.
pub insert_proc_q-append :
    (tp p : Ptr) (xs : List Ptr) (s : Pcbs)
    → IsQueue s.p_next s.p_prev tp xs
    → p ≢ null
    → has p xs ≡ false
    → Returns (Queued s xs p) (insert_proc_q tp p s)
insert_proc_q-append tp p _ s (empty e) hp h = rw (insert_run_empty tp p s e hp) (
    returned (
      refl,
      ring [] refl (ground arith) (refl, tt) (ground arith, ground arith),
      record {
        outside_next = λ q o. ground arith;
        outside_prev = λ q o. ground arith;
        rest = refl;
      },
    ))
insert_proc_q-append tp p _ s (ring {xs} ys e n d c) hp h =
    subst (λ zs. Returns (Queued s zs p) (insert_proc_q tp p s)) (sym e)
      (insert_ring tp p ys s n d c hp (e_has e h))
  where
    e_has : {zs : List Ptr} → xs ≡ zs → has p xs ≡ false → has p zs ≡ false
    e_has f g = rw f at g

-- The result of taking the oldest block of a queue.
abbrev pub Dequeued : Pcbs → List Ptr → Ptr × Ptr → Pcbs → Type 0
Dequeued s [] (out, tp) t = (out ≡ null) × (tp ≡ null) × (t ≡ s)
Dequeued s (x ∷ xs) (out, tp) t =
    (out ≡ x)
    × IsQueue t.p_next t.p_prev tp xs
    × OnlyLinks (x ∷ xs) s t
    × (t.p_next x ≡ null)
    × (t.p_prev x ≡ null)

remove_run :
    (tp x tp' : Ptr) (s : Pcbs)
    → (if x == tp then null else tp) ≡ tp'
    → tp ≢ null
    → s.p_next tp ≡ x
    → x ≢ null
    → s.p_next x ≢ null
    → s.p_prev x ≢ null
    → remove_proc_q tp s
      ≡ ok
          (x, tp')
          (record s {
            p_next = cut_next s.p_next s.p_prev x (s.p_prev x) (s.p_next x);
            p_prev = cut_prev s.p_next s.p_prev x (s.p_prev x) (s.p_next x);
          })
unfolding remove_proc_q
remove_run tp x tp' s r h e hx hn hp = ground arith

remove_ring :
    (tp : Ptr) (ys : List Ptr) (s : Pcbs)
    → has null (tp ∷ ys) ≡ false
    → Distinct (tp ∷ ys)
    → Chain s.p_next s.p_prev tp ys tp
    → Returns (Dequeued s (ys ++ tp ∷ [])) (remove_proc_q tp s)
remove_ring tp [] s n d (c, c') =
    rw
      (remove_run tp tp null s (ground arith) (ground arith) c (ground arith) (ground arith)
        (ground arith))
      (returned (
        refl,
        empty refl,
        record {
          outside_next = λ q o. ground arith;
          outside_prev = λ q o. ground arith;
          rest = refl;
        },
        ground arith,
        ground arith,
      ))
remove_ring tp (x ∷ ys) s n d (c, c', rest) =
    rw
      (remove_run tp x tp s (ground arith) (ground arith) c (ground arith)
        (ground (arith, has-after s.p_next s.p_prev x tp ys rest)) (ground arith))
      (returned (
        refl,
        ring ys refl (ground arith) (ground arith, d.1.1)
            (Chain-cut s.p_next s.p_prev x (s.p_prev x) (s.p_next x) tp tp [] ys (c, c') rest refl
              refl d d.0),
        record {
          outside_next = λ q o. ground (arith, has-append q ys (tp ∷ []));
          outside_prev = λ q o.
              ground (arith, has-append q ys (tp ∷ []), has-after s.p_next s.p_prev x tp ys rest);
          rest = refl;
        },
        ground arith,
        ground arith,
      ))

remove_run_empty : (tp : Ptr) (s : Pcbs) → tp ≡ null → remove_proc_q tp s ≡ ok (null, null) s
unfolding remove_proc_q
remove_run_empty tp s e = ground arith

-- `removeProcQ` takes the oldest block out of the queue and clears its links; on an empty queue it
-- answers NULL and changes nothing.
pub remove_proc_q-Dequeued :
    (tp : Ptr) (xs : List Ptr) (s : Pcbs)
    → IsQueue s.p_next s.p_prev tp xs
    → Returns (Dequeued s xs) (remove_proc_q tp s)
remove_proc_q-Dequeued tp _ s (empty e) = rw (remove_run_empty tp s e) (returned (refl, refl, refl))
remove_proc_q-Dequeued tp _ s (ring ys e n d c) =
    subst (λ zs. Returns (Dequeued s zs) (remove_proc_q tp s)) (sym e) (remove_ring tp ys s n d c)
