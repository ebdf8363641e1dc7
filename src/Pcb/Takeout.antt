-- ===== src/Pcb/Takeout.antt =====
-- `outProcQ` of src/pcb.c on a queue that is cut open at the block that is taken.
use mathlib.Core.List.{append-nil}
use progetto_so.Base.{
  ℕ, zero, suc, ◌<◌, ◌≡◌, refl, ◌≢◌, Bool, true, false, List, [], ◌∷◌, ◌++◌, arith, if◌then◌else◌,
  ◌==◌, Ptr, null, has, length, ok, Returns, returned, ◌∙◌,
}
use progetto_so.Pcb.Defs.{Pcbs, out_loop, out_proc_q, unlink_pcb, max_proc}
use progetto_so.Pcb.Ring.{
  Chain, Distinct, has-append, has-after, has-before, Chain-split, Chain-cut, IsQueue, ring,
  cut_next, cut_prev,
}
use progetto_so.Pcb.Queue.{OnlyLinks, unlink_run}
use progetto_so.Pcb.Erase.{
  erase, erase-append_first, Distinct-snoc_inv, Distinct-without, erase-middle, not-has_before,
}

-- The loop stops at `p` if it stands between `it` and the tail, and at the tail otherwise.
pub out_loop_lem :
    (k : ℕ) (tp p it : Ptr) (vs : List Ptr) (s : Pcbs)
    → Chain s.p_next s.p_prev it vs tp
    → length vs < k
    → has null (it ∷ vs) ≡ false
    → has tp vs ≡ false
    → out_loop k tp p it s ≡ (if has p (it ∷ vs) then unlink_pcb p s else ok null s)
unfolding out_loop
out_loop_lem zero tp p it vs s c f n h = absurd (omega arith)
out_loop_lem (suc k) tp p it [] s c f n h = ground arith
out_loop_lem (suc k) tp p it (v ∷ vs) s (c, c', rest) f n h =
    ground (arith, out_loop_lem k tp p v vs s rest)

-- The result of taking `p` out of a queue, where `p` stands in it and where it does not.
abbrev pub TakenOut : Pcbs → Ptr → List Ptr → Ptr → Bool → Ptr × Ptr → Pcbs → Type 0
TakenOut s tp xs p true (out, tp') t =
    (out ≡ p)
    × IsQueue t.p_next t.p_prev tp' (erase p xs)
    × OnlyLinks xs s t
    × (t.p_next p ≡ null)
    × (t.p_prev p ≡ null)
TakenOut s tp xs p false (out, tp') t = (out ≡ null) × (tp' ≡ tp) × (t ≡ s)

pub out_run_tail :
    (tp p tp' : Ptr) (s : Pcbs)
    → (if tp == s.p_prev tp then null else s.p_prev tp) ≡ tp'
    → tp ≢ null
    → p ≡ tp
    → s.p_next p ≢ null
    → s.p_prev p ≢ null
    → out_proc_q tp p s
      ≡ ok
          (p, tp')
          (record s {
            p_next = cut_next s.p_next s.p_prev p (s.p_prev p) (s.p_next p);
            p_prev = cut_prev s.p_next s.p_prev p (s.p_prev p) (s.p_next p);
          })
unfolding out_proc_q
out_run_tail tp p tp' s r h e hn hp = ground arith

pub out_run_none :
    (tp p : Ptr) (s : Pcbs)
    → tp ≢ null
    → p ≢ tp
    → out_loop max_proc tp p (s.p_next tp) s ≡ ok null s
    → out_proc_q tp p s ≡ ok (null, tp) s
unfolding out_proc_q
out_run_none tp p s h ne e = ground arith

pub out_run_some :
    (tp p : Ptr) (s t : Pcbs)
    → tp ≢ null
    → p ≢ tp
    → out_loop max_proc tp p (s.p_next tp) s ≡ ok p t
    → out_proc_q tp p s ≡ ok (p, tp) t
unfolding out_proc_q
out_run_some tp p s t h ne e = ground arith

-- The tail, where other blocks stand before it.
pub out_tail :
    (tp z : Ptr) (zs : List Ptr) (s : Pcbs)
    → has null (tp ∷ zs ++ z ∷ []) ≡ false
    → Distinct (tp ∷ zs ++ z ∷ [])
    → Chain s.p_next s.p_prev tp (zs ++ z ∷ []) tp
    → Returns (TakenOut s tp (zs ++ z ∷ [] ++ tp ∷ []) tp true) (out_proc_q tp tp s)
out_tail tp z zs s n d c =
    let (front, back) = Chain-split s.p_next s.p_prev tp z tp zs [] c in
    let (out, rest) = Distinct-snoc_inv z zs d.1 in
    let in_null = has-append null zs (z ∷ []) in
    let in_tp = has-append tp zs (z ∷ []) in
    let after = has-after s.p_next s.p_prev tp z zs front in
    rw (out_run_tail tp tp z s (ground arith) (ground arith) refl (ground arith) (ground arith)) (
      returned (
        refl,
        ring zs (erase-append_first tp (zs ++ z ∷ []) [] d.0 ∙ append-nil _) (ground arith)
            (out, rest)
            (Chain-cut s.p_next s.p_prev tp (s.p_prev tp) (s.p_next tp) z z [] zs back front refl
              refl (ground arith, (ground arith, rest)) (ground arith)),
        record {
          outside_next = λ q o.
              ground (arith, has-append q (zs ++ z ∷ []) (tp ∷ []), has-append q zs (z ∷ []));
          outside_prev = λ q o.
              ground (arith, has-append q (zs ++ z ∷ []) (tp ∷ []), has-append q zs (z ∷ []));
          rest = refl;
        },
        ground arith,
        ground arith,
      ))

-- A block before the tail.
pub out_middle :
    (tp p : Ptr) (us vs : List Ptr) (s : Pcbs)
    → has null (tp ∷ us ++ p ∷ vs) ≡ false
    → Distinct (tp ∷ us ++ p ∷ vs)
    → Chain s.p_next s.p_prev tp (us ++ p ∷ vs) tp
    → out_loop max_proc tp p (s.p_next tp) s ≡ unlink_pcb p s
    → Returns (TakenOut s tp (us ++ p ∷ vs ++ tp ∷ []) p true) (out_proc_q tp p s)
out_middle tp p us vs s n d c e =
    let (front, back) = Chain-split s.p_next s.p_prev tp p tp us vs c in
    let before = has-before s.p_next s.p_prev tp p us front in
    let after = has-after s.p_next s.p_prev p tp vs back in
    let in_null = has-append null us (p ∷ vs) in
    let in_tp = has-append tp us (p ∷ vs) in
    let out = not-has_before p us vs d.1 in
    rw
      (out_run_some tp p s _ (ground arith) (ground arith)
        (e ∙ unlink_run p s (ground arith) (ground arith) (ground arith)))
      (returned (
        refl,
        ring (us ++ vs) (erase-middle tp p us vs out) (ground (arith, has-append null us vs))
            (ground (arith, has-append tp us vs), Distinct-without p us vs d.1)
            (Chain-cut s.p_next s.p_prev p (s.p_prev p) (s.p_next p) tp tp us vs front back refl
              refl d d.0),
        record {
          outside_next = λ q o.
              ground (arith, has-append q (us ++ p ∷ vs) (tp ∷ []), has-append q us (p ∷ vs));
          outside_prev = λ q o.
              ground (arith, has-append q (us ++ p ∷ vs) (tp ∷ []), has-append q us (p ∷ vs));
          rest = refl;
        },
        ground arith,
        ground arith,
      ))
