-- ===== src/Asl/Release.antt =====
-- A block taken from the queue of an active semaphore: the descriptor keeps the rest of the queue,
-- or goes back to the free ones.
use progetto_so.Base.{
  ◌+◌, ◌≡◌, ◌≢◌, refl, sym, ap, ◌∙◌, true, false, List, [], ◌∷◌, ◌++◌, arith, Ptr, null, update,
  Bool-cases, inl, inr, has, length, length-append, ◌==◌,
}
use mathlib.Core.Path.{subst}
use progetto_so.Pcb.Defs.{Pcbs}
use progetto_so.Pcb.Ring.{Distinct, has-append, IsQueue}
use progetto_so.Pcb.Queue.{OnlyLinks}
use progetto_so.Asl.Defs.{Semds, semd_entry}
use progetto_so.Asl.Find.{end_of}
use progetto_so.Asl.Seg.{Seg-remove, Seg-update, IsFree-update}
use progetto_so.Asl.Entries.{Seg, IsFree, Entry, descs, Holds, AllHold, IsAsl}
use progetto_so.Asl.Locate.{descs-append, AllHold-left, AllHold-right, AllHold-append}
use progetto_so.Asl.Lookup.{AllUnder, IsAscending-change, IsAscending-right, IsAscending-drop}
use progetto_so.Asl.Frame.{
  Frame, All, Holds-Frame, AllHold-map, Other, under-Other, above-Other, Disjoint-marked,
}
use progetto_so.Asl.Insert.{length-change, descs-change}
use progetto_so.Asl.InsertNew.{asl_links, asl-Distinct}
use progetto_so.Asl.InsertRun.{not_free-end}

-- `x->p_semAdd = NULL`.
abbrev pub unmarked : Pcbs → Ptr → Pcbs
unmarked t x = record t { p_sem_add = update t.p_sem_add x null }

-- The descriptor `d` keeps the queue `tp`.
abbrev pub kept : Semds → (d tp : Ptr) → Pcbs → Ptr → Semds
kept s d tp t x = record s { s_proc_q = update s.s_proc_q d tp; pcbs = unmarked t x }

-- The descriptor `d`, behind `q`, becomes the first free one.
abbrev pub dropped : Semds → (d q : Ptr) → Pcbs → Ptr → Semds
dropped s d q t x = record s {
  s_proc_q = update (update s.s_proc_q d null) d null;
  s_next = update (update (update s.s_next q (s.s_next d)) d null) d s.semd_free_h;
  s_sem_add = update s.s_sem_add d null;
  semd_free_h = d;
  pcbs = unmarked t x;
}

-- The blocks `ys` are what is left of the entry's queue without `x`.
pub record Taken (s : Semds) (e : Entry) (x tp : Ptr) (ys : List Ptr) (t : Pcbs) : Type 0 where
  pub was : has x e.blocks ≡ true
  pub left : IsQueue t.p_next t.p_prev tp ys
  pub links : OnlyLinks e.blocks s.pcbs t
  pub part : (q : Ptr) → has q ys ≡ true → has q e.blocks ≡ true
  pub gone : has x ys ≡ false

module _ (s : Semds) (e : Entry) (x tp : Ptr) (ys : List Ptr) (t : Pcbs)
    (tk : Taken s e x tp ys t) where
  unmarked_lem :
      (q : Ptr) → has q e.blocks ≡ false → (unmarked t x).p_sem_add q ≡ s.pcbs.p_sem_add q
  unmarked_lem q o = elim (Bool-cases (q == x)) [
    | inl h ↦
        let eq : q ≡ x = ground arith in
        absurd (ground (arith, ap (λ v. has v e.blocks) eq, tk.was, o))
    | inr h ↦ rw h (ap (λ (u : Pcbs). u.p_sem_add q) tk.links.rest)
  ]

  -- In any state with these blocks, and elsewhere the same descriptors, the others hold still.
  others-hold :
      (u : Semds) (free free' : List Ptr)
      → u.pcbs ≡ unmarked t x
      → ((q : Ptr) → q ≢ e.desc → u.s_sem_add q ≡ s.s_sem_add q)
      → ((q : Ptr) → q ≢ e.desc → u.s_proc_q q ≡ s.s_proc_q q)
      → Holds s free e
      → ((v : Entry) → Holds s free v → v.desc ≢ e.desc → has v.desc free' ≡ false)
      → (ws : List Entry) → AllHold s free ws
      → All (Other e.add) ws
      → AllHold u free' ws
  others-hold u free free' blocks adds procs h out ws holds others =
      AllHold-map
        (λ v hv ne.
          let apart : v.desc ≢ e.desc = λ eq. ne (sym hv.is_add ∙ ap s.s_sem_add eq ∙ h.is_add) in
          Holds-Frame frame hv apart (Disjoint-marked s free e.add v e.blocks hv ne h.marked)
            (out v hv apart))
        ws holds others
    where
      frame : Frame e.desc e.blocks s u
      frame = record {
        add = adds;
        proc_q = procs;
        next = λ q o. ap (λ (p : Pcbs). p.p_next q) blocks ∙ tk.links.outside_next q o;
        prev = λ q o. ap (λ (p : Pcbs). p.p_prev q) blocks ∙ tk.links.outside_prev q o;
        sem_add = λ q o. ap (λ (p : Pcbs). p.p_sem_add q) blocks ∙ unmarked_lem q o;
      }

  shrunk-Holds :
      (free : List Ptr)
      → ys ≢ []
      → Holds s free e
      → Holds (kept s e.desc tp t x) free (record e { blocks = ys })
  shrunk-Holds free some h = record {
    in_table = h.in_table;
    not_free = h.not_free;
    is_add = h.is_add;
    below_max = h.below_max;
    queue = subst (λ v. IsQueue t.p_next t.p_prev v ys) (ground arith) tk.left;
    waits = some;
    marked = λ q i. elim (Bool-cases (q == x)) [
      | inl g ↦
          let eq : q ≡ x = ground arith in
          absurd (ground (arith, ap (λ v. has v ys) eq, tk.gone, i))
      | inr g ↦ rw g (ap (λ (u : Pcbs). u.p_sem_add q) tk.links.rest ∙ h.marked q (tk.part q i))
    ];
    in_pool = λ q i. h.in_pool q (tk.part q i);
  }

  module _ (free : List Ptr) (us vs : List Entry) (asl : IsAsl s (us ++ e ∷ vs) free)
      (low : AllUnder e.add us) where
    own : Holds s free e
    own = (AllHold-right s free us (e ∷ vs) asl.holds).0

    left_others : All (Other e.add) us
    left_others = under-Other e.add us low

    right_others : All (Other e.add) vs
    right_others =
        above-Other e.add e.add vs (omega arith) (IsAscending-right 0 e us vs asl.ascending)

    abbrev pub shrunk : Entry
    shrunk = record e { blocks = ys }

    pub kept-IsAsl : ys ≢ [] → IsAsl (kept s e.desc tp t x) (us ++ shrunk ∷ vs) free
    kept-IsAsl some =
        let u = kept s e.desc tp t x in
        let still =
          others-hold u free free refl (λ q n. refl) (λ q n. ground (arith, n)) own
            (λ v hv n. hv.not_free) in
        record {
          head = asl.head;
          upper_add = asl.upper_add;
          upper_queue = ground (arith, own.in_table, asl.upper_queue);
          links =
              subst (λ l. Seg s.s_next (semd_entry 0) l (semd_entry 1))
                (sym (descs-change e shrunk us vs refl)) asl.links;
          ascending = IsAscending-change 0 e shrunk us vs refl asl.ascending;
          holds =
              AllHold-append u free us (shrunk ∷ vs)
                (still us (AllHold-left s free us (e ∷ vs) asl.holds) left_others)
                (
                  shrunk-Holds free some own,
                  still vs (AllHold-right s free us (e ∷ vs) asl.holds).1 right_others,
                );
          free_list = asl.free_list;
          distinct = asl.distinct;
          free_in_table = asl.free_in_table;
          count = ap (λ n. n + length free) (length-change e shrunk us vs) ∙ asl.count;
        }

    abbrev place : Ptr
    place = end_of (semd_entry 0) (descs us)

    all-Distinct : Distinct (semd_entry 0 ∷ descs us ++ e.desc ∷ descs vs)
    all-Distinct = asl-Distinct s free us (e ∷ vs) e.add x asl

    not_own :
        (ws : List Entry) → AllHold s free ws → All (Other e.add) ws → has e.desc (descs ws) ≡ false
    not_own [] h o = refl
    not_own (w ∷ ws) (h, hs) (o, os) = elim (Bool-cases (e.desc == w.desc)) [
      | inl g ↦
          let eq : e.desc ≡ w.desc = ground arith in
          absurd (o (sym h.is_add ∙ ap s.s_sem_add (sym eq) ∙ own.is_add))
      | inr g ↦ ground (arith, not_own ws hs os)
    ]

    dropped-links :
        Seg (dropped s e.desc place t x).s_next (semd_entry 0) (descs (us ++ vs)) (semd_entry 1)
    dropped-links =
        subst (λ l. Seg (dropped s e.desc place t x).s_next (semd_entry 0) l (semd_entry 1))
          (sym (descs-append us vs))
          (Seg-update (update (update s.s_next place (s.s_next e.desc)) e.desc null) e.desc
            s.semd_free_h (semd_entry 0) (semd_entry 1) (descs us ++ descs vs)
            (Seg-remove s.s_next (semd_entry 0) e.desc (semd_entry 1) (descs us) (descs vs)
              (asl_links s free us (e ∷ vs) e.add x asl) all-Distinct)
            (ground (
              arith,
              own.in_table,
              has-append e.desc (descs us) (descs vs),
              not_own us (AllHold-left s free us (e ∷ vs) asl.holds) left_others,
              not_own vs (AllHold-right s free us (e ∷ vs) asl.holds).1 right_others,
            )))

    dropped-free : IsFree (dropped s e.desc place t x).s_next e.desc (e.desc ∷ free)
    dropped-free = (
      refl,
      subst (λ h. IsFree (dropped s e.desc place t x).s_next h free) (ground arith)
          (IsFree-update (update (update s.s_next place (s.s_next e.desc)) e.desc null) e.desc
            s.semd_free_h s.semd_free_h free
            (IsFree-update (update s.s_next place (s.s_next e.desc)) e.desc null s.semd_free_h free
              (IsFree-update s.s_next place (s.s_next e.desc) s.semd_free_h free asl.free_list (
                not_free-end s free us (AllHold-left s free us (e ∷ vs) asl.holds)
                  asl.free_in_table))
              own.not_free)
            own.not_free),
    )

    pub dropped-IsAsl : IsAsl (dropped s e.desc place t x) (us ++ vs) (e.desc ∷ free)
    dropped-IsAsl =
        let u = dropped s e.desc place t x in
        let still =
          others-hold u free (e.desc ∷ free) refl (λ q n. ground (arith, n))
            (λ q n. ground (arith, n)) own (λ v hv n. ground (arith, n, hv.not_free)) in
        record {
          head = asl.head;
          upper_add = ground (arith, own.in_table, asl.upper_add);
          upper_queue = ground (arith, own.in_table, asl.upper_queue);
          links = dropped-links;
          ascending = IsAscending-drop 0 e us vs asl.ascending;
          holds =
              AllHold-append u (e.desc ∷ free) us vs
                (still us (AllHold-left s free us (e ∷ vs) asl.holds) left_others)
                (still vs (AllHold-right s free us (e ∷ vs) asl.holds).1 right_others);
          free_list = dropped-free;
          distinct = (own.not_free, asl.distinct);
          free_in_table = λ q i. elim (Bool-cases (q == e.desc)) [
            | inl g ↦ ground (arith, own.in_table)
            | inr g ↦ asl.free_in_table q (ground (arith, i))
          ];
          count = omega (arith, asl.count, length-append us (e ∷ vs), length-append us vs);
        }
