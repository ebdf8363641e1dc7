-- ===== src/Asl/Frame.antt =====
-- What an operation on one semaphore leaves alone: the entries of the others.
use progetto_so.Base.{
  ◌≤◌, ◌≡◌, ◌≢◌, refl, ap, ◌∙◌, true, false, inl, inr, List, [], ◌∷◌, ◌++◌, arith, Ptr, has, ◌==◌,
  Bool-cases,
}
use mathlib.Core.Path.{subst, sym}
use progetto_so.Pcb.Ring.{has-append, IsQueue}
use progetto_so.Pcb.Frame.{IsQueue-frame}
use progetto_so.Asl.Defs.{Semds}
use progetto_so.Asl.Entries.{Entry, IsAscending, Holds, AllHold, queue_of}
use progetto_so.Asl.Lookup.{AllUnder, StartsAbove, queue_of-none}

-- Only the descriptor `d` and the blocks `bs` have changed.
pub record Frame (d : Ptr) (bs : List Ptr) (s t : Semds) : Type 0 where
  pub add : (q : Ptr) → q ≢ d → t.s_sem_add q ≡ s.s_sem_add q
  pub proc_q : (q : Ptr) → q ≢ d → t.s_proc_q q ≡ s.s_proc_q q
  pub next : (q : Ptr) → has q bs ≡ false → t.pcbs.p_next q ≡ s.pcbs.p_next q
  pub prev : (q : Ptr) → has q bs ≡ false → t.pcbs.p_prev q ≡ s.pcbs.p_prev q
  pub sem_add : (q : Ptr) → has q bs ≡ false → t.pcbs.p_sem_add q ≡ s.pcbs.p_sem_add q

abbrev pub Disjoint : List Ptr → List Ptr → Type 0
Disjoint xs ys = (q : Ptr) → has q xs ≡ true → has q ys ≡ false

pub Holds-Frame :
    {d : Ptr} {bs : List Ptr} {s t : Semds} {free free' : List Ptr} {u : Entry}
    → Frame d bs s t
    → Holds s free u
    → u.desc ≢ d
    → Disjoint u.blocks bs
    → has u.desc free' ≡ false
    → Holds t free' u
Holds-Frame {d} {bs} {s} {t} {free} {free'} {u} f h ne dis out = record {
  in_table = h.in_table;
  not_free = out;
  is_add = f.add u.desc ne ∙ h.is_add;
  below_max = h.below_max;
  queue =
      subst (λ tp. IsQueue t.pcbs.p_next t.pcbs.p_prev tp u.blocks) (sym (f.proc_q u.desc ne))
        (IsQueue-frame s.pcbs.p_next s.pcbs.p_prev t.pcbs.p_next t.pcbs.p_prev (s.s_proc_q u.desc)
          u.blocks (λ q i. f.next q (dis q i)) (λ q i. f.prev q (dis q i)) h.queue);
  waits = h.waits;
  marked = λ q i. f.sem_add q (dis q i) ∙ h.marked q i;
  in_pool = h.in_pool;
}

abbrev pub All : (Entry → Type 0) → List Entry → Type 0
All P [] = Unit {0}
All P (e ∷ es) = P e × All P es

pub AllHold-map :
    {s t : Semds} {free free' : List Ptr} {P : Entry → Type 0}
    → ((u : Entry) → Holds s free u → P u → Holds t free' u)
    → (es : List Entry) → AllHold s free es
    → All P es
    → AllHold t free' es
AllHold-map g [] h p = tt
AllHold-map g (e ∷ es) h p = (g e h.0 p.0, AllHold-map g es h.1 p.1)

pub All-both :
    (P Q : Entry → Type 0) (es : List Entry) → All P es → All Q es → All (λ u. P u × Q u) es
All-both P Q [] h h' = tt
All-both P Q (e ∷ es) h h' = ((h.0, h'.0), All-both P Q es h.1 h'.1)

pub All-left : (P : Entry → Type 0) (us vs : List Entry) → All P (us ++ vs) → All P us
All-left P [] vs h = tt
All-left P (u ∷ us) vs h = (h.0, All-left P us vs h.1)

pub All-right : (P : Entry → Type 0) (us vs : List Entry) → All P (us ++ vs) → All P vs
All-right P [] vs h = h
All-right P (u ∷ us) vs h = All-right P us vs h.1

abbrev pub Other : Ptr → Entry → Type 0
Other a u = u.add ≢ a

pub under-Other : (a : Ptr) (us : List Entry) → AllUnder a us → All (Other a) us
under-Other a [] h = tt
under-Other a (u ∷ us) (h, hs) = (omega (arith, h), under-Other a us hs)

pub above-Other : (a low : Ptr) (vs : List Entry) → a ≤ low → IsAscending low vs → All (Other a) vs
above-Other a low [] le h = tt
above-Other a low (v ∷ vs) le (lt, asc) =
    (omega (arith, le, lt), above-Other a v.add vs (omega (arith, le, lt)) asc)

-- Blocks that wait on `a` wait on no other semaphore.
pub Disjoint-marked :
    (s : Semds) (free : List Ptr) (a : Ptr) (u : Entry) (xs : List Ptr)
    → Holds s free u
    → u.add ≢ a
    → ((q : Ptr) → has q xs ≡ true → s.pcbs.p_sem_add q ≡ a)
    → Disjoint u.blocks xs
Disjoint-marked s free a u xs h ne marked q i = elim (Bool-cases (has q xs)) [
  | inl j ↦ absurd (omega (arith, h.marked q i, marked q j, ne))
  | inr j ↦ j
]

abbrev pub Without : Ptr → Entry → Type 0
Without p u = has p u.blocks ≡ false

pub Disjoint-snoc :
    (p : Ptr) (us xs : List Ptr) → has p us ≡ false → Disjoint us xs → Disjoint us (xs ++ p ∷ [])
Disjoint-snoc p us xs out dis q i = elim (Bool-cases (q == p)) [
  | inl e ↦ let eq : q ≡ p = ground arith in absurd (ground (arith, ap (λ v. has v us) eq, i, out))
  | inr e ↦ ground (arith, dis q i, has-append q xs (p ∷ []))
]

-- What holds of every queue of the map holds of every entry's blocks.
pub each-blocks :
    (P : List Ptr → Type 0) (low : Ptr) (es : List Entry)
    → P []
    → IsAscending low es
    → ((b : Ptr) → P (queue_of b es))
    → All (λ e. P e.blocks) es
each-blocks P low [] none asc all = tt
each-blocks P low (e ∷ es) none (lt, asc) all = (
  subst P (ground arith) (all e.add),
  each-blocks P e.add es none asc λ b. elim (Bool-cases (e.add == b)) [
    | inl h ↦
        let eq : e.add ≡ b = ground arith in
        subst P (sym (queue_of-none b b e.add es asc (omega arith))) none
    | inr h ↦ subst P (ground (arith, h)) (all b)
  ],
)

-- A block that is in none of the queues is in no entry's.
pub out_of_each :
    (p low : Ptr) (es : List Entry)
    → IsAscending low es
    → ((b : Ptr) → has p (queue_of b es) ≡ false)
    → All (Without p) es
out_of_each p low es asc out = each-blocks (λ xs. has p xs ≡ false) low es refl asc out

pub starts-Other :
    (a low : Ptr) (vs : List Entry) → StartsAbove a vs → IsAscending low vs → All (Other a) vs
starts-Other a low [] above asc = tt
starts-Other a low (v ∷ vs) above (lt, asc) =
    (omega (arith, above), above-Other a v.add vs (omega (arith, above)) asc)
