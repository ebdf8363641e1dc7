-- ===== src/Asl/Room.antt =====
-- The descriptors of src/asl.c are enough: a block that waits nowhere finds one free.
use progetto_so.Base.{
  suc, ◌≤◌, ◌<◌, ◌≡◌, ◌≢◌, refl, sym, ap, ◌∙◌, true, false, inl, inr, Bool-cases, List, [], ◌∷◌,
  arith, Ptr, null, has, length, ◌==◌, Bool, Returns, Returns-weaken,
}
use progetto_so.Pcb.Defs.{max_proc}
use progetto_so.Pcb.Ring.{Distinct}
use progetto_so.Pcb.Frame.{first_or}
use progetto_so.Pcb.Pigeon.{length-le}
use progetto_so.Asl.Defs.{Semds, max_add, insert_blocked}
use progetto_so.Asl.Entries.{Entry, AllHold, IsAscending, IsFree, queue_of, Represents}
use progetto_so.Asl.Marks.{Represents-IsWaiter}
use progetto_so.Asl.Blocked.{enqueued, Inserted, insert_blocked-Inserted}

-- The block that has waited longest on each active semaphore.
abbrev heads : List Entry → List Ptr
heads [] = []
heads (e ∷ es) = first_or null e.blocks ∷ heads es

has-first : (xs : List Ptr) → xs ≢ [] → has (first_or null xs) xs ≡ true
has-first [] h = absurd (h refl)
has-first (x ∷ xs) h = ground arith

length-heads : (es : List Entry) → length (heads es) ≡ length es
length-heads [] = refl
length-heads (e ∷ es) = ap suc (length-heads es)

module _ (s : Semds) (free : List Ptr) where
  heads_wait :
      (low q : Ptr) (es : List Entry)
      → AllHold s free es
      → IsAscending low es
      → has q (heads es) ≡ true
      → (low < s.pcbs.p_sem_add q) × (has q (queue_of (s.pcbs.p_sem_add q) es) ≡ true)
  heads_wait low q [] hs asc i = absurd (cc)
  heads_wait low q (e ∷ es) (h, hs) (lt, asc) i = elim (Bool-cases (q == first_or null e.blocks)) [
    | inl g ↦
        let eq : q ≡ first_or null e.blocks = ground arith in
        let in_e = ap (λ v. has v e.blocks) eq ∙ has-first e.blocks h.waits in
        let mark = h.marked q in_e in (omega (arith, mark, lt), ground (arith, mark, in_e))
    | inr g ↦
        let later = heads_wait e.add q es hs asc (ground (arith, i, g)) in
        (omega (arith, later, lt), ground (arith, later))
  ]

  heads-Distinct :
      (low : Ptr) (es : List Entry) → AllHold s free es → IsAscending low es → Distinct (heads es)
  heads-Distinct low [] hs asc = tt
  heads-Distinct low (e ∷ es) (h, hs) (lt, asc) = (alone, heads-Distinct e.add es hs asc)
    where
      mark : s.pcbs.p_sem_add (first_or null e.blocks) ≡ e.add
      mark = h.marked (first_or null e.blocks) (has-first e.blocks h.waits)

      alone : has (first_or null e.blocks) (heads es) ≡ false
      alone = elim (Bool-cases (has (first_or null e.blocks) (heads es))) [
        | inl g ↦
            absurd (omega (arith, mark, heads_wait e.add (first_or null e.blocks) es hs asc g))
        | inr g ↦ g
      ]

free_list_ne :
    (nx : Ptr → Ptr) (h : Ptr) (free : List Ptr)
    → IsFree nx h free
    → ((q : Ptr) → has q free ≡ true → 2 < q)
    → 0 < length free
    → h ≢ null
free_list_ne nx h [] list range some = absurd (omega (arith, some))
free_list_ne nx h (d ∷ ds) list range some = omega (arith, list, range d (ground arith))

-- While a block of the table waits nowhere, a descriptor is free.
pub Represents-free :
    (s : Semds) (f : Ptr → List Ptr) (p : Ptr)
    → Represents s f
    → p ≢ null
    → p ≤ max_proc
    → ((b : Ptr) → has p (f b) ≡ false)
    → s.semd_free_h ≢ null
Represents-free s f p r real pool out =
    let es = r.entries in
    let short =
      length-le max_proc (p ∷ heads es)
        (alone, heads-Distinct s r.free 0 es r.asl.holds r.asl.ascending) range in
    free_list_ne s.s_next s.semd_free_h r.free r.asl.free_list r.asl.free_in_table
      (omega (arith, short, length-heads es, r.asl.count))
  where
    waits : (q : Ptr) → has q (heads r.entries) ≡ true → has q (f (s.pcbs.p_sem_add q)) ≡ true
    waits q i =
        sym (ap (has q) (r.agrees (s.pcbs.p_sem_add q)))
        ∙ (heads_wait s r.free 0 q r.entries r.asl.holds r.asl.ascending i).1

    alone : has p (heads r.entries) ≡ false
    alone = elim (Bool-cases (has p (heads r.entries))) [
      | inl g ↦ absurd (ground (arith, waits p g, out (s.pcbs.p_sem_add p)))
      | inr g ↦ g
    ]

    range : (q : Ptr) → has q (p ∷ heads r.entries) ≡ true → (0 < q) × (q ≤ max_proc)
    range q i = elim (Bool-cases (has q (heads r.entries))) [
      | inl g ↦ let w = Represents-IsWaiter s f (s.pcbs.p_sem_add q) q r (waits q g) in (w.2, w.3)
      | inr g ↦
          let eq : q ≡ p = ground (arith, i, g) in
          (omega (arith, eq, real), omega (arith, eq, pool))
    ]

-- `insertBlocked` always finds room for a block of the table that waits nowhere: it answers FALSE,
-- and the block is the last of the semaphore's queue.
pub insert_blocked-ne_full :
    (s : Semds) (f : Ptr → List Ptr) (a p : Ptr)
    → Represents s f
    → 0 < a
    → a < max_add
    → p ≢ null
    → p ≤ max_proc
    → ((b : Ptr) → has p (f b) ≡ false)
    → Returns (λ full t. (full ≡ false) × Represents t (enqueued f a p)) (insert_blocked a p s)
insert_blocked-ne_full s f a p r positive below real pool out =
    Returns-weaken (insert_blocked-Inserted s f a p r positive below real pool out)
      λ full t after. found full t after
  where
    found :
        (full : Bool) (t : Semds)
        → Inserted s f a p full t
        → (full ≡ false) × Represents t (enqueued f a p)
    found full t (inl (_, _, _, none)) = absurd (Represents-free s f p r real pool out none)
    found full t (inr (room, map, _)) = (room, map)
