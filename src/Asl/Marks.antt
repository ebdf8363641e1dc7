-- ===== src/Asl/Marks.antt =====
-- The blocks that wait on a semaphore of src/asl.c: their mark, their number and their place.
use progetto_so.Base.{
  ◌≤◌, ◌<◌, ◌≡◌, ◌∙◌, ap, true, inl, inr, Bool-cases, List, [], ◌∷◌, arith, Ptr, has, length, ◌==◌,
}
use mathlib.Core.Path.{subst}
use progetto_so.Pcb.Defs.{max_proc}
use progetto_so.Pcb.Ring.{IsQueue-no_null}
use progetto_so.Asl.Defs.{Semds}
use progetto_so.Asl.Entries.{Entry, AllHold, IsAscending, queue_of, Represents}
use progetto_so.Asl.Out.{positive, queue-length}

-- The block is one of the table, and marked with the semaphore.
abbrev pub IsWaiter : Semds → (b q : Ptr) → Type 0
IsWaiter s b q = (s.pcbs.p_sem_add q ≡ b) × (0 < b) × (0 < q) × (q ≤ max_proc)

IsWaiter-in :
    (s : Semds) (free : List Ptr) (low b q : Ptr) (es : List Entry)
    → AllHold s free es
    → IsAscending low es
    → has q (queue_of b es) ≡ true
    → IsWaiter s b q
IsWaiter-in s free low b q [] hs asc i = absurd (cc)
IsWaiter-in s free low b q (e ∷ es) (h, hs) (lt, asc) i = elim (Bool-cases (e.add == b)) [
  | inl g ↦
      let in_e : has q e.blocks ≡ true = ground (arith, i, g) in
      let no_null =
        IsQueue-no_null s.pcbs.p_next s.pcbs.p_prev (s.s_proc_q e.desc) e.blocks h.queue in
      let is_b : e.add ≡ b = ground arith in
      (
        h.marked q in_e ∙ is_b,
        omega (arith, lt, is_b),
        positive q e.blocks in_e no_null,
        h.in_pool q in_e,
      )
  | inr g ↦ IsWaiter-in s free e.add b q es hs asc (ground (arith, i, g))
]

pub Represents-IsWaiter :
    (s : Semds) (f : Ptr → List Ptr) (b q : Ptr)
    → Represents s f
    → has q (f b) ≡ true
    → IsWaiter s b q
Represents-IsWaiter s f b q r i =
    IsWaiter-in s r.free 0 b q r.entries r.asl.holds r.asl.ascending (ap (has q) (r.agrees b) ∙ i)

length_in :
    (s : Semds) (free : List Ptr) (b : Ptr) (es : List Entry)
    → AllHold s free es
    → length (queue_of b es) ≤ max_proc
length_in s free b [] hs = omega arith
length_in s free b (e ∷ es) (h, hs) = elim (Bool-cases (e.add == b)) [
  | inl g ↦ rw g (queue-length s free e h)
  | inr g ↦ rw g (length_in s free b es hs)
]

-- At most as many blocks wait on a semaphore as the table has.
pub Represents-length :
    (s : Semds) (f : Ptr → List Ptr) (b : Ptr) → Represents s f → length (f b) ≤ max_proc
Represents-length s f b r =
    subst (λ l. length l ≤ max_proc) (r.agrees b) (length_in s r.free b r.entries r.asl.holds)
