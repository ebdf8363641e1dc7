-- ===== src/Asl/Entries.antt =====
-- The active semaphores of src/asl.c as a list of entries, each with its queue of blocks.
use progetto_so.Base.{
  ◌+◌, ◌≤◌, ◌<◌, ◌≡◌, ◌≢◌, refl, true, false, List, [], ◌∷◌, ◌++◌, arith, Ptr, null, has, length,
  ltb, ◌==◌, if◌then◌else◌,
}
use progetto_so.Pcb.Defs.{max_proc}
use progetto_so.Pcb.Ring.{Distinct, IsQueue}
use progetto_so.Asl.Defs.{Semds, max_add, semd_entry}

-- A descriptor in the active list, the semaphore that it stands for, and the blocks that wait.
pub record Entry : Type 0 where
  pub desc : Ptr
  pub add : Ptr
  pub blocks : List Ptr

abbrev pub descs : List Entry → List Ptr
descs [] = []
descs (e ∷ es) = e.desc ∷ descs es

-- From `p` the links lead through the descriptors `ds` to `e`.
abbrev pub Seg : (Ptr → Ptr) → Ptr → List Ptr → Ptr → Type 0
Seg nx p [] e = nx p ≡ e
Seg nx p (d ∷ ds) e = (nx p ≡ d) × Seg nx d ds e

-- The free descriptors, from the head of their list.
abbrev pub IsFree : (Ptr → Ptr) → Ptr → List Ptr → Type 0
IsFree nx h [] = h ≡ null
IsFree nx h (d ∷ ds) = (h ≡ d) × IsFree nx (nx d) ds

abbrev pub IsAscending : Ptr → List Entry → Type 0
IsAscending low [] = Unit {0}
IsAscending low (e ∷ es) = (low < e.add) × IsAscending e.add es

-- The state has what the entry says, and its descriptor is not one of the free ones.
pub record Holds (s : Semds) (free : List Ptr) (e : Entry) : Type 0 where
  pub in_table : 2 < e.desc
  pub not_free : has e.desc free ≡ false
  pub is_add : s.s_sem_add e.desc ≡ e.add
  pub below_max : e.add < max_add
  pub queue : IsQueue s.pcbs.p_next s.pcbs.p_prev (s.s_proc_q e.desc) e.blocks
  pub waits : e.blocks ≢ []
  pub marked : (q : Ptr) → has q e.blocks ≡ true → s.pcbs.p_sem_add q ≡ e.add
  pub in_pool : (q : Ptr) → has q e.blocks ≡ true → q ≤ max_proc

abbrev pub AllHold : Semds → List Ptr → List Entry → Type 0
AllHold s free [] = Unit {0}
AllHold s free (e ∷ es) = Holds s free e × AllHold s free es

-- The active list holds the entries in ascending order between the two sentinels; the other
-- descriptors are free.
pub record IsAsl (s : Semds) (es : List Entry) (free : List Ptr) : Type 0 where
  pub head : s.semd_h ≡ semd_entry 0
  pub upper_add : s.s_sem_add (semd_entry 1) ≡ max_add
  pub upper_queue : s.s_proc_q (semd_entry 1) ≡ null
  pub links : Seg s.s_next (semd_entry 0) (descs es) (semd_entry 1)
  pub ascending : IsAscending 0 es
  pub holds : AllHold s free es
  pub free_list : IsFree s.s_next s.semd_free_h free
  pub distinct : Distinct free
  pub free_in_table : (q : Ptr) → has q free ≡ true → 2 < q
  pub count : length es + length free ≡ max_proc

-- The blocks that wait on a semaphore, oldest first.
abbrev pub queue_of : Ptr → List Entry → List Ptr
queue_of a [] = []
queue_of a (e ∷ es) = if e.add == a then e.blocks else queue_of a es

-- The state represents the map from semaphores to the queues of the blocks that wait on them.
pub record Represents (s : Semds) (f : Ptr → List Ptr) : Type 0 where
  pub entries : List Entry
  pub free : List Ptr
  pub asl : IsAsl s entries free
  pub agrees : (a : Ptr) → queue_of a entries ≡ f a

-- The entries below a semaphore, and the others.
abbrev pub under : Ptr → List Entry → List Entry
under a [] = []
under a (e ∷ es) = if ltb e.add a then e ∷ under a es else []

abbrev pub from : Ptr → List Entry → List Entry
from a [] = []
from a (e ∷ es) = if ltb e.add a then from a es else e ∷ es

pub split_at : (a : Ptr) (es : List Entry) → es ≡ under a es ++ from a es
split_at a [] = refl
split_at a (e ∷ es) = ground (arith, split_at a es)
