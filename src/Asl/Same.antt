-- ===== src/Asl/Same.antt =====
-- The map does not depend on the links and marks of blocks that wait on no semaphore.
use progetto_so.Base.{◌≡◌, ◌∙◌, true, List, Ptr, has}
use mathlib.Core.Path.{subst}
use progetto_so.Pcb.Defs.{Pcbs}
use progetto_so.Pcb.Frame.{IsQueue-frame}
use progetto_so.Asl.Defs.{Semds}
use progetto_so.Asl.Entries.{Entry, Holds, Represents}
use progetto_so.Asl.Frame.{AllHold-map, each-blocks}

-- Links and mark of the block are the same.
abbrev pub SameBlock : Pcbs → Pcbs → Ptr → Type 0
SameBlock s t q =
    (t.p_next q ≡ s.p_next q) × (t.p_prev q ≡ s.p_prev q) × (t.p_sem_add q ≡ s.p_sem_add q)

abbrev SameBlocks : Pcbs → Pcbs → List Ptr → Type 0
SameBlocks s t xs = (q : Ptr) → has q xs ≡ true → SameBlock s t q

Holds-same :
    (s : Semds) (t : Pcbs) (free : List Ptr) (e : Entry)
    → Holds s free e
    → SameBlocks s.pcbs t e.blocks
    → Holds (record s { pcbs = t }) free e
Holds-same s t free e h same = record {
  in_table = h.in_table;
  not_free = h.not_free;
  is_add = h.is_add;
  below_max = h.below_max;
  queue =
      IsQueue-frame s.pcbs.p_next s.pcbs.p_prev t.p_next t.p_prev (s.s_proc_q e.desc) e.blocks
        (λ q i. (same q i).0) (λ q i. (same q i).1) h.queue;
  waits = h.waits;
  marked = λ q i. (same q i).2 ∙ h.marked q i;
  in_pool = h.in_pool;
}

pub Represents-same :
    (s : Semds) (t : Pcbs) (f : Ptr → List Ptr)
    → Represents s f
    → ((b q : Ptr) → has q (f b) ≡ true → SameBlock s.pcbs t q)
    → Represents (record s { pcbs = t }) f
Represents-same s t f r same = record {
  entries = r.entries;
  free = r.free;
  asl = record {
    head = r.asl.head;
    upper_add = r.asl.upper_add;
    upper_queue = r.asl.upper_queue;
    links = r.asl.links;
    ascending = r.asl.ascending;
    holds =
        AllHold-map (λ e h p. Holds-same s t r.free e h p) r.entries r.asl.holds
          (each-blocks (SameBlocks s.pcbs t) 0 r.entries (λ q i. absurd (cc)) r.asl.ascending
            (λ b q i. same b q (subst (λ l. has q l ≡ true) (r.agrees b) i)));
    free_list = r.asl.free_list;
    distinct = r.asl.distinct;
    free_in_table = r.asl.free_in_table;
    count = r.asl.count;
  };
  agrees = r.agrees;
}

-- Only the values of the map matter.
pub Represents-map :
    (s : Semds) (f g : Ptr → List Ptr) → Represents s f → ((b : Ptr) → f b ≡ g b) → Represents s g
Represents-map s f g r h = record {
  entries = r.entries;
  free = r.free;
  asl = r.asl;
  agrees = λ b. r.agrees b ∙ h b;
}
