-- ===== src/Nucleus/After.antt =====
-- What the end of several processes leaves, in the order of `terminate_Process_rec` of
-- src/nucleousSystemCalls.c.
use progetto_so.Base.{
  ◌≡◌, ◌≢◌, refl, ap, ◌∙◌, sym, inl, inr, true, false, List, [], ◌∷◌, ◌++◌, arith, pos, ◌-ℤ◌,
  -ℤ_add, Ptr, has, length, length-append,
}
use mathlib.Core.Path.{subst}
use mathlib.Core.List.{append_assoc}
use progetto_so.Pcb.Defs.{Pcbs}
use progetto_so.Pcb.Ring.{has-append}
use progetto_so.Pcb.Erase.{erase}
use progetto_so.Pcb.Forest.{KeepsFirst}
use progetto_so.Nucleus.Machine.{Kernel}
use progetto_so.Nucleus.Switch.{procs}
use progetto_so.Nucleus.Gone.{IsTable, IsMarked, without}
use progetto_so.Nucleus.Ended.{IsEnded}

-- The queues without the blocks `ps`.
abbrev pub withouts : List Ptr → (Ptr → List Ptr) → Ptr → List Ptr
withouts [] f = f
withouts (p ∷ ps) f = withouts ps (without p f)

abbrev pub erases : List Ptr → List Ptr → List Ptr
erases [] xs = xs
erases (p ∷ ps) xs = erases ps (erase p xs)

withouts-append :
    (ps qs : List Ptr) (f : Ptr → List Ptr) → withouts (ps ++ qs) f ≡ withouts qs (withouts ps f)
withouts-append [] qs f = refl
withouts-append (p ∷ ps) qs f = withouts-append ps qs (without p f)

erases-append : (ps qs xs : List Ptr) → erases (ps ++ qs) xs ≡ erases qs (erases ps xs)
erases-append [] qs xs = refl
erases-append (p ∷ ps) qs xs = erases-append ps qs (erase p xs)

has-erase_other : (p q : Ptr) (ys : List Ptr) → q ≢ p → has q (erase p ys) ≡ has q ys
has-erase_other p q [] ne = refl
has-erase_other p q (y ∷ ys) ne = ground (arith, has-erase_other p q ys ne)

has-withouts :
    (ps : List Ptr) (f : Ptr → List Ptr) (b q : Ptr)
    → has q ps ≡ false
    → has q (withouts ps f b) ≡ has q (f b)
has-withouts [] f b q o = refl
has-withouts (p ∷ ps) f b q o =
    has-withouts ps (without p f) b q (ground arith) ∙ has-erase_other p q (f b) (ground arith)

-- The blocks `ps` are in use, and each is marked with what it waits for.
pub record AreInUse (k : Kernel) (f : Ptr → List Ptr) (fs ps : List Ptr) : Type 0 where
  pub marked : (q : Ptr) → has q ps ≡ true → IsMarked k f q
  pub used : (q : Ptr) → has q ps ≡ true → has q fs ≡ false

pub AreInUse-part :
    (k : Kernel) (f : Ptr → List Ptr) (fs ps qs : List Ptr)
    → ((q : Ptr) → has q qs ≡ true → has q ps ≡ true)
    → AreInUse k f fs ps
    → AreInUse k f fs qs
AreInUse-part k f fs ps qs part h = record {
  marked = λ q i. h.marked q (part q i);
  used = λ q i. h.used q (part q i);
}

-- The blocks `ps` are taken off all queues and freed in this order; of the tree, only links at `hs`
-- are changed.
pub record After (k : Kernel) (f : Ptr → List Ptr) (xs fs ps hs : List Ptr) (t : Kernel)
    : Type 0 where
  pub table : IsTable t (withouts ps f) (erases ps xs) (fs ++ ps)
  pub counted : (procs t).process_count ≡ (procs k).process_count -ℤ pos (length ps)
  pub marks : (q : Ptr) → has q ps ≡ false → (procs t).p_sem_add q ≡ (procs k).p_sem_add q
  pub child : (q : Ptr) → has q hs ≡ false → (procs t).p_child q ≡ (procs k).p_child q
  pub next : (q : Ptr) → has q hs ≡ false → (procs t).p_next_sib q ≡ (procs k).p_next_sib q
  pub first : KeepsFirst (procs k).p_prev_sib (procs t).p_prev_sib
  pub rest : t ≡ record k { semds = t.semds; ready_queue = t.ready_queue; ints = t.ints }

pub After-one :
    (k : Kernel) (f : Ptr → List Ptr) (xs fs : List Ptr) (p : Ptr) (t : Kernel)
    → IsTable t (without p f) (erase p xs) (fs ++ p ∷ [])
    → IsEnded k p t
    → After k f xs fs (p ∷ []) [] t
After-one k f xs fs p t h e = record {
  table = h;
  counted = e.counted;
  marks = λ q o. e.marks q (ground arith);
  child = λ q o. ap (λ (u : Pcbs). u.p_child q) e.table;
  next = λ q o. ap (λ (u : Pcbs). u.p_next_sib q) e.table;
  first = λ q none. ap (λ (u : Pcbs). u.p_prev_sib q) e.table ∙ none;
  rest = e.rest;
}

module _ (k t : Kernel) (f : Ptr → List Ptr) (xs fs ps hs : List Ptr) where
  -- Those that are not among them are in use as before.
  pub After-AreInUse :
      (qs : List Ptr)
      → After k f xs fs ps hs t
      → ((q : Ptr) → has q qs ≡ true → has q ps ≡ false)
      → AreInUse k f fs qs
      → AreInUse t (withouts ps f) (fs ++ ps) qs
  After-AreInUse qs after apart h = record {
    marked = λ q i. elim (h.marked q i) [
      | inl none ↦ inl (after.marks q (apart q i) ∙ none)
      | inr waits ↦ inr (
          ap (λ a. has q (withouts ps f a)) (after.marks q (apart q i))
          ∙ has-withouts ps f ((procs k).p_sem_add q) q (apart q i)
          ∙ waits)
    ];
    used = λ q i. ground (arith, has-append q fs ps, h.used q i, apart q i);
  }

  -- One list of processes ends, and then another.
  pub After-append :
      (qs gs : List Ptr) (u : Kernel)
      → After k f xs fs ps hs t
      → After t (withouts ps f) (erases ps xs) (fs ++ ps) qs gs u
      → After k f xs fs (ps ++ qs) (hs ++ gs) u
  After-append qs gs u a b = record {
    table =
        subst (λ l. IsTable u (withouts (ps ++ qs) f) (erases (ps ++ qs) xs) l)
          (append_assoc fs ps qs)
          (subst (λ l. IsTable u (withouts (ps ++ qs) f) l ((fs ++ ps) ++ qs))
            (sym (erases-append ps qs xs))
            (subst (λ g. IsTable u g (erases qs (erases ps xs)) ((fs ++ ps) ++ qs))
              (sym (withouts-append ps qs f)) b.table));
    counted =
        b.counted
        ∙ ap (λ n. n -ℤ pos (length qs)) a.counted
        ∙ -ℤ_add (procs k).process_count (length ps) (length qs)
        ∙ ap (λ n. (procs k).process_count -ℤ pos n) (sym (length-append ps qs));
    marks = λ q o.
        b.marks q (ground (arith, has-append q ps qs))
        ∙ a.marks q (ground (arith, has-append q ps qs));
    child = λ q o.
        b.child q (ground (arith, has-append q hs gs))
        ∙ a.child q (ground (arith, has-append q hs gs));
    next = λ q o.
        b.next q (ground (arith, has-append q hs gs))
        ∙ a.next q (ground (arith, has-append q hs gs));
    first = λ q none. b.first q (a.first q none);
    rest =
        b.rest
        ∙ ap
            (λ (v : Kernel). record v {
              semds = u.semds;
              ready_queue = u.ready_queue;
              ints = u.ints;
            })
            a.rest;
  }

pub After-weaken :
    (k t : Kernel) (f : Ptr → List Ptr) (xs fs ps hs gs : List Ptr)
    → ((q : Ptr) → has q gs ≡ false → has q hs ≡ false)
    → After k f xs fs ps hs t
    → After k f xs fs ps gs t
After-weaken k t f xs fs ps hs gs fewer a = record {
  table = a.table;
  counted = a.counted;
  marks = a.marks;
  child = λ q o. a.child q (fewer q o);
  next = λ q o. a.next q (fewer q o);
  first = a.first;
  rest = a.rest;
}

-- The links of the tree are of no matter to the queues.
abbrev pub treed : Kernel → Pcbs → Kernel
treed k v = record k { semds = record k.semds { pcbs = v } }
