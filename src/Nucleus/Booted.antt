-- ===== src/Nucleus/Booted.antt =====
-- `main` of src/init.c: from the machine as it is switched on to the first process.
use progetto_so.Base.{
  ◌≡◌, ◌≢◌, refl, sym, ap, ◌∙◌, ℕ, [], ◌∷◌, arith, ℤ, pos, Ptr, null, update, ok, Outcome, Leaves,
  Leaves-weaken, Returns-inv,
}
use mathlib.Core.Path.{subst}
use progetto_so.Pcb.Defs.{Pcbs, ProcState, max_proc, init_pcbs, alloc_pcb, insert_proc_q}
use progetto_so.Pcb.Ring.{IsQueue, empty}
use progetto_so.Pcb.Queue.{OnlyLinks, insert_proc_q-append}
use progetto_so.Pcb.Alloc.{IsFreeList, alloc_pcb-Allocated}
use progetto_so.Pcb.Init.{entries_from, init_pcbs-IsFreeList}
use progetto_so.Asl.Defs.{Semds, init_asl}
use progetto_so.Asl.Entries.{Represents}
use progetto_so.Asl.Same.{Represents-same}
use progetto_so.Asl.Init.{init_asl-Represents}
use progetto_so.Nucleus.Machine.{Arch, Kernel, with_reg, clock_semaphore}
use progetto_so.Nucleus.Sched.{scheduler}
use progetto_so.Nucleus.Start.{
  handlers, init_passup_vector, load_interval_timer, init_first_process, main,
}
use progetto_so.Nucleus.Switch.{procs, Runs}
use progetto_so.Nucleus.Waits.{IsKernel, scheduler-IsKernel}

-- The state in which the first process starts, over what its block held.
abbrev pub first_state : Arch → ℕ → ProcState → ProcState
first_state arch ram_top st =
    record (with_reg arch.reg_sp ram_top (with_reg arch.reg_t9 arch.test_phase_3 st)) {
      pc_epc = arch.test_phase_3;
      status = arch.first_status;
    }

-- The block of the first process, filled in.
abbrev prepared : Arch → ℕ → Pcbs → Pcbs
prepared arch ram_top t = record t {
  p_s = update t.p_s 1 (first_state arch ram_top (t.p_s 1));
  p_time = update t.p_time 1 (pos 0);
  p_sem_add = update t.p_sem_add 1 null;
  p_support_struct = update t.p_support_struct 1 null;
}

abbrev booted : Arch → Kernel → Semds → Pcbs → Ptr → Kernel
booted arch k s t tp = record k {
  passup_vector = handlers arch;
  semds = record s { pcbs = t };
  ready_queue = tp;
  current_process = null;
  ints = update k.ints (clock_semaphore arch) (pos 0);
  interval_timer = 100000;
}

main_run :
    (arch : Arch) (k : Kernel) (p t u : Pcbs) (s : Semds) (tp : Ptr)
    → init_pcbs (procs k) ≡ ok tt p
    → init_asl (record k.semds { pcbs = p }) ≡ ok tt s
    → alloc_pcb s.pcbs ≡ ok 1 t
    → insert_proc_q null 1 (prepared arch k.ram_top t) ≡ ok tp u
    → main arch k ≡ scheduler arch (booted arch k s u tp)
unfolding main init_first_process init_passup_vector load_interval_timer
main_run arch k p t u s tp pcbs asl allocated inserted = ground arith

-- The first process runs, alone, in its first state, and no process waits on a semaphore.
abbrev pub Booted : Arch → Kernel → Kernel → Type 0
Booted arch k t =
    Runs 1 [] t
    × IsKernel t (λ _. []) []
    × ((old : ProcState) × ((procs t).p_s 1 ≡ first_state arch k.ram_top old))
    × (t.passup_vector ≡ handlers arch)
    × (t.ints (clock_semaphore arch) ≡ pos 0)
    × (t.interval_timer ≡ 100000)

first_starts :
    (arch : Arch) (k : Kernel) (s : Semds) (t u : Pcbs) (tp : Ptr)
    → Represents s (λ _. [])
    → IsQueue u.p_next u.p_prev tp (1 ∷ [])
    → OnlyLinks (1 ∷ []) (prepared arch k.ram_top t) u
    → Leaves (Outcome.load_state 1) (Booted arch k) (scheduler arch (booted arch k s u tp))
first_starts arch k s t u tp empty_map queue links =
    Leaves-weaken
      (scheduler-IsKernel arch (booted arch k s u tp) (λ _. []) 1 []
        (record {
          waiting = Represents-same s u (λ _. []) empty_map (λ b q i. absurd (cc));
          ready = queue;
          apart = λ b q i. absurd (cc);
        }))
      λ v (runs, kernel, switch, only). (
        runs,
        kernel,
        (t.p_s 1, ap (λ (w : Pcbs). w.p_s 1) only.rest ∙ ap (λ (w : Pcbs). w.p_s 1) links.rest),
        ap (λ (w : Kernel). w.passup_vector) switch,
        ap (λ (w : Kernel). w.ints (clock_semaphore arch)) switch
            ∙ update_at k.ints (clock_semaphore arch),
        ap (λ (w : Kernel). w.interval_timer) switch,
      )
  where
    update_at : (m : Ptr → ℤ) (a : Ptr) → update m a (pos 0) a ≡ pos 0
    update_at m a = ground arith

-- From any state `main` comes to the first process, in the first block of the table: it runs for a
-- time slice from the start of the test with the interrupts on and the stack at the top of the
-- memory, no other process is ready or waits on a semaphore, the clock's semaphore is zero, and the
-- machine finds the handlers in the pass-up vector.
pub main-Booted :
    (arch : Arch) (k : Kernel) → Leaves (Outcome.load_state 1) (Booted arch k) (main arch k)
main-Booted arch k =
    let (_, p, pcbs, free) = Returns-inv (init_pcbs-IsFreeList (procs k)) in
    let (_, s, asl, (empty_map, same)) =
      Returns-inv (init_asl-Represents (record k.semds { pcbs = p })) in
    let (x, t, run, (is_first, allocated)) = Returns-inv (
      alloc_pcb-Allocated 1 (entries_from 39 1) s.pcbs (
        subst (λ v. IsFreeList v.p_next v.p_prev v.pcb_free_h (entries_from max_proc 0)) (sym same)
          free)) in
    let (tp, u, inserted, (is_tail, queue, links)) =
      Returns-inv
        (insert_proc_q-append null 1 [] (prepared arch k.ram_top t) (empty refl) one_real refl) in
    rw
      (main_run arch k p t u s tp pcbs asl (subst (λ v. alloc_pcb s.pcbs ≡ ok v t) is_first run)
        inserted)
      (first_starts arch k s t u tp empty_map queue links)
  where
    one_real : ◌≢◌ {A = ℕ} 1 null
    one_real = omega arith
