-- ===== src/Nucleus/SafeClock.antt =====
-- The other calls of src/nucleousSystemCalls.c: the clock, the time used, the support structure.
use progetto_so.Base.{
  ℕ, ◌+◌, ◌<◌, ◌≡◌, ◌≢◌, refl, Bool, true, false, inl, inr, Bool-cases, List, arith, pos, ◌+ℤ◌,
  ◌-ℤ◌, ltb_ℤ, Ptr, null, update, ok, stop, Outcome, and_then, Returns-inv, Ends, ends,
  Ends-and_then, ◌==◌, ◌>>=◌,
}
use progetto_so.Asl.Defs.{Semds, max_add, insert_blocked}
use progetto_so.Nucleus.Machine.{Arch, Kernel, with_reg, int_word, clock_semaphore, copy_state}
use progetto_so.Nucleus.Sched.{scheduler, load_process}
use progetto_so.Nucleus.Calls.{
  current, wait_for_clock, get_cpu_time, get_support_data, block_current_process_at, passup_or_die,
}
use progetto_so.Nucleus.Switch.{procs}
use progetto_so.Nucleus.Block.{charged, blocked, blocks}
use progetto_so.Nucleus.WaitIo.{asking}
use progetto_so.Nucleus.Good.{IsQueued, IsRunning, IsGood}
use progetto_so.Nucleus.SafeCalls.{after_block, runs_on, asking-IsQueued}

module _ (arch : Arch) (k : Kernel) (p : Ptr) where
  clock_run_blocks :
      (full : Bool) (s : Semds)
      → k.current_process ≡ p
      → p ≢ null
      → ltb_ℤ (k.ints (clock_semaphore arch) -ℤ pos 1) (pos 0) ≡ true
      → insert_blocked (clock_semaphore arch) p (charged (asking k (clock_semaphore arch)) p)
        ≡ ok full s
      → wait_for_clock arch k
        ≡ and_then
            (scheduler arch (blocked (asking k (clock_semaphore arch)) s))
            (λ _. current >>= load_process)
  unfolding wait_for_clock block_current_process_at
  clock_run_blocks full s is_p real waits run = ground arith

  clock_run_goes_on :
      k.current_process ≡ p
      → p ≢ null
      → ltb_ℤ (k.ints (clock_semaphore arch) -ℤ pos 1) (pos 0) ≡ false
      → wait_for_clock arch k
        ≡ stop (Outcome.load_state p) (record k {
          ints = update k.ints (clock_semaphore arch) (k.ints (clock_semaphore arch) -ℤ pos 1);
          current_process = p;
        })
  unfolding wait_for_clock load_process
  clock_run_goes_on is_p real goes = ground arith

  -- The block of the process, charged, with a register set.
  abbrev answered : Kernel → ℕ → Kernel
  answered t v = record t {
    semds = record t.semds {
      pcbs = record (procs t) {
        p_s = update (procs t).p_s p (with_reg arch.reg_v0 v ((procs t).p_s p));
      };
    };
    current_process = p;
  }

  cpu_time_run :
      k.current_process ≡ p
      → p ≢ null
      → get_cpu_time arch k
        ≡ stop
            (Outcome.load_state p)
            (record (answered
              (record k { semds = charged k p; tod_reads = k.tod_reads + 1 })
              (int_word ((procs k).p_time p +ℤ (k.tod k.tod_reads -ℤ k.start_t)))) {
                start_t = k.tod k.tod_reads;
              })
  unfolding get_cpu_time load_process
  cpu_time_run is_p real = ground arith

  support_run :
      k.current_process ≡ p
      → p ≢ null
      → get_support_data arch k
        ≡ stop (Outcome.load_state p) (answered k ((procs k).p_support_struct p))
  unfolding get_support_data load_process
  support_run is_p real = ground arith

  passup_run_die :
      (kind : ℕ)
      → k.current_process ≡ p
      → p ≢ null
      → (procs k).p_support_struct p ≡ null
      → passup_or_die arch kind k ≡ stop (Outcome.syscall 2) k
  unfolding passup_or_die
  passup_run_die kind is_p real none = ground arith

  -- The exception state of the support structure `u`, for the kind of exception.
  abbrev passed_up : ℕ → Ptr → Kernel
  passed_up kind u =
      let old = k.sup_except_state u in
      record k {
        sup_except_state =
            update k.sup_except_state u
              (update old kind (copy_state arch k.bios_data_page (old kind)));
      }

  passup_run_up :
      (kind u : ℕ)
      → k.current_process ≡ p
      → p ≢ null
      → (procs k).p_support_struct p ≡ u
      → u ≢ null
      → passup_or_die arch kind k
        ≡ stop
            (Outcome.load_context
              (k.sup_except_context u kind).stack_ptr
              (k.sup_except_context u kind).status
              (k.sup_except_context u kind).pc)
            (passed_up kind u)
  unfolding passup_or_die
  passup_run_up kind u is_p real is_u real_u = ground arith

module _ (arch : Arch) (k : Kernel) (f : Ptr → List Ptr) (xs : List Ptr) (p : Ptr) where
  pub wait_for_clock-Ends :
      IsQueued k f xs
      → IsRunning p f xs
      → k.current_process ≡ p
      → clock_semaphore arch < max_add
      → Ends IsGood (wait_for_clock arch k)
  wait_for_clock-Ends h r is_p below =
      let c = clock_semaphore arch in
      elim (Bool-cases (ltb_ℤ (k.ints c -ℤ pos 1) (pos 0))) [
        | inl waits ↦
            let h' = asking-IsQueued arch k f xs p c h in
            let (full, s, run, after) =
              Returns-inv
                (blocks (asking k c) f p c xs h'.kernel r.0 r.1 r.2 (omega arith) below) in
            rw (clock_run_blocks arch k p full s is_p r.0 waits run) (
              Ends-and_then (after_block arch (asking k c) f xs p c s h' after)
                (λ _. current >>= load_process))
        | inr goes ↦ rw (clock_run_goes_on arch k p is_p r.0 goes) (
            ends (
              runs_on arch k f xs p
                (record k { ints = update k.ints c (k.ints c -ℤ pos 1); current_process = p }) h r
                (refl, refl, refl, refl, refl) refl))
      ]

  pub get_cpu_time-Ends :
      IsQueued k f xs → IsRunning p f xs → k.current_process ≡ p → Ends IsGood (get_cpu_time arch k)
  get_cpu_time-Ends h r is_p =
      let time = int_word ((procs k).p_time p +ℤ (k.tod k.tod_reads -ℤ k.start_t)) in
      let t : Kernel = record k { semds = charged k p; tod_reads = k.tod_reads + 1 } in
      rw (cpu_time_run arch k p is_p r.0) (
        ends (
          runs_on arch k f xs p (record (answered arch k p t time) { start_t = k.tod k.tod_reads })
            h r (refl, refl, refl, refl, refl) refl))

  pub get_support_data-Ends :
      IsQueued k f xs
      → IsRunning p f xs
      → k.current_process ≡ p
      → Ends IsGood (get_support_data arch k)
  get_support_data-Ends h r is_p = rw (support_run arch k p is_p r.0) (
      ends (
        runs_on arch k f xs p (answered arch k p k ((procs k).p_support_struct p)) h r
          (refl, refl, refl, refl, refl) refl))

  pub passup_or_die-Ends :
      (kind : ℕ)
      → IsQueued k f xs
      → IsRunning p f xs
      → k.current_process ≡ p
      → Ends IsGood (passup_or_die arch kind k)
  passup_or_die-Ends kind h r is_p =
      let u = (procs k).p_support_struct p in
      elim (Bool-cases (u == null)) [
        | inl none ↦
            rw (passup_run_die arch k p kind is_p r.0 (ground arith))
              (ends (runs_on arch k f xs p k h r (refl, refl, refl, refl, refl) is_p))
        | inr some ↦ rw (passup_run_up arch k p kind u is_p r.0 refl (ground arith)) (
            ends (
              runs_on arch k f xs p (passed_up arch k p kind u) h r (refl, refl, refl, refl, refl)
                is_p))
      ]
