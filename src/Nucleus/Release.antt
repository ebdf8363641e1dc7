-- ===== src/Nucleus/Release.antt =====
-- `releaseSemAndUpdateStatus` and `handleDeviceInterrupt` of src/interrupts.c.
use progetto_so.Base.{
  ℕ, ◌<◌, ◌≡◌, ◌≢◌, refl, true, false, inl, inr, Bool-cases, List, [], ◌∷◌, ◌++◌, arith, pos, ◌+ℤ◌,
  ◌-ℤ◌, ltb_ℤ, Ptr, null, update, ok, Returns, returned, if◌then◌else◌,
}
use progetto_so.Pcb.Defs.{Pcbs, ProcState, insert_proc_q}
use progetto_so.Asl.Defs.{Semds, max_add, remove_blocked}
use progetto_so.Asl.Remove.{requeued}
use progetto_so.Nucleus.Machine.{Arch, Kernel, device_sem, with_reg}
use progetto_so.Nucleus.Interrupts.{release_sem_and_update_status}
use progetto_so.Nucleus.Switch.{procs}
use progetto_so.Nucleus.Waits.{IsKernel}
use progetto_so.Nucleus.Wake.{waked, restated, wakes, wakes_none}

-- The register v0 of the process, set to the device's status.
abbrev pub answered : Arch → ℕ → Ptr → (Ptr → ProcState) → Ptr → ProcState
answered arch status y st = update st y (with_reg arch.reg_v0 status (st y))

-- One process less waits for a device.
abbrev pub released : Kernel → Kernel
released k = record k { soft_blocked_count = k.soft_blocked_count -ℤ pos 1 }

module _ (arch : Arch) (k : Kernel) (index status : ℕ) where
  release_run_wakes :
      (y tp : Ptr) (s : Semds) (t : Pcbs)
      → device_sem arch index ≢ null
      → ltb_ℤ (k.ints (device_sem arch index)) (pos 1) ≡ true
      → remove_blocked (device_sem arch index) k.semds ≡ ok y s
      → y ≢ null
      → insert_proc_q k.ready_queue y (restated (answered arch status y) s.pcbs) ≡ ok tp t
      → release_sem_and_update_status arch index status k
        ≡ ok tt (record (waked (released k) s t tp) {
          ints = update k.ints (device_sem arch index) (k.ints (device_sem arch index) +ℤ pos 1);
        })
  unfolding release_sem_and_update_status
  release_run_wakes y tp s t set low removed real inserted = ground arith

  release_run_none :
      device_sem arch index ≢ null
      → ltb_ℤ (k.ints (device_sem arch index)) (pos 1) ≡ true
      → remove_blocked (device_sem arch index) k.semds ≡ ok null k.semds
      → release_sem_and_update_status arch index status k ≡ ok tt (released k)
  unfolding release_sem_and_update_status
  release_run_none set low none = ground arith

  release_run_positive :
      device_sem arch index ≢ null
      → ltb_ℤ (k.ints (device_sem arch index)) (pos 1) ≡ false
      → release_sem_and_update_status arch index status k ≡ ok tt (released k)
  unfolding release_sem_and_update_status
  release_run_positive set high = ground arith

-- What is left when the operation of the device at `index` ends, by the processes that wait for it.
abbrev pub Released :
    Arch
    → Kernel
    → (Ptr → List Ptr)
    → (index status : ℕ) → (xs waiting : List Ptr) → Kernel
    → Type 0
Released arch k f index status xs [] t = (t ≡ released k)
Released arch k f index status xs (y ∷ ys) t =
    IsKernel t (requeued f (device_sem arch index) ys) (xs ++ y ∷ [])
    × ((procs t).p_s ≡ answered arch status y (procs k).p_s)
    × (t ≡ record (released k) {
      semds = t.semds;
      ready_queue = t.ready_queue;
      ints = update k.ints (device_sem arch index) (k.ints (device_sem arch index) +ℤ pos 1);
    })

-- The processes that the end of the operation can wake: none while the semaphore is positive.
abbrev pub wakeable : Arch → Kernel → (Ptr → List Ptr) → ℕ → List Ptr
wakeable arch k f index =
    if ltb_ℤ (k.ints (device_sem arch index)) (pos 1) then f (device_sem arch index) else []

module _ (arch : Arch) (k : Kernel) (f : Ptr → List Ptr) (index status : ℕ) (xs : List Ptr) where
  release_low :
      (ys : List Ptr)
      → f (device_sem arch index) ≡ ys
      → IsKernel k f xs
      → device_sem arch index ≢ null
      → device_sem arch index < max_add
      → ltb_ℤ (k.ints (device_sem arch index)) (pos 1) ≡ true
      → Returns
          (λ _ t. Released arch k f index status xs ys t)
          (release_sem_and_update_status arch index status k)
  release_low [] queue h set below low =
      let (none, same) = wakes_none k f (device_sem arch index) xs h queue below in
      rw (release_run_none arch k index status set low none) (returned refl)
  release_low (y ∷ ys) queue h set below low =
      let w = wakes (answered arch status y) k f (device_sem arch index) y ys xs h queue below in
      rw
        (release_run_wakes arch k index status y w.tail w.semds w.table set low w.removed w.real
          w.inserted)
        (returned (
          record { waiting = w.kernel.waiting; ready = w.kernel.ready; apart = w.kernel.apart },
          w.states,
          refl,
        ))

  -- At the end of a device's operation the process that has waited longest for it, if its semaphore
  -- is not positive, finds the status in v0 and goes behind the ready ones, and the semaphore is one
  -- more; the others stay in order. Where none is woken only `softBlockedCount` is changed: it is one
  -- less in every case.
  pub release_sem-Released :
      IsKernel k f xs
      → device_sem arch index ≢ null
      → device_sem arch index < max_add
      → Returns
          (λ _ t. Released arch k f index status xs (wakeable arch k f index) t)
          (release_sem_and_update_status arch index status k)
  release_sem-Released h set below =
      elim (Bool-cases (ltb_ℤ (k.ints (device_sem arch index)) (pos 1))) [
        | inl low ↦ rw low (release_low (f (device_sem arch index)) refl h set below low)
        | inr high ↦ rw (release_run_positive arch k index status set high, high) (returned refl)
      ]
