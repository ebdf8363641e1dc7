-- ===== src/Nucleus/Served.antt =====
-- `handleDeviceInterrupt` of src/interrupts.c, for the devices and the terminals.
use mathlib.Core.Path.{subst, sym}
use progetto_so.Base.{
  ltb, Bool-cases, inl, inr, ℕ, ◌<◌, ◌≡◌, ◌≢◌, refl, Bool, true, List, arith, Ptr, null, update, ok,
  Returns, returned, Returns-inv, ◌==◌, ◌&&◌, not, if◌then◌else◌,
}
use progetto_so.Asl.Defs.{max_add}
use progetto_so.Nucleus.Machine.{Arch, Kernel, device_sem, to_int}
use progetto_so.Nucleus.Lines.{is_device_line, place, get_sem_index_lem}
use progetto_so.Nucleus.Interrupts.{
  first_bit, get_device_no_from_line, terminal_is_recv, get_term_status, acknowledge_term_interrupt,
  acknowledge_dtp_interrupt, status_and_ack, release_sem_and_update_status, handle_device_interrupt,
}
use progetto_so.Nucleus.Devices.{bit, first_bit_lowest}
use progetto_so.Nucleus.Waits.{IsKernel}
use progetto_so.Nucleus.Release.{Released, wakeable, release_sem-Released}

module _ (arch : Arch) where
  -- The pending device of the line.
  abbrev pub pending : Kernel → ℕ → ℕ
  pending k line = first_bit arch.dev_per_int 0 (k.dev_bitmap line)

  -- A terminal that has received something.
  abbrev pub has_received : Kernel → (line dev : ℕ) → Bool
  has_received k line dev = (line == arch.term_int) && not (k.recv_status dev == arch.ready)

  abbrev pub status_of : Kernel → (line dev : ℕ) → ℕ
  status_of k line dev =
      if has_received k line dev
      then k.recv_status dev
      else if line == arch.term_int
      then k.transm_status dev
      else k.dtp_status line dev

  abbrev pub acked : Kernel → (line dev : ℕ) → Kernel
  acked k line dev = record k {
    recv_command =
        if has_received k line dev then update k.recv_command dev arch.ack else k.recv_command;
    transm_command =
        if (line == arch.term_int) && not (has_received k line dev)
        then update k.transm_command dev arch.ack
        else k.transm_command;
    dtp_command =
        if line == arch.term_int
        then k.dtp_command
        else update k.dtp_command line (update (k.dtp_command line) dev arch.ack);
  }

  abbrev pub index_of : Kernel → (line dev : ℕ) → ℕ
  index_of k line dev = place arch line dev (has_received k line dev)

  status_and_ack_lem :
      (k : Kernel) (line dev : ℕ)
      → status_and_ack arch line dev k
        ≡ ok (has_received k line dev, status_of k line dev) (acked k line dev)
  unfolding status_and_ack terminal_is_recv get_term_status acknowledge_term_interrupt
      acknowledge_dtp_interrupt
  status_and_ack_lem k line dev = ground arith

  device_run :
      (k u : Kernel) (line : ℕ)
      → is_device_line arch line ≡ true
      → release_sem_and_update_status arch
          (index_of k line (pending k line))
          (status_of k line (pending k line))
          (acked k line (pending k line))
        ≡ ok tt u
      → handle_device_interrupt arch line k ≡ ok tt (record u { start_t = to_int u.timer })
  unfolding handle_device_interrupt get_device_no_from_line
  device_run k u line is_line run =
      let status = status_and_ack_lem k line (pending k line) in
      let index =
        get_sem_index_lem arch (acked k line (pending k line)) line (pending k line)
          (has_received k line (pending k line)) is_line in
      ground arith

-- The device is the lowest one of the line whose bit is set in the line's bitmap.
abbrev pub IsLowest : Arch → Kernel → (line dev : ℕ) → Type 0
IsLowest arch k line dev =
    (dev < arch.dev_per_int)
    × (bit dev (k.dev_bitmap line) ≡ 1)
    × ((j : ℕ) → j < dev → bit j (k.dev_bitmap line) ≢ 1)

-- The search finds it.
pending-IsLowest :
    (arch : Arch) (k : Kernel) (line dev : ℕ) → IsLowest arch k line dev → pending arch k line ≡ dev
pending-IsLowest arch k line dev (in_line, set, low) =
    elim (first_bit_lowest arch.dev_per_int 0 (k.dev_bitmap line)) [
      | inl (none, r) ↦ absurd (none dev (omega arith) (omega (arith, in_line)) set)
      | inr (lo, hi, found, first) ↦ elim (Bool-cases (ltb (pending arch k line) dev)) [
        | inl h ↦ absurd (low (pending arch k line) (ground (arith, h)) found)
        | inr h ↦ elim (Bool-cases (ltb dev (pending arch k line))) [
          | inl g ↦ absurd (first dev (omega arith) (ground (arith, g)) set)
          | inr g ↦ ground (arith, g, h)
        ]
      ]
    ]

-- What an interrupt of a line leaves: the device is acknowledged, and its process released.
abbrev pub Served : Arch → Kernel → (Ptr → List Ptr) → (line dev : ℕ) → List Ptr → Kernel → Type 0
Served arch k f line dev xs t =
    let index = index_of arch k line dev in
    (u : Kernel) × Released arch (acked arch k line dev) f index (status_of arch k line dev) xs
      (wakeable arch k f index) u
    × (t ≡ record u { start_t = to_int u.timer })

-- The device that the search finds is served.
pub handle_device_interrupt-Served :
    (arch : Arch) (k : Kernel) (f : Ptr → List Ptr) (line : ℕ) (xs : List Ptr)
    → IsKernel k f xs
    → is_device_line arch line ≡ true
    → device_sem arch (index_of arch k line (pending arch k line)) ≢ null
    → device_sem arch (index_of arch k line (pending arch k line)) < max_add
    → Returns
        (λ _ t. Served arch k f line (pending arch k line) xs t)
        (handle_device_interrupt arch line k)
handle_device_interrupt-Served arch k f line xs h is_line set below =
    let dev = pending arch k line in
    let (_, u, run, after) = Returns-inv (
      release_sem-Released arch (acked arch k line dev) f (index_of arch k line dev)
        (status_of arch k line dev) xs
        (record { waiting = h.waiting; ready = h.ready; apart = h.apart }) set below) in
    rw (device_run arch k u line is_line run) (returned (u, after, refl))

-- An interrupt of a device or a terminal, `dev` being the lowest of the line whose bit in the bitmap
-- is set: this device is acknowledged, a terminal on the side that has something, and the process
-- that has waited longest for it finds the status that the device had in v0 and is the last of the
-- ready ones; the device's semaphore, an address between the sentinels', is the one at its number on
-- the line, the transmitters' eight places behind the receivers'. Where no process waits, or the
-- semaphore is positive, only the device, `softBlockedCount` and `startT` are changed.
pub device_interrupt-Served :
    (arch : Arch) (k : Kernel) (f : Ptr → List Ptr) (line dev : ℕ) (xs : List Ptr)
    → IsKernel k f xs
    → is_device_line arch line ≡ true
    → IsLowest arch k line dev
    → device_sem arch (index_of arch k line dev) ≢ null
    → device_sem arch (index_of arch k line dev) < max_add
    → Returns (λ _ t. Served arch k f line dev xs t) (handle_device_interrupt arch line k)
device_interrupt-Served arch k f line dev xs h is_line lowest set below =
    let is_dev = pending-IsLowest arch k line dev lowest in
    subst (λ d. Returns (λ _ t. Served arch k f line d xs t) (handle_device_interrupt arch line k))
      is_dev
      (handle_device_interrupt-Served arch k f line xs h is_line
        (subst (λ d. device_sem arch (index_of arch k line d) ≢ null) (sym is_dev) set)
        (subst (λ d. device_sem arch (index_of arch k line d) < max_add) (sym is_dev) below))
