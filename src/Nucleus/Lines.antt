-- ===== src/Nucleus/Lines.antt =====
-- `getSemIndex` of src/nucleousSystemCalls.c: the semaphore of a device.
use progetto_so.Base.{
  ℕ, ◌+◌, ◌-◌, ◌*◌, ◌≡◌, Bool, true, arith, ok, ◌==◌, ◌||◌, ◌&&◌, not, if◌then◌else◌,
}
use progetto_so.Nucleus.Machine.{Arch, Kernel, word}
use progetto_so.Nucleus.Calls.{get_sem_index}

module _ (arch : Arch) where
  -- The lines of the disks, the flash devices, the network and the printers.
  abbrev pub is_dtp_line : ℕ → Bool
  is_dtp_line line =
      (line == arch.disk_int)
      || (line == arch.flash_int)
      || (line == arch.netw_int)
      || (line == arch.prnt_int)

  -- A line of one of these or of the terminals, and not of both.
  abbrev pub is_device_line : ℕ → Bool
  is_device_line line =
      not (line == 2)
      && (if line == arch.term_int then not (is_dtp_line line) else is_dtp_line line)

  -- A terminal's transmitter has its semaphore eight places behind the receiver; places are words.
  abbrev pub place : (line dev : ℕ) → Bool → ℕ
  place line dev recv =
      if (line == arch.term_int) && not recv
      then word ((line - arch.disk_int + 1) * 8 + dev)
      else word ((line - arch.disk_int) * 8 + dev)

  pub get_sem_index_lem :
      (k : Kernel) (line dev : ℕ) (recv : Bool)
      → is_device_line line ≡ true
      → get_sem_index arch line dev recv k ≡ ok (place line dev recv) k
  unfolding get_sem_index
  get_sem_index_lem k line dev recv is_line = ground arith
