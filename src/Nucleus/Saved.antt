-- ===== src/Nucleus/Saved.antt =====
-- `copyState` of src/stateUtil.c.
use progetto_so.Base.{ℕ, zero, suc, ◌+◌, ◌≡◌, refl, arith, if◌then◌else◌, ltb, update, ◌&&◌, not}
use progetto_so.Pcb.Defs.{ProcState}
use progetto_so.Nucleus.Machine.{Arch, copy_gpr, copy_state}

copy_gpr_lem :
    (k i r : ℕ) (src dest : ℕ → ℕ)
    → copy_gpr k i src dest r ≡ (if not (ltb r i) && ltb r (i + k) then src r else dest r)
unfolding copy_gpr
copy_gpr_lem zero i r src dest = ground arith
copy_gpr_lem (suc k) i r src dest =
    ground (arith, copy_gpr_lem k (i + 1) r src (update dest i (src i)))

-- `copyState` makes the general registers that the state holds, and all six others, those of the
-- source; what `gpr` would hold beyond them is left alone.
pub copy_state_lem :
    (arch : Arch) (src dest : ProcState) (r : ℕ)
    → ((copy_state arch src dest).gpr r
        ≡ (if ltb r arch.state_gpr_len then src.gpr r else dest.gpr r))
      × ((copy_state arch src dest).entry_hi ≡ src.entry_hi)
      × ((copy_state arch src dest).pc_epc ≡ src.pc_epc)
      × ((copy_state arch src dest).cause ≡ src.cause)
      × ((copy_state arch src dest).status ≡ src.status)
      × ((copy_state arch src dest).hi ≡ src.hi)
      × ((copy_state arch src dest).lo ≡ src.lo)
unfolding copy_state
copy_state_lem arch src dest r = (
  ground (arith, copy_gpr_lem arch.state_gpr_len 0 r src.gpr dest.gpr),
  refl,
  refl,
  refl,
  refl,
  refl,
  refl,
)
