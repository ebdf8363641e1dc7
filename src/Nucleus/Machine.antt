-- ===== src/Nucleus/Machine.antt =====
-- The state of the nucleus, what it takes from the machine's own library, and src/stateUtil.c.
use progetto_so.Base.{
  ℕ, zero, suc, ◌+◌, ◌-◌, ◌*◌, ◌%◌, ◌^◌, Bool, ℤ, pos, sub_ℕ, pos_part, neg_part, Ptr, update,
  guard_ptr, ltb, if◌then◌else◌, Cmd, ok, pure, on_part, ◌>>=◌, ◌>>◌,
}
use progetto_so.Pcb.Defs.{Pcbs, ProcState, set_state}
use progetto_so.Pcb.Defs as Pcb
use progetto_so.Asl.Defs.{Semds, in_pcbs}

-- The constants and macros of the machine's headers (umps3), and the addresses that the linker
-- gives, as far as the nucleus uses them.
pub record Arch : Type 0 where
  -- where the registers stand in `gpr`, and how many there are
  pub state_gpr_len : ℕ
  pub reg_a0 : ℕ
  pub reg_a1 : ℕ
  pub reg_a2 : ℕ
  pub reg_a3 : ℕ
  pub reg_v0 : ℕ
  pub reg_t9 : ℕ
  pub reg_sp : ℕ
  -- exception codes, and the code in a cause register
  pub exc_int : ℕ
  pub exc_mod : ℕ
  pub exc_tlbl : ℕ
  pub exc_tlbs : ℕ
  pub exc_adel : ℕ
  pub exc_ades : ℕ
  pub exc_ibe : ℕ
  pub exc_dbe : ℕ
  pub exc_sys : ℕ
  pub exc_bp : ℕ
  pub exc_ri : ℕ
  pub exc_cpu : ℕ
  pub exc_ov : ℕ
  pub get_exc_code : ℕ → ℕ
  -- is an interrupt pending at all, and on this line?
  pub ip_any : ℕ → Bool
  pub ip_line : ℕ → ℕ → Bool
  pub disk_int : ℕ
  pub flash_int : ℕ
  pub netw_int : ℕ
  pub prnt_int : ℕ
  pub term_int : ℕ
  pub dev_per_int : ℕ
  pub ready : ℕ
  pub ack : ℕ
  -- `x & USERPON`, `ALLOFF | IECON | IMON` and `ALLOFF | IECON | IMON | TEBITON`
  pub user_mode : ℕ → Bool
  pub waiting_status : ℕ
  pub first_status : ℕ
  -- addresses
  pub device_semaphores : Ptr
  pub utlb_refill_handler : ℕ
  pub handle_exceptions : ℕ
  pub test_phase_3 : ℕ

pub record Context : Type 0 where
  pub stack_ptr : ℕ
  pub status : ℕ
  pub pc : ℕ

-- `passupvector_t`, where the machine finds the handlers of the nucleus and their stacks.
pub record PassupVector : Type 0 where
  pub tlb_refill_handler : ℕ
  pub tlb_refill_stack_ptr : ℕ
  pub exception_handler : ℕ
  pub exception_stack_ptr : ℕ

-- The globals of the nucleus, the memory that it reads and writes, and the machine's registers.
pub record Kernel : Type 0 where
  pub semds : Semds
  pub ready_queue : Ptr
  pub current_process : Ptr
  pub soft_blocked_count : ℤ
  pub start_t : ℤ
  pub mutex : Ptr
  pub ints : Ptr → ℤ  -- each `int` that serves as a semaphore, by its address
  pub states : Ptr → ProcState  -- a `state_t` in memory, by its address
  pub bios_data_page : ProcState
  pub sup_except_state : Ptr → ℕ → ProcState
  pub sup_except_context : Ptr → ℕ → Context
  pub tod : ℕ → ℤ  -- what the n-th read of the clock gives
  pub tod_reads : ℕ
  pub cause : ℕ
  pub timer : ℕ
  pub interval_timer : ℕ
  pub status : ℕ
  pub time_scale : ℕ
  pub ram_top : ℕ
  pub dev_bitmap : ℕ → ℕ
  pub dtp_status : ℕ → ℕ → ℕ
  pub dtp_command : ℕ → ℕ → ℕ
  pub recv_status : ℕ → ℕ
  pub recv_command : ℕ → ℕ
  pub transm_status : ℕ → ℕ
  pub transm_command : ℕ → ℕ
  pub passup_vector : PassupVector

abbrev pub word : ℕ → ℕ
word n = n % 2 ^ 32

-- A register read as an `int`.
abbrev pub to_int : ℕ → ℤ
to_int n = if ltb n (2 ^ 31) then pos n else sub_ℕ n (2 ^ 32)

-- An `int` stored in a register.
abbrev pub int_word : ℤ → ℕ
int_word z = (pos_part z + (2 ^ 32 - neg_part z % 2 ^ 32)) % 2 ^ 32

-- The loop of `copyState`, with the rounds left and the index of the round.
unfoldable pub copy_gpr : ℕ → ℕ → (ℕ → ℕ) → (ℕ → ℕ) → ℕ → ℕ
copy_gpr zero i src dest = dest
copy_gpr (suc k) i src dest = copy_gpr k (i + 1) src (update dest i (src i))

-- `*dest` after `copyState(src, dest)`.
unfoldable pub copy_state : Arch → ProcState → ProcState → ProcState
unfolding copy_gpr
copy_state arch src dest = record {
  gpr = copy_gpr arch.state_gpr_len 0 src.gpr dest.gpr;
  entry_hi = src.entry_hi;
  pc_epc = src.pc_epc;
  cause = src.cause;
  status = src.status;
  hi = src.hi;
  lo = src.lo;
}

abbrev pub in_semds : {A : Type 0} → Cmd Semds A → Cmd Kernel A
in_semds = on_part (λ k. k.semds) (λ k t. record k { semds = t })

abbrev pub in_procs : {A : Type 0} → Cmd Pcbs A → Cmd Kernel A
in_procs m = in_semds (in_pcbs m)

abbrev pub get_field : {A : Type 0} → (Pcbs → Ptr → A) → Ptr → Cmd Kernel A
get_field f p = in_procs (Pcb.load f p)

abbrev pub get_reg : ℕ → Ptr → Cmd Kernel ℕ
get_reg r p = do st ← get_field Pcbs.p_s p; pure (st.gpr r)

abbrev pub with_reg : ℕ → ℕ → ProcState → ProcState
with_reg r v st = record st { gpr = update st.gpr r v }

-- `p->p_s.reg = v`.
abbrev pub set_reg : ℕ → Ptr → ℕ → Cmd Kernel (Unit {0})
set_reg r p v = do st ← get_field Pcbs.p_s p; in_procs (set_state p (with_reg r v st))

-- `STCK(t)`.
abbrev pub stck : Cmd Kernel ℤ
stck k = ok (k.tod k.tod_reads) (record k { tod_reads = k.tod_reads + 1 })

abbrev pub set_current : Ptr → Cmd Kernel (Unit {0})
set_current p k = ok tt (record k { current_process = p })

abbrev pub set_ready : Ptr → Cmd Kernel (Unit {0})
set_ready p k = ok tt (record k { ready_queue = p })

abbrev pub set_soft : ℤ → Cmd Kernel (Unit {0})
set_soft n k = ok tt (record k { soft_blocked_count = n })

abbrev pub set_start : ℤ → Cmd Kernel (Unit {0})
set_start t k = ok tt (record k { start_t = t })

abbrev pub set_mutex : Ptr → Cmd Kernel (Unit {0})
set_mutex p k = ok tt (record k { mutex = p })

abbrev pub load_int : Ptr → Cmd Kernel ℤ
load_int p = guard_ptr p >> λ k. ok (k.ints p) k

abbrev pub store_int : Ptr → ℤ → Cmd Kernel (Unit {0})
store_int p v = guard_ptr p >> λ k. ok tt (record k { ints = update k.ints p v })

abbrev pub set_timer : ℕ → Cmd Kernel (Unit {0})
set_timer n k = ok tt (record k { timer = n })

abbrev pub set_interval_timer : ℕ → Cmd Kernel (Unit {0})
set_interval_timer n k = ok tt (record k { interval_timer = n })

abbrev pub set_status : ℕ → Cmd Kernel (Unit {0})
set_status n k = ok tt (record k { status = n })

-- `&deviceSemaphores[i]`.
abbrev pub device_sem : Arch → ℕ → Ptr
device_sem arch i = arch.device_semaphores + 4 * i

abbrev pub device_num : ℕ
device_num = 49

abbrev pub clock_semaphore : Arch → Ptr
clock_semaphore arch = device_sem arch (device_num - 1)
