-- ===== src/Support/Console.antt =====
-- src/supportSystemCalls.c: the system calls of the support level. The machine is a stream of
-- answers, one for each wait on a device; what the calls ask of the nucleus and of the devices is
-- logged. Interrupts are off between a command and its wait, so no other event comes between.
use Prim.Native.Nat.{bit_or}
use progetto_so.Base.{
  ℕ, zero, suc, ◌+◌, ◌-◌, ◌*◌, ◌/◌, ◌%◌, ◌^◌, ℤ, ◌-ℤ◌, sub_ℕ, Bool, ◌&&◌, ◌||◌, not, Ptr, update,
  leb, ltb, ◌==◌, if◌then◌else◌, List, [], ◌∷◌, ◌++◌, Cmd, ok, out_of_fuel, pure, get, leave, when,
  on_part, ◌>>=◌, ◌>>◌, Outcome,
}
use progetto_so.Pcb.Defs.{ProcState}
use progetto_so.Nucleus.Machine.{Arch, with_reg, int_word, word}
use progetto_so.Support.Defs.{Supps, dealloc_supp}

-- The semaphores of the support level; the first three are arrays indexed by the ASID.
pub data Sem : Type 0 where
  printer_semaphores : ℕ → Sem
  term_write_semaphores : ℕ → Sem
  term_read_semaphores : ℕ → Sem
  master_sem : Sem

pub data Event : Type 0 where
  passeren : Sem → Event
  verhogen : Sem → Event
  print : ℤ → ℕ → Event  -- to a printer, `data0` and then `command`
  transmit : ℤ → ℕ → Event  -- to a terminal, `transm_command`
  receive : ℤ → ℕ → Event  -- to a terminal, `recv_command`

pub record Console : Type 0 where
  pub supps : Supps
  pub except_state : Ptr → ProcState  -- `sup_exceptState[GENERALEXCEPT]`
  pub sup_asid : Ptr → ℕ
  pub memory : ℕ → ℕ  -- the bytes of the process's memory
  pub answers : ℕ → ℕ  -- what the n-th `SYSCALL(IOWAIT, …)` gives
  pub waits : ℕ
  pub tod : ℕ → ℤ
  pub tod_reads : ℕ
  pub global_start_t : ℤ
  pub events : List Event  -- oldest first

abbrev pub eos : ℕ
eos = 0

abbrev pub newline : ℕ
newline = 10

abbrev pub terminate : ℕ
terminate = 9

abbrev pub recvd : ℕ
recvd = 5

abbrev pub uproc_start_addr : ℕ
uproc_start_addr = 0x800000B0

abbrev pub user_stack_top : ℕ
user_stack_top = 0xC0000000

abbrev pub emit : Event → Cmd Console (Unit {0})
emit e s = ok tt (record s { events = s.events ++ e ∷ [] })

abbrev pub io_wait : Cmd Console ℕ
io_wait s = ok (s.answers s.waits) (record s { waits = s.waits + 1 })

abbrev pub set_byte : ℕ → ℕ → Cmd Console (Unit {0})
set_byte a c s = ok tt (record s { memory = update s.memory a c })

-- `status * -1`, as a word.
abbrev pub negated : ℕ → ℕ
negated status = (2 ^ 32 - word status) % 2 ^ 32

-- The result goes to `reg_v0`, the pc moves on, and the saved state is loaded.
unfoldable pub return_to : Arch → Ptr → ℕ → Cmd Console (Unit {0})
return_to arch supp ret s =
    let st = s.except_state supp in
    leave (Outcome.load_exception_state supp 1) (record s {
      except_state =
          update s.except_state supp
            (record (with_reg arch.reg_v0 ret st) { pc_epc = word (st.pc_epc + 4) });
    })

-- Where a string is written to: a printer or the transmitter of a terminal.
pub data Line : Type 0 where
  printer : Line
  transmitter : Line

unfoldable pub accepted : Line → ℕ → Bool
accepted printer status = status % 16 == 1
accepted transmitter status = status % 256 == recvd

abbrev pub write_semaphore : Line → ℕ → Sem
write_semaphore printer asid = Sem.printer_semaphores asid
write_semaphore transmitter asid = Sem.term_write_semaphores asid

-- The guard on the address and the length.
unfoldable pub bad_string : ℕ → ℕ → Bool
bad_string virt_addr strlen =
    (strlen == 0)
    || leb (2 ^ 31) strlen
    || ltb 128 strlen
    || ltb virt_addr uproc_start_addr
    || leb user_stack_top (word (virt_addr + strlen))

unfoldable pub notify_terminated : Cmd Console (Unit {0})
notify_terminated = emit (Event.verhogen Sem.master_sem)

unfoldable pub terminate_support : Ptr → Cmd Console (Unit {0})
unfolding notify_terminated
terminate_support supp = do
  on_part (λ s. s.supps) (λ s t. record s { supps = t }) (dealloc_supp supp)
  notify_terminated
  leave (Outcome.syscall 2)

unfoldable pub program_trap_handler : Cmd Console (Unit {0})
program_trap_handler = leave (Outcome.syscall terminate)

module _ (arch : Arch) where
  -- The condition of the loop of `read_From_Terminal`, on the last byte and the last status.
  unfoldable pub reads_on : ℕ → ℕ → Bool
  reads_on rcvd status =
      not (rcvd == newline) && ((status % 256 == arch.ready) || (status % 256 == 5))

  unfoldable pub read_loop : ℕ → ℤ → ℕ → ℕ → ℕ → ℕ → Cmd Console ℕ
  unfolding reads_on
  read_loop zero dev virt_addr rcvd status ret = λ _. out_of_fuel
  read_loop (suc fuel) dev virt_addr rcvd status ret =
      if reads_on rcvd status
      then (do
        emit (Event.receive dev 2)
        status' ← io_wait
        set_byte virt_addr (status' / 2 ^ 8 % 256)
        rcvd' ← get (λ s. s.memory virt_addr)
        (virt_addr', ret') ←
            (if not (status' % 256 == 5) && not (status' % 256 == arch.ready)
              then (do set_byte virt_addr eos; pure (virt_addr, negated status'))
              else pure (word (virt_addr + 1), word (ret + 1)))
        read_loop fuel dev virt_addr' rcvd' status' ret')
      else pure ret

  unfoldable pub read_from_terminal : ℕ → Ptr → Cmd Console (Unit {0})
  unfolding read_loop return_to
  read_from_terminal fuel supp = do
    st ← get (λ s. s.except_state supp)
    when (ltb (st.gpr arch.reg_a1) uproc_start_addr) (leave (Outcome.syscall terminate))
    asid ← get (λ s. s.sup_asid supp)
    emit (Event.passeren (Sem.term_read_semaphores asid))
    ret ← read_loop fuel (sub_ℕ asid 1) (st.gpr arch.reg_a1) 48 arch.ready 0
    emit (Event.verhogen (Sem.term_read_semaphores asid))
    return_to arch supp ret

  -- The pc stays where it is.
  unfoldable pub get_tod : Ptr → Cmd Console (Unit {0})
  get_tod supp s = leave (Outcome.load_exception_state supp 1) (record s {
    except_state = update s.except_state supp (
        with_reg arch.reg_v0 (int_word (s.global_start_t -ℤ s.tod s.tod_reads))
          (s.except_state supp));
    tod_reads = s.tod_reads + 1;
  })

module _ (arch : Arch) (char_word : ℕ → ℕ) where  -- a `char` widened to a word
  abbrev pub put_char : Line → ℤ → ℕ → Event
  put_char printer dev c = Event.print dev (char_word c)
  put_char transmitter dev c = Event.transmit dev (bit_or 2 (word (char_word c * 2 ^ 8)))

  -- The loop of `write_To_Printer` and `write_To_Terminal`, on fuel.
  unfoldable pub write_loop : ℕ → Line → ℤ → ℕ → ℕ → Cmd Console ℕ
  unfolding accepted
  write_loop zero line dev virt_addr ret = λ _. out_of_fuel
  write_loop (suc fuel) line dev virt_addr ret = do
    c ← get (λ s. s.memory virt_addr)
    if c == eos then pure ret else do
      emit (put_char line dev c)
      status ← io_wait
      (virt_addr', ret') ←
          (if accepted line status
            then pure (word (virt_addr + 1), word (ret + 1))
            else do set_byte virt_addr eos; pure (virt_addr, negated status))
      write_loop fuel line dev virt_addr' ret'

  unfoldable pub write_to : ℕ → Line → Ptr → Cmd Console (Unit {0})
  unfolding write_loop bad_string return_to
  write_to fuel line supp = do
    st ← get (λ s. s.except_state supp)
    when (bad_string (st.gpr arch.reg_a1) (st.gpr arch.reg_a2)) (leave (Outcome.syscall terminate))
    asid ← get (λ s. s.sup_asid supp)
    emit (Event.passeren (write_semaphore line asid))
    ret ← write_loop fuel line (sub_ℕ asid 1) (st.gpr arch.reg_a1) 0
    emit (Event.verhogen (write_semaphore line asid))
    return_to arch supp ret

  -- The `switch`: with a number that none of the cases names, the handler just ends.
  unfoldable pub support_call : ℕ → ℕ → Ptr → Cmd Console (Unit {0})
  unfolding terminate_support get_tod write_to read_from_terminal
  support_call number fuel supp =
      if number == 9
      then terminate_support supp
      else if number == 10
      then get_tod arch supp
      else if number == 11
      then write_to fuel Line.printer supp
      else if number == 12
      then write_to fuel Line.transmitter supp
      else if number == 13
      then read_from_terminal arch fuel supp
      else pure tt

  unfoldable pub handle_support_systemcalls : ℕ → Ptr → Cmd Console (Unit {0})
  unfolding support_call
  handle_support_systemcalls fuel supp = do
    st ← get (λ s. s.except_state supp)
    support_call (st.gpr arch.reg_a0) fuel supp

  -- The whole cause register is compared with the code of the exception.
  unfoldable pub handle_support_level_exceptions : ℕ → Ptr → Cmd Console (Unit {0})
  unfolding program_trap_handler handle_support_systemcalls
  handle_support_level_exceptions fuel supp = do
    st ← get (λ s. s.except_state supp)
    if st.cause == arch.exc_mod then program_trap_handler else handle_support_systemcalls fuel supp
