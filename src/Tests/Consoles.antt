-- ===== src/Tests/Consoles.antt =====
-- src/supportSystemCalls.c on a process with the string "hi" in its memory.
use progetto_so.Base.{ℕ, ◌+◌, ◌*◌, ◌^◌, refl, pos, update, [], ◌∷◌, arith, Outcome, Leaves}
use progetto_so.Pcb.Defs.{ProcState}
use progetto_so.Support.Console.{
  bad_string, accepted, Console, Sem, Event, Line, newline, negated, eos, write_to,
  read_from_terminal, handle_support_systemcalls,
}
use progetto_so.Support.Writes.{Wrote, write_to-sends, write_to-refused}
use progetto_so.Support.Reads.{ReadLine, read_from_terminal-line}
use progetto_so.Support.Ends.{Gone, terminate_support-Gone}
use progetto_so.Tests.Kernels.{arch}
use progetto_so.Tests.Stacks.{pair, pair-IsStack}

abbrev text : ℕ
text = 0x80001000

abbrev asking : ℕ → ProcState
asking number = record {
  gpr = update (update (update (λ _. 0) 3 number) 4 text) 5 2;
  entry_hi = 0x40;
  cause = 32;
  status = 0;
  pc_epc = 0x80000100;
  hi = 0;
  lo = 0;
}

abbrev console : ℕ → (ℕ → ℕ) → Console
console number answers = record {
  supps = pair;
  except_state = λ _. asking number;
  sup_asid = λ _. 1;
  memory = update (update (λ _. 0) text 104) (text + 1) 105;
  answers = answers;
  waits = 0;
  tod = λ n. pos (n + 500);
  tod_reads = 0;
  global_start_t = pos 0;
  events = [];
}

abbrev all_well : Console
all_well = console 12 (λ _. 5)

abbrev second_refused : Console
second_refused = console 12 (update (λ _. 5) 1 4)

abbrev typed : Console
typed = console 13 (update (λ _. 10 * 2 ^ 8 + 5) 0 (107 * 2 ^ 8 + 5))

write_to-sends_example :
    Leaves
      (Outcome.load_exception_state 5 1)
      (Wrote arch
        (λ c. c)
        Line.transmitter
        5
        all_well
        (Event.transmit (pos 0) 26626
          ∷ Event.transmit (pos 0) 26882
          ∷ Event.verhogen (Sem.term_write_semaphores 1)
          ∷ [])
        all_well.memory
        2)
      (write_to arch (λ c. c) 3 Line.transmitter 5 all_well)
unfolding bad_string accepted
write_to-sends_example =
    write_to-sends arch (λ c. c) Line.transmitter 5 all_well 3 (104 ∷ 105 ∷ []) refl
      (refl, refl, (refl, refl, tt)) refl (refl, (refl, tt)) (omega arith) (omega arith)

write_to-refused_example :
    Leaves
      (Outcome.load_exception_state 5 1)
      (Wrote arch
        (λ c. c)
        Line.transmitter
        5
        second_refused
        (Event.transmit (pos 0) 26626
          ∷ Event.transmit (pos 0) 26882
          ∷ Event.verhogen (Sem.term_write_semaphores 1)
          ∷ [])
        (update second_refused.memory (text + 1) eos)
        (negated 4))
      (write_to arch (λ c. c) 3 Line.transmitter 5 second_refused)
unfolding bad_string accepted
write_to-refused_example =
    write_to-refused arch (λ c. c) Line.transmitter 5 second_refused 3 (104 ∷ []) 105 refl
      (refl, refl, tt) refl refl (refl, tt) (omega arith) (omega arith) (omega arith)

read_from_terminal-line_example :
    Leaves
      (Outcome.load_exception_state 5 1)
      (ReadLine arch 5 typed (107 ∷ newline ∷ []))
      (read_from_terminal arch 3 5 typed)
read_from_terminal-line_example =
    read_from_terminal-line arch 5 typed 3 (107 ∷ []) refl refl ((refl, refl), refl, tt)
      (refl, refl) (omega arith) (omega arith)

terminate_support-Gone_example :
    Leaves
      (Outcome.syscall 2)
      (Gone 3 (2 ∷ 1 ∷ []) (console 9 (λ _. 5)))
      (handle_support_systemcalls arch (λ c. c) 0 3 (console 9 (λ _. 5)))
terminate_support-Gone_example =
    terminate_support-Gone arch (λ c. c) 0 3 (2 ∷ 1 ∷ []) (console 9 (λ _. 5)) refl pair-IsStack
      (omega arith) refl
