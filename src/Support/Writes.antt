-- ===== src/Support/Writes.antt =====
-- src/supportSystemCalls.c: what `write_To_Printer` and `write_To_Terminal` send.
use progetto_so.Base.{
  ◌%◌, ℕ, suc, ◌+◌, ◌^◌, ◌<◌, ◌≡◌, refl, ◌≢◌, ℤ, sub_ℕ, true, false, Ptr, update, length, ◌==◌,
  List, [], ◌∷◌, ◌++◌, sym, ap, ◌∙◌, ok, stop, arith, Outcome, Leaves, left, ◌-◌,
}
use mathlib.Core.Path.{subst}
use progetto_so.Support.Strings.{more, more_lem, plus_zero, count}
use mathlib.Core.List.{append-nil, append_assoc}
use progetto_so.Nucleus.Machine.{Arch, with_reg, word}
use progetto_so.Support.Console.{
  Console, Event, Line, printer, transmitter, accepted, write_semaphore, put_char, write_loop,
  write_to, bad_string, return_to, negated, eos,
}

-- The string stands in the memory from an address on; no character of it is EOS.
abbrev pub Stored : (ℕ → ℕ) → ℕ → List ℕ → Type 0
Stored memory a [] = Unit {0}
Stored memory a (c ∷ cs) = (memory a ≡ c) × ((c == eos) ≡ false) × Stored memory (a + 1) cs

-- The status that the manual gives for a character taken: ready at a printer, and character
-- transmitted at a terminal.
abbrev pub IsTaken : Line → ℕ → Type 0
IsTaken printer status = status % 16 ≡ 1
IsTaken transmitter status = status % 256 ≡ 5

accepted-IsTaken : (line : Line) (status : ℕ) → IsTaken line status → accepted line status ≡ true
unfolding accepted
accepted-IsTaken printer status h = ground (arith, h)
accepted-IsTaken transmitter status h = ground (arith, h)

accepted-not : (line : Line) (status : ℕ) → ¬ IsTaken line status → accepted line status ≡ false
unfolding accepted
accepted-not printer status h = ground (arith, h)
accepted-not transmitter status h = ground (arith, h)

-- The answers from the n-th on say that each character was taken.
abbrev pub AllAccepted : Line → (ℕ → ℕ) → ℕ → List ℕ → Type 0
AllAccepted line answers n [] = Unit {0}
AllAccepted line answers n (c ∷ cs) = IsTaken line (answers n) × AllAccepted line answers (n + 1) cs

module _ (arch : Arch) (char_word : ℕ → ℕ) (line : Line) (dev : ℤ) where
  abbrev pub sent : List ℕ → List Event
  sent [] = []
  sent (c ∷ cs) = put_char arch char_word line dev c ∷ sent cs

  -- The state after the characters were sent.
  abbrev pub after : List ℕ → Console → Console
  after cs s = record s { waits = s.waits + length cs; events = s.events ++ sent cs }

  write_step :
      (k a ret c : ℕ) (s : Console)
      → s.memory a ≡ c
      → (c == eos) ≡ false
      → accepted line (s.answers s.waits) ≡ true
      → write_loop arch char_word (suc k) line dev a ret s
        ≡ write_loop arch char_word k line dev (word (a + 1)) (word (ret + 1)) (after (c ∷ []) s)
  unfolding write_loop
  write_step k a ret c s h h' h'' = ground arith

  after-cons : (c : ℕ) (cs : List ℕ) (s : Console) → after cs (after (c ∷ []) s) ≡ after (c ∷ cs) s
  after-cons c cs s = λ i. record s {
    waits = count s.waits (length cs) i;
    events = append_assoc s.events (put_char arch char_word line dev c ∷ []) (sent cs) i;
  }

  -- The characters that the device takes are sent in order, and the loop goes on behind them.
  write_loop-prefix :
      (cs : List ℕ) (k a ret : ℕ) (s : Console)
      → Stored s.memory a cs
      → AllAccepted line s.answers s.waits cs
      → a + length cs < 2 ^ 32
      → ret + length cs < 2 ^ 32
      → write_loop arch char_word (more cs k) line dev a ret s
        ≡ write_loop arch char_word k line dev (a + length cs) (ret + length cs) (after cs s)
  write_loop-prefix [] k a ret s stored taken h h' = λ i.
      write_loop arch char_word k line dev (plus_zero a i) (plus_zero ret i)
        (record s { waits = plus_zero s.waits i; events = sym (append-nil s.events) i })
  write_loop-prefix (c ∷ cs) k a ret s (at_a, not_eos, stored) (taken, later) h h' =
      write_step (more cs k) a ret c s at_a not_eos
        (accepted-IsTaken line (s.answers s.waits) taken)
      ∙ ap
          (λ n.
            write_loop arch char_word (more cs k) line dev n (word (ret + 1)) (after (c ∷ []) s))
          (omega (arith, h))
      ∙ ap (λ n. write_loop arch char_word (more cs k) line dev (a + 1) n (after (c ∷ []) s))
          (omega (arith, h'))
      ∙ write_loop-prefix cs k (a + 1) (ret + 1) (after (c ∷ []) s) stored later (omega (arith, h))
          (omega (arith, h'))
      ∙ (λ i.
          write_loop arch char_word k line dev (count a (length cs) i) (count ret (length cs) i)
            (after-cons c cs s i))

module _ (arch : Arch) (char_word : ℕ → ℕ) (line : Line) (supp : Ptr) (s : Console) where
  abbrev pub virt_addr : ℕ
  virt_addr = (s.except_state supp).gpr arch.reg_a1

  abbrev pub strlen : ℕ
  strlen = (s.except_state supp).gpr arch.reg_a2

  abbrev asid : ℕ
  asid = s.sup_asid supp

  -- The state in which the loop starts.
  abbrev pub entered : Console
  entered = record s { events = s.events ++ Event.passeren (write_semaphore line asid) ∷ [] }

  -- The state that is left when the loop has answered `ret` in the state `t`.
  abbrev pub finished : ℕ → Console → Console
  finished ret t = record t {
    events = t.events ++ Event.verhogen (write_semaphore line asid) ∷ [];
    except_state =
        update t.except_state supp (record (with_reg arch.reg_v0 ret (t.except_state supp)) {
          pc_epc = word ((t.except_state supp).pc_epc + 4);
        });
  }

  write_to_run :
      (fuel ret : ℕ) (t : Console)
      → bad_string virt_addr strlen ≡ false
      → write_loop arch char_word fuel line (sub_ℕ asid 1) virt_addr 0 entered ≡ ok ret t
      → write_to arch char_word fuel line supp s
        ≡ stop (Outcome.load_exception_state supp 1) (finished ret t)
  unfolding write_to return_to
  write_to_run fuel ret t h h' = rw (h, h') refl

  write_loop-ends :
      (k ret a : ℕ) (t : Console)
      → t.memory a ≡ eos
      → write_loop arch char_word (suc k) line (sub_ℕ asid 1) a ret t ≡ ok ret t
  unfolding write_loop
  write_loop-ends k ret a t h = ground arith

  write_loop-refused :
      (k ret a c : ℕ) (t : Console)
      → t.memory a ≡ c
      → (c == eos) ≡ false
      → accepted line (t.answers t.waits) ≡ false
      → write_loop arch char_word (suc (suc k)) line (sub_ℕ asid 1) a ret t
        ≡ ok (negated (t.answers t.waits)) (record t {
          waits = t.waits + 1;
          memory = update t.memory a eos;
          events = t.events ++ put_char arch char_word line (sub_ℕ asid 1) c ∷ [];
        })
  unfolding write_loop
  write_loop-refused k ret a c t h h' h'' = ground arith

  -- The call has logged `rest` between the P and its return, left `memory` and answered `ret`.
  abbrev pub Wrote : List Event → (ℕ → ℕ) → ℕ → Console → Type 0
  Wrote rest memory ret t =
      (t.events ≡ s.events ++ Event.passeren (write_semaphore line asid) ∷ rest)
      × (t.memory ≡ memory)
      × ((t.except_state supp).gpr arch.reg_v0 ≡ ret)
      × ((t.except_state supp).pc_epc ≡ word ((s.except_state supp).pc_epc + 4))
      × ((q : Ptr) → q ≢ supp → t.except_state q ≡ s.except_state q)

  finish :
      (fuel ret : ℕ) (log : List Event) (t : Console)
      → bad_string virt_addr strlen ≡ false
      → write_loop arch char_word fuel line (sub_ℕ asid 1) virt_addr 0 entered ≡ ok ret t
      → t.events ≡ entered.events ++ log
      → t.except_state ≡ s.except_state
      → Leaves
          (Outcome.load_exception_state supp 1)
          (Wrote (log ++ Event.verhogen (write_semaphore line asid) ∷ []) t.memory ret)
          (write_to arch char_word fuel line supp s)
  finish fuel ret log t good run logged same =
      subst
        (λ r.
          Leaves (Outcome.load_exception_state supp 1)
            (Wrote (log ++ Event.verhogen (write_semaphore line asid) ∷ []) t.memory ret) r)
        (sym (write_to_run fuel ret t good run))
        (left (
          ap (λ es. es ++ Event.verhogen (write_semaphore line asid) ∷ []) logged
              ∙ append_assoc entered.events log (Event.verhogen (write_semaphore line asid) ∷ [])
              ∙ append_assoc s.events (Event.passeren (write_semaphore line asid) ∷ [])
                  (log ++ Event.verhogen (write_semaphore line asid) ∷ []),
          refl,
          ground arith,
          ground (arith, ap (λ e. (e supp).pc_epc) same),
          λ q h. ground (arith, ap (λ e. e q) same),
        ))

  -- The call that prints a string sends exactly its characters, in order, while it holds the
  -- semaphore of the line, and answers their number, given an address and a length that the guard
  -- lets through, a string that ends below 2^32 and answers that accept each character. The memory
  -- stays as it was, and so do the saved states of the others.
  pub write_to-sends :
      (fuel : ℕ) (cs : List ℕ)
      → bad_string virt_addr strlen ≡ false
      → Stored s.memory virt_addr cs
      → s.memory (virt_addr + length cs) ≡ eos
      → AllAccepted line s.answers s.waits cs
      → virt_addr + length cs < 2 ^ 32
      → length cs < fuel
      → Leaves
          (Outcome.load_exception_state supp 1)
          (Wrote
            (sent arch char_word line (sub_ℕ asid 1) cs
              ++ Event.verhogen (write_semaphore line asid) ∷ [])
            s.memory
            (length cs))
          (write_to arch char_word fuel line supp s)
  write_to-sends fuel cs good stored end taken bound enough =
      let k = fuel - length cs - 1 in
      let dev = sub_ℕ asid 1 in
      let done = after arch char_word line dev cs entered in
      let fuel_is : fuel ≡ more cs (suc k) = omega (arith, more_lem cs (suc k)) in
      finish fuel (length cs) (sent arch char_word line dev cs) done good
        (ap (λ n. write_loop arch char_word n line dev virt_addr 0 entered) fuel_is
          ∙ write_loop-prefix arch char_word line dev cs (suc k) virt_addr 0 entered stored taken
              bound (omega (arith, bound))
          ∙ write_loop-ends k (0 + length cs) (virt_addr + length cs) done end
          ∙ ap (λ n. ok n done) (omega arith))
        refl refl

  -- When the device refuses a character, the call that prints a string has sent the string up to it,
  -- gives up the semaphore, answers the negated status, and writes EOS over the refused character in
  -- the string of the caller, given an address and a length that the guard lets through.
  pub write_to-refused :
      (fuel : ℕ) (cs : List ℕ) (c : ℕ)
      → bad_string virt_addr strlen ≡ false
      → Stored s.memory virt_addr (cs)
      → s.memory (virt_addr + length cs) ≡ c
      → (c == eos) ≡ false
      → AllAccepted line s.answers s.waits cs
      → ¬ IsTaken line (s.answers (s.waits + length cs))
      → virt_addr + length cs < 2 ^ 32
      → suc (length cs) < fuel
      → Leaves
          (Outcome.load_exception_state supp 1)
          (Wrote
            ((sent arch char_word line (sub_ℕ asid 1) cs
                ++ put_char arch char_word line (sub_ℕ asid 1) c ∷ [])
              ++ Event.verhogen (write_semaphore line asid) ∷ [])
            (update s.memory (virt_addr + length cs) eos)
            (negated (s.answers (s.waits + length cs))))
          (write_to arch char_word fuel line supp s)
  write_to-refused fuel cs c good stored at_end not_eos taken refused bound enough =
      let k = fuel - length cs - 2 in
      let dev = sub_ℕ asid 1 in
      let done = after arch char_word line dev cs entered in
      let fuel_is : fuel ≡ more cs (suc (suc k)) = omega (arith, more_lem cs (suc (suc k))) in
      finish fuel (negated (s.answers (s.waits + length cs)))
        (sent arch char_word line dev cs ++ put_char arch char_word line dev c ∷ []) _ good
        (ap (λ n. write_loop arch char_word n line dev virt_addr 0 entered) fuel_is
          ∙ write_loop-prefix arch char_word line dev cs (suc (suc k)) virt_addr 0 entered stored
              taken bound (omega (arith, bound))
          ∙ write_loop-refused k (0 + length cs) (virt_addr + length cs) c done at_end not_eos
              (accepted-not line (s.answers (s.waits + length cs)) refused))
        (append_assoc entered.events (sent arch char_word line dev cs)
          (put_char arch char_word line dev c ∷ []))
        refl
