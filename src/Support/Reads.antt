-- ===== src/Support/Reads.antt =====
-- src/supportSystemCalls.c: what `read_From_Terminal` stores.
use progetto_so.Base.{
  length-append, ℕ, suc, ◌+◌, ◌/◌, ◌%◌, ◌^◌, ◌<◌, ◌≡◌, refl, ◌≢◌, ℤ, sub_ℕ, true, false, ◌||◌, Ptr,
  update, length, ◌==◌, List, [], ◌∷◌, ◌++◌, sym, ap, ◌∙◌, ok, stop, arith, Outcome, Leaves, left,
  ◌-◌, ltb,
}
use mathlib.Core.Path.{subst}
use progetto_so.Support.Strings.{more, more_lem, plus_zero, count}
use mathlib.Core.List.{append_assoc}
use progetto_so.Nucleus.Machine.{Arch, with_reg, word}
use progetto_so.Support.Console.{
  Console, Sem, Event, read_loop, read_from_terminal, return_to, newline, uproc_start_addr,
  reads_on,
}

-- The memory with a string written from an address on.
abbrev pub stored_at : ℕ → List ℕ → (ℕ → ℕ) → ℕ → ℕ
stored_at a [] memory = memory
stored_at a (c ∷ cs) memory = stored_at (a + 1) cs (update memory a c)

module _ (arch : Arch) where
  -- An answer that brings a character: its status is one of the two good ones.
  abbrev pub Brings : ℕ → ℕ → Type 0
  Brings answer c =
      (((answer % 256 == arch.ready) || (answer % 256 == 5)) ≡ true) × (answer / 2 ^ 8 % 256 ≡ c)

  -- The answers from the n-th on bring the characters; none of them is a newline.
  abbrev pub AllBring : (ℕ → ℕ) → ℕ → List ℕ → Type 0
  AllBring answers n [] = Unit {0}
  AllBring answers n (c ∷ cs) =
      Brings (answers n) c × ((c == newline) ≡ false) × AllBring answers (n + 1) cs

  abbrev Good : ℕ → ℕ → Type 0
  Good rcvd status = reads_on arch rcvd status ≡ true

  module _ (dev : ℤ) where
    abbrev pub asked : List ℕ → List Event
    asked [] = []
    asked (c ∷ cs) = Event.receive dev 2 ∷ asked cs

    -- The state after the characters came.
    abbrev pub after : List ℕ → ℕ → Console → Console
    after cs a s = record s {
      waits = s.waits + length cs;
      memory = stored_at a cs s.memory;
      events = s.events ++ asked cs;
    }

    read_step :
        (k a rcvd status ret c : ℕ) (s : Console)
        → Good rcvd status
        → Brings (s.answers s.waits) c
        → read_loop arch (suc k) dev a rcvd status ret s
          ≡ read_loop arch k dev
              (word (a + 1))
              c
              (s.answers s.waits)
              (word (ret + 1))
              (after (c ∷ []) a s)
    unfolding read_loop
    read_step k a rcvd status ret c s good (fine, byte) = ground arith

    after-cons :
        (c : ℕ) (cs : List ℕ) (a : ℕ) (s : Console)
        → after cs (a + 1) (after (c ∷ []) a s) ≡ after (c ∷ cs) a s
    after-cons c cs a s = λ i. record s {
      waits = count s.waits (length cs) i;
      memory = stored_at a (c ∷ cs) s.memory;
      events = append_assoc s.events (Event.receive dev 2 ∷ []) (asked cs) i;
    }

    -- The loop stores the characters up to a newline, and that too, and counts them.
    read_loop-line :
        (cs : List ℕ) (k a rcvd status ret : ℕ) (s : Console)
        → Good rcvd status
        → AllBring s.answers s.waits cs
        → Brings (s.answers (s.waits + length cs)) newline
        → a + length cs + 1 < 2 ^ 32
        → ret + length cs + 1 < 2 ^ 32
        → read_loop arch (more cs (suc (suc k))) dev a rcvd status ret s
          ≡ ok (ret + length cs + 1) (after (cs ++ newline ∷ []) a s)
    unfolding read_loop reads_on
    read_loop-line [] k a rcvd status ret s good brings last h h' =
        read_step (suc k) a rcvd status ret newline s good
          (subst (λ n. Brings (s.answers n) newline) (sym (plus_zero s.waits)) last)
        ∙ ap (λ n. ok n (after (newline ∷ []) a s)) (omega (arith, h'))
    read_loop-line (c ∷ cs) k a rcvd status ret s good (here, not_newline, later) last h h' =
        read_step (more cs (suc (suc k))) a rcvd status ret c s good here
        ∙ ap
            (λ n.
              read_loop arch (more cs (suc (suc k))) dev n c (s.answers s.waits) (word (ret + 1))
                (after (c ∷ []) a s))
            (omega (arith, h))
        ∙ ap
            (λ n.
              read_loop arch (more cs (suc (suc k))) dev (a + 1) c (s.answers s.waits) n
                (after (c ∷ []) a s))
            (omega (arith, h'))
        ∙ read_loop-line cs k (a + 1) c (s.answers s.waits) (ret + 1) (after (c ∷ []) a s)
            (ground (arith, here.1, not_newline)) later
            (subst (λ n. Brings (s.answers n) newline) (sym (count s.waits (length cs))) last)
            (omega (arith, h)) (omega (arith, h'))
        ∙ (λ i. ok (count ret (length cs) i + 1) (after-cons c (cs ++ newline ∷ []) a s i))

module _ (arch : Arch) (supp : Ptr) (s : Console) where
  abbrev pub into : ℕ
  into = (s.except_state supp).gpr arch.reg_a1

  abbrev asid : ℕ
  asid = s.sup_asid supp

  abbrev pub entered : Console
  entered = record s { events = s.events ++ Event.passeren (Sem.term_read_semaphores asid) ∷ [] }

  abbrev pub finished : ℕ → Console → Console
  finished ret t = record t {
    events = t.events ++ Event.verhogen (Sem.term_read_semaphores asid) ∷ [];
    except_state =
        update t.except_state supp (record (with_reg arch.reg_v0 ret (t.except_state supp)) {
          pc_epc = word ((t.except_state supp).pc_epc + 4);
        });
  }

  read_run :
      (fuel ret : ℕ) (t : Console)
      → ltb into uproc_start_addr ≡ false
      → read_loop arch fuel (sub_ℕ asid 1) into 48 arch.ready 0 entered ≡ ok ret t
      → read_from_terminal arch fuel supp s
        ≡ stop (Outcome.load_exception_state supp 1) (finished ret t)
  unfolding read_from_terminal return_to
  read_run fuel ret t h h' = rw (h, h') refl

  -- The call has logged the commands of `line` between its P and its V, has stored the line in the
  -- memory and answers its length.
  abbrev pub ReadLine : List ℕ → Console → Type 0
  ReadLine line t =
      (t.events
        ≡ s.events
          ++ Event.passeren (Sem.term_read_semaphores asid)
            ∷ (asked arch (sub_ℕ asid 1) line
                ++ Event.verhogen (Sem.term_read_semaphores asid) ∷ []))
      × (t.memory ≡ stored_at into line s.memory)
      × ((t.except_state supp).gpr arch.reg_v0 ≡ length line)
      × ((t.except_state supp).pc_epc ≡ word ((s.except_state supp).pc_epc + 4))
      × ((q : Ptr) → q ≢ supp → t.except_state q ≡ s.except_state q)

  starts : arch.ready % 256 ≡ arch.ready → Good arch 48 arch.ready
  unfolding reads_on
  starts h = ground (arith, h)

  -- `read_From_Terminal` stores the characters of a line, the newline included, at the given address
  -- and answers their number, asking the terminal for one at a time while it holds the semaphore,
  -- given an address that the guard lets through, enough room below 2^32, a ready code that fits in
  -- a byte, and a device that brings the line. No other byte and no other saved state changes.
  pub read_from_terminal-line :
      (fuel : ℕ) (cs : List ℕ)
      → arch.ready % 256 ≡ arch.ready
      → ltb into uproc_start_addr ≡ false
      → AllBring arch s.answers s.waits cs
      → Brings arch (s.answers (s.waits + length cs)) newline
      → into + length cs + 1 < 2 ^ 32
      → length cs + 1 < fuel
      → Leaves
          (Outcome.load_exception_state supp 1)
          (ReadLine (cs ++ newline ∷ []))
          (read_from_terminal arch fuel supp s)
  read_from_terminal-line fuel cs fits good brings last bound enough =
      let k = fuel - length cs - 2 in
      let dev = sub_ℕ asid 1 in
      let line = cs ++ newline ∷ [] in
      let v = Event.verhogen (Sem.term_read_semaphores asid) in
      let fuel_is : fuel ≡ more cs (suc (suc k)) = omega (arith, more_lem cs (suc (suc k))) in
      let counted : 0 + length cs + 1 ≡ length line =
        omega (arith, length-append cs (newline ∷ [])) in
      let run =
        ap (λ n. read_loop arch n dev into 48 arch.ready 0 entered) fuel_is
        ∙ read_loop-line arch dev cs k into 48 arch.ready 0 entered (starts fits) brings last bound
            (omega (arith, bound))
        ∙ ap (λ n. ok n (after arch dev line into entered)) counted in
      subst (λ r. Leaves (Outcome.load_exception_state supp 1) (ReadLine line) r)
        (sym (read_run fuel (length line) (after arch dev line into entered) good run))
        (left (
          append_assoc entered.events (asked arch dev line) (v ∷ [])
              ∙ append_assoc s.events (Event.passeren (Sem.term_read_semaphores asid) ∷ [])
                  (asked arch dev line ++ v ∷ []),
          refl,
          ground arith,
          ground arith,
          λ q h. ground arith,
        ))
