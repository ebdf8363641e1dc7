-- ===== src/Support/Ends.antt =====
-- src/supportSystemCalls.c: the end of a user process and the time of day.
use progetto_so.Base.{
  ℕ, suc, ◌-◌, ◌^◌, ◌<◌, ◌≡◌, refl, ◌≢◌, ℤ, pos, false, Ptr, null, has, List, [], ◌∷◌, ◌++◌, arith,
  Outcome, Leaves, left, Returns, returned, Run, and_then, ◌>>◌, leave,
}
use progetto_so.Base.Int.{◌-ℤ◌}
use progetto_so.Base.Control.{embed}
use progetto_so.Nucleus.Machine.{Arch, int_word}
use progetto_so.Support.Defs.{Supps}
use progetto_so.Support.Stack.{IsStack, dealloc_supp-push}
use progetto_so.Support.Console.{
  Console, Sem, Event, get_tod, terminate_support, notify_terminated, support_call,
  handle_support_systemcalls,
}

-- The process's saved state after the call that asks for the time: the pc and the number of the
-- call are those it had.
abbrev pub AsksAgain : Arch → Ptr → Console → ℕ → Console → Type 0
AsksAgain arch supp s v t =
    ((t.except_state supp).pc_epc ≡ (s.except_state supp).pc_epc)
    × ((t.except_state supp).gpr arch.reg_a0 ≡ 10)
    × ((t.except_state supp).gpr arch.reg_v0 ≡ v)

negative : (now : ℕ) → suc now < 2 ^ 32 → int_word (pos 0 -ℤ pos (suc now)) ≡ 2 ^ 32 - suc now
unfolding ◌-ℤ◌
negative now h = ground arith

negated_time :
    (start now : ℤ) (n : ℕ)
    → start ≡ pos 0
    → now ≡ pos (suc n)
    → suc n < 2 ^ 32
    → int_word (start -ℤ now) ≡ 2 ^ 32 - suc n
negated_time start now n h h' bound = rw (h, h') (negative n bound)

-- The call for the time of day loads the state of the process with the pc that it had, at the same
-- system call with the same number, and gives it the negated time, while `globalStartT` is 0, the
-- clock is positive and below 2^32, and the registers v0 and a0 are two.
pub get_tod-AsksAgain :
    (arch : Arch) (char_word : ℕ → ℕ) (fuel : ℕ) (supp : Ptr) (s : Console) (now : ℕ)
    → (s.except_state supp).gpr arch.reg_a0 ≡ 10
    → arch.reg_a0 ≢ arch.reg_v0
    → s.global_start_t ≡ pos 0
    → s.tod s.tod_reads ≡ pos (suc now)
    → suc now < 2 ^ 32
    → Leaves
        (Outcome.load_exception_state supp 1)
        (AsksAgain arch supp s (2 ^ 32 - suc now))
        (handle_support_systemcalls arch char_word fuel supp s)
unfolding handle_support_systemcalls support_call get_tod
get_tod-AsksAgain arch char_word fuel supp s now asks apart start clock bound = rw (asks) (
    left (
      ground arith,
      ground (arith, asks),
      ground (arith, negated_time s.global_start_t (s.tod s.tod_reads) now start clock bound),
    ))

-- The process is gone for the support level: its structure is on top of the free ones, and one
-- process waiting on the master semaphore can go on.
abbrev pub Gone : Ptr → List Ptr → Console → Console → Type 0
Gone supp xs s t =
    IsStack t.supps.next_supp t.supps.prev_supp null t.supps.free_supp_tp (supp ∷ xs)
    × (t.events ≡ s.events ++ Event.verhogen Sem.master_sem ∷ [])

ends :
    (supp : Ptr) (xs : List Ptr) (s : Console) {r : Run Supps (Unit {0})}
    → Returns (λ _ t. IsStack t.next_supp t.prev_supp null t.free_supp_tp (supp ∷ xs)) r
    → Leaves {A = Unit {0}} (Outcome.syscall 2) (Gone supp xs s) (
        and_then
          (embed (λ t. record s { supps = t }) r)
          (λ _. notify_terminated >> leave (Outcome.syscall 2)))
unfolding notify_terminated
ends supp xs s (returned h) = left (h, refl)

-- The call for termination frees the support structure, signals the master semaphore once and then
-- raises the nucleus's own termination, given a well-formed stack that the structure is not on.
pub terminate_support-Gone :
    (arch : Arch) (char_word : ℕ → ℕ) (fuel : ℕ) (supp : Ptr) (xs : List Ptr) (s : Console)
    → (s.except_state supp).gpr arch.reg_a0 ≡ 9
    → IsStack s.supps.next_supp s.supps.prev_supp null s.supps.free_supp_tp xs
    → supp ≢ null
    → has supp xs ≡ false
    → Leaves
        (Outcome.syscall 2)
        (Gone supp xs s)
        (handle_support_systemcalls arch char_word fuel supp s)
unfolding handle_support_systemcalls support_call terminate_support notify_terminated
terminate_support-Gone arch char_word fuel supp xs s asks stack nonnull fresh =
    rw (asks) (ends supp xs s (dealloc_supp-push supp xs s.supps stack nonnull fresh))
