-- ===== src/Nucleus/Reach.antt =====
-- The nucleus and the machine together: entries by `handleExceptions` of src/exceptions.c in any
-- order, from a state such as `main` of src/init.c leaves.
use progetto_so.Base.{
  ◌≡◌, inr, refl, sym, [], arith, ok, stop, Outcome, Leaves-inv, Safe, Safe-left, Safe-returned,
}
use mathlib.Core.Path.{subst}
use progetto_so.Nucleus.Machine.{Arch, Kernel}
use progetto_so.Nucleus.Exceptions.{handle_exceptions}
use progetto_so.Nucleus.Start.{main}
use progetto_so.Nucleus.Good.{IsRunning, IsGood, SameQueues, IsGood-same}
use progetto_so.Nucleus.Booted.{Booted, main-Booted}
use progetto_so.Nucleus.SafeEntry.{IsLayout, IsEntry, exceptions-Safe}

-- Outside the nucleus the processes, the devices and the clock change what they like but the queues.
-- An entry runs the handler to where it leaves the nucleus, or returns from an exception that no case
-- names.
pub data Step (arch : Arch) : Kernel → Kernel → Type 0 where
  machine : {k t : Kernel} → SameQueues k t → t.current_process ≡ k.current_process → Step arch k t
  entry :
      {k t : Kernel} {o : Outcome}
      → IsEntry arch k
      → handle_exceptions arch k ≡ stop o t
      → Step arch k t
  ignored : {k t : Kernel} → IsEntry arch k → handle_exceptions arch k ≡ ok tt t → Step arch k t

-- What comes of the state `k`, by any number of such steps.
pub data Reach (arch : Arch) (k : Kernel) : Kernel → Type 0 where
  here : Reach arch k k
  next : {t u : Kernel} → Reach arch k t → Step arch t u → Reach arch k u

booted-IsGood : (arch : Arch) (k t : Kernel) → Booted arch k t → IsGood t
booted-IsGood arch k t (runs, kernel, state, vector, semaphore, timer) = record {
  queues = λ _. [];
  ready = [];
  queued = record { kernel = kernel; pool = λ q i. absurd (cc) };
  running = inr (subst (λ p. IsRunning p (λ _. []) []) (sym runs.0) first);
}
  where
    first : IsRunning 1 (λ _. []) []
    first = (omega arith, omega arith, (refl, λ b. refl))

start-IsGood :
    (arch : Arch) (k : Kernel) {t : Kernel} {o : Outcome} → main arch k ≡ stop o t → IsGood t
start-IsGood arch k e =
    let (t', run, booted) = Leaves-inv (main-Booted arch k) in
    subst (λ u. IsGood u) (cc) (booted-IsGood arch k t' booted)

Step-IsGood : (arch : Arch) {k t : Kernel} → IsLayout arch → Step arch k t → IsGood k → IsGood t
Step-IsGood arch {k} {t} layout (machine same current) g = IsGood-same k t g same current
Step-IsGood arch {k} layout (entry call e) g = Safe-left (exceptions-Safe arch k layout g call) e
Step-IsGood arch {k} layout (ignored call e) g =
    Safe-returned (exceptions-Safe arch k layout g call) e

-- From a state whose queues are sound, whichever processes are on them, only such states are reached:
-- each list of blocks is a ring without repetitions, the semaphores are in order, no process is on two
-- queues, and the running process is on none. The steps are changes by the processes and the machine
-- that leave the queues alone, and entries: an interrupt with a pending device on each pending line of
-- devices, whose semaphore lies between the sentinels; any other exception while a process runs; of
-- system calls in kernel mode, none that creates or terminates, and only those on a device line and on
-- semaphores between the sentinels. The lines of the machine are lines of devices.
pub Reach-IsGood :
    (arch : Arch) (k t : Kernel) → IsLayout arch → IsGood k → Reach arch k t → IsGood t
Reach-IsGood arch k t layout g here = g
Reach-IsGood arch k t layout g (next {t = u} r step) =
    Step-IsGood arch layout step (Reach-IsGood arch k u layout g r)

-- What `main` leaves is such a state.
pub main-Reach_IsGood :
    (arch : Arch) (k t u : Kernel) {o : Outcome}
    → IsLayout arch
    → main arch k ≡ stop o t
    → Reach arch t u
    → IsGood u
main-Reach_IsGood arch k t u layout e r = Reach-IsGood arch t u layout (start-IsGood arch k e) r

-- In every state that is reached, the next entry is served without a fault.
pub Reach-Safe :
    (arch : Arch) (k t : Kernel)
    → IsLayout arch
    → IsGood k
    → Reach arch k t
    → IsEntry arch t
    → Safe IsGood (handle_exceptions arch t)
Reach-Safe arch k t layout g r call =
    exceptions-Safe arch t layout (Reach-IsGood arch k t layout g r) call
