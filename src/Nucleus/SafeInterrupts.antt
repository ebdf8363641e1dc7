-- ===== src/Nucleus/SafeInterrupts.antt =====
-- The interrupt handlers of src/interrupts.c end without a fault and keep the queues.
use progetto_so.Base.{
  ℕ, ◌*◌, ◌%◌, ◌^◌, ◌<◌, ◌≡◌, ◌≢◌, ◌⊎◌, refl, sym, ap, ◌∙◌, true, false, inl, inr, Bool-cases, List,
  [], ◌∷◌, ◌++◌, arith, ℤ, pos, ltb_ℤ, Ptr, null, has, ok, stop, Outcome, Returns-inv, Safe,
  Returns-Safe, Ends, ends, ◌==◌,
}
use mathlib.Core.Path.{subst}
use progetto_so.Pcb.Defs.{Pcbs, insert_proc_q}
use progetto_so.Pcb.Ring.{has-append}
use progetto_so.Pcb.Queue.{insert_proc_q-append}
use progetto_so.Asl.Defs.{max_add}
use progetto_so.Asl.Same.{Represents-same}
use progetto_so.Nucleus.Machine.{Arch, Kernel, clock_semaphore, device_sem, to_int}
use progetto_so.Nucleus.Interrupts.{
  handle_plt_interrupt, handle_interval_timer_interrupt, handle_device_interrupt,
}
use progetto_so.Nucleus.Slice.{suspended, requeued as restarted, plt_run}
use progetto_so.Nucleus.Waits.{OnlyLinks-SameBlock}
use progetto_so.Nucleus.Clock.{interval_timer-Ticked}
use progetto_so.Nucleus.Lines.{is_device_line}
use progetto_so.Nucleus.Release.{Released, wakeable, released}
use progetto_so.Nucleus.Served.{pending, index_of, acked, status_of, handle_device_interrupt-Served}
use progetto_so.Nucleus.Moved.{moved-IsGood}
use progetto_so.Nucleus.Good.{IsQueued, IsRunning, IsGood, IsGood-same, IsQueued-same}
use progetto_so.Nucleus.SafeSched.{scheduler-Ends}

-- The running process goes behind the ready ones.
module _ (arch : Arch) (k : Kernel) (f : Ptr → List Ptr) (xs : List Ptr) (p : Ptr)
    (stop_t : ℤ) where
  readied :
      IsQueued k f xs
      → IsRunning p f xs
      → (tp : Ptr) × (t : Pcbs) × (insert_proc_q k.ready_queue p (suspended arch k p stop_t)
          ≡ ok tp t)
        × IsQueued (restarted k tp t) f (xs ++ p ∷ [])
  readied h (real, pool, (out, nowhere)) =
      let (tp, t, run, (is_tail, queue, links)) = Returns-inv (
        insert_proc_q-append k.ready_queue p xs (suspended arch k p stop_t) h.kernel.ready real
          out) in
      (
        tp,
        t,
        run,
        record {
          kernel = record {
            waiting = Represents-same k.semds t f h.kernel.waiting (λ b q i.
                OnlyLinks-SameBlock (xs ++ p ∷ []) (suspended arch k p stop_t) t q links
                  (apart b q i));
            ready = queue;
            apart = apart;
          };
          pool = λ q i. elim (Bool-cases (q == p)) [
            | inl same ↦ let eq : q ≡ p = ground arith in omega (arith, eq, pool)
            | inr other ↦ h.pool q (ground (arith, has-append q xs (p ∷ []), i, other))
          ];
        },
      )
    where
      apart : (b q : Ptr) → has q (f b) ≡ true → has q (xs ++ p ∷ []) ≡ false
      apart b q i = elim (Bool-cases (q == p)) [
        | inl same ↦
            let eq : q ≡ p = ground arith in
            absurd (ground (arith, ap (λ v. has v (f b)) eq, i, nowhere b))
        | inr other ↦ ground (arith, has-append q xs (p ∷ []), h.kernel.apart b q i, other)
      ]

ne_empty : (xs : List Ptr) (p : Ptr) → xs ++ p ∷ [] ≢ []
ne_empty [] p h = cc
ne_empty (x ∷ xs) p h = cc

plt_run_idle :
    (arch : Arch) (k : Kernel) (stop_t : ℤ)
    → k.current_process ≡ null
    → handle_plt_interrupt arch stop_t k
      ≡ stop Outcome.panic (record k { timer = 5000 * k.time_scale % 2 ^ 32 })
unfolding handle_plt_interrupt
plt_run_idle arch k stop_t none = ground arith

pub plt-Ends :
    (arch : Arch) (k : Kernel) (stop_t : ℤ)
    → IsGood k
    → Ends IsGood (handle_plt_interrupt arch stop_t k)
plt-Ends arch k stop_t g = elim g.running [
  | inl none ↦ rw (plt_run_idle arch k stop_t none) (
      ends (
        IsGood-same k (record k { timer = 5000 * k.time_scale % 2 ^ 32 }) g
          (refl, refl, refl, refl, refl) refl))
  | inr r ↦
      let (tp, t, run, h) = readied arch k g.queues g.ready k.current_process stop_t g.queued r in
      rw (plt_run arch k k.current_process tp t stop_t refl r.0 run) (
        scheduler-Ends arch (restarted k tp t) g.queues (g.ready ++ k.current_process ∷ []) h
          (λ e. absurd (ne_empty g.ready k.current_process e)))
]

pub interval_timer-Safe :
    (arch : Arch) (k : Kernel)
    → IsGood k
    → clock_semaphore arch < max_add
    → Safe IsGood (handle_interval_timer_interrupt arch k)
interval_timer-Safe arch k g below =
    let c = clock_semaphore arch in
    let f = g.queues in
    Returns-Safe (interval_timer-Ticked arch k f g.ready g.queued.kernel below)
      λ _ t (kernel, soft, ints, timer, current, states).
        moved-IsGood f c g.ready [] (f c) (λ q i. absurd (cc)) (λ q i. i) k t g.queued g.running
          kernel current

module _ (arch : Arch) (k : Kernel) (index status : ℕ) (xs : List Ptr) (f : Ptr → List Ptr) where
  released-IsGood :
      (w : List Ptr) (t : Kernel)
      → w ≡ [] ⊎ (w ≡ f (device_sem arch index))
      → IsQueued k f xs
      → (k.current_process ≡ null) ⊎ IsRunning k.current_process f xs
      → Released arch k f index status xs w t
      → IsGood t
  released-IsGood [] t from h runs same =
      subst (λ u. IsGood u) (sym same)
        (IsGood-same k (released k) (record { queues = f; ready = xs; queued = h; running = runs })
          (refl, refl, refl, refl, refl) refl)
  released-IsGood (y ∷ ys) t (inl none) h runs after = absurd (cc)
  released-IsGood (y ∷ ys) t (inr queue) h runs (kernel, states, same) =
      moved-IsGood f (device_sem arch index) xs ys (y ∷ [])
        (λ q i. ap (has q) (sym queue) ∙ ground (arith, i))
        (λ q i. ap (has q) (sym queue) ∙ ground (arith, i)) k t h runs kernel
        (ap (λ (u : Kernel). u.current_process) same)

  wakeable-cases :
      (wakeable arch k f index ≡ []) ⊎ (wakeable arch k f index ≡ f (device_sem arch index))
  wakeable-cases = elim (Bool-cases (ltb_ℤ (k.ints (device_sem arch index)) (pos 1))) [
    | inl low ↦ inr (rw low refl)
    | inr high ↦ inl (rw high refl)
  ]

-- The semaphore of the pending device is an address between those of the sentinels.
abbrev pub InRange : Arch → Kernel → ℕ → Type 0
InRange arch k line =
    let sem = device_sem arch (index_of arch k line (pending arch k line)) in
    (sem ≢ null) × (sem < max_add)

pub device-Safe :
    (arch : Arch) (k : Kernel) (line : ℕ)
    → IsGood k
    → is_device_line arch line ≡ true
    → InRange arch k line
    → Safe IsGood (handle_device_interrupt arch line k)
device-Safe arch k line g valid (set, below) =
    let f = g.queues in
    let dev = pending arch k line in
    let k' : Kernel = acked arch k line dev in
    let index : ℕ = index_of arch k line dev in
    Returns-Safe
      (handle_device_interrupt-Served arch k f line g.ready g.queued.kernel valid set below)
      λ _ t (u, after, same).
        subst (λ v. IsGood v) (sym same)
          (IsGood-same u (record u { start_t = to_int u.timer })
            (released-IsGood arch k' index (status_of arch k line dev) g.ready f
              (wakeable arch k' f index) u (wakeable-cases arch k' index 0 [] f)
              (IsQueued-same k k' f g.ready g.queued (refl, refl, refl, refl, refl)) g.running
              after)
            (refl, refl, refl, refl, refl) refl)
