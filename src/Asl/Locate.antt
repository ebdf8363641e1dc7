-- ===== src/Asl/Locate.antt =====
-- Where a semaphore stands in an active list: the entries below it, and the others.
use progetto_so.Base.{
  ℕ, zero, suc, ◌+◌, ◌≤◌, ◌<◌, ◌≡◌, ◌≢◌, refl, sym, ap, ◌∙◌, inl, inr, true, false, List, [], ◌∷◌,
  ◌++◌, arith, Ptr, null, has, length, ltb, ◌==◌, Bool-cases, ok,
}
use progetto_so.Pcb.Defs.{max_proc}
use progetto_so.Pcb.Ring.{Distinct}
use progetto_so.Asl.Defs.{Semds, max_add, semd_entry, find_loop, find_sem_in_active_list}
use progetto_so.Asl.Find.{end_of, find_last, find_here, find_further}
use progetto_so.Asl.Entries.{Entry, descs, Seg, IsAscending, AllHold, under}

pub descs-append : (us vs : List Entry) → descs (us ++ vs) ≡ descs us ++ descs vs
descs-append [] vs = refl
descs-append (u ∷ us) vs = ap (λ l. u.desc ∷ l) (descs-append us vs)

module _ (s : Semds) (free : List Ptr) where
  pub AllHold-left : (us vs : List Entry) → AllHold s free (us ++ vs) → AllHold s free us
  AllHold-left [] vs h = tt
  AllHold-left (u ∷ us) vs h = (h.0, AllHold-left us vs h.1)

  pub AllHold-right : (us vs : List Entry) → AllHold s free (us ++ vs) → AllHold s free vs
  AllHold-right [] vs h = h
  AllHold-right (u ∷ us) vs h = AllHold-right us vs h.1

  pub AllHold-append :
      (us vs : List Entry) → AllHold s free us → AllHold s free vs → AllHold s free (us ++ vs)
  AllHold-append [] vs h h' = h'
  AllHold-append (u ∷ us) vs h h' = (h.0, AllHold-append us vs h.1 h')

  -- A descriptor of a lower semaphore is not in the list.
  pub lower-not_has :
      (q low : Ptr) (es : List Entry)
      → AllHold s free es
      → IsAscending low es
      → s.s_sem_add q ≤ low
      → has q (descs es) ≡ false
  lower-not_has q low [] h asc le = refl
  lower-not_has q low (e ∷ es) (h, hs) (lt, asc) le = elim (Bool-cases (q == e.desc)) [
    | inl same ↦
        let eq : q ≡ e.desc = ground arith in
        absurd (omega (arith, ap s.s_sem_add eq, h.is_add, le, lt))
    | inr other ↦ ground (arith, lower-not_has q e.add es hs asc (omega arith))
  ]

  pub descs-Distinct :
      (low : Ptr) (es : List Entry) → AllHold s free es → IsAscending low es → Distinct (descs es)
  descs-Distinct low [] h asc = tt
  descs-Distinct low (e ∷ es) (h, hs) (lt, asc) = (
    lower-not_has e.desc e.add es hs asc (omega (arith, h.is_add)),
    descs-Distinct e.add es hs asc,
  )

  -- The sentinels and the free descriptors are not in the list.
  pub sentinel-not_has :
      (q : Ptr) (es : List Entry) → AllHold s free es → q ≤ 2 → has q (descs es) ≡ false
  sentinel-not_has q [] h le = refl
  sentinel-not_has q (e ∷ es) (h, hs) le = ground (arith, h.in_table, sentinel-not_has q es hs le)

  pub free-not_has :
      (q : Ptr) (es : List Entry) → AllHold s free es → has q free ≡ true → has q (descs es) ≡ false
  free-not_has q [] h f = refl
  free-not_has q (e ∷ es) (h, hs) f = elim (Bool-cases (q == e.desc)) [
    | inl same ↦
        let eq : q ≡ e.desc = ground arith in
        absurd (ground (arith, ap (λ d. has d free) eq, h.not_free, f))
    | inr other ↦ ground (arith, free-not_has q es hs f)
  ]

  -- The search stops behind the entries that are below the semaphore.
  find_loop_run :
      (es : List Entry) (k a p : ℕ)
      → p ≢ null
      → Seg s.s_next p (descs es) (semd_entry 1)
      → AllHold s free es
      → s.s_sem_add (semd_entry 1) ≡ max_add
      → a ≤ max_add
      → length es < k
      → find_loop k a p s ≡ ok (end_of p (descs (under a es))) s
  find_loop_run es zero a p real seg h up le lt = absurd (omega (arith, lt))
  find_loop_run [] (suc k) a p real seg h up le lt =
      find_last k a p s real (omega (arith, seg)) (ap s.s_sem_add seg ∙ up)
  find_loop_run (e ∷ es) (suc k) a p real (seg, rest) (h, hs) up le lt =
      let next_real : s.s_next p ≢ null = omega (arith, seg, h.in_table) in
      let add_is : s.s_sem_add (s.s_next p) ≡ e.add = ap s.s_sem_add seg ∙ h.is_add in
      elim (Bool-cases (ltb e.add a)) [
        | inl below ↦
            find_further k a p s real next_real (ap (λ v. ltb v a) add_is ∙ below)
              (omega (arith, add_is, h.below_max))
            ∙ ap (λ v. find_loop k a v s) seg
            ∙ find_loop_run es k a e.desc (omega (arith, h.in_table)) rest hs up le
                (omega (arith, lt))
            ∙ ap (λ l. ok (end_of p (descs l)) s) (sym (under_below a e es below))
        | inr above ↦
            find_here k a p s real next_real (ap (λ v. ltb v a) add_is ∙ above)
            ∙ ap (λ l. ok (end_of p (descs l)) s) (sym (under_above a e es above))
      ]
    where
      under_below :
          (a : ℕ) (e : Entry) (es : List Entry)
          → ltb e.add a ≡ true
          → under a (e ∷ es) ≡ e ∷ under a es
      under_below a e es h = rw h

      under_above :
          (a : ℕ) (e : Entry) (es : List Entry) → ltb e.add a ≡ false → under a (e ∷ es) ≡ []
      under_above a e es h = rw h

  pub end_of-ne_null :
      (p : Ptr) (us : List Entry) → p ≢ null → AllHold s free us → end_of p (descs us) ≢ null
  end_of-ne_null p [] real h = real
  end_of-ne_null p (u ∷ us) real (h, hs) = end_of-ne_null u.desc us (omega (arith, h.in_table)) hs

  pub find_sem_run :
      (es : List Entry) (a : ℕ)
      → s.semd_h ≡ semd_entry 0
      → Seg s.s_next (semd_entry 0) (descs es) (semd_entry 1)
      → AllHold s free es
      → s.s_sem_add (semd_entry 1) ≡ max_add
      → a ≤ max_add
      → length es ≤ max_proc
      → find_sem_in_active_list a s ≡ ok (end_of (semd_entry 0) (descs (under a es))) s
  unfolding find_sem_in_active_list
  find_sem_run es a h seg hold up le bound =
      ap (λ p. find_loop (max_proc + 2) a p s) h
      ∙ find_loop_run es (max_proc + 2) a (semd_entry 0) (omega arith) seg hold up le
          (omega (arith, bound))
