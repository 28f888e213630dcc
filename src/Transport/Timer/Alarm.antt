-- ===== src/Transport/Timer/Alarm.antt =====
-- The alarm of transport/timer.c is for the earliest deadline.
use mlvm.Base.{
  ℕ, zero, suc, ◌+◌, ◌-◌, ◌≤◌, ◌≡◌, ◌≢◌, refl, ◌⊎◌, inl, inr, Bool, true, false, not, ◌&&◌, ◌||◌,
  List, [], ◌∷◌, arith, if◌then◌else◌, ltb, ◌==◌, All, Bool-cases, Option-cases, Option, none, some,
  get_elem?, set,
}
use mlvm.Transport.Timer.{
  active, Slot, Timers, earliest, activate, fire, ring, fire_from, handler, max_timer,
}

module _ {C : Type 0} where
  -- The deadline of a running timer is not the time 0, which the search takes for no time.
  abbrev pub IsDated : List (Slot C) → Type 0
  IsDated = All (λ s. active s.status ≡ true → s.dday ≢ 0)

  -- Whether a timer is running, and whether one with this deadline is.
  abbrev pub some_active : List (Slot C) → Bool
  some_active [] = false
  some_active (s ∷ ss) = active s.status || some_active ss

  abbrev pub has_deadline : ℕ → List (Slot C) → Bool
  has_deadline d [] = false
  has_deadline d (s ∷ ss) = (active s.status && (s.dday == d)) || has_deadline d ss

  -- What the search finds, from `tv1` on.
  record Earliest (tv1 : ℕ) (ss : List (Slot C)) (e : ℕ) : Type 0 where
    nothing : (e == 0) ≡ ((tv1 == 0) && not (some_active ss))
    no_later : tv1 ≢ 0 → e ≤ tv1
    first : All (λ s. active s.status ≡ true → e ≤ s.dday) ss
    found : (e ≡ tv1) ⊎ (has_deadline e ss ≡ true)

  earliest-Earliest :
      (tv1 : ℕ) (ss : List (Slot C)) → IsDated ss → Earliest tv1 ss (earliest tv1 ss)
  unfolding earliest
  earliest-Earliest tv1 [] d = record {
    nothing = ground arith;
    no_later = λ h. omega arith;
    first = tt;
    found = inl refl;
  }
  earliest-Earliest tv1 (s ∷ ss) d =
      elim (Bool-cases (active s.status && (tv1 == 0 || ltb s.dday tv1))) [
        | inl q ↦
            let r = earliest-Earliest s.dday ss d.1 in
            rw (q, earliest)
              (record {
                nothing = ground (arith, r.nothing, d.0);
                no_later = λ h. ground (arith, r.no_later, d.0);
                first = (λ a. ground (arith, r.no_later, d.0), r.first);
                found = ground (arith, r.found);
              })
        | inr q ↦
            let r = earliest-Earliest tv1 ss d.1 in
            rw (q, earliest)
              (record {
                nothing = ground (arith, r.nothing, d.0);
                no_later = r.no_later;
                first = (λ a. ground (arith, r.no_later), r.first);
                found = ground (arith, r.found);
              })
      ]

  -- What the alarm is to be at the time `now`: off where no timer is running, and else for the
  -- earliest deadline, at once where that has passed.
  pub data Alarm (now : ℕ) (ss : List (Slot C)) : ℕ → Type 0 where
    off : some_active ss ≡ false → Alarm now ss 0
    on :
        (d : ℕ)
        → has_deadline d ss ≡ true
        → All (λ s. active s.status ≡ true → d ≤ s.dday) ss
        → Alarm now ss (if ltb now d then d - now else 1)

  pub activate-Alarm :
      (now : ℕ) (t : Timers C)
      → IsDated t.timer_tlb
      → Alarm now (activate now t).timer_tlb (activate now t).it_value
  unfolding activate
  activate-Alarm now t d = elim (Bool-cases (earliest 0 t.timer_tlb == 0)) [
    | inl q ↦ rw q (off (ground (arith, r.nothing)))
    | inr q ↦ rw q (on (earliest 0 t.timer_tlb) (ground (arith, r.found)) r.first)
  ]
    where
      r : Earliest 0 t.timer_tlb (earliest 0 t.timer_tlb)
      r = earliest-Earliest 0 t.timer_tlb d

  pub set-IsDated :
      (ss : List (Slot C)) (i : ℕ) (s : Slot C)
      → IsDated ss
      → (active s.status ≡ true → s.dday ≢ 0)
      → IsDated (set ss i s)
  set-IsDated [] i s d h = tt
  set-IsDated (x ∷ xs) zero s d h = (h, d.1)
  set-IsDated (x ∷ xs) (suc i) s d h = (d.0, set-IsDated xs i s d.1 h)

  -- Callbacks that leave no running deadline at the time 0, wherever it was so before.
  abbrev pub IsCalm : {W : Type 0} → (C → ℕ → ℕ → W × Timers C → W × Timers C) → Type 0
  IsCalm {W} call =
      (c : C) (id arg : ℕ) (w : W) (t : Timers C)
      → IsDated t.timer_tlb
      → IsDated ((call c id arg (w, t)).1).timer_tlb

  module _ {W : Type 0} (call : C → ℕ → ℕ → W × Timers C → W × Timers C) (calm : IsCalm call) where
    fire-IsDated :
        (now id : ℕ) (w : W) (t : Timers C)
        → IsDated t.timer_tlb
        → IsDated ((fire call now id (w, t)).1).timer_tlb
    unfolding fire
    fire-IsDated now id w t d = elim (Option-cases (get_elem? t.timer_tlb id)) [
      | inl e ↦ rw (e, fire) d
      | inr (s, e) ↦ elim (Bool-cases (active s.status && ltb s.dday now)) [
        | inl q ↦
            rw (e, q, fire)
              (rung s.callback_cb s.arg_cb id _ (set-IsDated t.timer_tlb id _ d (λ x. cc)))
        | inr q ↦ rw (e, q, fire) d
      ]
    ]
      where
        rung :
            (o : Option C) (arg id : ℕ) (t' : Timers C)
            → IsDated t'.timer_tlb
            → IsDated ((ring call o (id + 1) arg (w, t')).1).timer_tlb
        rung none arg id t' d = d
        rung (some c) arg id t' d = calm c (id + 1) arg w t' d

    pub fire_from-IsDated :
        (now n id : ℕ) (w : W) (t : Timers C)
        → IsDated t.timer_tlb
        → IsDated ((fire_from call now n id (w, t)).1).timer_tlb
    unfolding fire_from
    fire_from-IsDated now zero id w t d = d
    fire_from-IsDated now (suc n) id w t d =
        let q = fire call now id (w, t) in
        fire_from-IsDated now n (id + 1) q.0 q.1 (fire-IsDated now id w t d)

    -- After the alarm has rung and every expired timer has run its callback, the alarm is set for
    -- the earliest deadline that then runs, or off. No deadline is the time 0, and the callbacks
    -- give none such.
    pub handler-Alarm :
        (now now' : ℕ) (w : W) (t : Timers C)
        → IsDated t.timer_tlb
        → Alarm now'
            ((handler call now now' (w, t)).1).timer_tlb
            ((handler call now now' (w, t)).1).it_value
    unfolding handler
    handler-Alarm now now' w t d =
        activate-Alarm now' (fire_from call now max_timer 0 (w, t)).1
          (fire_from-IsDated now max_timer 0 w t d)
