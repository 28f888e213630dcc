-- ===== src/Transport/Timer/Steps.antt =====
-- What the functions of transport/timer.c keep, in whatever order they are called.
use mlvm.Base.{
  if◌then◌else◌, Bool, ℕ, zero, suc, ◌+◌, ◌-◌, ◌≤◌, ◌<◌, ◌≡◌, refl, inl, inr, true, false, ◌&&◌,
  ◌||◌, List, [], ◌∷◌, arith, ap, sym, ◌∙◌, ◌==◌, All, Bool-cases, Option-cases, Option, none, some,
  get_elem?, set, replicate, subst,
}
use mlvm.Transport.Timer.{
  TimerStatus, is_free, is_active, is_fired, is_stopped, active, unused, Slot, Timers, cleared,
  init, slot, write_slot, new, free, arm, stop, handler, activate, fire_from, max_timer,
}
use mlvm.Transport.Timer.Alarm.{
  IsDated, IsCalm, some_active, has_deadline, Alarm, off, on, activate-Alarm, set-IsDated,
  fire_from-IsDated,
}
use mlvm.Transport.Timer.Given.{Given, refused, given, new-Given}

unused-active : (x : TimerStatus) → unused x ≡ true → active x ≡ false
unused-active is_free u = refl
unused-active is_active u = cc
unused-active is_fired u = refl
unused-active is_stopped u = refl

cleared-IsDated : (C : Type 0) (n : ℕ) → IsDated {C = C} (replicate n cleared)
cleared-IsDated C zero = tt
cleared-IsDated C (suc n) = ((λ e. absurd cc), cleared-IsDated C n)

cleared-idle : (C : Type 0) (n : ℕ) → some_active {C = C} (replicate n cleared) ≡ false
cleared-idle C zero = refl
cleared-idle C (suc n) = cleared-idle C n

-- When the interval timer was last set, after a call that sets it at `now` or refuses its id.
abbrev pub set_at : Bool → ℕ → ℕ → ℕ
set_at b now since = if b then now else since

module _ {C : Type 0} where
  -- No deadline is the time 0, and the alarm is what it is to be at the time `since`.
  pub record IsArmed (since : ℕ) (t : Timers C) : Type 0 where
    pub dated : IsDated t.timer_tlb
    pub alarm : Alarm since t.timer_tlb t.it_value

  activate-IsArmed : (now : ℕ) (t : Timers C) → IsDated t.timer_tlb → IsArmed now (activate now t)
  unfolding activate
  activate-IsArmed now t d = record { dated = d; alarm = activate-Alarm now t d }

  -- Whether an id is that of a slot of the table.
  abbrev pub has_slot : ℕ → Timers C → Bool
  has_slot id t = elim (slot id t) [ none ↦ false | some s ↦ true ]

  stopped : Slot C → Slot C
  stopped s = record s { status = is_stopped }

  same_slot : (x s : Slot C) → some x ≡ some s → active s.status ≡ false → active x.status ≡ false
  same_slot x s g a = let e : x ≡ s = cc in subst (λ z. active z.status ≡ false) (sym e) a

  -- Taking a free slot changes nothing that the alarm depends on.
  some_active-set :
      (ss : List (Slot C)) (i : ℕ) (s : Slot C)
      → get_elem? ss i ≡ some s
      → active s.status ≡ false
      → some_active (set ss i (stopped s)) ≡ some_active ss
  unfolding stopped
  some_active-set [] i s g a = refl
  some_active-set (x ∷ xs) zero s g a = rw (same_slot x s g a) refl
  some_active-set (x ∷ xs) (suc i) s g a = ap (◌||◌ (active x.status)) (some_active-set xs i s g a)

  has_deadline-set :
      (d : ℕ) (ss : List (Slot C)) (i : ℕ) (s : Slot C)
      → get_elem? ss i ≡ some s
      → active s.status ≡ false
      → has_deadline d (set ss i (stopped s)) ≡ has_deadline d ss
  unfolding stopped
  has_deadline-set d [] i s g a = refl
  has_deadline-set d (x ∷ xs) zero s g a = rw (same_slot x s g a) refl
  has_deadline-set d (x ∷ xs) (suc i) s g a =
      ap (◌||◌ (active x.status && (x.dday == d))) (has_deadline-set d xs i s g a)

  first-set :
      (d : ℕ) (ss : List (Slot C)) (i : ℕ) (s : Slot C)
      → All (λ x. active x.status ≡ true → d ≤ x.dday) ss
      → All (λ x. active x.status ≡ true → d ≤ x.dday) (set ss i (stopped s))
  unfolding stopped
  first-set d [] i s h = tt
  first-set d (x ∷ xs) zero s h = ((λ e. absurd cc), h.1)
  first-set d (x ∷ xs) (suc i) s h = (h.0, first-set d xs i s h.1)

  taken-Alarm :
      {now : ℕ} (ss : List (Slot C)) (i : ℕ) (s : Slot C) {v : ℕ}
      → get_elem? ss i ≡ some s
      → active s.status ≡ false
      → Alarm now ss v
      → Alarm now (set ss i (stopped s)) v
  taken-Alarm ss i s g a (off h) = off (some_active-set ss i s g a ∙ h)
  taken-Alarm ss i s g a (on d h p) =
      on d (has_deadline-set d ss i s g a ∙ h) (first-set d ss i s p)

  new-IsArmed : {since : ℕ} (t : Timers C) → IsArmed since t → IsArmed since (new t).1
  unfolding stopped
  new-IsArmed {since} t r = from (new t) (new-Given t)
    where
      from : (o : Option ℕ × Timers C) → Given t o → IsArmed since o.1
      from o (refused a) = r
      from o (given i {s} g u) = record {
        dated = set-IsDated t.timer_tlb i (stopped s) r.dated (λ e. absurd cc);
        alarm = taken-Alarm t.timer_tlb i s g (unused-active s.status u) r.alarm;
      }

  free-IsArmed :
      {since : ℕ} (now id : ℕ) (t : Timers C)
      → IsArmed since t
      → IsArmed (set_at (has_slot id t) now since) (free now id t)
  unfolding free
  free-IsArmed now id t r = elim (Option-cases (slot id t)) [
    | inl e ↦ rw (e, free, has_slot) r
    | inr (s, e) ↦
        rw (e, free, has_slot)
          (activate-IsArmed now (write_slot (id - 1) cleared t)
            (set-IsDated t.timer_tlb (id - 1) cleared r.dated (λ q. absurd cc)))
  ]

  stop-IsArmed :
      {since : ℕ} (now id : ℕ) (t : Timers C)
      → IsArmed since t
      → IsArmed (set_at (has_slot id t) now since) (stop now id t)
  unfolding stop stopped
  stop-IsArmed now id t r = elim (Option-cases (slot id t)) [
    | inl e ↦ rw (e, stop, has_slot) r
    | inr (s, e) ↦
        rw (e, stop, has_slot)
          (activate-IsArmed now (write_slot (id - 1) (stopped s) t)
            (set-IsDated t.timer_tlb (id - 1) _ r.dated (λ q. absurd cc)))
  ]

  arm-IsArmed :
      {since : ℕ} (now now' id : ℕ) (tv : Option ℕ) (cb : Option C) (arg : ℕ) (t : Timers C)
      → 0 < now
      → IsArmed since t
      → IsArmed (set_at (arm now now' id tv cb arg t).0 now' since) (arm now now' id tv cb arg t).1
  unfolding arm
  arm-IsArmed now now' id none cb arg t h r = r
  arm-IsArmed {since} now now' id (some tv) cb arg t h r = elim (Option-cases (slot id t)) [
    | inl e ↦ rw (e, arm) r
    | inr (s, e) ↦ elim (Bool-cases (unused s.status)) [
      | inl u ↦ rw (e, u, arm) r
      | inr u ↦ rw (e, u, arm) (set_armed cb s)
    ]
  ]
    where
      set_armed :
          (cb : Option C) (s : Slot C)
          → IsArmed now' (
              let s1 : Slot C = record s { dday = now + tv } in
              let s2 : Slot C = elim cb [
                | none ↦ s1
                | some c ↦ record s1 { callback_cb = some c; arg_cb = arg }
              ] in
              activate now' (write_slot (id - 1) (record s2 { status = is_active }) t))
      set_armed none s = activate-IsArmed now' _ (
          set-IsDated t.timer_tlb (id - 1) (record s { dday = now + tv; status = is_active })
            r.dated (λ q. λ z. omega (arith, z)))
      set_armed (some c) s = activate-IsArmed now' _ (
          set-IsDated t.timer_tlb (id - 1)
            (record s { dday = now + tv; callback_cb = some c; arg_cb = arg; status = is_active })
            r.dated (λ q. λ z. omega (arith, z)))

  module _ {W : Type 0} (call : C → ℕ → ℕ → W × Timers C → W × Timers C) where
    -- What the functions do to the timers, one call after another, and to the time of the clock at
    -- which the interval timer was last set. No time at which a timer is set is 0.
    pub data Step (since : ℕ) (t : Timers C) : ℕ → Timers C → Type 0 where
      by_new : Step since t since (new t).1
      by_free : (now id : ℕ) → Step since t (set_at (has_slot id t) now since) (free now id t)
      by_arm :
          (now now' id : ℕ) (tv : Option ℕ) (cb : Option C) (arg : ℕ)
          → 0 < now
          → Step since t
              (set_at (arm now now' id tv cb arg t).0 now' since)
              (arm now now' id tv cb arg t).1
      by_stop : (now id : ℕ) → Step since t (set_at (has_slot id t) now since) (stop now id t)
      by_ring : (now now' : ℕ) (w : W) → Step since t now' (handler call now now' (w, t)).1

    -- What can be reached from `timer_init`, where no alarm is set, and the time at which the
    -- interval timer was last set, 0 where it was not.
    pub data Reachable : ℕ → Timers C → Type 0 where
      at_init : (ss : List (Slot C)) → Reachable 0 (init (record { timer_tlb = ss; it_value = 0 }))
      after :
          {since since' : ℕ} {t t' : Timers C}
          → Reachable since t
          → Step since t since' t'
          → Reachable since' t'

    Step-IsArmed :
        IsCalm call
        → {since : ℕ} {t : Timers C} {since' : ℕ} {t' : Timers C} → IsArmed since t
        → Step since t since' t'
        → IsArmed since' t'
    unfolding handler
    Step-IsArmed calm {t = t} r by_new = new-IsArmed t r
    Step-IsArmed calm {t = t} r (by_free now id) = free-IsArmed now id t r
    Step-IsArmed calm {t = t} r (by_arm now now' id tv cb arg h) =
        arm-IsArmed now now' id tv cb arg t h r
    Step-IsArmed calm {t = t} r (by_stop now id) = stop-IsArmed now id t r
    Step-IsArmed calm {t = t} r (by_ring now now' w) =
        activate-IsArmed now' (fire_from call now max_timer 0 (w, t)).1
          (fire_from-IsDated call calm now max_timer 0 w t r.dated)

    -- However the functions of the timers are called after `timer_init`, and whenever the signal
    -- comes: no running deadline is the time 0, and `it_value` is off where no timer runs, and else
    -- the time from the one at which the interval timer was last set to the earliest deadline that
    -- runs, or 1 where that had passed. The time at which a timer is set is not 0, and the
    -- callbacks leave no running deadline at 0.
    pub Reachable-IsArmed :
        IsCalm call → {since : ℕ} {t : Timers C} → Reachable since t → IsArmed since t
    Reachable-IsArmed calm (at_init ss) = record {
      dated = cleared-IsDated C max_timer;
      alarm = off (cleared-idle C max_timer);
    }
    Reachable-IsArmed calm (after r s) = Step-IsArmed calm (Reachable-IsArmed calm r) s
