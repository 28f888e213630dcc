-- ===== src/Transport/Timer/Slots.antt =====
-- What SIGALRM_handler of transport/timer.c does to each slot of the table, and what it calls.
use mathlib.Core.Option
use mlvm.Base.{
  ℕ, zero, suc, ◌+◌, ◌-◌, ◌≤◌, ◌<◌, ◌≡◌, ◌≢◌, refl, ap, subst, sym, ◌∙◌, inl, inr, true, false,
  ◌&&◌, List, [], ◌∷◌, arith, if◌then◌else◌, ltb, leb, ◌==◌, Bool-cases, Option-cases, Option, none,
  some, get_elem?, get_elem?-set_ne, get_elem?-set_self, length, ==→eq, ==→ne,
}
use mlvm.Transport.Timer.{
  is_fired, active, max_timer, Slot, Timers, activate, fire, ring, fire_from, handler, write_slot,
}

module _ {C : Type 0} where
  -- A timer that has run past its deadline fires.
  abbrev pub expire : ℕ → Slot C → Slot C
  expire now s = if active s.status && ltb s.dday now then record s { status = is_fired } else s

  -- The callbacks that are due at the time `now`, in the order of the table, the first slot being
  -- of the timer `id`: each with the id and the argument that it is to get.
  unfoldable pub due : ℕ → ℕ → List (Slot C) → List (C × (ℕ × ℕ))
  due now id [] = []
  due now id (s ∷ ss) =
      let rest = due now (id + 1) ss in
      if active s.status && ltb s.dday now
      then elim s.callback_cb [ none ↦ rest | some c ↦ (c, (id, s.arg_cb)) ∷ rest ]
      else rest

  -- What a list of calls does to the rest of the program, one after another.
  unfoldable pub all_called : {W : Type 0} → (C → ℕ → ℕ → W → W) → List (C × (ℕ × ℕ)) → W → W
  all_called effect [] w = w
  all_called effect ((c, (id, arg)) ∷ cs) w = all_called effect cs (effect c id arg w)

  -- Callbacks that leave the timers alone, and do `effect` to the rest of the program.
  abbrev pub only : {W : Type 0} → (C → ℕ → ℕ → W → W) → C → ℕ → ℕ → W × Timers C → W × Timers C
  only effect c id arg (w, t) = (effect c id arg w, t)

  bound : (i : ℕ) {s : Slot C} (ss : List (Slot C)) → get_elem? ss i ≡ some s → i < length ss
  bound i [] e = absurd cc
  bound zero (x ∷ xs) e = omega arith
  bound (suc i) (x ∷ xs) e = omega (arith, bound i xs e)

  module _ {W : Type 0} (effect : C → ℕ → ℕ → W → W) where
    ring-timers :
        (o : Option C) (id arg : ℕ) (w : W) (t : Timers C)
        → (ring (only effect) o id arg (w, t)).1 ≡ t
    ring-timers none id arg w t = refl
    ring-timers (some c) id arg w t = refl

    fire-here :
        (now id : ℕ) (w : W) (t : Timers C)
        → get_elem? ((fire (only effect) now id (w, t)).1).timer_tlb id
          ≡ Option.map (expire now) (get_elem? t.timer_tlb id)
    unfolding fire
    fire-here now id w t = elim (Option-cases (get_elem? t.timer_tlb id)) [
      | inl e ↦ rw (e, fire) (rw e refl)
      | inr (s, e) ↦ elim (Bool-cases (active s.status && ltb s.dday now)) [
        | inl q ↦
            rw (e, q, ring-timers, fire)
              (get_elem?-set_self t.timer_tlb id (record s { status = is_fired })
                (bound id t.timer_tlb e))
        | inr q ↦ rw (e, q, fire) (rw e refl)
      ]
    ]

    fire-apart :
        (now id i : ℕ) (w : W) (t : Timers C)
        → id ≢ i
        → get_elem? ((fire (only effect) now id (w, t)).1).timer_tlb i ≡ get_elem? t.timer_tlb i
    unfolding fire
    fire-apart now id i w t d = elim (Option-cases (get_elem? t.timer_tlb id)) [
      | inl e ↦ rw (e, fire) refl
      | inr (s, e) ↦ elim (Bool-cases (active s.status && ltb s.dday now)) [
        | inl q ↦
            rw (e, q, ring-timers, fire)
              (get_elem?-set_ne t.timer_tlb id i (record s { status = is_fired }) d)
        | inr q ↦ rw (e, q, fire) refl
      ]
    ]

    fire_from-slot :
        (now n id i : ℕ) (w : W) (t : Timers C)
        → get_elem? ((fire_from (only effect) now n id (w, t)).1).timer_tlb i ≡ (
            if leb id i && ltb i (id + n)
            then Option.map (expire now) (get_elem? t.timer_tlb i)
            else get_elem? t.timer_tlb i)
    unfolding fire_from
    fire_from-slot now zero id i w t =
        let out : (leb id i && ltb i (id + 0)) ≡ false = ground arith in rw out refl
    fire_from-slot now (suc n) id i w t = elim (Bool-cases (i == id)) [
      | inl q ↦
          let h : id ≡ i = sym (==→eq i id q) in
          let out : (leb (id + 1) i && ltb i (id + 1 + n)) ≡ false = ground arith in
          let within : (leb id i && ltb i (id + suc n)) ≡ true = ground arith in
          fire_from-slot now n (id + 1) i (p.0) (p.1)
          ∙ (rw (out, within)
              (subst
                (λ j.
                  get_elem? (p.1).timer_tlb j ≡ Option.map (expire now) (get_elem? t.timer_tlb j))
                h (fire-here now id w t)))
      | inr q ↦
          let d : id ≢ i = λ e. ==→ne i id q (sym e) in
          let same : (leb (id + 1) i && ltb i (id + 1 + n)) ≡ (leb id i && ltb i (id + suc n)) =
            ground (arith, ==→ne i id q) in
          fire_from-slot now n (id + 1) i (p.0) (p.1) ∙ (rw (same, fire-apart now id i w t d) refl)
    ]
      where
        p : W × Timers C
        p = fire (only effect) now id (w, t)

    ring-called :
        (o : Option C) (cs : List (C × (ℕ × ℕ))) (id arg : ℕ) (w : W) (t : Timers C)
        → all_called effect cs ((ring (only effect) o id arg (w, t)).0)
          ≡ all_called effect (elim o [ none ↦ cs | some c ↦ (c, (id, arg)) ∷ cs ]) w
    unfolding all_called
    ring-called none cs id arg w t = refl
    ring-called (some c) cs id arg w t = refl

    -- One round of the handler runs the callback of its slot where it is due.
    fire-due :
        (now id : ℕ) (s : Slot C) (ss : List (Slot C)) (w : W) (t : Timers C)
        → get_elem? t.timer_tlb id ≡ some s
        → all_called effect (due now (id + 1 + 1) ss) ((fire (only effect) now id (w, t)).0)
          ≡ all_called effect (due now (id + 1) (s ∷ ss)) w
    unfolding fire due
    fire-due now id s ss w t e = elim (Bool-cases (active s.status && ltb s.dday now)) [
      | inl q ↦
          rw (e, q, fire, due)
            (ring-called s.callback_cb (due now (id + 1 + 1) ss) (id + 1) s.arg_cb w
              (write_slot id (record s { status = is_fired }) t))
      | inr q ↦ rw (e, q, fire, due) refl
    ]

    fire-idle :
        (now id : ℕ) (w : W) (t : Timers C)
        → get_elem? t.timer_tlb id ≡ none
        → fire (only effect) now id (w, t) ≡ (w, t)
    unfolding fire
    fire-idle now id w t e = rw (e, fire) refl

    fire_from-idle :
        (now n id : ℕ) (w : W) (t : Timers C)
        → ((j : ℕ) → id ≤ j → get_elem? t.timer_tlb j ≡ none)
        → (fire_from (only effect) now n id (w, t)).0 ≡ w
    unfolding fire_from
    fire_from-idle now zero id w t h = refl
    fire_from-idle now (suc n) id w t h =
        ap (λ p. (fire_from (only effect) now n (id + 1) p).0)
          (fire-idle now id w t (h id (omega arith)))
        ∙ fire_from-idle now n (id + 1) w t (λ j g. h j (omega arith))

    fire_from-due :
        (now n id : ℕ) (ss : List (Slot C)) (w : W) (t : Timers C)
        → length ss ≤ n
        → ((i j : ℕ) → j ≡ id + i → get_elem? t.timer_tlb j ≡ get_elem? ss i)
        → (fire_from (only effect) now n id (w, t)).0 ≡ all_called effect (due now (id + 1) ss) w
    unfolding fire_from due all_called
    fire_from-due now n id [] w t g h =
        fire_from-idle now n id w t (λ j l. h (j - id) j (omega arith))
    fire_from-due now zero id (s ∷ ss) w t g h = absurd (omega arith)
    fire_from-due now (suc n) id (s ∷ ss) w t g h =
        fire_from-due now n (id + 1) ss (p.0) (p.1) (omega arith)
          (λ i j q. fire-apart now id j w t (omega arith) ∙ h (suc i) j (omega arith))
        ∙ fire-due now id s ss w t (h 0 id (omega arith))
      where
        p : W × Timers C
        p = fire (only effect) now id (w, t)

    -- Where the callbacks leave the timers alone, and the table has at most MAX_TIMER slots: the
    -- handler runs the callback of every timer that has run past its deadline at the time that it
    -- began, where it has one, in the order of the table, each once and with its id and its
    -- argument, and no other callback. Those timers have fired after it, and no other slot changes.
    pub handler-expires :
        (now now' : ℕ) (w : W) (t : Timers C)
        → length t.timer_tlb ≤ max_timer
        → ((handler (only effect) now now' (w, t)).0 ≡ all_called effect (due now 1 t.timer_tlb) w)
          × ((i : ℕ)
              → i < max_timer
              → get_elem? ((handler (only effect) now now' (w, t)).1).timer_tlb i
                ≡ Option.map (expire now) (get_elem? t.timer_tlb i))
    unfolding handler activate
    handler-expires now now' w t h = (
      fire_from-due now max_timer 0 t.timer_tlb w t h
          (λ i j q. ap (get_elem? t.timer_tlb) (omega arith)),
      λ i g.
          let within : (leb 0 i && ltb i (0 + max_timer)) ≡ true = ground arith in
          fire_from-slot now max_timer 0 i w t ∙ (rw within refl),
    )
