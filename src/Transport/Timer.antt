-- ===== src/Transport/Timer.antt =====
-- transport/timer.c: the table of timers and the one interval timer that serves them all. A time
-- is a number of microseconds, which a canonical `struct timeval` stands for, so `timercmp`,
-- `timeradd`, `timersub` and `timerisset` are `<`, `+`, `-` and the test against 0. What
-- `gettimeofday` answers is an argument. A negative id, which every function refuses, is none here.
pub mod Alarm
pub mod Given
pub mod Slots
pub mod Steps
use mlvm.Base.{
  ℕ, zero, suc, ◌+◌, ◌-◌, Bool, true, false, ◌&&◌, ◌||◌, Option, none, some, List, [], ◌∷◌,
  if◌then◌else◌, ltb, leb, ◌==◌, get_elem?, set, replicate,
}

-- `timer_st`
pub data TimerStatus : Type 0 where
  is_free is_active is_fired is_stopped : TimerStatus

abbrev pub active : TimerStatus → Bool
active is_free = false
active is_active = true
active is_fired = false
active is_stopped = false

abbrev pub unused : TimerStatus → Bool
unused is_free = true
unused is_active = false
unused is_fired = false
unused is_stopped = false

abbrev pub max_timer : ℕ
max_timer = 255

-- `C` is the type of the callbacks, the functions that other parts of the program pass.
module _ (C : Type 0) where
  -- `struct timer_str`
  pub record Slot : Type 0 where
    pub status : TimerStatus
    pub dday : ℕ
    pub callback_cb : Option C
    pub arg_cb : ℕ

  -- `timer_tlb`, and the time that `setitimer` was last given: 0 stops it.
  pub record Timers : Type 0 where
    pub timer_tlb : List Slot
    pub it_value : ℕ

module _ {C : Type 0} where
  -- A slot of zeros, as `memset` leaves it.
  abbrev pub cleared : Slot C
  cleared = record { status = is_free; dday = 0; callback_cb = none; arg_cb = 0 }

  -- `timer_init`
  abbrev pub init : Timers C → Timers C
  init t = record t { timer_tlb = replicate max_timer cleared }

  -- The loop of `timer_activate` that looks for the earliest deadline, from `tv1` on.
  pub earliest : ℕ → List (Slot C) → ℕ
  earliest tv1 [] = tv1
  earliest tv1 (s ∷ ss) =
      earliest (if active s.status && (tv1 == 0 || ltb s.dday tv1) then s.dday else tv1) ss

  -- `timer_activate`, at the time `now`
  unfoldable pub activate : ℕ → Timers C → Timers C
  unfolding earliest
  activate now t =
      let tv1 = earliest 0 t.timer_tlb in
      record t { it_value = if tv1 == 0 then 0 else if ltb now tv1 then tv1 - now else 1 }

  abbrev pub write_slot : ℕ → Slot C → Timers C → Timers C
  write_slot id s t = record t { timer_tlb = set t.timer_tlb id s }

  -- The search of `timer_new`, from index `id` on.
  pub find_free : ℕ → List (Slot C) → Option ℕ
  find_free id [] = none
  find_free id (s ∷ ss) = if unused s.status then some id else find_free (id + 1) ss

  -- `timer_new`: `none` is TIMER_INVALID.
  unfoldable pub new : Timers C → Option ℕ × Timers C
  unfolding find_free
  new t = elim (find_free 0 t.timer_tlb) [
    | none ↦ (none, t)
    | some id ↦ elim (get_elem? t.timer_tlb id) [
      | none ↦ (none, t)
      | some s ↦ (some (id + 1), write_slot id (record s { status = is_stopped }) t)
    ]
  ]

  -- The slot of a timer, where the id is valid.
  abbrev pub slot : ℕ → Timers C → Option (Slot C)
  slot zero t = none
  slot (suc id) t = get_elem? t.timer_tlb id

  -- `timer_free`
  unfoldable pub free : (now id : ℕ) → Timers C → Timers C
  free now id t = elim (slot id t) [
    | none ↦ t
    | some s ↦ activate now (write_slot (id - 1) cleared t)
  ]

  -- `timer_set`: `now` is when the deadline is computed, `now'` when the alarm is. Where the
  -- result is `false`, it is -1.
  unfoldable pub arm : (now now' id : ℕ) → Option ℕ → Option C → ℕ → Timers C → Bool × Timers C
  arm now now' id none cb arg t = (false, t)
  arm now now' id (some tv) cb arg t = elim (slot id t) [
    | none ↦ (false, t)
    | some s ↦
        if unused s.status
        then (false, t)
        else let s1 : Slot C = record s { dday = now + tv } in
          let s2 : Slot C = elim cb [
            | none ↦ s1
            | some c ↦ record s1 { callback_cb = some c; arg_cb = arg }
          ] in
          (true, activate now' (write_slot (id - 1) (record s2 { status = is_active }) t))
  ]

  -- `timer_status`: `none` is TIMER_INVALID.
  unfoldable pub status_of : ℕ → Timers C → Option TimerStatus
  status_of id t = elim (slot id t) [ none ↦ none | some s ↦ some s.status ]

  -- `timer_stop`
  unfoldable pub stop : (now id : ℕ) → Timers C → Timers C
  stop now id t = elim (slot id t) [
    | none ↦ t
    | some s ↦ activate now (write_slot (id - 1) (record s { status = is_stopped }) t)
  ]

  -- `call` runs a callback, with the id and the argument that it gets: on `W`, the state of the
  -- program outside this file, and on the timers, which it may change through these functions.
  module _ {W : Type 0} (call : C → ℕ → ℕ → W × Timers C → W × Timers C) where
    abbrev pub ring : Option C → ℕ → ℕ → W × Timers C → W × Timers C
    ring none id arg p = p
    ring (some c) id arg p = call c id arg p

    -- One round of the loop of `SIGALRM_handler`.
    unfoldable pub fire : (now id : ℕ) → W × Timers C → W × Timers C
    fire now id (w, t) = elim (get_elem? t.timer_tlb id) [
      | none ↦ (w, t)
      | some s ↦
          if active s.status && ltb s.dday now
          then ring s.callback_cb (id + 1) s.arg_cb
              (w, write_slot id (record s { status = is_fired }) t)
          else (w, t)
    ]

    -- `n` rounds from index `id` on.
    pub fire_from : (now n id : ℕ) → W × Timers C → W × Timers C
    fire_from now zero id p = p
    fire_from now (suc n) id p = fire_from now n (id + 1) (fire now id p)

    -- `SIGALRM_handler`
    unfoldable pub handler : (now now' : ℕ) → W × Timers C → W × Timers C
    unfolding fire_from
    handler now now' p = let q = fire_from now max_timer 0 p in (q.0, activate now' q.1)
