-- ===== src/System/Threads/Sleep.antt =====
-- Imagoes that sleep: imago_timer, timer_recall and timer_flush of system/imago_timer.c. The times
-- that gettimeofday gives, one after the other, are an argument, in microseconds, and so is whether
-- the wake-up timer is there or can be had. The statuses of the log records are not modelled.
pub mod Wakes
pub mod Delay
use mlvm.Base.{
  ℕ, zero, suc, ◌+◌, ◌-◌, Bool, true, false, Option, none, some, List, [], ◌∷◌, if◌then◌else◌, ◌==◌,
  ltb,
}
use mlvm.System.Queue.Chain.{remove}
use mlvm.System.Queue.Pool.{imago_error, imago_ready, imago_timer}
use mlvm.System.Threads.{
  Asked, ahead, back, no_number, Icb, System, engine, timer, internal, icb_put, icb_put_q, icb_get,
  queue, first_icb, set_icb, set_status, is_invalid, set_queue, e_illegal_argument,
}

-- The time that the calls give after the first.
abbrev pub later : (ℕ → ℕ) → ℕ → ℕ
later clock i = clock (suc i)

abbrev pub expired : ℕ → System → ℕ → Bool
expired now s ip = ltb (s.icbs ip).dday now

-- The loop of timer_recall: the first ICB whose time is over.
unfoldable pub first_expired : ℕ → System → List ℕ → Option ℕ
first_expired now s [] = none
first_expired now s (ip ∷ ips) = if expired now s ip then some ip else first_expired now s ips

-- `if (wip->status == IMAGO_TIMER) wip->status = IMAGO_READY`, and `timerclear`
unfoldable pub woken : Icb → Icb
woken v = elim v.status [
  | imago_timer ↦ record v { status = imago_ready; dday = 0 }
  | _ ↦ record v { dday = 0 }
]

unfoldable pub wake : ℕ → System → System
unfolding icb_put woken set_queue
wake ip s =
    icb_put engine ip
      (set_icb ip (woken (s.icbs ip)) (set_queue internal (remove ip s.internal_queue) s))

-- The scans, each from the start of the queue, on fuel, and how often gettimeofday was called.
unfoldable pub scan : ℕ → (ℕ → ℕ) → System → Option ((ℕ → ℕ) × System)
unfolding first_expired wake
scan zero clock s = none
scan (suc k) clock s = elim (first_expired (clock 0) s s.internal_queue) [
  | none ↦ some (later clock, s)
  | some ip ↦ scan k (later clock) (wake ip s)
]

-- The earliest `dday`.
unfoldable pub earliest : System → ℕ → List ℕ → ℕ
earliest s low [] = low
earliest s low (ip ∷ ips) =
    earliest s (if ltb (s.icbs ip).dday low then (s.icbs ip).dday else low) ips

-- The delay that the wake-up timer is set to: none where no imago sleeps, or there is no timer.
unfoldable pub delay : Bool → ℕ → System → Option ℕ
unfolding earliest
delay has_timer now s = elim s.internal_queue [
  | [] ↦ none
  | ip ∷ ips ↦
      let low = earliest s (s.icbs ip).dday ips in
      if has_timer then some (if ltb low now then 1 else low - now) else none
]

-- What follows the scans.
unfoldable pub set_wakeup : Bool → Option ((ℕ → ℕ) × System) → Option (System × Option ℕ)
unfolding delay
set_wakeup has_timer none = none
set_wakeup has_timer (some (after, t)) = some (t, delay has_timer (after 0) t)

unfoldable pub timer_recall : ℕ → (ℕ → ℕ) → Bool → System → Option (System × Option ℕ)
unfolding scan set_wakeup
timer_recall fuel clock has_timer s = set_wakeup has_timer (scan fuel clock s)

-- timer_flush, over the ICBs of the queue.
unfoldable pub flush : List ℕ → System → System
unfolding icb_put set_queue
flush [] s = set_queue internal [] s
flush (ip ∷ ips) s =
    flush ips (icb_put engine ip (set_icb ip (record (s.icbs ip) { status = imago_ready }) s))

abbrev pub timer_flush : System → System
timer_flush s = flush s.internal_queue s

-- The time at which an imago is to be woken, unless what it asks for is no number.
unfoldable pub deadline : ℕ → Icb → Option ℕ
deadline now v =
    if v.dday == 0
    then elim v.asked [ ahead d ↦ some (now + d) | back d ↦ some (now - d) | no_number ↦ none ]
    else some v.dday

-- The case IMAGO_TIMER of imago_timer, with that time.
unfoldable pub sleep_until : ℕ → (ℕ → ℕ) → Bool → ℕ → System → Option ℕ → Option (System × Option ℕ)
unfolding icb_put icb_put_q timer_recall
sleep_until fuel clock has_timer ip t none = some (
  icb_put engine ip
      (set_icb ip (record (t.icbs ip) { status = imago_error; nl = e_illegal_argument }) t),
  none,
)
sleep_until fuel clock has_timer ip t (some dday) =
    let woken_at_once = set_icb ip (record (t.icbs ip) { status = imago_ready; dday = 0 }) t in
    if ltb dday (clock 0)
    then some (icb_put engine ip woken_at_once, none)
    else timer_recall fuel (later clock) has_timer
        (icb_put_q internal ip (set_icb ip (record (t.icbs ip) { dday = dday }) t))

unfoldable pub sleep : ℕ → (ℕ → ℕ) → Bool → ℕ → System → Option (System × Option ℕ)
unfolding deadline sleep_until
sleep fuel clock has_timer ip t =
    sleep_until fuel clock has_timer ip t (deadline (clock 0) (t.icbs ip))

unfoldable pub is_sleeping : Icb → Bool
is_sleeping v = elim v.status [ imago_timer ↦ true | _ ↦ false ]

-- imago_timer, with what icb_get gave: the system, and the delay that the wake-up timer is set to.
unfoldable pub time_icb :
    ℕ → (ℕ → ℕ) → Bool → System → Option (ℕ × System) → Option (System × Option ℕ)
unfolding flush is_invalid icb_put is_sleeping sleep
time_icb fuel clock has_timer s none = some (if s.mlvm_stop then timer_flush s else s, none)
time_icb fuel clock has_timer s (some (ip, t)) =
    if is_invalid (t.icbs ip)
    then some (if t.mlvm_stop then timer_flush t else t, none)
    else if t.mlvm_stop
    then some (icb_put engine ip (set_status ip imago_ready t), none)
    else if is_sleeping (t.icbs ip)
    then sleep fuel clock has_timer ip t
    else some (icb_put engine ip t, none)

unfoldable pub imago_timer_step : ℕ → (ℕ → ℕ) → Bool → System → Option (System × Option ℕ)
unfolding time_icb first_icb queue
imago_timer_step fuel clock has_timer s = time_icb fuel clock has_timer s (icb_get timer s)
