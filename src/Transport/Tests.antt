-- ===== src/Transport/Tests.antt =====
-- The theorems on timers, on states and on queues at small tables.
use mathlib.Core.Option
use mlvm.Base.{ℕ, ◌+◌, ◌<◌, ◌≡◌, refl, none, some, List, [], ◌∷◌, arith, get_elem?}
use mlvm.Transport.Queue.{queue_init}
use mlvm.Transport.Queue.Fifo.{
  Holds, Call, enqueue, push, dequeue, performs, meant, all_meant, performs-fifo,
}
use mlvm.Transport.Timer.{Timers, is_active, cleared, max_timer, new, handler}
use mlvm.Transport.Timer.Alarm.{Alarm, IsDated, handler-Alarm}
use mlvm.Transport.Timer.Slots.{expire, due, all_called, only, handler-expires}
use mlvm.Transport.Timer.{arm, stop, init}
use mlvm.Transport.Timer.Steps.{
  IsArmed, Reachable, at_init, after, by_new, by_arm, by_stop, by_ring, Reachable-IsArmed,
}
use mlvm.Transport.StateMachine.{StateTable, Action, register}
use mlvm.Transport.StateMachine.Registers.{Registered, register-Registered}

-- A timer that has run past its deadline at the time 50, one that has not, and a free one.
abbrev timers : Timers (Unit {0})
timers = record {
  timer_tlb =
      record { status = is_active; dday = 40; callback_cb = some tt; arg_cb = 7 }
      ∷ record { status = is_active; dday = 90; callback_cb = none; arg_cb = 0 }
      ∷ cleared
      ∷ [];
  it_value = 5;
}

timers-IsDated : IsDated timers.timer_tlb
timers-IsDated = (λ e x. omega (arith, x), (λ e x. omega (arith, x), (λ e x. cc, tt)))

-- Callbacks that leave the timers alone, and note the id and the argument that they get.
abbrev note : Unit {0} → ℕ → ℕ → List (ℕ × ℕ) → List (ℕ × ℕ)
note c id arg w = (id, arg) ∷ w

abbrev noting :
    Unit {0} → ℕ → ℕ → List (ℕ × ℕ) × Timers (Unit {0}) → List (ℕ × ℕ) × Timers (Unit {0})
noting = only note

abbrev timers_at_start : Timers (Unit {0})
timers_at_start = record { timer_tlb = []; it_value = 0 }

handler-Alarm_example :
    Alarm 60
      ((handler noting 50 60 ([], timers)).1).timer_tlb
      ((handler noting 50 60 ([], timers)).1).it_value
handler-Alarm_example = handler-Alarm noting (λ c id arg w t d. d) 50 60 [] timers timers-IsDated

-- The callbacks that are due at the time 50 are the one of the first timer.
note_run : all_called note (due 50 1 timers.timer_tlb) [] ≡ (1, 7) ∷ []
unfolding all_called due
note_run = refl

handler-expires_example :
    ((handler noting 50 60 ([], timers)).0 ≡ all_called note (due 50 1 timers.timer_tlb) [])
    × ((i : ℕ)
        → i < max_timer
        → get_elem? ((handler noting 50 60 ([], timers)).1).timer_tlb i
          ≡ Option.map (expire 50) (get_elem? timers.timer_tlb i))
handler-expires_example = handler-expires note 50 60 [] timers (omega arith)

-- An action that counts, and goes on to state 2.
abbrev counting : Action ℕ
counting n = (some 2, n + 1)

abbrev states : StateTable ℕ
states = record { table = λ i. none; state_max = 20; state_count = 0 }

register-Registered_example :
    ((register (some (λ i. none)) counting states).0 ≡ some 0)
    × Registered counting states (register (some (λ i. none)) counting states).1
register-Registered_example = register-Registered (λ i. none) counting states (omega arith)

abbrev two_states : StateTable ℕ
two_states = record { table = λ i. some counting; state_max = 40; state_count = 2 }

-- A timer is taken and set.
abbrev armed : Timers (Unit {0})
armed = (arm 40 41 1 (some 100) none 0 (new (init timers_at_start)).1).1

armed_run : Reachable noting 41 armed
unfolding arm new
armed_run = after (after (at_init []) by_new) (by_arm 40 41 1 (some 100) none 0 (omega arith))

-- It is stopped, and then the alarm rings.
stopped_run : Reachable noting 61 (handler noting 60 61 ([], stop 50 1 armed)).1
stopped_run = after (after armed_run (by_stop 50 1)) (by_ring 60 61 [])

Reachable-IsArmed_example : IsArmed 61 (handler noting 60 61 ([], stop 50 1 armed)).1
Reachable-IsArmed_example = Reachable-IsArmed noting (λ c id arg w t d. d) stopped_run

abbrev queue_calls : List Call
queue_calls = enqueue 8 ∷ push 12 ∷ dequeue ∷ dequeue ∷ dequeue ∷ enqueue 16 ∷ []

performs-fifo_example :
    ((performs queue_calls (queue_init, λ a. 0)).0 ≡ (all_meant queue_calls []).0)
    × Holds
        (performs queue_calls (queue_init, λ a. 0)).1.1
        (performs queue_calls (queue_init, λ a. 0)).1.0
        (all_meant queue_calls []).1
unfolding meant
performs-fifo_example =
    performs-fifo queue_calls queue_init (λ a. 0) [] (refl, refl)
      (
        ((λ e. ground (arith, e)), refl),
        (
          ((λ e. ground (arith, e)), refl),
          (tt, (tt, (tt, (((λ e. ground (arith, e)), refl), tt)))),
        ),
      )
