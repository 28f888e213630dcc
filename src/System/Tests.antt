-- ===== src/System/Tests.antt =====
-- The theorems on the queues and the threads at small systems.
use mlvm.Base.{
  ℕ, ◌+◌, ◌≤◌, ◌≡◌, ◌⊎◌, refl, true, false, some, List, [], ◌∷◌, if◌then◌else◌, ltb, ◌==◌, update,
  arith,
}
use mlvm.System.Queue.{Nexts, Queue}
use mlvm.System.Queue.Chain.{has}
use mlvm.System.Queue.Refines.{Holds}
use mlvm.System.Queue.Runs.{
  Call, take, append, withdraw, performs, all_meant, meant, performs-Holds,
}
use mlvm.System.Queue.Pool.{
  Status, imago_invalid, imago_ready, imago_expansion, imago_timer, icb_new, icb_free,
}
use mlvm.System.Queue.Pool.Blocks.{icb_new-icb_free}
use mlvm.System.Threads.{
  queue, is_invalid, worker, ahead, Icb, System, e_memory_out, imago_scheduler, imago_memory,
}
use mlvm.System.Threads.Counts.{count, count-imago_memory}
use mlvm.System.Threads.Steps.{here, next, scheduled, IsOnce, Reach-IsOnce}
use mlvm.System.Threads.Sleep.{delay, timer_recall}
use mlvm.System.Threads.Sleep.Wakes.{Woke, timer_recall-wakes}
use mlvm.System.Threads.Sleep.Delay.{timer_recall-delay}

-- The records 5, 7 and 9 are linked, and so are 2 and 3.
abbrev links : Nexts
links a = if a == 5 then 7 else if a == 7 then 9 else if a == 2 then 3 else 0

abbrev three : Queue
three = record { head = 5; tail = 9 }

abbrev two : Queue
two = record { head = 2; tail = 3 }

three-Holds : Holds links three (5 ∷ 7 ∷ 9 ∷ [])
three-Holds = (
  (
    refl,
    (
      (λ e. ground (arith, e)),
      (
        refl,
        (
          refl,
          ((λ e. ground (arith, e)), (refl, (refl, ((λ e. ground (arith, e)), (refl, refl))))),
        ),
      ),
    ),
  ),
  refl,
)

two-Holds : Holds links two (2 ∷ 3 ∷ [])
two-Holds = (
  (refl, ((λ e. ground (arith, e)), (refl, (refl, ((λ e. ground (arith, e)), (refl, refl)))))),
  refl,
)

abbrev calls : List Call
calls = take ∷ append 11 ∷ withdraw 9 ∷ []

performs-Holds_example :
    (q : Queue) × ((nexts : Nexts) × ((performs 9 calls (three, links) ≡ some (q, nexts))
        × Holds nexts q (all_meant calls (5 ∷ 7 ∷ 9 ∷ []))))
unfolding meant
performs-Holds_example = performs-Holds 9 calls three links (5 ∷ 7 ∷ 9 ∷ []) three-Holds (
  omega arith,
  (tt, (omega arith, (((λ e. ground (arith, e)), refl), (omega arith, (refl, tt))))),
)

abbrev all_ready : ℕ → Status
all_ready a = imago_ready

icb_new-icb_free_example :
    (q : Queue) × ((icb_new
          (icb_free three 4 links all_ready).0.0
          (icb_free three 4 links all_ready).0.1
          (icb_free three 4 links all_ready).1
        ≡ some (4, (q, update (update all_ready 4 imago_invalid) 4 imago_ready)))
      × Holds (icb_free three 4 links all_ready).0.1 q (5 ∷ 7 ∷ 9 ∷ []))
icb_new-icb_free_example =
    icb_new-icb_free links three all_ready 4 (5 ∷ 7 ∷ 9 ∷ []) three-Holds (λ e. ground (arith, e))
      refl

-- The imagoes 1 and 2 are ready, 3 needs memory, and 4 and 5 sleep till the times 40 and 60.
abbrev icbs : ℕ → Icb
icbs a = record {
  imago_type = worker;
  status = if a == 3 then imago_expansion else if ltb 3 a then imago_timer else imago_ready;
  nl = 0;
  dday = if a == 4 then 40 else if a == 5 then 60 else 0;
  asked = ahead 10;
}

abbrev system : System
system = record {
  icbs = icbs;
  engine_queue = 1 ∷ 2 ∷ [];
  memory_queue = 3 ∷ [];
  out_queue = [];
  creator_queue = [];
  timer_queue = [];
  waiting_mem_queue = [];
  internal_queue = 5 ∷ 4 ∷ [];
  jobs = 3;
  mlvm_stop = false;
}

system-IsOnce : IsOnce system
system-IsOnce a = ground (arith)

Reach-IsOnce_example : IsOnce (imago_scheduler (λ v. v) system).1
Reach-IsOnce_example = Reach-IsOnce system-IsOnce (next here (scheduled system (λ v. v)))

count-imago_memory_example :
    count 3 (imago_memory (λ v. (e_memory_out, v)) system).1 ≡ count 3 system
unfolding queue is_invalid
count-imago_memory_example = count-imago_memory 3 3 [] (λ v. (e_memory_out, v)) system refl refl

timer_recall-wakes_example :
    (t : System) × ((timer_recall 3 (λ _. 50) true system ≡ some (t, delay true 50 t))
      × Woke 50 system t)
timer_recall-wakes_example = timer_recall-wakes 3 50 true system (refl, (refl, tt)) (omega arith)

timer_recall-delay_example :
    (t : System) × ((d : ℕ) × ((timer_recall 3 (λ _. 50) true system ≡ some (t, some d))
        × ((has 5 t.internal_queue ≡ true) × ((d ≡ 1) ⊎ (50 + d ≤ (t.icbs 5).dday)))))
timer_recall-delay_example =
    timer_recall-delay 3 50 5 system (refl, (refl, tt)) (omega arith) refl refl
