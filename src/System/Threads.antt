-- ===== src/System/Threads.antt =====
-- The scheduler, the memory manager's thread and the timer's thread, which move the imagoes of a
-- server between its queues: system/imago_scheduler.c, system/imago_memory.c, system/imago_timer.c,
-- and the macros icb_get, icb_put and icb_put_q of include/system.h. A queue is the list of its ICBs.
-- What `engine` and `mmanager` make of the ICB they are called with is an argument; the other
-- imagoes that they move are not modelled. Nor are the mutexes: a call of a thread's function runs
-- as a whole.
pub mod Counts
pub mod Sleep
pub mod Steps
use mlvm.Base.{
  ℕ, zero, suc, ◌+◌, ◌-◌, Bool, true, false, not, ◌&&◌, ◌||◌, Option, none, some, List, [], ◌∷◌,
  ◌++◌, if◌then◌else◌, ◌==◌, update,
}
use mlvm.System.Queue.Pool.{
  Status, imago_invalid, imago_error, imago_ready, imago_expansion, imago_contraction,
  imago_collection, imago_sys_creation, imago_backtrack, imago_timer, imago_creation, imago_cloning,
  imago_move_in, imago_move_out, imago_dispatching, imago_waiting, imago_attaching, imago_dispose,
  imago_terminate,
}

-- imago_type
pub data ImagoType : Type 0 where
  stationary worker messenger sys_msger : ImagoType

-- What the word at `st` leads to, for an imago that sleeps: a number of microseconds, a negative one,
-- or no number.
pub data Asked : Type 0 where
  ahead back : ℕ → Asked
  no_number : Asked

-- The fields of an ICB that the threads use; `dday` in microseconds, 0 where it is clear.
pub record Icb : Type 0 where
  pub imago_type : ImagoType
  pub status : Status
  pub nl : ℕ
  pub dday : ℕ
  pub asked : Asked

pub record System : Type 0 where
  pub icbs : ℕ → Icb
  pub engine_queue : List ℕ
  pub memory_queue : List ℕ
  pub out_queue : List ℕ
  pub creator_queue : List ℕ
  pub timer_queue : List ℕ
  pub waiting_mem_queue : List ℕ
  pub internal_queue : List ℕ
  pub jobs : ℕ
  pub mlvm_stop : Bool

pub data Name : Type 0 where
  engine memory out creator timer waiting_mem internal : Name

unfoldable pub queue : Name → System → List ℕ
queue engine s = s.engine_queue
queue memory s = s.memory_queue
queue out s = s.out_queue
queue creator s = s.creator_queue
queue timer s = s.timer_queue
queue waiting_mem s = s.waiting_mem_queue
queue internal s = s.internal_queue

unfoldable pub set_queue : Name → List ℕ → System → System
set_queue engine xs s = record s { engine_queue = xs }
set_queue memory xs s = record s { memory_queue = xs }
set_queue out xs s = record s { out_queue = xs }
set_queue creator xs s = record s { creator_queue = xs }
set_queue timer xs s = record s { timer_queue = xs }
set_queue waiting_mem xs s = record s { waiting_mem_queue = xs }
set_queue internal xs s = record s { internal_queue = xs }

-- `icb_append`, and `icb_put_q`
unfoldable pub icb_put_q : Name → ℕ → System → System
unfolding queue set_queue
icb_put_q n ip s = set_queue n (queue n s ++ (ip ∷ [])) s

-- `icb_put` and `icb_put_signal`
unfoldable pub icb_put : Name → ℕ → System → System
unfolding icb_put_q
icb_put n ip s = record (icb_put_q n ip s) { jobs = s.jobs + 1 }

-- `icb_get`, with `dec_jobs`, by the ICBs of the queue.
unfoldable pub first_icb : Name → System → List ℕ → Option (ℕ × System)
unfolding set_queue
first_icb n s [] = none
first_icb n s (ip ∷ ips) = some (ip, record (set_queue n ips s) { jobs = s.jobs - 1 })

abbrev pub icb_get : Name → System → Option (ℕ × System)
icb_get n s = first_icb n s (queue n s)

abbrev pub set_icb : ℕ → Icb → System → System
set_icb ip v s = record s { icbs = update s.icbs ip v }

abbrev pub set_status : ℕ → Status → System → System
set_status ip st s = set_icb ip (record (s.icbs ip) { status = st }) s

-- `is_messenger`
unfoldable pub is_messenger : Icb → Bool
is_messenger v = elim v.imago_type [ messenger ↦ true | sys_msger ↦ true | _ ↦ false ]

unfoldable pub is_invalid : Icb → Bool
is_invalid v = elim v.status [ imago_invalid ↦ true | _ ↦ false ]

-- The start of a thread's function: the ICB that it got, unless there is none or an invalid one.
unfoldable pub go_on : System → (ℕ → System → ℕ × System) → Option (ℕ × System) → ℕ × System
unfolding is_invalid
go_on s go none = (0, s)
go_on s go (some (ip, t)) = if is_invalid (t.icbs ip) then (0, t) else go ip t

abbrev pub with_icb : Name → System → (ℕ → System → ℕ × System) → ℕ × System
with_icb n s go = go_on s go (icb_get n s)

-- `if (mlvm_stop && !is_messenger(ip))`
abbrev pub shut_down : ℕ → System → System
shut_down ip t = icb_put out ip (set_status ip imago_terminate t)

abbrev pub must_stop : ℕ → System → Bool
must_stop ip t = t.mlvm_stop && not (is_messenger (t.icbs ip))

-- The queue that a status leads to. An imago that waits, or whose status no case has, is put in none.
unfoldable pub destination : Status → Option Name
destination imago_ready = some engine
destination imago_expansion = some memory
destination imago_contraction = some memory
destination imago_collection = some memory
destination imago_error = some out
destination imago_move_out = some out
destination imago_dispose = some out
destination imago_terminate = some out
destination imago_move_in = some creator
destination imago_cloning = some creator
destination imago_dispatching = some creator
destination imago_creation = some creator
destination imago_sys_creation = some creator
destination imago_timer = some timer
destination imago_attaching = none
destination imago_waiting = none
destination imago_invalid = none
destination imago_backtrack = none

unfoldable pub put_in : Option Name → ℕ → System → System
unfolding icb_put
put_in none ip t = t
put_in (some n) ip t = icb_put n ip t

abbrev pub route : ℕ → System → System
route ip t = put_in (destination ((t.icbs ip).status)) ip t

unfoldable pub imago_scheduler : (Icb → Icb) → System → ℕ × System
unfolding queue first_icb go_on icb_put is_messenger destination put_in
imago_scheduler run s = with_icb engine s λ ip t.
    if must_stop ip t then (1, shut_down ip t) else (1, route ip (set_icb ip (run (t.icbs ip)) t))

-- E_SUCCEED, E_ILLEGAL_ARGUMENT, E_MEMORY_OUT, E_RESSOURCE_BUSY
abbrev pub e_succeed : ℕ
e_succeed = 0

abbrev pub e_illegal_argument : ℕ
e_illegal_argument = 4

abbrev pub e_memory_out : ℕ
e_memory_out = 14

abbrev pub e_ressource_busy : ℕ
e_ressource_busy = 16

-- What imago_memory does with the result of `mmanager`.
unfoldable pub after_mmanager : ℕ → ℕ → System → ℕ × System
unfolding icb_put icb_put_q
after_mmanager r ip t =
    if r == e_succeed
    then (1, icb_put engine ip (set_status ip imago_ready t))
    else if r == e_memory_out
    then if t.mlvm_stop then (1, shut_down ip t) else (1, icb_put_q waiting_mem ip t)
    else if r == e_ressource_busy
    then (0, icb_put memory ip t)
    else (1, icb_put out ip (set_icb ip (record (t.icbs ip) { status = imago_error; nl = r }) t))

unfoldable pub imago_memory : (Icb → ℕ × Icb) → System → ℕ × System
unfolding queue first_icb go_on icb_put is_messenger after_mmanager
imago_memory mmanager s = with_icb memory s λ ip t.
    if must_stop ip t
    then (1, shut_down ip t)
    else let (r, v) = mmanager (t.icbs ip) in after_mmanager r ip (set_icb ip v t)
