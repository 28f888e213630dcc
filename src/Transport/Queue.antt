-- ===== src/Transport/Queue.antt =====
-- The queues of transport/queue.c: nodes linked by their `next` fields, as in system/queue.c, with
-- NULL as 0. The mutexes are not modelled: each function runs as a whole.
pub mod Fifo
use mlvm.Base.{ℕ, ◌+◌, Option, if◌then◌else◌, ◌==◌, update}
use mlvm.System.Queue.{null, Nexts, count}

-- link_head_str
pub record LinkHead : Type 0 where
  pub first : ℕ
  pub last : ℕ

-- queue_init
abbrev pub queue_init : LinkHead
queue_init = record { first = null; last = null }

-- next
unfoldable pub next_of : LinkHead → ℕ → Nexts → ℕ
next_of h p nexts = if p == h.last then null else nexts p

-- size, on fuel
abbrev pub size : ℕ → LinkHead → Nexts → Option ℕ
size fuel h nexts = count fuel 0 h.first nexts

-- insert_last
unfoldable pub insert_last : LinkHead → ℕ → Nexts → LinkHead × Nexts
insert_last h n nexts =
    if h.last == null
    then (record { first = n; last = n }, update nexts n null)
    else (record h { last = n }, update (update nexts h.last n) n null)

-- insert_first
unfoldable pub insert_first : LinkHead → ℕ → Nexts → LinkHead × Nexts
insert_first h n nexts =
    if h.first == null
    then (record { first = n; last = n }, update nexts n null)
    else (record h { first = n }, update nexts n h.first)

-- remove_first
unfoldable pub remove_first : LinkHead → Nexts → ℕ × LinkHead
remove_first h nexts =
    let head = if h.first == null then h.first else nexts h.first in
    (h.first, record { first = head; last = if head == null then null else h.last })

-- enqueue, push, dequeue and pop
abbrev pub enqueue : LinkHead → ℕ → Nexts → LinkHead × Nexts
enqueue h n nexts = insert_last h n nexts

abbrev pub push : LinkHead → ℕ → Nexts → LinkHead × Nexts
push h n nexts = insert_first h n nexts

abbrev pub dequeue : LinkHead → Nexts → ℕ × LinkHead
dequeue h nexts = remove_first h nexts

abbrev pub pop : LinkHead → Nexts → ℕ × LinkHead
pop h nexts = remove_first h nexts
