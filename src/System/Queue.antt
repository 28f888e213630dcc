-- ===== src/System/Queue.antt =====
-- The queues of system/queue.c: ICBs, or log records, that are linked by their `next` fields. A
-- pointer is a number, NULL is 0, and the `next` fields are a function of the pointer. An operation
-- that would read or write through NULL has no result. The mutexes are not modelled: each operation
-- runs as a whole. Of an ICB that is given out or taken back, the status is modelled, and its
-- descriptors and its block are not.
pub mod Chain
pub mod Refines
pub mod Remove
pub mod Pool
pub mod Logs
pub mod Runs
use mlvm.Base.{ℕ, zero, suc, ◌+◌, Bool, Option, none, some, if◌then◌else◌, ◌==◌, update}

abbrev pub null : ℕ
null = 0

-- icb_queue, log_queue
pub record Queue : Type 0 where
  pub head : ℕ
  pub tail : ℕ

abbrev pub Nexts : Type 0
Nexts = ℕ → ℕ

abbrev pub empty : Queue
empty = record { head = null; tail = null }

-- icb_first
unfoldable pub icb_first : Queue → Nexts → ℕ × Queue
icb_first q nexts =
    if q.head == null
    then (null, q)
    else if nexts q.head == null
    then (q.head, empty)
    else (q.head, record q { head = nexts q.head })

-- icb_insert
unfoldable pub icb_insert : Queue → ℕ → Nexts → Queue × Nexts
icb_insert q ip nexts = (
  if q.head == null then record { head = ip; tail = ip } else record q { head = ip },
  update nexts ip q.head,
)

-- icb_append
unfoldable pub icb_append : Queue → ℕ → Nexts → Option (Queue × Nexts)
icb_append q ip nexts =
    if q.head == null
    then some (record { head = ip; tail = ip }, update nexts ip null)
    else if q.tail == null
    then none
    else some (record q { tail = ip }, update (update nexts ip null) q.tail ip)

-- icb_length: the loop, on fuel.
unfoldable pub count : ℕ → ℕ → ℕ → Nexts → Option ℕ
count zero i temp nexts = none
count (suc k) i temp nexts =
    let rest = count k (i + 1) (nexts temp) nexts in if temp == null then some i else rest

abbrev pub icb_length : ℕ → Queue → Nexts → Option ℕ
icb_length fuel q nexts = count fuel 0 q.head nexts

-- The loop of icb_remove, on fuel: the record in front of `ip`, or NULL.
unfoldable pub find_before : ℕ → ℕ → ℕ → Nexts → Option ℕ
find_before zero temp ip nexts = none
find_before (suc k) temp ip nexts =
    let rest = find_before k (nexts temp) ip nexts in
    if temp == null then some null else if nexts temp == ip then some temp else rest

-- What icb_remove does behind the record `temp`.
unfoldable pub unlink : ℕ → Queue → ℕ → Nexts → Queue × Nexts
unlink temp q ip nexts = if temp == null then (q, nexts) else (
  if ip == q.tail then record q { tail = temp } else q,
  update (update nexts temp (nexts ip)) ip null,
)

-- icb_remove
unfoldable pub icb_remove : ℕ → Queue → ℕ → Nexts → Option (Queue × Nexts)
unfolding unlink
icb_remove fuel q ip nexts =
    if ip == null
    then none
    else if ip == q.head
    then if ip == q.tail
      then some (empty, update nexts ip null)
      else some (record q { head = nexts ip }, update nexts ip null)
    else elim (find_before fuel q.head ip nexts) [
      | none ↦ none
      | some temp ↦ some (unlink temp q ip nexts)
    ]
