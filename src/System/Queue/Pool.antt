-- ===== src/System/Queue/Pool.antt =====
-- The pools of ICBs and of log records of system/queue.c, and the list of live logs. A block that
-- `malloc` gives is an argument, NULL where there is no memory; its records have consecutive
-- addresses, in steps of one record. How many it has, MAX_IMAGOES, is an argument too.
pub mod Blocks
use mlvm.Base.{ℕ, zero, suc, ◌+◌, ◌-◌, Bool, Option, none, some, if◌then◌else◌, ◌==◌, update}
use mlvm.System.Queue.{null, Queue, Nexts, icb_first, icb_insert, icb_append}

-- imago_status
pub data Status : Type 0 where
  imago_invalid imago_error imago_ready imago_expansion imago_contraction imago_collection : Status
  imago_sys_creation imago_backtrack imago_timer imago_creation imago_cloning imago_move_in : Status
  imago_move_out imago_dispatching imago_waiting imago_attaching imago_dispose : Status
  imago_terminate : Status

-- The loop of icb_init, log_init and log_new over the records of a block: the last record.
unfoldable pub link : ℕ → ℕ → Nexts → ℕ × Nexts
link zero temp nexts = (temp, update nexts temp null)
link (suc k) temp nexts = link k (temp + 1) (update nexts temp (temp + 1))

-- icb_init and log_init: without memory the process exits.
unfoldable pub icb_init : ℕ → ℕ → Nexts → Option (Queue × Nexts)
unfolding link
icb_init max_imagoes block nexts =
    if block == null
    then none
    else let (temp, nexts') = link (max_imagoes - 1) block nexts in
      some (record { head = block; tail = temp }, nexts')

-- icb_cleanup and log_cleanup: the block that is freed, if there is one, and the pointer to it then.
abbrev pub pool_cleanup : ℕ → Option ℕ × ℕ
pool_cleanup block = (if block == null then none else some block, null)

-- icb_new: the status is written without a test for NULL.
unfoldable pub icb_new : Queue → Nexts → (ℕ → Status) → Option (ℕ × (Queue × (ℕ → Status)))
unfolding icb_first
icb_new free_queue nexts status =
    let (temp, q) = icb_first free_queue nexts in
    if temp == null then none else some (temp, (q, update status temp imago_ready))

-- icb_free
unfoldable pub icb_free : Queue → ℕ → Nexts → (ℕ → Status) → (Queue × Nexts) × (ℕ → Status)
unfolding icb_insert
icb_free free_queue ip nexts status =
    (icb_insert free_queue ip nexts, update status ip imago_invalid)

-- log_new: an empty pool is made larger.
unfoldable pub log_new : ℕ → ℕ → Queue → Nexts → Option (ℕ × (Queue × Nexts))
unfolding icb_first link
log_new max_imagoes block free_logs nexts =
    if free_logs.head == null
    then if block == null
      then none
      else some (
        block,
        (
          record {
            head = (link (max_imagoes - 1) block nexts).1 block;
            tail = (link (max_imagoes - 1) block nexts).0;
          },
          (link (max_imagoes - 1) block nexts).1,
        ),
      )
    else some ((icb_first free_logs nexts).0, ((icb_first free_logs nexts).1, nexts))

-- log_free and log_append
abbrev pub log_free : Queue → ℕ → Nexts → Queue × Nexts
log_free free_logs ip nexts = icb_insert free_logs ip nexts

abbrev pub log_append : Queue → ℕ → Nexts → Option (Queue × Nexts)
log_append live_logs ip nexts = icb_append live_logs ip nexts

-- log_find: the loop, on fuel, with the test of a record.
unfoldable pub find_log : ℕ → (ℕ → Bool) → ℕ → Nexts → Option ℕ
find_log zero found temp nexts = none
find_log (suc k) found temp nexts =
    let rest = find_log k found (nexts temp) nexts in
    if temp == null then some null else if found temp then some temp else rest
