-- ===== src/System/Queue/Logs.antt =====
-- The log records of system/queue.c: log_alive, log_moved, log_disposed, log_blocked and the search
-- of log_find. `N` is the type of the names, which are only copied and compared, and what `time`
-- answers is an argument.
pub mod Finds
pub mod Tests
use mlvm.Base.{
  ℕ, zero, suc, ◌+◌, Bool, true, false, ◌&&◌, ◌||◌, Option, none, some, if◌then◌else◌, ◌==◌, update,
}
use mlvm.System.Queue.{null, Queue, Nexts, icb_append}
use mlvm.System.Queue.Pool.{log_new, find_log}

-- log_status
pub data LogStatus : Type 0 where
  alive moved disposed blocked sleeping : LogStatus

module _ (N : Type 0) where
  -- `struct system_log_type`, without its link; `ip` is NULL where the imago is not alive.
  pub record Log : Type 0 where
    pub application : ℕ
    pub name : N
    pub status : LogStatus
    pub server_name : N
    pub server_host_id : ℕ
    pub jumps : ℕ
    pub time : ℕ
    pub ip : ℕ

  -- The fields of an ICB that its log takes.
  pub record Imago : Type 0 where
    pub application : ℕ
    pub name : N
    pub queen_name : N
    pub queen_host_id : ℕ
    pub jumps : ℕ

  -- `free_logs`, `live_logs`, and the records.
  pub record Logs : Type 0 where
    pub free_logs : Queue
    pub live_logs : Queue
    pub nexts : Nexts
    pub records : ℕ → Log

module _ {N : Type 0} where
  -- log_moved, log_disposed and log_blocked
  unfoldable pub log_moved : (log jumps : ℕ) → N → (now : ℕ) → Logs N → Logs N
  log_moved log jumps to now s = record s {
    records = update s.records log (record (s.records log) {
      status = moved;
      ip = null;
      server_name = to;
      jumps = jumps;
      time = now;
    });
  }

  unfoldable pub log_disposed : ℕ → Logs N → Logs N
  log_disposed log s = record s {
    records = update s.records log (record (s.records log) { status = disposed; ip = null });
  }

  unfoldable pub log_blocked : ℕ → Logs N → Logs N
  log_blocked log s = record s {
    records = update s.records log (record (s.records log) { status = blocked });
  }

  -- The record of an imago that is alive.
  abbrev pub alive_log : (ip now : ℕ) → Imago N → Log N
  alive_log ip now im = record {
    application = im.application;
    name = im.name;
    status = alive;
    server_name = im.queen_name;
    server_host_id = im.queen_host_id;
    jumps = im.jumps;
    time = now;
    ip = ip;
  }

  abbrev pub write_log : ℕ → Log N → Logs N → Logs N
  write_log llog r s = record s { records = update s.records llog r }

  -- log_append, at the end of log_alive
  pub append_log : ℕ → Logs N → Option (ℕ × Logs N)
  append_log llog s = elim (icb_append s.live_logs llog s.nexts) [
    | none ↦ none
    | some (q, nexts) ↦ some (llog, record s { live_logs = q; nexts = nexts })
  ]

  -- log_alive; its result is also what becomes `ip->log`.
  unfoldable pub log_alive :
      (max_imagoes block log ip now : ℕ) → Imago N → Logs N → Option (ℕ × Logs N)
  unfolding append_log
  log_alive max_imagoes block log ip now im s =
      if log == null
      then elim (log_new max_imagoes block s.free_logs s.nexts) [
        | none ↦ none
        | some (llog, (q, nexts)) ↦
            append_log llog
              (write_log llog (alive_log ip now im) (record s { free_logs = q; nexts = nexts }))
      ]
      else some (log, write_log log (alive_log ip now im) s)

  -- The test of log_find, where `same` is the test `strcmp(...) == 0`; a name may be NULL.
  abbrev pub same_name : (N → N → Bool) → Option N → Log N → Bool
  same_name same none r = true
  same_name same (some name) r = same r.name name

  abbrev pub is_log : (N → N → Bool) → (host_id application : ℕ) → Option N → Log N → Bool
  is_log same host_id application name r =
      r.server_host_id == host_id && (r.application == application && same_name same name r)

  -- log_find, on fuel
  unfoldable pub log_find :
      ℕ → (N → N → Bool) → (host_id application : ℕ) → Option N → Logs N → Option ℕ
  log_find fuel same host_id application name s =
      find_log fuel (λ p. is_log same host_id application name (s.records p)) s.live_logs.head
        s.nexts
