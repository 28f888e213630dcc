-- ===== src/Transport/Connection/Keeper.antt =====
-- The keeper of transport/connection.c: con_init, the timer that closes old connections, con_test
-- and con_end. What `recv` answers when it peeks at a descriptor is an argument, as are the times;
-- `C` is the type of the callbacks of the timers, and `cb` stands for `SIGALRM_cleanup` there.
pub mod Sweep
pub mod Cleanup
pub mod End
use mlvm.Base.{
  ℕ, zero, suc, ◌+◌, ◌*◌, Bool, true, false, not, ◌||◌, [], Option, none, some, if◌then◌else◌, ltb,
}
use mlvm.Transport.Frame.{Pool}
use mlvm.Transport.Timer
use mlvm.Transport.Timer.{Timers}
use mlvm.Transport.Connection.{
  Net, Con, ◌>>=◌, c_free, no_address, con_trylock, con_lock, con_unlock, con_free, con_next,
  max_connection,
}

-- CLEANUP_PERIOD, in microseconds.
abbrev pub cleanup_period : ℕ
cleanup_period = 2 * 60 * 1000000

-- The loop `for( c_h = con_next(NULL); c_h; c_h = con_next(c_h) )`, on fuel.
pub each : (ℕ → Net → Option Net) → ℕ → Option ℕ → Net → Option Net
each body zero c_h s = none
each body (suc fuel) none s = some s
each body (suc fuel) (some i) s = do
  s1 ← body i s
  (c_h, s2) ← con_next (some i) s1
  each body fuel c_h s2

-- The loop over the whole table.
pub each_connection : (ℕ → Net → Option Net) → Net → Option Net
unfolding each
each_connection body s = do (c_h, s1) ← con_next none s; each body (max_connection + 1) c_h s1

-- `con_test`: `false` is -1.
abbrev pub con_test : (Option ℕ → Bool) → Con → Bool
con_test shut c = if shut c.fd then false else true

-- `timestamp < time(NULL) - con_timeout_sec`, or the other side is closed.
abbrev pub is_stale : ℕ → (Option ℕ → Bool) → ℕ → Con → Bool
is_stale timeout shut now c = ltb (c.timestamp + timeout) now || not (con_test shut c)

-- What `SIGALRM_cleanup` does with an entry.
pub visit : ℕ → (Option ℕ → Bool) → ℕ → ℕ → Bool × Net → Option Net
visit timeout shut now i (false, s) = some s
visit timeout shut now i (true, s) =
    let kept = con_unlock i s >>= λ r. some r.1 in
    if is_stale timeout shut now (s.hash_table i) then con_free i s else kept

pub clean : ℕ → (Option ℕ → Bool) → ℕ → ℕ → Net → Option Net
unfolding visit
clean timeout shut now i s = do r ← con_trylock i s; visit timeout shut now i r

-- What `con_end` does with an entry.
pub finish : ℕ → Net → Option Net
finish i s = do (ok, s1) ← con_lock i s; if ok then con_free i s1 else some s1

module _ {C : Type 0} (cb : C) where
  -- `con_init`: the timer, 0 where there is none, the table, and the timers.
  unfoldable pub con_init : (now now' : ℕ) → Net → Timers C → ℕ × Net × Timers C
  con_init now now' s t =
      let (id, t1) = Timer.new t in
      let timer : ℕ = elim id [ none ↦ 0 | some n ↦ n ] in
      (
        timer,
        record s {
          hash_table = λ i. record {
            status = c_free;
            fd = some 0;
            peer = no_address;
            local = no_address;
            frames = [];
            timestamp = 0;
          };
          held = λ i. false;
        },
        (Timer.arm now now' timer (some cleanup_period) (some cb) 0 t1).1,
      )

  -- `SIGALRM_cleanup`
  unfoldable pub sigalrm_cleanup :
      (timeout : ℕ)
      → (Option ℕ → Bool)
      → (now now1 now2 id : ℕ) → Net
      → Timers C
      → Option (Net × Timers C)
  unfolding each_connection clean
  sigalrm_cleanup timeout shut now now1 now2 id s t = do
    s1 ← each_connection (clean timeout shut now) s
    some (s1, (Timer.arm now1 now2 id (some cleanup_period) (some cb) 0 t).1)

-- `con_end`
unfoldable pub con_end : {C : Type 0} → (now timer : ℕ) → Net → Timers C → Option (Net × Timers C)
unfolding each_connection finish
con_end now timer s t = do s1 ← each_connection finish s; some (s1, Timer.free now timer t)
