-- ===== src/System/Queue/Logs/Tests.antt =====
-- The theorem on logs of system/queue.c at a pool of one record and one live log.
use mlvm.Base.{ℕ, ◌≡◌, refl, Bool, true, some, [], ◌∷◌, ◌++◌, ◌==◌, arith, ==-refl}
use mlvm.System.Queue.{null}
use mlvm.System.Queue.Chain.{has}
use mlvm.System.Queue.Refines.{Holds}
use mlvm.System.Queue.Logs.{Imago, Logs, log_alive, alive_log, is_log, log_find}
use mlvm.System.Queue.Logs.Finds.{log_find-log_alive}

abbrev imago : Imago ℕ
imago = record { application = 2; name = 30; queen_name = 31; queen_host_id = 4; jumps = 0 }

-- The record 5 is in the pool, and the record 7 is live.
abbrev logs : Logs ℕ
logs = record {
  free_logs = record { head = 5; tail = 5 };
  live_logs = record { head = 7; tail = 7 };
  nexts = λ i. 0;
  records = λ i. alive_log 0 0 imago;
}

abbrev same : ℕ → ℕ → Bool
same a b = a == b

log_find-log_alive_example :
    (s' : Logs ℕ) × (log_alive 10 20 null 3 900 imago logs ≡ some (5, s'))
    × (s'.records 5 ≡ alive_log 3 900 imago)
    × Holds s'.nexts s'.live_logs ((7 ∷ []) ++ (5 ∷ []))
    × ((r : ℕ) × (log_find 3 same 4 2 (some 30) s' ≡ some r)
        × (is_log same 4 2 (some 30) (s'.records r) ≡ true)
        × (has r ((7 ∷ []) ++ (5 ∷ [])) ≡ true))
log_find-log_alive_example =
    log_find-log_alive same 10 20 3 900 3 imago logs 5 [] (7 ∷ []) (λ n. ==-refl n)
      ((refl, ((λ e. omega (arith, e)), (refl, refl))), refl)
      ((refl, ((λ e. omega (arith, e)), (refl, refl))), refl) refl (omega arith)
