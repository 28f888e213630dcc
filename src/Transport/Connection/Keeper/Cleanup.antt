-- ===== src/Transport/Connection/Keeper/Cleanup.antt =====
-- What SIGALRM_cleanup of transport/connection.c leaves of the table.
use mlvm.Base.{
  ℕ, ◌+◌, ◌<◌, ◌≡◌, refl, sym, ap, ◌∙◌, Bool, true, false, ◌&&◌, Option, some, [], if◌then◌else◌,
  update, inl, inr, Bool-cases, arith, ltb, leb, ==-refl, if_intro,
}
use mlvm.Transport.Timer
use mlvm.Transport.Timer.{Timers}
use mlvm.Transport.Connection.{
  Net, Con, ◌>>=◌, is_free, is_active, max_connection, c_free, con_unlock, con_free,
}
use mlvm.Transport.Connection.Locks.{
  IsReleased, trylock-run, unlock-run, free-run, release, relock-same, update-same, taken,
  release-taken, free_inactive,
}
use mlvm.Transport.Connection.Keeper.{cleanup_period, is_stale, visit, clean, sigalrm_cleanup}
use mlvm.Transport.Connection.Keeper.Sweep.{sweep, sweep-at, sweep-keeps, each_connection-sweep}

module _ (timeout : ℕ) (shut : Option ℕ → Bool) (now : ℕ) where
  -- The connections that the keeper closes: the active ones that are stale.
  abbrev pub closes : Con → Bool
  closes c = is_active c.status && is_stale timeout shut now c

  abbrev clean_slot : ℕ → Net → Net
  clean_slot i s = if closes (s.hash_table i) then release i s else s

  visit-free :
      (i : ℕ) (s : Net)
      → is_stale timeout shut now (s.hash_table i) ≡ true
      → visit timeout shut now i (true, s) ≡ con_free i s
  unfolding visit
  visit-free i s z = rw z

  visit-keep :
      (i : ℕ) (s : Net)
      → is_stale timeout shut now (s.hash_table i) ≡ false
      → visit timeout shut now i (true, s) ≡ (con_unlock i s >>= λ r. some r.1)
  unfolding visit
  visit-keep i s z = rw z

  visit-run :
      (i : ℕ) (s : Net)
      → IsReleased s
      → is_active (s.hash_table i).status ≡ true
      → visit timeout shut now i (true, taken i s)
        ≡ some (if is_stale timeout shut now (s.hash_table i) then release i s else s)
  visit-run i s h a = elim (Bool-cases (is_stale timeout shut now (s.hash_table i))) [
    | inl z ↦ rw z (
        visit-free i (taken i s) (rw (==-refl i) z)
        ∙ free-run i (taken i s) (h i) (rw (==-refl i))
        ∙ ap some (release-taken i s))
    | inr z ↦ rw z (
        visit-keep i (taken i s) (rw (==-refl i) z)
        ∙ rw (unlock-run i (taken i s) (h i)) (rw (==-refl i) (ap some (relock-same i s a))))
  ]

  clean-run : (i : ℕ) (s : Net) → IsReleased s → clean timeout shut now i s ≡ some (clean_slot i s)
  unfolding clean visit
  clean-run i s h =
      rw (trylock-run i s (h i)) (elim (Bool-cases (is_active (s.hash_table i).status)) [
        | inl a ↦ rw a (visit-run i s h a)
        | inr a ↦ rw (a, visit)
      ])

  -- What becomes of a connection.
  abbrev pub cleaned : Con → Con
  cleaned c = if closes c then record c { frames = []; status = c_free } else c

  clean_slot-IsReleased : (i : ℕ) (s : Net) → IsReleased s → IsReleased (clean_slot i s)
  clean_slot-IsReleased i s h = if_intro IsReleased (closes (s.hash_table i)) h h

  clean_slot-free : (i : ℕ) (s : Net) → is_free (s.hash_table i).status ≡ true → clean_slot i s ≡ s
  clean_slot-free i s z = rw (free_inactive (s.hash_table i).status z)

  clean_slot-at :
      (i : ℕ) (s : Net)
      → (clean_slot i s).hash_table ≡ update s.hash_table i (cleaned (s.hash_table i))
  clean_slot-at i s = elim (Bool-cases (closes (s.hash_table i))) [
    | inl z ↦ rw z
    | inr z ↦ rw z (sym (update-same i s.hash_table (s.hash_table i) refl))
  ]

  -- Where no mutex is held, `SIGALRM_cleanup` ends with no mutex held, and sets its timer again. It
  -- has freed just the active connections that are older than the timeout or that the other side has
  -- closed, which have no frames left, and every other entry of the table is as it was.
  pub sigalrm_cleanup-cleaned :
      {C : Type 0} (cb : C) (now1 now2 id : ℕ) (s : Net) (t : Timers C)
      → IsReleased s
      → (s' : Net) × (sigalrm_cleanup cb timeout shut now now1 now2 id s t
          ≡ some (s', (Timer.arm now1 now2 id (some cleanup_period) (some cb) 0 t).1))
        × IsReleased s'
        × ((j : ℕ) → j < max_connection → s'.hash_table j ≡ cleaned (s.hash_table j))
  unfolding sigalrm_cleanup
  sigalrm_cleanup-cleaned cb now1 now2 id s t h = (
    sweep clean_slot max_connection 0 s,
    rw (
        each_connection-sweep IsReleased (clean timeout shut now) clean_slot (λ u p. p)
          clean_slot-IsReleased (λ i u p z. clean-run i u p) clean_slot-free s h),
    sweep-keeps IsReleased clean_slot clean_slot-IsReleased max_connection 0 s h,
    λ j l.
        sweep-at clean_slot cleaned clean_slot-at max_connection 0 j s
        ∙ (let below : (leb 0 j && ltb j (0 + max_connection)) ≡ true = ground arith in rw below),
  )
