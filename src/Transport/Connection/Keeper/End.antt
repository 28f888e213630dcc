-- ===== src/Transport/Connection/Keeper/End.antt =====
-- What con_end of transport/connection.c leaves of the table.
use mlvm.Base.{
  ℕ, ◌<◌, ◌+◌, ◌≡◌, refl, sym, ap, ◌∙◌, true, false, ◌&&◌, some, [], if◌then◌else◌, ◌==◌, update,
  inl, inr, Bool-cases, arith, ltb, leb, if_intro, ==-refl,
}
use mlvm.Transport.Timer
use mlvm.Transport.Timer.{Timers}
use mlvm.Transport.Connection.{
  Net, Con, ConStatus, is_free, is_active, is_locked, max_connection, c_free, c_active, c_locked,
}
use mlvm.Transport.Connection.Locks.{
  IsReleased, lock_active-run, free-run, release, update-same, taken, release-taken,
}
use mlvm.Transport.Connection.Keeper.{finish, con_end}
use mlvm.Transport.Connection.Keeper.Sweep.{sweep, sweep-at, sweep-keeps, each_connection-sweep}

-- No mutex is held, and no entry is locked.
abbrev pub IsIdle : Net → Type 0
IsIdle s = IsReleased s × ((i : ℕ) → is_locked (s.hash_table i).status ≡ false)

finish_slot : ℕ → Net → Net
finish_slot i s = if is_free (s.hash_table i).status then s else release i s

-- What becomes of a connection.
abbrev pub ended : Con → Con
ended c = if is_free c.status then c else record c { frames = []; status = c_free }

active_else : (st : ConStatus) → is_free st ≡ false → is_locked st ≡ false → is_active st ≡ true
active_else c_free p q = cc
active_else c_active p q = refl
active_else c_locked p q = cc

finish-run :
    (i : ℕ) (s : Net)
    → IsIdle s
    → is_free (s.hash_table i).status ≡ false
    → finish i s ≡ some (finish_slot i s)
unfolding finish finish_slot
finish-run i s (h, u) z =
    rw (z, lock_active-run i s (h i) (active_else _ z (u i)))
      (free-run i (taken i s) (h i) (rw (==-refl i)) ∙ ap some (release-taken i s))

finish_slot-free : (i : ℕ) (s : Net) → is_free (s.hash_table i).status ≡ true → finish_slot i s ≡ s
unfolding finish_slot
finish_slot-free i s z = rw z

finish_slot-at :
    (i : ℕ) (s : Net)
    → (finish_slot i s).hash_table ≡ update s.hash_table i (ended (s.hash_table i))
unfolding finish_slot
finish_slot-at i s = elim (Bool-cases (is_free (s.hash_table i).status)) [
  | inl z ↦ rw z (sym (update-same i s.hash_table (s.hash_table i) refl))
  | inr z ↦ rw z
]

finish_slot-IsIdle : (i : ℕ) (s : Net) → IsIdle s → IsIdle (finish_slot i s)
unfolding finish_slot
finish_slot-IsIdle i s (h, u) =
    if_intro IsIdle (is_free (s.hash_table i).status) (h, u)
      (h, λ j. elim (Bool-cases (j == i)) [ inl e ↦ rw e | inr e ↦ rw e (u j) ])

ended-free : (c : Con) → (ended c).status ≡ c_free
ended-free c = ended_status c c.status refl
  where
    ended_status : (c : Con) (st : ConStatus) → c.status ≡ st → (ended c).status ≡ c_free
    ended_status c c_free e = rw e
    ended_status c c_active e = rw e
    ended_status c c_locked e = rw e

-- Where no mutex is held and no entry is locked, `con_end` ends with no mutex held, has freed the
-- timer, and has freed every entry of the table; an entry that was in use has no frames left.
pub con_end-ended :
    {C : Type 0} (now timer : ℕ) (s : Net) (t : Timers C)
    → IsIdle s
    → (s' : Net) × (con_end now timer s t ≡ some (s', Timer.free now timer t))
      × IsReleased s'
      × ((j : ℕ)
          → j < max_connection
          → (s'.hash_table j ≡ ended (s.hash_table j)) × ((s'.hash_table j).status ≡ c_free))
unfolding con_end
con_end-ended now timer s t h = (
  sweep finish_slot max_connection 0 s,
  rw (
      each_connection-sweep IsIdle finish finish_slot (λ u p. p.0) finish_slot-IsIdle finish-run
        finish_slot-free s h),
  (sweep-keeps IsIdle finish_slot finish_slot-IsIdle max_connection 0 s h).0,
  λ j l. (at j l, ap (λ c. c.status) (at j l) ∙ ended-free (s.hash_table j)),
)
  where
    at :
        (j : ℕ)
        → j < max_connection
        → (sweep finish_slot max_connection 0 s).hash_table j ≡ ended (s.hash_table j)
    at j l =
        sweep-at finish_slot ended finish_slot-at max_connection 0 j s
        ∙ (let below : (leb 0 j && ltb j (0 + max_connection)) ≡ true = ground arith in rw below)
