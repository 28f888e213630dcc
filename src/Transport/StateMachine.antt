-- ===== src/Transport/StateMachine.antt =====
-- transport/state_machine.c: the table of the actions of the states, and one transition. A
-- `state_id_t` is an `int`; `none` stands for the negative ones.
pub mod Registers
pub mod Steps
use mlvm.Base.{
  ℕ, zero, suc, ◌+◌, Bool, true, false, Option, none, some, List, [], ◌∷◌, if◌then◌else◌, ltb, leb,
  update,
}

-- STATE_MACHINE_INCR of transport/include.h, where the build does not set it
abbrev pub state_machine_incr : ℕ
state_machine_incr = 20

-- An action takes and may change the data `D`, and gives the new state.
abbrev pub Action : Type 0 → Type 0
Action D = D → Option ℕ × D

module _ (D : Type 0) where
  -- `state_machine_table`, where `none` is NULL, `state_machine_state_max` and
  -- `state_machine_state_count`.
  pub record StateTable : Type 0 where
    pub table : ℕ → Option (Action D)
    pub state_max : ℕ
    pub state_count : ℕ

-- `struct state_machine_str`
pub record StateStr : Type 0 where
  pub oldstate : Option ℕ
  pub state : Option ℕ

-- How `state_machine` ends: with a result, which is `none` where it is negative, or in the call
-- of NULL.
pub data Transition (D : Type 0) : Type 0 where
  returns : Option ℕ → StateStr → D → Transition D
  calls_null : Transition D

-- `if( newstate > 0 ) { .. }`
pub enter : Option ℕ → StateStr → StateStr
enter none st = st
enter (some zero) st = st
enter (some (suc n)) st = record { oldstate = st.state; state = some (suc n) }

module _ {D : Type 0} where
  -- `state_machine_init`, where `malloc` gives memory; `fresh` is what that holds.
  abbrev pub init : (ℕ → Option (Action D)) → StateTable D
  init fresh = record { table = fresh; state_max = state_machine_incr; state_count = 0 }

  -- What the larger table holds after `memcpy`.
  abbrev pub copied : (fresh : ℕ → Option (Action D)) → StateTable D → ℕ → Option (Action D)
  copied fresh s i = if ltb i s.state_max then s.table i else fresh i

  abbrev pub add_entry : Action D → StateTable D → StateTable D
  add_entry fcntl s = record s {
    table = update s.table s.state_count (some fcntl);
    state_count = s.state_count + 1;
  }

  -- `state_machine_register`: `memory` is what `malloc` gives, if it gives any.
  unfoldable pub register :
      Option (ℕ → Option (Action D)) → Action D → StateTable D → Option ℕ × StateTable D
  register memory fcntl s =
      if leb s.state_count s.state_max
      then elim memory [
        | none ↦ (none, s)
        | some fresh ↦ (
          some s.state_count,
          add_entry fcntl
              (record s { table = copied fresh s; state_max = s.state_max + state_machine_incr }),
        )
      ]
      else (some s.state_count, add_entry fcntl s)

  -- `state_machine_deregister`
  unfoldable pub deregister : Option ℕ → StateTable D → StateTable D
  deregister none s = s
  deregister (some id) s =
      if ltb id s.state_count then record s { table = update s.table id none } else s

  -- The entry of a state that is in range.
  pub entry : StateTable D → Option ℕ → Option (Option (Action D))
  entry s none = none
  entry s (some id) = if ltb id s.state_count then some (s.table id) else none

  -- `state_machine`
  unfoldable pub state_machine : StateTable D → StateStr → D → Transition D
  unfolding enter entry
  state_machine s st data_ptr = elim (entry s st.state) [
    | none ↦ returns none st data_ptr
    | some none ↦ calls_null
    | some (some fcntl) ↦
        let (newstate, d) = fcntl data_ptr in returns newstate (enter newstate st) d
  ]
