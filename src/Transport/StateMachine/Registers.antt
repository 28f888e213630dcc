-- ===== src/Transport/StateMachine/Registers.antt =====
-- The registration of states in transport/state_machine.c.
use mlvm.Base.{ℕ, ◌+◌, ◌≤◌, ◌<◌, ◌≡◌, refl, true, Option, some, arith, leb, ==-refl, ne→==, lt→ltb}
use mlvm.Transport.StateMachine.{state_machine_incr, Action, StateTable, register}

module _ {D : Type 0} where
  -- What a registration that has memory does.
  pub record Registered (fcntl : Action D) (s s' : StateTable D) : Type 0 where
    pub at_count : s'.table s.state_count ≡ some fcntl
    pub others : (id : ℕ) → id < s.state_count → s'.table id ≡ s.table id
    pub count : s'.state_count ≡ s.state_count + 1
    pub max : s'.state_max ≡ s.state_max + state_machine_incr
    pub in_bounds : s'.state_count ≤ s'.state_max

  -- While the count is not above the capacity, as it is from `state_machine_init` on, every
  -- registration that has memory gives the count as the id, stores the action there within the
  -- bounds of the table, keeps the others, and makes the table larger, full or not.
  pub register-Registered :
      (fresh : ℕ → Option (Action D)) (fcntl : Action D) (s : StateTable D)
      → s.state_count ≤ s.state_max
      → ((register (some fresh) fcntl s).0 ≡ some s.state_count)
        × Registered fcntl s (register (some fresh) fcntl s).1
  unfolding register
  register-Registered fresh fcntl s h =
      let full : leb s.state_count s.state_max ≡ true = ground arith in
      rw (full) (
        refl,
        record {
          at_count = rw (==-refl s.state_count) refl;
          others = λ id g.
              rw
                (
                  ne→== id s.state_count (λ e. omega (arith, e)),
                  lt→ltb id s.state_max (omega arith),
                )
                refl;
          count = refl;
          max = refl;
          in_bounds = omega arith;
        },
      )
