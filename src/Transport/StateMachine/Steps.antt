-- ===== src/Transport/StateMachine/Steps.antt =====
-- The transitions of transport/state_machine.c.
use mlvm.Base.{ℕ, ◌≤◌, ◌<◌, ◌≡◌, refl, ap, ◌∙◌, Option, none, some, arith, update, ==-refl, lt→ltb}
use mlvm.Transport.StateMachine.{
  Action, StateTable, StateStr, register, deregister, returns, calls_null, state_machine, entry,
  enter,
}
use mlvm.Transport.StateMachine.Registers.{register-Registered}

module _ {D : Type 0} where
  entry-some :
      (s : StateTable D) (id : ℕ) → id < s.state_count → entry s (some id) ≡ some (s.table id)
  unfolding entry
  entry-some s id h = rw (lt→ltb _ _ h) refl

  acts :
      (s : StateTable D) (st : StateStr) (d : D) (f : Action D)
      → entry s st.state ≡ some (some f)
      → state_machine s st d ≡ returns (f d).0 (enter (f d).0 st) (f d).1
  unfolding state_machine
  acts s st d f e = rw (e, state_machine) refl

  crashes :
      (s : StateTable D) (st : StateStr) (d : D)
      → entry s st.state ≡ some none
      → state_machine s st d ≡ calls_null
  unfolding state_machine
  crashes s st d e = rw (e, state_machine) refl

  -- A state that has just been registered runs its action: the result is the action's, and the
  -- state is the one that the action names, if that is above 0.
  pub state_machine-register :
      (fresh : ℕ → Option (Action D)) (fcntl : Action D) (s : StateTable D) (old : Option ℕ) (d : D)
      → s.state_count ≤ s.state_max
      → let (id, s') = register (some fresh) fcntl s in
        let st : StateStr = record { oldstate = old; state = id } in
        state_machine s' st d ≡ returns (fcntl d).0 (enter (fcntl d).0 st) (fcntl d).1
  state_machine-register fresh fcntl s old d h =
      let r = register-Registered fresh fcntl s h in
      let s' = (register (some fresh) fcntl s).1 in
      rw r.0 (
        acts s' (record { oldstate = old; state = some s.state_count }) d fcntl
          (entry-some s' s.state_count (omega (arith, r.1.count)) ∙ ap some r.1.at_count))

  -- A state that has been deregistered is still in range: a transition from it calls NULL.
  pub state_machine-deregister :
      (s : StateTable D) (id : ℕ) (old : Option ℕ) (d : D)
      → id < s.state_count
      → state_machine (deregister (some id) s) (record { oldstate = old; state = some id }) d
        ≡ calls_null
  unfolding deregister
  state_machine-deregister s id old d h =
      let s' : StateTable D = record s { table = update s.table id none } in
      let gone : s'.table id ≡ none = rw (==-refl id) refl in
      rw (lt→ltb _ _ h) (
        crashes s' (record { oldstate = old; state = some id }) d
          (entry-some s' id h ∙ ap some gone))
