-- ===== src/Transport/Timer/Given.antt =====
-- What timer_new of transport/timer.c does to the table.
use mlvm.Base.{
  ℕ, suc, ◌+◌, ◌≡◌, refl, subst, inl, inr, true, false, List, [], ◌∷◌, arith, All, Bool-cases,
  Option, none, some, get_elem?,
}
use mlvm.Transport.Timer.{is_stopped, unused, Slot, Timers, find_free, new, write_slot}

module _ {C : Type 0} where
  -- What `timer_new` finds, from index `id` on.
  data Search (id : ℕ) (ss : List (Slot C)) : Option ℕ → Type 0 where
    full : All (λ s. unused s.status ≡ false) ss → Search id ss none
    first_free :
        (i j : ℕ) {s : Slot C}
        → j ≡ id + i
        → get_elem? ss i ≡ some s
        → unused s.status ≡ true
        → Search id ss (some j)

  find_free-Search : (id : ℕ) (ss : List (Slot C)) → Search id ss (find_free id ss)
  unfolding find_free
  find_free-Search id [] = full tt
  find_free-Search id (s ∷ ss) = elim (Bool-cases (unused s.status)) [
    | inl e ↦ rw (e, find_free) (here e)
    | inr e ↦ rw (e, find_free) (later e (find_free-Search (id + 1) ss))
  ]
    where
      here : unused s.status ≡ true → Search id (s ∷ ss) (some id)
      here e = first_free 0 id (omega arith) refl e

      later : {o : Option ℕ} → unused s.status ≡ false → Search (id + 1) ss o → Search id (s ∷ ss) o
      later e (full a) = full (e, a)
      later e (first_free i j h g u) = first_free (suc i) j (omega arith) g u

  -- The ways out of `timer_new`: no slot is free and nothing changes, or a free slot is taken, the
  -- id is its index and one, and no other slot changes.
  pub data Given (t : Timers C) : Option ℕ × Timers C → Type 0 where
    refused : All (λ s. unused s.status ≡ false) t.timer_tlb → Given t (none, t)
    given :
        (i : ℕ) {s : Slot C}
        → get_elem? t.timer_tlb i ≡ some s
        → unused s.status ≡ true
        → Given t (some (i + 1), write_slot i (record s { status = is_stopped }) t)

  -- `timer_new` gives a timer whenever a slot of the table is free.
  pub new-Given : (t : Timers C) → Given t (new t)
  unfolding new
  new-Given t = from (find_free-Search 0 t.timer_tlb)
    where
      from :
          {o : Option ℕ}
          → Search 0 t.timer_tlb o
          → Given t (elim o [
            | none ↦ (none, t)
            | some id ↦ elim (get_elem? t.timer_tlb id) [
              | none ↦ (none, t)
              | some s ↦ (some (id + 1), write_slot id (record s { status = is_stopped }) t)
            ]
          ])
      from (full a) = refused a
      from (first_free i j {s} h g u) =
          let z : i ≡ j = omega arith in
          let g' : get_elem? t.timer_tlb j ≡ some s =
            subst (λ k. get_elem? t.timer_tlb k ≡ some s) z g in
          rw g' (given j g' u)
