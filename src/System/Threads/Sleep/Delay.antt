-- ===== src/System/Threads/Sleep/Delay.antt =====
-- The delay that timer_recall of system/imago_timer.c sets the wake-up timer to.
use mlvm.Base.{
  Bool, false, length, ◌<◌, if_intro, ==-refl, ℕ, ◌+◌, ◌-◌, ◌≤◌, ◌≡◌, ◌⊎◌, inl, inr, refl, sym, ap,
  subst, ◌∙◌, ==→eq, true, Option, none, some, List, [], ◌∷◌, if◌then◌else◌, ltb, ◌==◌, Bool-cases,
  arith,
}
use mlvm.System.Queue.Chain.{has}
use mlvm.System.Threads.{System}
use mlvm.System.Threads.Sleep.{expired, earliest, delay, timer_recall}
use mlvm.System.Threads.Sleep.Wakes.{left, IsDistinct, timer_recall-wakes}

earliest_le : (s : System) (low : ℕ) (xs : List ℕ) → earliest s low xs ≤ low
unfolding earliest
earliest_le s low [] = omega arith
earliest_le s low (x ∷ xs) = elim (Bool-cases (ltb (s.icbs x).dday low)) [
  | inl e ↦ rw e (ground (arith, earliest_le s (s.icbs x).dday xs))
  | inr e ↦ rw e (earliest_le s low xs)
]

earliest-has :
    (s : System) (low j : ℕ) (xs : List ℕ) → has j xs ≡ true → earliest s low xs ≤ (s.icbs j).dday
unfolding earliest
earliest-has s low j [] h = ground (arith, h)
earliest-has s low j (x ∷ xs) h = elim (Bool-cases (j == x)) [
  | inl e ↦
      let m = earliest_le s (if ltb (s.icbs x).dday low then (s.icbs x).dday else low) xs in
      subst (λ z. earliest s low (x ∷ xs) ≤ (s.icbs z).dday) (sym (==→eq j x e)) (ground (arith, m))
  | inr e ↦
      earliest-has s (if ltb (s.icbs x).dday low then (s.icbs x).dday else low) j xs
        (ground (arith, h, e))
]

earliest-cons :
    (s : System) (j x : ℕ) (xs : List ℕ)
    → has j (x ∷ xs) ≡ true
    → earliest s (s.icbs x).dday xs ≤ (s.icbs j).dday
earliest-cons s j x xs h = elim (Bool-cases (j == x)) [
  | inl e ↦
      subst (λ z. earliest s (s.icbs x).dday xs ≤ (s.icbs z).dday) (sym (==→eq j x e))
        (earliest_le s (s.icbs x).dday xs)
  | inr e ↦ earliest-has s (s.icbs x).dday j xs (ground (arith, h, e))
]

delay-run :
    (now : ℕ) (s : System) (x : ℕ) (xs : List ℕ)
    → s.internal_queue ≡ x ∷ xs
    → delay true now s
      ≡ some (
          if ltb (earliest s (s.icbs x).dday xs) now
          then 1
          else earliest s (s.icbs x).dday xs - now)
unfolding delay
delay-run now s x xs = ap λ (l : List ℕ). elim l as (λ _. Option ℕ) [
  | [] ↦ none
  | ip ∷ ips ↦ some (
      if ltb (earliest s (s.icbs ip).dday ips) now
      then 1
      else earliest s (s.icbs ip).dday ips - now)
]

-- The same with the queue as a list.
delay-list :
    (now j : ℕ) (s : System) (xs : List ℕ)
    → s.internal_queue ≡ xs
    → has j xs ≡ true
    → (d : ℕ) × ((delay true now s ≡ some d) × ((d ≡ 1) ⊎ (now + d ≤ (s.icbs j).dday)))
delay-list now j s [] e h = ground (arith, h)
delay-list now j s (x ∷ xs) e h =
    let low = earliest s (s.icbs x).dday xs in
    let m = earliest-cons s j x xs h in
    elim (Bool-cases (ltb low now)) [
      | inl b ↦ (1, (delay-run now s x xs e ∙ rw b refl, inl refl))
      | inr b ↦ (low - now, (delay-run now s x xs e ∙ rw b refl, inr (ground (arith, m, b))))
    ]

delay-has :
    (now j : ℕ) (s : System)
    → has j s.internal_queue ≡ true
    → (d : ℕ) × ((delay true now s ≡ some d) × ((d ≡ 1) ⊎ (now + d ≤ (s.icbs j).dday)))
delay-has now j s h = delay-list now j s s.internal_queue refl h

has-left :
    (test : ℕ → Bool) (j : ℕ) (xs : List ℕ)
    → has j xs ≡ true
    → test j ≡ false
    → has j (left test xs) ≡ true
unfolding left
has-left test j [] h n = h
has-left test j (x ∷ xs) h n = elim (Bool-cases (j == x)) [
  | inl e ↦ rw (← ==→eq j x e, n, ==-refl j) refl
  | inr e ↦
      let i = has-left test j xs (ground (arith, h, e)) n in
      if_intro (λ l. has j l ≡ true) (test x) i (rw e i)
]

-- An imago that sleeps and whose time is not over: timer_recall, with a clock that stands still, a
-- queue without repetitions, more fuel than the queue is long, and a wake-up timer, leaves it in the
-- queue and sets the timer, to one microsecond or to a delay that ends no later than its deadline.
pub timer_recall-delay :
    (fuel now j : ℕ) (s : System)
    → IsDistinct s.internal_queue
    → length s.internal_queue < fuel
    → has j s.internal_queue ≡ true
    → expired now s j ≡ false
    → (t : System) × ((d : ℕ) × ((timer_recall fuel (λ _. now) true s ≡ some (t, some d))
          × ((has j t.internal_queue ≡ true) × ((d ≡ 1) ⊎ (now + d ≤ (t.icbs j).dday)))))
timer_recall-delay fuel now j s u f h n =
    let (t, (run, (e, l))) = timer_recall-wakes fuel now true s u f in
    let i =
      subst (λ xs. has j xs ≡ true) (sym l) (has-left (expired now s) j s.internal_queue h n) in
    let (d, (r, b)) = delay-has now j t i in (t, (d, (run ∙ ap (λ o. some (t, o)) r, (i, b))))
