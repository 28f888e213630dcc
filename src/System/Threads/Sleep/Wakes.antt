-- ===== src/System/Threads/Sleep/Wakes.antt =====
-- Who is woken by timer_recall of system/imago_timer.c.
use mlvm.Base.{
  ℕ, zero, suc, ◌<◌, ◌≡◌, ◌≢◌, refl, sym, ap, subst, ◌∙◌, Bool, true, false, Option, none, some,
  List, [], ◌∷◌, ◌++◌, append_assoc, append-nil, ==→eq, length, if◌then◌else◌, ◌==◌, Bool-cases,
  Option-cases, inl, inr, ==-refl, ne→==, arith,
}
use mlvm.System.Queue.Chain.{has, remove, has-ne, has-remove}
use mlvm.System.Threads.{System, icb_put, icb_put_q, set_queue, queue}
use mlvm.System.Threads.Sleep.{
  later, expired, first_expired, wake, scan, delay, set_wakeup, timer_recall,
}

-- The members of a list that a test takes, and the others.
unfoldable pub taken : (ℕ → Bool) → List ℕ → List ℕ
taken test [] = []
taken test (x ∷ xs) = if test x then x ∷ taken test xs else taken test xs

unfoldable pub left : (ℕ → Bool) → List ℕ → List ℕ
left test [] = []
left test (x ∷ xs) = if test x then left test xs else x ∷ left test xs

abbrev pub IsDistinct : List ℕ → Type 0
IsDistinct [] = Unit {0}
IsDistinct (x ∷ xs) = (has x xs ≡ false) × IsDistinct xs

some_inj : (x y : ℕ) → some x ≡ some y → x ≡ y
some_inj x y = ap (λ o. elim o as (λ _. ℕ) [ none ↦ x | some z ↦ z ])

some_ne : (x : ℕ) → some x ≢ none
some_ne x e = ground (arith, ap (λ o. elim o as (λ _. Bool) [ none ↦ false | some z ↦ true ]) e)

true_ne : true ≢ false
true_ne e = ground (arith, e)

first_expired-true :
    (now x : ℕ) (s : System) (xs : List ℕ)
    → expired now s x ≡ true
    → first_expired now s (x ∷ xs) ≡ some x
unfolding first_expired
first_expired-true now x s xs e = rw e refl

first_expired-false :
    (now x : ℕ) (s : System) (xs : List ℕ)
    → expired now s x ≡ false
    → first_expired now s (x ∷ xs) ≡ first_expired now s xs
unfolding first_expired
first_expired-false now x s xs e = rw e refl

-- With nobody to wake.
first_expired-none :
    (now : ℕ) (s : System) (xs : List ℕ)
    → first_expired now s xs ≡ none
    → (taken (expired now s) xs ≡ []) × (left (expired now s) xs ≡ xs)
unfolding taken left
first_expired-none now s [] h = (refl, refl)
first_expired-none now s (x ∷ xs) h = elim (Bool-cases (expired now s x)) [
  | inl e ↦ absurd (some_ne x (sym (first_expired-true now x s xs e) ∙ h))
  | inr e ↦
      let (p, q) = first_expired-none now s xs (sym (first_expired-false now x s xs e) ∙ h) in
      rw e (p, ap (◌∷◌ x) q)
]

-- What the first ICB to wake has to do with those that are taken.
abbrev pub Leads : ℕ → System → ℕ → List ℕ → Type 0
Leads now s ip xs =
    (expired now s ip ≡ true)
    × ((has ip xs ≡ true)
        × ((taken (expired now s) xs ≡ ip ∷ taken (expired now s) (remove ip xs))
            × (left (expired now s) xs ≡ left (expired now s) (remove ip xs))))

Leads-here :
    (now : ℕ) (s : System) (x : ℕ) (xs : List ℕ) → expired now s x ≡ true → Leads now s x (x ∷ xs)
unfolding taken left
Leads-here now s x xs e =
    (e, (rw (==-refl x) refl, (rw (e, ==-refl x) refl, rw (e, ==-refl x) refl)))

Leads-later :
    (now : ℕ) (s : System) (ip x : ℕ) (xs : List ℕ)
    → expired now s x ≡ false
    → Leads now s ip xs
    → Leads now s ip (x ∷ xs)
unfolding taken left
Leads-later now s ip x xs e (f, (i, (p, q))) =
    let n = ne→== ip x (λ z. true_ne (sym f ∙ ap (expired now s) z ∙ e)) in
    (f, (rw (n, i) refl, (rw (e, n) (rw e p), rw (e, n) (rw e (ap (◌∷◌ x) q)))))

pub first_expired-Leads :
    (now ip : ℕ) (s : System) (xs : List ℕ) → first_expired now s xs ≡ some ip → Leads now s ip xs
unfolding first_expired
first_expired-Leads now ip s [] h = absurd (some_ne ip (sym h))
first_expired-Leads now ip s (x ∷ xs) h = elim (Bool-cases (expired now s x)) [
  | inl e ↦
      subst (λ z. Leads now s z (x ∷ xs))
        (some_inj x ip (sym (first_expired-true now x s xs e) ∙ h)) (Leads-here now s x xs e)
  | inr e ↦
      Leads-later now s ip x xs e
        (first_expired-Leads now ip s xs (sym (first_expired-false now x s xs e) ∙ h))
]

has-remove_self : (a : ℕ) (xs : List ℕ) → IsDistinct xs → has a (remove a xs) ≡ false
has-remove_self a [] d = refl
has-remove_self a (x ∷ xs) (o, d) = elim (Bool-cases (a == x)) [
  | inl e ↦ rw e (subst (λ z. has z xs ≡ false) (sym (==→eq a x e)) o)
  | inr e ↦ rw e (rw e (has-remove_self a xs d))
]

remove-IsDistinct : (a : ℕ) (xs : List ℕ) → IsDistinct xs → IsDistinct (remove a xs)
remove-IsDistinct a [] d = tt
remove-IsDistinct a (x ∷ xs) (o, d) = elim (Bool-cases (a == x)) [
  | inl e ↦ rw e d
  | inr e ↦ rw e (has-remove x a xs o, remove-IsDistinct a xs d)
]

pub length-remove : (a : ℕ) (xs : List ℕ) → has a xs ≡ true → suc (length (remove a xs)) ≡ length xs
length-remove a [] h = ground (arith, h)
length-remove a (x ∷ xs) h = elim (Bool-cases (a == x)) [
  | inl e ↦ rw e refl
  | inr e ↦ let i : has a xs ≡ true = ground (arith) in rw e (ap suc (length-remove a xs i))
]

-- Tests that agree on a list take the same.
test_cong :
    (f g : ℕ → Bool) (xs : List ℕ)
    → ((j : ℕ) → has j xs ≡ true → f j ≡ g j)
    → (taken f xs ≡ taken g xs) × (left f xs ≡ left g xs)
unfolding taken left
test_cong f g [] h = (refl, refl)
test_cong f g (x ∷ xs) h =
    let (p, q) = test_cong f g xs (λ j i. h j (ground (arith, i))) in
    let e = h x (ground (arith)) in (rw (e, p) refl, rw (e, q) refl)

wake-expired : (now ip j : ℕ) (s : System) → j ≢ ip → expired now (wake ip s) j ≡ expired now s j
unfolding wake icb_put icb_put_q set_queue
wake-expired now ip j s n = rw (ne→== j ip n) refl

wake-queues :
    (ip : ℕ) (s : System)
    → ((wake ip s).internal_queue ≡ remove ip s.internal_queue)
      × ((wake ip s).engine_queue ≡ s.engine_queue ++ (ip ∷ []))
unfolding wake icb_put icb_put_q set_queue queue
wake-queues ip s = (refl, refl)

-- What the scans come to.
abbrev pub Woke : ℕ → System → System → Type 0
Woke now s t =
    (t.engine_queue ≡ s.engine_queue ++ taken (expired now s) s.internal_queue)
    × (t.internal_queue ≡ left (expired now s) s.internal_queue)

Woke-step :
    (now ip : ℕ) (s t : System)
    → IsDistinct s.internal_queue
    → Leads now s ip s.internal_queue
    → Woke now (wake ip s) t
    → Woke now s t
Woke-step now ip s t d (f, (i, (p, q))) (e, l) =
    let (wi, we) = wake-queues ip s in
    let xs = remove ip s.internal_queue in
    let same = test_cong (expired now (wake ip s)) (expired now s) xs (λ j h.
      wake-expired now ip j s
        (λ z. has-ne ip j xs (has-remove_self ip s.internal_queue d) h (sym z))) in
    let test = expired now (wake ip s) in
    (
      e
          ∙ ap (λ z. (wake ip s).engine_queue ++ taken test z) wi
          ∙ ap (λ z. z ++ taken test xs) we
          ∙ append_assoc s.engine_queue (ip ∷ []) (taken test xs)
          ∙ ap (λ z. s.engine_queue ++ (ip ∷ z)) same.0
          ∙ sym (ap (λ z. s.engine_queue ++ z) p),
      l ∙ ap (left test) wi ∙ same.1 ∙ sym q,
    )

pub scan-run :
    (k : ℕ) (clock : ℕ → ℕ) (s : System) (o : Option ℕ)
    → first_expired (clock 0) s s.internal_queue ≡ o
    → scan (suc k) clock s ≡ elim o as (λ _. Option ((ℕ → ℕ) × System)) [
      | none ↦ some (later clock, s)
      | some ip ↦ scan k (later clock) (wake ip s)
    ]
unfolding scan
scan-run k clock s o = ap λ o. elim o as (λ _. Option ((ℕ → ℕ) × System)) [
  | none ↦ some (later clock, s)
  | some ip ↦ scan k (later clock) (wake ip s)
]

scan-wakes :
    (k now : ℕ) (s : System)
    → IsDistinct s.internal_queue
    → length s.internal_queue < k
    → (t : System) × ((scan k (λ _. now) s ≡ some (λ _. now, t)) × Woke now s t)
scan-wakes zero now s d f = elim f [ ]
scan-wakes (suc k) now s d f = elim (Option-cases (first_expired now s s.internal_queue)) [
  | inl e ↦
      let (p, q) = first_expired-none now s s.internal_queue e in
      (
        s,
        (
          scan-run k (λ _. now) s none e,
          (sym (append-nil s.engine_queue) ∙ sym (ap (λ z. s.engine_queue ++ z) p), sym q),
        ),
      )
  | inr (ip, e) ↦
      let l = first_expired-Leads now ip s s.internal_queue e in
      let wi = (wake-queues ip s).0 in
      let d' = subst IsDistinct (sym wi) (remove-IsDistinct ip s.internal_queue d) in
      let n = ap suc (ap length wi) ∙ length-remove ip s.internal_queue l.1.0 in
      let (t, (run, w)) = scan-wakes k now (wake ip s) d' (omega (arith, n)) in
      (t, (scan-run k (λ _. now) s (some ip) e ∙ run, Woke-step now ip s t d l w))
]

-- timer_recall, with a clock that stands still, a queue without repetitions and more fuel than the
-- queue is long: it ends, and the
-- ICBs whose time is over go to the engine's queue in their order, while the others stay.
pub timer_recall-wakes :
    (fuel now : ℕ) (has_timer : Bool) (s : System)
    → IsDistinct s.internal_queue
    → length s.internal_queue < fuel
    → (t : System) × ((timer_recall fuel (λ _. now) has_timer s ≡ some (t, delay has_timer now t))
        × Woke now s t)
unfolding timer_recall set_wakeup
timer_recall-wakes fuel now has_timer s d f =
    let (t, (run, w)) = scan-wakes fuel now s d f in (t, (ap (set_wakeup has_timer) run, w))
