-- ===== src/System/Queue/Runs.antt =====
-- Any calls of the functions of system/queue.c on one queue, in any order.
use mlvm.Base.{
  ℕ, ◌<◌, ◌≡◌, ◌≢◌, refl, ap, ◌∙◌, true, false, Option, none, some, List, [], ◌∷◌, ◌++◌, length,
}
use mlvm.System.Queue.{null, Nexts, Queue, icb_first, icb_insert, icb_append, icb_remove}
use mlvm.System.Queue.Chain.{has, remove}
use mlvm.System.Queue.Refines.{
  Holds, icb_first-none, icb_first-Holds, icb_insert-Holds, icb_append-Holds,
}
use mlvm.System.Queue.Remove.{icb_remove-Holds}

pub data Call : Type 0 where
  take : Call
  insert append withdraw : ℕ → Call

-- A call on the records.
unfoldable pub perform : ℕ → Call → Queue × Nexts → Option (Queue × Nexts)
unfolding icb_first icb_insert icb_append icb_remove
perform fuel take (q, nexts) = some ((icb_first q nexts).1, nexts)
perform fuel (insert a) (q, nexts) = some (icb_insert q a nexts)
perform fuel (append a) (q, nexts) = icb_append q a nexts
perform fuel (withdraw a) (q, nexts) = icb_remove fuel q a nexts

unfoldable pub performs : ℕ → List Call → Queue × Nexts → Option (Queue × Nexts)
unfolding perform
performs fuel [] s = some s
performs fuel (c ∷ cs) s = elim (perform fuel c s) [ none ↦ none | some t ↦ performs fuel cs t ]

-- What it does to the list.
unfoldable pub meant : Call → List ℕ → List ℕ
meant take [] = []
meant take (x ∷ xs) = xs
meant (insert a) xs = a ∷ xs
meant (append a) xs = xs ++ (a ∷ [])
meant (withdraw a) xs = remove a xs

-- When it may be made: a record that is put in is in no queue, and one that is withdrawn is in this.
abbrev pub MayCall : Call → List ℕ → Type 0
MayCall take xs = Unit {0}
MayCall (insert a) xs = (a ≢ null) × (has a xs ≡ false)
MayCall (append a) xs = (a ≢ null) × (has a xs ≡ false)
MayCall (withdraw a) xs = has a xs ≡ true

unfoldable pub all_meant : List Call → List ℕ → List ℕ
unfolding meant
all_meant [] xs = xs
all_meant (c ∷ cs) xs = all_meant cs (meant c xs)

-- Each call may be made when its turn comes, on a queue that is shorter than the fuel.
abbrev pub MayCalls : ℕ → List Call → List ℕ → Type 0
MayCalls fuel [] xs = Unit {0}
MayCalls fuel (c ∷ cs) xs = (length xs < fuel) × (MayCall c xs × MayCalls fuel cs (meant c xs))

perform-Holds :
    (fuel : ℕ) (c : Call) (q : Queue) (nexts : Nexts) (xs : List ℕ)
    → Holds nexts q xs
    → length xs < fuel
    → MayCall c xs
    → (q' : Queue) × ((nexts' : Nexts) × ((perform fuel c (q, nexts) ≡ some (q', nexts'))
          × Holds nexts' q' (meant c xs)))
unfolding perform meant
perform-Holds fuel take q nexts [] h f m =
    ((icb_first q nexts).1, (nexts, (refl, ap (λ r. r.1.head) (icb_first-none nexts q h) ∙ h)))
perform-Holds fuel take q nexts (x ∷ xs) h f m =
    ((icb_first q nexts).1, (nexts, (refl, (icb_first-Holds nexts q x xs h).1)))
perform-Holds fuel (insert a) q nexts xs h f (n, out) = (
  (icb_insert q a nexts).0,
  ((icb_insert q a nexts).1, (refl, icb_insert-Holds nexts q a xs h n out)),
)
perform-Holds fuel (append a) q nexts xs h f (n, out) = icb_append-Holds nexts q a xs h n out
perform-Holds fuel (withdraw a) q nexts xs h f i = icb_remove-Holds fuel nexts q a xs h i f

-- However the functions are called on a queue, they run through without a NULL pointer, and the queue
-- then holds the records that the same operations on lists leave: where the queue is shorter than the
-- fuel at each call, a record that is put in is not NULL and not in the queue, and one that is
-- withdrawn is in it.
pub performs-Holds :
    (fuel : ℕ) (cs : List Call) (q : Queue) (nexts : Nexts) (xs : List ℕ)
    → Holds nexts q xs
    → MayCalls fuel cs xs
    → (q' : Queue) × ((nexts' : Nexts) × ((performs fuel cs (q, nexts) ≡ some (q', nexts'))
          × Holds nexts' q' (all_meant cs xs)))
unfolding performs all_meant
performs-Holds fuel [] q nexts xs h m = (q, (nexts, (refl, h)))
performs-Holds fuel (c ∷ cs) q nexts xs h (f, (m, ms)) =
    let (q', (nexts', (run, h'))) = perform-Holds fuel c q nexts xs h f m in
    let (q'', (nexts'', (runs, h''))) = performs-Holds fuel cs q' nexts' (meant c xs) h' ms in
    (
      q'',
      (
        nexts'',
        (
          ap
                (λ o. elim o as (λ _. Option (Queue × Nexts)) [
                  | none ↦ none
                  | some t ↦ performs fuel cs t
                ])
                run
              ∙ runs,
          h'',
        ),
      ),
    )
