-- ===== src/System/Queue/Refines.antt =====
-- The queues of system/queue.c stand for lists of records: each operation does to the chain what it
-- is meant to do to the list.
use mlvm.Base.{
  ℕ, zero, suc, ◌+◌, ◌<◌, ◌≡◌, ◌≢◌, inl, inr, refl, sym, ap, subst, ◌∙◌, true, false, Option, none,
  some, List, [], ◌∷◌, ◌++◌, update, length, arith, ne→==, Bool-cases,
}
use mlvm.System.Queue.{null, Nexts, Queue, icb_first, icb_insert, icb_append, count, icb_length}
use mlvm.System.Queue.Chain.{
  has, last, Chain, has-cons, has-last, update_self, Chain-update, Chain-snoc, Chain-push,
  last-append, last_ne,
}

-- The queue holds the records of the list, in order. The tail of an empty queue is arbitrary.
abbrev pub Holds : Nexts → Queue → List ℕ → Type 0
Holds nexts q [] = q.head ≡ null
Holds nexts q (x ∷ xs) = Chain nexts q.head (x ∷ xs) × (q.tail ≡ last x xs)

pub icb_first-none : (nexts : Nexts) (q : Queue) → Holds nexts q [] → icb_first q nexts ≡ (null, q)
unfolding icb_first
icb_first-none nexts q h = rw h

pub icb_first-Holds :
    (nexts : Nexts) (q : Queue) (x : ℕ) (xs : List ℕ)
    → Holds nexts q (x ∷ xs)
    → ((icb_first q nexts).0 ≡ x) × Holds nexts (icb_first q nexts).1 xs
unfolding icb_first
icb_first-Holds nexts q x [] ((e, (n, (d, c))), t) = rw (e, ne→== x null n, c) (refl, refl)
icb_first-Holds nexts q x (y ∷ ys) ((e, (n, (d, c))), t) =
    rw (e, ne→== x null n, c.0, ne→== y null c.1.0) (refl, ((refl, c.1), t))

icb_insert-cons :
    (nexts : Nexts) (q : Queue) (a : ℕ)
    → q.head ≢ null
    → icb_insert q a nexts ≡ (record q { head = a }, update nexts a q.head)
unfolding icb_insert
icb_insert-cons nexts q a n = rw (ne→== q.head null n)

pub icb_insert-Holds :
    (nexts : Nexts) (q : Queue) (a : ℕ) (xs : List ℕ)
    → Holds nexts q xs
    → a ≢ null
    → has a xs ≡ false
    → Holds (icb_insert q a nexts).1 (icb_insert q a nexts).0 (a ∷ xs)
unfolding icb_insert
icb_insert-Holds nexts q a [] h n out = rw h ((refl, (n, (refl, update_self nexts a null))), refl)
icb_insert-Holds nexts q a (x ∷ xs) (c, t) n out =
    subst (λ r. Holds r.1 r.0 (a ∷ x ∷ xs))
      (sym (icb_insert-cons nexts q a (λ s. c.1.0 (sym c.0 ∙ s))))
      (Chain-push nexts a q.head (x ∷ xs) c n out, t)

pub icb_append-Holds :
    (nexts : Nexts) (q : Queue) (a : ℕ) (xs : List ℕ)
    → Holds nexts q xs
    → a ≢ null
    → has a xs ≡ false
    → (q' : Queue) × ((nexts' : Nexts) × ((icb_append q a nexts ≡ some (q', nexts'))
          × Holds nexts' q' (xs ++ (a ∷ []))))
unfolding icb_append
icb_append-Holds nexts q a [] h n out = (
  record { head = a; tail = a },
  (update nexts a null, (rw h, ((refl, (n, (refl, update_self nexts a null))), refl))),
)
icb_append-Holds nexts q a (x ∷ xs) (c, t) n out = (
  record q { tail = a },
  (
    update (update nexts a null) (last x xs) a,
    (
      rw (c.0, ne→== x null c.1.0, t, ne→== (last x xs) null (last_ne nexts q.head x xs c)),
      (Chain-snoc nexts a q.head x xs c n out, sym (last-append x a xs)),
    ),
  ),
)

count-Chain :
    (k i p : ℕ) (nexts : Nexts) (xs : List ℕ)
    → Chain nexts p xs
    → length xs < k
    → count k i p nexts ≡ some (i + length xs)
unfolding count
count-Chain zero i p nexts xs c f = elim f [ ]
count-Chain (suc k) i p nexts [] c f = rw c (ap some (omega arith))
count-Chain (suc k) i p nexts (x ∷ xs) (e, (n, (d, c))) f =
    rw (e, ne→== x null n, count-Chain k (i + 1) (nexts x) nexts xs c (omega arith))
      (ap some (omega arith))

Holds-Chain : (nexts : Nexts) (q : Queue) (xs : List ℕ) → Holds nexts q xs → Chain nexts q.head xs
Holds-Chain nexts q [] h = h
Holds-Chain nexts q (x ∷ xs) h = h.0

pub icb_length-Holds :
    (fuel : ℕ) (nexts : Nexts) (q : Queue) (xs : List ℕ)
    → Holds nexts q xs
    → length xs < fuel
    → icb_length fuel q nexts ≡ some (length xs)
icb_length-Holds fuel nexts q xs h f =
    count-Chain fuel 0 q.head nexts xs (Holds-Chain nexts q xs h) f ∙ ap some (omega arith)

pub Holds-update :
    (nexts : Nexts) (q : Queue) (a v : ℕ) (xs : List ℕ)
    → Holds nexts q xs
    → has a xs ≡ false
    → Holds (update nexts a v) q xs
Holds-update nexts q a v [] h out = h
Holds-update nexts q a v (x ∷ xs) (c, t) out = (Chain-update nexts a v q.head (x ∷ xs) c out, t)

after : Nexts → Option (Queue × Nexts) → Nexts
after nexts none = nexts
after nexts (some r) = r.1

-- Appending to a queue leaves one that shares no record with it as it was.
pub icb_append-other :
    (nexts nexts' : Nexts) (q q' r : Queue) (a : ℕ) (xs zs : List ℕ)
    → Holds nexts q xs
    → icb_append q a nexts ≡ some (q', nexts')
    → Holds nexts r zs
    → has a zs ≡ false
    → ((z : ℕ) → has z xs ≡ true → has z zs ≡ false)
    → Holds nexts' r zs
unfolding icb_append after
icb_append-other nexts nexts' q q' r a [] zs h e k out apart =
    let run : icb_append q a nexts ≡ some (record { head = a; tail = a }, update nexts a null) =
      rw h refl in
    subst (λ n. Holds n r zs) (ap (after nexts) (sym run ∙ e))
      (Holds-update nexts r a null zs k out)
icb_append-other nexts nexts' q q' r a (x ∷ xs) zs (c, t) e k out apart =
    let n = last_ne nexts q.head x xs c in
    let run : icb_append q a nexts
        ≡ some (record q { tail = a }, update (update nexts a null) (last x xs) a) =
      rw (c.0, ne→== x null c.1.0, t, ne→== (last x xs) null n) refl in
    subst (λ n. Holds n r zs) (ap (after nexts) (sym run ∙ e))
      (Holds-update (update nexts a null) r (last x xs) a zs (Holds-update nexts r a null zs k out)
        (apart (last x xs) (has-last x xs)))

apart-out :
    (x : ℕ) (xs zs : List ℕ)
    → ((z : ℕ) → has z zs ≡ true → has z (x ∷ xs) ≡ false)
    → has x zs ≡ false
apart-out x xs zs apart = elim (Bool-cases (has x zs)) [
  | inl i ↦ absurd ((has-cons x x xs (apart x i)).0 refl)
  | inr i ↦ i
]

-- The first record of a queue that is appended to another queue, which shares no record with it,
-- leaves the one without it and the other with it at the end.
pub transfer-Holds :
    (nexts : Nexts) (q r : Queue) (x : ℕ) (xs zs : List ℕ)
    → Holds nexts q (x ∷ xs)
    → Holds nexts r zs
    → ((z : ℕ) → has z zs ≡ true → has z (x ∷ xs) ≡ false)
    → (r' : Queue) × ((nexts' : Nexts) × ((icb_append r (icb_first q nexts).0 nexts
            ≡ some (r', nexts'))
          × (Holds nexts' (icb_first q nexts).1 xs × Holds nexts' r' (zs ++ (x ∷ [])))))
transfer-Holds nexts q r x xs zs h k apart =
    let (e, h') = icb_first-Holds nexts q x xs h in
    let out : has x zs ≡ false = apart-out x xs zs apart in
    let (r', (nexts', (run, k'))) = icb_append-Holds nexts r x zs k h.0.1.0 out in
    let other =
      icb_append-other nexts nexts' r r' (icb_first q nexts).1 x zs xs k run h' h.0.1.1.0
        (λ z i. (has-cons z x xs (apart z i)).1) in
    (r', (nexts', (ap (λ z. icb_append r z nexts) e ∙ run, (other, k'))))
