-- ===== src/System/Queue/Remove.antt =====
-- icb_remove of system/queue.c takes a record out of the list, wherever it stands.
use mlvm.Base.{
  ℕ, zero, suc, ◌+◌, ◌<◌, ◌≡◌, ◌≢◌, inl, inr, refl, sym, ap, subst, ◌∙◌, Bool, true, false, some,
  List, [], ◌∷◌, ◌==◌, if◌then◌else◌, update, length, arith, ==→eq, ==→ne, ne→==, Bool-cases,
}
use mlvm.System.Queue.{null, Nexts, Queue, empty, find_before, unlink, icb_remove}
use mlvm.System.Queue.Chain.{
  has, last, Chain, remove, has-cons, has-last, has-ne, has-remove, update_ne, update_self,
  Chain-update,
}
use mlvm.System.Queue.Refines.{Holds}

-- The record in front of one that stands behind `x`.
abbrev before : ℕ → ℕ → List ℕ → ℕ
before a x [] = x
before a x (y ∷ ys) = if a == y then x else before a y ys

==-comm : (a b : ℕ) → (b == a) ≡ (a == b)
==-comm a b = ground (arith)

has-before : (a x : ℕ) (xs : List ℕ) → has (before a x xs) (x ∷ xs) ≡ true
has-before a x [] = ground (arith)
has-before a x (y ∷ ys) = ground (arith, has-before a y ys)

find_before-Chain :
    (k a p x : ℕ) (nexts : Nexts) (xs : List ℕ)
    → Chain nexts p (x ∷ xs)
    → a ≢ null
    → length xs + 1 < k
    → find_before k p a nexts ≡ some (if has a xs then before a x xs else null)
unfolding find_before
find_before-Chain zero a p x nexts xs c n f = elim f [ ]
find_before-Chain (suc zero) a p x nexts [] c n f = ground (arith)
find_before-Chain (suc (suc k)) a p x nexts [] (e, (m, (d, c))) n f =
    rw (e, ne→== x null m, c, ne→== null a (λ s. n (sym s))) refl
find_before-Chain (suc k) a p x nexts (y ∷ ys) (e, (m, (d, c))) n f =
    let rest = find_before-Chain k a y y nexts ys (refl, c.1) n (omega arith) in
    elim (Bool-cases (a == y)) [
      | inl s ↦ rw (e, ne→== x null m, c.0, s, ==-comm a y, s) refl
      | inr s ↦ rw (e, ne→== x null m, c.0, s, ==-comm a y, s) rest
    ]

-- The records after `temp->next = ip->next` and `ip->next = NULL`.
abbrev unlinked : Nexts → ℕ → ℕ → Nexts
unlinked nexts temp a = update (update nexts temp (nexts a)) a null

Chain-skip :
    (a p x : ℕ) (nexts : Nexts) (ys : List ℕ)
    → Chain nexts p (x ∷ a ∷ ys)
    → Chain (unlinked nexts x a) p (x ∷ ys)
Chain-skip a p x nexts ys (e, (m, (d, (f, (n, (out, c)))))) =
    let (ne, x_out) = has-cons x a ys d in
    let kept = Chain-update nexts x (nexts a) (nexts a) ys c x_out in
    (
      e,
      (
        m,
        (
          x_out,
          rw (update_ne (update nexts x (nexts a)) a null x ne, update_self nexts x (nexts a))
              (Chain-update (update nexts x (nexts a)) a null (nexts a) ys kept out),
        ),
      ),
    )

Chain-later :
    (a p x y t : ℕ) (nexts : Nexts) (ys l : List ℕ)
    → Chain nexts p (x ∷ ys)
    → x ≢ a
    → x ≢ t
    → has x l ≡ false
    → Chain (unlinked nexts t a) (nexts x) l
    → Chain (unlinked nexts t a) p (x ∷ l)
Chain-later a p x y t nexts ys l (e, (m, (d, c))) ne nt out k = (
  e,
  (
    m,
    (
      out,
      rw (update_ne (update nexts t (nexts a)) a null x ne, update_ne nexts t (nexts a) x nt) k,
    ),
  ),
)

Chain-remove :
    (a p x : ℕ) (nexts : Nexts) (xs : List ℕ)
    → Chain nexts p (x ∷ xs)
    → a ≢ x
    → has a xs ≡ true
    → Chain (unlinked nexts (before a x xs) a) p (x ∷ remove a xs)
Chain-remove a p x nexts [] c n h = ground (arith, h)
Chain-remove a p x nexts (y ∷ ys) (e, (m, (d, c))) n h = elim (Bool-cases (a == y)) [
  | inl s ↦
      let t : before a x (y ∷ ys) ≡ x = rw s refl in
      let l : remove a (y ∷ ys) ≡ ys = rw s refl in
      let k = subst (λ z. Chain nexts p (x ∷ z ∷ ys)) (sym (==→eq a y s)) (e, (m, (d, c))) in
      rw l
        (subst (λ z. Chain (unlinked nexts z a) p (x ∷ ys)) (sym t) (Chain-skip a p x nexts ys k))
  | inr s ↦
      let t : before a x (y ∷ ys) ≡ before a y ys = rw s refl in
      let l : remove a (y ∷ ys) ≡ y ∷ remove a ys = rw s refl in
      let k = Chain-remove a (nexts x) y nexts ys c (==→ne a y s) (ground (arith)) in
      let out = subst (λ z. has x z ≡ false) l (has-remove x a (y ∷ ys) d) in
      let nt = has-ne x (before a y ys) (y ∷ ys) d (has-before a y ys) in
      rw l (
        subst (λ z. Chain (unlinked nexts z a) p (x ∷ y ∷ remove a ys)) (sym t)
          (Chain-later a p x y (before a y ys) nexts (y ∷ ys) (y ∷ remove a ys) (e, (m, (d, c)))
            (λ z. n (sym z)) nt out k))
]

last-remove :
    (a p x : ℕ) (nexts : Nexts) (xs : List ℕ)
    → Chain nexts p (x ∷ xs)
    → has a xs ≡ true
    → last x (remove a xs) ≡ (if a == last x xs then before a x xs else last x xs)
last-remove a p x nexts [] c h = ground (arith, h)
last-remove a p x nexts (y ∷ []) (e, (m, (d, c))) h = elim (Bool-cases (a == y)) [
  | inl s ↦ rw s refl
  | inr s ↦ rw s (ground (arith))
]
last-remove a p x nexts (y ∷ z ∷ zs) (e, (m, (d, c))) h = elim (Bool-cases (a == y)) [
  | inl s ↦
      let ne = has-ne y (last z zs) (z ∷ zs) c.1.1.0 (has-last z zs) in
      let out = ne→== a (last z zs) (λ t. ne (sym (==→eq a y s) ∙ t)) in rw (s, out) refl
  | inr s ↦ rw s (last-remove a (nexts x) y nexts (z ∷ zs) c (ground (arith)))
]

has-null : (nexts : Nexts) (p : ℕ) (xs : List ℕ) → Chain nexts p xs → has null xs ≡ false
has-null nexts p [] c = refl
has-null nexts p (x ∷ xs) (e, (m, (d, c))) =
    rw (ne→== null x (λ s. m (sym s))) (has-null nexts (nexts x) xs c)

ne_null : (nexts : Nexts) (p a : ℕ) (xs : List ℕ) → Chain nexts p xs → has a xs ≡ true → a ≢ null
ne_null nexts p a xs c h s = has-ne null a xs (has-null nexts p xs c) h (sym s)

unlink-run :
    (temp a : ℕ) (q : Queue) (nexts : Nexts) (b : Bool)
    → temp ≢ null
    → (a == q.tail) ≡ b
    → unlink temp q a nexts ≡ (if b then record q { tail = temp } else q, unlinked nexts temp a)
unfolding unlink
unlink-run temp a q nexts b n e = rw (ne→== temp null n, e) refl

icb_remove-run :
    (fuel temp a : ℕ) (q : Queue) (nexts : Nexts)
    → a ≢ null
    → (a == q.head) ≡ false
    → find_before fuel q.head a nexts ≡ some temp
    → icb_remove fuel q a nexts ≡ some (unlink temp q a nexts)
unfolding icb_remove
icb_remove-run fuel temp a q nexts n h f = rw (ne→== a null n, h, f) refl

-- What the part of icb_remove behind the loop leaves.
unlink-Holds :
    (nexts : Nexts) (q : Queue) (a x : ℕ) (xs : List ℕ)
    → Holds nexts q (x ∷ xs)
    → a ≢ x
    → has a xs ≡ true
    → Holds
        (unlink (before a x xs) q a nexts).1
        (unlink (before a x xs) q a nexts).0
        (x ∷ remove a xs)
unlink-Holds nexts q a x xs (c, t) n i =
    let b = ne_null nexts q.head (before a x xs) (x ∷ xs) c (has-before a x xs) in
    let k = Chain-remove a q.head x nexts xs c n i in
    let l = last-remove a q.head x nexts xs c i in
    elim (Bool-cases (a == last x xs)) [
      | inl s ↦
          subst (λ r. Holds r.1 r.0 (x ∷ remove a xs))
            (sym (unlink-run (before a x xs) a q nexts true b (ap (◌==◌ a) t ∙ s)))
            (k, sym (l ∙ rw s refl))
      | inr s ↦
          subst (λ r. Holds r.1 r.0 (x ∷ remove a xs))
            (sym (unlink-run (before a x xs) a q nexts false b (ap (◌==◌ a) t ∙ s)))
            (k, t ∙ sym (l ∙ rw s refl))
    ]

-- The list without the record, where it stands in the list.
pub icb_remove-Holds :
    (fuel : ℕ) (nexts : Nexts) (q : Queue) (a : ℕ) (xs : List ℕ)
    → Holds nexts q xs
    → has a xs ≡ true
    → length xs < fuel
    → (q' : Queue) × ((nexts' : Nexts) × ((icb_remove fuel q a nexts ≡ some (q', nexts'))
          × Holds nexts' q' (remove a xs)))
unfolding icb_remove unlink
icb_remove-Holds fuel nexts q a [] h i f = ground (arith, i)
icb_remove-Holds fuel nexts q a (x ∷ []) ((e, (m, (d, c))), t) i f =
    let s : (a == x) ≡ true = ground (arith, i) in
    let n : (a == null) ≡ false = ne→== a null (λ z. m (sym (==→eq a x s) ∙ z)) in
    (empty, (update nexts a null, (rw (n, e, t, s) refl, rw s refl)))
icb_remove-Holds fuel nexts q a (x ∷ y ∷ ys) ((e, (m, (d, c))), t) i f =
    elim (Bool-cases (a == x)) [
      | inl s ↦
          let ax = ==→eq a x s in
          let n : (a == null) ≡ false = ne→== a null (λ z. m (sym ax ∙ z)) in
          let ne = has-ne x (last y ys) (y ∷ ys) d (has-last y ys) in
          let o : (a == last y ys) ≡ false = ne→== a (last y ys) (λ z. ne (sym ax ∙ z)) in
          (
            record q { head = nexts a },
            (
              update nexts a null,
              (
                rw (n, e, s, t, o) refl,
                rw s (
                  subst (λ z. Chain (update nexts a null) (nexts z) (y ∷ ys)) (sym ax)
                      (Chain-update nexts a null (nexts x) (y ∷ ys) c
                        (subst (λ z. has z (y ∷ ys) ≡ false) (sym ax) d)),
                  t,
                ),
              ),
            ),
          )
      | inr s ↦
          let j : has a (y ∷ ys) ≡ true = ground (arith) in
          let b = before a x (y ∷ ys) in
          let n = ne_null nexts (nexts x) a (y ∷ ys) c j in
          let found =
            find_before-Chain fuel a q.head x nexts (y ∷ ys) (e, (m, (d, c))) n (omega arith) in
          let l : remove a (x ∷ y ∷ ys) ≡ x ∷ remove a (y ∷ ys) = rw s refl in
          let k = unlink-Holds nexts q a x (y ∷ ys) ((e, (m, (d, c))), t) (==→ne a x s) j in
          (
            (unlink b q a nexts).0,
            (
              (unlink b q a nexts).1,
              (
                icb_remove-run fuel b a q nexts n (ap (◌==◌ a) e ∙ s)
                    (found ∙ ap (λ z. some (if z then b else null)) j),
                subst (Holds (unlink b q a nexts).1 (unlink b q a nexts).0) (sym l) k,
              ),
            ),
          )
    ]
