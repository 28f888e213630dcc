-- ===== src/System/Queue/Pool/Blocks.antt =====
-- What the pools of system/queue.c hold, and what is found among the live logs.
use mlvm.Base.{
  ℕ, zero, suc, ◌+◌, ◌-◌, ◌<◌, ◌≡◌, ◌≢◌, refl, sym, subst, ◌∙◌, Bool, false, none, some, List, [],
  ◌∷◌, ◌==◌, if◌then◌else◌, update, length, arith, ne→==, Bool-cases, inl, inr,
}
use mlvm.System.Queue.{null, Nexts, Queue, icb_first, icb_insert}
use mlvm.System.Queue.Chain.{has, last, Chain, update_self}
use mlvm.System.Queue.Refines.{Holds, icb_first-none, icb_first-Holds, icb_insert-Holds}
use mlvm.System.Queue.Pool.{
  Status, imago_ready, imago_invalid, link, icb_init, icb_new, icb_free, log_new, find_log,
}

-- The records of a block.
unfoldable pub consecutive : ℕ → ℕ → List ℕ
consecutive zero block = []
consecutive (suc k) block = block ∷ consecutive k (block + 1)

has-consecutive : (k j block : ℕ) → j < block → has j (consecutive k block) ≡ false
unfolding consecutive
has-consecutive zero j block h = refl
has-consecutive (suc k) j block h = ground (arith, has-consecutive k j (block + 1))

link-below : (k temp j : ℕ) (nexts : Nexts) → j < temp → (link k temp nexts).1 j ≡ nexts j
unfolding link
link-below zero temp j nexts h = ground (arith)
link-below (suc k) temp j nexts h =
    link-below k (temp + 1) j (update nexts temp (temp + 1)) (omega arith) ∙ ground (arith)

link-Chain :
    (k temp : ℕ) (nexts : Nexts)
    → temp ≢ null
    → Chain (link k temp nexts).1 temp (consecutive (suc k) temp)
unfolding link consecutive
link-Chain zero temp nexts n = (refl, (n, (refl, update_self nexts temp null)))
link-Chain (suc k) temp nexts n =
    let rest = link-Chain k (temp + 1) (update nexts temp (temp + 1)) (λ e. ground (arith, e)) in
    let kept = link-below k (temp + 1) temp (update nexts temp (temp + 1)) (omega arith) in
    (
      refl,
      (
        n,
        (
          has-consecutive (suc k) temp (temp + 1) (omega arith),
          subst (λ p. Chain (link (suc k) temp nexts).1 p (consecutive (suc k) (temp + 1)))
              (sym (kept ∙ update_self nexts temp (temp + 1))) rest,
        ),
      ),
    )

link-last :
    (k temp : ℕ) (nexts : Nexts) → (link k temp nexts).0 ≡ last temp (consecutive k (temp + 1))
unfolding link consecutive
link-last zero temp nexts = refl
link-last (suc k) temp nexts = link-last k (temp + 1) (update nexts temp (temp + 1))

-- icb_init with memory: the pool holds every record of the block.
pub icb_init-Holds :
    (k block : ℕ) (nexts : Nexts)
    → block ≢ null
    → (q : Queue) × ((nexts' : Nexts) × ((icb_init (suc k) block nexts ≡ some (q, nexts'))
          × Holds nexts' q (consecutive (suc k) block)))
unfolding icb_init consecutive
icb_init-Holds k block nexts n =
    let z : suc k - 1 ≡ k = omega arith in
    (
      record { head = block; tail = (link k block nexts).0 },
      (
        (link k block nexts).1,
        (rw (ne→== block null n, z) refl, (link-Chain k block nexts n, link-last k block nexts)),
      ),
    )

-- What the pool of log records holds after log_new.
unfoldable pub rest_of_pool : ℕ → ℕ → List ℕ → List ℕ
rest_of_pool k block [] = consecutive k (block + 1)
rest_of_pool k block (x ∷ xs) = xs

unfoldable pub first_of_pool : ℕ → List ℕ → ℕ
first_of_pool block [] = block
first_of_pool block (x ∷ xs) = x

-- The pool behind the first record of a new block.
pub block-Holds :
    (k block : ℕ) (nexts : Nexts)
    → block ≢ null
    → Holds
        (link k block nexts).1
        (record { head = (link k block nexts).1 block; tail = (link k block nexts).0 })
        (consecutive k (block + 1))
unfolding consecutive
block-Holds zero block nexts n = (link-Chain zero block nexts n).1.1.1
block-Holds (suc k) block nexts n =
    ((link-Chain (suc k) block nexts n).1.1.1, link-last (suc k) block nexts)

-- Where `malloc` gives memory log_new gives a record, the first of the pool or, where that is
-- empty, the first of a new block, and the others stay in the pool.
pub log_new-Holds :
    (k block : ℕ) (nexts : Nexts) (q : Queue) (xs : List ℕ)
    → block ≢ null
    → Holds nexts q xs
    → (q' : Queue) × ((nexts' : Nexts) × ((log_new (suc k) block q nexts
            ≡ some (first_of_pool block xs, (q', nexts')))
          × Holds nexts' q' (rest_of_pool k block xs)))
unfolding log_new rest_of_pool first_of_pool
log_new-Holds k block nexts q [] n h =
    let z : suc k - 1 ≡ k = omega arith in
    (
      record { head = (link k block nexts).1 block; tail = (link k block nexts).0 },
      ((link k block nexts).1, (rw (h, ne→== block null n, z) refl, block-Holds k block nexts n)),
    )
log_new-Holds k block nexts q (x ∷ xs) n h =
    let (e, g) = icb_first-Holds nexts q x xs h in
    (
      (icb_first q nexts).1,
      (
        nexts,
        (
          elim (Bool-cases (nexts x == null)) [
            | inl s ↦ rw (h.0.0, ne→== x null h.0.1.0, s) refl
            | inr s ↦ rw (h.0.0, ne→== x null h.0.1.0, s) refl
          ],
          g,
        ),
      ),
    )

-- icb_new gives the first ICB of the pool, ready, and reads through NULL where there is none.
pub icb_new-none :
    (nexts : Nexts) (q : Queue) (status : ℕ → Status)
    → Holds nexts q []
    → icb_new q nexts status ≡ none
unfolding icb_new
icb_new-none nexts q status h = rw (icb_first-none nexts q h) refl

pub icb_new-icb_free :
    (nexts : Nexts) (q : Queue) (status : ℕ → Status) (a : ℕ) (xs : List ℕ)
    → Holds nexts q xs
    → a ≢ null
    → has a xs ≡ false
    → (q' : Queue) × ((icb_new
            (icb_free q a nexts status).0.0
            (icb_free q a nexts status).0.1
            (icb_free q a nexts status).1
          ≡ some (a, (q', update (update status a imago_invalid) a imago_ready)))
        × Holds (icb_free q a nexts status).0.1 q' xs)
unfolding icb_new icb_free
icb_new-icb_free nexts q status a xs h n out =
    let k = icb_insert-Holds nexts q a xs h n out in
    let (e, g) = icb_first-Holds (icb_insert q a nexts).1 (icb_insert q a nexts).0 a xs k in
    (
      (icb_first (icb_insert q a nexts).0 (icb_insert q a nexts).1).1,
      (rw (e, ne→== a null n) refl, g),
    )

-- The first record of the list that passes the test.
unfoldable pub first_where : (ℕ → Bool) → List ℕ → ℕ
first_where found [] = null
first_where found (x ∷ xs) = if found x then x else first_where found xs

pub find_log-first_where :
    (k : ℕ) (found : ℕ → Bool) (p : ℕ) (nexts : Nexts) (xs : List ℕ)
    → Chain nexts p xs
    → length xs < k
    → find_log k found p nexts ≡ some (first_where found xs)
unfolding find_log first_where
find_log-first_where zero found p nexts xs c f = elim f [ ]
find_log-first_where (suc k) found p nexts [] c f = rw c refl
find_log-first_where (suc k) found p nexts (x ∷ xs) (e, (m, (d, c))) f =
    let rest = find_log-first_where k found (nexts x) nexts xs c (omega arith) in
    elim (Bool-cases (found x)) [
      | inl s ↦ rw (e, ne→== x null m, s) refl
      | inr s ↦ rw (e, ne→== x null m, s) rest
    ]
