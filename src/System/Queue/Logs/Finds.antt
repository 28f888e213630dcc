-- ===== src/System/Queue/Logs/Finds.antt =====
-- What log_find of system/queue.c finds.
use mlvm.Base.{
  ℕ, zero, suc, ◌+◌, ◌<◌, ◌≡◌, refl, sym, ap, ◌∙◌, inl, inr, Bool, true, false, some, List, [], ◌∷◌,
  ◌++◌, ◌==◌, arith, Bool-cases, length, length-append, ==→eq, ==-refl, ne→==,
}
use mlvm.System.Queue.{null, empty, Queue, Nexts, icb_first}
use mlvm.System.Queue.Chain.{Chain, has}
use mlvm.System.Queue.Refines.{Holds, icb_append-Holds}
use mlvm.System.Queue.Pool.{find_log, log_new}
use mlvm.System.Queue.Logs.{
  Imago, Logs, log_alive, append_log, alive_log, write_log, is_log, log_find,
}

has-behind : (r y : ℕ) (ys : List ℕ) → has r ys ≡ true → has r (y ∷ ys) ≡ true
has-behind r y ys h = ground arith

has-end : (x : ℕ) (ys : List ℕ) → has x (ys ++ (x ∷ [])) ≡ true
has-end x [] = ground arith
has-end x (y ∷ ys) = has-behind x y (ys ++ (x ∷ [])) (has-end x ys)

-- Along a chain with a record that passes the test, the loop ends at a record that does.
find_log-finds :
    (fuel p x : ℕ) (found : ℕ → Bool) (nexts : Nexts) (xs : List ℕ)
    → Chain nexts p xs
    → length xs < fuel
    → has x xs ≡ true
    → found x ≡ true
    → (r : ℕ) × (find_log fuel found p nexts ≡ some r) × (found r ≡ true) × (has r xs ≡ true)
unfolding find_log
find_log-finds zero p x found nexts xs c l h f = absurd (omega (arith, l))
find_log-finds (suc fuel) p x found nexts [] c l h f = absurd (cc)
find_log-finds (suc fuel) p x found nexts (y ∷ ys) c l h f = elim (Bool-cases (found y)) [
  | inl e ↦ rw (c.0, ne→== y null c.1.0, e, find_log) (y, refl, e, rw (==-refl y))
  | inr e ↦
      let behind : has x ys ≡ true = elim (Bool-cases (x == y)) [
        | inl s ↦ cc (ap found (==→eq x y s))
        | inr s ↦ rw s at h
      ] in
      let (r, q, g, i) =
        find_log-finds fuel (nexts y) x found nexts ys c.1.1.1 (omega (arith, l)) behind f in
      rw (c.0, ne→== y null c.1.0, e, find_log, q) (r, refl, g, has-behind r y ys i)
]

find_log-Holds :
    (fuel x : ℕ) (found : ℕ → Bool) (nexts : Nexts) (q : Queue) (ys : List ℕ)
    → Holds nexts q (ys ++ (x ∷ []))
    → length ys + 1 < fuel
    → found x ≡ true
    → (r : ℕ) × (find_log fuel found q.head nexts ≡ some r)
      × (found r ≡ true)
      × (has r (ys ++ (x ∷ [])) ≡ true)
find_log-Holds fuel x found nexts q [] h l f =
    find_log-finds fuel q.head x found nexts (x ∷ []) h.0 (omega (arith, l)) (has-end x []) f
find_log-Holds fuel x found nexts q (y ∷ ys) h l f =
    find_log-finds fuel q.head x found nexts (y ∷ ys ++ (x ∷ [])) h.0
      (omega (arith, l, length-append ys (x ∷ []))) (has-end x (y ∷ ys)) f

-- The record that log_new takes from a pool that is not empty.
log_new-first :
    (max_imagoes block : ℕ) (q : Queue) (nexts : Nexts) (x : ℕ) (xs : List ℕ)
    → Holds nexts q (x ∷ xs)
    → log_new max_imagoes block q nexts ≡ some (x, ((icb_first q nexts).1, nexts))
unfolding log_new
log_new-first max_imagoes block q nexts x xs h =
    let full : (q.head == null) ≡ false = ne→== q.head null (λ e. h.0.1.0 (sym h.0.0 ∙ e)) in
    elim (Bool-cases (nexts q.head == null)) [
      | inl e ↦ rw (full, e) (ap (λ y. some (y, (empty, nexts))) h.0.0)
      | inr e ↦ rw (full, e) (ap (λ y. some (y, (record q { head = nexts q.head }, nexts))) h.0.0)
    ]

-- Where the pool has a record, which is not among the live logs: log_alive for an imago without a log
-- puts the first record of the pool, with the values of the imago, at the end of the live logs; and
-- log_find for the host, the application and the name of the imago, with more fuel than there are
-- live logs, finds a live log with these, where each name is the same as itself.
pub log_find-log_alive :
    {N : Type 0} (same : N → N → Bool) (max_imagoes block ip now fuel : ℕ) (im : Imago N)
    (s : Logs N) (x : ℕ) (xs ys : List ℕ)
    → ((n : N) → same n n ≡ true)
    → Holds s.nexts s.free_logs (x ∷ xs)
    → Holds s.nexts s.live_logs ys
    → has x ys ≡ false
    → length ys + 1 < fuel
    → (s' : Logs N) × (log_alive max_imagoes block null ip now im s ≡ some (x, s'))
      × (s'.records x ≡ alive_log ip now im)
      × Holds s'.nexts s'.live_logs (ys ++ (x ∷ []))
      × ((r : ℕ) × (log_find fuel same im.queen_host_id im.application (some im.name) s' ≡ some r)
          × (is_log same im.queen_host_id im.application (some im.name) (s'.records r) ≡ true)
          × (has r (ys ++ (x ∷ [])) ≡ true))
unfolding log_alive append_log log_find
log_find-log_alive same max_imagoes block ip now fuel im s x xs ys refl_same pool live out l =
    let (q, (nexts, (run, holds))) =
      icb_append-Holds s.nexts s.live_logs x ys live pool.0.1.0 out in
    let s' : Logs _ = record (write_log x (alive_log ip now im) s) {
      free_logs = (icb_first s.free_logs s.nexts).1;
      live_logs = q;
      nexts = nexts;
    } in
    let written : s'.records x ≡ alive_log ip now im = rw (==-refl x) in
    let hit : is_log same im.queen_host_id im.application (some im.name) (s'.records x) ≡ true =
      rw (==-refl x, ==-refl im.queen_host_id, ==-refl im.application) (refl_same im.name) in
    (
      s',
      rw (log_new-first max_imagoes block s.free_logs s.nexts x xs pool, append_log, run),
      written,
      holds,
      find_log-Holds fuel x
          (λ p. is_log same im.queen_host_id im.application (some im.name) (s'.records p)) nexts q
          ys holds l hit,
    )
