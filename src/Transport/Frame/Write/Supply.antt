-- ===== src/Transport/Frame/Write/Supply.antt =====
-- frame_write_string does not fail while frames can be had.
use mlvm.Base.{
  ℕ, zero, suc, ◌+◌, ◌≤◌, ◌<◌, ◌≡◌, ◌≢◌, ◌-◌, refl, ap, inl, inr, Bool, true, false, Option, none,
  some, List, [], ◌∷◌, ◌++◌, reverse, length-reverse, arith, ◌==◌, length, Bool-cases,
}
use mlvm.Transport.Frame.{Frame, Pool, new, acquire, grow, contents, IsValid}
use mlvm.Transport.Frame.Write.{
  Status, written, low_memory, out_of_fuel, fill, room, undo, write_rounds, write_string,
}
use mlvm.Transport.Frame.Write.Prepends.{
  Ready, room-Ready, Filled, fill-Filled, Wrote, write_string-Wrote,
}

-- The calls of `malloc` that succeed before one fails.
abbrev pub trues : List Bool → ℕ
trues [] = 0
trues (true ∷ ms) = suc (trues ms)
trues (false ∷ ms) = 0

-- The frames that can be had.
abbrev pub supply : Pool → ℕ
supply p = length p.free_frame + trues p.mallocs

pub acquire-supply :
    (fs : List Frame) (ms : List Bool) (p : Pool)
    → p.free_frame ≡ fs
    → p.mallocs ≡ ms
    → 0 < supply p
    → ((acquire fs ms p).0 ≡ true) × (supply p ≡ suc (supply (acquire fs ms p).1))
unfolding acquire grow
acquire-supply (f ∷ fs) ms p e d h = (refl, omega (arith, ap length e))
acquire-supply [] (true ∷ ms) p e d h = (refl, ground (arith, ap length e, ap trues d))
acquire-supply [] (false ∷ ms) p e d h = absurd (omega (arith, ap length e, ap trues d))
acquire-supply [] [] p e d h = absurd (omega (arith, ap length e, ap trues d))

new_supply :
    (n : ℕ) (p : Pool) → 0 < supply p → ((new n p).0 ≢ none) × (supply p ≡ suc (supply (new n p).1))
unfolding new
new_supply n p h =
    let r = acquire-supply p.free_frame p.mallocs p refl refl h in (rw (r.0) (λ e. cc), r.1)

room-supply :
    (n : ℕ) (lt : List Frame) (p : Pool)
    → 0 < supply p
    → ((room n lt p).0 ≢ none) × (supply p ≤ suc (supply (room n lt p).2))
unfolding room
room-supply n [] p h = let r = new_supply n p h in (r.0, omega (arith, r.1))
room-supply n (f ∷ fs) p h =
    let r = new_supply n p h in
    elim (Bool-cases (f.top == 0)) [
      | inl e ↦ rw e (r.0, omega (arith, r.1))
      | inr e ↦ rw e ((λ q. cc), omega arith)
    ]

-- What is left of the supply, after a write of `k` bytes that succeeded.
abbrev Supplied : ℕ → ℕ → ℕ → Status × List Frame × Pool → Type 0
Supplied total s k (r, lt, p) = (r ≡ written total) × (s ≤ supply p + k + 1)

write_rounds-Supplied :
    (n total k : ℕ) (rest : List ℕ) (lt : List Frame) (p : Pool)
    → 2 ≤ n
    → IsValid n lt
    → length rest < k
    → length rest < supply p
    → Supplied total (supply p) (length rest) (write_rounds n total k rest lt p)
unfolding write_rounds
write_rounds-Supplied n total zero rest lt p h v lt_k c = elim lt_k [ ]
write_rounds-Supplied n total (suc k) rest lt p h v lt_k c =
    (elim (room n lt p).0
        as (λ o. Ready n lt fs o → o ≢ none → Supplied total (supply p) (length rest) (round o)) [
          | none ↦ λ r q. absurd (q refl)
          | some f ↦ λ r q.
              (elim (fill rest f).0
                  as (λ q.
                    Filled n rest f q (fill rest f).1
                    → Supplied total (supply p) (length rest) (rounds q (fill rest f).1)) [
                      | [] ↦ λ q. (refl, omega (arith, taken))
                      | b ∷ bs ↦ λ q.
                          let e = shorter f b bs (fill rest f).1 q r.1 in
                          let ih =
                            write_rounds-Supplied n total k (b ∷ bs) ((fill rest f).1 ∷ fs) p' h
                              (q.small, r.2) (omega arith) (omega (arith, taken)) in
                          (ih.0, omega (arith, ih.1, taken))
                    ])
                (fill-Filled n rest f r.0)
        ])
      (room-Ready n lt p h v) (room-supply n lt p (omega arith)).0
  where
    fs : List Frame
    fs = (room n lt p).1

    p' : Pool
    p' = (room n lt p).2

    taken : supply p ≤ suc (supply p')
    taken = (room-supply n lt p (omega arith)).1

    rounds : List ℕ → Frame → Status × List Frame × Pool
    rounds q f' = elim q [
      | [] ↦ (written total, f' ∷ fs, p')
      | b ∷ bs ↦ write_rounds n total k (b ∷ bs) (f' ∷ fs) p'
    ]

    round : Option Frame → Status × List Frame × Pool
    round o = elim o [
      | none ↦ (
        low_memory,
        (undo n (total - length rest) fs p').0,
        (undo n (total - length rest) fs p').1,
      )
      | some f ↦ rounds (fill rest f).0 (fill rest f).1
    ]

    shorter :
        (f : Frame) (b : ℕ) (bs : List ℕ) (f' : Frame)
        → Filled n rest f (b ∷ bs) f'
        → f.top ≢ 0
        → length (b ∷ bs) < length rest
    shorter f b bs f' q p = omega (arith, q.counted, q.stopped (λ z. cc), p)

pub write_string-supply :
    (n : ℕ) (st : List ℕ) (lt : List Frame) (p : Pool)
    → 2 ≤ n
    → IsValid n lt
    → length st < supply p
    → ((write_string n st lt p).0 ≡ written (length st))
      × (supply p ≤ supply (write_string n st lt p).2 + length st + 1)
unfolding write_string
write_string-supply n st lt p h v c =
    let r =
      write_rounds-Supplied n (length st) (suc (length st)) (reverse st) lt p h v
        (omega (arith, length-reverse st)) (omega (arith, length-reverse st)) in
    (r.0, omega (arith, r.1, length-reverse st))

-- While more frames can be had than the string has bytes, `frame_write_string` succeeds: its
-- result is the length, and the string stands in front of the bytes that were there.
pub write_string-prepends :
    (n : ℕ) (st : List ℕ) (lt : List Frame) (p : Pool)
    → 2 ≤ n
    → IsValid n lt
    → length st < supply p
    → let (s, lt', p') = write_string n st lt p in
      (s ≡ written (length st)) × (contents n lt' ≡ st ++ contents n lt) × IsValid n lt'
write_string-prepends n st lt p h v c =
    (elim (write_string n st lt p).0
        as (λ s.
          s ≡ written (length st)
          → Wrote n (length st) (st ++ contents n lt) (s, lt', (write_string n st lt p).2)
          → (s ≡ written (length st)) × (contents n lt' ≡ st ++ contents n lt) × IsValid n lt') [
            | written k ↦ λ e w. (e, w.2, w.1)
            | low_memory ↦ λ e. cc
            | out_of_fuel ↦ λ e. cc
          ])
      (write_string-supply n st lt p h v c).0 (write_string-Wrote n st lt p h v)
  where
    lt' : List Frame
    lt' = (write_string n st lt p).1
