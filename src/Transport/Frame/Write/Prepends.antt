-- ===== src/Transport/Frame/Write/Prepends.antt =====
-- What the writers of transport/frame.c do to the bytes of a list of frames.
use mlvm.Base.{
  ℕ, zero, suc, ◌+◌, ◌-◌, ◌≤◌, ◌<◌, ◌≡◌, ◌≢◌, refl, ap, subst, ◌∙◌, ◌⊎◌, inl, inr, false, Option,
  none, some, List, [], ◌∷◌, ◌++◌, reverse, reverse_aux, reverse-reverse, arith, ◌==◌, length,
  update, slice, slice-update_lt, Bool-cases, length-reverse, reverse_aux-eq, ==→ne, tests,
}
use mlvm.Transport.Frame.{Frame, Pool, new, free, bytes, contents, IsValid, acquire}
use mlvm.Transport.Frame.Write.{
  Status, written, low_memory, out_of_fuel, fill, room, undo, write_rounds, write_string,
}

-- One byte put in front of a frame's bytes.
bytes-put :
    (n : ℕ) (f : Frame) (b : ℕ)
    → f.top < n
    → f.top ≢ 0
    → bytes n (record f { top = f.top - 1; fc = update f.fc f.top b }) ≡ b ∷ bytes n f
bytes-put n f b h p =
    let e : f.top - 1 + 1 ≡ f.top = omega arith in
    let d : n - f.top ≡ suc (n - (f.top + 1)) = omega arith in
    rw (e, d) (ground (arith, slice-update_lt f.fc f.top (f.top + 1) (n - (f.top + 1)) b))

-- `fill` moves bytes from the string to the frame, and stops only at a full frame or at the end.
pub record Filled (n : ℕ) (bs : List ℕ) (f : Frame) (rest : List ℕ) (f' : Frame) : Type 0 where
  pub moved : (c : List ℕ) → reverse_aux rest (bytes n f' ++ c) ≡ reverse_aux bs (bytes n f ++ c)
  pub small : f'.top < n
  pub counted : length rest + f.top ≡ length bs + f'.top
  pub stopped : rest ≢ [] → f'.top ≡ 0

pub fill-Filled :
    (n : ℕ) (bs : List ℕ) (f : Frame)
    → f.top < n
    → let (rest, f') = fill bs f in Filled n bs f rest f'
unfolding fill
fill-Filled n [] f h = record {
  moved = λ c. refl;
  small = h;
  counted = refl;
  stopped = λ q. absurd (q refl);
}
fill-Filled n (b ∷ bs) f h = elim (Bool-cases (f.top == 0)) [
  | inl e ↦
      rw e (record { moved = λ c. refl; small = h; counted = refl; stopped = λ q. ground arith })
  | inr e ↦ rw e (
      step e
        (fill-Filled n bs (record f { top = f.top - 1; fc = update f.fc f.top b }) (omega arith)))
]
  where
    put : Frame
    put = record f { top = f.top - 1; fc = update f.fc f.top b }

    step :
        (f.top == 0) ≡ false
        → Filled n bs put (fill bs put).0 (fill bs put).1
        → Filled n (b ∷ bs) f (fill bs put).0 (fill bs put).1
    step e r = record {
      moved = λ c. r.moved c ∙ ap (λ l. reverse_aux bs (l ++ c)) (bytes-put n f b h (==→ne _ _ e));
      small = r.small;
      counted = omega (tests, r.counted, ==→ne _ _ e);
      stopped = r.stopped;
    }

-- What `room` finds: nothing, and then the list is as before, or a frame with room in front of a
-- list that together hold the same bytes.
abbrev pub Ready : (n : ℕ) → List Frame → List Frame → Option Frame → Type 0
Ready n lt fs none = fs ≡ lt
Ready n lt fs (some f) =
    (f.top < n) × (f.top ≢ 0) × IsValid n fs × (bytes n f ++ contents n fs ≡ contents n lt)

new-Ready : (n : ℕ) (lt : List Frame) (p : Pool) → 2 ≤ n → IsValid n lt → Ready n lt lt (new n p).0
unfolding new
new-Ready n lt p h v = elim (Bool-cases (acquire p.free_frame p.mallocs p).0) [
  | inl e ↦ rw e (omega arith, omega arith, v, fresh)
  | inr e ↦ rw e refl
]
  where
    fresh : slice {A = ℕ} (λ _. 0) (n - 1 + 1) (n - (n - 1 + 1)) ++ contents n lt ≡ contents n lt
    fresh = let e : n - (n - 1 + 1) ≡ 0 = omega arith in rw e

pub room-Ready :
    (n : ℕ) (lt : List Frame) (p : Pool)
    → 2 ≤ n
    → IsValid n lt
    → Ready n lt (room n lt p).1 (room n lt p).0
unfolding room
room-Ready n [] p h v = new-Ready n [] p h v
room-Ready n (f ∷ fs) p h v = elim (Bool-cases (f.top == 0)) [
  | inl e ↦ rw e (new-Ready n (f ∷ fs) p h v)
  | inr e ↦ rw e (v.0, ==→ne _ _ e, v.1, refl)
]

pub undo-IsValid :
    (n w : ℕ) (lt : List Frame) (p : Pool) → IsValid n lt → IsValid n (undo n w lt p).0
unfolding undo
undo-IsValid n w [] p v = tt
undo-IsValid n w (f ∷ fs) p v = ground (arith, undo-IsValid n (w - (n - f.top)) fs (free f p) v.1)

-- The string stands in front of what was there, or memory has run out; the rounds never do.
abbrev pub Wrote : (n total : ℕ) → List ℕ → Status × List Frame × Pool → Type 0
Wrote n total target (written k, lt, p) = (k ≡ total) × IsValid n lt × (contents n lt ≡ target)
Wrote n total target (low_memory, lt, p) = IsValid n lt
Wrote n total target (out_of_fuel, lt, p) = ⊥

List-cases {ℓ} : {A : Type ℓ} (l : List A) → (l ≡ []) ⊎ ((a : A) × (r : List A) × (l ≡ a ∷ r))
List-cases [] = inl refl
List-cases (a ∷ r) = inr (a, r, refl)

write_rounds-Wrote :
    (n total k : ℕ) (rest : List ℕ) (lt : List Frame) (p : Pool)
    → 2 ≤ n
    → IsValid n lt
    → length rest < k
    → Wrote n total (reverse_aux rest (contents n lt)) (write_rounds n total k rest lt p)
unfolding write_rounds
write_rounds-Wrote n total zero rest lt p h v lt_k = elim lt_k [ ]
write_rounds-Wrote n total (suc k) rest lt p h v lt_k =
    (elim (room n lt p).0 as (λ o. Ready n lt fs o → Wrote n total target (round o)) [
      | none ↦ λ e. undo-IsValid n (total - length rest) fs p' (rw e v)
      | some f ↦ λ r.
          (elim (fill rest f).0
              as (λ q.
                Filled n rest f q (fill rest f).1
                → Wrote n total target (rounds q (fill rest f).1)) [
                  | [] ↦ λ q.
                      (refl, (q.small, r.2), q.moved (contents n fs) ∙ ap (reverse_aux rest) r.3)
                  | b ∷ bs ↦ λ q.
                      subst (λ t. Wrote n total t (rounds (b ∷ bs) (fill rest f).1))
                        (q.moved (contents n fs) ∙ ap (reverse_aux rest) r.3)
                        (write_rounds-Wrote n total k (b ∷ bs) ((fill rest f).1 ∷ fs) p' h
                          (q.small, r.2) (shorter f b bs (fill rest f).1 q (r.1)))
                ])
            (fill-Filled n rest f r.0)
    ])
      (room-Ready n lt p h v)
  where
    target : List ℕ
    target = reverse_aux rest (contents n lt)

    fs : List Frame
    fs = (room n lt p).1

    p' : Pool
    p' = (room n lt p).2

    rounds : List ℕ → Frame → Status × List Frame × Pool
    rounds q f' = elim q [
      | [] ↦ (written total, f' ∷ fs, p')
      | b ∷ bs ↦ write_rounds n total k (b ∷ bs) (f' ∷ fs) p'
    ]

    round : Option Frame → Status × List Frame × Pool
    round o = elim o [
      | none ↦ (
        low_memory,
        (undo n (total - length rest) fs p').0,
        (undo n (total - length rest) fs p').1,
      )
      | some f ↦ rounds (fill rest f).0 (fill rest f).1
    ]

    shorter :
        (f : Frame) (b : ℕ) (bs : List ℕ) (f' : Frame)
        → Filled n rest f (b ∷ bs) f'
        → f.top ≢ 0
        → length (b ∷ bs) < k
    shorter f b bs f' q p = omega (arith, q.counted, q.stopped (λ z. cc), p, lt_k)

-- The bytes of a successful `frame_write_string` stand in front of those that were there, in
-- their order. There is no third outcome beside success and want of memory.
pub write_string-Wrote :
    (n : ℕ) (st : List ℕ) (lt : List Frame) (p : Pool)
    → 2 ≤ n
    → IsValid n lt
    → Wrote n (length st) (st ++ contents n lt) (write_string n st lt p)
unfolding write_string
write_string-Wrote n st lt p h v =
    subst (λ t. Wrote n (length st) t (write_string n st lt p))
      (reverse_aux-eq (reverse st) (contents n lt)
        ∙ ap (λ l. l ++ contents n lt) (reverse-reverse st))
      (write_rounds-Wrote n (length st) (suc (length st)) (reverse st) lt p h v
        (omega (arith, length-reverse st)))
