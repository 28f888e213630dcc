-- ===== src/Transport/Frame/Read/Takes.antt =====
-- What the readers of transport/frame.c take from the bytes of a list of frames.
use mlvm.Base.{
  ℕ, zero, suc, ◌+◌, ◌-◌, ◌≤◌, ◌<◌, ◌≡◌, refl, ap, sym, ◌∙◌, ◌⊎◌, inl, inr, false, List, [], ◌∷◌,
  ◌++◌, ltb, leb, ◌==◌, arith, length, take, drop, take-append_le, take_all, drop-append_le,
  take-append_ge, drop-append_ge, length-slice, min, Bool-cases, ltb→lt, ltb→le, leb→le, leb→lt,
  ==→eq, length-append,
}
use mlvm.Transport.Frame.{Frame, Pool, free, bytes, contents, IsValid}
use mlvm.Transport.Frame.Read.{drain, read_rounds, read_string_aux, read_string}

-- One run of the inner loop, with no stop byte.
record Drained (n l : ℕ) (f : Frame) (bs : List ℕ) (l' : ℕ) (f' : Frame) : Type 0 where
  taken : bs ≡ take l (bytes n f)
  left : bytes n f' ≡ drop l (bytes n f)
  small : f'.top < n
  moved : f'.top + l' ≡ f.top + l
  ended : (l' ≡ 0) ⊎ (f'.top + 1 ≡ n)

drain-Drained :
    (n l : ℕ) (f : Frame)
    → f.top < n
    → let (bs, l', f', stop) = drain n false l f in Drained n l f bs l' f' × (stop ≡ false)
unfolding drain
drain-Drained n zero f h =
    (record { taken = refl; left = refl; small = h; moved = refl; ended = inl refl }, refl)
drain-Drained n (suc l) f h = elim (Bool-cases (ltb (f.top + 1) n)) [
  | inl e ↦ rw e (
    more (ltb→lt _ _ e) (drain-Drained n l (record f { top = f.top + 1 }) (ltb→lt _ _ e)).0,
    (drain-Drained n l (record f { top = f.top + 1 }) (ltb→lt _ _ e)).1,
  )
  | inr e ↦ rw e (done (ltb→le _ _ e), refl)
]
  where
    next : Frame
    next = record f { top = f.top + 1 }

    unfold_bytes : f.top + 1 < n → bytes n f ≡ f.fc (f.top + 1) ∷ bytes n next
    unfold_bytes lt = let e : n - (f.top + 1) ≡ suc (n - (f.top + 1 + 1)) = omega arith in rw e

    more :
        f.top + 1 < n
        → Drained n l next
            (drain n false l next).0
            (drain n false l next).1
            (drain n false l next).2
        → Drained n
            (suc l)
            f
            (f.fc (f.top + 1) ∷ (drain n false l next).0)
            (drain n false l next).1
            (drain n false l next).2
    more lt r = record {
      taken = rw (unfold_bytes lt) (ap (◌∷◌ (f.fc (f.top + 1))) r.taken);
      left = rw (unfold_bytes lt) r.left;
      small = r.small;
      moved = omega (arith, r.moved);
      ended = r.ended;
    }

    done : n ≤ f.top + 1 → Drained n (suc l) f [] (suc l) f
    done le =
        let e : n - (f.top + 1) ≡ 0 = omega arith in
        record { taken = rw e; left = rw e; small = h; moved = refl; ended = inr (omega arith) }

-- A read of `l` bytes takes the first ones of the list, and leaves the others.
pub record Taken (n l : ℕ) (lt : List Frame) (bs : List ℕ) (l' : ℕ) (lt' : List Frame)
    : Type 0 where
  pub taken : bs ≡ take l (contents n lt)
  pub left : contents n lt' ≡ drop l (contents n lt)
  pub short : l' ≡ l - length (contents n lt)
  pub valid : IsValid n lt'

module _ (n l : ℕ) (f : Frame) (fs : List Frame) where
  -- Within the first frame.
  Taken-first :
      {bs : List ℕ} (rest : List Frame)
      → IsValid n rest
      → l ≤ length (bytes n f)
      → bs ≡ take l (bytes n f)
      → contents n rest ≡ drop l (bytes n f) ++ contents n fs
      → Taken n l (f ∷ fs) bs 0 rest
  Taken-first rest v h t d = record {
    taken = t ∙ sym (take-append_le l (bytes n f) (contents n fs) h);
    left = d ∙ sym (drop-append_le l (bytes n f) (contents n fs) h);
    short = omega (arith, length-append (bytes n f) (contents n fs));
    valid = v;
  }

  -- Beyond it.
  Taken-next :
      {bs bs' : List ℕ} {l' l'' : ℕ} {rest : List Frame}
      → length (bytes n f) ≤ l
      → l' ≡ l - length (bytes n f)
      → bs ≡ take l (bytes n f)
      → Taken n l' fs bs' l'' rest
      → Taken n l (f ∷ fs) (bs ++ bs') l'' rest
  Taken-next {bs' = bs'} h e t r = record {
    taken =
        ap (λ x. x ++ bs') (t ∙ take_all l (bytes n f) h)
        ∙ ap (λ x. bytes n f ++ x) (r.taken ∙ ap (λ k. take k (contents n fs)) e)
        ∙ sym (take-append_ge l (bytes n f) (contents n fs) h);
    left =
        r.left
        ∙ ap (λ k. drop k (contents n fs)) e
        ∙ sym (drop-append_ge l (bytes n f) (contents n fs) h);
    short = omega (arith, r.short, length-append (bytes n f) (contents n fs));
    valid = r.valid;
  }

read_rounds-Taken :
    (n l : ℕ) (lt : List Frame) (p : Pool)
    → IsValid n lt
    → let (bs, l', lt', p') = read_rounds n false l lt p in Taken n l lt bs l' lt'
unfolding read_rounds
read_rounds-Taken n l [] p v = record {
  taken = nil_take l;
  left = nil_drop l;
  short = omega arith;
  valid = tt;
}
  where
    nil_take : (l : ℕ) → [] ≡ take {A = ℕ} l []
    nil_take zero = refl
    nil_take (suc l) = refl

    nil_drop : (l : ℕ) → [] ≡ drop {A = ℕ} l []
    nil_drop zero = refl
    nil_drop (suc l) = refl
read_rounds-Taken n l (f ∷ fs) p v =
    cases (drain-Drained n l f v.0).0 (drain-Drained n l f v.0).1
      (read_rounds-Taken n (drain n false l f).1 fs (free (drain n false l f).2 p) v.1)
  where
    bs : List ℕ
    bs = (drain n false l f).0

    l' : ℕ
    l' = (drain n false l f).1

    f' : Frame
    f' = (drain n false l f).2

    cases :
        Drained n l f bs l' f'
        → (drain n false l f).3 ≡ false
        → (let (bs', l'', lt', p') = read_rounds n false l' fs (free f' p) in
            Taken n l' fs bs' l'' lt')
        → let (bs', l'', lt', p') = read_rounds n false l (f ∷ fs) p in
          Taken n l (f ∷ fs) bs' l'' lt'
    cases r s ih = elim (Bool-cases (leb n (f'.top + 1))) [
      | inl e ↦ elim (Bool-cases (l' == 0)) [
        | inl z ↦
            rw (e, s, z, ==→eq _ _ z)
              (Taken-first n l f fs fs v.1
                (omega (arith, used, r.moved, leb→le _ _ e, r.small, ==→eq _ _ z)) r.taken
                (ap (λ b. b ++ contents n fs) (sym (gone (leb→le _ _ e)) ∙ r.left)))
        | inr z ↦
            rw (e, s, z)
              (Taken-next n l f fs (omega (arith, used, r.moved, leb→le _ _ e, r.small))
                (omega (arith, used, r.moved, leb→le _ _ e, r.small)) r.taken ih)
      ]
      | inr e ↦
          rw (e, zero_left (leb→lt _ _ e))
            (Taken-first n l f fs (f' ∷ fs) (r.small, v.1)
              (omega (arith, used, r.moved, leb→lt _ _ e, zero_left (leb→lt _ _ e))) r.taken
              (ap (λ b. b ++ contents n fs) r.left))
    ]
      where
        used : length (bytes n f) ≡ n - (f.top + 1)
        used = length-slice f.fc (f.top + 1) (n - (f.top + 1))

        gone : n ≤ f'.top + 1 → bytes n f' ≡ []
        gone h = let e : n - (f'.top + 1) ≡ 0 = omega arith in rw e

        zero_left : f'.top + 1 < n → l' ≡ 0
        zero_left h = elim (r.ended) [ inl z ↦ z | inr z ↦ absurd (omega arith) ]

-- `frame_read_string` gives the first bytes of the list, as many as it is asked for or as there
-- are, and leaves the others; its result is their number.
pub read_string_lem :
    (n l : ℕ) (lt : List Frame) (p : Pool)
    → IsValid n lt
    → let (bs, got, lt', p') = read_string n l lt p in
      (bs ≡ take l (contents n lt))
      × (got ≡ min l (length (contents n lt)))
      × (contents n lt' ≡ drop l (contents n lt))
      × IsValid n lt'
unfolding read_string read_string_aux
read_string_lem n l lt p v =
    let r = read_rounds-Taken n l lt p v in (r.taken, omega (arith, r.short), r.left, r.valid)
