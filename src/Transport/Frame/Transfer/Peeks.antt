-- ===== src/Transport/Frame/Transfer/Peeks.antt =====
-- frame_peek_string against the bytes of the list.
use mathlib.Core.Option
use mlvm.Base.{
  ℕ, zero, suc, ◌+◌, ◌-◌, ◌≤◌, ◌≡◌, ap, ◌∙◌, inl, inr, Option, none, some, List, [], ◌∷◌, ◌++◌, ltb,
  ◌==◌, if◌then◌else◌, arith, length, take, slice, Bool-cases, ==→eq, ==→ne,
}
use mlvm.Transport.Frame.{Frame, contents, IsValid}
use mlvm.Transport.Frame.Transfer.{peek_rounds, peek_string}

-- From index `c` of the first frame: the bytes, or the fault where they do not suffice.
peeked : ℕ → List ℕ → Option (List ℕ)
peeked l c = if ltb (length c) l then none else some (take l c)

peeked-cons : (l b : ℕ) (c : List ℕ) → Option.map (◌∷◌ b) (peeked l c) ≡ peeked (suc l) (b ∷ c)
unfolding peeked
peeked-cons l b c = ground arith

peek_rounds-peeked :
    (n c l : ℕ) (f : Frame) (fs : List Frame)
    → c ≤ n
    → IsValid n fs
    → peek_rounds n c l (f ∷ fs) ≡ peeked l (slice f.fc c (n - c) ++ contents n fs)
unfolding peek_rounds peeked
peek_rounds-peeked n c zero f fs h v = ground arith
peek_rounds-peeked n c (suc l) f [] h v = elim (Bool-cases (c == n)) [
  | inl e ↦ let z : n - c ≡ 0 = omega (arith, ==→eq _ _ e) in rw (e, peek_rounds, z) (ground arith)
  | inr e ↦
      let z : n - c ≡ suc (n - (c + 1)) = omega (arith, ==→ne _ _ e) in
      rw (e, peek_rounds, z)
        (ap (Option.map (◌∷◌ (f.fc c)))
            (peek_rounds-peeked n (c + 1) l f [] (omega (arith, ==→ne _ _ e)) v)
          ∙ peeked-cons l (f.fc c) (slice f.fc (c + 1) (n - (c + 1)) ++ []))
]
peek_rounds-peeked n c (suc l) f (g ∷ gs) h v = elim (Bool-cases (c == n)) [
  | inl e ↦
      let z : n - c ≡ 0 = omega (arith, ==→eq _ _ e) in
      rw (e, peek_rounds, z)
        (peek_rounds-peeked n (g.top + 1) (suc l) g gs (omega (arith, v.0)) v.1)
  | inr e ↦
      let z : n - c ≡ suc (n - (c + 1)) = omega (arith, ==→ne _ _ e) in
      rw (e, peek_rounds, z)
        (ap (Option.map (◌∷◌ (f.fc c)))
            (peek_rounds-peeked n (c + 1) l f (g ∷ gs) (omega (arith, ==→ne _ _ e)) v)
          ∙ peeked-cons l (f.fc c) (slice f.fc (c + 1) (n - (c + 1)) ++ contents n (g ∷ gs)))
]

-- On a list with a frame, `frame_peek_string` gives the first `l` bytes where the list holds as
-- many; where it holds fewer, the walk goes on behind the last frame and reads through NULL.
pub peek_string_lem :
    (n l : ℕ) (f : Frame) (fs : List Frame)
    → IsValid n (f ∷ fs)
    → peek_string n l (f ∷ fs)
      ≡ (if ltb (length (contents n (f ∷ fs))) l then none else some (take l (contents n (f ∷ fs))))
unfolding peek_string peeked
peek_string_lem n l f fs v = peek_rounds-peeked n (f.top + 1) l f fs (omega (arith, v.0)) v.1
