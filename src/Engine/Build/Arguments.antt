-- ===== src/Engine/Build/Arguments.antt =====
-- What the put instructions leave above `st`.
use mlvm.Base.{
  ℕ, zero, suc, ◌+◌, ◌-◌, ◌≤◌, ◌<◌, ◌≡◌, refl, ap, ◌∙◌, arith, ◌==◌, Bool-cases, ne→==, ==-refl,
  inl, inr, ==→eq, ==→ne,
}
use mlvm.Engine.Word.{word}
use mlvm.Engine.Machine.{Machine, control, up, down, od, cell}
use mlvm.Engine.Build.{push, put_val, each, putvals}

-- The cells above `s` from the first to the `n`th hold the variables that the operands of `m`
-- name from the `i`th on, and the cells up to `s` are those of `m`.
pub record Values (m : Machine) (s i n : ℕ) (k : Machine) : Type 0 where
  pub st : k.st ≡ up s n
  pub af : k.af ≡ m.af
  pub pp : k.pp ≡ m.pp
  pub stack : (a : ℕ) → a ≤ s → k.mem a ≡ m.mem a
  pub value : (j : ℕ) → j < n → k.mem (up s (j + 1)) ≡ m.mem (cell (od (i + j) m) m)

pub each-Values :
    (n i : ℕ) (m : Machine)
    → up m.pp (i + n) ≤ m.st + word
    → m.af ≤ m.st
    → Values m m.st i n (each put_val i n m)
unfolding each put_val push
each-Values zero i m code frame = record {
  st = omega arith;
  af = refl;
  pp = refl;
  stack = λ a g. refl;
  value = λ j g. absurd (omega arith);
}
each-Values (suc n) i m code frame =
    let ih = each-Values n (i + 1) (put_val i m) (omega arith) (omega arith) in
    record {
      st = ih.st ∙ omega arith;
      af = ih.af;
      pp = ih.pp;
      stack = λ a g. ih.stack a (omega arith) ∙ (rw (ne→== a (up m.st 1) (omega arith)) refl);
      value = λ j g. elim (Bool-cases (j == 0)) [
        | inl q ↦
            let z : j ≡ 0 = ==→eq j 0 q in
            let o : i + 0 ≡ i = omega arith in
            rw (z, o) (ih.stack (up m.st 1) (omega arith) ∙ (rw (==-refl (up m.st 1)) refl))
        | inr q ↦
            let p : up m.st (j + 1) ≡ up (up m.st 1) (j - 1 + 1) = omega (arith, ==→ne j 0 q) in
            let o : i + 1 + (j - 1) ≡ i + j = omega (arith, ==→ne j 0 q) in
            rw p (ih.value (j - 1) (omega (arith, ==→ne j 0 q)) ∙ named j g o)
      ];
    }
  where
    below : (a : ℕ) → a ≤ m.st → (put_val i m).mem a ≡ m.mem a
    below a g = rw (ne→== a (up m.st 1) (omega arith)) refl

    named :
        (j : ℕ)
        → j < suc n
        → {l : ℕ} → l ≡ i + j
        → (put_val i m).mem (cell (od l (put_val i m)) (put_val i m))
          ≡ m.mem (cell (od (i + j) m) m)
    named j g o =
        rw (o, below (up m.pp (i + j)) (omega arith))
          (below (down m.af (od (i + j) m)) (omega arith))

-- `put2val` to `put8val`, and their like for any number: the next instruction has the `n` named
-- variables in order above the stack, which is `n` words higher and otherwise as it was. The
-- operands lie in the stack or below it, and so does the frame.
pub putvals-arguments :
    (n : ℕ) (m : Machine)
    → up m.pp n ≤ m.st
    → m.af ≤ m.st
    → (k : Machine) × ((putvals n m ≡ control (record k { pp = up m.pp (n + 1) }))
        × Values m m.st 1 n k)
unfolding putvals
putvals-arguments n m code frame =
    let v = each-Values n 1 m (omega arith) frame in
    (
      each put_val 1 n m,
      (ap (λ p. control (record (each put_val 1 n m) { pp = up p (n + 1) })) v.pp, v),
    )
