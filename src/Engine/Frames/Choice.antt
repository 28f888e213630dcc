-- ===== src/Engine/Frames/Choice.antt =====
-- The choice frame that make_cframe of include/engine.h makes.
use mlvm.Base.{
  ℕ, zero, suc, ◌+◌, ◌-◌, ◌*◌, ◌≤◌, ◌≡◌, refl, ◌∙◌, inl, inr, arith, ◌==◌, Bool-cases, ==→eq, ==→ne,
  ne→==, update, ==-refl,
}
use mlvm.Engine.Word.{word}
use mlvm.Engine.Machine.{Machine, down, up, od, tt_of}
use mlvm.Engine.Trail.{new_generation}
use mlvm.Engine.Frames.{choice_size, ccp, mirror, fill_cframe, make_cframe}

-- `mirror` writes the cells above `st`, one for each argument, and no others.
pub mirror_outside : (n af st : ℕ) (mem : ℕ → ℕ) (a : ℕ) → a ≤ st → mirror n af st mem a ≡ mem a
unfolding mirror
mirror_outside zero af st mem a h = refl
mirror_outside (suc n) af st mem a h =
    mirror_outside n (af + word) (st + word) (update mem (st + word) (mem (af + word))) a
      (omega arith)
    ∙ (rw (ne→== a (st + word) (omega arith)))

-- The `i`th cell above `st` holds the `i`th argument, where the arguments lie below `st`.
pub mirror_inside :
    (n af st : ℕ) (mem : ℕ → ℕ) (i : ℕ)
    → up af n ≤ st
    → 1 ≤ i
    → i ≤ n
    → mirror n af st mem (up st i) ≡ mem (up af i)
unfolding mirror
mirror_inside zero af st mem i d h g = absurd (omega arith)
mirror_inside (suc n) af st mem i d h g = elim (Bool-cases (i == 1)) [
  | inl e ↦
      let q : i ≡ 1 = ==→eq i 1 e in
      rw q (
        mirror_outside n (af + word) (st + word) (update mem (st + word) (mem (af + word)))
          (st + word * 1) (omega arith)
        ∙ (rw (==-refl (st + word)) refl))
  | inr e ↦
      let p : up st i ≡ up (st + word) (i - 1) = omega (arith, ==→ne i 1 e) in
      let q : up (af + word) (i - 1) ≡ up af i = omega (arith, ==→ne i 1 e) in
      rw p (
        mirror_inside n (af + word) (st + word) (update mem (st + word) (mem (af + word))) (i - 1)
          (omega (arith, ==→ne i 1 e)) (omega (arith, ==→ne i 1 e)) (omega arith)
        ∙ (rw (q, ne→== (up af i) (st + word) (omega arith)) refl))
]

-- The continuation frame, the code and the arguments lie in the stack or below it.
pub record IsLaidOut (m : Machine) : Type 0 where
  pub frame_in : m.cf ≤ m.st
  pub code_in : up m.pp 2 ≤ m.st
  pub args_in : word * od 1 m ≤ m.st

-- What `make_cframe` has written, below the mirrored arguments.
pub record Filled (m f : Machine) : Type 0 where
  pub at_bb : f.bb ≡ up m.st choice_size
  pub saves_cf : f.mem (up m.st 7) ≡ m.cf
  pub saves_cp : f.mem (up m.st 6) ≡ ccp m
  pub saves_tt : f.mem (up m.st 5) ≡ tt_of m
  pub saves_bb : f.mem (up m.st 4) ≡ m.bb
  pub saves_b0 : f.mem (up m.st 3) ≡ m.b0
  pub saves_bp : f.mem (up m.st 2) ≡ od 2 m
  pub saves_gl : f.mem (up m.st 1) ≡ m.gl
  pub stack_same : (a : ℕ) → a ≤ m.st → f.mem a ≡ m.mem a

pub fill_cframe-Filled : (m : Machine) → IsLaidOut m → Filled m (fill_cframe m)
unfolding fill_cframe
fill_cframe-Filled m h = record {
  at_bb = refl;
  saves_cf = ground arith;
  saves_cp = ground (arith, h.frame_in);
  saves_tt = ground arith;
  saves_bb = ground arith;
  saves_b0 = ground arith;
  saves_bp = ground (arith, h.code_in);
  saves_gl = ground arith;
  stack_same = λ a g. ground arith;
}

-- The machine after `try`, with the trail as it was before its generation line.
abbrev pub framed : Machine → Machine
framed m = record (make_cframe m) { trail = m.trail }

pub record Framed (m k : Machine) : Type 0 where
  pub at_bb : k.bb ≡ up m.st choice_size
  pub base_same : k.trail_base ≡ m.trail_base
  pub cells : (a : ℕ) → a ≤ up m.st choice_size → k.mem a ≡ (fill_cframe m).mem a
  pub args :
      (i : ℕ)
      → 1 ≤ i
      → i ≤ od 1 m
      → k.mem (up (up m.st choice_size) i) ≡ m.mem (up (down m.st (od 1 m)) i)

fill_cframe-base : (m : Machine) → (fill_cframe m).trail_base ≡ m.trail_base
unfolding fill_cframe
fill_cframe-base m = refl

fill_cframe-st : (m : Machine) → (fill_cframe m).st ≡ m.st
unfolding fill_cframe
fill_cframe-st m = refl

fill_cframe-pp : (m : Machine) → (fill_cframe m).pp ≡ m.pp
unfolding fill_cframe
fill_cframe-pp m = refl

pub make_cframe-Framed : (m : Machine) → IsLaidOut m → Framed m (make_cframe m)
unfolding make_cframe new_generation
make_cframe-Framed m h = record {
  at_bb = f.at_bb;
  base_same = fill_cframe-base m;
  cells = λ a g.
      mirror_outside (od 1 (fill_cframe m)) (down (fill_cframe m).st (od 1 (fill_cframe m)))
        (fill_cframe m).bb (fill_cframe m).mem a (omega (arith, f.at_bb, g));
  args = λ i g g'. inside i g g';
}
  where
    f : Filled m (fill_cframe m)
    f = fill_cframe-Filled m h

    count : od 1 (fill_cframe m) ≡ od 1 m
    count = rw (fill_cframe-pp m) (f.stack_same (up m.pp 1) (omega (arith, h.code_in)))

    inside :
        (i : ℕ)
        → 1 ≤ i
        → i ≤ od 1 m
        → mirror
            (od 1 (fill_cframe m))
            (down (fill_cframe m).st (od 1 (fill_cframe m)))
            (fill_cframe m).bb
            (fill_cframe m).mem
            (up (up m.st choice_size) i)
          ≡ m.mem (up (down m.st (od 1 m)) i)
    inside i g g' =
        rw (count, fill_cframe-st m, f.at_bb)
          (mirror_inside (od 1 m) (down m.st (od 1 m)) (up m.st choice_size) (fill_cframe m).mem i
              (omega (arith, h.args_in)) g g'
            ∙ f.stack_same (up (down m.st (od 1 m)) i) (omega (arith, h.args_in, g')))
