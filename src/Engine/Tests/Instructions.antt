-- ===== src/Engine/Tests/Instructions.antt =====
-- The theorems on structures, arithmetic, hashing and comparison at a small memory.
use mlvm.Base.{
  ℕ, ◌+◌, ◌*◌, ◌%◌, ◌^◌, ◌≡◌, refl, inl, inr, Bool, true, false, [], arith, ltb, ◌==◌,
  if◌then◌else◌,
}
use mlvm.Engine.Word.{is_int}
use mlvm.Engine.Number.{plus, apply, int_value}
use mlvm.Engine.Machine.{Machine, store, up, next, jump}
use mlvm.Engine.Unify.{chase, deref}
use mlvm.Engine.Structure.{getstr}
use mlvm.Engine.Structure.Reads.{Got, getstr-Got}
use mlvm.Engine.Arithmetic.{Doubles, Comparison, below, above, int_test, ari_cpu}
use mlvm.Engine.Arithmetic.Integers.{ari_cpu-int}
use mlvm.Engine.Branch.{hash_key, probe, hashing}
use mlvm.Engine.Branch.Probes.{Probed, hashing-Probed}
use mlvm.Engine.Compare.{compare_words}
use mlvm.Engine.Compare.Atomic.{mirrored, compare_words-mirrored}

-- The functor of two arguments whose name has the value 200.
abbrev functor : ℕ
functor = 2 ^ 24 + 1600

-- The code is at 40, with the operands 1, 2, 3 and the functor; the frame is at 500, so the
-- operands name the cells 496, 492 and 488. The first cell has the word given. At 300 is a
-- structure, at 320 one of a single letter, and at 600 a table of three entries, which holds the
-- keys 200 and 199 in its first and last entries.
abbrev memory : ℕ → ℕ → ℕ → ℕ
memory first second a =
    if a == 44
    then 1
    else if a == 48
    then second
    else if a == 52
    then 3
    else if a == 56
    then functor
    else if a == 496
    then first
    else if a == 492
    then 59
    else if a == 300
    then functor
    else if a == 304
    then 43
    else if a == 308
    then 59
    else if a == 320
    then 2 ^ 23 + 776
    else if a == 604
    then 3
    else if a == 612
    then 200
    else if a == 616
    then 80
    else if a == 628
    then 199
    else 0

abbrev machine : ℕ → ℕ → Machine
machine first second = record {
  mem = memory first second;
  trail = [];
  trail_base = 4000;
  stack_base = 60;
  pp = 40;
  af = 500;
  cp = 0;
  cf = 60;
  st = 700;
  gp = 0;
  bb = 160;
  b0 = 160;
  gl = 160;
  nl = 0;
  backtracks = 10;
}

getstr-Got_example : Got 3 302 492 (machine 302 2) (getstr 3 (machine 302 2))
unfolding chase
getstr-Got_example = getstr-Got 3 302 (machine 302 2) refl (omega arith) (omega arith)

-- Numbers in place of those of type `double`.
abbrev number_test : Comparison → ℕ → ℕ → Bool
number_test below x y = ltb x y
number_test above x y = ltb y x
number_test c x y = int_test c x y

abbrev numbers : Doubles
numbers = record {
  Double = ℕ;
  of_words = λ a b. a;
  word_1 = λ a. a;
  word_2 = λ a. 0;
  of_int = λ a. a;
  negative_of = λ a. a;
  combine = λ op a b. a + b;
  test = number_test;
}

ari_cpu-int_example :
    (t : ℕ) × ((ari_cpu numbers 3 plus (machine 43 2) ≡ next 4 (store 488 t (machine 43 2)))
      × ((is_int t ≡ true) × (int_value t ≡ 12)))
unfolding apply deref
ari_cpu-int_example =
    ari_cpu-int numbers 3 plus (machine 43 2) 43 59 12 refl refl refl refl refl (inl (omega arith))

hashing-Probed_example :
    (n : ℕ) × (Probed
        (machine 302 600).mem
        612
        3
        200
        2
        n
        (probe 3 (machine 302 600).mem 612 3 200 2)
      × (hashing 3 (machine 302 600)
          ≡ jump
              ((machine 302 600).mem (up (up 612 ((2 + n) % 3 * 2)) 1))
              (record (machine 302 600) { gp = 612 })))
unfolding hash_key deref
hashing-Probed_example =
    hashing-Probed 2 3 (machine 302 600) 302 200 refl refl (omega arith) (omega arith) refl

ltb-asym : (x y : ℕ) → ltb x y ≡ true → ltb y x ≡ false
ltb-asym x y e = ground (arith)

compare_words-mirrored_example :
    compare_words numbers ltb 59 43 [] (machine 43 2)
    ≡ mirrored (compare_words numbers ltb 43 59 [] (machine 43 2))
compare_words-mirrored_example =
    compare_words-mirrored numbers ltb 43 59 (machine 43 2) (λ x y. refl) ltb-asym ltb-asym
      (omega arith) (omega arith) (inr (inr (inl (refl, (refl, refl)))))
      (inr (inr (inl (refl, (refl, refl)))))
