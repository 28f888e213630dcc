-- ===== src/Engine/Machine.antt =====
-- The registers of the engine, the memory of an imago, and how the engine's code ends.
use mlvm.Base.{ℕ, ◌+◌, ◌-◌, ◌*◌, List, length, update, if◌then◌else◌, leb, ◌==◌}
use mlvm.Engine.Word.{word}

-- The registers of `engine`. `mem` is the word at each address of the imago's block, below the
-- trail. The trail grows down from the top of the block: `trail` is the list of its words, the
-- newest first. `backtracks` is `bt` + 1, the calls of `backtrack` before a forced switch.
pub record Machine : Type 0 where
  pub mem : ℕ → ℕ
  pub trail : List ℕ
  pub trail_base : ℕ
  pub stack_base : ℕ
  pub pp : ℕ
  pub af : ℕ
  pub cp : ℕ
  pub cf : ℕ
  pub st : ℕ
  pub gp : ℕ
  pub bb : ℕ
  pub b0 : ℕ
  pub gl : ℕ
  pub nl : ℕ
  pub backtracks : ℕ

-- The statuses that the engine leaves by itself.
pub data Status : Type 0 where
  ready error expansion collection terminate : Status

-- To the label CONTROL, to the label of a context switch with what becomes `plt->status` and
-- `plt->nl`, to an instruction that the model does not hold, or out of the model's rounds.
pub data Outcome : Type 0 where
  control : Machine → Outcome
  switched : Status → ℕ → Machine → Outcome
  elsewhere : ℕ → Machine → Outcome
  out_of_fuel : Outcome

-- E_SUCCEED, E_NO_SOLUTION, E_UNKNOWN_OPCODE
abbrev pub e_succeed : ℕ
e_succeed = 0

abbrev pub e_no_solution : ℕ
e_no_solution = 15

abbrev pub e_unknown_opcode : ℕ
e_unknown_opcode = 18

-- The register `tt`, which points below the newest word of the trail.
abbrev pub tt_of : Machine → ℕ
tt_of m = m.trail_base - word * length m.trail

-- `*(p - k)` and `*(p + k)` for an `int *`
abbrev pub down : ℕ → ℕ → ℕ
down p k = p - word * k

abbrev pub up : ℕ → ℕ → ℕ
up p k = p + word * k

-- `*p = v`
abbrev pub store : ℕ → ℕ → Machine → Machine
store p v m = record m { mem = update m.mem p v }

-- OD1 .. OD8, which are LAB1 .. too.
abbrev pub od : ℕ → Machine → ℕ
od k m = m.mem (up m.pp k)

-- `cell(N)`
abbrev pub cell : ℕ → Machine → ℕ
cell n m = down m.af n

-- `next(X)` and `jump(X)`
abbrev pub next : ℕ → Machine → Outcome
next x m = control (record m { pp = up m.pp x })

abbrev pub jump : ℕ → Machine → Outcome
jump x m = control (record m { pp = x })

-- `backtrack()`
unfoldable pub backtrack : Machine → Outcome
backtrack m =
    if leb m.bb m.stack_base
    then switched terminate e_no_solution m
    else if m.backtracks == 0
    then switched ready e_succeed (record m { b0 = m.mem (down m.bb 4); pp = m.mem (down m.bb 5) })
    else control (record m {
      b0 = m.mem (down m.bb 4);
      pp = m.mem (down m.bb 5);
      backtracks = m.backtracks - 1;
    })
