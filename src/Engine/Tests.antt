-- ===== src/Engine/Tests.antt =====
-- The theorems on the engine at a small memory.
pub mod Instructions
use mlvm.Base.{
  ℕ, ◌*◌, ◌<◌, ◌≤◌, ◌≡◌, refl, inl, true, not, ◌&&◌, none, [], arith, length, ltb, ◌==◌,
  if◌then◌else◌,
}
use mlvm.Engine.Word.{word}
use mlvm.Engine.Machine.{od, Machine, control, tt_of, store, up, next}
use mlvm.Engine.Trail.{trail, bbtrail, push_trail, detrail}
use mlvm.Engine.Trail.Undo.{Logged, Logged-refl, Logged-bind}
use mlvm.Engine.Unify.{chase, bind, unified, unify, round, resume, compare_terms}
use mlvm.Engine.Unify.Undo.{unify-restores}
use mlvm.Engine.Unify.Cycle.{unify-cycle}
use mlvm.Engine.Frames.{choice_size, make_cframe, retry, trust, fill_cframe, mirror}
use mlvm.Engine.Frames.Choice.{IsLaidOut, framed}
use mlvm.Engine.Frames.Retry.{Retried, retry-restores}
use mlvm.Engine.Frames.Restore.{Restored, trust-restores}
use mlvm.Engine.Build.{putvals}
use mlvm.Engine.Build.Arguments.{Values, putvals-arguments}
use mlvm.Engine.Get.{tentative, tryunifiable, getcon}
use mlvm.Engine.Get.Kept.{dx, tryunifiable-keeps}
use mlvm.Engine.Unify.Chase.{Ranked}
use mlvm.Engine.Get.Constant.{Got, getcon-Got}

-- Cells 100, 104 and 108 are unbound variables, 112 is a reference to 100, and 116 holds the
-- constant 0. At 124 is the list cell [100 | 1], at 132 the list cell [0 | 104]. The code is at 40:
-- the operands 1, 2 and 3, which with the frame at 120 name the cells 116, 112 and 108.
abbrev memory : ℕ → ℕ
memory a =
    if a == 112
    then 100
    else if a == 116
    then 3
    else if a == 124
    then 100
    else if a == 128
    then 11
    else if a == 132
    then 3
    else if a == 136
    then 104
    else if a == 44
    then 1
    else if a == 48
    then 2
    else if a == 52
    then 3
    else a

abbrev machine : Machine
machine = record {
  mem = memory;
  trail = [];
  trail_base = 4000;
  stack_base = 60;
  pp = 40;
  af = 120;
  cp = 0;
  cf = 60;
  st = 200;
  gp = 0;
  bb = 160;
  b0 = 160;
  gl = 160;
  nl = 0;
  backtracks = 10;
}

-- The two list cells are unified: 100 takes the constant 0, and 104 the constant 1.
abbrev unified_lists : Machine
unified_lists = push_trail 104 (store 104 11 (push_trail 100 (store 100 3 machine)))

unify_run : unify 5 125 133 [] machine ≡ unified unified_lists
unfolding unify round resume chase compare_terms bind trail bbtrail
unify_run = refl

unify-restores_example :
    ((detrail (tt_of machine) unified_lists).trail ≡ [])
    × ((a : ℕ) → a < 160 → (detrail (tt_of machine) unified_lists).mem a ≡ memory a)
unify-restores_example =
    unify-restores 5 125 133 machine unified_lists (omega arith) (inl unify_run) (omega arith)

unify-cycle_example :
    (unify 2 100 112 [] machine ≡ unified (bind 100 112 machine))
    × (chase 50 (bind 100 112 machine).mem 100 ≡ none)
unify-cycle_example = unify-cycle 0 50 100 112 machine refl refl (λ e. omega (arith, e)) refl refl

abbrev rank : ℕ → ℕ
rank a = if ltb a 108 && not (ltb 43 a && ltb a 53) then 0 else 1

ranked : Ranked rank memory
ranked a v d = ground arith

getcon-Got_example : Got 3 machine (getcon 3 machine)
getcon-Got_example = getcon-Got rank 3 machine ranked (omega arith) refl

machine-IsLaidOut : IsLaidOut machine
machine-IsLaidOut = record { frame_in = omega arith; code_in = omega arith; args_in = omega arith }

-- The variable 100 is bound after `try` has made a choice frame.
abbrev tried : Machine
tried = push_trail 100 (store 100 3 (framed machine))

tried-Logged : Logged (framed machine) tried
unfolding make_cframe fill_cframe mirror
tried-Logged = Logged-bind 100 3 true (Logged-refl (framed machine)) refl refl (λ h. refl)

tried-top : tried.mem (up 200 choice_size) ≡ (framed machine).mem (up 200 choice_size)
unfolding make_cframe fill_cframe mirror
tried-top = refl

tried-fits : word * length tried.trail ≤ tried.trail_base
unfolding make_cframe fill_cframe mirror
tried-fits = omega arith

trust-restores_example :
    (k : Machine) × ((trust tried ≡ control k) × (Restored machine k × (k.pp ≡ up tried.pp 1)))
trust-restores_example =
    trust-restores machine-IsLaidOut (omega arith) tried-Logged tried-top tried-fits

tried-pp : up tried.pp 2 ≤ 200
unfolding make_cframe fill_cframe mirror
tried-pp = omega arith

tried-operand : memory (up tried.pp 1) ≡ od 1 machine
unfolding make_cframe fill_cframe mirror
tried-operand = refl

retry-restores_example :
    (k : Machine) × ((retry tried ≡ next 3 k)
      × (Retried (memory (up tried.pp 2)) machine k × (k.pp ≡ tried.pp)))
retry-restores_example =
    retry-restores machine-IsLaidOut (omega arith) tried-Logged tried-top tried-fits tried-pp
      tried-operand

abbrev unified_cells : Machine
unified_cells = push_trail 100 (store 100 3 (record machine { gp = 4000 }))

tentative_run : tentative 5 machine ≡ unified unified_cells
unfolding tentative unify round resume chase compare_terms bind trail bbtrail
tentative_run = refl

tryunifiable-keeps_example :
    tryunifiable 5 machine ≡ next 4 (store 108 (dx (tentative 5 machine)) unified_cells)
tryunifiable-keeps_example =
    tryunifiable-keeps 5 machine unified_cells (omega arith) (inl tentative_run)
