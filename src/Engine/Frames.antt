-- ===== src/Engine/Frames.antt =====
-- The frames of include/engine.h, and the instructions of engine/engine.c that make, enter and
-- leave them: alloa, allod, call .. return, try, retry, trust, neckcut, deeplabel, deepcut.
pub mod Choice
pub mod Restore
pub mod Retry
use mlvm.Base.{
  ℕ, zero, suc, ◌+◌, ◌-◌, ◌*◌, ◌/◌, Bool, true, false, Option, none, some, List, [], ◌∷◌, ◌++◌,
  reverse, take, length, update, if◌then◌else◌, ltb, leb, ◌==◌,
}
use mlvm.Engine.Word.{word, addr, is_str}
use mlvm.Engine.Machine.{
  Machine, Status, expansion, collection, Outcome, control, switched, elsewhere, tt_of, down, up,
  store, od, cell, next, jump,
}
use mlvm.Engine.Trail.{push_trail, new_generation, detrail, filter_trail}

-- CHOICE_SIZE, GC_FACTOR and GC_LIMIT of include/mlvm.h
abbrev pub choice_size : ℕ
choice_size = 7

abbrev pub gc_factor : ℕ
gc_factor = 3

abbrev pub gc_limit : ℕ
gc_limit = 81920

-- CCF, CCP, CTT; BCF, BCP, BTT, BBB, BB0, BBP, BGL: the cells from `cf` and `bb` down.
abbrev pub ccp : Machine → ℕ
ccp m = m.mem (down m.cf 1)

abbrev pub choice : ℕ → Machine → ℕ
choice k m = m.mem (down m.bb k)

-- `make_aframe()` and `make_dframe()`
unfoldable pub make_aframe : Machine → Machine
make_aframe m =
    let m1 : Machine = record m { af = up m.st (od 2 m); st = up m.st (od 2 m) } in
    let m2 = store m1.af m1.cf m1 in store (down m2.af 2) (tt_of m2) m2

unfoldable pub make_dframe : Machine → Machine
make_dframe m = record m { af = up m.st (od 2 m); st = up m.st (od 2 m) }

-- `while (ax--) *(++st) = *(++af);`
unfoldable pub mirror : ℕ → (af st : ℕ) → (ℕ → ℕ) → ℕ → ℕ
mirror zero af st mem = mem
mirror (suc n) af st mem =
    mirror n (af + word) (st + word) (update mem (st + word) (mem (af + word)))

-- That loop with `n` arguments, and `af = st` after it.
abbrev pub mirror_args : ℕ → Machine → Machine
mirror_args n m = record m { mem = mirror n m.af m.st m.mem; st = up m.st n; af = up m.st n }

-- The cells that `make_cframe()` fills.
unfoldable pub fill_cframe : Machine → Machine
fill_cframe m =
    let m0 : Machine = record m { bb = up m.st choice_size } in
    let m1 = store m0.bb m0.cf m0 in
    let m2 = store (down m1.bb 1) (ccp m1) m1 in
    let m3 = store (down m2.bb 2) (tt_of m2) m2 in
    let m4 = store (down m3.bb 3) m.bb m3 in
    let m5 = store (down m4.bb 4) m4.b0 m4 in
    let m6 = store (down m5.bb 5) (od 2 m5) m5 in store (down m6.bb 6) m6.gl m6

-- `make_cframe()`
unfoldable pub make_cframe : Machine → Machine
unfolding mirror new_generation
make_cframe m =
    let f = fill_cframe m in
    let n = od 1 f in
    mirror_args n (new_generation (record f { af = down f.st n; gl = f.bb; st = f.bb }))

-- `while (tag(*af) != STR_TAG) af--;` over the words of the trail from `af` on to newer ones: the
-- address of the generation line, and the line.
pub search_line : ℕ → List ℕ → Option (ℕ × ℕ)
search_line af [] = none
search_line af (e ∷ es) = if is_str e then some (af, e) else search_line (down af 1) es

unfoldable pub generation_line : Machine → Option (ℕ × ℕ)
unfolding search_line
generation_line m =
    let af = if leb m.cf m.bb then choice 2 m else m.mem (down m.cf 2) in
    search_line af (reverse (take ((af - tt_of m) / word) m.trail))

-- The test for room that alloa, allod and try make, with the cells that they are to have.
abbrev pub lacks_room : ℕ → Machine → Bool
lacks_room n m = ltb (tt_of m) (up m.st (n * gc_factor))

-- What alloa, allod and try do where `cf` belongs to a generation: `make` the frame, or collect.
-- A trail with no generation line, where the search would leave it, is beyond the model.
unfoldable pub collect_or : (Machine → Machine) → Machine → Outcome
unfolding generation_line
collect_or make m = elim (generation_line m) [
  | none ↦ elsewhere (m.mem m.pp) m
  | some (af, line) ↦
      if ltb m.st (up (addr line) gc_limit)
      then next 3 (make (record m { af = af }))
      else switched collection (od 1 m) (record m { af = af })
]

-- A new generation, where the last one has grown beyond GC_LIMIT.
unfoldable pub begin_generation : Machine → Machine
unfolding new_generation
begin_generation m =
    if ltb (up m.gl gc_limit) m.st then new_generation (record m { gl = m.st }) else m

-- LVM_ALLOA, LVM_ALLOD and LVM_TRY (LVM_SHALLOWTRY)
unfoldable pub alloa : Machine → Outcome
unfolding make_aframe begin_generation collect_or
alloa m =
    if lacks_room (od 2 m) m
    then switched expansion (od 1 m) m
    else if ltb m.gl m.cf
    then next 3 (begin_generation (make_aframe m))
    else collect_or make_aframe m

unfoldable pub allod : Machine → Outcome
unfolding make_dframe begin_generation collect_or
allod m =
    if lacks_room (od 2 m) m
    then switched expansion (od 1 m) m
    else if ltb m.gl m.cf
    then next 3 (begin_generation (make_dframe m))
    else collect_or make_dframe m

unfoldable pub try : Machine → Outcome
unfolding make_cframe collect_or
try m =
    if lacks_room choice_size m
    then switched expansion (od 1 m) m
    else if ltb m.gl m.cf
    then next 3 (make_cframe m)
    else collect_or make_cframe m

-- LVM_CALL, LVM_LASTCALL, LVM_CHAINCALL, LVM_PROCEED, LVM_RETURN
unfoldable pub call : Machine → Outcome
call m =
    let m1 = store (down m.af 1) (up m.pp 2) (record m { cf = m.af }) in
    jump (od 1 m1) (record m1 { af = m1.st })

unfoldable pub lastcall : Machine → Outcome
lastcall m = jump (od 1 m) (record m { cf = m.mem m.af; af = m.st; b0 = m.bb })

unfoldable pub chaincall : Machine → Outcome
chaincall m = jump (od 1 m) (record m { af = m.st; b0 = m.bb })

unfoldable pub proceed : Machine → Outcome
proceed m = jump (m.mem (down m.cf 1)) (record m { af = m.cf })

unfoldable pub return : Machine → Outcome
return m = jump (m.mem (down (m.mem m.af) 1)) (record m { af = m.mem m.af })

-- `cf = BCF; CCP = BCP;`, where RETRY and TRUST begin.
unfoldable pub reload : Machine → Machine
reload m = let m1 : Machine = record m { cf = choice 0 m } in store (down m1.cf 1) (choice 1 m1) m1

-- What RETRY does after that: the next clause, a new generation, and the arguments again.
unfoldable pub renew : Machine → Machine
unfolding mirror new_generation
renew m =
    let m1 = store (down m.bb 5) (od 2 m) m in
    let m2 = new_generation (record m1 { st = m1.bb; gl = m1.bb }) in
    let n = od 1 m2 in mirror_args n (record m2 { af = down m2.st (choice_size + n) })

-- LVM_RETRY
unfoldable pub retry : Machine → Outcome
retry m = next 3 (renew (reload (detrail (choice 2 m) m)))

-- LVM_TRUST
unfoldable pub trust : Machine → Outcome
trust m =
    let m1 = reload (detrail (choice 2 m) m) in
    next 1 (record m1 {
      gl = choice 6 m1;
      st = down m1.bb choice_size;
      af = down m1.bb choice_size;
      bb = choice 3 m1;
    })

abbrev cut_to : ℕ → Machine → Machine
cut_to b m = record m { bb = b }

-- LVM_NECKCUT, LVM_DEEPLABEL, LVM_DEEPCUT
unfoldable pub neckcut : Machine → Outcome
unfolding filter_trail
neckcut m =
    if ltb m.b0 m.bb
    then next 1 (cut_to m.b0 (filter_trail (tt_of m) (choice 2 m) (record m { gl = choice 6 m })))
    else next 1 m

unfoldable pub deeplabel : Machine → Outcome
deeplabel m = next 2 (store (cell (od 1 m) m) m.b0 m)

unfoldable pub deepcut : Machine → Outcome
deepcut m = next 2 (record m { bb = m.mem (cell (od 1 m) m) })
