-- ===== src/Engine/Frames/Restore.antt =====
-- What trust of engine/engine.c restores from the choice frame of make_cframe.
use mlvm.Base.{
  ℕ, ◌*◌, ◌≤◌, ◌<◌, ◌≡◌, refl, sym, ap, subst, ◌∙◌, inl, inr, arith, ◌==◌, Bool-cases, ==→eq,
  update, length,
}
use mlvm.Engine.Word.{word}
use mlvm.Engine.Machine.{Machine, control, down, up, tt_of}
use mlvm.Engine.Trail.{detrail}
use mlvm.Engine.Trail.Undo.{Logged, detrail-restores, detrail-above}
use mlvm.Engine.Frames.{choice_size, choice, ccp, fill_cframe, make_cframe, reload, trust}
use mlvm.Engine.Frames.Choice.{
  IsLaidOut, Filled, Framed, framed, fill_cframe-Filled, make_cframe-Framed,
}

-- What the choice frame of `m` gives back when it goes.
pub record Restored (m k : Machine) : Type 0 where
  pub cf : k.cf ≡ m.cf
  pub bb : k.bb ≡ m.bb
  pub gl : k.gl ≡ m.gl
  pub st : k.st ≡ m.st
  pub af : k.af ≡ m.st
  pub trail : k.trail ≡ m.trail
  pub stack : (a : ℕ) → a ≤ m.st → k.mem a ≡ m.mem a

-- The choice frame of `m`, as `detrail` leaves it in a later machine `m'`.
detrail-bb : (x : ℕ) (m : Machine) → (detrail x m).bb ≡ m.bb
unfolding detrail
detrail-bb x m = refl

pub record Kept (m m' : Machine) : Type 0 where
  marker : choice 2 m' ≡ tt_of m
  at_bb : m'.bb ≡ up m.st choice_size
  trail : (detrail (tt_of m) m').trail ≡ m.trail
  saved_cf : (detrail (tt_of m) m').mem (up m.st 7) ≡ m.cf
  below : (a : ℕ) → a < up m.st choice_size → (detrail (tt_of m) m').mem a ≡ (fill_cframe m).mem a

framed-tt : (m : Machine) → IsLaidOut m → tt_of (framed m) ≡ tt_of m
framed-tt m h = rw (k.base_same) refl
  where
    k : Framed m (make_cframe m)
    k = make_cframe-Framed m h

pub keeps :
    {m m' : Machine}
    → IsLaidOut m
    → up m.st choice_size < tt_of m
    → Logged (framed m) m'
    → m'.mem (up m.st choice_size) ≡ (framed m).mem (up m.st choice_size)
    → word * length m'.trail ≤ m'.trail_base
    → Kept m m'
keeps {m} {m'} h room l top fits = record {
  marker = mark;
  at_bb = l.bb_same ∙ k.at_bb;
  trail = subst (λ t. (detrail t m').trail ≡ m.trail) (framed-tt m h) (d.0);
  saved_cf =
      subst (λ t. (detrail t m').mem (up m.st 7) ≡ m.cf) (framed-tt m h)
        (detrail-above (up m.st 7) l fits (omega (arith, k.at_bb)) ∙ top ∙ reloads);
  below = λ a g.
      subst (λ t. (detrail t m').mem a ≡ (fill_cframe m).mem a) (framed-tt m h)
        (d.1 a (omega (arith, k.at_bb, g)) ∙ k.cells a (omega (arith, g)));
}
  where
    k : Framed m (make_cframe m)
    k = make_cframe-Framed m h

    f : Filled m (fill_cframe m)
    f = fill_cframe-Filled m h

    d :
        ((detrail (tt_of (framed m)) m').trail ≡ m.trail)
        × ((a : ℕ)
            → a < (make_cframe m).bb
            → (detrail (tt_of (framed m)) m').mem a ≡ (make_cframe m).mem a)
    d = detrail-restores l fits

    reloads : (framed m).mem (up m.st choice_size) ≡ m.cf
    reloads = k.cells (up m.st choice_size) (omega arith) ∙ f.saves_cf

    saved : (make_cframe m).mem (up m.st 5) ≡ tt_of m
    saved = k.cells (up m.st 5) (omega arith) ∙ f.saves_tt

    same : m'.mem (up m.st 5) ≡ tt_of m
    same = elim (l.safe (up m.st 5) (omega (arith, k.at_bb))) [
      | inl s ↦ s ∙ saved
      | inr s ↦ absurd (omega (arith, s.0, saved))
    ]

    mark : choice 2 m' ≡ tt_of m
    mark =
        let p : up m.st 5 ≡ down m'.bb 2 = omega (arith, l.bb_same, k.at_bb) in
        subst (λ a. m'.mem a ≡ tt_of m) p same

-- The detrailed machine, and it with the continuation reloaded.
pub record Reloaded (m k : Machine) : Type 0 where
  pub at_bb : k.bb ≡ up m.st choice_size
  pub trail : k.trail ≡ m.trail
  pub cf : k.cf ≡ m.cf
  pub below : (a : ℕ) → a < up m.st choice_size → k.mem a ≡ (fill_cframe m).mem a

pub reload-Reloaded :
    {m m' : Machine} → IsLaidOut m → Kept m m' → Reloaded m (reload (detrail (choice 2 m') m'))
unfolding reload
reload-Reloaded {m} {m'} h kept = rw (kept.marker) (record {
  at_bb = b;
  trail = kept.trail;
  cf = frame;
  below = λ a g. elim (Bool-cases (a == down d.bb 0)) [
    | inl e ↦ absurd (omega (arith, ==→eq a (down d.bb 0) e, b))
    | inr e ↦ cells a g
  ];
})
  where
    d : Machine
    d = detrail (tt_of m) m'

    f : Filled m (fill_cframe m)
    f = fill_cframe-Filled m h

    b : d.bb ≡ up m.st choice_size
    b = detrail-bb (tt_of m) m' ∙ kept.at_bb

    frame : choice 0 d ≡ m.cf
    frame =
        let p : up m.st 7 ≡ down d.bb 0 = omega (arith, b) in
        subst (λ a. d.mem a ≡ m.cf) p kept.saved_cf

    code : choice 1 d ≡ ccp m
    code =
        let p : up m.st 6 ≡ down d.bb 1 = omega (arith, b) in
        subst (λ a. d.mem a ≡ ccp m) p (kept.below (up m.st 6) (omega arith) ∙ f.saves_cp)

    cells :
        (a : ℕ)
        → a < up m.st choice_size
        → update d.mem (down (choice 0 d) 1) (choice 1 d) a ≡ (fill_cframe m).mem a
    cells a g =
        rw (frame, code)
          (elim (Bool-cases (a == down m.cf 1)) [
            | inl e ↦ rw e (
                sym (
                  ap (fill_cframe m).mem (==→eq a (down m.cf 1) e)
                  ∙ f.stack_same (down m.cf 1) (omega (arith, h.frame_in))))
            | inr e ↦ rw e (kept.below a g)
          ])

pub reload-pp : (x : ℕ) (m : Machine) → (reload (detrail x m)).pp ≡ m.pp
unfolding reload detrail
reload-pp x m = refl

-- The last clause of a predicate: whatever was bound since `try` made the choice frame of `m`,
-- `trust` goes on at the next instruction with the registers cf, bb, gl and st, the trail and
-- the stack of `m`. The frame, the code and the arguments of `m` lie in its stack or below it, the
-- stack has room for the frame, the top cell of the frame, which the trail does not watch, holds
-- what `try` wrote there, and the trail of `m'` fits above address 0.
pub trust-restores :
    {m m' : Machine}
    → IsLaidOut m
    → up m.st choice_size < tt_of m
    → Logged (framed m) m'
    → m'.mem (up m.st choice_size) ≡ (framed m).mem (up m.st choice_size)
    → word * length m'.trail ≤ m'.trail_base
    → (k : Machine) × ((trust m' ≡ control k) × (Restored m k × (k.pp ≡ up m'.pp 1)))
unfolding trust
trust-restores {m} {m'} h room l top fits = (
  _,
  (
    refl,
    (
      record {
        cf = r.cf;
        bb =
            let p : up m.st 4 ≡ down k.bb 3 = omega (arith, r.at_bb) in
            subst (λ a. k.mem a ≡ m.bb) p (r.below (up m.st 4) (omega arith) ∙ f.saves_bb);
        gl =
            let p : up m.st 1 ≡ down k.bb 6 = omega (arith, r.at_bb) in
            subst (λ a. k.mem a ≡ m.gl) p (r.below (up m.st 1) (omega arith) ∙ f.saves_gl);
        st = omega (arith, r.at_bb);
        af = omega (arith, r.at_bb);
        trail = r.trail;
        stack = λ a g. r.below a (omega arith) ∙ f.stack_same a g;
      },
      ap (λ p. up p 1) (reload-pp (choice 2 m') m'),
    ),
  ),
)
  where
    k : Machine
    k = reload (detrail (choice 2 m') m')

    r : Reloaded m k
    r = reload-Reloaded h (keeps h room l top fits)

    f : Filled m (fill_cframe m)
    f = fill_cframe-Filled m h
