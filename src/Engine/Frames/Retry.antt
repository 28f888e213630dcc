-- ===== src/Engine/Frames/Retry.antt =====
-- What retry of engine/engine.c restores from the choice frame of make_cframe.
use mlvm.Base.{
  ℕ, ◌+◌, ◌*◌, ◌≤◌, ◌<◌, ◌≡◌, refl, sym, ap, subst, ◌∙◌, ◌∷◌, arith, ne→==, update, length, ==-refl,
}
use mlvm.Engine.Word.{word, make_str}
use mlvm.Engine.Machine.{Machine, next, down, up, od, tt_of}
use mlvm.Engine.Trail.{new_generation, detrail}
use mlvm.Engine.Trail.Undo.{Logged}
use mlvm.Engine.Frames.{choice_size, choice, mirror, fill_cframe, reload, renew, retry}
use mlvm.Engine.Frames.Choice.{
  IsLaidOut, Filled, framed, fill_cframe-Filled, mirror_outside, mirror_inside,
}
use mlvm.Engine.Frames.Restore.{Reloaded, reload-Reloaded, keeps, reload-pp}

-- What the choice frame of `m` gives back when it stays: the arguments are above it again, it
-- leads to the clause `alternative`, and a new generation begins at it.
pub record Retried (alternative : ℕ) (m k : Machine) : Type 0 where
  pub cf : k.cf ≡ m.cf
  pub bb : k.bb ≡ up m.st choice_size
  pub gl : k.gl ≡ up m.st choice_size
  pub st : k.st ≡ up (up m.st choice_size) (od 1 m)
  pub af : k.af ≡ up (up m.st choice_size) (od 1 m)
  pub trail : k.trail ≡ make_str (up m.st choice_size) ∷ m.trail
  pub stack : (a : ℕ) → a ≤ m.st → k.mem a ≡ m.mem a
  pub args :
      (i : ℕ)
      → 1 ≤ i
      → i ≤ od 1 m
      → k.mem (up (up m.st choice_size) i) ≡ m.mem (up (down m.st (od 1 m)) i)
  pub next_clause : k.mem (up m.st 2) ≡ alternative

renew-pp : (k : Machine) → (renew k).pp ≡ k.pp
unfolding renew new_generation
renew-pp k = refl

renew-Retried :
    {m k : Machine}
    → IsLaidOut m
    → Reloaded m k
    → up k.pp 2 ≤ m.st
    → m.mem (up k.pp 1) ≡ od 1 m
    → Retried (m.mem (up k.pp 2)) m (renew k)
unfolding renew new_generation
renew-Retried {m} {k} h r code same = record {
  cf = r.cf;
  bb = r.at_bb;
  gl = r.at_bb;
  st = omega (arith, count, r.at_bb);
  af = omega (arith, count, r.at_bb);
  trail = rw (r.at_bb, r.trail) refl;
  stack = λ a g.
      mirror_outside (written (up k.pp 1)) _ k.bb written a (omega (arith, r.at_bb)) ∙ low a g;
  args = λ i g g'.
      subst
        (λ a. mirror (written (up k.pp 1)) from k.bb written a ≡ m.mem (up (down m.st (od 1 m)) i))
        (above i)
        (mirror_inside (written (up k.pp 1)) from k.bb written i
            (omega (arith, r.at_bb, count, h.args_in)) g (omega (arith, count, g'))
          ∙ ap written (argument i)
          ∙ low (up (down m.st (od 1 m)) i) (omega (arith, h.args_in, g')));
  next_clause =
      mirror_outside (written (up k.pp 1)) _ k.bb written (up m.st 2) (omega (arith, r.at_bb))
      ∙ clause;
}
  where
    f : Filled m (fill_cframe m)
    f = fill_cframe-Filled m h

    written : ℕ → ℕ
    written = update k.mem (down k.bb 5) (od 2 k)

    place : down k.bb 5 ≡ up m.st 2
    place = omega (arith, r.at_bb)

    below : (a : ℕ) → a ≤ m.st → k.mem a ≡ m.mem a
    below a g = r.below a (omega arith) ∙ f.stack_same a g

    low : (a : ℕ) → a ≤ m.st → written a ≡ m.mem a
    low a g = rw (ne→== a (down k.bb 5) (omega (arith, place))) (below a g)

    count : written (up k.pp 1) ≡ od 1 m
    count = low (up k.pp 1) (omega arith) ∙ same

    from : ℕ
    from = down k.bb (choice_size + written (up k.pp 1))

    above : (i : ℕ) → up k.bb i ≡ up (up m.st choice_size) i
    above i = omega (arith, r.at_bb)

    argument : (i : ℕ) → up from i ≡ up (down m.st (od 1 m)) i
    argument i = omega (arith, r.at_bb, count, h.args_in)

    clause : written (up m.st 2) ≡ m.mem (up k.pp 2)
    clause =
        subst (λ a. written a ≡ m.mem (up k.pp 2)) place
          (rw (==-refl (down k.bb 5)) (below (up k.pp 2) code))

-- A clause between the first and the last: `retry` goes on three words further with the cf and the
-- stack of `m`, with the arguments of `m` again above the choice frame, with a new generation at
-- it, and with the clause that `retry` names as the next one. The frame, the code and the arguments
-- of `m` lie in its stack or below it, the stack has room for the frame, the top cell of the
-- frame, which the trail does not watch, holds what `try` wrote there, the trail of `m'` fits above
-- address 0, and the instruction lies below the stack of `m` and names as many arguments as `try`
-- did.
pub retry-restores :
    {m m' : Machine}
    → IsLaidOut m
    → up m.st choice_size < tt_of m
    → Logged (framed m) m'
    → m'.mem (up m.st choice_size) ≡ (framed m).mem (up m.st choice_size)
    → word * length m'.trail ≤ m'.trail_base
    → up m'.pp 2 ≤ m.st
    → m.mem (up m'.pp 1) ≡ od 1 m
    → (k : Machine) × ((retry m' ≡ next 3 k) × (Retried (m.mem (up m'.pp 2)) m k × (k.pp ≡ m'.pp)))
unfolding retry
retry-restores {m} {m'} h room l top fits code same =
    (renew k, (refl, (retried, renew-pp k ∙ at_pp)))
  where
    k : Machine
    k = reload (detrail (choice 2 m') m')

    at_pp : k.pp ≡ m'.pp
    at_pp = reload-pp (choice 2 m') m'

    retried : Retried (m.mem (up m'.pp 2)) m (renew k)
    retried =
        subst (λ p. Retried (m.mem (up p 2)) m (renew k)) at_pp
          (renew-Retried h (reload-Reloaded h (keeps h room l top fits))
            (subst (λ p. up p 2 ≤ m.st) (sym at_pp) code)
            (subst (λ p. m.mem (up p 1) ≡ od 1 m) (sym at_pp) same))
