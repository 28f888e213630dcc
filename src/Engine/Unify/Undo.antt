-- ===== src/Engine/Unify/Undo.antt =====
-- Unification binds nothing that backtracking does not take back.
use mlvm.Base.{
  ℕ, zero, suc, ◌*◌, ◌≤◌, ◌<◌, ◌≡◌, refl, ◌⊎◌, inl, inr, true, List, [], ◌∷◌, arith, length, ltb,
  leb, Bool-cases, lt→ltb, subst,
}
use mlvm.Engine.Word.{word, is_var, is_cst}
use mlvm.Engine.Machine.{Machine, tt_of}
use mlvm.Engine.Trail.{detrail}
use mlvm.Engine.Trail.Undo.{Logged, Logged-refl, Logged-bind, detrail-restores}
use mlvm.Engine.Unify.Cases.{
  chase-end, Compared, same, lists, floats, structures, clash, Rounded, left, right, terms, no_fuel,
  round-Rounded,
}
use mlvm.Engine.Unify.{
  bind, Round, again, succeed, fail, stuck, resume, give_up, round, Unified, unified, failed,
  unfinished, unify,
}

-- The machine has logged its bindings since `m`, its generation line is not below the choice
-- frame, and `gp` is where it was.
pub record Safe (m m' : Machine) : Type 0 where
  pub log : Logged m m'
  pub line : m'.bb ≤ m'.gl
  pub gp_same : m'.gp ≡ m.gp

Safe-bind :
    {m m' : Machine} (x v : ℕ) → Safe m m' → m'.mem x ≡ x → is_var x ≡ true → Safe m (bind x v m')
unfolding bind
Safe-bind {m} {m'} x v s free var = elim (Bool-cases (is_cst v)) [
  | inl c ↦ rw c (record {
    log = Logged-bind x v (ltb x m'.bb) s.log free var (λ h. lt→ltb _ _ h);
    line = ground (arith, s.line);
    gp_same = ground (arith, s.gp_same);
  })
  | inr c ↦ rw c (record {
    log = Logged-bind x v (leb x m'.gl) s.log free var (λ h. ground (arith, s.line));
    line = ground (arith, s.line);
    gp_same = ground (arith, s.gp_same);
  })
]

data RoundSafe (m : Machine) : Round → Type 0 where
  at_again :
      {ax bx : ℕ} {ps : List (ℕ × ℕ)} {m' : Machine} → Safe m m' → RoundSafe m (again ax bx ps m')
  at_succeed : {m' : Machine} → Safe m m' → RoundSafe m (succeed m')
  at_fail : {m' : Machine} → Safe m m' → RoundSafe m (fail m')
  at_stuck : RoundSafe m stuck

resume-Safe : {m m' : Machine} (ps : List (ℕ × ℕ)) → Safe m m' → RoundSafe m (resume ps m')
unfolding resume
resume-Safe [] s = at_succeed s
resume-Safe (p ∷ ps) s = at_again s

give_up-Safe : {m m' : Machine} (ps : List (ℕ × ℕ)) → Safe m m' → RoundSafe m (give_up ps m')
give_up-Safe ps s = at_fail (record {
  log = record {
    bb_same = s.log.bb_same;
    base_same = s.log.base_same;
    new = s.log.new;
    grown = s.log.grown;
    safe = s.log.safe;
    unbound = s.log.unbound;
  };
  line = s.line;
  gp_same = s.gp_same;
})

Compared-Safe :
    {m m' : Machine} {a b : ℕ} {ps : List (ℕ × ℕ)} {r : Round}
    → Compared a b ps m' r
    → Safe m m'
    → RoundSafe m r
Compared-Safe {ps = ps} (same e) s = resume-Safe ps s
Compared-Safe (lists l l') s = at_again s
Compared-Safe {ps = ps} (floats f f' p q) s = resume-Safe ps s
Compared-Safe (structures t t' f) s = at_again s
Compared-Safe {ps = ps} clash s = give_up-Safe ps s

Rounded-Safe :
    {m m' : Machine} {k ax bx : ℕ} {ps : List (ℕ × ℕ)} {r : Round}
    → Rounded k ax bx ps m' r
    → Safe m m'
    → RoundSafe m r
Rounded-Safe {m' = m'} {k = k} {ax = ax} {bx = bx} {ps = ps} (left a e v) s =
    resume-Safe ps (Safe-bind a bx s (chase-end k m'.mem ax e v) v)
Rounded-Safe {m' = m'} {k = k} {bx = bx} {ps = ps} (right a b e f w) s =
    resume-Safe ps (Safe-bind b a s (chase-end k m'.mem bx f w) w)
Rounded-Safe (terms a b e f c) s = Compared-Safe c s
Rounded-Safe no_fuel s = at_stuck

abbrev pub EndSafe : Machine → Unified → Type 0
EndSafe m (unified m') = Safe m m'
EndSafe m (failed m') = Safe m m'
EndSafe m unfinished = Unit

pub unify-Safe :
    {m m' : Machine} (k ax bx : ℕ) (ps : List (ℕ × ℕ)) → Safe m m' → EndSafe m (unify k ax bx ps m')
unfolding unify
unify-Safe zero ax bx ps s = tt
unify-Safe {m} {m'} (suc k) ax bx ps s =
    next (round k ax bx ps m') (Rounded-Safe (round-Rounded k ax bx ps m') s)
      (λ ax' bx' ps' m'' q. unify-Safe k ax' bx' ps' q)
  where
    next :
        (r : Round)
        → RoundSafe m r
        → ((ax' bx' : ℕ) (ps' : List (ℕ × ℕ)) (m'' : Machine)
            → Safe m m''
            → EndSafe m (unify k ax' bx' ps' m''))
        → EndSafe m (elim r [
          | again ax' bx' ps' m'' ↦ unify k ax' bx' ps' m''
          | succeed m'' ↦ unified m''
          | fail m'' ↦ failed m''
          | stuck ↦ unfinished
        ])
    next (again ax' bx' ps' m'') (at_again q) ih = ih ax' bx' ps' m'' q
    next (succeed m'') (at_succeed q) ih = q
    next (fail m'') (at_fail q) ih = q
    next stuck at_stuck ih = tt

-- The machine in which the loop ends, if it does.
abbrev pub Ends : Unified → Machine → Type 0
Ends u m' = (u ≡ unified m') ⊎ (u ≡ failed m')

-- A unification that succeeds or fails can be taken back: `detrail` to the trail that was there
-- before it gives that trail again, and every cell below the choice frame what it held. The
-- generation line must not lie below the choice frame, and the trail must fit into the block.
pub unify-restores :
    (k ax bx : ℕ) (m m' : Machine)
    → m.bb ≤ m.gl
    → Ends (unify k ax bx [] m) m'
    → word * length m'.trail ≤ m'.trail_base
    → ((detrail (tt_of m) m').trail ≡ m.trail)
      × ((a : ℕ) → a < m.bb → (detrail (tt_of m) m').mem a ≡ m.mem a)
unify-restores k ax bx m m' line e fits = detrail-restores (safe e).log fits
  where
    all : EndSafe m (unify k ax bx [] m)
    all = unify-Safe k ax bx [] (record { log = Logged-refl m; line = line; gp_same = refl })

    safe : Ends (unify k ax bx [] m) m' → Safe m m'
    safe (inl q) = subst (EndSafe m) q all
    safe (inr q) = subst (EndSafe m) q all
