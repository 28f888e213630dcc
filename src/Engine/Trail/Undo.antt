-- ===== src/Engine/Trail/Undo.antt =====
-- Backtracking takes back what was bound since: `detrail` against a log of the bindings.
use mlvm.Base.{
  ℕ, ◌-◌, ◌*◌, ◌≤◌, ◌<◌, ◌≡◌, refl, sym, ap, subst, ◌∙◌, ◌⊎◌, inl, inr, Bool, true, false, ◌&&◌,
  ◌||◌, List, [], ◌∷◌, ◌++◌, arith, length, length-append, update, if◌then◌else◌, ltb, ◌==◌,
  Bool-cases, lt→ltb, le→ltb, ==→eq, ==→ne,
}
use mlvm.Engine.Word.{word, is_var}
use mlvm.Engine.Machine.{Machine, tt_of, store}
use mlvm.Engine.Trail.{push_trail, detrail_loop, detrail}

abbrev pub has : ℕ → List ℕ → Bool
has a [] = false
has a (e ∷ es) = (a == e) || has a es

-- Whether `detrail` resets the cell at `a`, when it takes `es` off the trail.
abbrev resets : ℕ → ℕ → List ℕ → Bool
resets bb a es = has a es && (is_var a && ltb a bb)

detrail_loop-reset :
    (base bb : ℕ) (new old : List ℕ) (mem : ℕ → ℕ)
    → word * length (new ++ old) ≤ base
    → let r = detrail_loop base bb (base - word * length old) (new ++ old) mem in
      (r.0 ≡ old) × ((a : ℕ) → r.1 a ≡ (if resets bb a new then a else mem a))
unfolding detrail_loop
detrail_loop-reset base bb [] [] mem h = (refl, λ a. refl)
detrail_loop-reset base bb [] (e ∷ es) mem h =
    rw (le→ltb (base - word * length (e ∷ es)) (base - word * length (e ∷ es)) (omega arith))
      (refl, λ a. refl)
detrail_loop-reset base bb (e ∷ es) old mem h =
    let ih =
      detrail_loop-reset base bb es old (if is_var e && ltb e bb then update mem e e else mem)
        (omega arith) in
    rw
      (lt→ltb (base - word * length (e ∷ es ++ old)) (base - word * length old)
        (omega (arith, length-append es old)))
      (ih.0, λ a. ih.1 a ∙ step a)
  where
    step :
        (a : ℕ)
        → (if resets bb a es then a else (if is_var e && ltb e bb then update mem e e else mem) a)
          ≡ (if resets bb a (e ∷ es) then a else mem a)
    step a = elim (Bool-cases (a == e)) [
      | inl q ↦ rw (==→eq a e q) (ground arith)
      | inr q ↦ ground (arith, ==→ne a e q)
    ]

-- The cells below the choice frame, from `m` on to `m'`: each is as it was, or was an unbound
-- variable and is on the trail. The trail has grown by `new`, whose variables were unbound.
pub record Logged (m m' : Machine) : Type 0 where
  pub bb_same : m'.bb ≡ m.bb
  pub base_same : m'.trail_base ≡ m.trail_base
  pub new : List ℕ
  pub grown : m'.trail ≡ new ++ m.trail
  pub safe :
      (a : ℕ) → a < m.bb → (m'.mem a ≡ m.mem a) ⊎ ((m.mem a ≡ a) × ((is_var a && has a new) ≡ true))
  pub unbound : (a : ℕ) → a < m.bb → (is_var a && has a new) ≡ true → m.mem a ≡ a

pub Logged-refl : (m : Machine) → Logged m m
Logged-refl m = record {
  bb_same = refl;
  base_same = refl;
  new = [];
  grown = refl;
  safe = λ a h. inl refl;
  unbound = λ a h q. ground arith;
}

-- The log is of the memory and the trail, and of no other register.
pub Logged-registers :
    {m m' : Machine} (k : Machine)
    → Logged m m'
    → k.mem ≡ m'.mem
    → k.trail ≡ m'.trail
    → k.bb ≡ m'.bb
    → k.trail_base ≡ m'.trail_base
    → Logged m k
Logged-registers {m} {m'} k l e t b d = record {
  bb_same = b ∙ l.bb_same;
  base_same = d ∙ l.base_same;
  new = l.new;
  grown = t ∙ l.grown;
  safe = λ a h. rw e (l.safe a h);
  unbound = l.unbound;
}

-- A binding of an unbound variable that is trailed where it lies below the choice frame.
pub Logged-bind :
    {m m' : Machine} (x v : ℕ) (recorded : Bool)
    → Logged m m'
    → m'.mem x ≡ x
    → is_var x ≡ true
    → (x < m'.bb → recorded ≡ true)
    → Logged m (if recorded then push_trail x (store x v m') else store x v m')
Logged-bind {m} {m'} x v true l free var r = record {
  bb_same = l.bb_same;
  base_same = l.base_same;
  new = x ∷ l.new;
  grown = ap (◌∷◌ x) l.grown;
  safe = λ a h. elim (Bool-cases (a == x)) [
    | inl q ↦ inr (was a h q, ground arith)
    | inr q ↦ elim (l.safe a h) [ inl s ↦ inl (rw q s) | inr s ↦ inr (s.0, ground arith) ]
  ];
  unbound = λ a h q. elim (Bool-cases (a == x)) [
    | inl e ↦ was a h e
    | inr e ↦ l.unbound a h (ground arith)
  ];
}
  where
    was : (a : ℕ) → a < m.bb → (a == x) ≡ true → m.mem a ≡ a
    was a h q = elim (l.safe a h) [
      | inl s ↦ sym s ∙ subst (λ z. m'.mem z ≡ z) (sym (==→eq a x q)) free
      | inr s ↦ s.0
    ]
Logged-bind {m} {m'} x v false l free var r = record {
  bb_same = l.bb_same;
  base_same = l.base_same;
  new = l.new;
  grown = l.grown;
  safe =
      λ a h. let apart : (a == x) ≡ false = ground (arith, r, l.bb_same) in rw apart (l.safe a h);
  unbound = l.unbound;
}

-- Backtracking to the choice frame: when `detrail` unwinds to where the trail was, it leaves the
-- old trail and every cell below the choice frame as it was.
pub detrail-restores :
    {m m' : Machine}
    → Logged m m'
    → word * length m'.trail ≤ m'.trail_base
    → ((detrail (tt_of m) m').trail ≡ m.trail)
      × ((a : ℕ) → a < m.bb → (detrail (tt_of m) m').mem a ≡ m.mem a)
unfolding detrail
detrail-restores {m} {m'} l fits =
    let r =
      detrail_loop-reset m'.trail_base m'.bb l.new m.trail m'.mem
        (subst (λ t. word * length t ≤ m'.trail_base) l.grown fits) in
    rw (l.grown, ← l.base_same) (r.0, λ a h. r.1 a ∙ back a h (l.unbound a h) (l.safe a h))
  where
    back :
        (a : ℕ)
        → a < m.bb
        → ((is_var a && has a l.new) ≡ true → m.mem a ≡ a)
        → (m'.mem a ≡ m.mem a) ⊎ ((m.mem a ≡ a) × ((is_var a && has a l.new) ≡ true))
        → (if resets m'.bb a l.new then a else m'.mem a) ≡ m.mem a
    back a h u s = ground (arith, l.bb_same)

-- Cells from the choice frame on are left alone, and so are the registers.
pub detrail-above :
    {m m' : Machine} (a : ℕ)
    → Logged m m'
    → word * length m'.trail ≤ m'.trail_base
    → m.bb ≤ a
    → (detrail (tt_of m) m').mem a ≡ m'.mem a
unfolding detrail
detrail-above {m} {m'} a l fits h =
    let r =
      detrail_loop-reset m'.trail_base m'.bb l.new m.trail m'.mem
        (subst (λ t. word * length t ≤ m'.trail_base) l.grown fits) in
    rw (l.grown, ← l.base_same) (r.1 a ∙ out)
  where
    out : (if resets m'.bb a l.new then a else m'.mem a) ≡ m'.mem a
    out = ground (arith, l.bb_same)
