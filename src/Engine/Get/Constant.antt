-- ===== src/Engine/Get/Constant.antt =====
-- The comparison of a cell with a constant, in getcon and cgetcon of engine/engine.c.
use mlvm.Base.{
  ℕ, suc, ◌<◌, ◌≡◌, ◌≢◌, refl, inl, inr, true, false, some, arith, if◌then◌else◌, ltb, ◌==◌,
  Bool-cases, ==→eq, ==→ne, lt→ltb,
}
use mlvm.Engine.Word.{is_var}
use mlvm.Engine.Machine.{Machine, Outcome, store, od, cell, next, backtrack}
use mlvm.Engine.Trail.{bbtrail, push_trail}
use mlvm.Engine.Trail.Undo.{Logged, Logged-refl, Logged-bind}
use mlvm.Engine.Unify.{chase}
use mlvm.Engine.Unify.Cases.{chase-end}
use mlvm.Engine.Unify.Chase.{Ranked, chase-ends, chase-more, stored}
use mlvm.Engine.Get.{
  Matched, matched, mismatched, unfinished_chain, match_constant, after_match, getcon,
}

-- How the comparison of `ax` with `c` ends: never out of the fuel.
pub data Compared (k ax c : ℕ) (m : Machine) : Matched → Type 0 where
  takes :
      {m' : Machine}
      → Logged m m'
      → m'.pp ≡ m.pp
      → chase (suc k) m'.mem ax ≡ some c
      → Compared k ax c m (matched m')
  refuses :
      {a : ℕ} → chase k m.mem ax ≡ some a → is_var a ≡ false → a ≢ c → Compared k ax c m mismatched

match_constant-Compared :
    (rank : ℕ → ℕ) (k ax c : ℕ) (m : Machine)
    → Ranked rank m.mem
    → rank ax < k
    → is_var c ≡ false
    → Compared k ax c m (match_constant k ax c m)
unfolding match_constant bbtrail
match_constant-Compared rank k ax c m r h n =
    let (a, e) = chase-ends rank m.mem r k ax h in
    rw (e, match_constant)
      (elim (Bool-cases (is_var a)) [
        | inl v ↦ rw v (
            takes
              (Logged-bind a c (ltb a m.bb) (Logged-refl m) (chase-end k m.mem ax e v) v
                (λ g. lt→ltb _ _ g))
              (registers a) (leads a e v))
        | inr v ↦ elim (Bool-cases (a == c)) [
          | inl q ↦
              rw (v, q) (takes (Logged-refl m) refl (rw (← ==→eq a c q) (chase-more k m.mem ax e)))
          | inr q ↦ rw (v, q) (refuses e v (==→ne a c q))
        ]
      ])
  where
    registers : (a : ℕ) → (if ltb a m.bb then push_trail a (store a c m) else store a c m).pp ≡ m.pp
    registers a = ground arith

    leads :
        (a : ℕ)
        → chase k m.mem ax ≡ some a
        → is_var a ≡ true
        → chase (suc k) (if ltb a m.bb then push_trail a (store a c m) else store a c m).mem ax
          ≡ some c
    leads a e v = elim (Bool-cases (ltb a m.bb)) [
      | inl t ↦ rw t (stored k ax c a m.mem n e v)
      | inr t ↦ rw t (stored k ax c a m.mem n e v)
    ]

-- How `getcon` ends: at the next instruction, in a machine that has logged its bindings and where
-- the variable leads to the constant, or by backtracking, where the variable leads to another
-- term that is no variable.
pub data Got (k : ℕ) (m : Machine) : Outcome → Type 0 where
  takes :
      {m' : Machine}
      → Logged m m'
      → m'.pp ≡ m.pp
      → chase (suc k) m'.mem (m.mem (cell (od 1 m) m)) ≡ some (od 2 m)
      → Got k m (next 3 m')
  refuses :
      {a : ℕ}
      → chase k m.mem (m.mem (cell (od 1 m) m)) ≡ some a
      → is_var a ≡ false
      → a ≢ od 2 m
      → Got k m (backtrack (record m { gp = cell (od 1 m) m }))

-- `getcon` on each of its ways out, of which running out of fuel is none: the operand is a
-- constant, references do not lead round, and the fuel is above the rank of what the cell holds.
pub getcon-Got :
    (rank : ℕ → ℕ) (k : ℕ) (m : Machine)
    → Ranked rank m.mem
    → rank (m.mem (cell (od 1 m) m)) < k
    → is_var (od 2 m) ≡ false
    → Got k m (getcon k m)
unfolding getcon
getcon-Got rank k m r h n =
    from _ (match_constant-Compared rank k (m.mem (cell (od 1 m) m)) (od 2 m) start r h n)
  where
    start : Machine
    start = record m { gp = cell (od 1 m) m }

    from :
        (r : Matched)
        → Compared k (m.mem (cell (od 1 m) m)) (od 2 m) start r
        → Got k m (after_match 3 start r)
    from (matched m') (takes l q p) =
        takes
          (record {
            bb_same = l.bb_same;
            base_same = l.base_same;
            new = l.new;
            grown = l.grown;
            safe = l.safe;
            unbound = l.unbound;
          })
          q p
    from mismatched (refuses e v d) = refuses e v d
    from unfinished_chain x = elim x [ ]
