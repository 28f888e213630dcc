-- ===== src/Engine/Structure/Reads.antt =====
-- What getstr of engine/engine.c does with a structure that is there, and with a variable.
use mlvm.Base.{
  ℕ, zero, suc, ◌+◌, ◌≤◌, ◌<◌, ◌≡◌, refl, ◌∙◌, inl, inr, Bool, true, false, ◌&&◌, some, arith,
  if◌then◌else◌, leb, ◌==◌, Bool-cases, ==-refl, ==→eq, ==→ne, ne→==, update,
}
use mlvm.Engine.Word.{addr, is_var, is_str, make_str, arity}
use mlvm.Engine.Machine.{Machine, Outcome, store, up, down, od, cell, next, jump, backtrack}
use mlvm.Engine.Trail.{trail, push_trail}
use mlvm.Engine.Trail.Undo.{Logged, Logged-refl, Logged-bind, Logged-registers}
use mlvm.Engine.Unify.{chase}
use mlvm.Engine.Unify.Cases.{chase-end}
use mlvm.Engine.Unify.Chase.{stored}
use mlvm.Engine.Structure.{
  on_term, at_cell, begin_write, structure_stream, copy_cells, read_structure, getstr,
}

-- The copying leaves the cells before the first that it writes.
copy_cells_below :
    (n cx bx ax : ℕ) (mem : ℕ → ℕ) (c : ℕ) → c < up bx cx → copy_cells n cx bx ax mem c ≡ mem c
unfolding copy_cells
copy_cells_below zero cx bx ax mem c h = refl
copy_cells_below (suc n) cx bx ax mem c h =
    copy_cells_below n (cx + 1) bx ax (update mem (up bx cx) (mem (up ax cx))) c (omega arith)
    ∙ (rw (ne→== c (up bx cx) (omega arith)) refl)

-- A cell that lies below the copy is copied.
copy_cells_at :
    (n cx bx ax : ℕ) (mem : ℕ → ℕ) (i : ℕ)
    → up ax i < bx
    → cx ≤ i
    → i < cx + n
    → copy_cells n cx bx ax mem (up bx i) ≡ mem (up ax i)
unfolding copy_cells
copy_cells_at zero cx bx ax mem i b g h = absurd (omega arith)
copy_cells_at (suc n) cx bx ax mem i b g h = elim (Bool-cases (i == cx)) [
  | inl e ↦
      let q : i ≡ cx = ==→eq i cx e in
      rw q (
        copy_cells_below n (cx + 1) bx ax (update mem (up bx cx) (mem (up ax cx))) (up bx cx)
          (omega arith)
        ∙ (rw (==-refl (up bx cx)) refl))
  | inr e ↦
      copy_cells_at n (cx + 1) bx ax (update mem (up bx cx) (mem (up ax cx))) i b
        (omega (arith, ==→ne i cx e)) (omega arith)
      ∙ (rw (ne→== (up ax i) (up bx cx) (omega arith)) refl)
]

not_var : (t : ℕ) → is_var (make_str t) ≡ false
not_var t = ground arith

on_term-some :
    (k ax : ℕ) (m : Machine) {a : ℕ} (f g : ℕ → Outcome)
    → chase k m.mem ax ≡ some a
    → on_term k ax m f g ≡ (if is_var a then f a else g a)
unfolding on_term
on_term-some k ax m f g e = rw (e, on_term) refl

-- How `getstr` ends, where `a` is the word that its variable leads to and `bx` the place for the
-- structure.
pub data Got (k a bx : ℕ) (m : Machine) : Outcome → Type 0 where
  writes :
      (m' : Machine)
      → Logged m m'
      → chase (suc k) m'.mem (m.mem (cell (od 1 m) m)) ≡ some (make_str bx)
      → m'.gp ≡ down bx 1
      → m'.nl ≡ od 3 m'
      → Got k a bx m (jump (od 5 m') m')
  reads :
      (m' : Machine)
      → is_str a ≡ true
      → m.mem (addr a) ≡ od 4 m
      → ((i : ℕ) → i ≤ arity (od 4 m) → m'.mem (up bx i) ≡ m.mem (up (addr a) i))
      → ((c : ℕ) → c < bx → m'.mem c ≡ m.mem c)
      → Got k a bx m (next 6 m')
  refuses :
      is_var a ≡ false
      → (is_str a && (m.mem (addr a) == od 4 m)) ≡ false
      → Got k a bx m (backtrack (at_cell m))

-- `getstr` on each of its ways out: an unbound variable takes a structure at the place named, which
-- the write stream goes on to fill; a structure with the functor is copied whole to that place, and
-- nothing below is changed; on any other term it backtracks. The chain of references ends at `a`
-- within the fuel, the place lies above the structure there, and the generation line is not below
-- the choice frame.
pub getstr-Got :
    (k a : ℕ) (m : Machine)
    → chase k m.mem (m.mem (cell (od 1 m) m)) ≡ some a
    → up (addr a) (arity (od 4 m)) < cell (od 2 m) m
    → m.bb ≤ m.gl
    → Got k a (cell (od 2 m) m) m (getstr k m)
unfolding getstr begin_write trail structure_stream read_structure
getstr-Got k a m e apart line =
    rw (on_term-some k (m.mem (cell (od 1 m) m)) (at_cell m) _ _ e) (elim (Bool-cases (is_var a)) [
      | inl v ↦ rw v (begun v (leb a m.gl) (λ h. ground (arith, line)))
      | inr v ↦ elim (Bool-cases (is_str a)) [
        | inl s ↦ elim (Bool-cases (m.mem (addr a) == od 4 m)) [
          | inl f ↦
              rw (v, s, f)
                (reads _ s (==→eq _ _ f)
                  (λ i h.
                    copy_cells_at (arity (od 4 m) + 1) 0 (cell (od 2 m) m) (addr a) m.mem i
                      (omega arith) (omega arith) (omega arith))
                  (λ c h.
                    copy_cells_below (arity (od 4 m) + 1) 0 (cell (od 2 m) m) (addr a) m.mem c
                      (omega arith)))
          | inr f ↦ rw (v, s, f) (refuses v (rw (s, f) refl))
        ]
        | inr s ↦ rw (v, s) (refuses v (rw s refl))
      ]
    ])
  where
    begun :
        is_var a ≡ true
        → (t : Bool) → (a < m.bb → t ≡ true)
        → Got k a (cell (od 2 m) m) m (
            let m1 = at_cell m in
            let m2 =
              (if t
                then push_trail a (store a (make_str (cell (od 2 m) m)) m1)
                else store a (make_str (cell (od 2 m) m)) m1) in
            structure_stream 3 (record m2 { gp = down (cell (od 2 m) m) 1 }))
    begun v true r =
        writes _
          (Logged-registers _
            (Logged-bind a (make_str (cell (od 2 m) m)) true (Logged-refl m)
              (chase-end k m.mem (m.mem (cell (od 1 m) m)) e v) v r)
            refl refl refl refl)
          (stored k (m.mem (cell (od 1 m) m)) (make_str (cell (od 2 m) m)) a m.mem
            (not_var (cell (od 2 m) m)) e v)
          refl refl
    begun v false r =
        writes _
          (Logged-registers _
            (Logged-bind a (make_str (cell (od 2 m) m)) false (Logged-refl m)
              (chase-end k m.mem (m.mem (cell (od 1 m) m)) e v) v r)
            refl refl refl refl)
          (stored k (m.mem (cell (od 1 m) m)) (make_str (cell (od 2 m) m)) a m.mem
            (not_var (cell (od 2 m) m)) e v)
          refl refl
