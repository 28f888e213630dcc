-- ===== src/Engine/Trail.antt =====
-- The trail macros of include/engine.h.
pub mod Undo
pub mod Idle
use mlvm.Base.{
  ℕ, zero, suc, ◌+◌, ◌-◌, ◌*◌, ◌≤◌, ◌<◌, Bool, true, false, ◌&&◌, List, [], ◌∷◌, ◌++◌, length,
  update, if◌then◌else◌, reverse, take, drop, ◌/◌, ltb, leb, ◌==◌,
}
use mlvm.Engine.Word.{word, is_var, make_str}
use mlvm.Engine.Machine.{Machine, tt_of}

-- `*tt-- = x`
abbrev pub push_trail : ℕ → Machine → Machine
push_trail x m = record m { trail = x ∷ m.trail }

-- `trail(X)` and `bbtrail(X)`
unfoldable pub trail : ℕ → Machine → Machine
trail x m = if leb x m.gl then push_trail x m else m

unfoldable pub bbtrail : ℕ → Machine → Machine
bbtrail x m = if ltb x m.bb then push_trail x m else m

-- `new_generation()`
unfoldable pub new_generation : Machine → Machine
new_generation m = push_trail (make_str m.gl) m

-- The loop of `detrail(X)`: `base` is where the trail starts, `bb` the choice frame.
pub detrail_loop : (base bb x : ℕ) → List ℕ → (ℕ → ℕ) → List ℕ × (ℕ → ℕ)
detrail_loop base bb x [] mem = ([], mem)
detrail_loop base bb x (e ∷ es) mem =
    let rest = detrail_loop base bb x es (if is_var e && ltb e bb then update mem e e else mem) in
    if ltb (base - word * length (e ∷ es)) x then rest else (e ∷ es, mem)

-- `detrail(X)`, up to the contents of `gp`, which no instruction reads after it.
unfoldable pub detrail : ℕ → Machine → Machine
unfolding detrail_loop
detrail x m =
    let (trail, mem) = detrail_loop m.trail_base m.bb x m.trail m.mem in
    record m { trail = trail; mem = mem }

-- The newest word of the trail goes to where the oldest one stood: the list is oldest first.
pub last_first : List ℕ → List ℕ
last_first [] = []
last_first (e ∷ []) = e ∷ []
last_first (e ∷ f ∷ es) = elim (last_first (f ∷ es)) [ [] ↦ [] | l ∷ r ↦ l ∷ e ∷ r ]

-- The loop of `filter_trail()` over the words from `tt` down to above `gp`, oldest first: a root
-- at or below the generation line stays, another gives its place to the newest word.
pub filter_loop : (gl k : ℕ) → List ℕ → List ℕ
filter_loop gl zero es = []
filter_loop gl (suc k) [] = []
filter_loop gl (suc k) (e ∷ es) = elim (leb e gl) [
  | true ↦ e ∷ filter_loop gl k es
  | false ↦ filter_loop gl k (last_first es)
]

-- `filter_trail()`, with `tt` set to where the loop begins. No round is made where `tt` is not
-- above `gp`.
unfoldable pub filter_trail : (gp tt : ℕ) → Machine → Machine
unfolding filter_loop last_first
filter_trail gp tt m =
    let k = (tt - gp) / word in
    record m { trail = reverse (filter_loop m.gl k (reverse (take k m.trail))) ++ drop k m.trail }

-- `clear_trail()`: `gp++; **gp = *gp` while `tt` is above `gp`.
pub clear_loop : List ℕ → (ℕ → ℕ) → ℕ → ℕ
clear_loop [] mem = mem
clear_loop (e ∷ es) mem = clear_loop es (update mem e e)

unfoldable pub clear_trail : (gp tt : ℕ) → Machine → Machine
unfolding clear_loop
clear_trail gp tt m = record m { mem = clear_loop (take ((tt - gp) / word) m.trail) m.mem }
