-- ===== src/Memory/Expansion/Trails.antt =====
-- The trail, and the trail pointers of the frames, in do_expansion of memory/mmanager.c.
use mlvm.Base.{
  ℕ, zero, suc, ◌+◌, ◌%◌, ◌<◌, ◌≤◌, ◌≡◌, refl, ◌∙◌, inl, inr, Bool, true, false, ◌||◌, Option, some,
  List, [], ◌∷◌, length, if◌then◌else◌, ltb, ◌==◌, update, arith, Bool-cases, ==→eq, ==-refl,
}
use mlvm.Engine.Machine.{down}
use mlvm.Memory.{uint}
use mlvm.Memory.Expansion.{Memory, adjust_chain}

-- The frames of a chain, the newest first: the next frame is `*(f - link)`, and the last one leads
-- to no frame above `base`.
abbrev pub Frames : (link : ℕ) → Memory → (tp base : ℕ) → List ℕ → Type 0
Frames link mem tp base [] = tp ≤ base
Frames link mem tp base (f ∷ fs) =
    (tp ≡ f) × (base < f) × Frames link mem (mem (down f link)) base fs

-- Whether an address is that of the trail pointer of a frame.
abbrev pub is_tt : ℕ → List ℕ → Bool
is_tt q [] = false
is_tt q (f ∷ fs) = (q == down f 2) || is_tt q fs

-- No frame's link is a trail pointer, and no two trail pointers are one word.
abbrev pub Clear : (link : ℕ) → (fs gs : List ℕ) → Type 0
Clear link fs [] = Unit {0}
Clear link fs (g ∷ gs) = (is_tt (down g link) fs ≡ false) × Clear link fs gs

abbrev pub Distinct : List ℕ → Type 0
Distinct [] = Unit {0}
Distinct (f ∷ fs) = (is_tt (down f 2) fs ≡ false) × Distinct fs

Clear-tail : (link f : ℕ) (fs gs : List ℕ) → Clear link (f ∷ fs) gs → Clear link fs gs
Clear-tail link f fs [] c = tt
Clear-tail link f fs (g ∷ gs) c = (ground (arith, c.0), Clear-tail link f fs gs c.1)

Frames-update :
    (link : ℕ) (mem : Memory) (f v tp base : ℕ) (fs gs : List ℕ)
    → Clear link (f ∷ fs) gs
    → Frames link mem tp base gs
    → Frames link (update mem (down f 2) v) tp base gs
Frames-update link mem f v tp base fs [] c h = h
Frames-update link mem f v tp base fs (g ∷ gs) c h =
    let apart : (down g link == down f 2) ≡ false = ground (arith, c.0) in
    (h.0, h.1, rw apart (Frames-update link mem f v (mem (down g link)) base fs gs c.1 h.2))

abbrev Adds : ℕ → List ℕ → Memory → Option Memory → Type 0
Adds adjustment fs mem o =
    (out : Memory) × (o ≡ some out)
    × ((q : ℕ) → out q ≡ (if is_tt q fs then (mem q + adjustment) % uint else mem q))

-- Over a chain of frames whose links and trail pointers are words of their own, with more fuel than
-- there are frames, the loop ends; it has added to the trail pointer of each frame the number of
-- words that the block grows by, not of bytes, and every other word is as it was.
pub adjust_chain-Adds :
    (fuel link adjustment tp base : ℕ) (fs : List ℕ) (mem : Memory)
    → length fs < fuel
    → Frames link mem tp base fs
    → Clear link fs fs
    → Distinct fs
    → Adds adjustment fs mem (adjust_chain fuel link adjustment tp base mem)
unfolding adjust_chain
adjust_chain-Adds zero link adjustment tp base fs mem l h c d = absurd (omega (arith, l))
adjust_chain-Adds (suc fuel) link adjustment tp base [] mem l h c d =
    let over : ltb base tp ≡ false = ground arith in rw (over, adjust_chain) (mem, refl, λ q. refl)
adjust_chain-Adds (suc fuel) link adjustment tp base (f ∷ fs) mem l h c d =
    let more : ltb base f ≡ true = ground (arith, h.1) in
    let apart : (down f link == down f 2) ≡ false = ground (arith, c.0) in
    let (out, e, r) =
      adjust_chain-Adds fuel link adjustment (mem (down f link)) base fs mem' (omega (arith, l))
        (Frames-update link mem f ((mem (down f 2) + adjustment) % uint) (mem (down f link)) base fs
          fs c.1 h.2)
        (Clear-tail link f fs fs c.1) d.1 in
    rw (h.0, more, adjust_chain, apart) (out, e, λ q. r q ∙ at q)
  where
    mem' : Memory
    mem' = update mem (down f 2) ((mem (down f 2) + adjustment) % uint)

    at :
        (q : ℕ)
        → (if is_tt q fs then (mem' q + adjustment) % uint else mem' q)
          ≡ (if is_tt q (f ∷ fs) then (mem q + adjustment) % uint else mem q)
    at q = elim (Bool-cases (q == down f 2)) [
      | inl z ↦ rw (==→eq q (down f 2) z, ==-refl (down f 2), d.0)
      | inr z ↦ rw z
    ]
