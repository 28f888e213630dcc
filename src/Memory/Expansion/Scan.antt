-- ===== src/Memory/Expansion/Scan.antt =====
-- The stack scan of do_expansion in memory/mmanager.c, against a plain relocation of a list of words.
use mlvm.Base.{
  ℕ, zero, suc, ◌+◌, ◌-◌, ◌*◌, ◌<◌, ◌≤◌, ◌≡◌, refl, ap, ap₂, ◌∙◌, ◌⊎◌, inl, inr, true, false, ◌&&◌,
  Option, some, List, [], ◌∷◌, if◌then◌else◌, ltb, leb, ◌==◌, update, arith, Bool-cases, subst,
  ltb→lt, ltb→le, ne→==, ==-refl,
}
use mlvm.Engine.Word.{word, is_cst, fvl_tag}
use mlvm.Engine.Machine.{up}
use mlvm.Memory.{Shift, move_word}
use mlvm.Memory.Expansion.{Memory, scan_stack}

-- The `n` words from an address on.
unfoldable pub cells : Memory → ℕ → ℕ → List ℕ
cells mem a zero = []
cells mem a (suc n) = mem a ∷ cells mem (up a 1) n

-- A word that is moved where it is a pointer.
abbrev pub relocated : Shift → ℕ → ℕ
relocated s w = if is_cst w then w else move_word s w

-- The words of a stack in the new block: the two words behind the functor of a floating-point value
-- are no terms and stay. The number says how many such words come first.
unfoldable pub relocate : Shift → ℕ → List ℕ → List ℕ
relocate s skip [] = []
relocate s (suc skip) (w ∷ ws) = w ∷ relocate s skip ws
relocate s zero (w ∷ ws) =
    relocated s w ∷ relocate s (if is_cst w && (w == fvl_tag) then 2 else 0) ws

cells-update_lt : (mem : Memory) (k a n v : ℕ) → k < a → cells (update mem k v) a n ≡ cells mem a n
unfolding cells
cells-update_lt mem k a zero v h = refl
cells-update_lt mem k a (suc n) v h =
    let apart : (a == k) ≡ false = ground arith in
    rw apart (ap (◌∷◌ (mem a)) (cells-update_lt mem k (up a 1) n v (omega (arith, h))))

-- What the scan of the words from `a` to `st` leaves.
pub record Scanned (s : Shift) (a n : ℕ) (mem out : Memory) : Type 0 where
  pub moved : cells out a n ≡ relocate s 0 (cells mem a n)
  pub kept : (p : ℕ) → (p < a) ⊎ (a + word * n ≤ p) → out p ≡ mem p

abbrev pub ScansTo : Shift → ℕ → ℕ → Memory → Option Memory → Type 0
ScansTo s a n mem o = (out : Memory) × (o ≡ some out) × Scanned s a n mem out

scan_stack-beyond :
    (fuel : ℕ) (s : Shift) (a st : ℕ) (mem : Memory)
    → 0 < fuel
    → st < a
    → scan_stack fuel s a st mem ≡ some mem
unfolding scan_stack
scan_stack-beyond zero s a st mem p h = absurd (omega (arith, p))
scan_stack-beyond (suc fuel) s a st mem p h =
    let over : leb a st ≡ false = ground arith in rw (over, scan_stack)

-- An address outside of some words is outside of fewer of them.
outside :
    (a n k m p : ℕ)
    → m ≡ k + n
    → (p < a) ⊎ (a + word * m ≤ p)
    → (p < up a k) ⊎ (up a k + word * n ≤ p)
outside a n k m p e (inl h) = inl (omega (arith, h))
outside a n k m p e (inr h) = inr (omega (arith, h, e))

outside-ne : (a n p : ℕ) → (p < a) ⊎ (a + word * suc n ≤ p) → (p == a) ≡ false
outside-ne a n p (inl h) = ne→== p a (λ e. omega (arith, h, e))
outside-ne a n p (inr h) = ne→== p a (λ e. omega (arith, h, e))

module _ (s : Shift) (st : ℕ) where
  scan_stack-pointer :
      (fuel a : ℕ) (mem : Memory)
      → a ≤ st
      → is_cst (mem a) ≡ false
      → scan_stack (suc fuel) s a st mem
        ≡ scan_stack fuel s (up a 1) st (update mem a (move_word s (mem a)))
  unfolding scan_stack
  scan_stack-pointer fuel a mem h c =
      let under : leb a st ≡ true = ground arith in rw (under, c, scan_stack)

  scan_stack-constant :
      (fuel a : ℕ) (mem : Memory)
      → a ≤ st
      → is_cst (mem a) ≡ true
      → (mem a == fvl_tag) ≡ false
      → scan_stack (suc fuel) s a st mem ≡ scan_stack fuel s (up a 1) st mem
  unfolding scan_stack
  scan_stack-constant fuel a mem h c f =
      let under : leb a st ≡ true = ground arith in rw (under, c, f, scan_stack)

  scan_stack-float :
      (fuel a : ℕ) (mem : Memory)
      → a ≤ st
      → is_cst (mem a) ≡ true
      → (mem a == fvl_tag) ≡ true
      → scan_stack (suc fuel) s a st mem ≡ scan_stack fuel s (up a 3) st mem
  unfolding scan_stack
  scan_stack-float fuel a mem h c f =
      let under : leb a st ≡ true = ground arith in rw (under, c, f, scan_stack)

  -- One word more, in front of words that are scanned.
  Scanned-pointer :
      (a n : ℕ) (mem out : Memory)
      → is_cst (mem a) ≡ false
      → Scanned s (up a 1) n (update mem a (move_word s (mem a))) out
      → Scanned s a (suc n) mem out
  unfolding cells relocate
  Scanned-pointer a n mem out c r = record {
    moved =
        rw (c, relocate)
          (ap₂ (λ x xs. x ∷ xs) (r.kept a (inl (omega arith)) ∙ rw (==-refl a))
            (r.moved ∙ ap (relocate s 0) (cells-update_lt mem a (up a 1) n _ (omega arith))));
    kept = λ p h. r.kept p (outside a n 1 (suc n) p (omega arith) h) ∙ rw (outside-ne a n p h);
  }

  Scanned-constant :
      (a n : ℕ) (mem out : Memory)
      → is_cst (mem a) ≡ true
      → (mem a == fvl_tag) ≡ false
      → Scanned s (up a 1) n mem out
      → Scanned s a (suc n) mem out
  unfolding cells relocate
  Scanned-constant a n mem out c f r = record {
    moved = rw (c, f, relocate) (ap₂ (λ x xs. x ∷ xs) (r.kept a (inl (omega arith))) r.moved);
    kept = λ p h. r.kept p (outside a n 1 (suc n) p (omega arith) h);
  }

  -- A floating-point value that the stack ends in.
  Scanned-short :
      (a : ℕ) (mem : Memory) (n : ℕ)
      → is_cst (mem a) ≡ true
      → (mem a == fvl_tag) ≡ true
      → n ≤ 2
      → Scanned s a (suc n) mem mem
  unfolding cells relocate
  Scanned-short a mem zero c f l = record { moved = rw (c, relocate); kept = λ p h. refl }
  Scanned-short a mem (suc zero) c f l = record { moved = rw (c, f, relocate); kept = λ p h. refl }
  Scanned-short a mem (suc (suc zero)) c f l = record {
    moved = rw (c, f, relocate);
    kept = λ p h. refl;
  }
  Scanned-short a mem (suc (suc (suc n))) c f l = absurd (omega (arith, l))

  Scanned-float :
      (a n : ℕ) (mem out : Memory)
      → is_cst (mem a) ≡ true
      → (mem a == fvl_tag) ≡ true
      → Scanned s (up a 3) n mem out
      → Scanned s a (suc (suc (suc n))) mem out
  unfolding cells relocate
  Scanned-float a n mem out c f r =
      let e : a + 4 + 4 + 4 ≡ a + 12 = omega arith in
      record {
        moved =
            rw (c, f, relocate, e)
              (ap₂ (λ x xs. x ∷ xs) (r.kept a (inl (omega arith)))
                (ap₂ (λ x xs. x ∷ xs) (r.kept (up a 1) (inl (omega arith)))
                  (ap₂ (λ x xs. x ∷ xs) (r.kept (a + 4 + 4) (inl (omega arith))) r.moved)));
        kept = λ p h. r.kept p (outside a n 3 (suc (suc (suc n))) p (omega arith) h);
      }

  -- With more fuel than there are words, the scan ends.
  pub scan_stack-scans :
      (fuel n a : ℕ) (mem : Memory)
      → n < fuel
      → st + word ≡ a + word * n
      → ScansTo s a n mem (scan_stack fuel s a st mem)
  unfolding cells relocate
  scan_stack-scans zero n a mem l e = absurd (omega (arith, l))
  scan_stack-scans (suc fuel) zero a mem l e =
      rw (scan_stack-beyond (suc fuel) s a st mem (omega arith) (omega (arith, e)))
        (mem, refl, record { moved = refl; kept = λ p h. refl })
  scan_stack-scans (suc fuel) (suc n) a mem l e = elim (Bool-cases (is_cst (mem a))) [
    | inr c ↦
        let (out, q, r) =
          scan_stack-scans fuel n (up a 1) (update mem a (move_word s (mem a))) (omega (arith, l))
            (omega (arith, e)) in
        rw (scan_stack-pointer fuel a mem (omega (arith, e)) c, q)
          (out, refl, Scanned-pointer a n mem out c r)
    | inl c ↦ elim (Bool-cases (mem a == fvl_tag)) [
      | inr f ↦
          let (out, q, r) =
            scan_stack-scans fuel n (up a 1) mem (omega (arith, l)) (omega (arith, e)) in
          rw (scan_stack-constant fuel a mem (omega (arith, e)) c f, q)
            (out, refl, Scanned-constant a n mem out c f r)
      | inl f ↦
          rw (scan_stack-float fuel a mem (omega (arith, e)) c f) (elim (Bool-cases (ltb n 2)) [
            | inl short ↦
                rw
                  (scan_stack-beyond fuel s (up a 3) st mem (omega (arith, l))
                    (omega (arith, e, ltb→lt n 2 short)))
                  (mem, refl, Scanned-short a mem n c f (omega (arith, ltb→lt n 2 short)))
            | inr long ↦
                let (out, q, r) =
                  scan_stack-scans fuel (n - 2) (up a 3) mem (omega (arith, l))
                    (omega (arith, e, ltb→le n 2 long)) in
                let m : suc (suc (suc (n - 2))) ≡ suc n = omega (arith, ltb→le n 2 long) in
                rw q (
                  out,
                  refl,
                  subst (λ k. Scanned s a k mem out) m (Scanned-float a (n - 2) mem out c f r),
                )
          ])
    ]
  ]
