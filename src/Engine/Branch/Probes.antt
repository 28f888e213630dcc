-- ===== src/Engine/Branch/Probes.antt =====
-- The hash tables of engine/engine.c: where the search for a key ends.
use native.Mathlib.Nat.{mod-add-mod, mod-eq_of_lt, mod-lt}
use mlvm.Base.{
  ℕ, zero, suc, ◌+◌, ◌-◌, ◌*◌, ◌%◌, ◌≤◌, ◌<◌, ◌≡◌, ◌≢◌, ◌⊎◌, refl, sym, ap, subst, ◌∙◌, inl, inr,
  true, false, ◌||◌, Option, some, ◌==◌, Bool-cases, ==→eq, ==→ne, arith,
}
use mlvm.Engine.Word.{tag, is_con}
use mlvm.Engine.Machine.{Machine, up, od, cell, jump}
use mlvm.Engine.Unify.{deref}
use mlvm.Engine.Arithmetic.{unknown_type}
use mlvm.Engine.Arithmetic.Integers.{with_operand-some}
use mlvm.Engine.Branch.{probe, hash_key, do_hash, hashing}

-- The key in the entry that is `n` places after `dx`, around the end of the table.
abbrev pub slot : (mem : ℕ → ℕ) (table cx dx n : ℕ) → ℕ
slot mem table cx dx n = mem (up table ((dx + n) % cx * 2))

-- The search has ended at the first entry, from `dx` on, that is empty or holds the key.
pub record Probed (mem : ℕ → ℕ) (table cx ax dx n : ℕ) (o : Option ℕ) : Type 0 where
  pub entry : o ≡ some (up table ((dx + n) % cx * 2))
  pub hit : (slot mem table cx dx n ≡ 0) ⊎ (slot mem table cx dx n ≡ ax)
  pub passed : (i : ℕ) → i < n → (slot mem table cx dx i ≢ 0) × (slot mem table cx dx i ≢ ax)

slot-zero :
    (mem : ℕ → ℕ) (table cx dx : ℕ) → dx < cx → slot mem table cx dx 0 ≡ mem (up table (dx * 2))
slot-zero mem table cx dx b = let z : dx + 0 ≡ dx = omega arith in rw (z, mod-eq_of_lt b) refl

place-suc : (cx dx n : ℕ) → ((dx + 1) % cx + n) % cx ≡ (dx + suc n) % cx
place-suc cx dx n =
    let s : dx + 1 + n ≡ dx + suc n = omega arith in mod-add-mod (dx + 1) cx n ∙ ap (λ j. j % cx) s

slot-suc :
    (mem : ℕ → ℕ) (table cx dx n : ℕ)
    → slot mem table cx ((dx + 1) % cx) n ≡ slot mem table cx dx (suc n)
slot-suc mem table cx dx n = ap (λ j. mem (up table (j * 2))) (place-suc cx dx n)

Probed-here :
    (mem : ℕ → ℕ) (table cx ax dx : ℕ)
    → dx < cx
    → ((mem (up table (dx * 2)) == 0) || (ax == mem (up table (dx * 2)))) ≡ true
    → Probed mem table cx ax dx 0 (some (up table (dx * 2)))
Probed-here mem table cx ax dx b e =
    let z : dx + 0 ≡ dx = omega arith in
    record {
      entry = rw (z, mod-eq_of_lt b) refl;
      hit = rw (slot-zero mem table cx dx b) (ground (arith, e));
      passed = λ i h. absurd (omega arith);
    }

Probed-suc :
    (mem : ℕ → ℕ) (table cx ax dx n : ℕ) {o : Option ℕ}
    → dx < cx
    → ((mem (up table (dx * 2)) == 0) || (ax == mem (up table (dx * 2)))) ≡ false
    → Probed mem table cx ax ((dx + 1) % cx) n o
    → Probed mem table cx ax dx (suc n) o
Probed-suc mem table cx ax dx n b e r = record {
  entry = r.entry ∙ ap (λ j. some (up table (j * 2))) (place-suc cx dx n);
  hit = rw (← slot-suc mem table cx dx n) r.hit;
  passed = λ i h. elim (Bool-cases (i == 0)) [
    | inl q ↦ let z : i ≡ 0 = ==→eq i 0 q in rw (z, slot-zero mem table cx dx b) (ground (arith, e))
    | inr q ↦
        let z : i ≡ suc (i - 1) = omega (arith, ==→ne i 0 q) in
        rw z
          (rw (← slot-suc mem table cx dx (i - 1)) (r.passed (i - 1) (omega (arith, ==→ne i 0 q))))
  ];
}

-- A search that has `d` entries before an empty one ends within `d + 1` rounds.
pub probe-Probed :
    (d k : ℕ) (mem : ℕ → ℕ) (table cx ax dx : ℕ)
    → d < k
    → dx < cx
    → slot mem table cx dx d ≡ 0
    → (n : ℕ) × ((n ≤ d) × Probed mem table cx ax dx n (probe k mem table cx ax dx))
unfolding probe
probe-Probed d zero mem table cx ax dx h b z = absurd (omega arith)
probe-Probed d (suc k) mem table cx ax dx h b z =
    elim (Bool-cases ((mem (up table (dx * 2)) == 0) || (ax == mem (up table (dx * 2))))) [
      | inl e ↦ (0, (omega arith, rw (e, probe) (Probed-here mem table cx ax dx b e)))
      | inr e ↦ elim (Bool-cases (d == 0)) [
        | inl q ↦
            let zero_d : d ≡ 0 = ==→eq d 0 q in
            absurd (
              empty
                (sym (slot-zero mem table cx dx b)
                  ∙ subst (λ j. slot mem table cx dx j ≡ 0) zero_d z)
                e)
        | inr q ↦
            let s : suc (d - 1) ≡ d = omega (arith, ==→ne d 0 q) in
            let (n, (l, r)) =
              probe-Probed (d - 1) k mem table cx ax ((dx + 1) % cx) (omega (arith, ==→ne d 0 q))
                (mod-lt (dx + 1) (omega arith))
                (slot-suc mem table cx dx (d - 1)
                  ∙ subst (λ j. slot mem table cx dx j ≡ 0) (sym s) z) in
            (suc n, (omega (arith, s), rw (e, probe) (Probed-suc mem table cx ax dx n b e r)))
      ]
    ]
  where
    empty :
        mem (up table (dx * 2)) ≡ 0
        → ((mem (up table (dx * 2)) == 0) || (ax == mem (up table (dx * 2)))) ≡ false
        → ⊥
    empty z e = ground (arith, z, e)

hash_key-var : (mem : ℕ → ℕ) (w key : ℕ) → hash_key mem w ≡ some key → (tag w == 0) ≡ false
unfolding hash_key
hash_key-var mem w key e = ground (arith, e)

-- The hash table that a `hashing` instruction names, and the number of its entries.
abbrev pub table : Machine → ℕ
table m = up (od 2 m) 3

abbrev pub entries : Machine → ℕ
entries m = m.mem (up (od 2 m) 1)

-- `hashing` on a term with a key, where an entry of the table is empty, `d` places after the one
-- that the key names, and the fuel is more: it jumps to the label of the first entry from there on,
-- around the end of the table, that holds the key or is empty.
pub hashing-Probed :
    (d k : ℕ) (m : Machine) (w key : ℕ)
    → deref k m.mem (cell (od 1 m) m) ≡ some w
    → hash_key m.mem w ≡ some key
    → 0 < entries m
    → d < k
    → slot m.mem (table m) (entries m) (key % entries m) d ≡ 0
    → (n : ℕ) × (Probed m.mem
          (table m)
          (entries m)
          key
          (key % entries m)
          n
          (probe k m.mem (table m) (entries m) key (key % entries m))
        × (hashing k m
            ≡ jump
                (m.mem (up (up (table m) ((key % entries m + n) % entries m * 2)) 1))
                (record m { gp = table m })))
unfolding hashing do_hash
hashing-Probed d k m w key e f c h z =
    let (n, (l, r)) =
      probe-Probed d k m.mem (table m) (entries m) key (key % entries m) h (mod-lt key c) z in
    let some_entries : (entries m == 0) ≡ false = ground arith in
    (
      n,
      (
        r,
        with_operand-some k 1 m _ e
            ∙ (rw (hash_key-var m.mem w key f, f, some_entries, r.entry) refl),
      ),
    )

-- No table is searched for an atom: `hashing` takes it for a term of an unknown type.
pub hashing-atom :
    (k : ℕ) (m : Machine) (w : ℕ)
    → deref k m.mem (cell (od 1 m) m) ≡ some w
    → is_con w ≡ true
    → hashing k m ≡ unknown_type (record m { gp = od 2 m })
unfolding hashing do_hash hash_key
hashing-atom k m w e i =
    let a : (tag w == 0) ≡ false = ground (arith, i) in
    let b : (tag w == 7) ≡ false = ground (arith, i) in
    let c : (tag w == 2) ≡ false = ground (arith, i) in
    with_operand-some k 1 m _ e ∙ (rw (a, b, c) refl)
