-- ===== src/Transport/Connection/Keeper/Sweep.antt =====
-- The loop of the keeper of transport/connection.c over the entries in use.
use mlvm.Base.{
  ℕ, zero, suc, ◌+◌, ◌-◌, ◌<◌, ◌≡◌, refl, ap, ◌∙◌, true, false, ◌&&◌, Option, some, none,
  if◌then◌else◌, ◌==◌, update, inl, inr, Bool-cases, arith, ==→eq, ltb, leb,
}
use mlvm.Transport.Connection.{Net, Con, is_free, max_connection, con_next, next_from}
use mlvm.Transport.Connection.Locks.{IsReleased, unlock-lock}
use mlvm.Transport.Connection.Keeper.{each, each_connection}

-- The first entry in use of the `n` from index `i` on.
first_used : ℕ → ℕ → Net → Option ℕ
first_used zero i s = none
first_used (suc n) i s = if is_free (s.hash_table i).status then first_used n (i + 1) s else some i

next_from-run : (n i : ℕ) (s : Net) → IsReleased s → next_from n i s ≡ some (first_used n i s, s)
unfolding next_from first_used
next_from-run zero i s h = refl
next_from-run (suc n) i s h =
    rw (h i, next_from)
      (ap
          (λ t.
            (if is_free (s.hash_table i).status then next_from n (i + 1) t else some (some i, t)))
          (unlock-lock i s (h i))
        ∙ elim (Bool-cases (is_free (s.hash_table i).status)) [
          | inl e ↦ rw e (next_from-run n (i + 1) s h)
          | inr e ↦ rw e
        ])

-- An operation on the entries, at each of the `n` from index `i` on.
pub sweep : (ℕ → Net → Net) → ℕ → ℕ → Net → Net
sweep f zero i s = s
sweep f (suc n) i s = sweep f n (i + 1) (f i s)

-- The loop runs its body at each entry in use, in order, where the body keeps the mutexes released
-- and an invariant `P`.
module _ (P : Net → Type 0) (body : ℕ → Net → Option Net) (f : ℕ → Net → Net)
    (released : (s : Net) → P s → IsReleased s) (kept : (i : ℕ) (s : Net) → P s → P (f i s))
    (runs : (i : ℕ) (s : Net)
      → P s
      → is_free (s.hash_table i).status ≡ false
      → body i s ≡ some (f i s))
    (skips : (i : ℕ) (s : Net) → is_free (s.hash_table i).status ≡ true → f i s ≡ s) where
  each-sweep :
      (n fuel i : ℕ) (s : Net)
      → P s
      → n < fuel
      → i + n ≡ max_connection
      → each body fuel (first_used n i s) s ≡ some (sweep f n i s)
  unfolding each sweep first_used con_next
  each-sweep n zero i s p l e = absurd (omega (arith, l))
  each-sweep zero (suc fuel) i s p l e = refl
  each-sweep (suc n) (suc fuel) i s p l e = elim (Bool-cases (is_free (s.hash_table i).status)) [
    | inl z ↦
        rw (z, skips i s z)
          (each-sweep n (suc fuel) (i + 1) s p (omega (arith, l)) (omega (arith, e)))
    | inr z ↦
        let d : max_connection - (i + 1) ≡ n = omega (arith, e) in
        rw
          (
            z,
            each,
            runs i s p z,
            con_next,
            d,
            next_from-run n (i + 1) (f i s) (released _ (kept i s p)),
          )
          (each-sweep n fuel (i + 1) (f i s) (kept i s p) (omega (arith, l)) (omega (arith, e)))
  ]

  pub each_connection-sweep :
      (s : Net) → P s → each_connection body s ≡ some (sweep f max_connection 0 s)
  unfolding each_connection con_next
  each_connection-sweep s p =
      rw (next_from-run max_connection 0 s (released s p), each_connection)
        (each-sweep max_connection (max_connection + 1) 0 s p (omega arith) refl)

-- What an operation on the entries makes of each entry, where it makes `g` of one and leaves the
-- others.
pub sweep-at :
    (f : ℕ → Net → Net) (g : Con → Con)
    → ((i : ℕ) (s : Net) → (f i s).hash_table ≡ update s.hash_table i (g (s.hash_table i)))
    → (n i j : ℕ) (s : Net)
    → (sweep f n i s).hash_table j
      ≡ (if leb i j && ltb j (i + n) then g (s.hash_table j) else s.hash_table j)
unfolding sweep
sweep-at f g at zero i j s = ground arith
sweep-at f g at (suc n) i j s =
    sweep-at f g at n (i + 1) j (f i s)
    ∙ rw (at i s) (elim (Bool-cases (j == i)) [
      | inl e ↦ rw (==→eq j i e) (ground arith)
      | inr e ↦ rw e (ground arith)
    ])

-- An invariant that the operation keeps.
pub sweep-keeps :
    (P : Net → Type 0) (f : ℕ → Net → Net)
    → ((i : ℕ) (s : Net) → P s → P (f i s))
    → (n i : ℕ) (s : Net) → P s
    → P (sweep f n i s)
unfolding sweep
sweep-keeps P f kept zero i s p = p
sweep-keeps P f kept (suc n) i s p = sweep-keeps P f kept n (i + 1) (f i s) (kept i s p)
