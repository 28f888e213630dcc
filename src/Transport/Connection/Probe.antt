-- ===== src/Transport/Connection/Probe.antt =====
-- The search of `hash` in transport/connection.c: linear probing from the place of the key.
use mlvm.Base.{
  ℕ, zero, suc, ◌+◌, ◌%◌, ◌<◌, ◌≡◌, ◌≢◌, refl, sym, subst, ap, ◌∙◌, true, false, Option, some, none,
  if◌then◌else◌, ◌==◌, update, ◌⊎◌, inl, inr, Bool-cases, arith, ==→eq, ==→ne,
}
use mlvm.Transport.Connection.{
  Net, ConStatus, hash, hash_rounds, advance, takes, is_free, max_connection,
}
use mlvm.Transport.Connection.Locks.{IsReleased, unlock-lock}

-- The `k`-th entry that a search for the key looks at.
abbrev pub probe : ℕ → ℕ → ℕ
probe key k = (key % max_connection + k) % max_connection

-- The mutex of an entry is taken.
abbrev pub locked : ℕ → Net → Net
locked i s = record s { held = update s.held i true }

advance-probe : (key k : ℕ) → advance (probe key k) ≡ probe key (suc k)
advance-probe key k = ground arith

-- The search is back where it began after 255 entries.
probe-start :
    (key k : ℕ)
    → k < max_connection
    → probe key (suc k) ≡ key % max_connection
    → suc k ≡ max_connection
probe-start key k h e = omega arith

probe-around : (key k : ℕ) → suc k ≡ max_connection → probe key (suc k) ≡ key % max_connection
probe-around key k e = omega arith

module _ (key : ℕ) (status : ConStatus) (s : Net) where
  -- The search goes past the `k`-th entry.
  abbrev pub Passes : ℕ → Type 0
  Passes k =
      (is_free (s.hash_table (probe key k)).status ≡ false)
      × (takes key status (s.hash_table (probe key k)) ≡ false)

  -- The search ends at the entry: it is free and a free one is wanted, or it has the key and the
  -- status.
  abbrev pub Hits : ℕ → Type 0
  Hits i =
      ((is_free (s.hash_table i).status ≡ true) × (is_free status ≡ true))
      ⊎ ((is_free (s.hash_table i).status ≡ false) × (takes key status (s.hash_table i) ≡ true))

  -- What a search may return: the first entry on the way that it can end at, with its mutex, or
  -- NULL where a free entry comes before any such, or where all entries are passed.
  pub data Hashed (r : Option ℕ × Net) : Type 0 where
    found :
        (k : ℕ)
        → k < max_connection
        → ((j : ℕ) → j < k → Passes j)
        → Hits (probe key k)
        → r ≡ (some (probe key k), locked (probe key k) s)
        → Hashed r
    stopped :
        (k : ℕ)
        → k < max_connection
        → ((j : ℕ) → j < k → Passes j)
        → is_free (s.hash_table (probe key k)).status ≡ true
        → is_free status ≡ false
        → r ≡ (none, s)
        → Hashed r
    full : ((j : ℕ) → j < max_connection → Passes j) → r ≡ (none, s) → Hashed r

  -- The search ends, with such a result.
  abbrev pub Ends : Option (Option ℕ × Net) → Type 0
  Ends o = (r : Option ℕ × Net) × (o ≡ some r) × Hashed r

  hash_rounds-run :
      (fuel slot i : ℕ)
      → s.held i ≡ false
      → hash_rounds (suc fuel) key status slot i s ≡ (
          if is_free (s.hash_table i).status
          then some (if is_free status then (some i, locked i s) else (none, s))
          else if takes key status (s.hash_table i)
          then some (some i, locked i s)
          else if advance i == slot
          then some (none, s)
          else hash_rounds fuel key status slot (advance i) s)
  unfolding hash_rounds
  hash_rounds-run fuel slot i h =
      rw (h, hash_rounds)
        (ap
          (λ t.
            (if is_free (s.hash_table i).status
              then some (if is_free status then (some i, locked i s) else (none, t))
              else if takes key status (s.hash_table i)
              then some (some i, locked i s)
              else if advance i == slot
              then some (none, t)
              else hash_rounds fuel key status slot (advance i) t))
          (unlock-lock i s h))

  hash_rounds-Ends :
      (fuel k : ℕ)
      → IsReleased s
      → k + fuel ≡ max_connection
      → k < max_connection
      → ((j : ℕ) → j < k → Passes j)
      → Ends (hash_rounds fuel key status (key % max_connection) (probe key k) s)
  hash_rounds-Ends zero k h e lt before = absurd (omega arith)
  hash_rounds-Ends (suc fuel) k h e lt before =
      rw (hash_rounds-run fuel (key % max_connection) (probe key k) (h (probe key k)))
        (elim (Bool-cases (is_free (s.hash_table (probe key k)).status)) [
          | inl f ↦ elim (Bool-cases (is_free status)) [
            | inl w ↦ rw (f, w) (_, refl, found k lt before (inl (f, w)) refl)
            | inr w ↦ rw (f, w) (_, refl, stopped k lt before f w refl)
          ]
          | inr f ↦ elim (Bool-cases (takes key status (s.hash_table (probe key k)))) [
            | inl t ↦ rw (f, t) (_, refl, found k lt before (inr (f, t)) refl)
            | inr t ↦
                rw (f, t)
                  (let passed : (j : ℕ) → j < suc k → Passes j = λ j l. elim (Bool-cases (j == k)) [
                    | inl q ↦ subst Passes (sym (==→eq j k q)) (f, t)
                    | inr q ↦ before j (omega (arith, ==→ne j k q))
                  ] in
                    elim (Bool-cases (advance (probe key k) == key % max_connection)) [
                      | inl w ↦
                          rw w (_, refl, full (λ j l. passed j (omega (arith, l, back w))) refl)
                      | inr w ↦ rw w (
                          let n = advance-probe key k in
                          rw n (
                            hash_rounds-Ends fuel (suc k) h (omega (arith, e))
                              (omega (arith, lt, on w)) passed))
                    ])
          ]
        ])
    where
      back : (advance (probe key k) == key % max_connection) ≡ true → suc k ≡ max_connection
      back w = probe-start key k lt (sym (advance-probe key k) ∙ ==→eq _ _ w)

      on : (advance (probe key k) == key % max_connection) ≡ false → suc k ≢ max_connection
      on w q = ==→ne _ _ w (advance-probe key k ∙ probe-around key k q)

  -- Where no mutex is held, `hash` ends, and returns the first entry on its way that is free, if a
  -- free one is wanted, or that has the wanted status and address, and keeps its mutex. It returns
  -- NULL, with no mutex held, exactly when a free entry comes first and is not wanted, or when all
  -- entries are passed.
  pub hash-Ends : IsReleased s → Ends (hash key status s)
  unfolding hash
  hash-Ends h =
      let e : key % max_connection ≡ probe key 0 = omega arith in
      subst (λ i. Ends (hash_rounds max_connection key status (key % max_connection) i s)) (sym e)
        (hash_rounds-Ends max_connection 0 h refl (omega arith) (λ j l. absurd (omega (arith, l))))
