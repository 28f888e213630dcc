-- ===== src/Transport/Connection/Lookup.antt =====
-- con_new and lookup_con of transport/connection.c: which entry a new connection gets, and which
-- connections are found again.
use mlvm.Base.{
  ℕ, ◌+◌, ◌-◌, ◌%◌, ◌<◌, ◌≡◌, refl, subst, ap, ◌∙◌, true, false, Option, some, none, inl, inr,
  arith,
}
use mlvm.Transport.Connection.{
  Net, SockAddr, is_free, is_active, max_connection, c_free, c_active, c_locked, con_new, new_at,
  claim, entry, lookup_con, lookup_at, set_status,
}
use mlvm.Transport.Connection.Locks.{IsReleased, unlock-lock, trylock-run}
use mlvm.Transport.Connection.Probe.{probe, Passes, Hashed, found, stopped, full, hash-Ends}

module _ (raddr : SockAddr) (s : Net) where
  -- The first free entry from the place of the address on is locked, with the peer's address and
  -- no local one; or no entry is free, and nothing changes.
  pub data Created (r : Option ℕ × Net) : Type 0 where
    created :
        (k : ℕ)
        → k < max_connection
        → ((j : ℕ) → j < k → is_free (s.hash_table (probe raddr.s_addr j)).status ≡ false)
        → is_free (s.hash_table (probe raddr.s_addr k)).status ≡ true
        → r ≡ (
          some (probe raddr.s_addr k),
          entry (probe raddr.s_addr k) (claim raddr (s.hash_table (probe raddr.s_addr k))) s,
        )
        → Created r
    refused :
        ((i : ℕ) → i < max_connection → is_free (s.hash_table i).status ≡ false)
        → r ≡ (none, s)
        → Created r

  Hashed-Created :
      IsReleased s
      → (r : Option ℕ × Net) → Hashed raddr.s_addr c_free s r
      → Created (new_at raddr r)
  Hashed-Created h r (found k lt before (inl (f, w)) e) =
      created k lt (λ j l. (before j l).0) f
        (ap (new_at raddr) e
          ∙ ap (λ t. (some (probe raddr.s_addr k), t))
              (unlock-lock (probe raddr.s_addr k)
                (entry (probe raddr.s_addr k) (claim raddr (s.hash_table (probe raddr.s_addr k))) s)
                (h (probe raddr.s_addr k))))
  Hashed-Created h r (found k lt before (inr (f, t)) e) = absurd (ground arith)
  Hashed-Created h r (stopped k lt before f w e) = absurd (cc)
  Hashed-Created h r (full all e) =
      refused
        (λ i l.
          subst (λ n. is_free (s.hash_table n).status ≡ false) (place i l)
            (all ((i + max_connection - raddr.s_addr % max_connection) % max_connection)
              (omega arith)).0)
        (ap (new_at raddr) e)
    where
      place :
          (i : ℕ)
          → i < max_connection
          → probe raddr.s_addr
              ((i + max_connection - raddr.s_addr % max_connection) % max_connection)
            ≡ i
      place i l = omega arith

  -- Where no mutex is held, `con_new` ends with no mutex held. The new connection is the first free
  -- entry from the place of its address on: it is locked and has the address and port of the peer,
  -- and no other entry changes. It is NULL only where all 255 entries are in use, and then nothing
  -- changes.
  pub con_new-Created : IsReleased s → (r : Option ℕ × Net) × (con_new raddr s ≡ some r) × Created r
  unfolding con_new
  con_new-Created h =
      let (r, e, d) = hash-Ends raddr.s_addr c_free s h in
      (new_at raddr r, rw e, Hashed-Created h r d)

  -- A connection to the address is active, and is locked for the caller; or the search meets none
  -- before a free entry or the end.
  pub data Looked (r : Option ℕ × Net) : Type 0 where
    hit :
        (k : ℕ)
        → k < max_connection
        → ((j : ℕ) → j < k → Passes raddr.s_addr c_active s j)
        → is_active (s.hash_table (probe raddr.s_addr k)).status ≡ true
        → (s.hash_table (probe raddr.s_addr k)).peer.s_addr ≡ raddr.s_addr
        → r ≡ (some (probe raddr.s_addr k), set_status (probe raddr.s_addr k) c_locked s)
        → Looked r
    gap :
        (k : ℕ)
        → k < max_connection
        → ((j : ℕ) → j < k → Passes raddr.s_addr c_active s j)
        → is_free (s.hash_table (probe raddr.s_addr k)).status ≡ true
        → r ≡ (none, s)
        → Looked r
    nowhere :
        ((j : ℕ) → j < max_connection → Passes raddr.s_addr c_active s j) → r ≡ (none, s) → Looked r

  Hashed-Looked :
      IsReleased s
      → (r : Option ℕ × Net) → Hashed raddr.s_addr c_active s r
      → (r' : Option ℕ × Net) × (lookup_at r ≡ some r') × Looked r'
  unfolding lookup_at
  Hashed-Looked h r (found k lt before (inl (f, w)) e) = absurd (cc)
  Hashed-Looked h r (found k lt before (inr (f, t)) e) =
      let i = probe raddr.s_addr k in
      let a : is_active (s.hash_table i).status ≡ true = ground arith in
      rw (e, lookup_at, unlock-lock i s (h i), trylock-run i s (h i), a)
        (_, refl, hit k lt before a (ground arith) refl)
  Hashed-Looked h r (stopped k lt before f w e) =
      rw (e, lookup_at) (_, refl, gap k lt before f refl)
  Hashed-Looked h r (full all e) = rw (e, lookup_at) (_, refl, nowhere all refl)

  -- Where no mutex is held, `lookup_con` ends with no mutex held. It returns the first active
  -- connection to the address from the place of the address on, before any free entry, and has
  -- changed it to locked and nothing else; or there is none, and nothing changes.
  pub lookup_con-Looked :
      IsReleased s → (r : Option ℕ × Net) × (lookup_con raddr s ≡ some r) × Looked r
  unfolding lookup_con
  lookup_con-Looked h =
      let (r, e, d) = hash-Ends raddr.s_addr c_active s h in
      let (r', e', d') = Hashed-Looked h r d in (r', rw e e', d')
