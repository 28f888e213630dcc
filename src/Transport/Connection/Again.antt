-- ===== src/Transport/Connection/Again.antt =====
-- Which connections lookup_con of transport/connection.c finds again.
use mlvm.Base.{
  ℕ, suc, ◌<◌, ◌≡◌, ◌≢◌, refl, sym, subst, ap, ◌∙◌, true, false, Option, some, none, ◌==◌, inl, inr,
  Bool-cases, arith, ==→eq, ==→ne, ltb, ltb→lt, ltb→le, ==-refl, ne→==,
}
use mlvm.Transport.Connection.{
  Net, Con, ConStatus, SockAddr, takes, is_free, is_active, is_locked, max_connection, c_free,
  c_active, c_locked, con_new, claim, entry, lookup_con, con_unlock, con_free, set_status,
}
use mlvm.Transport.Connection.Locks.{IsReleased, unlock-run, free-run, release}
use mlvm.Transport.Connection.Probe.{probe, Passes}
use mlvm.Transport.Connection.Lookup.{
  Created, created, refused, Looked, hit, gap, nowhere, lookup_con-Looked, con_new-Created,
}

probe-ne : (key j k : ℕ) → j < k → k < max_connection → probe key j ≢ probe key k
probe-ne key j k l h e = absurd (omega (arith, e, l, h))

-- A connection to the address, locked for the caller.
abbrev pub Finds : SockAddr → Option (Option ℕ × Net) → Type 0
Finds raddr o =
    (j : ℕ) × (s : Net) × (o ≡ some (some j, s))
    × ((s.hash_table j).peer.s_addr ≡ raddr.s_addr)
    × ((s.hash_table j).status ≡ c_locked)

-- The state in which an entry is active, with the address, and none before it is free.
module _ (raddr : SockAddr) (s : Net) (k : ℕ) (lt : k < max_connection)
    (before : (j : ℕ) → j < k → is_free (s.hash_table (probe raddr.s_addr j)).status ≡ false)
    (on : (s.hash_table (probe raddr.s_addr k)).status ≡ c_active)
    (to : (s.hash_table (probe raddr.s_addr k)).peer.s_addr ≡ raddr.s_addr) where
  taken : takes raddr.s_addr c_active (s.hash_table (probe raddr.s_addr k)) ≡ true
  taken = rw (on, to) (==-refl raddr.s_addr)

  not_free : (j : ℕ) → j < suc k → is_free (s.hash_table (probe raddr.s_addr j)).status ≡ false
  not_free j l = elim (Bool-cases (j == k)) [
    | inl q ↦ rw (==→eq j k q, on)
    | inr q ↦ before j (omega (arith, ==→ne j k q))
  ]

  Looked-Finds :
      (r : Option ℕ × Net)
      → lookup_con raddr s ≡ some r
      → Looked raddr s r
      → Finds raddr (lookup_con raddr s)
  Looked-Finds r e (hit j l b a p q) = (
    probe raddr.s_addr j,
    _,
    e ∙ ap some q,
    rw (==-refl (probe raddr.s_addr j)) p,
    rw (==-refl (probe raddr.s_addr j)),
  )
  Looked-Finds r e (gap j l b f q) = elim (Bool-cases (ltb k j)) [
    | inl w ↦ cc (taken, (b k (ltb→lt k j w)).1)
    | inr w ↦ cc (f, not_free j (ground arith))
  ]
  Looked-Finds r e (nowhere b q) = cc (taken, (b k lt).1)

-- The entry that `con_new` has made, and `con_unlock` has activated.
module _ (raddr : SockAddr) (s : Net) (h : IsReleased s) (k : ℕ) (lt : k < max_connection)
    (before : (j : ℕ) → j < k → is_free (s.hash_table (probe raddr.s_addr j)).status ≡ false) where
  abbrev made : Net
  made = entry (probe raddr.s_addr k) (claim raddr (s.hash_table (probe raddr.s_addr k))) s

  abbrev activated : Net
  activated = set_status (probe raddr.s_addr k) c_active made

  unlocks : con_unlock (probe raddr.s_addr k) made ≡ some (true, activated)
  unlocks =
      unlock-run (probe raddr.s_addr k) made (h (probe raddr.s_addr k))
      ∙ rw (==-refl (probe raddr.s_addr k))

  activated-Finds : Finds raddr (lookup_con raddr activated)
  activated-Finds =
      let (r, e, d) = lookup_con-Looked raddr activated h in
      Looked-Finds raddr activated k lt
        (λ j l. rw (ne→== _ _ (probe-ne raddr.s_addr j k l lt)) (before j l))
        (rw (==-refl (probe raddr.s_addr k))) (rw (==-refl (probe raddr.s_addr k))) r e d

-- Where no mutex is held, a connection that `con_new` gives can be unlocked, and `lookup_con` of its
-- address then returns a connection to that address, which it has locked.
pub lookup_con-con_new :
    (raddr : SockAddr) (s : Net) (i : ℕ) (s1 : Net)
    → IsReleased s
    → con_new raddr s ≡ some (some i, s1)
    → (s2 : Net) × (con_unlock i s1 ≡ some (true, s2)) × Finds raddr (lookup_con raddr s2)
lookup_con-con_new raddr s i s1 h e = go (con_new-Created raddr s h)
  where
    go :
        (r : Option ℕ × Net) × (con_new raddr s ≡ some r) × Created raddr s r
        → (s2 : Net) × (con_unlock i s1 ≡ some (true, s2)) × Finds raddr (lookup_con raddr s2)
    go (r, e', created k lt before f q) =
        let ei : i ≡ probe raddr.s_addr k = cc in
        let es : s1 ≡ made raddr s h k lt before = cc in
        rw (ei, es)
          (
            activated raddr s h k lt before,
            unlocks raddr s h k lt before,
            activated-Finds raddr s h k lt before,
          )
    go (r, e', refused all q) = absurd (cc)

taken_active :
    (c : Con) (key : ℕ)
    → is_active c.status ≡ true
    → c.peer.s_addr ≡ key
    → takes key c_active c ≡ true
taken_active c key a p = rw (a, p) (==-refl key)

active_occupied : (st : ConStatus) → is_active st ≡ true → is_free st ≡ false
active_occupied c_free q = sym q
active_occupied c_active q = refl
active_occupied c_locked q = refl

true-ne-false : true ≢ false
true-ne-false e = cc

-- Where no mutex is held and the search for an address meets, before its `k`-th entry, no free entry
-- and no active connection to the address: when `con_free` has closed the locked connection that is
-- the `k`-th entry, `lookup_con` returns NULL and changes nothing, whatever connections to the
-- address are active in the entries behind it.
pub lookup_con-con_free :
    (raddr : SockAddr) (s : Net) (k : ℕ)
    → IsReleased s
    → k < max_connection
    → ((j : ℕ) → j < k → Passes raddr.s_addr c_active s j)
    → is_locked (s.hash_table (probe raddr.s_addr k)).status ≡ true
    → (s1 : Net) × (con_free (probe raddr.s_addr k) s ≡ some s1)
      × (lookup_con raddr s1 ≡ some (none, s1))
lookup_con-con_free raddr s k h lt before on =
    let (r, e, d) = lookup_con-Looked raddr s1 h in
    (s1, free-run i s (h i) (locked_inactive _ on), e ∙ ap some (missed r d))
  where
    i : ℕ
    i = probe raddr.s_addr k

    s1 : Net
    s1 = release i s

    locked_inactive : (st : ConStatus) → is_locked st ≡ true → is_active st ≡ false
    locked_inactive c_free q = refl
    locked_inactive c_active q = sym q
    locked_inactive c_locked q = refl

    here : is_free (s1.hash_table (probe raddr.s_addr k)).status ≡ true
    here = rw (==-refl (probe raddr.s_addr k))

    kept : (j : ℕ) → j < k → Passes raddr.s_addr c_active s1 j
    kept j l = rw (ne→== _ _ (probe-ne raddr.s_addr j k l lt)) (before j l)

    missed : (r : Option ℕ × Net) → Looked raddr s1 r → r ≡ (none, s1)
    missed r (hit j l b a p q) = elim (Bool-cases (ltb j k)) [
      | inl w ↦ absurd (
          true-ne-false (
            sym (taken_active (s1.hash_table (probe raddr.s_addr j)) raddr.s_addr a p)
            ∙ (kept j (ltb→lt j k w)).1))
      | inr w ↦ elim (Bool-cases (j == k)) [
        | inl z ↦ absurd (
            true-ne-false (
              sym (
                subst (λ n. is_free (s1.hash_table (probe raddr.s_addr n)).status ≡ true)
                  (sym (==→eq j k z)) here)
              ∙ active_occupied (s1.hash_table (probe raddr.s_addr j)).status a))
        | inr z ↦
            absurd (true-ne-false (sym here ∙ (b k (omega (arith, ltb→le j k w, ==→ne j k z))).0))
      ]
    ]
    missed r (gap j l b f q) = q
    missed r (nowhere b q) = q
