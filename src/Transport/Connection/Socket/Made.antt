-- ===== src/Transport/Connection/Socket/Made.antt =====
-- What make_con of transport/connection.c makes of the table, and con_rcv of the frames.
use mlvm.Base.{
  ℕ, ◌≡◌, refl, sym, Bool, true, false, Option, none, some, ◌==◌, update, inl, inr, Bool-cases,
  ==-refl, ==→eq,
}
use mlvm.Transport.Connection.{Net, SockAddr, entry, con_new, claim, is_free, c_locked}
use mlvm.Transport.Connection.Locks.{IsReleased, free-run, release, update-update}
use mlvm.Transport.Connection.Probe.{probe}
use mlvm.Transport.Connection.Lookup.{Created, created, refused, con_new-Created}
use mlvm.Transport.Connection.Socket.{connect_at, connect_new, make_con, give_up}

-- What `make_con` without an entry may end with: a free entry that is now locked and connected, the
-- others as they were; or NULL, with no entry's status changed.
module _ (sd : Option ℕ) (ok : Bool) (name raddr : SockAddr) (s : Net) where
  pub data Made (r : Option ℕ) (s' : Net) : Type 0 where
    made :
        (i d : ℕ)
        → r ≡ some i
        → sd ≡ some d
        → ok ≡ true
        → is_free (s.hash_table i).status ≡ true
        → s'.hash_table
          ≡ update s.hash_table i (record (s.hash_table i) {
            status = c_locked;
            fd = some d;
            peer = raddr;
            local = name;
          })
        → Made r s'
    failed :
        r ≡ none
        → ((j : ℕ) → is_free (s'.hash_table j).status ≡ is_free (s.hash_table j).status)
        → Made r s'

  -- `make_con` ends so, with no mutex held.
  abbrev pub MakesOne : Option (Option ℕ × Net) → Type 0
  MakesOne o = (r : Option ℕ) × (s' : Net) × (o ≡ some (r, s')) × IsReleased s' × Made r s'

module _ (name raddr : SockAddr) (s : Net) (i : ℕ) (h : IsReleased s)
    (f : is_free (s.hash_table i).status ≡ true) where
  -- The entry that `con_new` has made, and that with a descriptor.
  abbrev start : Net
  start = entry i (claim raddr (s.hash_table i)) s

  abbrev with_fd : Option ℕ → Net
  with_fd d = entry i (record (start.hash_table i) { fd = d }) start

  give_up-failed :
      (sd : Option ℕ) (ok : Bool) (d : Option ℕ)
      → MakesOne sd ok name raddr s (give_up i (with_fd d))
  give_up-failed sd ok d = (
    none,
    release i (with_fd d),
    rw (free-run i (with_fd d) (h i) (rw (==-refl i))),
    h,
    failed refl (λ j. elim (Bool-cases (j == i)) [
      | inl e ↦ rw (==→eq j i e, ==-refl i) (sym f)
      | inr e ↦ rw e
    ]),
  )

  connect_at-makes :
      (sd : Option ℕ) (ok : Bool) → MakesOne sd ok name raddr s (connect_at sd ok name i start)
  unfolding connect_at
  connect_at-makes none ok = give_up-failed none ok none
  connect_at-makes (some d) false = give_up-failed (some d) false (some d)
  connect_at-makes (some d) true = (
    some i,
    _,
    refl,
    h,
    made i d refl refl refl f (rw (==-refl i) (update-update i s.hash_table _ _)),
  )

-- Where no mutex is held, `make_con` without an entry ends with no mutex held. Where it returns an
-- entry, that was free and is now locked, with the peer's address, the descriptor of the new socket
-- and the local name, and no other entry has changed; where it returns NULL, each entry is
-- free just where it was before.
pub make_con-makes :
    (sd : Option ℕ) (ok : Bool) (name raddr : SockAddr) (s : Net)
    → IsReleased s
    → (r : Option ℕ) × (s' : Net) × (make_con sd ok name none raddr s ≡ some (r, s'))
      × IsReleased s'
      × Made sd ok name raddr s r s'
unfolding make_con connect_new
make_con-makes sd ok name raddr s h = go (con_new-Created raddr s h)
  where
    go :
        (r : Option ℕ × Net) × (con_new raddr s ≡ some r) × Created raddr s r
        → MakesOne sd ok name raddr s (make_con sd ok name none raddr s)
    go (r, e, created k lt before f q) =
        rw (e, q) (connect_at-makes name raddr s (probe raddr.s_addr k) h f sd ok)
    go (r, e, refused all q) = rw (e, q) (none, s, refl, h, failed refl (λ j. refl))
