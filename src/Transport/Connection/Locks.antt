-- ===== src/Transport/Connection/Locks.antt =====
-- What the functions of transport/connection.c do to one entry when no mutex is held: each takes
-- the mutex of the entry and gives it back.
use mlvm.Base.{
  ℕ, ◌≡◌, refl, sym, ap, ap₂, ◌∙◌, fun_ext, true, false, some, [], ◌∷◌, if◌then◌else◌, ◌==◌, update,
  inl, inr, Bool-cases, ==→eq, ==-refl,
}
use mlvm.Transport.Frame
use mlvm.Transport.Connection.{
  Net, Con, ConStatus, unlock, set_status, con_trylock, con_unlock, con_lock, c_active, c_locked,
  c_free, is_active, is_locked, is_free, con_free, free_unless,
}

-- No mutex is held.
abbrev pub IsReleased : Net → Type 0
IsReleased s = (i : ℕ) → s.held i ≡ false

pub update-update {ℓ} :
    {A : Type ℓ} (i : ℕ) (a : ℕ → A) (v w : A) → update (update a i v) i w ≡ update a i w
update-update i a v w = fun_ext λ j. elim (Bool-cases (j == i)) [ inl e ↦ rw e | inr e ↦ rw e ]

pub update-same {ℓ} : {A : Type ℓ} (i : ℕ) (a : ℕ → A) (v : A) → a i ≡ v → update a i v ≡ a
update-same i a v h =
    fun_ext
      λ j. elim (Bool-cases (j == i)) [ inl e ↦ rw e (sym (ap a (==→eq j i e) ∙ h)) | inr e ↦ rw e ]

-- A mutex that is taken and given back is as it was.
pub unlock-lock :
    (i : ℕ) (s : Net) → s.held i ≡ false → unlock i (record s { held = update s.held i true }) ≡ s
unlock-lock i s h =
    ap (λ f. record s { held = f })
      (update-update i s.held true false ∙ update-same i s.held false h)

pub trylock-run :
    (i : ℕ) (s : Net)
    → s.held i ≡ false
    → con_trylock i s
      ≡ some (
          if is_active (s.hash_table i).status then (true, set_status i c_locked s) else (false, s))
unfolding con_trylock
trylock-run i s h = rw h (elim (Bool-cases (is_active (s.hash_table i).status)) [
  | inl e ↦ rw e (ap (λ t. some (true, set_status i c_locked t)) (unlock-lock i s h))
  | inr e ↦ rw e (ap (λ t. some (false, t)) (unlock-lock i s h))
])

pub unlock-run :
    (i : ℕ) (s : Net)
    → s.held i ≡ false
    → con_unlock i s
      ≡ some (
          if is_locked (s.hash_table i).status then (true, set_status i c_active s) else (false, s))
unfolding con_unlock
unlock-run i s h = rw h (elim (Bool-cases (is_locked (s.hash_table i).status)) [
  | inl e ↦ rw e (ap (λ t. some (true, set_status i c_active t)) (unlock-lock i s h))
  | inr e ↦ rw e (ap (λ t. some (false, t)) (unlock-lock i s h))
])

-- Where `con_lock` does not wait.
pub lock_active-run :
    (i : ℕ) (s : Net)
    → s.held i ≡ false
    → is_active (s.hash_table i).status ≡ true
    → con_lock i s ≡ some (true, set_status i c_locked s)
unfolding con_lock
lock_active-run i s h e =
    rw (h, e) (ap (λ t. some (true, set_status i c_locked t)) (unlock-lock i s h))

-- The entry and the pool when a connection is closed.
abbrev pub release : ℕ → Net → Net
release i s = record s {
  hash_table = update s.hash_table i (record (s.hash_table i) { frames = []; status = c_free });
  pool = Frame.destroy (s.hash_table i).frames s.pool;
  closed = (s.hash_table i).fd ∷ s.closed;
}

-- `con_free` closes a connection that is not active.
pub free-run :
    (i : ℕ) (s : Net)
    → s.held i ≡ false
    → is_active (s.hash_table i).status ≡ false
    → con_free i s ≡ some (release i s)
unfolding con_free free_unless
free-run i s h e =
    rw (trylock-run i s h, e, h, ==-refl i)
      (ap₂
        (λ t f. some (record {
          hash_table = t;
          held = f;
          pool = Frame.destroy (s.hash_table i).frames s.pool;
          closed = (s.hash_table i).fd ∷ s.closed;
        }))
        (update-update i s.hash_table _ _)
        (update-update i s.held true false ∙ update-same i s.held false h))

active-eq : (c : Con) → is_active c.status ≡ true → c_active ≡ c.status
active-eq c h = active_status-eq c.status h
  where
    active_status-eq : (s : ConStatus) → is_active s ≡ true → c_active ≡ s
    active_status-eq c_active h = refl
    active_status-eq c_free h = cc
    active_status-eq c_locked h = cc

-- An active connection that is locked and unlocked is as it was.
pub relock-same :
    (i : ℕ) (s : Net)
    → is_active (s.hash_table i).status ≡ true
    → record s {
      hash_table =
          update
            (update s.hash_table i (record (s.hash_table i) { status = c_locked }))
            i
            (record (s.hash_table i) { status = c_active });
    }
      ≡ s
relock-same i s e =
    ap (λ t. record s { hash_table = t })
      (update-update i s.hash_table _ _
        ∙ update-same i s.hash_table _ (
            ap (λ st. record (s.hash_table i) { status = st })
              (sym (active-eq (s.hash_table i) e))))

-- `con_free` leaves an active connection as it is.
pub free_active-run :
    (i : ℕ) (s : Net)
    → s.held i ≡ false
    → is_active (s.hash_table i).status ≡ true
    → con_free i s ≡ some s
unfolding con_free free_unless
free_active-run i s h e =
    rw (trylock-run i s h, e, unlock-run i (set_status i c_locked s) h)
      (rw (==-refl i) (ap some (relock-same i s e)))

-- An entry that was locked for a visit.
abbrev pub taken : ℕ → Net → Net
taken i s = set_status i c_locked s

pub release-taken : (i : ℕ) (s : Net) → release i (taken i s) ≡ release i s
release-taken i s = rw (==-refl i) (
    ap
      (λ t. record s {
        hash_table = t;
        pool = Frame.destroy (s.hash_table i).frames s.pool;
        closed = (s.hash_table i).fd ∷ s.closed;
      })
      (update-update i s.hash_table _ _))

pub free_inactive : (st : ConStatus) → is_free st ≡ true → is_active st ≡ false
free_inactive c_free q = refl
free_inactive c_active q = cc
free_inactive c_locked q = refl
