-- ===== src/Transport/Connection.antt =====
-- transport/connection.c: the table of connections, an open hash table over the address of the
-- peer, and the locks of its entries. A `con_t *` is the index of its entry, and NULL is none.
-- Each entry has a mutex: a function that has to wait for one, or for the condition variable of an
-- entry, has the result none, for another thread would have to run. What the sockets answer is an
-- argument; of what is done to them only the descriptors that are closed are kept.
pub mod Locks
pub mod Probe
pub mod Lookup
pub mod Again
pub mod Keeper
pub mod Socket
pub mod Tests
use mlvm.Base.{
  ℕ, zero, suc, ◌+◌, ◌-◌, ◌%◌, Bool, true, false, ◌&&◌, ◌||◌, Option, none, some, List, [], ◌∷◌,
  if◌then◌else◌, ltb, leb, ◌==◌, update,
}
use mlvm.Transport.Frame
use mlvm.Transport.Frame.{Frame, Pool}

infixl 5 ◌>>=◌
abbrev pub ◌>>=◌ {ℓ κ} : {A : Type ℓ} {B : Type κ} → Option A → (A → Option B) → Option B
none >>= f = none
some a >>= f = f a

-- IMAGO_MAX_CONNECTION, as the build has it.
abbrev pub max_connection : ℕ
max_connection = 255

-- status_t
pub data ConStatus : Type 0 where
  c_free c_active c_locked : ConStatus

abbrev pub is_free : ConStatus → Bool
is_free c_free = true
is_free c_active = false
is_free c_locked = false

abbrev pub is_active : ConStatus → Bool
is_active c_free = false
is_active c_active = true
is_active c_locked = false

abbrev pub is_locked : ConStatus → Bool
is_locked c_free = false
is_locked c_active = false
is_locked c_locked = true

-- `c_h->status == status`
abbrev pub same_status : ConStatus → ConStatus → Bool
same_status c_free s = is_free s
same_status c_active s = is_active s
same_status c_locked s = is_locked s

-- `struct sockaddr_in`: the address and the port.
pub record SockAddr : Type 0 where
  pub s_addr : ℕ
  pub sin_port : ℕ

abbrev pub no_address : SockAddr
no_address = record { s_addr = 0; sin_port = 0 }

-- `con_t`, without its mutex; a negative descriptor is none.
pub record Con : Type 0 where
  pub status : ConStatus
  pub fd : Option ℕ
  pub peer : SockAddr
  pub local : SockAddr
  pub frames : List Frame
  pub timestamp : ℕ

-- `hash_table`, which of the mutexes of its entries are held, the pool of frames, and the
-- descriptors that were given to `shutdown` and `close`, the last one first.
pub record Net : Type 0 where
  pub hash_table : ℕ → Con
  pub held : ℕ → Bool
  pub pool : Pool
  pub closed : List (Option ℕ)

-- `pthread_mutex_lock` and `pthread_mutex_unlock`
abbrev pub lock : ℕ → Net → Option Net
lock i s = if s.held i then none else some (record s { held = update s.held i true })

abbrev pub unlock : ℕ → Net → Net
unlock i s = record s { held = update s.held i false }

-- The assignments to an entry.
abbrev pub entry : ℕ → Con → Net → Net
entry i c s = record s { hash_table = update s.hash_table i c }

abbrev pub set_status : ℕ → ConStatus → Net → Net
set_status i st s = entry i (record (s.hash_table i) { status = st }) s

-- `con_trylock`: `true` is 0, and `false` is -1.
unfoldable pub con_trylock : ℕ → Net → Option (Bool × Net)
con_trylock i s = do
  s1 ← lock i s
  some (
      if is_active (s1.hash_table i).status
      then (true, unlock i (set_status i c_locked s1))
      else (false, unlock i s1))

-- `con_lock`, which waits for an entry that is locked.
unfoldable pub con_lock : ℕ → Net → Option (Bool × Net)
con_lock i s = do
  s1 ← lock i s
  if is_active (s1.hash_table i).status
      then some (true, unlock i (set_status i c_locked s1))
      else if is_locked (s1.hash_table i).status
      then none
      else some (false, unlock i s1)

-- `con_unlock`
unfoldable pub con_unlock : ℕ → Net → Option (Bool × Net)
con_unlock i s = do
  s1 ← lock i s
  some (
      if is_locked (s1.hash_table i).status
      then (true, unlock i (set_status i c_active s1))
      else (false, unlock i s1))

-- The entry after an index, the first one after the last.
abbrev pub advance : ℕ → ℕ
advance i = if i == max_connection - 1 then 0 else i + 1

-- The test by which `hash` takes an entry that is not free.
abbrev pub takes : ℕ → ConStatus → Con → Bool
takes key status c = same_status status c.status && (c.peer.s_addr == key)

-- The rounds of `hash` from the entry `i` on; where it finds one, it keeps the mutex.
pub hash_rounds : ℕ → ℕ → ConStatus → ℕ → ℕ → Net → Option (Option ℕ × Net)
hash_rounds zero key status slot i s = none
hash_rounds (suc fuel) key status slot i s = do
  s1 ← lock i s
  let rest = hash_rounds fuel key status slot (advance i) (unlock i s1)
  if is_free (s1.hash_table i).status
      then some (if is_free status then (some i, s1) else (none, unlock i s1))
      else if takes key status (s1.hash_table i)
      then some (some i, s1)
      else if advance i == slot
      then some (none, unlock i s1)
      else rest

-- `hash`, with a round for each entry of the table
unfoldable pub hash : ℕ → ConStatus → Net → Option (Option ℕ × Net)
unfolding hash_rounds
hash key status s =
    hash_rounds max_connection key status (key % max_connection) (key % max_connection) s

-- The rounds of `hash_new`, and `hash_new`
pub hash_new_rounds : ℕ → ℕ → ℕ → Net → Option (Option ℕ × Net)
hash_new_rounds zero slot i s = none
hash_new_rounds (suc fuel) slot i s = do
  s1 ← lock i s
  let rest = hash_new_rounds fuel slot (advance i) (unlock i s1)
  if is_free (s1.hash_table i).status
      then some (some i, s1)
      else if advance i == slot
      then some (none, unlock i s1)
      else rest

unfoldable pub hash_new : ℕ → Net → Option (Option ℕ × Net)
unfolding hash_new_rounds
hash_new key s = hash_new_rounds max_connection (key % max_connection) (key % max_connection) s

-- What `con_new` makes of the entry that `hash` found.
abbrev pub claim : SockAddr → Con → Con
claim raddr c = record c { peer = raddr; local = no_address; status = c_locked }

abbrev pub new_at : SockAddr → Option ℕ × Net → Option ℕ × Net
new_at raddr (none, s) = (none, s)
new_at raddr (some i, s) = (some i, unlock i (entry i (claim raddr (s.hash_table i)) s))

-- `con_new`
unfoldable pub con_new : SockAddr → Net → Option (Option ℕ × Net)
con_new raddr s = do r ← hash raddr.s_addr c_free s; some (new_at raddr r)

-- What `con_free` does to an entry that is not active: its frames go back to the pool.
abbrev pub dispose : ℕ → Net → Net
dispose i s = record s {
  hash_table = update s.hash_table i (record (s.hash_table i) { frames = [] });
  pool = Frame.destroy (s.hash_table i).frames s.pool;
  closed = (s.hash_table i).fd ∷ s.closed;
}

-- `con_free`, after its attempt to lock the entry
pub free_unless : ℕ → Bool × Net → Option Net
free_unless i (true, s) = do (_, s1) ← con_unlock i s; some s1
free_unless i (false, s) = do s1 ← lock i (dispose i s); some (unlock i (set_status i c_free s1))

unfoldable pub con_free : ℕ → Net → Option Net
unfolding free_unless
con_free i s = do r ← con_trylock i s; free_unless i r

-- `lookup_con`, after the search
pub lookup_at : Option ℕ × Net → Option (Option ℕ × Net)
lookup_at (none, s) = some (none, s)
lookup_at (some i, s) = do
  (ok, s1) ← con_trylock i (unlock i s)
  some (if ok then some i else none, s1)

unfoldable pub lookup_con : SockAddr → Net → Option (Option ℕ × Net)
unfolding lookup_at
lookup_con raddr s = do r ← hash raddr.s_addr c_active s; lookup_at r

-- The loop of `con_next` over the `n` entries from index `i` on.
pub next_from : ℕ → ℕ → Net → Option (Option ℕ × Net)
next_from zero i s = some (none, s)
next_from (suc n) i s = do
  s1 ← lock i s
  let rest = next_from n (i + 1) (unlock i s1)
  if is_free (s1.hash_table i).status then rest else some (some i, unlock i s1)

-- `con_next`
unfoldable pub con_next : Option ℕ → Net → Option (Option ℕ × Net)
unfolding next_from
con_next none s = next_from max_connection 0 s
con_next (some i) s = next_from (max_connection - (i + 1)) (i + 1) s
