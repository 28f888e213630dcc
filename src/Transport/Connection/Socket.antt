-- ===== src/Transport/Connection/Socket.antt =====
-- make_con and con_rcv of transport/connection.c. What the socket calls answer is an argument: the
-- descriptor of `socket`, whether `connect` succeeds, the local name, the amount that `ioctl` tells,
-- and the bytes of `recv`; a negative answer is none or false. The settings by `fcntl` are not kept.
pub mod Made
use mlvm.Base.{ℕ, zero, suc, Bool, true, false, Option, none, some, List, [], ◌∷◌}
use mlvm.Transport.Frame.Write.{Status}
use mlvm.Transport.Frame.Transfer.{append_string}
use mlvm.Transport.Connection.{Net, SockAddr, ◌>>=◌, entry, con_new, con_free}

-- `make_con` gives the entry up.
abbrev pub give_up : ℕ → Net → Option (Option ℕ × Net)
give_up i s = con_free i s >>= λ t. some (none, t)

-- `make_con` with an entry: the descriptor, the connection, and the local name.
pub connect_at : Option ℕ → Bool → SockAddr → ℕ → Net → Option (Option ℕ × Net)
connect_at none ok name i s = give_up i (entry i (record (s.hash_table i) { fd = none }) s)
connect_at (some d) false name i s = give_up i (entry i (record (s.hash_table i) { fd = some d }) s)
connect_at (some d) true name i s =
    some (some i, entry i (record (s.hash_table i) { fd = some d; local = name }) s)

pub connect_new : Option ℕ → Bool → SockAddr → Option ℕ × Net → Option (Option ℕ × Net)
unfolding connect_at
connect_new sd ok name (none, s) = some (none, s)
connect_new sd ok name (some i, s) = connect_at sd ok name i s

-- `make_con`
unfoldable pub make_con :
    Option ℕ → Bool → SockAddr → Option ℕ → SockAddr → Net → Option (Option ℕ × Net)
unfolding connect_at connect_new
make_con sd ok name none raddr s = con_new raddr s >>= connect_new sd ok name
make_con sd ok name (some i) raddr s = connect_at sd ok name i s

-- What `con_rcv` returns: 0, -1 from `recv`, or the result of `frame_append_string`.
pub data Received : Type 0 where
  nothing recv_error : Received
  appended : Status → Received

module _ (frame_size : ℕ) where
  -- The bytes that came, at the end of the frames of the connection.
  pub receive : List ℕ → ℕ → Net → Received × Net
  receive buf i s =
      let (st, lt, p) = append_string frame_size buf (s.hash_table i).frames s.pool in
      (appended st, record (entry i (record (s.hash_table i) { frames = lt }) s) { pool = p })

  pub receive_buf : Option (List ℕ) → ℕ → Net → Received × Net
  unfolding receive
  receive_buf none i s = (recv_error, s)
  receive_buf (some []) i s = (nothing, s)
  receive_buf (some (c ∷ buf)) i s = receive (c ∷ buf) i s

  -- `con_rcv`
  unfoldable pub con_rcv : Option ℕ → Option (List ℕ) → ℕ → Net → Received × Net
  unfolding receive receive_buf
  con_rcv none got i s = (nothing, s)
  con_rcv (some zero) got i s = (nothing, s)
  con_rcv (some (suc n)) got i s = receive_buf got i s
