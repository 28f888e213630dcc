-- ===== src/Transport/Frame/Write/Undo.antt =====
-- The `undo:` part of frame_write_string.
use mlvm.Base.{ℕ, ◌+◌, ◌-◌, ◌≤◌, ◌≡◌, List, [], ◌∷◌, arith, length}
use mlvm.Transport.Frame.{Frame, Pool, free, size, IsValid}
use mlvm.Transport.Frame.Write.{undo}

-- Of the `w` bytes that it is to take back, `undo` leaves one for each frame that it discards:
-- the bytes and the frames left, with `w`, make up the bytes and the frames there were.
pub undo-leaves :
    (n w : ℕ) (lt : List Frame) (p : Pool)
    → IsValid n lt
    → w ≤ size n lt
    → size n (undo n w lt p).0 + w + length (undo n w lt p).0 ≡ size n lt + length lt
unfolding undo size
undo-leaves n w [] p v h = omega arith
undo-leaves n w (f ∷ fs) p v h = ground (arith, undo-leaves n (w - (n - f.top)) fs (free f p) v.1)
