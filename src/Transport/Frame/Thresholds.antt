-- ===== src/Transport/Frame/Thresholds.antt =====
-- The thresholds and the counter of transport/frame.c.
use mlvm.Base.{
  ℕ, ◌+◌, ◌-◌, ◌%◌, ◌≤◌, ◌<◌, ◌≡◌, ◌⊎◌, inl, inr, List, [], ◌∷◌, ◌++◌, arith, length, leb,
  Bool-cases, length-drop, lt→ltb, leb→le,
}
use mlvm.Transport.Frame.{
  Frame, Pool, ulong, half_window, decrement, shrink, free, new, cleanup_list, cleanup,
}

-- One window apart, and in range.
pub record IsWindow (p : Pool) : Type 0 where
  pub apart : p.upper ≡ p.lower + 1024
  pub in_range : p.upper < ulong
  pub live : p.counter < ulong

shrink-IsWindow : (p : Pool) → IsWindow p → IsWindow (shrink p)
unfolding shrink
shrink-IsWindow p w = ground arith

-- `frame_free` keeps the thresholds one window apart.
pub free-IsWindow : (f : Frame) (p : Pool) → IsWindow p → IsWindow (free f p)
unfolding free
free-IsWindow f p w = ground arith

-- `frame_new` does so too, while the upper threshold stays in range.
pub new-IsWindow : (n : ℕ) (p : Pool) → p.upper + 512 < ulong → IsWindow p → IsWindow (new n p).1
unfolding new
new-IsWindow n p h w = ground arith

shrink_bounded :
    (p : Pool)
    → IsWindow p
    → ((shrink p).counter + length (shrink p).free_frame ≤ (shrink p).upper)
      ⊎ (length (shrink p).free_frame ≡ 0)
unfolding shrink
shrink_bounded p w = elim (Bool-cases (leb half_window p.lower)) [
  | inl e ↦
      let extra : ℕ = length p.free_frame + p.counter - (p.upper + ulong - half_window) % ulong in
      rw e (ground (arith, length-drop extra p.free_frame, leb→le _ _ e))
  | inr e ↦
      let extra : ℕ = length p.free_frame + p.counter - (half_window + half_window) in
      rw e (ground (arith, length-drop extra p.free_frame))
]

-- After a `frame_free` that crosses the lower threshold, the frames in the pool and those in use
-- are at most as many as the upper threshold, or the pool is empty.
pub free-bounded :
    (f : Frame) (p : Pool)
    → IsWindow p
    → decrement p.counter < p.lower
    → ((free f p).counter + length (free f p).free_frame ≤ (free f p).upper)
      ⊎ (length (free f p).free_frame ≡ 0)
unfolding free
free-bounded f p w h =
    let q : Pool = record p {
      free_frame = p.free_frame ++ (f ∷ []);
      counter = decrement p.counter;
    } in
    rw (lt→ltb _ _ h)
      (shrink_bounded q (record { apart = w.apart; in_range = w.in_range; live = omega arith }))

cleanup_list-counter :
    (fs : List Frame) (p : Pool)
    → ((cleanup_list fs p).counter + length fs) % ulong ≡ p.counter % ulong
unfolding cleanup_list
cleanup_list-counter [] p = omega arith
cleanup_list-counter (f ∷ fs) p =
    omega (arith, cleanup_list-counter fs (record p { counter = decrement p.counter }))

-- `frame_cleanup` takes the frames of the pool off the counter, modulo its range, though
-- `frame_free` had taken them off when they came to the pool.
pub cleanup-counter :
    (p : Pool) → ((cleanup p).counter + length p.free_frame) % ulong ≡ p.counter % ulong
unfolding cleanup
cleanup-counter p = cleanup_list-counter p.free_frame p
