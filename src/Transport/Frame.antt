-- ===== src/Transport/Frame.antt =====
-- transport/frame.c: frames, the pool they come from, and lists of them. A frame is filled from
-- its end downwards, so `fc[top + 1 ..]` are its bytes. `FRAME_SIZE`, which the build may set, is
-- the section's parameter. A list of frames is a list here, its first frame first. The answers
-- that `malloc` will give are part of the pool.
pub mod Thresholds
pub mod Write
pub mod Read
pub mod Transfer
pub mod RoundTrip
pub mod Tests
use mlvm.Base.{
  ℕ, zero, suc, ◌+◌, ◌-◌, ◌%◌, ◌^◌, ◌<◌, Bool, true, false, Option, none, some, List, [], ◌∷◌, ◌++◌,
  ltb, leb, if◌then◌else◌, length, drop, All, slice,
}

-- `struct frame_str`. Every write to `top` keeps it below `FRAME_SIZE`, which an
-- `unsigned short` holds.
pub record Frame : Type 0 where
  pub top : ℕ
  pub fc : ℕ → ℕ

-- `free_frame`, `counter` and the two thresholds; `mallocs` says which calls of `malloc` succeed.
pub record Pool : Type 0 where
  pub free_frame : List Frame
  pub counter : ℕ
  pub upper : ℕ
  pub lower : ℕ
  pub mallocs : List Bool

-- The range of `unsigned long`.
abbrev pub ulong : ℕ
ulong = 2 ^ 32

-- FRAME_HALF_WINDOW, half of FRAME_COUNT_WINDOW.
abbrev pub half_window : ℕ
half_window = 512

-- `counter++` and `counter--`
abbrev pub increment : ℕ → ℕ
increment n = (n + 1) % ulong

abbrev pub decrement : ℕ → ℕ
decrement n = (n + ulong - 1) % ulong

-- What a successful `malloc` does to the counter and the thresholds.
pub grow : Pool → Pool
grow p =
    if ltb p.upper (increment p.counter)
    then record p {
      counter = increment p.counter;
      upper = (p.upper + half_window) % ulong;
      lower = (p.lower + half_window) % ulong;
    }
    else record p { counter = increment p.counter }

-- A frame of the pool, or one that `malloc` gives; `false` when there is neither.
pub acquire : List Frame → List Bool → Pool → Bool × Pool
acquire (f ∷ fs) ms p = (true, record p { free_frame = fs; counter = increment p.counter })
acquire [] (true ∷ ms) p = (true, grow (record p { mallocs = ms }))
acquire [] (false ∷ ms) p = (false, record p { mallocs = ms })
acquire [] [] p = (false, p)

-- The thresholds slide down, and the frames beyond the upper one are given back. `extra` is an
-- `int`: the loop makes no round when the difference is negative.
pub shrink : Pool → Pool
shrink p =
    let p' : Pool =
      if leb half_window p.lower
      then record p {
        upper = (p.upper + ulong - half_window) % ulong;
        lower = p.lower - half_window;
      }
      else record p { upper = half_window + half_window; lower = 0 } in
    let extra = length p.free_frame + p.counter - p'.upper in
    record p' { free_frame = drop extra p'.free_frame }

-- `frame_free`
unfoldable pub free : Frame → Pool → Pool
unfolding shrink
free f p =
    let p' : Pool = record p {
      free_frame = p.free_frame ++ (f ∷ []);
      counter = decrement p.counter;
    } in
    if ltb p'.counter p'.lower then shrink p' else p'

-- `frame_destroy`
unfoldable pub destroy : List Frame → Pool → Pool
destroy [] p = p
destroy (f ∷ fs) p = destroy fs (free f p)

-- `frame_cleanup`
cleanup_list : List Frame → Pool → Pool
cleanup_list [] p = record p { free_frame = [] }
cleanup_list (f ∷ fs) p = cleanup_list fs (record p { counter = decrement p.counter })

unfoldable pub cleanup : Pool → Pool
unfolding cleanup_list
cleanup p = cleanup_list p.free_frame p

-- `frame_count`
abbrev pub count : List Frame → ℕ
count = length

module _ (frame_size : ℕ) where
  -- `frame_new`: the frame comes cleared, with `top` at the last index.
  unfoldable pub new : Pool → Option Frame × Pool
  unfolding acquire grow
  new p =
      let (ok, p') = acquire p.free_frame p.mallocs p in
      (if ok then some (record { top = frame_size - 1; fc = λ _. 0 }) else none, p')

  -- FRAME_SIZE - (top + 1), the bytes in use
  abbrev pub used : Frame → ℕ
  used f = frame_size - (f.top + 1)

  -- `frame_size`
  unfoldable pub size : List Frame → ℕ
  size [] = 0
  size (f ∷ fs) = used f + size fs

  -- What a frame, and a list of frames, holds.
  abbrev pub bytes : Frame → List ℕ
  bytes f = slice f.fc (f.top + 1) (frame_size - (f.top + 1))

  abbrev pub contents : List Frame → List ℕ
  contents [] = []
  contents (f ∷ fs) = bytes f ++ contents fs

  -- Every `top` is an index.
  abbrev pub IsValid : List Frame → Type 0
  IsValid = All (λ f. f.top < frame_size)
