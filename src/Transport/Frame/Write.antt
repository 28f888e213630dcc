-- ===== src/Transport/Frame/Write.antt =====
-- frame_write_string and the writers of transport/frame.c that rest on it.
pub mod Prepends
pub mod Undo
pub mod Supply
use mlvm.Base.{
  ℕ, zero, suc, ◌+◌, ◌-◌, ◌/◌, ◌%◌, ◌^◌, ◌≤◌, ◌≡◌, Option, none, some, List, [], ◌∷◌, ◌++◌, reverse,
  ltb, ◌==◌, if◌then◌else◌, length, update,
}
use mlvm.Transport.Frame.{Frame, Pool, new, free}

-- The number of bytes written, or -1; the rounds of the model may run out as well.
pub data Status : Type 0 where
  written : ℕ → Status
  low_memory : Status
  out_of_fuel : Status

-- `while (_b < _e && cf->top) cf->fc[cf->top--] = *(--_e);`, on the bytes not written yet, the
-- last one first.
pub fill : List ℕ → Frame → List ℕ × Frame
fill [] f = ([], f)
fill (b ∷ bs) f =
    let rest = fill bs (record f { top = f.top - 1; fc = update f.fc f.top b }) in
    if f.top == 0 then (b ∷ bs, f) else rest

-- The bytes of a value, by its unsigned pattern: `htonl` and `htons` put the most significant
-- byte first.
abbrev pub int_bytes : ℕ → List ℕ
int_bytes v = (v / 2 ^ 24 % 256) ∷ (v / 2 ^ 16 % 256) ∷ (v / 2 ^ 8 % 256) ∷ (v % 256) ∷ []

abbrev pub short_bytes : ℕ → List ℕ
short_bytes v = (v / 2 ^ 8 % 256) ∷ (v % 256) ∷ []

module _ (frame_size : ℕ) where
  -- The first frame if it has room, and else a new one.
  pub room : List Frame → Pool → Option Frame × List Frame × Pool
  room [] p = let (nf, p') = new frame_size p in (nf, [], p')
  room (f ∷ fs) p =
      let (nf, p') = new frame_size p in if f.top == 0 then (nf, f ∷ fs, p') else (some f, fs, p)

  -- The `undo:` part, for `w` bytes that were written.
  pub undo : ℕ → List Frame → Pool → List Frame × Pool
  undo w [] p = ([], p)
  undo w (f ∷ fs) p =
      let rest = undo (w - (frame_size - f.top)) fs (free f p) in
      if ltb w (frame_size - f.top)
      then (record f { top = f.top + w } ∷ fs, p)
      else if w == frame_size - f.top
      then (fs, free f p)
      else rest

  -- The outer loop: `n` is the length of the string, the list holds what is not written yet.
  pub write_rounds : ℕ → ℕ → List ℕ → List Frame → Pool → Status × List Frame × Pool
  write_rounds n zero rest lt p = (out_of_fuel, lt, p)
  write_rounds n (suc k) rest lt p =
      let (cf, fs, p') = room lt p in
      elim cf [
        | none ↦ let (lt', p'') = undo (n - length rest) fs p' in (low_memory, lt', p'')
        | some f ↦
            let (rest', f') = fill rest f in
            elim rest' [
              | [] ↦ (written n, f' ∷ fs, p')
              | b ∷ bs ↦ write_rounds n k (b ∷ bs) (f' ∷ fs) p'
            ]
      ]

  -- `frame_write_string`. Each round writes a byte, if a frame holds one.
  unfoldable pub write_string : List ℕ → List Frame → Pool → Status × List Frame × Pool
  unfolding write_rounds room fill undo
  write_string st lt p = write_rounds (length st) (suc (length st)) (reverse st) lt p

  -- `frame_write_text`: the text, and its terminating zero.
  unfoldable pub write_text : List ℕ → List Frame → Pool → Status × List Frame × Pool
  write_text te lt p = write_string (te ++ (0 ∷ [])) lt p

  -- `frame_write_int`, `frame_write_short` and `frame_write_byte`.
  unfoldable pub write_int : ℕ → List Frame → Pool → Status × List Frame × Pool
  write_int v lt p = write_string (int_bytes v) lt p

  unfoldable pub write_short : ℕ → List Frame → Pool → Status × List Frame × Pool
  write_short v lt p = write_string (short_bytes v) lt p

  unfoldable pub write_byte : ℕ → List Frame → Pool → Status × List Frame × Pool
  write_byte c lt p = write_string ((c % 256) ∷ []) lt p
