-- ===== src/Transport/Frame/Read.antt =====
-- frame_read_string_aux and the readers of transport/frame.c that rest on it.
pub mod Takes
use mlvm.Base.{
  ℕ, zero, suc, ◌+◌, ◌-◌, ◌*◌, ◌%◌, ◌^◌, ◌≤◌, ◌≡◌, Bool, true, false, ◌&&◌, ◌||◌, Option, none,
  some, List, [], ◌∷◌, ◌++◌, ltb, leb, ◌==◌, if◌then◌else◌, length,
}
use mlvm.Transport.Frame.{Frame, Pool, free}

-- The number that bytes in network order stand for.
abbrev pub number : ℕ → List ℕ → ℕ
number acc [] = acc
number acc (b ∷ bs) = number (acc * 256 + b) bs

module _ (frame_size : ℕ) where
  -- The inner loop: the bytes read, how many are still wanted, the frame, and `stop`.
  pub drain : Bool → ℕ → Frame → List ℕ × ℕ × Frame × Bool
  drain flag zero f = ([], 0, f, false)
  drain flag (suc l) f =
      let f' : Frame = record f { top = f.top + 1 } in
      let b = f.fc (f.top + 1) in
      let (bs, l', f'', stop) = drain flag l f' in
      if ltb (f.top + 1) frame_size
      then if flag && (b == 0) then (b ∷ [], suc l, f', true) else (b ∷ bs, l', f'', stop)
      else ([], suc l, f, false)

  -- `frame_read_string_aux`: what goes to `st1`, the count returned, and the frames left. Where
  -- the first frame is not used up, the inner loop has stopped by `l1` or `stop`.
  pub read_rounds : Bool → ℕ → List Frame → Pool → List ℕ × ℕ × List Frame × Pool
  read_rounds flag l [] p = ([], l, [], p)
  read_rounds flag l (f ∷ fs) p =
      let (bs, l', f', stop) = drain flag l f in
      let (bs', l'', lt', p') = read_rounds flag l' fs (free f' p) in
      if leb frame_size (f'.top + 1)
      then if stop || (l' == 0) then (bs, l', fs, free f' p) else (bs ++ bs', l'', lt', p')
      else (bs, l', f' ∷ fs, p)

  unfoldable pub read_string_aux : Bool → ℕ → List Frame → Pool → List ℕ × ℕ × List Frame × Pool
  unfolding read_rounds drain
  read_string_aux flag n lt p =
      let (bs, l, lt', p') = read_rounds flag n lt p in (bs, n - l, lt', p')

  -- `frame_read_string` and `frame_read_text`
  unfoldable pub read_string : ℕ → List Frame → Pool → List ℕ × ℕ × List Frame × Pool
  read_string n lt p = read_string_aux false n lt p

  unfoldable pub read_text : ℕ → List Frame → Pool → List ℕ × ℕ × List Frame × Pool
  read_text n lt p = read_string_aux true n lt p

  -- `frame_read_int`, `frame_read_short` and `frame_read_byte`: `none` is the result -1.
  pub read_number : ℕ → List Frame → Pool → Option ℕ × List Frame × Pool
  read_number n lt p =
      let (bs, got, lt', p') = read_string n lt p in
      (if got == n then some (number 0 bs) else none, lt', p')

  unfoldable pub read_int : List Frame → Pool → Option ℕ × List Frame × Pool
  unfolding read_number
  read_int lt p = read_number 4 lt p

  unfoldable pub read_short : List Frame → Pool → Option ℕ × List Frame × Pool
  unfolding read_number
  read_short lt p = read_number 2 lt p

  unfoldable pub read_byte : List Frame → Pool → Option ℕ × List Frame × Pool
  unfolding read_number
  read_byte lt p = read_number 1 lt p
