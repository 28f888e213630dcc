-- ===== src/Transport/Frame/Transfer.antt =====
-- frame_erase, frame_append_string, frame_copy, frame_move and frame_peek_string of
-- transport/frame.c.
pub mod Erases
pub mod Copies
pub mod Moves
pub mod Peeks
use mathlib.Core.Option
use mlvm.Base.{
  ℕ, zero, suc, ◌+◌, ◌-◌, Bool, true, false, Option, none, some, List, [], ◌∷◌, ◌++◌, min, ltb, leb,
  ◌==◌, if◌then◌else◌, take, update,
}
use mlvm.Transport.Frame.{Frame, Pool, new, free, used, bytes}
use mlvm.Transport.Frame.Write.{Status, written, low_memory, out_of_fuel, write_string}

-- One byte of `exf->fc[i++] = cf->fc[++cf->top]`, `l1` times.
pub copy_bytes : ℕ → ℕ → Frame → Frame → Frame × Frame
copy_bytes zero i exf cf = (exf, cf)
copy_bytes (suc l) i exf cf =
    copy_bytes l (i + 1) (record exf { fc = update exf.fc i (cf.fc (cf.top + 1)) })
      (record cf { top = cf.top + 1 })

module _ (frame_size : ℕ) where
  -- The loop of `frame_erase`: what is still to be erased, and the frames.
  pub erase_rounds : ℕ → List Frame → Pool → ℕ × List Frame × Pool
  erase_rounds s [] p = (s, [], p)
  erase_rounds s (f ∷ fs) p =
      let rest = erase_rounds (s - used frame_size f) fs (free f p) in
      if leb (used frame_size f) s
      then if s == used frame_size f then (0, fs, free f p) else rest
      else (0, record f { top = f.top + s } ∷ fs, p)

  -- `frame_erase`
  unfoldable pub erase : ℕ → List Frame → Pool → ℕ × List Frame × Pool
  unfolding erase_rounds
  erase l lt p = let (s, lt', p') = erase_rounds l lt p in (l - s, lt', p')

  -- `frame_append_string`: the string is written to frames of its own, which go to the end. What
  -- a failed write leaves of them is lost.
  unfoldable pub append_string : List ℕ → List Frame → Pool → Status × List Frame × Pool
  append_string st lt p =
      let (s, ext, p') = write_string frame_size st [] p in
      elim s [
        | written k ↦ (written k, lt ++ ext, p')
        | low_memory ↦ (low_memory, lt, p')
        | out_of_fuel ↦ (out_of_fuel, lt, p')
      ]

  -- The loop of `frame_copy`: what is still to be copied, and the destination.
  pub copy_rounds : ℕ → List Frame → List Frame → Pool → ℕ × List Frame × Pool
  copy_rounds l dlt [] p = (l, dlt, p)
  copy_rounds l dlt (f ∷ fs) p =
      let l2 = min l (used frame_size f) in
      let (s, dlt', p') = append_string (take l2 (bytes frame_size f)) dlt p in
      elim (l2 == 0) [
        | true ↦ (l, dlt, p)
        | false ↦ elim s [
          | written k ↦ copy_rounds (l - k) dlt' fs p'
          | low_memory ↦ (l, dlt', p')
          | out_of_fuel ↦ (l, dlt', p')
        ]
      ]

  -- `frame_copy`
  unfoldable pub copy : List Frame → List Frame → ℕ → Pool → ℕ × List Frame × Pool
  unfolding copy_rounds
  copy dlt slt l p = let (l', dlt', p') = copy_rounds l dlt slt p in (l - l', dlt', p')

  -- The loop of `frame_move`: what is still to be moved, the spare frame, and both lists.
  pub move_rounds : ℕ → Frame → List Frame → List Frame → ℕ × Option Frame × List Frame × List Frame
  move_rounds l exf dlt [] = (l, some exf, dlt, [])
  move_rounds l exf dlt (f ∷ fs) =
      let rest = move_rounds (l - used frame_size f) exf (dlt ++ (f ∷ [])) fs in
      let (exf', f') = copy_bytes l (exf.top - l + 1) (record exf { top = exf.top - l }) f in
      if leb (used frame_size f) l
      then if l == used frame_size f then (0, some exf, dlt ++ (f ∷ []), fs) else rest
      else if ltb 0 l
      then (0, none, dlt ++ (exf' ∷ []), f' ∷ fs)
      else (l, some exf, dlt, f ∷ fs)

  -- `frame_move`: `none` is the result -1.
  unfoldable pub move :
      List Frame → List Frame → ℕ → Pool → Option ℕ × List Frame × List Frame × Pool
  unfolding move_rounds copy_bytes
  move dlt slt l p =
      let (o, p') = new frame_size p in
      elim o [
        | none ↦ (none, dlt, slt, p')
        | some exf ↦
            let (l', e, dlt', slt') = move_rounds l exf dlt slt in
            (some (l - l'), dlt', slt', elim e [ none ↦ p' | some x ↦ free x p' ])
      ]

  -- `frame_peek_string`, from index `c` of the first frame: `none` is the read of `cf->top`
  -- through NULL, when the frames end before the bytes are there.
  pub peek_rounds : ℕ → ℕ → List Frame → Option (List ℕ)
  peek_rounds c zero lt = some []
  peek_rounds c (suc l) [] = some []
  peek_rounds c (suc l) (f ∷ []) = elim (c == frame_size) [
    | true ↦ none
    | false ↦ Option.map (◌∷◌ (f.fc c)) (peek_rounds (c + 1) l (f ∷ []))
  ]
  peek_rounds c (suc l) (f ∷ g ∷ gs) = elim (c == frame_size) [
    | true ↦ peek_rounds (g.top + 1) (suc l) (g ∷ gs)
    | false ↦ Option.map (◌∷◌ (f.fc c)) (peek_rounds (c + 1) l (f ∷ g ∷ gs))
  ]

  unfoldable pub peek_string : ℕ → List Frame → Option (List ℕ)
  unfolding peek_rounds
  peek_string l [] = peek_rounds 0 l []
  peek_string l (f ∷ fs) = peek_rounds (f.top + 1) l (f ∷ fs)
