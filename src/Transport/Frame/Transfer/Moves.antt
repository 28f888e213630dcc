-- ===== src/Transport/Frame/Transfer/Moves.antt =====
-- frame_move against the bytes of the lists.
use mlvm.Base.{
  ℕ, zero, suc, ◌+◌, ◌-◌, ◌≤◌, ◌<◌, ◌≡◌, refl, sym, ap, ap₂, ◌∙◌, inl, inr, some, List, [], ◌∷◌,
  ◌++◌, min, ltb, leb, ◌==◌, arith, append_assoc, append-nil, length, take, drop, take-append_le,
  take-append_ge, drop-append_le, drop-append_ge, take_all, drop_all, length-slice, length-append,
  slice, update, take-slice, drop-slice, fun_ext, Bool-cases, ==→eq, leb→le, leb→lt, ltb→le,
}
use mlvm.Transport.Frame.{Frame, Pool, new, bytes, contents}
use mlvm.Transport.Frame.Write.Supply.{supply, acquire-supply}
use mlvm.Transport.Frame.Transfer.{copy_bytes, move_rounds, move}
use mlvm.Transport.Frame.Transfer.Copies.{contents-append}

-- The inner loop moves `l` bytes: they stand in `exf` from index `i` on, and nothing below `i`
-- changes.
record CopiedBytes (l i : ℕ) (exf cf exf' cf' : Frame) : Type 0 where
  top_out : exf'.top ≡ exf.top
  top_in : cf'.top ≡ cf.top + l
  fc_in : (j : ℕ) → cf'.fc j ≡ cf.fc j
  below : (j : ℕ) → j < i → exf'.fc j ≡ exf.fc j
  bytes_out : slice exf'.fc i l ≡ slice cf.fc (cf.top + 1) l

copy_bytes-CopiedBytes :
    (l i : ℕ) (exf cf : Frame)
    → CopiedBytes l i exf cf (copy_bytes l i exf cf).0 (copy_bytes l i exf cf).1
unfolding copy_bytes
copy_bytes-CopiedBytes zero i exf cf = record {
  top_out = refl;
  top_in = omega arith;
  fc_in = λ j. refl;
  below = λ j h. refl;
  bytes_out = refl;
}
copy_bytes-CopiedBytes (suc l) i exf cf =
    let r =
      copy_bytes-CopiedBytes l (i + 1) (record exf { fc = update exf.fc i (cf.fc (cf.top + 1)) })
        (record cf { top = cf.top + 1 }) in
    record {
      top_out = r.top_out;
      top_in = omega (arith, r.top_in);
      fc_in = r.fc_in;
      below = λ j h. r.below j (omega arith) ∙ (ground arith);
      bytes_out = ap₂ ◌∷◌ (r.below i (omega arith) ∙ (ground arith)) r.bytes_out;
    }

-- What is moved, when `l'` bytes are still to be moved.
record Moved (n l : ℕ) (dlt slt : List Frame) (l' : ℕ) (dlt' slt' : List Frame) : Type 0 where
  short : l' ≡ l - length (contents n slt)
  moved : contents n dlt' ≡ contents n dlt ++ take l (contents n slt)
  left : contents n slt' ≡ drop l (contents n slt)

move_rounds-Moved :
    (n l : ℕ) (exf : Frame) (dlt slt : List Frame)
    → exf.top + 1 ≡ n
    → let (l', e, dlt', slt') = move_rounds n l exf dlt slt in Moved n l dlt slt l' dlt' slt'
unfolding move_rounds
move_rounds-Moved n l exf dlt [] x = record {
  short = omega arith;
  moved =
      sym (append-nil (contents n dlt))
      ∙ ap (λ c. contents n dlt ++ c) (sym (take_all l [] (omega arith)));
  left = sym (drop_all l [] (omega arith));
}
move_rounds-Moved n l exf dlt (f ∷ fs) x =
    let ih = move_rounds-Moved n (l - u) exf (dlt ++ (f ∷ [])) fs x in
    elim (Bool-cases (leb u l)) [
      | inl e ↦ elim (Bool-cases (l == u)) [
        | inl z ↦
            let d : l - length (bytes n f) ≡ 0 = omega (arith, len, ==→eq _ _ z) in
            rw (e, z)
              (record {
                short = omega (arith, len, total, ==→eq _ _ z);
                moved =
                    one
                    ∙ ap (λ c. contents n dlt ++ c)
                        (sym (append-nil (bytes n f)) ∙ sym (take_beyond (leb→le _ _ e) ∙ (rw d)));
                left = sym (drop_beyond (leb→le _ _ e) ∙ (rw d));
              })
        | inr z ↦
            rw (e, z)
              (record {
                short = omega (arith, len, total, ih.short);
                moved =
                    ih.moved
                    ∙ ap (λ c. c ++ take (l - u) (contents n fs)) one
                    ∙ append_assoc (contents n dlt) (bytes n f) (take (l - u) (contents n fs))
                    ∙ ap (λ c. contents n dlt ++ c) (sym (take_beyond (leb→le _ _ e) ∙ (rw len)));
                left = ih.left ∙ sym (drop_beyond (leb→le _ _ e) ∙ (rw len));
              })
      ]
      | inr e ↦ elim (Bool-cases (ltb 0 l)) [
        | inl z ↦
            rw (e, z)
              (record {
                short = omega (arith, len, total, leb→lt _ _ e);
                moved =
                    contents-append n dlt (exf' ∷ [])
                    ∙ ap (λ c. contents n dlt ++ c)
                        (append-nil (bytes n exf')
                          ∙ head (leb→lt _ _ e)
                          ∙ sym (
                              take-append_le l (bytes n f) (contents n fs)
                                (omega (arith, len, leb→lt _ _ e))));
                left =
                    ap (λ c. c ++ contents n fs) (tail (leb→lt _ _ e))
                    ∙ sym (
                        drop-append_le l (bytes n f) (contents n fs)
                          (omega (arith, len, leb→lt _ _ e)));
              })
        | inr z ↦
            let d : l ≡ 0 = omega (arith, ltb→le _ _ z) in
            rw (e, z)
              (record {
                short = omega arith;
                moved = rw d (sym (append-nil (contents n dlt)));
                left = rw d;
              })
      ]
    ]
  where
    u : ℕ
    u = n - (f.top + 1)

    len : length (bytes n f) ≡ u
    len = length-slice f.fc (f.top + 1) u

    total : length (bytes n f ++ contents n fs) ≡ length (bytes n f) + length (contents n fs)
    total = length-append (bytes n f) (contents n fs)

    one : contents n (dlt ++ (f ∷ [])) ≡ contents n dlt ++ bytes n f
    one = contents-append n dlt (f ∷ []) ∙ ap (λ c. contents n dlt ++ c) (append-nil (bytes n f))

    take_beyond :
        u ≤ l
        → take l (bytes n f ++ contents n fs)
          ≡ bytes n f ++ take (l - length (bytes n f)) (contents n fs)
    take_beyond h = take-append_ge l (bytes n f) (contents n fs) (omega (arith, len))

    drop_beyond :
        u ≤ l → drop l (bytes n f ++ contents n fs) ≡ drop (l - length (bytes n f)) (contents n fs)
    drop_beyond h = drop-append_ge l (bytes n f) (contents n fs) (omega (arith, len))

    exf' : Frame
    exf' = (copy_bytes l (exf.top - l + 1) (record exf { top = exf.top - l }) f).0

    f' : Frame
    f' = (copy_bytes l (exf.top - l + 1) (record exf { top = exf.top - l }) f).1

    r : CopiedBytes l (exf.top - l + 1) (record exf { top = exf.top - l }) f exf' f'
    r = copy_bytes-CopiedBytes l (exf.top - l + 1) (record exf { top = exf.top - l }) f

    head : l < u → bytes n exf' ≡ take l (bytes n f)
    head h =
        let c : n - (exf.top - l + 1) ≡ l = omega arith in
        rw (r.top_out, c) (r.bytes_out ∙ sym (take-slice l f.fc (f.top + 1) u (omega arith)))

    tail : l < u → bytes n f' ≡ drop l (bytes n f)
    tail h =
        let i : f.top + l + 1 ≡ f.top + 1 + l = omega arith in
        let c : n - (f.top + 1 + l) ≡ u - l = omega arith in
        rw (r.top_in, i, c, fun_ext r.fc_in) (sym (drop-slice l f.fc (f.top + 1) u (omega arith)))

-- Where a spare frame can be had, `frame_move` takes the first `l` bytes of the source, or all,
-- from it and puts them behind those of the destination; its result is their number.
pub move_lem :
    (n l : ℕ) (dlt slt : List Frame) (p : Pool)
    → 2 ≤ n
    → 0 < supply p
    → let (got, dlt', slt', p') = move n dlt slt l p in
      (got ≡ some (min l (length (contents n slt))))
      × (contents n dlt' ≡ contents n dlt ++ take l (contents n slt))
      × (contents n slt' ≡ drop l (contents n slt))
unfolding move new
move_lem n l dlt slt p h s =
    let r = move_rounds-Moved n l (record { top = n - 1; fc = λ _. 0 }) dlt slt (omega arith) in
    let a = acquire-supply p.free_frame p.mallocs p refl refl s in
    rw (a.0, move) (ap some (omega (arith, r.short)), r.moved, r.left)
