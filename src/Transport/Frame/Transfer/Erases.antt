-- ===== src/Transport/Frame/Transfer/Erases.antt =====
-- frame_erase against the bytes of the list.
use mlvm.Base.{
  drop-slice, ℕ, ◌+◌, ◌-◌, ◌≤◌, ◌≡◌, sym, ap, ◌∙◌, inl, inr, List, [], ◌∷◌, ◌++◌, min, leb, ◌==◌,
  arith, length, drop, drop-append_le, drop-append_ge, drop_all, length-slice, length-append,
  Bool-cases, leb→le, leb→lt, ==→eq,
}
use mlvm.Transport.Frame.{Frame, Pool, free, bytes, contents, IsValid}
use mlvm.Transport.Frame.Transfer.{erase_rounds, erase}

record Erased (n s : ℕ) (lt : List Frame) (s' : ℕ) (lt' : List Frame) : Type 0 where
  left : contents n lt' ≡ drop s (contents n lt)
  short : s' ≡ s - length (contents n lt)
  valid : IsValid n lt'

erase_rounds-Erased :
    (n s : ℕ) (lt : List Frame) (p : Pool)
    → IsValid n lt
    → Erased n s lt (erase_rounds n s lt p).0 (erase_rounds n s lt p).1
unfolding erase_rounds
erase_rounds-Erased n s [] p v = record {
  left = sym (drop_all s [] (omega arith));
  short = omega arith;
  valid = tt;
}
erase_rounds-Erased n s (f ∷ fs) p v =
    let ih = erase_rounds-Erased n (s - u) fs (free f p) v.1 in
    elim (Bool-cases (leb u s)) [
      | inl e ↦ elim (Bool-cases (s == u)) [
        | inl z ↦
            rw (e, z)
              (record {
                left = sym (
                    beyond (leb→le _ _ e)
                    ∙ (let d : s - length (bytes n f) ≡ 0 = omega (arith, len, ==→eq _ _ z) in
                        rw d));
                short = omega (arith, len, total, ==→eq _ _ z);
                valid = v.1;
              })
        | inr z ↦
            rw (e, z)
              (record {
                left = ih.left ∙ sym (beyond (leb→le _ _ e) ∙ (rw len));
                short = omega (arith, len, total, ih.short);
                valid = ih.valid;
              })
      ]
      | inr e ↦ rw e (record {
        left =
            ap (λ b. b ++ contents n fs)
              ((let d : f.top + s + 1 ≡ f.top + 1 + s = omega arith in
                  let c : n - (f.top + s + 1) ≡ n - (f.top + 1) - s = omega arith in rw (c, d))
                ∙ sym (drop-slice s f.fc (f.top + 1) u (omega (arith, leb→lt _ _ e))))
            ∙ sym (drop-append_le s (bytes n f) (contents n fs) (omega (arith, len, leb→lt _ _ e)));
        short = omega (arith, len, total, leb→lt _ _ e);
        valid = (omega (arith, leb→lt _ _ e), v.1);
      })
    ]
  where
    u : ℕ
    u = n - (f.top + 1)

    len : length (bytes n f) ≡ u
    len = length-slice f.fc (f.top + 1) u

    total : length (bytes n f ++ contents n fs) ≡ length (bytes n f) + length (contents n fs)
    total = length-append (bytes n f) (contents n fs)

    beyond :
        u ≤ s → drop s (bytes n f ++ contents n fs) ≡ drop (s - length (bytes n f)) (contents n fs)
    beyond h = drop-append_ge s (bytes n f) (contents n fs) (omega (arith, len))

-- `frame_erase` removes the first bytes of the list, as many as it is asked for or as there are;
-- its result is their number.
pub erase_lem :
    (n l : ℕ) (lt : List Frame) (p : Pool)
    → IsValid n lt
    → let (got, lt', p') = erase n l lt p in
      (got ≡ min l (length (contents n lt)))
      × (contents n lt' ≡ drop l (contents n lt))
      × IsValid n lt'
unfolding erase
erase_lem n l lt p v =
    let r = erase_rounds-Erased n l lt p v in (omega (arith, r.short), r.left, r.valid)
