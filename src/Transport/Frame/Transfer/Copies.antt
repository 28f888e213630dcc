-- ===== src/Transport/Frame/Transfer/Copies.antt =====
-- frame_append_string and frame_copy against the bytes of the lists.
use mlvm.Base.{
  ℕ, ◌+◌, ◌-◌, ◌≤◌, ◌<◌, ◌≡◌, ◌≢◌, refl, sym, ap, subst, ◌∙◌, inl, inr, List, [], ◌∷◌, ◌++◌, min,
  leb, ◌==◌, arith, append_assoc, append-nil, length, take, take-append_le, take-append_ge,
  take_all, length-take, length-slice, length-append, Bool-cases, ==→eq, ==→ne, leb→le, leb→lt, All,
}
use mlvm.Transport.Frame.{Frame, Pool, bytes, contents, used, IsValid}
use mlvm.Transport.Frame.Write.{Status, written, low_memory, out_of_fuel, write_string}
use mlvm.Transport.Frame.Write.Prepends.{Wrote, write_string-Wrote}
use mlvm.Transport.Frame.Write.Supply.{supply, write_string-supply}
use mlvm.Transport.Frame.Transfer.{append_string, copy_rounds, copy}

pub contents-append :
    (n : ℕ) (xs ys : List Frame) → contents n (xs ++ ys) ≡ contents n xs ++ contents n ys
contents-append n [] ys = refl
contents-append n (f ∷ fs) ys =
    ap (λ c. bytes n f ++ c) (contents-append n fs ys)
    ∙ sym (append_assoc (bytes n f) (contents n fs) (contents n ys))

pub IsValid-append :
    (n : ℕ) (xs ys : List Frame) → IsValid n xs → IsValid n ys → IsValid n (xs ++ ys)
IsValid-append n [] ys v w = w
IsValid-append n (f ∷ fs) ys v w = (v.0, IsValid-append n fs ys v.1 w)

-- A successful `frame_append_string` puts the string behind the bytes of the list; a failed one
-- leaves the list alone.
abbrev pub Appended : (n : ℕ) → List ℕ → List Frame → Status × List Frame × Pool → Type 0
Appended n st lt (written k, lt', p) =
    (k ≡ length st) × IsValid n lt' × (contents n lt' ≡ contents n lt ++ st)
Appended n st lt (low_memory, lt', p) = lt' ≡ lt
Appended n st lt (out_of_fuel, lt', p) = ⊥

pub append_string-Appended :
    (n : ℕ) (st : List ℕ) (lt : List Frame) (p : Pool)
    → 2 ≤ n
    → IsValid n lt
    → Appended n st lt (append_string n st lt p)
unfolding append_string
append_string-Appended n st lt p h v =
    (elim (write_string n st [] p).0
        as (λ s. Wrote n (length st) (st ++ []) (s, ext, p') → Appended n st lt (append s)) [
          | written k ↦ λ w. (
            w.0,
            IsValid-append n lt ext v w.1,
            contents-append n lt ext ∙ ap (λ c. contents n lt ++ c) (w.2 ∙ append-nil st),
          )
          | low_memory ↦ λ w. refl
          | out_of_fuel ↦ λ w. absurd w
        ])
      (write_string-Wrote n st [] p h tt)
  where
    ext : List Frame
    ext = (write_string n st [] p).1

    p' : Pool
    p' = (write_string n st [] p).2

    append : Status → Status × List Frame × Pool
    append s = elim s [
      | written k ↦ (written k, lt ++ ext, p')
      | low_memory ↦ (low_memory, lt, p')
      | out_of_fuel ↦ (out_of_fuel, lt, p')
    ]

append_string-supply :
    (n : ℕ) (st : List ℕ) (lt : List Frame) (p : Pool)
    → 2 ≤ n
    → length st < supply p
    → ((append_string n st lt p).0 ≡ written (length st))
      × (supply p ≤ supply (append_string n st lt p).2 + length st + 1)
unfolding append_string
append_string-supply n st lt p h c =
    let r = write_string-supply n st [] p h tt c in rw (r.0, append_string) (refl, r.1)

-- What `frame_copy` has done when `l'` bytes are still to be copied.
record Copied (n l : ℕ) (dlt slt : List Frame) (l' : ℕ) (dlt' : List Frame) : Type 0 where
  short : l' ≡ l - length (contents n slt)
  copied : contents n dlt' ≡ contents n dlt ++ take l (contents n slt)
  valid : IsValid n dlt'

Copied-next :
    (n l : ℕ) (dlt mid : List Frame) (f : Frame) (fs : List Frame) {l' : ℕ} {dlt' : List Frame}
    → contents n mid ≡ contents n dlt ++ take (min l (used n f)) (bytes n f)
    → Copied n (l - min l (used n f)) mid fs l' dlt'
    → Copied n l dlt (f ∷ fs) l' dlt'
Copied-next n l dlt mid f fs e r = record {
  short = omega (arith, r.short, len, length-append (bytes n f) (contents n fs));
  copied =
      r.copied
      ∙ ap (λ c. c ++ take (l - min l u) (contents n fs)) e
      ∙ append_assoc (contents n dlt) (take (min l u) (bytes n f))
          (take (l - min l u) (contents n fs))
      ∙ ap (λ c. contents n dlt ++ c) parts;
  valid = r.valid;
}
  where
    u : ℕ
    u = used n f

    len : length (bytes n f) ≡ u
    len = length-slice f.fc (f.top + 1) u

    parts :
        take (min l u) (bytes n f) ++ take (l - min l u) (contents n fs)
        ≡ take l (bytes n f ++ contents n fs)
    parts = elim (Bool-cases (leb u l)) [
      | inl e ↦
          let d : min l u ≡ u = omega (arith, leb→le _ _ e) in
          rw (d, take_all u (bytes n f) (omega (arith, len)))
            (ap (λ k. bytes n f ++ take k (contents n fs)) (omega (arith, len))
              ∙ sym
                  (take-append_ge l (bytes n f) (contents n fs) (omega (arith, len, leb→le _ _ e))))
      | inr e ↦
          let d : min l u ≡ l = omega (arith, leb→lt _ _ e) in
          let z : l - l ≡ 0 = omega arith in
          rw (d, z)
            (append-nil (take l (bytes n f))
              ∙ sym
                  (take-append_le l (bytes n f) (contents n fs) (omega (arith, len, leb→lt _ _ e))))
    ]

copy_rounds-Copied :
    (n l : ℕ) (dlt slt : List Frame) (p : Pool)
    → 2 ≤ n
    → IsValid n dlt
    → All (λ f. used n f ≢ 0) slt
    → l + length slt < supply p
    → Copied n l dlt slt (copy_rounds n l dlt slt p).0 (copy_rounds n l dlt slt p).1
unfolding copy_rounds
copy_rounds-Copied n l dlt [] p h v full c = record {
  short = omega arith;
  copied =
      sym (append-nil (contents n dlt))
      ∙ ap (λ x. contents n dlt ++ x) (sym (take_all l [] (omega arith)));
  valid = v;
}
copy_rounds-Copied n l dlt (f ∷ fs) p h v full c = elim (Bool-cases (l2 == 0)) [
  | inl e ↦
      rw (e, copy_rounds)
        (record {
          short = omega (arith, ==→eq _ _ e, full.0);
          copied =
              let z : l ≡ 0 = omega (arith, ==→eq _ _ e, full.0) in
              rw z (sym (append-nil (contents n dlt)));
          valid = v;
        })
  | inr e ↦
      rw (e, copy_rounds)
        ((elim (append_string n st dlt p).0
            as (λ s.
              s ≡ written l2
              → Appended n st dlt (s, mid, p')
              → Copied n l dlt (f ∷ fs) (rounds s).0 (rounds s).1) [
                | written k ↦ λ q a.
                    let k_eq : k ≡ l2 = a.0 ∙ st_len in
                    subst
                      (λ k.
                        Copied n l dlt (f ∷ fs) (copy_rounds n (l - k) mid fs p').0
                          (copy_rounds n (l - k) mid fs p').1)
                      (sym k_eq)
                      (Copied-next n l dlt mid f fs a.2 (
                        copy_rounds-Copied n (l - l2) mid fs p' h a.1 full.1
                          (omega (arith, more.1, st_len, ==→ne _ _ e))))
                | low_memory ↦ λ q. cc
                | out_of_fuel ↦ λ q. cc
              ])
          (more.0 ∙ ap written st_len) (append_string-Appended n st dlt p h v))
]
  where
    l2 : ℕ
    l2 = min l (used n f)

    st : List ℕ
    st = take l2 (bytes n f)

    st_len : length st ≡ l2
    st_len = omega (arith, length-take l2 (bytes n f), length-slice f.fc (f.top + 1) (used n f))

    mid : List Frame
    mid = (append_string n st dlt p).1

    p' : Pool
    p' = (append_string n st dlt p).2

    more :
        ((append_string n st dlt p).0 ≡ written (length st))
        × (supply p ≤ supply (append_string n st dlt p).2 + length st + 1)
    more = append_string-supply n st dlt p h (omega (arith, st_len))

    rounds : Status → ℕ × List Frame × Pool
    rounds s = elim s [
      | written k ↦ copy_rounds n (l - k) mid fs p'
      | low_memory ↦ (l, mid, p')
      | out_of_fuel ↦ (l, mid, p')
    ]

-- While frames can be had, and no frame of the source is empty, `frame_copy` puts the first `l`
-- bytes of the source, or all, behind those of the destination; its result is their number.
pub copy-appends :
    (n l : ℕ) (dlt slt : List Frame) (p : Pool)
    → 2 ≤ n
    → IsValid n dlt
    → All (λ f. used n f ≢ 0) slt
    → l + length slt < supply p
    → let (got, dlt', p') = copy n dlt slt l p in
      (got ≡ min l (length (contents n slt)))
      × (contents n dlt' ≡ contents n dlt ++ take l (contents n slt))
      × IsValid n dlt'
unfolding copy
copy-appends n l dlt slt p h v full c =
    let r = copy_rounds-Copied n l dlt slt p h v full c in
    (omega (arith, r.short), r.copied, r.valid)
