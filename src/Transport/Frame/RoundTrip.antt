-- ===== src/Transport/Frame/RoundTrip.antt =====
-- What is written to a list of frames is what is read back from it.
use mlvm.Base.{
  ℕ, ◌-◌, ◌^◌, ◌≤◌, ◌<◌, ◌≡◌, ap, ◌∙◌, some, List, ◌++◌, arith, length, take, drop, take-append_ge,
  drop-append_ge, append-nil, length-append,
}
use mlvm.Transport.Frame.{Frame, Pool, contents, IsValid}
use mlvm.Transport.Frame.Write.{
  written, write_string, write_int, write_short, int_bytes, short_bytes,
}
use mlvm.Transport.Frame.Write.Supply.{supply, write_string-prepends}
use mlvm.Transport.Frame.Read.{read_string, read_int, read_short, number}
use mlvm.Transport.Frame.Read.Takes.{read_string_lem}

-- A string that is written while frames can be had is read back whole, and the read leaves the
-- bytes that were there before.
pub read_string-write_string :
    (n : ℕ) (st : List ℕ) (lt : List Frame) (p q : Pool)
    → 2 ≤ n
    → IsValid n lt
    → length st < supply p
    → let (s, lt', p') = write_string n st lt p in
      let (bs, got, lt'', q') = read_string n (length st) lt' q in
      (s ≡ written (length st)) × (bs ≡ st) × (got ≡ length st) × (contents n lt'' ≡ contents n lt)
read_string-write_string n st lt p q h v c =
    let w = write_string-prepends n st lt p h v c in
    let r = read_string_lem n (length st) (write_string n st lt p).1 q w.2 in
    let z : length st - length st ≡ 0 = omega arith in
    (
      w.0,
      r.0
          ∙ ap (take (length st)) w.1
          ∙ take-append_ge (length st) st (contents n lt) (omega arith)
          ∙ ap (λ k. st ++ take k (contents n lt)) z
          ∙ append-nil st,
      omega (arith, r.1, ap length w.1, length-append st (contents n lt)),
      r.2
          ∙ ap (drop (length st)) w.1
          ∙ drop-append_ge (length st) st (contents n lt) (omega arith)
          ∙ ap (λ k. drop k (contents n lt)) z,
    )

number-int_bytes : (v : ℕ) → v < 2 ^ 32 → number 0 (int_bytes v) ≡ v
number-int_bytes v h = omega arith

number-short_bytes : (v : ℕ) → v < 2 ^ 16 → number 0 (short_bytes v) ≡ v
number-short_bytes v h = omega arith

-- An `int` that is written while frames can be had is read back, by its unsigned pattern, and the
-- bytes behind it stay.
pub read_int-write_int :
    (n v : ℕ) (lt : List Frame) (p q : Pool)
    → 2 ≤ n
    → v < 2 ^ 32
    → IsValid n lt
    → 4 < supply p
    → let (s, lt', p') = write_int n v lt p in
      let (o, lt'', q') = read_int n lt' q in
      (s ≡ written 4) × (o ≡ some v) × (contents n lt'' ≡ contents n lt)
unfolding write_int read_int
read_int-write_int n v lt p q h b l c =
    let r = read_string-write_string n (int_bytes v) lt p q h l c in
    rw (r.2, r.1) (r.0, ap some (number-int_bytes v b), r.3)

-- A `short` likewise.
pub read_short-write_short :
    (n v : ℕ) (lt : List Frame) (p q : Pool)
    → 2 ≤ n
    → v < 2 ^ 16
    → IsValid n lt
    → 2 < supply p
    → let (s, lt', p') = write_short n v lt p in
      let (o, lt'', q') = read_short n lt' q in
      (s ≡ written 2) × (o ≡ some v) × (contents n lt'' ≡ contents n lt)
unfolding write_short read_short
read_short-write_short n v lt p q h b l c =
    let r = read_string-write_string n (short_bytes v) lt p q h l c in
    rw (r.2, r.1) (r.0, ap some (number-short_bytes v b), r.3)
