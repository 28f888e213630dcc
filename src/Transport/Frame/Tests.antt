-- ===== src/Transport/Frame/Tests.antt =====
-- The theorems on frames of transport/frame.c at small lists, in frames of eight bytes.
use mlvm.Base.{
  ℕ, ◌+◌, ◌<◌, ◌≡◌, refl, true, none, some, List, [], ◌∷◌, ◌++◌, arith, min, length, take, drop,
  ltb, if◌then◌else◌,
}
use mlvm.Transport.Frame.{Frame, Pool, contents, size, IsValid}
use mlvm.Transport.Frame.Thresholds.{IsWindow}
use mlvm.Transport.Frame.Write.{written, write_string, undo}
use mlvm.Transport.Frame.Write.Supply.{supply, write_string-prepends}
use mlvm.Transport.Frame.Write.Undo.{undo-leaves}
use mlvm.Transport.Frame.Read.{read_string}
use mlvm.Transport.Frame.Read.Takes.{read_string_lem}
use mlvm.Transport.Frame.RoundTrip.{read_string-write_string}
use mlvm.Transport.Frame.Transfer.{erase, copy, move, peek_string}
use mlvm.Transport.Frame.Transfer.Erases.{erase_lem}
use mlvm.Transport.Frame.Transfer.Copies.{copy-appends}
use mlvm.Transport.Frame.Transfer.Moves.{move_lem}
use mlvm.Transport.Frame.Transfer.Peeks.{peek_string_lem}

-- Three bytes in one frame, then two in another.
abbrev first : Frame
first = record { top = 4; fc = λ i. i + 60 }

abbrev second : Frame
second = record { top = 5; fc = λ i. i + 80 }

abbrev two_frames : List Frame
two_frames = first ∷ second ∷ []

abbrev pool : Pool
pool = record {
  free_frame = first ∷ [];
  counter = 3;
  upper = 1024;
  lower = 0;
  mallocs = true ∷ true ∷ true ∷ true ∷ true ∷ true ∷ true ∷ true ∷ true ∷ true ∷ true ∷ [];
}

abbrev word_bytes : List ℕ
word_bytes = 1 ∷ 2 ∷ 3 ∷ 4 ∷ 5 ∷ 6 ∷ []

contents_run : contents 8 two_frames ≡ 65 ∷ 66 ∷ 67 ∷ 86 ∷ 87 ∷ []
contents_run = refl

two_frames-IsValid : IsValid 8 two_frames
two_frames-IsValid = (omega arith, (omega arith, tt))

two_frames-supply : length word_bytes < supply pool
two_frames-supply = omega arith

read_string-write_string_example :
    let (s, lt', p') = write_string 8 word_bytes two_frames pool in
    let (bs, got, lt'', q') = read_string 8 6 lt' pool in
    (s ≡ written 6) × (bs ≡ word_bytes) × (got ≡ 6) × (contents 8 lt'' ≡ contents 8 two_frames)
read_string-write_string_example =
    read_string-write_string 8 word_bytes two_frames pool pool (omega arith) two_frames-IsValid
      two_frames-supply

write_string-prepends_example :
    let (s, lt', p') = write_string 8 word_bytes two_frames pool in
    (s ≡ written 6) × (contents 8 lt' ≡ word_bytes ++ contents 8 two_frames) × IsValid 8 lt'
write_string-prepends_example =
    write_string-prepends 8 word_bytes two_frames pool (omega arith) two_frames-IsValid
      two_frames-supply

read_string_lem_example :
    let (bs, got, lt', p') = read_string 8 4 two_frames pool in
    (bs ≡ take 4 (contents 8 two_frames))
    × (got ≡ min 4 (length (contents 8 two_frames)))
    × (contents 8 lt' ≡ drop 4 (contents 8 two_frames))
    × IsValid 8 lt'
read_string_lem_example = read_string_lem 8 4 two_frames pool two_frames-IsValid

erase_lem_example :
    let (got, lt', p') = erase 8 4 two_frames pool in
    (got ≡ min 4 (length (contents 8 two_frames)))
    × (contents 8 lt' ≡ drop 4 (contents 8 two_frames))
    × IsValid 8 lt'
erase_lem_example = erase_lem 8 4 two_frames pool two_frames-IsValid

copy-appends_example :
    let (got, dlt', p') = copy 8 (second ∷ []) two_frames 4 pool in
    (got ≡ min 4 (length (contents 8 two_frames)))
    × (contents 8 dlt' ≡ contents 8 (second ∷ []) ++ take 4 (contents 8 two_frames))
    × IsValid 8 dlt'
copy-appends_example =
    copy-appends 8 4 (second ∷ []) two_frames pool (omega arith) (omega arith, tt)
      (λ e. omega (arith, e), (λ e. omega (arith, e), tt)) (omega arith)

move_lem_example :
    let (got, dlt', slt', p') = move 8 (second ∷ []) two_frames 4 pool in
    (got ≡ some (min 4 (length (contents 8 two_frames))))
    × (contents 8 dlt' ≡ contents 8 (second ∷ []) ++ take 4 (contents 8 two_frames))
    × (contents 8 slt' ≡ drop 4 (contents 8 two_frames))
move_lem_example = move_lem 8 4 (second ∷ []) two_frames pool (omega arith) (omega arith)

peek_string_lem_example : peek_string 8 6 two_frames ≡ (
    if ltb (length (contents 8 two_frames)) 6 then none else some (take 6 (contents 8 two_frames)))
peek_string_lem_example = peek_string_lem 8 6 first (second ∷ []) two_frames-IsValid

size_run : size 8 two_frames ≡ 5
unfolding size
size_run = refl

undo-leaves_example :
    size 8 (undo 8 4 two_frames pool).0 + 4 + length (undo 8 4 two_frames pool).0
    ≡ size 8 two_frames + 2
undo-leaves_example = undo-leaves 8 4 two_frames pool two_frames-IsValid (omega (arith, size_run))

-- A pool above the first window, whose last frames in use come back.
abbrev high_pool : Pool
high_pool = record pool { counter = 600; upper = 1624; lower = 600 }

high_pool-IsWindow : IsWindow high_pool
high_pool-IsWindow = record { apart = omega arith; in_range = omega arith; live = omega arith }
