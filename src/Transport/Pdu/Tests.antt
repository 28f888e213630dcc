-- ===== src/Transport/Pdu/Tests.antt =====
-- The theorems on PDUs of transport/imago_pdu.c at a small table, with frames of eight bytes.
use mlvm.Base.{◌+◌, ◌<◌, ◌≡◌, refl, true, none, some, [], ◌∷◌, ◌==◌, if◌then◌else◌, arith}
use mlvm.Transport.Queue.{queue_init}
use mlvm.Transport.Frame.{Frame, Pool, contents, size, destroy}
use mlvm.Transport.Frame.Write.Supply.{supply}
use mlvm.Transport.Pdu.{Pdu, PduTable, pdu_new, pdu_free, pdu_clone}
use mlvm.Transport.Pdu.Counts.{IsCounted, at_start, after, by_new, by_free, used, Reach-IsCounted}
use mlvm.Transport.Pdu.Clones.{pdu_clone-copies}

abbrev pool : Pool
pool = record {
  free_frame = [];
  counter = 0;
  upper = 1024;
  lower = 0;
  mallocs = true ∷ true ∷ true ∷ true ∷ true ∷ true ∷ [];
}

-- Three bytes in a frame.
abbrev frame : Frame
frame = record { top = 4; fc = λ i. i + 60 }

abbrev empty_pdu : Pdu (Unit {0})
empty_pdu = record { self = none; flags = 0; state = 0; fields = tt; frames = [] }

abbrev source : Pdu (Unit {0})
source = record { self = some 3; flags = 0x8001; state = 5; fields = tt; frames = frame ∷ [] }

-- A table without PDUs, and one with a PDU of three bytes.
abbrev empty_table : PduTable (Unit {0})
empty_table = record {
  pdu_table = λ i. empty_pdu;
  pdu_count = 0;
  pdu_max_count = 0;
  pdu_list_hdr = queue_init;
  nexts = λ i. 0;
  pool = pool;
  signals = 0;
}

abbrev one_pdu : PduTable (Unit {0})
one_pdu = record empty_table { pdu_table = λ i. if i == 3 then source else empty_pdu }

pdu_new_run : (pdu_new tt empty_table).0 ≡ some 0
unfolding pdu_new
pdu_new_run = refl

empty_table-IsCounted : IsCounted empty_table
unfolding used
empty_table-IsCounted = record { counted = refl; peak = omega arith }

Reach-IsCounted_example : IsCounted (pdu_free (some 0) (pdu_new tt empty_table).1)
Reach-IsCounted_example =
    Reach-IsCounted tt 8 empty_table (pdu_free (some 0) (pdu_new tt empty_table).1)
      empty_table-IsCounted (after (after at_start by_new) (by_free 0 (omega arith)))

supplied : size 8 (frame ∷ []) + 1 < supply (destroy [] pool)
unfolding size destroy
supplied = omega arith

pdu_clone-copies_example :
    let (r, t') = pdu_clone tt 8 3 (some 9) one_pdu in
    (r ≡ some 9)
    × (contents 8 (t'.pdu_table 9).frames ≡ contents 8 (frame ∷ []))
    × ((t'.pdu_table 9).self ≡ some 9)
    × ((t'.pdu_table 9).flags ≡ 0x8001)
    × ((t'.pdu_table 9).state ≡ 5)
    × ((t'.pdu_table 9).fields ≡ tt)
    × (t'.nexts 10 ≡ one_pdu.nexts 4)
    × (t'.pdu_table 3 ≡ source)
pdu_clone-copies_example =
    pdu_clone-copies tt 8 3 9 one_pdu (λ e. omega (arith, e)) (omega arith)
      (λ e. omega (arith, e), tt) supplied
