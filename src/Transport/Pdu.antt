-- ===== src/Transport/Pdu.antt =====
-- transport/imago_pdu.c: the table of PDUs. A `struct pdu_str *` is the index of its entry, and NULL
-- is none. An entry is in use when its field `self` is its own index. The fields that the layers use
-- are of a type `F`, which this file only clears and copies. The links of the PDUs are in `nexts`,
-- where the node of entry `i` is `i + 1` and 0 is no node.
pub mod Counts
pub mod Clones
pub mod Tests
use mlvm.Base.{
  ℕ, zero, suc, ◌+◌, ◌-◌, ◌%◌, ◌/◌, ◌^◌, Bool, true, false, not, Option, none, some, List, [],
  if◌then◌else◌, ltb, ◌==◌, update,
}
use mlvm.System.Queue.{Nexts}
use mlvm.Transport.Queue
use mlvm.Transport.Queue.{LinkHead}
use mlvm.Transport.Frame
use mlvm.Transport.Frame.{Frame, Pool, ulong, increment, decrement}
use mlvm.Transport.Frame.Write
use mlvm.Transport.Frame.Write.{Status}
use mlvm.Transport.Frame.Read
use mlvm.Transport.Frame.Transfer

-- IMAGO_MAX_PDU, as the build has it, and PDU_TYPE_SITP
abbrev pub max_pdu : ℕ
max_pdu = 1024

abbrev pub pdu_type_sitp : ℕ
pdu_type_sitp = 0x8000

module _ (F : Type 0) where
  -- `struct pdu_str`
  pub record Pdu : Type 0 where
    pub self : Option ℕ
    pub flags : ℕ
    pub state : ℕ
    pub fields : F
    pub frames : List Frame

  -- `pdu_table`, `pdu_count`, `pdu_max_count` and `pdu_list_hdr`, the pool of frames, and how many
  -- times SIGIO was sent.
  pub record PduTable : Type 0 where
    pub pdu_table : ℕ → Pdu
    pub pdu_count : ℕ
    pub pdu_max_count : ℕ
    pub pdu_list_hdr : LinkHead
    pub nexts : Nexts
    pub pool : Pool
    pub signals : ℕ

-- `p->self == p` for the entry `i`
abbrev pub points_to : ℕ → Option ℕ → Bool
points_to i none = false
points_to i (some j) = j == i

module _ {F : Type 0} where
  abbrev pub in_use : ℕ → Pdu F → Bool
  in_use i p = points_to i p.self

  abbrev pub write_pdu : ℕ → Pdu F → PduTable F → PduTable F
  write_pdu i p t = record t { pdu_table = update t.pdu_table i p }

  -- The frames of an entry, and the pool.
  abbrev pub put_frames : ℕ → List Frame → Pool → PduTable F → PduTable F
  put_frames i lt p t = record t {
    pdu_table = update t.pdu_table i (record (t.pdu_table i) { frames = lt });
    pool = p;
  }

  -- The search of `pdu_new` over the `n` entries from index `i` on.
  pub find_invalid : ℕ → ℕ → (ℕ → Pdu F) → Option ℕ
  find_invalid zero i table = none
  find_invalid (suc n) i table =
      if not (in_use i (table i)) then some i else find_invalid n (i + 1) table

  -- `pdu_free` of an entry in use, with the new count.
  abbrev pub free_at : ℕ → PduTable F → PduTable F
  free_at i t = record t {
    pdu_table = update t.pdu_table i (record (t.pdu_table i) { self = none; frames = [] });
    pdu_count = decrement t.pdu_count;
    pool = Frame.destroy (t.pdu_table i).frames t.pool;
    signals = if decrement t.pdu_count == max_pdu - 1 then t.signals + 1 else t.signals;
  }

  -- `pdu_free`
  unfoldable pub pdu_free : Option ℕ → PduTable F → PduTable F
  pdu_free none t = t
  pdu_free (some i) t = if in_use i (t.pdu_table i) then free_at i t else t

  -- `pdu_enqueue` and `pdu_dequeue`
  unfoldable pub pdu_enqueue : ℕ → PduTable F → PduTable F
  pdu_enqueue i t =
      let (h, nexts) = Queue.enqueue t.pdu_list_hdr (i + 1) t.nexts in
      record t { pdu_list_hdr = h; nexts = nexts }

  unfoldable pub pdu_dequeue : PduTable F → Option ℕ × PduTable F
  pdu_dequeue t =
      let (n, h) = Queue.dequeue t.pdu_list_hdr t.nexts in
      (if n == 0 then none else some (n - 1), record t { pdu_list_hdr = h })

  -- `pdu_set_state`
  unfoldable pub pdu_set_state : ℕ → ℕ → PduTable F → PduTable F
  pdu_set_state i stateid t = write_pdu i (record (t.pdu_table i) { state = stateid }) t

  -- `zeros` is what `memset` makes of the other fields.
  module _ (zeros : F) where
    -- `pdu_init`
    abbrev pub pdu_init : ℕ → Pdu F
    pdu_init i = record {
      self = some i;
      flags = pdu_type_sitp;
      state = 0;
      fields = zeros;
      frames = [];
    }

    -- `pdu_new` with the entry that it found
    abbrev pub new_pdu : Option ℕ → PduTable F → Option ℕ × PduTable F
    new_pdu none t = (none, t)
    new_pdu (some i) t = (
      some i,
      record (write_pdu i (pdu_init i) t) {
        nexts = update t.nexts (i + 1) 0;
        pdu_count = increment t.pdu_count;
        pdu_max_count =
            if ltb t.pdu_max_count (increment t.pdu_count)
            then increment t.pdu_count
            else t.pdu_max_count;
      },
    )

    -- `pdu_new`
    unfoldable pub pdu_new : PduTable F → Option ℕ × PduTable F
    unfolding find_invalid
    pdu_new t = new_pdu (find_invalid max_pdu 0 t.pdu_table) t

    module _ (frame_size : ℕ) where
      -- `pdu_clone` with an entry to copy to: the result of `frame_copy` is a count, so that the
      -- test for a negative one never holds.
      pub clone_to : ℕ → ℕ → PduTable F → Option ℕ × PduTable F
      clone_to o c t =
          let source = t.pdu_table o in
          let t1 : PduTable F =
            record (write_pdu c (record source { self = some c; frames = [] }) t) {
              nexts = update t.nexts (c + 1) (t.nexts (o + 1));
            } in
          let (got, lt, p) =
            Transfer.copy frame_size [] (t1.pdu_table o).frames
              (Frame.size frame_size (t1.pdu_table o).frames) t1.pool in
          (some c, put_frames c lt p t1)

      pub clone_new : ℕ → Option ℕ × PduTable F → Option ℕ × PduTable F
      unfolding clone_to
      clone_new o (none, t) = (none, t)
      clone_new o (some c, t) = clone_to o c t

      -- `pdu_clone`
      unfoldable pub pdu_clone : ℕ → Option ℕ → PduTable F → Option ℕ × PduTable F
      unfolding clone_to clone_new
      pdu_clone o none t = clone_new o (pdu_new t)
      pdu_clone o (some c) t =
          clone_to o c (put_frames c [] (Frame.destroy (t.pdu_table c).frames t.pool) t)

  -- `pdu_size`, `pdu_erase_frame`, and the functions that write and read the header
  module _ (frame_size : ℕ) where
    unfoldable pub pdu_size : ℕ → PduTable F → ℕ
    pdu_size i t = Frame.size frame_size (t.pdu_table i).frames

    unfoldable pub pdu_erase_frame : ℕ → ℕ → PduTable F → ℕ × PduTable F
    pdu_erase_frame i l t =
        let (got, lt, p) = Transfer.erase frame_size l (t.pdu_table i).frames t.pool in
        (got, put_frames i lt p t)

    unfoldable pub pdu_write_text : ℕ → List ℕ → PduTable F → Status × PduTable F
    pdu_write_text i te t =
        let (s, lt, p) = Write.write_text frame_size te (t.pdu_table i).frames t.pool in
        (s, put_frames i lt p t)

    unfoldable pub pdu_write_string : ℕ → List ℕ → PduTable F → Status × PduTable F
    pdu_write_string i st t =
        let (s, lt, p) = Write.write_string frame_size st (t.pdu_table i).frames t.pool in
        (s, put_frames i lt p t)

    unfoldable pub pdu_write_int : ℕ → ℕ → PduTable F → Status × PduTable F
    pdu_write_int i v t =
        let (s, lt, p) = Write.write_int frame_size v (t.pdu_table i).frames t.pool in
        (s, put_frames i lt p t)

    unfoldable pub pdu_write_short : ℕ → ℕ → PduTable F → Status × PduTable F
    pdu_write_short i v t =
        let (s, lt, p) = Write.write_short frame_size v (t.pdu_table i).frames t.pool in
        (s, put_frames i lt p t)

    unfoldable pub pdu_write_byte : ℕ → ℕ → PduTable F → Status × PduTable F
    pdu_write_byte i v t =
        let (s, lt, p) = Write.write_byte frame_size v (t.pdu_table i).frames t.pool in
        (s, put_frames i lt p t)

    unfoldable pub pdu_read_text : ℕ → ℕ → PduTable F → List ℕ × ℕ × PduTable F
    pdu_read_text i max t =
        let (bs, n, lt, p) = Read.read_text frame_size max (t.pdu_table i).frames t.pool in
        (bs, n, put_frames i lt p t)

    unfoldable pub pdu_read_string : ℕ → ℕ → PduTable F → List ℕ × ℕ × PduTable F
    pdu_read_string i length t =
        let (bs, n, lt, p) = Read.read_string frame_size length (t.pdu_table i).frames t.pool in
        (bs, n, put_frames i lt p t)

    unfoldable pub pdu_read_int : ℕ → PduTable F → Option ℕ × PduTable F
    pdu_read_int i t =
        let (v, lt, p) = Read.read_int frame_size (t.pdu_table i).frames t.pool in
        (v, put_frames i lt p t)

    unfoldable pub pdu_read_short : ℕ → PduTable F → Option ℕ × PduTable F
    pdu_read_short i t =
        let (v, lt, p) = Read.read_short frame_size (t.pdu_table i).frames t.pool in
        (v, put_frames i lt p t)

    unfoldable pub pdu_read_byte : ℕ → PduTable F → Option ℕ × PduTable F
    pdu_read_byte i t =
        let (v, lt, p) = Read.read_byte frame_size (t.pdu_table i).frames t.pool in
        (v, put_frames i lt p t)
