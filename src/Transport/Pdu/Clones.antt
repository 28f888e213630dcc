-- ===== src/Transport/Pdu/Clones.antt =====
-- pdu_clone of transport/imago_pdu.c.
use mlvm.Base.{
  ℕ, ◌+◌, ◌-◌, ◌<◌, ◌≤◌, ◌≡◌, ◌≢◌, refl, ◌∙◌, false, some, List, [], ◌∷◌, ◌==◌, arith, ==-refl,
  ne→==, length, take_all, All, length-append, length-slice,
}
use mlvm.Transport.Frame
use mlvm.Transport.Frame.{Frame, Pool, contents, bytes, used}
use mlvm.Transport.Frame.Write.Supply.{supply}
use mlvm.Transport.Frame.Transfer.Copies.{copy-appends}
use mlvm.Transport.Pdu.{PduTable, pdu_clone, clone_to}

size-contents : (n : ℕ) (lt : List Frame) → Frame.size n lt ≡ length (contents n lt)
unfolding Frame.size
size-contents n [] = refl
size-contents n (f ∷ fs) = omega (
  arith,
  size-contents n fs,
  length-slice f.fc (f.top + 1) (n - (f.top + 1)),
  length-append (bytes n f) (contents n fs),
)

module _ {F : Type 0} (zeros : F) (n o c : ℕ) (t : PduTable F) (apart : o ≢ c) (room : 2 ≤ n)
    (full : All (λ f. used n f ≢ 0) (t.pdu_table o).frames)
    (enough : Frame.size n (t.pdu_table o).frames + length (t.pdu_table o).frames
      < supply (Frame.destroy (t.pdu_table c).frames t.pool)) where
  -- Where the clone is another entry, each frame is large enough and none of the source is empty,
  -- and frames can be had: `pdu_clone` to an entry returns it, with the bytes, the flags, the state
  -- and the other fields of the source, its link among them, and a `self` of its own, and leaves the
  -- source.
  pub pdu_clone-copies :
      let (r, t') = pdu_clone zeros n o (some c) t in
      (r ≡ some c)
      × (contents n (t'.pdu_table c).frames ≡ contents n (t.pdu_table o).frames)
      × ((t'.pdu_table c).self ≡ some c)
      × ((t'.pdu_table c).flags ≡ (t.pdu_table o).flags)
      × ((t'.pdu_table c).state ≡ (t.pdu_table o).state)
      × ((t'.pdu_table c).fields ≡ (t.pdu_table o).fields)
      × (t'.nexts (c + 1) ≡ t.nexts (o + 1))
      × (t'.pdu_table o ≡ t.pdu_table o)
  unfolding pdu_clone clone_to
  pdu_clone-copies =
      let other : (o == c) ≡ false = ne→== o c apart in
      let r =
        copy-appends n (Frame.size n (t.pdu_table o).frames) [] (t.pdu_table o).frames
          (Frame.destroy (t.pdu_table c).frames t.pool) room tt full enough in
      rw (==-refl c, other)
        (
          refl,
          r.1
              ∙ take_all _ (contents n (t.pdu_table o).frames)
                  (omega (arith, size-contents n (t.pdu_table o).frames)),
          refl,
          refl,
          refl,
          refl,
          rw (==-refl (c + 1)) refl,
          refl,
        )
