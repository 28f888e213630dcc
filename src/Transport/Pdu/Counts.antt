-- ===== src/Transport/Pdu/Counts.antt =====
-- The counters of transport/imago_pdu.c.
use mlvm.Base.{
  ℕ, zero, suc, ◌+◌, ◌<◌, ◌≤◌, ◌≡◌, refl, sym, subst, ◌∙◌, inl, inr, Bool, true, false, Option,
  none, some, List, [], if◌then◌else◌, ltb, ◌==◌, update, arith, Bool-cases, Option-cases, ==→eq,
  ==-refl,
}
use mlvm.Transport.Frame
use mlvm.Transport.Frame.{Frame, Pool, increment, decrement}
use mlvm.Transport.Pdu.{
  Pdu, PduTable, in_use, write_pdu, put_frames, find_invalid, new_pdu, pdu_new, pdu_free,
  pdu_enqueue, pdu_dequeue, pdu_set_state, pdu_clone, clone_to, clone_new, max_pdu, pdu_init,
}

abbrev pub one_if : Bool → ℕ
one_if b = if b then 1 else 0

max_ge : (m k : ℕ) → k ≤ (if ltb m k then k else m)
max_ge m k = ground arith

module _ {F : Type 0} where
  -- How many of the first `n` entries are in use.
  unfoldable pub used : ℕ → (ℕ → Pdu F) → ℕ
  used zero table = 0
  used (suc n) table = one_if (in_use n (table n)) + used n table

  used-le : (n : ℕ) (table : ℕ → Pdu F) → used n table ≤ n
  unfolding used
  used-le zero table = omega arith
  used-le (suc n) table = elim (Bool-cases (in_use n (table n))) [
    | inl e ↦ rw e (omega (arith, used-le n table))
    | inr e ↦ rw e (omega (arith, used-le n table))
  ]

  used-update :
      (n i : ℕ) (table : ℕ → Pdu F) (p : Pdu F)
      → used n (update table i p) + (if ltb i n then one_if (in_use i (table i)) else 0)
        ≡ used n table + (if ltb i n then one_if (in_use i p) else 0)
  unfolding used
  used-update zero i table p = let e : ltb i 0 ≡ false = ground arith in rw e
  used-update (suc n) i table p = elim (Bool-cases (n == i)) [
    | inl e ↦
        let same : ltb i n ≡ false = ground arith in
        let new : ltb i (suc n) ≡ true = ground arith in
        let ih : used n (update table i p) + 0 ≡ used n table + 0 =
          rw same at (used-update n i table p) in
        let ih' : used i (update table i p) + 0 ≡ used i table + 0 = rw (==→eq n i e) at ih in
        rw (new, e, ==→eq n i e) (omega (arith, ih'))
    | inr e ↦
        let same : ltb i (suc n) ≡ ltb i n = ground arith in
        rw (same, e) (omega (arith, used-update n i table p))
  ]

  find_invalid-found :
      (n i k : ℕ) (table : ℕ → Pdu F)
      → find_invalid n i table ≡ some k
      → (k < i + n) × (in_use k (table k) ≡ false)
  unfolding find_invalid
  find_invalid-found zero i k table e = absurd (cc)
  find_invalid-found (suc n) i k table e = elim (Bool-cases (in_use i (table i))) [
    | inl u ↦ let r = find_invalid-found n (i + 1) k table (rw u at e) in (omega (arith, r.0), r.1)
    | inr u ↦
        let q : some i ≡ some k = rw u at e in
        let s : i ≡ k = cc in (omega (arith, s), subst (λ j. in_use j (table j) ≡ false) s u)
  ]

  -- The counter of PDUs is the number of the entries in use, and its maximum is no less.
  pub record IsCounted (t : PduTable F) : Type 0 where
    pub counted : t.pdu_count ≡ used max_pdu t.pdu_table
    pub peak : t.pdu_count ≤ t.pdu_max_count

  -- An entry that is written as used as it was.
  used-same :
      (i : ℕ) (t : PduTable F) (p : Pdu F)
      → in_use i p ≡ in_use i (t.pdu_table i)
      → used max_pdu (update t.pdu_table i p) ≡ used max_pdu t.pdu_table
  used-same i t p e =
      let r = used-update max_pdu i t.pdu_table p in
      elim (Bool-cases (ltb i max_pdu)) [
        | inl l ↦ omega (arith, rw (l, e) at r)
        | inr l ↦ omega (arith, rw l at r)
      ]

  write-IsCounted :
      (i : ℕ) (t : PduTable F) (p : Pdu F)
      → in_use i p ≡ in_use i (t.pdu_table i)
      → IsCounted t
      → IsCounted (write_pdu i p t)
  write-IsCounted i t p e c = record {
    counted = c.counted ∙ sym (used-same i t p e);
    peak = c.peak;
  }

  put_frames-IsCounted :
      (i : ℕ) (lt : List Frame) (p : Pool) (t : PduTable F)
      → IsCounted t
      → IsCounted (put_frames i lt p t)
  put_frames-IsCounted i lt p t c = record {
    counted = c.counted ∙ sym (used-same i t _ refl);
    peak = c.peak;
  }

  free-IsCounted :
      (i : ℕ) (t : PduTable F) → i < max_pdu → IsCounted t → IsCounted (pdu_free (some i) t)
  unfolding pdu_free
  free-IsCounted i t l c = elim (Bool-cases (in_use i (t.pdu_table i))) [
    | inl u ↦
        let b : ltb i max_pdu ≡ true = ground arith in
        let r : used max_pdu (update t.pdu_table i _) + 1 ≡ used max_pdu t.pdu_table + 0 =
          rw (b, u) at
            (used-update max_pdu i t.pdu_table
              (record (t.pdu_table i) { self = none; frames = [] })) in
        let m = used-le max_pdu t.pdu_table in
        rw u (record {
          counted = omega (arith, c.counted, r, m);
          peak = omega (arith, c.counted, c.peak, r, m);
        })
    | inr u ↦ rw u c
  ]

  new-IsCounted : (zeros : F) (t : PduTable F) → IsCounted t → IsCounted (pdu_new zeros t).1
  unfolding pdu_new
  new-IsCounted zeros t c = elim (Option-cases (find_invalid max_pdu 0 t.pdu_table)) [
    | inl e ↦ rw e c
    | inr (i, e) ↦ rw e (taken i (find_invalid-found max_pdu 0 i t.pdu_table e))
  ]
    where
      taken :
          (i : ℕ)
          → (i < max_pdu) × (in_use i (t.pdu_table i) ≡ false)
          → IsCounted (new_pdu zeros (some i) t).1
      taken i (l, u) =
          let b : ltb i max_pdu ≡ true = ground arith in
          let s : in_use i (pdu_init zeros i) ≡ true = ==-refl i in
          let r : used max_pdu (update t.pdu_table i (pdu_init zeros i)) + 0
              ≡ used max_pdu t.pdu_table + 1 =
            rw (b, u, s) at (used-update max_pdu i t.pdu_table (pdu_init zeros i)) in
          let m = used-le max_pdu t.pdu_table in
          let n = used-le max_pdu (update t.pdu_table i (pdu_init zeros i)) in
          record {
            counted = omega (arith, c.counted, r, m);
            peak = max_ge t.pdu_max_count (increment t.pdu_count);
          }

  -- The entry that `pdu_clone` makes of `o`, before it copies the frames.
  abbrev copied : ℕ → ℕ → PduTable F → Pdu F
  copied c o t = record (t.pdu_table o) { self = some c; frames = [] }

  clone_to-IsCounted :
      (zeros : F) (frame_size o c : ℕ) (t : PduTable F)
      → in_use c (t.pdu_table c) ≡ true
      → IsCounted t
      → IsCounted (clone_to zeros frame_size o c t).1
  unfolding clone_to
  clone_to-IsCounted zeros frame_size o c t u k =
      let w = write-IsCounted c t (copied c o t) (==-refl c ∙ sym u) k in
      put_frames-IsCounted c _ _
        (record (write_pdu c (copied c o t) t) { nexts = update t.nexts (c + 1) (t.nexts (o + 1)) })
        (record { counted = w.counted; peak = w.peak })

  new_at-in_use :
      (zeros : F) (i : ℕ) (t : PduTable F)
      → in_use i ((new_pdu zeros (some i) t).1.pdu_table i) ≡ true
  new_at-in_use zeros i t = rw (==-refl i) (==-refl i)

  clone-IsCounted :
      (zeros : F) (frame_size o : ℕ) (c : Option ℕ) (t : PduTable F)
      → ((i : ℕ) → c ≡ some i → in_use i (t.pdu_table i) ≡ true)
      → IsCounted t
      → IsCounted (pdu_clone zeros frame_size o c t).1
  unfolding pdu_clone clone_new pdu_new
  clone-IsCounted zeros frame_size o (some c) t u k =
      clone_to-IsCounted zeros frame_size o c _ (rw (==-refl c) (u c refl))
        (put_frames-IsCounted c [] (Frame.destroy (t.pdu_table c).frames t.pool) t k)
  clone-IsCounted zeros frame_size o none t u k =
      elim (Option-cases (find_invalid max_pdu 0 t.pdu_table)) [
        | inl e ↦ rw (e, clone_new) k
        | inr (i, e) ↦
            rw (e, clone_new)
              (clone_to-IsCounted zeros frame_size o i (new_pdu zeros (some i) t).1
                (new_at-in_use zeros i t)
                (subst (λ q. IsCounted (new_pdu zeros q t).1) e (new-IsCounted zeros t k)))
      ]

  -- The calls on the table. The functions that write, read and erase bytes all put other frames in
  -- an entry.
  pub data Step (zeros : F) (frame_size : ℕ) (t : PduTable F) : PduTable F → Type 0 where
    by_new : Step zeros frame_size t (pdu_new zeros t).1
    by_free : (i : ℕ) → i < max_pdu → Step zeros frame_size t (pdu_free (some i) t)
    by_free_null : Step zeros frame_size t (pdu_free none t)
    by_clone :
        (o : ℕ) (c : Option ℕ)
        → ((i : ℕ) → c ≡ some i → in_use i (t.pdu_table i) ≡ true)
        → Step zeros frame_size t (pdu_clone zeros frame_size o c t).1
    by_frames : (i : ℕ) (lt : List Frame) (p : Pool) → Step zeros frame_size t (put_frames i lt p t)
    by_set_state : (i stateid : ℕ) → Step zeros frame_size t (pdu_set_state i stateid t)
    by_enqueue : (i : ℕ) → Step zeros frame_size t (pdu_enqueue i t)
    by_dequeue : Step zeros frame_size t (pdu_dequeue t).1

  pub data Reach (zeros : F) (frame_size : ℕ) (t : PduTable F) : PduTable F → Type 0 where
    at_start : Reach zeros frame_size t t
    after :
        {u v : PduTable F}
        → Reach zeros frame_size t u
        → Step zeros frame_size u v
        → Reach zeros frame_size t v

  Step-IsCounted :
      {zeros : F} {frame_size : ℕ} {t u : PduTable F}
      → Step zeros frame_size t u
      → IsCounted t
      → IsCounted u
  unfolding pdu_free pdu_set_state pdu_enqueue pdu_dequeue
  Step-IsCounted {zeros} {t} by_new k = new-IsCounted zeros t k
  Step-IsCounted {t} (by_free i l) k = free-IsCounted i t l k
  Step-IsCounted by_free_null k = k
  Step-IsCounted {zeros} {frame_size} {t} (by_clone o c u) k =
      clone-IsCounted zeros frame_size o c t u k
  Step-IsCounted {t} (by_frames i lt p) k = put_frames-IsCounted i lt p t k
  Step-IsCounted {t} (by_set_state i stateid) k = write-IsCounted i t _ refl k
  Step-IsCounted (by_enqueue i) k = record { counted = k.counted; peak = k.peak }
  Step-IsCounted by_dequeue k = record { counted = k.counted; peak = k.peak }

-- However the functions of the PDUs are called from a table whose counter is the number of the
-- entries in use, and whatever frames they leave in the entries: the counter stays that number, and
-- its recorded maximum is never less, where PDUs that are freed or are given to `pdu_clone` are of
-- the table, and the latter in use.
pub Reach-IsCounted :
    {F : Type 0} (zeros : F) (frame_size : ℕ) (t u : PduTable F)
    → IsCounted t
    → Reach zeros frame_size t u
    → IsCounted u
Reach-IsCounted zeros frame_size t u k at_start = k
Reach-IsCounted zeros frame_size t u k (after r s) =
    Step-IsCounted s (Reach-IsCounted zeros frame_size t _ k r)
