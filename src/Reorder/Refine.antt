-- ===== src/Reorder/Refine.antt =====
-- `wil_rx_reorder` under the lock, and the window that it implements.
use mathlib.Core.Path.{subst₃}
use wigig_wil.Prelude.{
  length, length-append, ℕ, ◌+◌, ◌-◌, ◌%◌, ◌<◌, ◌≤◌, ◌≡◌, ◌∙◌, refl, sym, ap, ltb, le→ltb, true,
  false, dec_lt, lt→ltb, none, some, List, [], ◌∷◌, Outcome, returns, arith, Option-cases, inl, inr,
}
use wigig_wil.Skb.{Skb, rxdesc_seq}
use wigig_wil.Reorder.{
  Ampdu, RxEvent, free_skb, after, seq_less, reorder_index, make_room, store_frame,
  reorder_in_session,
}
use wigig_wil.Reorder.Window.{Slots, ahead, shifts, put, flushed, leading, land, preceded, receive}
use wigig_wil.Reorder.Inv.{IsValid, slot_of, view, reorder_index_lem}
use wigig_wil.Reorder.Release.{Moved, Released, none_Released, release_reorder_frames_lem}
use wigig_wil.Reorder.Store.{Ends, store_frame_taken, store_frame_free}

pub rxdesc_seq-lt : (skb : Skb) → rxdesc_seq skb.desc < 4096
unfolding rxdesc_seq
rxdesc_seq-lt skb = omega arith

module _ {r : Ampdu} (v : IsValid r) (seq : ℕ) (seq_lt : seq < 4096)
    (near : ahead r.head_seq_num seq ≤ 2048) where
  make_room_lem : Released r (ahead r.head_seq_num seq + 1 - r.buf_size) (make_room r seq)
  unfolding make_room
  make_room_lem = elim (dec_lt (ahead r.head_seq_num seq) r.buf_size) [
    | yes fits ↦
        let n0 : ahead r.head_seq_num seq + 1 - r.buf_size ≡ 0 = omega arith in
        let less : ltb 2048 ((seq + 65536 - (r.head_seq_num + r.buf_size) % 65536) % 4096) ≡ true =
          lt→ltb 2048 _ (omega (arith, v.head_lt, v.size_max, v.size_min)) in
        rw (n0, less) (none_Released v)
    | no far ↦
        let less : ltb 2048 ((seq + 65536 - (r.head_seq_num + r.buf_size) % 65536) % 4096) ≡ false =
          le→ltb 2048 _ (omega (arith, v.head_lt, v.size_max, v.size_min)) in
        rw less (
          release_reorder_frames_lem _ (omega arith) 2049 _ r v (omega (arith, v.size_min))
            (omega (arith, v.size_min)) (omega (arith, v.head_lt, v.size_max, v.size_min)))
  ]

-- The state and the events that the window prescribes, after the head is at `head`.
abbrev pub Refines : Ampdu → ℕ → ℕ × Slots × List RxEvent → Outcome (Ampdu × List RxEvent) → Type 0
Refines r held (head, w, out) o = Ends r held head w out o

module _ {r r1 : Ampdu} (w1 : Slots) (head1 : ℕ) (m1 : Moved r r1 head1 w1) (now : ℕ) (skb : Skb)
    (d : ℕ) (d_lt : d < r.buf_size) (at : rxdesc_seq skb.desc ≡ (head1 + d) % 4096) where
  index_lem : reorder_index r1 (rxdesc_seq skb.desc) ≡ returns (slot_of r1 d)
  index_lem =
      reorder_index_lem (rxdesc_seq skb.desc) d m1.valid (rxdesc_seq-lt skb)
        (at ∙ ap (λ h. (h + d) % 4096) (sym m1.head_at))

  -- The frame's place in the window that has been moved is taken.
  finish_taken :
      (old : Skb)
      → w1 d ≡ some old
      → Ends r
          (r1.stored_mpdu_num + 1)
          head1
          w1
          (free_skb skb ∷ [])
          (store_frame now r1 (slot_of r1 d) (rxdesc_seq skb.desc) skb)
  finish_taken old e = record {
    result = r1;
    returned =
        store_frame_taken m1.valid now d (omega (arith, m1.same_size)) skb (rxdesc_seq skb.desc) old
          ((λ i. m1.slots i d) ∙ e);
    moved = m1;
    conserved = omega arith;
  }

  finish_free :
      w1 d ≡ none
      → let w2 = put w1 d skb in
        let m = leading r.buf_size w2 in
        Ends r
          (r1.stored_mpdu_num + 1)
          ((head1 + m) % 4096)
          (shifts m w2)
          (flushed m w2)
          (store_frame now r1 (slot_of r1 d) (rxdesc_seq skb.desc) skb)
  finish_free e =
      let h =
        subst₃
          (λ size head w.
            Ends r1 (r1.stored_mpdu_num + 1) ((head + leading size (put w d skb)) % 4096)
              (shifts (leading size (put w d skb)) (put w d skb))
              (flushed (leading size (put w d skb)) (put w d skb))
              (store_frame now r1 (slot_of r1 d) (rxdesc_seq skb.desc) skb))
          m1.same_size m1.head_at m1.slots
          (store_frame_free m1.valid now d (omega (arith, m1.same_size)) skb (rxdesc_seq skb.desc)
            (at ∙ ap (λ h. (h + d) % 4096) (sym m1.head_at)) ((λ i. m1.slots i d) ∙ e)) in
      record {
        result = h.result;
        returned = h.returned;
        moved = record {
          valid = h.moved.valid;
          head_at = h.moved.head_at;
          slots = h.moved.slots;
          same_size = h.moved.same_size ∙ m1.same_size;
        };
        conserved = h.conserved;
      }

  land_lem :
      Refines r
        (r1.stored_mpdu_num + 1)
        (land r.buf_size head1 w1 d skb)
        (store_frame now r1 (slot_of r1 d) (rxdesc_seq skb.desc) skb)
  unfolding land
  land_lem = elim (Option-cases (w1 d)) [
    | inl e ↦ rw e (finish_free e)
    | inr (old, e) ↦ rw e (finish_taken old e)
  ]

-- What was passed on while the window moved comes first.
after-Refines :
    {r : Ampdu} (t : ℕ × Slots × List RxEvent) (first : List RxEvent) (held : ℕ)
    {o : Outcome (Ampdu × List RxEvent)}
    → Refines r held t o
    → Refines r (length first + held) (preceded first t) (after first o)
after-Refines (head, w, out) first held h = record {
  result = h.result;
  returned = ap (after first) h.returned;
  moved = h.moved;
  conserved = omega (arith, h.conserved, length-append first out);
}

module _ (r : Ampdu) (seq : ℕ) (v : IsValid r) (seq_lt : seq < 4096) where
  seq_less_old : 2048 < ahead r.head_seq_num seq → seq_less seq r.head_seq_num ≡ true
  unfolding seq_less
  seq_less_old old = lt→ltb 2048 _ (omega (arith, v.head_lt))

  seq_less_near : ahead r.head_seq_num seq ≤ 2048 → seq_less seq r.head_seq_num ≡ false
  unfolding seq_less
  seq_less_near near = le→ltb 2048 _ (omega (arith, v.head_lt))

module _ (now : ℕ) (r : Ampdu) (skb : Skb) (v : IsValid r) where
  -- An old frame is dropped, and only the note of the last drop changes.
  session_old :
      2048 < ahead r.head_seq_num (rxdesc_seq skb.desc)
      → Ends r
          (r.stored_mpdu_num + 1)
          r.head_seq_num
          (view r)
          (free_skb skb ∷ [])
          (reorder_in_session now r skb)
  unfolding reorder_in_session
  session_old old = record {
    result = record r { ssn_last_drop = rxdesc_seq skb.desc };
    returned = rw (seq_less_old r (rxdesc_seq skb.desc) v (rxdesc_seq-lt skb) old);
    moved = record { valid = ground arith; head_at = refl; slots = refl; same_size = refl };
    conserved = omega arith;
  }

  -- Any other frame moves the window so that it fits, and then ends in its place.
  session_near :
      (n d : ℕ)
      → ahead r.head_seq_num (rxdesc_seq skb.desc) ≤ 2048
      → (m : Released r n (make_room r (rxdesc_seq skb.desc)))
      → reorder_index m.result (rxdesc_seq skb.desc) ≡ returns (slot_of m.result d)
      → reorder_in_session now r skb
        ≡ after
            (flushed n (view r))
            (store_frame now m.result (slot_of m.result d) (rxdesc_seq skb.desc) skb)
  unfolding reorder_in_session
  session_near n d near m index =
      rw (seq_less_near r (rxdesc_seq skb.desc) v (rxdesc_seq-lt skb) near, m.returned, index)

-- The code does what the window says: from a valid session, for every frame, `wil_rx_reorder`
-- returns (no loop goes on for ever and no division faults), with the events of `receive` in their
-- order, in a valid session that has the head and the slots of `receive` and the same size.
pub reorder_in_session-Refines :
    (now : ℕ) (r : Ampdu) (skb : Skb)
    → IsValid r
    → Refines r
        (r.stored_mpdu_num + 1)
        (receive r.buf_size r.head_seq_num (view r) skb)
        (reorder_in_session now r skb)
unfolding receive
reorder_in_session-Refines now r skb v =
    let seq = rxdesc_seq skb.desc in
    let d = ahead r.head_seq_num seq in
    let n = d + 1 - r.buf_size in
    elim (dec_lt 2048 d) [
      | yes old ↦ rw (lt→ltb 2048 d old) (session_old now r skb v old)
      | no near ↦
          let m = make_room_lem v seq (rxdesc_seq-lt skb) (omega arith) in
          let lt : d - n < r.buf_size = omega (arith, v.size_min) in
          let at : seq ≡ ((r.head_seq_num + n) % 4096 + (d - n)) % 4096 =
            omega (arith, v.head_lt, rxdesc_seq-lt skb) in
          let sum : length (flushed n (view r)) + (m.result.stored_mpdu_num + 1)
              ≡ r.stored_mpdu_num + 1 =
            omega (arith, m.conserved) in
          rw
            (
              le→ltb 2048 d (omega arith),
              session_near now r skb v n (d - n) (omega arith) m
                  (index_lem _ _ m.moved now skb (d - n) lt at),
              ← sum,
            )
            (after-Refines
              (land r.buf_size ((r.head_seq_num + n) % 4096) (shifts n (view r)) (d - n) skb)
              (flushed n (view r)) _ (land_lem _ _ m.moved now skb (d - n) lt at))
    ]
