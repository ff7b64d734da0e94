-- ===== src/Reorder/Store.antt =====
-- The slot of a frame that is in range: dropped as a duplicate, passed on at once, or stored and
-- the window moved over what is in order.
use wigig_wil.Prelude.{
  ℕ, zero, suc, ◌+◌, ◌%◌, ◌<◌, ◌≤◌, ◌≡◌, ◌∙◌, refl, sym, fun_ext, if◌then◌else◌, le→ltb, ne→==,
  true, false, dec_lt, lt→ltb, ◌==◌, Bool, ◌&&◌, none, some, List, [], ◌∷◌, length, get_or, set,
  length-set, get_or-set_self, get_or-set_ne, count_some-set, count_some-le, count_some-zero,
  Outcome, returns, arith,
}
use mathlib.Core.Path.{subst}
use wigig_wil.Skb.{Skb}
use wigig_wil.Reorder.{Ampdu, RxEvent, netif_rx, free_skb, reorder_release, store_frame}
use wigig_wil.Reorder.Window.{Slots, shift, shifts, put, flushed, leading}
use wigig_wil.Reorder.Inv.{IsValid, slot_of, view, slot_of_lt, slot_of_ne}
use wigig_wil.Reorder.Release.{Moved, reorder_release_lem}

-- How a call ends: it returns, with these events, in a session with this head and these slots, and
-- what is still stored and what left make up `held` frames.
pub record Ends (r : Ampdu) (held : ℕ) (head : ℕ) (w : Slots) (out : List RxEvent)
    (o : Outcome (Ampdu × List RxEvent)) : Type 0 where
  pub result : Ampdu
  pub returned : o ≡ returns (result, out)
  pub moved : Moved r result head w
  pub conserved : result.stored_mpdu_num + length out ≡ held

view_lt : (r : Ampdu) (k : ℕ) → k < r.buf_size → view r k ≡ get_or r.reorder_buf (slot_of r k) none
view_lt r k lt = rw (lt→ltb k r.buf_size lt)

pub view_ge : (r : Ampdu) (k : ℕ) → r.buf_size ≤ k → view r k ≡ none
view_ge r k ge = rw (le→ltb k r.buf_size ge)

module _ {r : Ampdu} (v : IsValid r) (now : ℕ) (d : ℕ) (d_lt : d < r.buf_size) (skb : Skb) where
  abbrev filled : Ampdu
  filled = record r {
    reorder_buf = set r.reorder_buf (slot_of r d) (some skb);
    reorder_time = set r.reorder_time (slot_of r d) now;
    stored_mpdu_num = (r.stored_mpdu_num + 1) % 65536;
  }

  filled-IsValid : get_or r.reorder_buf (slot_of r d) none ≡ none → IsValid filled
  filled-IsValid e = ground (
    arith,
    slot_of_lt v d,
    length-set r.reorder_buf (slot_of r d) (some skb),
    length-set r.reorder_time (slot_of r d) now,
    count_some-set r.reorder_buf (slot_of r d) (some skb),
    count_some-le r.reorder_buf,
  )

  filled-slot :
      (k : ℕ)
      → k < r.buf_size
      → get_or filled.reorder_buf (slot_of r k) none
        ≡ (if k == d then some skb else get_or r.reorder_buf (slot_of r k) none)
  filled-slot k lt = ground (
    arith,
    slot_of_lt v d,
    slot_of_ne r d k,
    get_or-set_self r.reorder_buf (slot_of r d) (some skb) none,
    get_or-set_ne r.reorder_buf (slot_of r d) (slot_of r k) (some skb) none,
  )

  filled-view : (k : ℕ) → view filled k ≡ put (view r) d skb k
  filled-view k = elim (dec_lt k r.buf_size) [
    | yes lt ↦ rw (lt→ltb k r.buf_size lt) (filled-slot k lt)
    | no ge ↦ rw (le→ltb k r.buf_size (omega arith), ne→== k d (omega arith))
  ]

  -- The slot is taken.
  pub store_frame_taken :
      (seq : ℕ) (old : Skb)
      → view r d ≡ some old
      → store_frame now r (slot_of r d) seq skb ≡ returns (r, free_skb skb ∷ [])
  unfolding store_frame
  store_frame_taken seq old e = rw (sym (view_lt r d d_lt) ∙ e)

  -- The frame is put into its slot.
  store_frame_put :
      (seq : ℕ)
      → view r d ≡ none
      → (seq == r.head_seq_num && r.stored_mpdu_num == 0) ≡ false
      → store_frame now r (slot_of r d) seq skb ≡ reorder_release (suc r.buf_size) filled
  unfolding store_frame
  store_frame_put seq e later = rw (sym (view_lt r d d_lt) ∙ e, later)

  store_frame_first :
      (seq : ℕ)
      → view r d ≡ none
      → (seq == r.head_seq_num && r.stored_mpdu_num == 0) ≡ true
      → store_frame now r (slot_of r d) seq skb
        ≡ returns (record r { head_seq_num = (r.head_seq_num + 1) % 4096 }, netif_rx skb ∷ [])
  unfolding store_frame
  store_frame_first seq e first = rw (sym (view_lt r d d_lt) ∙ e, first)

-- A frame alone in the window leaves it at once.
only_leads :
    (size : ℕ) (w : Slots) (skb : Skb) → 2 ≤ size → w 1 ≡ none → leading size (put w 0 skb) ≡ 1
unfolding leading
only_leads (suc (suc n)) w skb h e = rw (e, leading)
only_leads (suc zero) w skb h e = absurd (omega arith)
only_leads zero w skb h e = absurd (omega arith)

module _ {r : Ampdu} (v : IsValid r) (empty : r.stored_mpdu_num ≡ 0) where
  empty_at : (i : ℕ) → get_or r.reorder_buf i none ≡ none
  empty_at i = count_some-zero r.reorder_buf i (sym v.counted ∙ empty)

  empty_view : (k : ℕ) → view r k ≡ none
  empty_view k = elim (dec_lt k r.buf_size) [
    | yes lt ↦ view_lt r k lt ∙ empty_at (slot_of r k)
    | no ge ↦ view_ge r k (omega arith)
  ]

  empty_next : (k : ℕ) → view (record r { head_seq_num = (r.head_seq_num + 1) % 4096 }) k ≡ none
  empty_next k = elim (dec_lt k r.buf_size) [
    | yes lt ↦ rw (lt→ltb k r.buf_size lt) (empty_at _)
    | no ge ↦ rw (le→ltb k r.buf_size (omega arith))
  ]

  empty-Moved :
      (skb : Skb)
      → Moved r
          (record r { head_seq_num = (r.head_seq_num + 1) % 4096 })
          ((r.head_seq_num + 1) % 4096)
          (shift (put (view r) 0 skb))
  empty-Moved skb = record {
    valid = ground arith;
    head_at = refl;
    slots =
        fun_ext (λ k. empty_next k ∙ sym (rw (ne→== (suc k) 0 (omega arith)) (empty_view (suc k))));
    same_size = refl;
  }

-- A frame in range ends as the window says: dropped if its place is taken, and otherwise put
-- there, with what is then in order passed on.
module _ {r : Ampdu} (v : IsValid r) (now : ℕ) (d : ℕ) (d_lt : d < r.buf_size) (skb : Skb) (seq : ℕ)
    (at : seq ≡ (r.head_seq_num + d) % 4096) where
  abbrev arrived : Slots
  arrived = put (view r) d skb

  store_frame-Ends :
      view r d ≡ none
      → (first : Bool) → (seq == r.head_seq_num && r.stored_mpdu_num == 0) ≡ first
      → Ends r
          (r.stored_mpdu_num + 1)
          ((r.head_seq_num + leading r.buf_size arrived) % 4096)
          (shifts (leading r.buf_size arrived) arrived)
          (flushed (leading r.buf_size arrived) arrived)
          (store_frame now r (slot_of r d) seq skb)
  unfolding shifts flushed
  store_frame-Ends e true first =
      let d0 : d ≡ 0 = ground (arith, v.head_lt, v.size_max) in
      let stored : r.stored_mpdu_num ≡ 0 = ground arith in
      let lead : leading r.buf_size arrived ≡ 1 =
        rw d0 (only_leads r.buf_size (view r) skb v.size_min (empty_view v stored 1)) in
      rw lead (record {
        result = record r { head_seq_num = (r.head_seq_num + 1) % 4096 };
        returned = store_frame_first v now d d_lt skb seq e first ∙ rw d0 refl;
        moved = rw d0 (empty-Moved v stored skb);
        conserved = rw d0 (omega arith);
      })
  store_frame-Ends e false later =
      let full = filled-IsValid v now d d_lt skb (sym (view_lt r d d_lt) ∙ e) in
      let f = filled v now d d_lt skb in
      let done = reorder_release_lem r.buf_size f full (view_ge f) in
      subst
        (λ w.
          Ends r (r.stored_mpdu_num + 1) ((r.head_seq_num + leading r.buf_size w) % 4096)
            (shifts (leading r.buf_size w) w) (flushed (leading r.buf_size w) w)
            (store_frame now r (slot_of r d) seq skb))
        (fun_ext (filled-view v now d d_lt skb))
        (record {
          result = done.result;
          returned = store_frame_put v now d d_lt skb seq e later ∙ done.returned;
          moved = record {
            valid = done.moved.valid;
            head_at = done.moved.head_at;
            slots = done.moved.slots;
            same_size = done.moved.same_size;
          };
          conserved = omega (
            arith,
            done.conserved,
            v.counted,
            v.buf_length,
            v.size_max,
            count_some-le r.reorder_buf,
          );
        })

  pub store_frame_free :
      view r d ≡ none
      → let m = leading r.buf_size arrived in
        Ends r
          (r.stored_mpdu_num + 1)
          ((r.head_seq_num + m) % 4096)
          (shifts m arrived)
          (flushed m arrived)
          (store_frame now r (slot_of r d) seq skb)
  store_frame_free e = store_frame-Ends e _ refl
