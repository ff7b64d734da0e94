-- ===== src/Reorder/Release.antt =====
-- One step of the window, and the two loops that move it.
use wigig_wil.Prelude.{
  ℕ, zero, suc, ◌+◌, ◌%◌, ◌<◌, ◌≤◌, ◌≡◌, ◌∙◌, refl, sym, ap, fun_ext, ltb, if◌then◌else◌, Option,
  none, some, List, [], length, get_or, set, length-set, get_or-set_self, get_or-set_ne,
  count_some-set, count_some-le, length-append, Outcome, returns, arith, Option-cases, inl, inr,
  dec_lt, lt→ltb, le→ltb, true, false, ◌>>=◌, ◌++◌,
}
use wigig_wil.Skb.{Skb}
use wigig_wil.Reorder.{
  Ampdu, RxEvent, reorder_index, release_reorder_frame, release_reorder_frames, reorder_release,
  after, seq_less,
}
use wigig_wil.Reorder.Window.{Slots, shift, shifts, flushed, leading, deliver}
use wigig_wil.Reorder.Inv.{
  IsValid, slot_of, view, slot_of_lt, slot_of_next, slot_of_turn, slot_of_ne, reorder_index_lem,
  reorder_index_lem,
}

-- `r'` is `r` with its window moved on by `n`
pub record Moved (r r' : Ampdu) (head : ℕ) (w : Slots) : Type 0 where
  pub valid : IsValid r'
  pub head_at : r'.head_seq_num ≡ head
  pub slots : view r' ≡ w
  pub same_size : r'.buf_size ≡ r.buf_size

-- what one call of `wil_release_reorder_frame` at the head does to a slot that is empty or filled
module _ {r : Ampdu} (v : IsValid r) where
  abbrev next : Option Skb → Ampdu
  next none = record r { head_seq_num = (r.head_seq_num + 1) % 4096 }
  next (some _) = record r {
    stored_mpdu_num = (r.stored_mpdu_num + 65535) % 65536;
    reorder_buf = set r.reorder_buf (slot_of r 0) none;
    head_seq_num = (r.head_seq_num + 1) % 4096;
  }

  next-IsValid : (o : Option Skb) → get_or r.reorder_buf (slot_of r 0) none ≡ o → IsValid (next o)
  next-IsValid none e = ground arith
  next-IsValid (some skb) e = ground (
    arith,
    slot_of_lt v 0,
    length-set r.reorder_buf (slot_of r 0) none,
    count_some-set r.reorder_buf (slot_of r 0) none,
    count_some-le r.reorder_buf,
  )

  next-slot :
      (o : Option Skb) (k : ℕ)
      → get_or r.reorder_buf (slot_of r 0) none ≡ o
      → k < r.buf_size
      → get_or (next o).reorder_buf (slot_of r (suc k)) none
        ≡ (if ltb (suc k) r.buf_size then get_or r.reorder_buf (slot_of r (suc k)) none else none)
  next-slot none k e lt = ground (arith, slot_of_turn r k)
  next-slot (some skb) k e lt = ground (
    arith,
    slot_of_turn r k,
    slot_of_lt v 0,
    slot_of_ne r 0 (suc k),
    get_or-set_ne r.reorder_buf (slot_of r 0) (slot_of r (suc k)) none none,
    get_or-set_self r.reorder_buf (slot_of r 0) none none,
  )

  next-view :
      (o : Option Skb) (k : ℕ)
      → get_or r.reorder_buf (slot_of r 0) none ≡ o
      → view (next o) k ≡ shift (view r) k
  next-view none k e = elim (dec_lt k r.buf_size) [
    | yes lt ↦ rw (slot_of_next k v, lt→ltb k r.buf_size lt) (next-slot none k e lt)
    | no ge ↦ rw (le→ltb k r.buf_size (omega arith), le→ltb (suc k) r.buf_size (omega arith))
  ]
  next-view (some skb) k e = elim (dec_lt k r.buf_size) [
    | yes lt ↦ rw (slot_of_next k v, lt→ltb k r.buf_size lt) (next-slot (some skb) k e lt)
    | no ge ↦ rw (le→ltb k r.buf_size (omega arith), le→ltb (suc k) r.buf_size (omega arith))
  ]

  next-stored :
      (o : Option Skb)
      → get_or r.reorder_buf (slot_of r 0) none ≡ o
      → (next o).stored_mpdu_num + length (deliver o) ≡ r.stored_mpdu_num
  next-stored none e = omega arith
  next-stored (some skb) e = ground (
    arith,
    slot_of_lt v 0,
    count_some-set r.reorder_buf (slot_of r 0) none,
    count_some-le r.reorder_buf,
  )

  next-same_size : (o : Option Skb) → (next o).buf_size ≡ r.buf_size
  next-same_size none = refl
  next-same_size (some _) = refl

  next-head : (o : Option Skb) → (next o).head_seq_num ≡ (r.head_seq_num + 1) % 4096
  next-head none = refl
  next-head (some _) = refl

  next-Moved :
      (o : Option Skb)
      → get_or r.reorder_buf (slot_of r 0) none ≡ o
      → Moved r (next o) ((r.head_seq_num + 1) % 4096) (shift (view r))
  next-Moved o e = record {
    valid = next-IsValid o e;
    head_at = next-head o;
    slots = fun_ext (λ k. next-view o k e);
    same_size = next-same_size o;
  }

  release_frame_lem :
      (o : Option Skb)
      → get_or r.reorder_buf (slot_of r 0) none ≡ o
      → release_reorder_frame r (slot_of r 0) ≡ (next o, deliver o)
  unfolding release_reorder_frame
  release_frame_lem none e = rw (e, release_reorder_frame)
  release_frame_lem (some skb) e = rw (e, release_reorder_frame)

view-zero : {r : Ampdu} → IsValid r → view r 0 ≡ get_or r.reorder_buf (slot_of r 0) none
view-zero {r} v = rw (lt→ltb 0 r.buf_size (omega (arith, v.size_min)))

head_index : {r : Ampdu} → IsValid r → reorder_index r r.head_seq_num ≡ returns (slot_of r 0)
head_index {r} v = reorder_index_lem r.head_seq_num 0 v v.head_lt (omega (arith, v.head_lt))

-- What a loop that moves the window by `n` leaves behind.
pub record Released (r : Ampdu) (n : ℕ) (o : Outcome (Ampdu × List RxEvent)) : Type 0 where
  pub result : Ampdu
  pub returned : o ≡ returns (result, flushed n (view r))
  pub moved : Moved r result ((r.head_seq_num + n) % 4096) (shifts n (view r))
  pub conserved : result.stored_mpdu_num + length (flushed n (view r)) ≡ r.stored_mpdu_num

pub none_Released : {r : Ampdu} → IsValid r → Released r 0 (returns (r, []))
unfolding flushed shifts
none_Released {r} v = record {
  result = r;
  returned = refl;
  moved = record { valid = v; head_at = omega (arith, v.head_lt); slots = refl; same_size = refl };
  conserved = omega arith;
}

-- One step, and then a loop that moves the rest.
next-Released :
    {r : Ampdu} (v : IsValid r) (n : ℕ) (o : Outcome (Ampdu × List RxEvent)) (s : Option Skb)
    → get_or r.reorder_buf (slot_of r 0) none ≡ s
    → Released (next v s) n o
    → Released r (suc n) (after (deliver s) o)
unfolding flushed shifts
next-Released {r} v n o s e h =
    let m = next-Moved v s e in
    record {
      result = h.result;
      returned =
          ap (after (deliver s)) h.returned
          ∙ ap (λ w. returns (h.result, deliver s ++ flushed n w)) m.slots
          ∙ ap (λ t. returns (h.result, deliver t ++ flushed n (shift (view r))))
              (sym (view-zero v ∙ e));
      moved = record {
        valid = h.moved.valid;
        head_at = omega (arith, h.moved.head_at, m.head_at);
        slots = h.moved.slots ∙ ap (shifts n) m.slots;
        same_size = h.moved.same_size ∙ m.same_size;
      };
      conserved = omega (
        arith,
        h.conserved,
        next-stored v s e,
        length-append (deliver s) (flushed n (shift (view r))),
        ap (λ w. length (flushed n w)) m.slots,
        ap (λ t. length (deliver t ++ flushed n (shift (view r)))) (view-zero v ∙ e),
      );
    }

step_Released :
    {r : Ampdu} (v : IsValid r) (n : ℕ) (run : Ampdu → Outcome (Ampdu × List RxEvent))
    → ((r' : Ampdu)
        → IsValid r'
        → Moved r r' ((r.head_seq_num + 1) % 4096) (shift (view r))
        → Released r' n (run r'))
    → Released r (suc n) (
        after
          (release_reorder_frame r (slot_of r 0)).1
          (run (release_reorder_frame r (slot_of r 0)).0))
step_Released {r} v n run rest =
    let s = get_or r.reorder_buf (slot_of r 0) none in
    let m = next-Moved v s refl in
    rw (release_frame_lem v s refl)
      (next-Released v n (run (next v s)) s refl (rest (next v s) m.valid m))

module _ (hseq : ℕ) (hseq_lt : hseq < 65536) where
  stop_at : (head : ℕ) → head < 4096 → hseq % 4096 ≡ (head + 0) % 4096 → seq_less head hseq ≡ false
  unfolding seq_less
  stop_at head h e = le→ltb 2048 _ (omega arith)

  go_on_at :
      (head n : ℕ)
      → head < 4096
      → suc n < 2048
      → hseq % 4096 ≡ (head + suc n) % 4096
      → seq_less head hseq ≡ true
  unfolding seq_less
  go_on_at head n h k e = lt→ltb 2048 _ (omega arith)

  -- With enough fuel the loop of `wil_release_reorder_frames` moves the window up to `hseq`.
  pub release_reorder_frames_lem :
      (fuel n : ℕ) (r : Ampdu)
      → IsValid r
      → n < fuel
      → n < 2048
      → hseq % 4096 ≡ (r.head_seq_num + n) % 4096
      → Released r n (release_reorder_frames fuel r hseq)
  unfolding release_reorder_frames
  release_reorder_frames_lem zero n r v enough small e = absurd (omega arith)
  release_reorder_frames_lem (suc fuel) zero r v enough small e =
      rw (stop_at r.head_seq_num v.head_lt e, release_reorder_frames) (none_Released v)
  release_reorder_frames_lem (suc fuel) (suc n) r v enough small e =
      rw (go_on_at r.head_seq_num n v.head_lt small e, release_reorder_frames, head_index v)
        (step_Released v n (λ r'. release_reorder_frames fuel r' hseq)
          λ r' v' m.
            release_reorder_frames_lem fuel n r' v' (omega arith) (omega arith)
              (omega (arith, m.head_at)))

-- One round of the loop of `wil_reorder_release`.
round_none :
    {r : Ampdu} (fuel : ℕ)
    → IsValid r
    → get_or r.reorder_buf (slot_of r 0) none ≡ none
    → reorder_release (suc fuel) r ≡ returns (r, [])
unfolding reorder_release
round_none {r} fuel v e = rw (head_index v) (rw (e, ◌>>=◌))

round_some :
    {r : Ampdu} (fuel : ℕ) (skb : Skb)
    → IsValid r
    → get_or r.reorder_buf (slot_of r 0) none ≡ some skb
    → reorder_release (suc fuel) r
      ≡ after
          (release_reorder_frame r (slot_of r 0)).1
          (reorder_release fuel (release_reorder_frame r (slot_of r 0)).0)
unfolding reorder_release
round_some {r} fuel skb v e = rw (head_index v) (rw (e, ◌>>=◌))

leading-none : (bound : ℕ) (w : Slots) → w 0 ≡ none → leading bound w ≡ 0
unfolding leading
leading-none zero w e = refl
leading-none (suc bound) w e = rw (e, leading)

leading-some :
    (bound : ℕ) (w : Slots) (skb : Skb)
    → w 0 ≡ some skb
    → leading (suc bound) w ≡ suc (leading bound (shift w))
unfolding leading
leading-some bound w skb e = rw (e, leading)

-- The loop of `wil_reorder_release` moves the window over the filled slots at its head.
pub reorder_release_lem :
    (bound : ℕ) (r : Ampdu)
    → IsValid r
    → ((k : ℕ) → bound ≤ k → view r k ≡ none)
    → Released r (leading bound (view r)) (reorder_release (suc bound) r)
reorder_release_lem zero r v empty =
    rw
      (
        round_none zero v (sym (view-zero v) ∙ empty 0 (omega arith)),
        leading-none 0 (view r) (empty 0 (omega arith)),
      )
      (none_Released v)
reorder_release_lem (suc bound) r v empty =
    elim (Option-cases (get_or r.reorder_buf (slot_of r 0) none)) [
      | inl e ↦
          rw (round_none (suc bound) v e, leading-none (suc bound) (view r) (view-zero v ∙ e))
            (none_Released v)
      | inr (skb, e) ↦
          rw (round_some (suc bound) skb v e, leading-some bound (view r) skb (view-zero v ∙ e))
            (step_Released v _ (reorder_release (suc bound)) λ r' v' m. rw (← m.slots) (
              reorder_release_lem bound r' v'
                λ k le. (λ i. m.slots i k) ∙ empty (suc k) (omega arith)))
    ]
