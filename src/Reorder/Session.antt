-- ===== src/Reorder/Session.antt =====
-- The life of a session: `wil_tid_ampdu_rx_alloc`, any number of frames, `wil_tid_ampdu_rx_free`.
use wigig_wil.Prelude.{
  ℕ, ◌+◌, ◌%◌, ◌<◌, ◌≤◌, ◌≡◌, ◌∙◌, refl, sym, le→ltb, lt→ltb, dec_lt, true, Option, none, some,
  List, [], ◌∷◌, arith, Outcome, returns, ◌>>=◌, length-replicate, get_or-replicate,
  count_some-replicate, replicate,
}
use wigig_wil.Skb.{Skb}
use wigig_wil.Reorder.{
  Ampdu, RxEvent, after, reorder_in_session, tid_ampdu_rx_alloc, tid_ampdu_rx_free,
}
use wigig_wil.Reorder.Window.{flushed}
use wigig_wil.Reorder.Inv.{IsValid, view}
use wigig_wil.Reorder.Release.{release_reorder_frames_lem}
use wigig_wil.Reorder.Order.{IsPlaced, moved_by}

-- an empty session that expects `ssn` next
abbrev pub fresh : ℕ → ℕ → Ampdu
fresh size ssn = record {
  reorder_buf = replicate size none;
  reorder_time = replicate size 0;
  head_seq_num = ssn;
  stored_mpdu_num = 0;
  ssn = ssn;
  buf_size = size % 65536;
  ssn_last_drop = 0;
}

-- With a size from 2 to 2047 that divides 4096, a sequence number below 4096 and memory,
-- `wil_tid_ampdu_rx_alloc` gives the session `fresh`, well-formed and with its frames in place.
pub tid_ampdu_rx_alloc-IsPlaced :
    (size ssn : ℕ)
    → 2 ≤ size
    → size < 2048
    → 4096 % size ≡ 0
    → ssn < 4096
    → (tid_ampdu_rx_alloc true true true size ssn ≡ some (fresh size ssn))
      × IsPlaced (fresh size ssn)
unfolding tid_ampdu_rx_alloc
tid_ampdu_rx_alloc-IsPlaced size ssn lo hi divides ssn_lt =
    let same : size % 65536 ≡ size = omega arith in
    (
      refl,
      record {
        valid = record {
          size_min = omega arith;
          size_max = omega arith;
          divides = rw same divides;
          buf_length = rw same (length-replicate size none);
          time_length = rw same (length-replicate size 0);
          counted = sym (count_some-replicate Skb size);
          head_lt = ssn_lt;
          ssn_lt = ssn_lt;
        };
        placed = λ k skb e. absurd (none≢some (sym (nothing k) ∙ e));
      },
    )
  where
    nothing : (k : ℕ) → view (fresh size ssn) k ≡ none
    nothing k = elim (dec_lt k (size % 65536)) [
      | yes lt ↦ rw (lt→ltb k (size % 65536) lt) (get_or-replicate size _ none)
      | no ge ↦ rw (le→ltb k (size % 65536) (omega arith))
    ]

    none≢some : {skb : Skb} → ◌≡◌ {A = Option Skb} none (some skb) → ⊥
    none≢some e = cc

-- `wil_tid_ampdu_rx_free` passes on every frame of the window, in order, before the memory goes.
pub tid_ampdu_rx_free_lem :
    (r : Ampdu) → IsValid r → tid_ampdu_rx_free (some r) ≡ returns (flushed r.buf_size (view r))
unfolding tid_ampdu_rx_free
tid_ampdu_rx_free_lem r v =
    let h =
      release_reorder_frames_lem ((r.head_seq_num + r.buf_size) % 65536) (omega arith) 2049
        r.buf_size r v (omega (arith, v.size_max)) (v.size_max)
        (omega (arith, v.head_lt, v.size_max)) in
    rw h.returned

-- the frames of a session, each with the time of its arrival
unfoldable pub reorder_all : List (ℕ × Skb) → Ampdu → Outcome (Ampdu × List RxEvent)
reorder_all [] r = returns (r, [])
reorder_all ((now, skb) ∷ frames) r =
    reorder_in_session now r skb >>= λ p. after p.1 (reorder_all frames p.0)

-- the frames themselves
abbrev pub skbs_of : List (ℕ × Skb) → List Skb
skbs_of [] = []
skbs_of ((now, skb) ∷ frames) = skb ∷ skbs_of frames

-- how far the head moves on in a call and, by `rest`, after it
abbrev pub onward : Ampdu → (Ampdu → ℕ) → Outcome (Ampdu × List RxEvent) → ℕ
onward r rest (returns p) = moved_by r (returns p) + rest p.0
onward r rest _ = 0

-- how far the head moves on in all, from call to call
abbrev pub travelled : List (ℕ × Skb) → Ampdu → ℕ
travelled [] r = 0
travelled ((now, skb) ∷ frames) r =
    onward r (λ r'. travelled frames r') (reorder_in_session now r skb)
