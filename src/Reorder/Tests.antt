-- ===== src/Reorder/Tests.antt =====
-- A session of four slots: frames out of order, a copy, an old frame, a jump ahead.
use wigig_wil.Prelude.{
  ◌≤◌, ℕ, ◌*◌, ◌≡◌, refl, false, none, some, List, [], ◌∷◌, arith, returns, div_fault,
}
use wigig_wil.Skb.{Skb, rxdesc_seq}
use wigig_wil.Reorder.{
  Ampdu, netif_rx, free_skb, seq_less, reorder_index, reorder_in_session, reorder_release,
  release_reorder_frames, release_reorder_frame, make_room, store_frame,
}
use wigig_wil.Reorder.Window.{receive}
use wigig_wil.Reorder.Inv.{view}
use wigig_wil.Reorder.Refine.{Refines, reorder_in_session-Refines}
use wigig_wil.Reorder.Order.{IsPlaced, moved_by, Delivers, reorder_in_session-Delivers}
use wigig_wil.Reorder.Session.{fresh, tid_ampdu_rx_alloc-IsPlaced, reorder_all}
use wigig_wil.Reorder.Limits.{reorder_in_session_zero}

-- a frame with this sequence number
abbrev frame : ℕ → Skb
frame seq = record {
  desc = record {
    mac_d0 = seq * 65536;
    mac_d1 = 0;
    dma_d0 = 0;
    addr_low = 0;
    addr_high = 0;
    error = 0;
    status = 1;
    length = 100;
  };
  len = 100;
  words = [];
  csum_unnecessary = false;
  rtap = none;
}

abbrev opened : Ampdu
opened = fresh 4 10

opened-IsPlaced : IsPlaced opened
opened-IsPlaced =
    (tid_ampdu_rx_alloc-IsPlaced 4 10 (omega arith) (omega arith) refl (omega arith)).1

reorder_in_session-Refines_example :
    Refines opened 1
      (receive 4 10 (view opened) (frame 12))
      (reorder_in_session 0 opened (frame 12))
reorder_in_session-Refines_example =
    reorder_in_session-Refines 0 opened (frame 12) opened-IsPlaced.valid

reorder_in_session-Delivers_example :
    (moved_by opened (reorder_in_session 0 opened (frame 12)) ≤ 2049)
    × Delivers opened
        (moved_by opened (reorder_in_session 0 opened (frame 12)))
        (frame 12 ∷ [])
        (reorder_in_session 0 opened (frame 12))
reorder_in_session-Delivers_example =
    reorder_in_session-Delivers 0 opened (frame 12) opened-IsPlaced

-- 12 and 11 wait for 10; 30 moves the window on
abbrev arrivals : List (ℕ × Skb)
arrivals =
    (0, frame 12)
    ∷ (1, frame 11)
    ∷ (2, frame 12)
    ∷ (3, frame 10)
    ∷ (4, frame 9)
    ∷ (5, frame 30)
    ∷ []

reorder_in_session_zero_example : reorder_in_session 0 (fresh 0 10) (frame 12) ≡ div_fault
unfolding rxdesc_seq
reorder_in_session_zero_example =
    reorder_in_session_zero (fresh 0 10) refl 0 (frame 12) (omega arith) (omega arith)

-- the events of those arrivals, by evaluation
arrivals_events :
    reorder_all arrivals opened
    ≡ returns (
      record (fresh 4 10) {
        head_seq_num = 27;
        stored_mpdu_num = 1;
        ssn_last_drop = 9;
        reorder_buf = some (frame 30) ∷ none ∷ none ∷ none ∷ [];
        reorder_time = 5 ∷ 1 ∷ 0 ∷ 0 ∷ [];
      },
      free_skb (frame 12)
          ∷ netif_rx (frame 10)
          ∷ netif_rx (frame 11)
          ∷ netif_rx (frame 12)
          ∷ free_skb (frame 9)
          ∷ [],
    )
unfolding reorder_all reorder_in_session make_room store_frame release_reorder_frames
    reorder_release seq_less reorder_index rxdesc_seq release_reorder_frame
arrivals_events = refl
