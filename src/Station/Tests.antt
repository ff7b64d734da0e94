-- ===== src/Station/Tests.antt =====
-- A table with one connected station: a request for a window of four frames, then a frame.
use wigig_wil.Prelude.{
  ℕ, zero, suc, ap, sym, ◌∙◌, ◌+◌, ◌*◌, ◌≡◌, refl, true, false, Option, none, some, List, [], ◌∷◌,
  length, get_or, replicate, get_or-replicate, returns,
}
use wigig_wil.Skb.{Skb, rxdesc_cid, rxdesc_tid}
use wigig_wil.Reorder.{Ampdu}
use wigig_wil.Station.{
  Sta, sta_connected, sta_at, no_sta, session, rx_reorder, find_cid, sta_tid_num,
}
use wigig_wil.Station.Table.{IsTable}
use wigig_wil.Station.Rx.{Reordered, rx_reorder-Reordered}
use wigig_wil.Station.Back.{Back, Answer, agg_wsize, back_worker}
use wigig_wil.Station.Back.Worker.{all_fair, handled_all, back_worker_lem}

abbrev pub peer : Sta
peer = record {
  addr = 4 ∷ 206 ∷ 20 ∷ 1 ∷ 2 ∷ 3 ∷ [];
  status = sta_connected;
  tid_rx = replicate sta_tid_num none;
}

abbrev pub stas : List Sta
stas = no_sta ∷ peer ∷ replicate 6 no_sta

-- a frame from station 1, TID 0
abbrev frame : ℕ → Skb
frame seq = record {
  desc = record {
    mac_d0 = seq * 65536 + 16;
    mac_d1 = 0;
    dma_d0 = 0;
    addr_low = 0;
    addr_high = 0;
    error = 0;
    status = 1;
    length = 100;
  };
  len = 100;
  words = [];
  csum_unnecessary = false;
  rtap = none;
}

pub no_sessions : (cid : ℕ) → (sta_at stas cid).tid_rx ≡ replicate sta_tid_num none
no_sessions zero = refl
no_sessions (suc zero) = refl
no_sessions (suc (suc k)) = ap (λ s. s.tid_rx) (get_or-replicate 6 k no_sta)

pub no_session : (cid tid : ℕ) → session stas cid tid ≡ none
unfolding session
no_session cid tid =
    ap (λ l. get_or l tid none) (no_sessions cid) ∙ get_or-replicate sta_tid_num tid none

none≢some : {r : Ampdu} → ◌≡◌ {A = Option Ampdu} none (some r) → ⊥
none≢some e = cc

pub stas-IsTable : IsTable stas
stas-IsTable = record {
  cids = refl;
  tids = λ cid lt. ap (λ l. length l) (no_sessions cid);
  placed = λ cid tid r e. absurd (none≢some (sym (no_session cid tid) ∙ e));
}

rx_reorder-Reordered_example :
    Reordered stas
      (frame 12)
      (rxdesc_cid (frame 12).desc)
      (rxdesc_tid (frame 12).desc)
      (rx_reorder 0 stas (frame 12))
rx_reorder-Reordered_example = rx_reorder-Reordered 0 stas (frame 12) stas-IsTable

-- CID 1, TID 0, four buffers, from sequence number 10 on
abbrev request : Back
request = record {
  cidxtid = 1;
  dialog_token = 1;
  ba_param_set = 256;
  ba_timeout = 0;
  ba_seq_ctrl = 160;
}

abbrev granted : Answer
granted = record { responded = true; got_r = true; got_buf = true; got_time = true }

requests_fair : all_fair (request ∷ request ∷ []) ≡ true
unfolding agg_wsize
requests_fair = refl

back_worker_lem_example :
    (back_worker (λ k. granted) 3 0 stas (request ∷ request ∷ [])
      ≡ returns (
        ((handled_all (λ k. granted) 0 (request ∷ request ∷ []) stas).0, []),
        (handled_all (λ k. granted) 0 (request ∷ request ∷ []) stas).1,
      ))
    × IsTable (handled_all (λ k. granted) 0 (request ∷ request ∷ []) stas).0
back_worker_lem_example =
    back_worker_lem (λ k. granted) (request ∷ request ∷ []) stas stas-IsTable requests_fair

find_cid_peer : find_cid stas (4 ∷ 206 ∷ 20 ∷ 1 ∷ 2 ∷ 3 ∷ []) ≡ some 1
unfolding find_cid
find_cid_peer = refl
