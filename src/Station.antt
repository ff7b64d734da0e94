-- ===== src/Station.antt =====
-- The stations of `struct wil6210_priv` (wil6210.h) and their block-ack sessions: the entry of
-- `wil_rx_reorder` (rx_reorder.c) and `wil_find_cid` (main.c). A pointer that is NULL is `none`.
pub mod Table
pub mod Rx
pub mod Held
pub mod Back
pub mod Find
pub mod Tests
use wigig_wil.Prelude.{
  ℕ, zero, suc, ◌+◌, ◌==◌, Bool, true, false, not, ◌&&◌, if◌then◌else◌, Option, none, some, List,
  [], ◌∷◌, get_or, set, replicate, Outcome, returns, ◌>>=◌,
}
use wigig_wil.Skb.{Skb, rxdesc_cid, rxdesc_tid}
use wigig_wil.Reorder.{Ampdu, RxEvent, netif_rx, reorder_in_session}

-- `enum wil_sta_status`
pub data StaStatus : Type 0 where
  sta_unused sta_conn_pending sta_connected : StaStatus

-- `struct wil_sta_info` without its statistics; `addr` are the bytes of the address
pub record Sta : Type 0 where
  pub addr : List ℕ
  pub status : StaStatus
  pub tid_rx : List (Option Ampdu)

abbrev pub max_cid : ℕ
max_cid = 8

abbrev pub sta_tid_num : ℕ
sta_tid_num = 16

abbrev pub no_sta : Sta
no_sta = record { addr = []; status = sta_unused; tid_rx = replicate sta_tid_num none }

-- `wil->sta[cid]` and `wil->sta[cid].tid_rx[tid]`
abbrev pub sta_at : List Sta → ℕ → Sta
sta_at stas cid = get_or stas cid no_sta

unfoldable pub session : List Sta → ℕ → ℕ → Option Ampdu
session stas cid tid = get_or (sta_at stas cid).tid_rx tid none

unfoldable pub set_session : List Sta → ℕ → ℕ → Option Ampdu → List Sta
set_session stas cid tid r =
    set stas cid (record (sta_at stas cid) { tid_rx = set (sta_at stas cid).tid_rx tid r })

-- `wil_rx_reorder`
unfoldable pub rx_reorder : ℕ → List Sta → Skb → Outcome (List Sta × List RxEvent)
rx_reorder now stas skb =
    let tid = rxdesc_tid skb.desc in
    let cid = rxdesc_cid skb.desc in
    elim (session stas cid tid) [
      | none ↦ returns (stas, netif_rx skb ∷ [])
      | some r ↦
          reorder_in_session now r skb >>= λ p. returns (set_session stas cid tid (some p.0), p.1)
    ]

abbrev pub is_unused : StaStatus → Bool
is_unused sta_unused = true
is_unused _ = false

abbrev pub is_connected : StaStatus → Bool
is_connected sta_connected = true
is_connected _ = false

-- `ether_addr_equal`
abbrev pub addr_equal : List ℕ → List ℕ → Bool
addr_equal [] [] = true
addr_equal [] (_ ∷ _) = false
addr_equal (_ ∷ _) [] = false
addr_equal (a ∷ xs) (b ∷ ys) = (a == b) && addr_equal xs ys

-- the loop of `wil_find_cid` from index `i` on; `none` is -ENOENT
unfoldable pub find_cid_from : ℕ → List Sta → List ℕ → Option ℕ
find_cid_from i [] mac = none
find_cid_from i (sta ∷ stas) mac =
    if not (is_unused sta.status) && addr_equal sta.addr mac
    then some i
    else find_cid_from (suc i) stas mac

unfoldable pub find_cid : List Sta → List ℕ → Option ℕ
unfolding find_cid_from
find_cid stas mac = find_cid_from 0 stas mac
