-- ===== src/Station/Back.antt =====
-- rx_reorder.c: requests to open a block-ack session. They wait in a list for `wil_back_worker`.
-- An answer says how the calls end that the worker makes for a request: the response that
-- `wmi_rcp_addba_resp` sends, and the three allocations.
pub mod Worker
use wigig_wil.Prelude.{
  ℕ, zero, suc, ◌+◌, ◌*◌, ◌/◌, ◌%◌, ◌==◌, leb, ltb, Bool, true, false, not, if◌then◌else◌, Option,
  none, some, List, [], ◌∷◌, ◌++◌, Outcome, returns, out_of_fuel, ◌>>=◌,
}
use wigig_wil.Word.{get_bits, parse_cidxtid}
use wigig_wil.Reorder.{Ampdu, RxEvent, after, tid_ampdu_rx_alloc, tid_ampdu_rx_free}
use wigig_wil.Station.{Sta, sta_at, session, set_session, max_cid, is_connected}

-- the parameters of the request in `struct wil_pending_back`
pub record Back : Type 0 where
  pub cidxtid : ℕ
  pub dialog_token : ℕ
  pub ba_param_set : ℕ
  pub ba_timeout : ℕ
  pub ba_seq_ctrl : ℕ

pub record Answer : Type 0 where
  pub responded : Bool
  pub got_r : Bool
  pub got_buf : Bool
  pub got_time : Bool

pub data BackCode : Type 0 where
  back_ok back_enomem : BackCode

-- `wil_rcp_addba_request`; the Boolean says whether the allocation succeeds
unfoldable pub rcp_addba_request : Bool → Back → List Back → BackCode × List Back
rcp_addba_request got req pending =
    if got then (back_ok, pending ++ (req ∷ [])) else (back_enomem, pending)

-- `min_t(u16, 16, req_agg_wsize)`
unfoldable pub agg_wsize : Back → ℕ
unfolding get_bits
agg_wsize req = let asked = get_bits req.ba_param_set 6 15 in if ltb asked 16 then asked else 16

-- `wil_back_handle`
unfoldable pub back_handle : Answer → List Sta → Back → Outcome (List Sta × List RxEvent)
unfolding parse_cidxtid agg_wsize
back_handle answer stas req =
    let (cid, tid) = parse_cidxtid req.cidxtid in
    let r =
      tid_ampdu_rx_alloc answer.got_r answer.got_buf answer.got_time (agg_wsize req)
        (req.ba_seq_ctrl / 16) in
    if leb max_cid cid
    then returns (stas, [])
    else if not (is_connected (sta_at stas cid).status)
    then returns (stas, [])
    else if not answer.responded
    then returns (stas, [])
    else tid_ampdu_rx_free (session stas cid tid) >>= λ out.
        returns (set_session stas cid tid r, out)

-- `wil_back_flush`
unfoldable pub back_flush : List Back → List Back
back_flush pending = []

-- `next_back`
unfoldable pub next_back : List Back → Option (Back × List Back)
next_back [] = none
next_back (req ∷ pending) = some (req, pending)

-- the loop of `wil_back_worker`, with the answer for the `k`th request
unfoldable pub back_worker :
    (ℕ → Answer) → ℕ → ℕ → List Sta → List Back → Outcome ((List Sta × List Back) × List RxEvent)
unfolding next_back
back_worker answers zero k stas pending = out_of_fuel
back_worker answers (suc fuel) k stas pending = elim (next_back pending) [
  | none ↦ returns ((stas, pending), [])
  | some p ↦
      back_handle (answers k) stas p.0 >>= λ q. after q.1 (back_worker answers fuel (suc k) q.0 p.1)
]
