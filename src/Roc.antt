-- ===== src/Roc.antt =====
-- offchannel.c: a request to listen on a channel for some time (remain on channel), or to send
-- a management frame there. A pointer is its address, 0 being NULL; the calls of the firmware and
-- of the wireless stack that the file makes are logged, in order.
mod Tests
pub mod Cycle
use wigig_wil.Prelude.{
  ℕ, ◌+◌, ◌%◌, ◌^◌, ◌==◌, Bool, true, not, ◌&&◌, ◌||◌, if◌then◌else◌, List, [], ◌∷◌, ◌++◌,
}

pub data RocCall : Type 0 where
  stop_discovery : RocCall
  queue_cancel : ℕ → RocCall
  mgmt_tx_status : ℕ → Bool → RocCall
  ready_on_channel : ℕ → ℕ → ℕ → RocCall
  channel_expired : ℕ → ℕ → RocCall

-- `struct wil_roc`, and `roc_counter` of `struct wil6210_priv`
pub record Roc : Type 0 where
  pub chan : ℕ
  pub started : Bool
  pub duration : ℕ
  pub buf : ℕ
  pub len : ℕ
  pub cookie : ℕ
  pub mgmt_tx_cookie : ℕ
  pub counter : ℕ

pub data RocCode : Type 0 where
  roc_ok roc_einval roc_ebusy : RocCode
  roc_failed : ℕ → RocCode

-- `wil_start_roc`, the results of its three calls of the firmware being given; the result is 0 or
-- the error code of the call that failed
unfoldable pub start_roc : ℕ → ℕ → ℕ → Roc → ℕ × Roc × List RocCall
start_roc p2p ssid listen s =
    if not (p2p == 0)
    then (p2p, s, [])
    else if not (ssid == 0)
    then (ssid, s, stop_discovery ∷ [])
    else if not (listen == 0)
    then (listen, s, stop_discovery ∷ [])
    else (0, record s { started = true }, queue_cancel s.duration ∷ [])

-- the cookie that `wil_prepare_roc` takes, which is not 0
unfoldable pub next_cookie : Roc → Roc
next_cookie s =
    let counter = (s.counter + 1) % 2 ^ 64 in
    if counter == 0
    then record s { cookie = 1; counter = 1 }
    else record s { cookie = counter; counter = counter }

-- the fields that `wil_prepare_roc` fills in
unfoldable pub request_roc : ℕ → ℕ → ℕ → ℕ → Roc → Roc
unfolding next_cookie
request_roc chan buf len duration s =
    let time = if (duration == 0) && (buf == 0) then 10 else duration in
    let s1 = record (next_cookie s) { chan = chan; duration = time } in
    if buf == 0
    then record s1 { mgmt_tx_cookie = 0 }
    else record s1 { buf = buf; len = len; mgmt_tx_cookie = buf }

-- `wil_prepare_roc`: `cookie_at` is the pointer for the cookie that goes to the caller; the second
-- result is the value stored there, 0 if there is none
unfoldable pub prepare_roc : ℕ → ℕ → ℕ → ℕ → ℕ → ℕ → ℕ → ℕ → Roc → RocCode × ℕ × Roc × List RocCall
unfolding start_roc request_roc
prepare_roc p2p ssid listen chan buf len duration cookie_at s =
    let s1 = request_roc chan buf len duration s in
    let (rc, s2, calls) = start_roc p2p ssid listen s1 in
    let ok = rc == 0 in
    let code = if ok then roc_ok else roc_failed rc in
    let told = if buf == 0 then [] else mgmt_tx_status buf ok ∷ [] in
    let idle = record s2 { cookie = 0; mgmt_tx_cookie = 0 } in
    if (chan == 0) || (cookie_at == 0)
    then (roc_einval, 0, s, [])
    else if not (s.cookie == 0)
    then (roc_ebusy, 0, s, [])
    else if not ok
    then (code, buf, idle, calls ++ told)
    else if buf == 0
    then (code, s2.cookie, s2, calls ++ (ready_on_channel s2.cookie s2.chan s2.duration ∷ []))
    else (code, buf, s2, calls ++ told)

-- `wil_roc_cancel_work`
unfoldable pub roc_cancel_work : Roc → Roc × List RocCall
roc_cancel_work s =
    let calls = if s.mgmt_tx_cookie == 0 then channel_expired s.cookie s.chan ∷ [] else [] in
    (record s { cookie = 0; mgmt_tx_cookie = 0 }, stop_discovery ∷ calls)
