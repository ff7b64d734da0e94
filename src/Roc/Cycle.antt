-- ===== src/Roc/Cycle.antt =====
-- The life of a request to listen on a channel.
use wigig_wil.Prelude.{ℕ, ◌+◌, ◌==◌, ◌≡◌, ◌≢◌, true, if◌then◌else◌, [], ◌∷◌, ◌++◌, arith}
use wigig_wil.Roc.{
  Roc, roc_ok, roc_ebusy, stop_discovery, queue_cancel, ready_on_channel, channel_expired,
  start_roc, next_cookie, request_roc, prepare_roc, roc_cancel_work,
}

-- With a channel and a place for the cookie: a request while another runs is refused and changes
-- nothing. While none runs: if a call of the firmware fails, the driver is idle again; if none
-- fails, the request runs under a cookie that is not 0, and the caller gets that cookie, or the
-- address of its frame if it has one.
pub prepare_roc_lem :
    (p2p ssid listen chan buf len duration cookie_at : ℕ) (s : Roc)
    → chan ≢ 0
    → cookie_at ≢ 0
    → let (code, out, s', calls) = prepare_roc p2p ssid listen chan buf len duration cookie_at s in
      (s.cookie ≢ 0 → (code ≡ roc_ebusy) × (s' ≡ s) × (calls ≡ []))
      × (s.cookie ≡ 0 → p2p + ssid + listen ≢ 0 → (s'.cookie ≡ 0) × (s'.mgmt_tx_cookie ≡ 0))
      × (s.cookie ≡ 0
          → p2p + ssid + listen ≡ 0
          → (code ≡ roc_ok)
            × (s'.cookie ≢ 0)
            × (s'.started ≡ true)
            × (s'.mgmt_tx_cookie ≡ buf)
            × (out ≡ (if buf == 0 then s'.cookie else buf)))
unfolding prepare_roc start_roc request_roc next_cookie
prepare_roc_lem p2p ssid listen chan buf len duration cookie_at s c a = ground arith

-- A request to listen that starts on an idle driver and then ends: the stack is told that the channel is ready, and
-- at the end that the time is over, with the same cookie and channel; the driver is idle again.
pub roc_cancel_work-prepare_roc :
    (chan len duration cookie_at : ℕ) (s : Roc)
    → chan ≢ 0
    → cookie_at ≢ 0
    → s.cookie ≡ 0
    → let (code, out, s', calls) = prepare_roc 0 0 0 chan 0 len duration cookie_at s in
      let (s'', calls') = roc_cancel_work s' in
      let time = if duration == 0 then 10 else duration in
      (s''.cookie ≡ 0)
      × (s''.mgmt_tx_cookie ≡ 0)
      × (calls ++ calls'
          ≡ queue_cancel time
            ∷ ready_on_channel out chan time
            ∷ stop_discovery
            ∷ channel_expired out chan
            ∷ [])
unfolding prepare_roc start_roc request_roc next_cookie roc_cancel_work
roc_cancel_work-prepare_roc chan len duration cookie_at s c a idle = ground arith
