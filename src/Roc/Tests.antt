-- ===== src/Roc/Tests.antt =====
-- A request on an idle driver whose counter wraps, so that its cookie is 1.
use wigig_wil.Prelude.{ℕ, ◌≡◌, ◌≢◌, refl, true, false, [], ◌∷◌, ◌++◌, arith}
use wigig_wil.Roc.{
  Roc, roc_ok, roc_ebusy, stop_discovery, queue_cancel, ready_on_channel, channel_expired,
  prepare_roc, roc_cancel_work,
}
use wigig_wil.Roc.Cycle.{prepare_roc_lem, roc_cancel_work-prepare_roc}

abbrev idle : Roc
idle = record {
  chan = 0;
  started = false;
  duration = 0;
  buf = 0;
  len = 0;
  cookie = 0;
  mgmt_tx_cookie = 0;
  counter = 18446744073709551615;
}

prepare_roc_lem_example :
    let (code, out, s', calls) = prepare_roc 0 5 0 64 0 0 30 128 idle in
    (idle.cookie ≢ 0 → (code ≡ roc_ebusy) × (s' ≡ idle) × (calls ≡ []))
    × (idle.cookie ≡ 0 → ◌≢◌ {A = ℕ} 5 0 → (s'.cookie ≡ 0) × (s'.mgmt_tx_cookie ≡ 0))
    × (idle.cookie ≡ 0
        → ◌≡◌ {A = ℕ} 5 0
        → (code ≡ roc_ok)
          × (s'.cookie ≢ 0)
          × (s'.started ≡ true)
          × (s'.mgmt_tx_cookie ≡ 0)
          × (out ≡ s'.cookie))
prepare_roc_lem_example = prepare_roc_lem 0 5 0 64 0 0 30 128 idle (omega arith) (omega arith)

roc_cancel_work-prepare_roc_example :
    let (code, out, s', calls) = prepare_roc 0 0 0 64 0 0 0 128 idle in
    let (s'', calls') = roc_cancel_work s' in
    (s''.cookie ≡ 0)
    × (s''.mgmt_tx_cookie ≡ 0)
    × (calls ++ calls'
        ≡ queue_cancel 10
          ∷ ready_on_channel out 64 10
          ∷ stop_discovery
          ∷ channel_expired out 64
          ∷ [])
roc_cancel_work-prepare_roc_example =
    roc_cancel_work-prepare_roc 64 0 0 128 idle (omega arith) (omega arith) refl
