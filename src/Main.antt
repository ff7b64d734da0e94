-- ===== src/Main.antt =====
-- main.c: the reset of the card, and `wil_up` and `wil_down`. The driver's
-- mutex makes each of these one step; the workers and the events that run while it waits are
-- parameters.
pub mod Init
pub mod Memcpy
pub mod Resets
pub mod Ups
pub mod Downs
pub mod Live
mod Tests
use wigig_wil.Prelude.{
  ℕ, zero, suc, ◌+◌, ◌-◌, ◌==◌, ltb, leb, Bool, true, false, not, ◌&&◌, if◌then◌else◌, Option, none,
  some, List, [], ◌∷◌, ◌++◌, replicate, length, Outcome, returns, ◌>>=◌,
}
use wigig_wil.Word.{with_bit}
use wigig_wil.Skb.{RxDesc}
use wigig_wil.Station.{no_sta, max_cid}
use wigig_wil.Station.Back
use wigig_wil.Station.Back.{Answer, back_worker, back_flush}
use wigig_wil.Irq.{disable_irq, enable_irq}
use wigig_wil.Vring.Setup.{rx_init, rx_fini}
use wigig_wil.Wmi.Events.{HandlerCall}
use wigig_wil.Dev.{
  Dev, Iftype, station, ap, p2p_client, p2p_go, monitor, adhoc, other, Rc, success, enomem, etime,
  eagain, eopnotsupp, is_success, Fw, ResetReg, sw_rst_mask_0, mac_cpu_0, user_cpu_0, sw_rst_vec_0,
  sw_rst_vec_1, sw_rst_vec_2, sw_rst_vec_3, scan_done, passed, written, freed, tell,
}
use wigig_wil.Dev.Disconnect.{disconnect}
use wigig_wil.Evt.Station.{dev_connect_worker}
use wigig_wil.Evt.Dispatch.{Answers, serve_all}
use wigig_wil.Cmd.Mlme.{wmi_set_ssid, wmi_set_mac_address}

-- what `wil_target_reset` writes; `r0` and `r1` are the two reads of the mask
unfoldable pub target_reset : ℕ → ℕ → List (ResetReg × ℕ)
target_reset r0 r1 =
    (sw_rst_mask_0, with_bit r0 6)
    ∷ (sw_rst_mask_0, with_bit r1 7)
    ∷ (mac_cpu_0, 2)
    ∷ (user_cpu_0, 2)
    ∷ (sw_rst_vec_2, 0xFE000000)
    ∷ (sw_rst_vec_1, 0x3F)
    ∷ (sw_rst_vec_3, 0x170)
    ∷ (sw_rst_vec_0, 0xFFE7FC00)
    ∷ (sw_rst_vec_3, 0)
    ∷ (sw_rst_vec_2, 0)
    ∷ (sw_rst_vec_1, 0)
    ∷ (sw_rst_vec_0, 0)
    ∷ (sw_rst_vec_3, 3)
    ∷ (sw_rst_vec_2, 0x8080)
    ∷ (sw_rst_vec_0, 0)
    ∷ []

-- what others do during a reset: how the connection that may be queued ends, how the requests for
-- sessions are answered, what the mask reads, and the events that are handled during the wait
pub record World : Type 0 where
  pub got_mem : Bool
  pub configured : Bool
  pub answers : ℕ → Answer
  pub mask0 : ℕ
  pub mask1 : ℕ
  pub calls : List (Answers × HandlerCall)

-- `flush_workqueue` for the connection, and for the requests for sessions
unfoldable pub flush_conn : World → Dev → Outcome Dev
unfolding dev_connect_worker
flush_conn w d = if d.queued then dev_connect_worker w.got_mem w.configured d else returns d

unfoldable pub flush_back : World → Dev → Outcome Dev
flush_back w d =
    back_worker w.answers (suc (length d.back_pending)) 0 d.link.stas d.back_pending >>= λ p.
    returns
      (record (tell (passed p.1) d) { link = record d.link { stas = p.0.0 }; back_pending = p.0.1 })

-- the part of `wil_reset` up to its flushes: `status` is cleared, the events are dropped
unfoldable pub silence : Dev → Dev
unfolding disable_irq
silence d = record d {
  irq = record (disable_irq d.irq) { fwready = false; reset_done = false; irqen = false };
  fwconnected = false;
  dontscan = false;
  pending_ev = [];
}

-- the card is reset, and the interrupts enabled
unfoldable pub restart : World → Dev → Dev
unfolding target_reset enable_irq
restart w d = record (tell (written (target_reset w.mask0 w.mask1)) d) {
  link = record d.link { pending = none };
  ready = 0;
  irq = enable_irq d.irq;
}

-- `wil_wait_for_fw_ready`, once the events of the wait are handled
unfoldable pub wait_for_fw_ready : Dev → Rc × Dev
wait_for_fw_ready d =
    if d.ready == 0 then (etime, d) else (success, record d { ready = d.ready - 1 })

-- `wil_reset`
unfoldable pub reset : World → Dev → Outcome (Rc × Dev)
unfolding disconnect silence flush_conn flush_back restart serve_all wait_for_fw_ready
reset w d = disconnect d none >>= λ d1. flush_conn w (silence d1) >>= λ d2.
    flush_back w d2 >>= λ d3.
    serve_all w.calls (restart w d3) >>= λ d4. returns (wait_for_fw_ready d4)

-- what the set-up of the Rx ring gets, the code of its command (`wmi_rx_chain_add`), and what the
-- stack holds
pub record Memory : Type 0 where
  pub got_ctx : Bool
  pub got_va : Bool
  pub configured : Rc
  pub bufs : ℕ → Option (ℕ × ℕ)
  pub mem : List RxDesc
  pub reserved : List ℕ

abbrev pub rx_ring_size : ℕ
rx_ring_size = 128

-- the code of a set-up without a ring
unfoldable pub rx_init_code : Memory → Rc
rx_init_code m =
    if m.got_ctx && (m.got_va && not (is_success m.configured)) then m.configured else enomem

-- `wil_rx_init`: the ring that the device had is forgotten
unfoldable pub dev_rx_init : Memory → Dev → Outcome (Rc × Dev)
unfolding rx_init rx_init_code
dev_rx_init m d =
    rx_init m.got_ctx m.got_va (is_success m.configured) m.bufs m.mem rx_ring_size >>= λ p.
    returns (
      elim p.0 [ none ↦ rx_init_code m | some _ ↦ success ],
      record (tell (freed p.1) d) { rx_ring = p.0 },
    )

-- may the interface be brought up, and as what kind of device?
abbrev pub is_supported : Iftype → Bool
is_supported station = true
is_supported ap = true
is_supported p2p_client = true
is_supported p2p_go = true
is_supported monitor = true
is_supported _ = false

abbrev pub is_radiotap : Iftype → Bool
is_radiotap monitor = true
is_radiotap _ = false

abbrev pub is_ap : Iftype → Bool
is_ap ap = true
is_ap p2p_go = true
is_ap _ = false

-- the SSID of an access point
unfoldable pub apply_ssid : Fw → Dev → Rc × Dev
unfolding wmi_set_ssid
apply_ssid fw d =
    if is_ap d.iftype && (ltb 0 d.ssid_len && leb d.ssid_len 32)
    then wmi_set_ssid fw d.ssid_len d.ssid d
    else (success, d)

-- `__wil_up` after the set-up of the ring
unfoldable pub finish_up : Fw → Memory → Dev → Rc × Dev
finish_up fw m d =
    let d1 = record d { radiotap = is_radiotap d.iftype } in
    let (rc, d2) = apply_ssid fw d1 in
    let d3 = (wmi_set_mac_address fw m.reserved d2.dev_addr d2).1 in
    if not (is_supported d.iftype)
    then (eopnotsupp, d)
    else if not (is_success rc)
    then (rc, d2)
    else (success, record d3 { napi = true })

abbrev pub unless_failed : Rc × Dev → (Dev → Outcome (Rc × Dev)) → Outcome (Rc × Dev)
unless_failed p next = if is_success p.0 then next p.1 else returns p

-- `wil_up`
unfoldable pub up : Fw → World → Memory → Dev → Outcome (Rc × Dev)
unfolding reset dev_rx_init finish_up
up fw w m d = reset w d >>= λ p.
    unless_failed p
      λ d1. dev_rx_init m d1 >>= λ q. unless_failed q λ d2. returns (finish_up fw m d2)

-- the scan that `wil_down` ends
unfoldable pub abort_scan : Dev → Dev
abort_scan d = elim d.scan_request [
  | none ↦ d
  | some request ↦ record (tell (scan_done request true) d) { scan_request = none }
]

-- `wil_down`
unfoldable pub down : Dev → Outcome Dev
unfolding abort_scan disconnect rx_fini
down d = disconnect (abort_scan (record d { napi = false })) none >>= λ d1.
    rx_fini d1.rx_ring >>= λ ops. returns (record (tell (freed ops) d1) { rx_ring = none })
