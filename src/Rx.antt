-- ===== src/Rx.antt =====
-- txrx.c and netdev.c: the Rx path, from the descriptor ring to the network stack. The descriptors
-- of the ring are as the loop finds them: the card finishes them while the host polls. `memory`
-- is what the card has written to a buffer, `eth_type_trans` the kernel's function of this name,
-- `accepts` what the `k`th call of `netif_receive_skb` answers.
pub mod Radiotap
pub mod Ethaddr
pub mod Reap
mod Pass
pub mod Poll
mod Tests
use wigig_wil.Prelude.{
  ℕ, zero, suc, ◌+◌, ◌-◌, ◌*◌, ◌%◌, ◌==◌, ltb, leb, Bool, true, false, not, ◌&&◌, if◌then◌else◌,
  Option, none, some, List, [], ◌∷◌, ◌++◌, get_or, set, Outcome, returns, null_fault, ◌>>=◌,
}
use wigig_wil.Word.{has_bit}
use wigig_wil.Skb.{RxDesc, Skb, rxdesc_cid, rxdesc_mcs, rxdesc_ftype, rxdesc_ds_bits}
use wigig_wil.Reorder.{RxEvent, netif_rx, free_skb}
use wigig_wil.Station.{Sta, rx_reorder}
use wigig_wil.Vring.{Vring, vring_is_empty, vring_advance_head, rx_buf_len, no_desc, rx_refill}
use wigig_wil.Rx.Radiotap.{RtapEnv, add_radiotap}
use wigig_wil.Rx.Ethaddr.{swap_ethaddr}

-- `struct wil_net_stats`
pub record NetStats : Type 0 where
  pub rx_packets : ℕ
  pub tx_packets : ℕ
  pub rx_bytes : ℕ
  pub tx_bytes : ℕ
  pub tx_errors : ℕ
  pub rx_dropped : ℕ
  pub last_mcs_rx : ℕ

abbrev pub no_stats : NetStats
no_stats = record {
  rx_packets = 0;
  tx_packets = 0;
  rx_bytes = 0;
  tx_bytes = 0;
  tx_errors = 0;
  rx_dropped = 0;
  last_mcs_rx = 0;
}

-- how the interface is set up: `ndev->type` being that of Ethernet or of radiotap, `wdev->iftype`
-- being that of a monitor, and the checksum feature
pub record RxMode : Type 0 where
  pub is_ether : Bool
  pub is_radiotap : Bool
  pub monitor : Bool
  pub rxcsum : Bool

-- `stats` are those of the stations, by CID, `last_mcs_rx` is that of `wil->stats`; `received`
-- counts the calls of `netif_receive_skb`
pub record RxPath : Type 0 where
  pub ring : Vring
  pub stas : List Sta
  pub stats : List NetStats
  pub ndev_stats : NetStats
  pub last_mcs_rx : ℕ
  pub received : ℕ

-- what `wil_vring_reap_rx` returns; it frees the frames that it drops
pub data Reaped : Type 0 where
  no_frame : Reaped
  dropped : Skb → Reaped
  frame : Skb → Reaped

-- what the card and the kernel contribute
pub record RxEnv : Type 0 where
  pub memory : ℕ → List ℕ
  pub rtap_env : ℕ → RtapEnv
  pub eth_type_trans : Skb → Skb
  pub accepts : ℕ → Bool
  pub bufs : ℕ → Option (ℕ × ℕ)

module _ (mode : RxMode) (env : RxEnv) where
  -- the buffer `id` as a frame with its descriptor, cut to the length that the card gives
  unfoldable pub take_skb : RxDesc → ℕ → Skb
  take_skb d id =
      let skb : Skb = record {
        desc = d;
        len = if ltb d.length rx_buf_len then d.length else rx_buf_len;
        words = env.memory id;
        csum_unnecessary = false;
        rtap = none;
      } in
      if mode.is_radiotap then add_radiotap (env.rtap_env id) skb else skb

  -- the checks of `wil_vring_reap_rx` on a frame that it has taken
  unfoldable pub check_skb : Skb → Reaped
  unfolding swap_ethaddr
  check_skb skb =
      let d = skb.desc in
      let swapped =
        if rxdesc_ds_bits d == 1 then record skb { words = swap_ethaddr skb.words } else skb in
      let good = mode.rxcsum && (has_bit d.status 5 && not (has_bit d.error 5)) in
      if not mode.is_ether
      then frame skb
      else if not ((rxdesc_ftype d * 4) == 8)
      then dropped skb
      else if ltb skb.len 14
      then dropped skb
      else frame (if good then record swapped { csum_unnecessary = true } else swapped)

  -- the ring and the statistics once the frame at the head is taken
  unfoldable pub take_head : RxPath → Skb → RxPath
  unfolding vring_advance_head
  take_head s skb =
      let head = s.ring.swhead in
      let cid = rxdesc_cid skb.desc in
      let mcs = rxdesc_mcs skb.desc in
      record s {
        ring = vring_advance_head (record s.ring { ctx = set s.ring.ctx head none }) 1;
        stats = set s.stats cid (record (get_or s.stats cid no_stats) { last_mcs_rx = mcs });
        last_mcs_rx = mcs;
      }

  -- `wil_vring_reap_rx`
  unfoldable pub reap_rx : RxPath → Outcome (Reaped × RxPath)
  unfolding take_skb check_skb take_head
  reap_rx s =
      let d = get_or s.ring.va s.ring.swhead no_desc in
      if vring_is_empty s.ring
      then returns (no_frame, s)
      else if not (has_bit d.status 0)
      then returns (no_frame, s)
      else elim (get_or s.ring.ctx s.ring.swhead none) [
        | none ↦ null_fault
        | some id ↦ let skb = take_skb d id in returns (check_skb skb, take_head s skb)
      ]

  -- the statistics of a station and of the interface after `wil_netif_rx_any`
  unfoldable pub count_rx : Bool → ℕ → NetStats → NetStats
  count_rx ok len t =
      if ok
      then record t { rx_packets = t.rx_packets + 1; rx_bytes = t.rx_bytes + len }
      else record t { rx_dropped = t.rx_dropped + 1 }

  -- `wil_netif_rx_any`
  unfoldable pub netif_rx_any : Skb → RxPath → RxPath
  unfolding count_rx
  netif_rx_any skb s =
      let cid = rxdesc_cid skb.desc in
      let ok = env.accepts s.received in
      record s {
        stats = set s.stats cid (count_rx ok skb.len (get_or s.stats cid no_stats));
        ndev_stats = count_rx ok skb.len s.ndev_stats;
        received = s.received + 1;
      }

  -- the calls that the reorder buffer logs, made
  unfoldable pub pass_on : List RxEvent → RxPath → RxPath
  unfolding netif_rx_any
  pass_on [] s = s
  pass_on (netif_rx skb ∷ out) s = pass_on out (netif_rx_any skb s)
  pass_on (free_skb _ ∷ out) s = pass_on out s

  -- one round of the loop of `wil_rx_handle`, with a frame; `now` is `jiffies`
  unfoldable pub handle_frame : ℕ → Skb → RxPath → Outcome (RxPath × List RxEvent)
  unfolding pass_on
  handle_frame now skb s =
      let raw = record skb { csum_unnecessary = true } in
      if mode.monitor
      then returns (pass_on (netif_rx raw ∷ []) s, netif_rx raw ∷ [])
      else rx_reorder now s.stas (env.eth_type_trans skb) >>= λ p.
          returns (pass_on p.1 (record s { stas = p.0 }), p.1)

  -- the loop of `wil_rx_handle`: the quota that it leaves, and the calls it makes in order
  unfoldable pub rx_loop : ℕ → ℕ → RxPath → Outcome (ℕ × RxPath × List RxEvent)
  unfolding reap_rx handle_frame
  rx_loop now zero s = returns (0, s, [])
  rx_loop now (suc quota) s = reap_rx s >>= λ p. elim p.0 [
    | no_frame ↦ returns (suc quota, p.1, [])
    | dropped skb ↦ returns (suc quota, p.1, free_skb skb ∷ [])
    | frame skb ↦ handle_frame now skb p.1 >>= λ q.
        rx_loop now quota q.0 >>= λ r. returns (r.0, r.1, q.1 ++ r.2)
  ]

  -- `wil_rx_handle` on a ring that is set up
  unfoldable pub rx_handle : ℕ → ℕ → RxPath → Outcome (ℕ × RxPath × List RxEvent)
  unfolding rx_loop
  rx_handle now quota s = rx_loop now quota s >>= λ r.
      returns (r.0, record r.1 { ring = (rx_refill env.bufs r.1.ring.size 0 r.1.ring).1 }, r.2)

  -- `wil6210_netdev_poll_rx`: what it returns, and whether it ends the polling and unmasks the
  -- interrupt
  unfoldable pub poll_rx : ℕ → ℕ → RxPath → Outcome (ℕ × Bool × RxPath × List RxEvent)
  unfolding rx_handle
  poll_rx now budget s =
      rx_handle now budget s >>= λ r. returns (budget - r.0, leb (budget - r.0) 1, r.1, r.2)
