-- ===== src/Rx/Pass.antt =====
-- A frame passed through `wil_rx_handle` to the network stack.
use wigig_wil.Prelude.{
  ℕ, suc, ◌+◌, ◌≡◌, inl, inr, refl, ap, true, if◌then◌else◌, Bool-cases, List, [], ◌∷◌, ◌++◌,
  length, arith, Outcome, returns,
}
use wigig_wil.Skb.{Skb}
use wigig_wil.Reorder.{RxEvent, netif_rx, free_skb}
use wigig_wil.Reorder.Content.{weight_out}
use wigig_wil.Station.Table.{IsTable}
use wigig_wil.Station.Held.{held_in, content_in, rx_reorder-Accounted}
use wigig_wil.Rx.{RxPath, RxMode, RxEnv, count_rx, netif_rx_any, pass_on, handle_frame}

-- how many frames are passed to the stack
abbrev pub passed : List RxEvent → ℕ
passed [] = 0
passed (netif_rx _ ∷ out) = suc (passed out)
passed (free_skb _ ∷ out) = passed out

pub passed-append : (xs ys : List RxEvent) → passed (xs ++ ys) ≡ passed xs + passed ys
passed-append [] ys = omega arith
passed-append (netif_rx x ∷ xs) ys = omega (arith, passed-append xs ys)
passed-append (free_skb x ∷ xs) ys = passed-append xs ys

-- the frames that the interface has counted, whether the stack took them or not
abbrev pub counted : RxPath → ℕ
counted s = s.ndev_stats.rx_packets + s.ndev_stats.rx_dropped

module _ (mode : RxMode) (env : RxEnv) where
  pub record Passes (n : ℕ) (s s' : RxPath) : Type 0 where
    same_ring : s'.ring ≡ s.ring
    same_stas : s'.stas ≡ s.stas
    received : s'.received ≡ s.received + n
    counts : counted s' ≡ counted s + n

  pub pass_on-Passes :
      (out : List RxEvent) (s : RxPath) → Passes (passed out) s (pass_on mode env out s)
  unfolding pass_on netif_rx_any count_rx
  pass_on-Passes [] s = record {
    same_ring = refl;
    same_stas = refl;
    received = omega arith;
    counts = omega arith;
  }
  pass_on-Passes (netif_rx skb ∷ out) s =
      let r = pass_on-Passes out (netif_rx_any mode env skb s) in
      record {
        same_ring = r.same_ring;
        same_stas = r.same_stas;
        received = omega (arith, r.received);
        counts = ground (arith, r.counts);
      }
  pass_on-Passes (free_skb _ ∷ out) s = pass_on-Passes out s

  -- a frame as it goes on to the windows or, in monitor mode, to the stack
  abbrev pub entered : Skb → Skb
  entered skb =
      if mode.monitor then record skb { csum_unnecessary = true } else env.eth_type_trans skb

  -- a frame passed through: the ring is kept, and the frame is held or out
  pub record Handled (skb : Skb) (s : RxPath) (m : Outcome (RxPath × List RxEvent)) : Type 0 where
    pub result : RxPath
    pub out : List RxEvent
    pub returned : m ≡ returns (result, out)
    pub same_ring : result.ring ≡ s.ring
    pub table : IsTable result.stas
    pub conserved : held_in result.stas + length out ≡ held_in s.stas + 1
    pub accounted :
        (weight : Skb → ℕ)
        → content_in weight result.stas + weight_out weight out
          ≡ content_in weight s.stas + weight (entered skb)
    pub received : result.received ≡ s.received + passed out
    pub counts : counted result ≡ counted s + passed out

  pub handle_frame-Handled :
      (now : ℕ) (skb : Skb) (s : RxPath)
      → IsTable s.stas
      → Handled skb s (handle_frame mode env now skb s)
  unfolding handle_frame
  handle_frame-Handled now skb s t = elim (Bool-cases mode.monitor) [
    | inl e ↦
        let out = netif_rx (record skb { csum_unnecessary = true }) ∷ [] in
        let p = pass_on-Passes out s in
        rw e (record {
          result = pass_on mode env out s;
          out = out;
          returned = refl;
          same_ring = p.same_ring;
          table = rw p.same_stas t;
          conserved = omega (arith, ap held_in p.same_stas);
          accounted = λ weight. omega (arith, ap (content_in weight) p.same_stas);
          received = p.received;
          counts = p.counts;
        })
    | inr e ↦
        let h = rx_reorder-Accounted now s.stas (env.eth_type_trans skb) t in
        let p = pass_on-Passes h.out (record s { stas = h.result }) in
        rw (e, h.returned)
          (record {
            result = pass_on mode env h.out (record s { stas = h.result });
            out = h.out;
            returned = refl;
            same_ring = p.same_ring;
            table = rw p.same_stas h.table;
            conserved = omega (arith, ap held_in p.same_stas, h.conserved);
            accounted =
                λ weight. omega (arith, ap (content_in weight) p.same_stas, h.accounted weight);
            received = p.received;
            counts = p.counts;
          })
  ]
