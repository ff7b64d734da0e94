-- ===== src/Rx/Poll.antt =====
-- The loop of `wil_rx_handle`, its refill and `wil6210_netdev_poll_rx`: frames are counted from
-- the ring to the network stack.
use wigig_wil.Prelude.{
  ℕ, zero, suc, ◌+◌, ◌-◌, ◌≡◌, ◌≤◌, ◌⊎◌, inl, inr, ◌∙◌, refl, ap, Bool, true, List, [], ◌∷◌, ◌++◌,
  length, length-append, sum_by, leb, arith, Outcome, returns,
}
use wigig_wil.Skb.{Skb}
use wigig_wil.Reorder.{RxEvent, free_skb}
use wigig_wil.Reorder.Content.{weight_out, weight_out-append}
use wigig_wil.Vring.{rx_refill}
use wigig_wil.Vring.Refill.{IsRing, used, rx_refill-Refills}
use wigig_wil.Station.Table.{IsTable}
use wigig_wil.Station.Held.{held_in, content_in}
use wigig_wil.Rx.{RxPath, RxMode, RxEnv, rx_loop, rx_handle, poll_rx}
use wigig_wil.Rx.Reap.{is_idle, arrival, arrivals, Reaped-cases, reap_rx-Reaps}
use wigig_wil.Rx.Pass.{counted, handle_frame-Handled, passed, passed-append}

module _ (mode : RxMode) (env : RxEnv) where
  -- What the loop leaves with `quota` frames allowed: a ring and a table that are well-formed;
  -- each frame taken off the ring is held, passed on or freed, and each one passed on is counted;
  -- the loop ends by the quota, by a ring without a finished frame, or by one dropped frame.
  pub record Polls (quota : ℕ) (s : RxPath) (m : Outcome (ℕ × RxPath × List RxEvent)) : Type 0 where
    pub left : ℕ
    pub result : RxPath
    pub out : List RxEvent
    pub returned : m ≡ returns (left, result, out)
    pub ring : IsRing result.ring
    pub table : IsTable result.stas
    pub drops : ℕ
    pub within : left ≤ quota
    pub conserved :
        used result.ring + held_in result.stas + length out ≡ used s.ring + held_in s.stas
    pub accounted :
        (weight : Skb → ℕ)
        → content_in weight result.stas + weight_out weight out
          ≡ content_in weight s.stas + sum_by weight (arrivals mode env quota s.ring)
    pub taken : used result.ring + quota + drops ≡ used s.ring + left
    pub received : result.received ≡ s.received + passed out
    pub counts : counted result ≡ counted s + passed out
    pub ended : (left ≡ 0) × (drops ≡ 0) ⊎ (is_idle result.ring ≡ true) × (drops ≡ 0) ⊎ (drops ≡ 1)

  pub rx_loop-Polls :
      (now quota : ℕ) (s : RxPath)
      → IsRing s.ring
      → IsTable s.stas
      → Polls quota s (rx_loop mode env now quota s)
  unfolding rx_loop
  rx_loop-Polls now zero s h t = record {
    left = 0;
    result = s;
    out = [];
    returned = refl;
    ring = h;
    table = t;
    drops = 0;
    within = omega arith;
    conserved = omega arith;
    accounted = λ weight. omega arith;
    taken = omega arith;
    received = omega arith;
    counts = omega arith;
    ended = inl (refl, refl);
  }
  rx_loop-Polls now (suc quota) s h t =
      let a = reap_rx-Reaps mode env s h in
      let rest = arrivals mode env quota a.result.ring in
      let arrived = a.arrived quota in
      let same = ap (λ n. n.rx_packets + n.rx_dropped) a.same_ndev_stats in
      elim (Reaped-cases a.reaped) [
        | inl e ↦ elim a.outcome [
          | inl (_, eq, idle) ↦
              rw (a.returned, e)
                (record {
                  left = suc quota;
                  result = a.result;
                  out = [];
                  returned = refl;
                  ring = a.ring;
                  table = rw a.same_stas t;
                  drops = 0;
                  within = omega arith;
                  conserved = omega (arith, ap held_in a.same_stas, ap (λ r. used r.ring) eq);
                  accounted = λ weight. omega (
                    arith,
                    ap (content_in weight) a.same_stas,
                    ap (sum_by weight) (arrived ∙ ap (λ x. arrival mode env x rest) e),
                  );
                  taken = omega (arith, ap (λ r. used r.ring) eq);
                  received = omega (arith, a.same_received);
                  counts = omega (arith, same);
                  ended = inr (inl (ap (λ r. is_idle r.ring) eq ∙ idle, refl));
                })
          | inr (ne, _) ↦ absurd (ne e)
        ]
        | inr (inl (skb, e)) ↦ elim a.outcome [
          | inl (n, _, _) ↦ absurd (ground (arith, e, n))
          | inr (_, less) ↦
              rw (a.returned, e)
                (record {
                  left = suc quota;
                  result = a.result;
                  out = free_skb skb ∷ [];
                  returned = refl;
                  ring = a.ring;
                  table = rw a.same_stas t;
                  drops = 1;
                  within = omega arith;
                  conserved = omega (arith, ap held_in a.same_stas, less);
                  accounted = λ weight. omega (
                    arith,
                    ap (content_in weight) a.same_stas,
                    ap (sum_by weight) (arrived ∙ ap (λ x. arrival mode env x rest) e),
                  );
                  taken = omega (arith, less);
                  received = omega (arith, a.same_received);
                  counts = omega (arith, same);
                  ended = inr (inr refl);
                })
        ]
        | inr (inr (skb, e)) ↦ elim a.outcome [
          | inl (n, _, _) ↦ absurd (ground (arith, e, n))
          | inr (_, less) ↦
              let b = handle_frame-Handled mode env now skb a.result (rw a.same_stas t) in
              let c = rx_loop-Polls now quota b.result (rw b.same_ring a.ring) b.table in
              rw (a.returned, e, b.returned, c.returned)
                (record {
                  left = c.left;
                  result = c.result;
                  out = b.out ++ c.out;
                  returned = refl;
                  ring = c.ring;
                  table = c.table;
                  drops = c.drops;
                  within = omega (arith, c.within);
                  conserved = omega (
                    arith,
                    less,
                    c.conserved,
                    b.conserved,
                    ap used b.same_ring,
                    ap held_in a.same_stas,
                    length-append b.out c.out,
                  );
                  accounted = λ weight. omega (
                    arith,
                    ap (content_in weight) a.same_stas,
                    ap (sum_by weight) (arrived ∙ ap (λ x. arrival mode env x rest) e),
                    ap (λ v. sum_by weight (arrivals mode env quota v)) b.same_ring,
                    b.accounted weight,
                    c.accounted weight,
                    weight_out-append weight b.out c.out,
                  );
                  taken = omega (arith, less, c.taken, ap used b.same_ring);
                  received =
                      omega
                        (arith, c.received, b.received, a.same_received, passed-append b.out c.out);
                  counts = omega (arith, c.counts, b.counts, same, passed-append b.out c.out);
                  ended = c.ended;
                })
        ]
      ]

  -- What a poll leaves with `budget` frames allowed: `done` frames processed and at most one
  -- dropped besides, the ring refilled with `added` buffers, and the polling ended just if no more
  -- than one frame was processed.
  pub record Polled (budget : ℕ) (s : RxPath) (m : Outcome (ℕ × Bool × RxPath × List RxEvent))
      : Type 0 where
    pub done : ℕ
    pub completes : Bool
    pub result : RxPath
    pub out : List RxEvent
    pub returned : m ≡ returns (done, completes, result, out)
    pub ring : IsRing result.ring
    pub table : IsTable result.stas
    pub within : done ≤ budget
    pub completes_if : completes ≡ leb done 1
    pub drops : ℕ
    pub drops_le : drops ≤ 1
    pub added : ℕ
    pub used_by : used result.ring + done + drops ≡ used s.ring + added
    pub conserved : held_in result.stas + length out ≡ held_in s.stas + done + drops
    pub accounted :
        (weight : Skb → ℕ)
        → content_in weight result.stas + weight_out weight out
          ≡ content_in weight s.stas + sum_by weight (arrivals mode env budget s.ring)
    pub received : result.received ≡ s.received + passed out
    pub counts : counted result ≡ counted s + passed out

  -- From a well-formed ring and station table a poll returns, keeps both well-formed and
  -- processes no more frames than its budget. The frames held in windows before and those taken off
  -- the ring are, each just once, held after, passed on or freed: their sum is the same for every
  -- weight given to frames. Every frame passed on is counted by the interface; and
  -- the polling ends, with its interrupt unmasked, just if at most one frame was processed.
  pub poll_rx-Polled :
      (now budget : ℕ) (s : RxPath)
      → IsRing s.ring
      → IsTable s.stas
      → Polled budget s (poll_rx mode env now budget s)
  unfolding poll_rx rx_handle
  poll_rx-Polled now budget s h t =
      let a = rx_loop-Polls now budget s h t in
      let b = rx_refill-Refills env.bufs a.result.ring.size 0 a.result.ring a.ring in
      rw a.returned (record {
        done = budget - a.left;
        completes = leb (budget - a.left) 1;
        result = record a.result {
          ring = (rx_refill env.bufs a.result.ring.size 0 a.result.ring).1;
        };
        out = a.out;
        returned = refl;
        ring = b.ring;
        table = a.table;
        within = omega arith;
        completes_if = refl;
        drops = a.drops;
        drops_le = elim a.ended [
          | inl (_, z) ↦ omega (arith, z)
          | inr (inl (_, z)) ↦ omega (arith, z)
          | inr (inr z) ↦ omega (arith, z)
        ];
        added = b.added;
        used_by = omega (arith, a.taken, a.within, b.used_more);
        conserved = omega (arith, a.conserved, a.taken, a.within);
        accounted = a.accounted;
        received = a.received;
        counts = a.counts;
      })
