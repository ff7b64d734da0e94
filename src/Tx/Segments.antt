-- ===== src/Tx/Segments.antt =====
-- `wil_tx_vring_tso`: the descriptors that it takes and the bytes that it maps.
use mathlib.Core.Path.{subst}
use wigig_wil.Prelude.{
  ℕ, ◌+◌, ◌*◌, ◌/◌, ◌==◌, ◌≡◌, ◌<◌, ◌≤◌, ◌⊎◌, inl, inr, ◌∙◌, refl, ap, ltb, Bool, true, false,
  if◌then◌else◌, Bool-cases, Option-cases, Option, List, ◌∷◌, length, returns, arith,
}
use wigig_wil.Tx.Desc.{TxSkb, tcp_version}
use wigig_wil.Tx.Send.{
  TxOp, stop_queues, zero_ip_len, TxPath, TxResult, tx_ok, tx_no_mem, tx_invalid, avail_tx,
}
use wigig_wil.Tx.Fill.{IsTxVring}
use wigig_wil.Tx.Tso.{Tso, tso_frags, tso_header, tso_linear, tso_end, tso_map, tx_vring_tso}
use wigig_wil.Prelude.{◌>>=◌}
use wigig_wil.Tx.Holds.{page_bytes, Holds}
use wigig_wil.Tx.Pieces.{Loop, Fine, Runs}
use wigig_wil.Tx.Segment.{
  total, TsoSent, TsoUndone, TsoEnds, tso_frags-Runs, tso_unmap-Undone, tso_finish-Sent,
}
use wigig_wil.Tx.Header.{header_used, linear_len, tso_header-Loop, tso_linear-Fine}

module _ (vring_index : ℕ) (f : TxSkb) (dma : ℕ → Option ℕ) where
  -- how the mapping of a prefix of the data ends
  abbrev Ended : TxPath → TxResult × TxPath → Type 0
  Ended s0 r =
      (r.0 ≡ tx_invalid) × TsoUndone f.skb s0 r.1
      ⊎ (r.0 ≡ tx_ok) × TsoSent f.skb (total f.frags) s0 r.1

  tso_end-Ended :
      (s0 : TxPath) (p : Bool × Tso)
      → IsTxVring s0.ring
      → Fine vring_index f dma (avail_tx s0.ring) (total f.frags) s0 p
      → Ended s0 (tso_end vring_index f dma p)
  unfolding tso_end
  tso_end-Ended s0 p w (inl (ok, (room, l))) =
      rw (ok, tso_end)
        (inr (refl, tso_finish-Sent vring_index f dma (total f.frags) room s0 p.1 w l))
  tso_end-Ended s0 p w (inr (bad, (x, h))) =
      rw (bad, tso_end) (inl (refl, tso_unmap-Undone vring_index f dma p.1.used x s0 p.1.path w h))

  all-Runs :
      (s0 : TxPath) (room : ℕ) (t : Tso)
      → Loop vring_index f dma (avail_tx s0.ring) 0 room s0 t
      → 1 ≤ f.gso_size
      → Runs vring_index f dma
          (avail_tx s0.ring)
          (total f.frags)
          s0
          (tso_frags vring_index f dma (s0.ring.size + s0.ring.size) (avail_tx s0.ring) f.frags t)
  all-Runs s0 room t l pos =
      let avail = avail_tx s0.ring in
      let fuel : ℕ = s0.ring.size + s0.ring.size in
      subst
        (λ x. Runs vring_index f dma avail x s0 (tso_frags vring_index f dma fuel avail f.frags t))
        (omega arith)
        (tso_frags-Runs vring_index f dma fuel avail f.frags 0 room s0 t l pos (omega arith))

  tso_map-ends :
      (s0 : TxPath) (log : List TxOp)
      → IsTxVring s0.ring
      → f.skb < length s0.skbs
      → page_bytes log ≡ page_bytes s0.log
      → 2 ≤ avail_tx s0.ring
      → 1 ≤ f.gso_size
      → linear_len vring_index f dma ≤ f.gso_size
      → (r : TxResult × TxPath) × (tso_map vring_index f dma (record s0 { log = log }) ≡ returns r)
        × Ended s0 r
  unfolding tso_map
  tso_map-ends s0 log w known same two pos small =
      let s1 = record s0 { log = zero_ip_len (tcp_version f) ∷ log } in
      let h : Holds f.skb 0 0 s0 s1 = record {
        same_size = refl;
        same_head = refl;
        same_tail = refl;
        va_length = w.va_length;
        ctx_length = w.ctx_length;
        known = known;
        refs = omega arith;
        bytes = omega (arith, same);
      } in
      elim (Option-cases (dma 0)) [
        | inl e ↦
            rw (e, tso_map)
              (
                _,
                refl,
                inl (refl, record { ring = w; same_head = refl; same_tail = refl; refs = refl }),
              )
        | inr (pa, e) ↦
            let t = tso_header vring_index f dma pa s1 in
            let l = tso_header-Loop vring_index f dma pa s0 s1 h (omega (arith, two)) in
            let p = tso_linear vring_index f dma t in
            let size = s0.ring.size in
            let go =
              tso_frags vring_index f dma (size + size) (avail_tx s0.ring) f.frags p.1 >>= λ r.
              returns (tso_end vring_index f dma r) in
            let end_of = returns (tso_end vring_index f dma p) in
            elim (tso_linear-Fine vring_index f dma s0 t l (header_used vring_index f dma pa s1) two
              small) [
                | inl (ok, (room, l')) ↦
                    let r = all-Runs s0 room p.1 l' pos in
                    (
                      tso_end vring_index f dma r.result,
                      rw (e, tso_map) (ap (λ b. if b then go else end_of) ok ∙ rw r.returned refl),
                      tso_end-Ended s0 r.result w r.fine,
                    )
                | inr (bad, (x, h')) ↦ (
                  tso_end vring_index f dma p,
                  rw (e, tso_map) (ap (λ b. if b then go else end_of) bad),
                  tso_end-Ended s0 p w (inr (bad, (x, h'))),
                )
              ]
      ]

  -- On a well-formed ring, for a large segment with fragments whose linear data fits in a payload,
  -- the transmission returns: its loops end within the fuel. Without three free descriptors for
  -- each fragment and one more it is refused, with the ring and the frame unchanged. Else it
  -- fails, with the head and the number of references as before, or all bytes of the fragments
  -- are mapped, and as many references are taken as descriptors off the free ones.
  pub tx_vring_tso-TsoEnds :
      (s : TxPath)
      → IsTxVring s.ring
      → f.skb < length s.skbs
      → 1 ≤ f.gso_size
      → 1 ≤ length f.frags
      → linear_len vring_index f dma ≤ f.gso_size
      → TsoEnds f s (tx_vring_tso vring_index f dma s)
  unfolding tx_vring_tso
  tx_vring_tso-TsoEnds s w known pos frags small =
      let low = ltb (avail_tx s.ring) (s.ring.size / 8) in
      let log : List TxOp = if low then stop_queues ∷ s.log else s.log in
      let few = ltb (avail_tx s.ring) (length f.frags * 3 + 1) in
      elim (Bool-cases few) [
        | inl e ↦
            rw (e, tx_vring_tso)
              (record {
                result = (tx_no_mem, record s { log = log });
                returned = refl;
                ends = inl (refl, ground (arith, e), refl, refl);
              })
        | inr e ↦ elim (Bool-cases (tcp_version f == 0)) [
          | inl no_tcp ↦
              rw (e, tx_vring_tso)
                (rw no_tcp (record {
                  result = (tx_invalid, record s { log = log });
                  returned = refl;
                  ends = inr (
                      inl (
                        refl,
                        record { ring = w; same_head = refl; same_tail = refl; refs = refl },
                      ));
                }))
          | inr tcp ↦
              let two : 2 ≤ avail_tx s.ring = ground (arith, e, frags) in
              let m = tso_map-ends s log w known (bytes-stop low s.log) two pos small in
              rw (e, tx_vring_tso)
                (rw tcp (record { result = m.0; returned = m.1; ends = inr m.2 }))
        ]
      ]
    where
      bytes-stop :
          (b : Bool) (log : List TxOp)
          → page_bytes (if b then stop_queues ∷ log else log) ≡ page_bytes log
      bytes-stop true log = refl
      bytes-stop false log = refl
