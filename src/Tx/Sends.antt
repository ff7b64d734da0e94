-- ===== src/Tx/Sends.antt =====
-- `wil_tx_vring`, whatever of its mappings fails.
use wigig_wil.Prelude.{
  ℕ, suc, ◌+◌, ◌/◌, ◌≡◌, ◌<◌, ◌≤◌, ◌⊎◌, inl, inr, ◌∙◌, refl, sym, ap, ltb, Bool, true, false, ◌&&◌,
  if◌then◌else◌, Bool-cases, Option-cases, Option, is_some, List, ◌∷◌, ◌++◌, length, arith,
}
use wigig_wil.Tx.Desc.{TxSkb}
use wigig_wil.Tx.Send.{
  TxOp, map_single, stop_queues, TxPath, TxResult, tx_ok, tx_no_mem, tx_invalid, avail_tx, post,
  tx_frags, tx_unmap, tx_map, tx_vring,
}
use wigig_wil.Tx.Slots.{posted, mapped, unmapped, rev_onto}
use wigig_wil.Tx.Fill.{IsTxVring, post-Prefix, all_map, tx_frags-Ran}
use wigig_wil.Tx.Ends.{Sent, Undone, Refused, started, started-Prefix, prefix-Undone, all-Sent}

module _ (hw_csum : Bool) (vring_index : ℕ) (f : TxSkb) (dma : ℕ → Option ℕ) where
  -- Do all mappings of the frame succeed?
  abbrev pub maps_all : Bool
  maps_all = is_some (dma 0) && all_map hw_csum vring_index f dma f.frags 1

  -- how a transmission ends, with `n` descriptors wanted
  abbrev pub Ends : ℕ → TxPath → TxResult × TxPath → Type 0
  Ends n s r =
      (avail_tx s.ring < n) × (r.0 ≡ tx_no_mem) × Refused s r.1
      ⊎ (n ≤ avail_tx s.ring) × (maps_all ≡ true) × (r.0 ≡ tx_ok) × Sent f.skb n s r.1
      ⊎ (n ≤ avail_tx s.ring) × (maps_all ≡ false) × (r.0 ≡ tx_invalid) × Undone f.skb n s r.1

  tx_map-Ends :
      (s : TxPath)
      → IsTxVring s.ring
      → f.skb < length s.skbs
      → suc (length f.frags) ≤ avail_tx s.ring
      → Ends (suc (length f.frags)) s (tx_map hw_csum vring_index f dma s)
  unfolding tx_map tx_unmap
  tx_map-Ends s h known le =
      let start = started-Prefix hw_csum vring_index f dma s h known in
      let fits : suc (length f.frags) ≤ s.ring.size = omega (arith, le) in
      elim (Option-cases (dma 0)) [
        | inl e ↦
            let u =
              prefix-Undone hw_csum vring_index f dma 0 s (started hw_csum vring_index f dma s)
                start (omega arith) fits in
            rw (e, tx_map) (inr (inr (le, refl, refl, u)))
        | inr (pa, e) ↦
            let s1 =
              post hw_csum vring_index f dma 0 pa f.headlen (map_single (pa, f.headlen))
                (started hw_csum vring_index f dma s) in
            let one =
              post-Prefix hw_csum vring_index f dma 0 pa f.headlen (map_single (pa, f.headlen)) s
                (started hw_csum vring_index f dma s) start (omega (arith, fits)) refl refl in
            let r =
              tx_frags-Ran hw_csum vring_index f dma f.frags 1 s s1 one (omega (arith, fits)) in
            let t = tx_frags hw_csum vring_index f dma f.frags 1 s1 in
            elim (Bool-cases t.0) [
              | inl ok ↦
                  rw (e, tx_map)
                    (rw ok (
                      inr (
                        inl (
                          le,
                          sym r.ok_lem ∙ ok,
                          refl,
                          all-Sent hw_csum vring_index f dma s t r.prefix
                              (omega (arith, r.complete ok)) le,
                        ))))
              | inr bad ↦
                  rw (e, tx_map)
                    (rw bad (
                      inr (
                        inr (
                          le,
                          sym r.ok_lem ∙ bad,
                          refl,
                          prefix-Undone hw_csum vring_index f dma t.1 s t.2 r.prefix
                              (omega (arith, r.at_most)) fits,
                        ))))
            ]
      ]

  -- another log with the same mappings and releases
  relog :
      (n : ℕ) (s : TxPath) (log : List TxOp) (r : TxResult × TxPath)
      → mapped log ≡ mapped s.log
      → unmapped log ≡ unmapped s.log
      → Ends n (record s { log = log }) r
      → Ends n s r
  relog n s log r m u (inl (lt, e, h)) = inl (
    lt,
    e,
    record {
      same_ring = h.same_ring;
      same_skbs = h.same_skbs;
      same_maps = h.same_maps ∙ m;
      same_unmaps = h.same_unmaps ∙ u;
    },
  )
  relog n s log r m u (inr (inl (le, all, e, h))) = inr (
      inl (
        le,
        all,
        e,
        record {
          known = h.known;
          ring = h.ring;
          same_tail = h.same_tail;
          fewer = h.fewer;
          refs = h.refs;
          maps = h.maps ∙ ap (λ xs. posted (record r.1.ring { swhead = s.ring.swhead }) n ++ xs) m;
          none_unmapped = h.none_unmapped ∙ u;
          held = h.held;
          others = h.others;
        },
      ))
  relog n s log r m u (inr (inr (le, all, e, h))) = inr (
      inr (
        le,
        all,
        e,
        record {
          known = h.known;
          ring = h.ring;
          same_head = h.same_head;
          same_tail = h.same_tail;
          refs = h.refs;
          done = h.done;
          maps = h.maps ∙ ap (λ xs. h.done ++ xs) m;
          unmaps = h.unmaps ∙ ap (λ xs. rev_onto h.done xs) u;
          others = h.others;
        },
      ))

  -- On a well-formed ring a transmission ends in one of three ways. Without a free descriptor for
  -- each segment it is refused, with the ring and the frame unchanged. With these, if all mappings
  -- succeed, the frame is sent: as many descriptors are taken off the free ones, they say the
  -- mappings in order, are owned by the card and hold a reference each. Else it is given up: the
  -- mappings made are released, each once, and the head and the references are as before. Slots
  -- beyond the wanted ones never change.
  pub tx_vring-Ends :
      (s : TxPath)
      → IsTxVring s.ring
      → f.skb < length s.skbs
      → Ends (suc (length f.frags)) s (tx_vring hw_csum vring_index f dma s)
  unfolding tx_vring
  tx_vring-Ends s h known =
      let low = ltb (avail_tx s.ring) (s.ring.size / 8) in
      let log : List TxOp = if low then stop_queues ∷ s.log else s.log in
      let s1 = record s { log = log } in
      let n = suc (length f.frags) in
      relog n s log (tx_vring hw_csum vring_index f dma s) (mapped-stop low s.log)
        (unmapped-stop low s.log)
        (elim (Bool-cases (ltb (avail_tx s.ring) (1 + length f.frags))) [
          | inl few ↦
              let lt : avail_tx s.ring < n = ground (arith, few) in
              rw (few, tx_vring)
                (inl (
                  lt,
                  refl,
                  record {
                    same_ring = refl;
                    same_skbs = refl;
                    same_maps = refl;
                    same_unmaps = refl;
                  },
                ))
          | inr fits ↦
              let le : n ≤ avail_tx s.ring = ground (arith, fits) in
              rw (fits, tx_vring) (tx_map-Ends s1 h known le)
        ])
    where
      mapped-stop :
          (b : Bool) (log : List TxOp) → mapped (if b then stop_queues ∷ log else log) ≡ mapped log
      mapped-stop true log = refl
      mapped-stop false log = refl

      unmapped-stop :
          (b : Bool) (log : List TxOp)
          → unmapped (if b then stop_queues ∷ log else log) ≡ unmapped log
      unmapped-stop true log = refl
      unmapped-stop false log = refl
