-- ===== src/Tx/Header.antt =====
-- The header and the linear data of `wil_tx_vring_tso`.
use wigig_wil.Prelude.{
  ℕ, ◌+◌, ◌-◌, ◌==◌, ◌≡◌, ◌<◌, ◌≤◌, inl, inr, ◌∙◌, refl, ap, leb, true, if◌then◌else◌, Bool-cases,
  Option-cases, Option, some, length, get_or, set, get_or-set_self, length-set, arith,
}
use wigig_wil.Tx.Desc.{TxSkb}
use wigig_wil.Tx.Send.{map_single, TxPath, no_ref, avail_tx, tx_slot, ref_at, skb_get, write_desc}
use wigig_wil.Tx.Tso.{left, below, Tso, hdrlen, post_tso, set_sngl, tso_header, tso_linear}
use wigig_wil.Tx.Holds.{Holds, post_tso-Holds}
use wigig_wil.Tx.Pieces.{Loop, Fine}

module _ (vring_index : ℕ) (f : TxSkb) (dma : ℕ → Option ℕ) where
  pub tso_header-Loop :
      (pa : ℕ) (s0 s : TxPath)
      → Holds f.skb 0 0 s0 s
      → 1 ≤ avail_tx s0.ring
      → Loop vring_index f dma
          (avail_tx s0.ring)
          0
          f.gso_size
          s0
          (tso_header vring_index f dma pa s)
  unfolding tso_header skb_get write_desc
  tso_header-Loop pa s0 s h some_avail =
      let i = tx_slot s.ring 0 in
      let ref = record (ref_at s f.skb) { refs = (ref_at s f.skb).refs + 1 } in
      let skbs = set s.skbs f.skb ref in
      let cb = record (get_or skbs f.skb no_ref) { sngl_mapped = i; nodma_desc = some i } in
      let known : f.skb < length skbs = omega (arith, h.known, length-set s.skbs f.skb ref) in
      record {
        holds = record {
          same_size = h.same_size;
          same_head = h.same_head;
          same_tail = h.same_tail;
          va_length = length-set s.ring.va i _ ∙ h.va_length;
          ctx_length = length-set s.ring.ctx i (some f.skb) ∙ h.ctx_length;
          known = omega (arith, known, length-set skbs f.skb cb);
          refs =
              ap (λ r. r.refs) (get_or-set_self skbs f.skb cb no_ref known)
              ∙ ap (λ r. r.refs) (get_or-set_self s.skbs f.skb ref no_ref h.known)
              ∙ omega (arith, h.refs);
          bytes = h.bytes;
        };
        used_pos = omega arith;
        used_le = some_avail;
        rem_lem = refl;
        room_le = omega arith;
      }

  pub header_used : (pa : ℕ) (s : TxPath) → (tso_header vring_index f dma pa s).used ≡ 1
  unfolding tso_header
  header_used pa s = refl

  abbrev pub linear_len : ℕ
  linear_len = f.headlen - hdrlen vring_index f dma

  pub tso_linear-Fine :
      (s0 : TxPath) (t : Tso)
      → Loop vring_index f dma (avail_tx s0.ring) 0 f.gso_size s0 t
      → t.used ≡ 1
      → 2 ≤ avail_tx s0.ring
      → linear_len ≤ f.gso_size
      → Fine vring_index f dma (avail_tx s0.ring) 0 s0 (tso_linear vring_index f dma t)
  unfolding tso_linear set_sngl
  tso_linear-Fine s0 t h one two small = elim (Bool-cases (linear_len == 0)) [
    | inl e ↦ rw (e, tso_linear) (inl (refl, (f.gso_size, h)))
    | inr ne ↦ elim (Option-cases (dma 1)) [
      | inl e ↦ rw (ne, tso_linear) (rw e (inr (refl, (0, h.holds))))
      | inr (pa, e) ↦
          let op = map_single (pa, linear_len) in
          let t1 = post_tso vring_index f dma pa linear_len 1 op t in
          let more =
            post_tso-Holds vring_index f dma pa linear_len 1 op 0 0 s0 t h.holds (omega arith) in
          let s = t1.path in
          let ref = record (ref_at s f.skb) { sngl_mapped = tx_slot s.ring 1 } in
          let fits : leb linear_len f.gso_size ≡ true = ground (arith, small) in
          rw (ne, tso_linear)
            (rw e (
              inl (
                refl,
                (
                  f.gso_size - linear_len,
                  record {
                    holds = record {
                      same_size = more.same_size;
                      same_head = more.same_head;
                      same_tail = more.same_tail;
                      va_length = more.va_length;
                      ctx_length = more.ctx_length;
                      known = omega (arith, more.known, length-set s.skbs f.skb ref);
                      refs =
                          ap (λ r. r.refs) (get_or-set_self s.skbs f.skb ref no_ref more.known)
                          ∙ more.refs;
                      bytes = more.bytes;
                    };
                    used_pos = omega arith;
                    used_le = omega (arith, one, two);
                    rem_lem =
                        ap
                          (λ b.
                            if b
                            then left (f.gso_size - linear_len)
                            else below (linear_len - f.gso_size))
                          fits;
                    room_le = omega arith;
                  },
                ),
              )))
    ]
  ]
