-- ===== src/Tx/Segment.antt =====
-- The end of `wil_tx_vring_tso`: what was mapped is released, or the head moves on.
use mathlib.Core.Path.{subst}
use wigig_wil.Prelude.{
  ℕ, zero, suc, ◌+◌, ◌-◌, ◌*◌, ◌≡◌, ◌<◌, ◌≤◌, ◌⊎◌, inl, inr, ◌∙◌, refl, sym, ap, ltb, Bool, true,
  false, if◌then◌else◌, Option, List, [], ◌∷◌, length, get_or, set, get_or-set_self, length-set,
  Outcome, returns, arith,
}
use wigig_wil.Tx.Desc.{TxDesc, TxSkb, set_tx_desc_count}
use wigig_wil.Tx.Send.{
  TxOp, unmap_single, unmap_page, TxPath, TxResult, tx_ok, tx_no_mem, tx_invalid, no_tx_desc,
  no_ref, avail_tx, tx_slot, ref_at, kfree_skb, write_desc,
}
use wigig_wil.Tx.Fill.{IsTxVring}
use wigig_wil.Tx.Tso.{Tso, edit_desc, end_chunk, tso_frags, tso_unmap, tso_finish}
use native.Mathlib.Nat.{mod-lt}
use Prim.Native.Nat.{bit_or}
use wigig_wil.Tx.Slots.{said}
use wigig_wil.Prelude.{sum_by, ◌^◌}
use wigig_wil.Tx.Ends.{avail_same, avail_tx-advance}
use wigig_wil.Tx.Holds.{
  page_bytes, edit_desc-Edited, Edited-trans, Holds, Edited-Holds, end_chunk-Edited,
}
use wigig_wil.Tx.Pieces.{Loop, Runs, lag-le, tso_frag-Runs}

-- the bytes of a list of fragments
abbrev pub total : List ℕ → ℕ
total lens = sum_by (λ len. len) lens

-- the frame `n` sent in `k` descriptors, with `bytes` of its fragments
pub record TsoSent (n bytes : ℕ) (s s' : TxPath) : Type 0 where
  pub k : ℕ
  pub ring : IsTxVring s'.ring
  pub same_tail : s'.ring.swtail ≡ s.ring.swtail
  pub fewer : avail_tx s'.ring + k ≡ avail_tx s.ring
  pub refs : (ref_at s' n).refs ≡ (ref_at s n).refs + k
  pub pages : page_bytes s'.log ≡ page_bytes s.log + bytes

-- the frame `n` given up
pub record TsoUndone (n : ℕ) (s s' : TxPath) : Type 0 where
  pub ring : IsTxVring s'.ring
  pub same_head : s'.ring.swhead ≡ s.ring.swhead
  pub same_tail : s'.ring.swtail ≡ s.ring.swtail
  pub refs : (ref_at s' n).refs ≡ (ref_at s n).refs

pub record TsoEnds (f : TxSkb) (s : TxPath) (m : Outcome (TxResult × TxPath)) : Type 0 where
  pub result : TxResult × TxPath
  pub returned : m ≡ returns result
  pub ends :
      (result.0 ≡ tx_no_mem)
        × (avail_tx s.ring < length f.frags * 3 + 1)
        × (result.1.ring ≡ s.ring)
        × (result.1.skbs ≡ s.skbs)
      ⊎ (result.0 ≡ tx_invalid) × TsoUndone f.skb s result.1
      ⊎ (result.0 ≡ tx_ok) × TsoSent f.skb (total f.frags) s result.1

module _ (vring_index : ℕ) (f : TxSkb) (dma : ℕ → Option ℕ) where
  pub tso_frags-Runs :
      (fuel avail : ℕ) (lens : List ℕ) (sent room : ℕ) (s0 : TxPath) (t : Tso)
      → Loop vring_index f dma avail sent room s0 t
      → 1 ≤ f.gso_size
      → 2 * avail ≤ fuel
      → Runs vring_index f dma avail
          (sent + total lens)
          s0
          (tso_frags vring_index f dma fuel avail lens t)
  unfolding tso_frags
  tso_frags-Runs fuel avail [] sent room s0 t h pos le = record {
    result = (true, t);
    returned = refl;
    fine =
        inl (refl, (room, subst (λ x. Loop vring_index f dma avail x room s0 t) (omega arith) h));
  }
  tso_frags-Runs fuel avail (len ∷ lens) sent room s0 t h pos le =
      let r =
        tso_frag-Runs vring_index f dma fuel avail len sent room s0 t h pos
          (omega (arith, le, h.used_pos, h.used_le, lag-le vring_index f dma room)) in
      let go = tso_frags vring_index f dma fuel avail lens r.result.1 in
      elim r.fine [
        | inl (ok, (room', h')) ↦
            let rest = tso_frags-Runs fuel avail lens (sent + len) room' s0 r.result.1 h' pos le in
            subst
              (λ x.
                Runs vring_index f dma avail x s0
                  (tso_frags vring_index f dma fuel avail (len ∷ lens) t))
              (omega arith)
              (record {
                result = rest.result;
                returned =
                    rw (r.returned, tso_frags)
                      (ap (λ b. if b then go else returns (false, r.result.1)) ok ∙ rest.returned);
                fine = rest.fine;
              })
        | inr (bad, (x, h')) ↦ record {
          result = (false, r.result.1);
          returned =
              rw (r.returned, tso_frags)
                (ap (λ b. if b then go else returns (false, r.result.1)) bad);
          fine = inr (refl, (x, h'));
        }
      ]

  pub tso_unmap-Undone :
      (j x : ℕ) (s0 s : TxPath)
      → IsTxVring s0.ring
      → Holds f.skb j x s0 s
      → TsoUndone f.skb s0 (tso_unmap vring_index f dma j s)
  unfolding tso_unmap write_desc kfree_skb
  tso_unmap-Undone zero x s0 s w h = record {
    ring = record {
      tail_lt = omega (arith, w.tail_lt, h.same_tail, h.same_size);
      head_lt = omega (arith, w.head_lt, h.same_head, h.same_size);
      va_length = h.va_length ∙ sym h.same_size;
      ctx_length = h.ctx_length ∙ sym h.same_size;
    };
    same_head = h.same_head;
    same_tail = h.same_tail;
    refs = omega (arith, h.refs);
  }
  tso_unmap-Undone (suc j) x s0 s w h =
      let i = tx_slot s.ring (suc j) in
      let ref = record (ref_at s f.skb) { refs = (ref_at s f.skb).refs - 1 } in
      let d = get_or s.ring.va i no_tx_desc in
      let b = ltb (ref_at s f.skb).sngl_mapped i in
      let op : TxOp = if b then unmap_page (said d) else unmap_single (said d) in
      let d' = record d { status = 1 } in
      let s1 : TxPath = record {
        ring = record s.ring { va = set s.ring.va i d' };
        skbs = set s.skbs f.skb ref;
        log = op ∷ s.log;
      } in
      tso_unmap-Undone j x s0 s1 w (record {
        same_size = h.same_size;
        same_head = h.same_head;
        same_tail = h.same_tail;
        va_length = length-set s.ring.va i d' ∙ h.va_length;
        ctx_length = h.ctx_length;
        known = omega (arith, h.known, length-set s.skbs f.skb ref);
        refs =
            ap (λ r. r.refs) (get_or-set_self s.skbs f.skb ref no_ref h.known)
            ∙ omega (arith, h.refs);
        bytes = bytes-op b (said d) s.log ∙ h.bytes;
      })
    where
      bytes-op :
          (b : Bool) (m : ℕ × ℕ) (log : List TxOp)
          → page_bytes ((if b then unmap_page m else unmap_single m) ∷ log) ≡ page_bytes log
      bytes-op true m log = refl
      bytes-op false m log = refl

  pub tso_finish-Sent :
      (sent room : ℕ) (s0 : TxPath) (t : Tso)
      → IsTxVring s0.ring
      → Loop vring_index f dma (avail_tx s0.ring) sent room s0 t
      → TsoSent f.skb sent s0 (tso_finish vring_index f dma t)
  unfolding tso_finish
  tso_finish-Sent sent room s0 t w l =
      let mark : TxDesc → TxDesc = λ d. record d { dma_d0 = bit_or d.dma_d0 (3 * 2 ^ 11) } in
      let s = end_chunk vring_index f dma t in
      let s1 = edit_desc (t.used - 1) mark s in
      let s2 = edit_desc 0 (λ d. set_tx_desc_count d t.used) s1 in
      let e = Edited-trans (end_chunk-Edited vring_index f dma t) (
        Edited-trans (edit_desc-Edited (t.used - 1) mark s)
          (edit_desc-Edited 0 (λ d. set_tx_desc_count d t.used) s1)) in
      let h = Edited-Holds f.skb t.used sent s0 t.path s2 l.holds e in
      let tail_lt : s2.ring.swtail < s2.ring.size =
        omega (arith, w.tail_lt, h.same_tail, h.same_size) in
      let head_lt : s2.ring.swhead < s2.ring.size =
        omega (arith, w.head_lt, h.same_head, h.same_size) in
      let same = avail_same s2.ring s0.ring h.same_size h.same_head h.same_tail in
      record {
        k = t.used;
        ring = record {
          tail_lt = tail_lt;
          head_lt = mod-lt (s2.ring.swhead + t.used) (omega (arith, head_lt));
          va_length = h.va_length ∙ sym h.same_size;
          ctx_length = h.ctx_length ∙ sym h.same_size;
        };
        same_tail = h.same_tail;
        fewer =
            avail_tx-advance s2.ring t.used tail_lt head_lt (omega (arith, l.used_le, same)) ∙ same;
        refs = h.refs;
        pages = h.bytes;
      }
