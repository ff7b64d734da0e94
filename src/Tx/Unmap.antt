-- ===== src/Tx/Unmap.antt =====
-- The clean-up of `wil_tx_vring` after an error.
use wigig_wil.Prelude.{
  ℕ, zero, suc, ◌-◌, ◌≡◌, ◌≢◌, ◌<◌, ◌≤◌, ◌∙◌, refl, sym, ap, leb, Bool, true, false, if◌then◌else◌,
  Option, List, ◌∷◌, length, get_or, set, get_or-set_self, get_or-set_ne, length-set, arith,
}
use wigig_wil.Tx.Desc.{TxSkb}
use wigig_wil.Tx.Send.{
  TxOp, unmap_single, unmap_page, TxPath, no_tx_desc, no_ref, tx_slot, ref_at, kfree_skb,
  write_desc, tx_unmap,
}
use wigig_wil.Tx.Slots.{said, posted, mapped, unmapped, rev_onto, tx_slot-ne, posted-said}

module _ (hw_csum : Bool) (vring_index : ℕ) (f : TxSkb) (dma : ℕ → Option ℕ) where
  -- what the clean-up of `k` slots leaves of a ring whose slots they are
  pub record Unmapped (k : ℕ) (s s' : TxPath) : Type 0 where
    pub known : f.skb < length s'.skbs
    pub same_head : s'.ring.swhead ≡ s.ring.swhead
    pub same_tail : s'.ring.swtail ≡ s.ring.swtail
    pub same_size : s'.ring.size ≡ s.ring.size
    pub same_ctx : s'.ring.ctx ≡ s.ring.ctx
    pub va_length : length s'.ring.va ≡ length s.ring.va
    pub same_maps : mapped s'.log ≡ mapped s.log
    pub unmaps : unmapped s'.log ≡ rev_onto (posted s.ring k) (unmapped s.log)
    pub refs : (ref_at s' f.skb).refs ≡ (ref_at s f.skb).refs - k
    pub others :
        (j : ℕ)
        → k ≤ j
        → j < s.ring.size
        → get_or s'.ring.va (tx_slot s.ring j) no_tx_desc
          ≡ get_or s.ring.va (tx_slot s.ring j) no_tx_desc

  pub tx_unmap-Unmapped :
      (k : ℕ) (s : TxPath)
      → s.ring.swhead < s.ring.size
      → k ≤ s.ring.size
      → f.skb < length s.skbs
      → Unmapped k s (tx_unmap hw_csum vring_index f dma k s)
  unfolding tx_unmap write_desc kfree_skb
  tx_unmap-Unmapped zero s h le known = record {
    known = known;
    same_head = refl;
    same_tail = refl;
    same_size = refl;
    same_ctx = refl;
    va_length = refl;
    same_maps = refl;
    unmaps = refl;
    refs = omega arith;
    others = λ j le lt. refl;
  }
  tx_unmap-Unmapped (suc k) s h le known =
      let v = s.ring in
      let i = tx_slot v k in
      let d = get_or v.va i no_tx_desc in
      let d' = record d { status = 1 } in
      let single = leb i (ref_at s f.skb).sngl_mapped in
      let op : TxOp = if single then unmap_single (said d) else unmap_page (said d) in
      let ref = record (ref_at s f.skb) { refs = (ref_at s f.skb).refs - 1 } in
      let s1 : TxPath = record {
        ring = record v { va = set v.va i d' };
        skbs = set s.skbs f.skb ref;
        log = op ∷ s.log;
      } in
      let r =
        tx_unmap-Unmapped k s1 h (omega arith)
          (omega (arith, known, length-set s.skbs f.skb ref)) in
      record {
        known = r.known;
        same_head = r.same_head;
        same_tail = r.same_tail;
        same_size = r.same_size;
        same_ctx = r.same_ctx;
        va_length = r.va_length ∙ length-set v.va i d';
        same_maps = r.same_maps ∙ mapped-op single (said d) s.log;
        unmaps =
            r.unmaps
            ∙ ap (λ xs. rev_onto xs (unmapped (op ∷ s.log))) (posted-said v i k d' refl)
            ∙ ap (λ xs. rev_onto (posted v k) xs) (unmapped-op single (said d) s.log);
        refs =
            r.refs
            ∙ ap (λ x. x.refs - k) (get_or-set_self s.skbs f.skb ref no_ref known)
            ∙ omega arith;
        others = λ j le lt.
            let apart : i ≢ tx_slot v j = λ e. tx_slot-ne v k j h (omega (arith, le)) lt (sym e) in
            r.others j (omega (arith, le)) lt
            ∙ get_or-set_ne v.va i (tx_slot v j) d' no_tx_desc apart;
      }
    where
      mapped-op :
          (b : Bool) (m : ℕ × ℕ) (log : List TxOp)
          → mapped ((if b then unmap_single m else unmap_page m) ∷ log) ≡ mapped log
      mapped-op true m log = refl
      mapped-op false m log = refl

      unmapped-op :
          (b : Bool) (m : ℕ × ℕ) (log : List TxOp)
          → unmapped ((if b then unmap_single m else unmap_page m) ∷ log) ≡ m ∷ unmapped log
      unmapped-op true m log = refl
      unmapped-op false m log = refl
