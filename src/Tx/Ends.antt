-- ===== src/Tx/Ends.antt =====
-- How `wil_tx_vring` leaves a ring: with the frame in its slots, or with what was mapped released.
use mathlib.Core.Path.{subst}
use wigig_wil.Prelude.{
  ℕ, suc, ◌+◌, ◌-◌, ◌%◌, ◌≡◌, ◌≢◌, ◌<◌, ◌≤◌, ◌∙◌, refl, sym, ap, Bool, Option, none, some, List, [],
  ◌++◌, length, get_or, set, get_or-set_self, get_or-set_ne, length-set, arith,
}
use wigig_wil.Vring.{Vring, vring_avail_tx, vring_advance_head}
use wigig_wil.Vring.Refill.{vring_avail_tx-vring_advance_head}
use native.Mathlib.Nat.{mod-lt}
use wigig_wil.Tx.Desc.{TxSkb, last_desc}
use wigig_wil.Tx.Send.{
  TxVring, TxPath, no_tx_desc, no_ref, avail_tx, tx_slot, ref_at, write_desc, tx_unmap, tx_finish,
}
use wigig_wil.Tx.Slots.{posted, mapped, unmapped, rev_onto, tx_slot-ne, posted-said, read-set}
use wigig_wil.Tx.Unmap.{tx_unmap-Unmapped}
use wigig_wil.Tx.Fill.{IsTxVring, Prefix}

-- the frame `n` sent in `k` descriptors
pub record Sent (n k : ℕ) (s s' : TxPath) : Type 0 where
  pub known : n < length s'.skbs
  pub ring : IsTxVring s'.ring
  pub same_tail : s'.ring.swtail ≡ s.ring.swtail
  pub fewer : avail_tx s'.ring + k ≡ avail_tx s.ring
  pub refs : (ref_at s' n).refs ≡ (ref_at s n).refs + k
  pub maps : mapped s'.log ≡ posted (record s'.ring { swhead = s.ring.swhead }) k ++ mapped s.log
  pub none_unmapped : unmapped s'.log ≡ unmapped s.log
  pub held :
      (j : ℕ)
      → j < k
      → (get_or s'.ring.ctx (tx_slot s.ring j) none ≡ some n)
        × ((get_or s'.ring.va (tx_slot s.ring j) no_tx_desc).status ≡ 0)
  pub others :
      (j : ℕ)
      → k ≤ j
      → j < s.ring.size
      → (get_or s'.ring.ctx (tx_slot s.ring j) none ≡ get_or s.ring.ctx (tx_slot s.ring j) none)
        × (get_or s'.ring.va (tx_slot s.ring j) no_tx_desc
            ≡ get_or s.ring.va (tx_slot s.ring j) no_tx_desc)

-- the frame `n` given up after mappings for at most `k` descriptors
pub record Undone (n k : ℕ) (s s' : TxPath) : Type 0 where
  pub known : n < length s'.skbs
  pub ring : IsTxVring s'.ring
  pub same_head : s'.ring.swhead ≡ s.ring.swhead
  pub same_tail : s'.ring.swtail ≡ s.ring.swtail
  pub refs : (ref_at s' n).refs ≡ (ref_at s n).refs
  pub done : List (ℕ × ℕ)
  pub maps : mapped s'.log ≡ done ++ mapped s.log
  pub unmaps : unmapped s'.log ≡ rev_onto done (unmapped s.log)
  pub others :
      (j : ℕ)
      → k ≤ j
      → j < s.ring.size
      → (get_or s'.ring.ctx (tx_slot s.ring j) none ≡ get_or s.ring.ctx (tx_slot s.ring j) none)
        × (get_or s'.ring.va (tx_slot s.ring j) no_tx_desc
            ≡ get_or s.ring.va (tx_slot s.ring j) no_tx_desc)

-- the queues stopped at most
pub record Refused (s s' : TxPath) : Type 0 where
  pub same_ring : s'.ring ≡ s.ring
  pub same_skbs : s'.skbs ≡ s.skbs
  pub same_maps : mapped s'.log ≡ mapped s.log
  pub same_unmaps : unmapped s'.log ≡ unmapped s.log

pub avail_tx-advance :
    (v : TxVring) (n : ℕ)
    → v.swtail < v.size
    → v.swhead < v.size
    → n ≤ avail_tx v
    → avail_tx (record v { swhead = (v.swhead + n) % v.size }) + n ≡ avail_tx v
unfolding vring_avail_tx vring_advance_head
avail_tx-advance v n t h le =
    let w : Vring = record {
      size = v.size;
      swtail = v.swtail;
      swhead = v.swhead;
      va = [];
      ctx = [];
    } in
    vring_avail_tx-vring_advance_head w n t h le

slot_same :
    (v w : TxVring) → v.size ≡ w.size → v.swhead ≡ w.swhead → (m : ℕ) → tx_slot w m ≡ tx_slot v m
slot_same v w e h m = ap (λ a. (a + m) % w.size) (sym h) ∙ ap (λ b. (v.swhead + m) % b) (sym e)

pub avail_same :
    (v w : TxVring)
    → v.size ≡ w.size
    → v.swhead ≡ w.swhead
    → v.swtail ≡ w.swtail
    → avail_tx v ≡ avail_tx w
avail_same v w e h t =
    ap (λ a. a - (a + v.swhead - v.swtail) % a - 1) e
    ∙ ap (λ a. w.size - (w.size + a - v.swtail) % w.size - 1) h
    ∙ ap (λ a. w.size - (w.size + w.swhead - a) % w.size - 1) t

module _ (hw_csum : Bool) (vring_index : ℕ) (f : TxSkb) (dma : ℕ → Option ℕ) where
  tx_finish-Sent :
      (s0 s : TxPath)
      → Prefix f.skb (suc (length f.frags)) s0 s
      → suc (length f.frags) ≤ avail_tx s.ring
      → Sent f.skb (suc (length f.frags)) s0 (tx_finish hw_csum vring_index f dma s)
  unfolding tx_finish write_desc last_desc
  tx_finish-Sent s0 s h le =
      let v = s.ring in
      let n : ℕ = length f.frags in
      let i = tx_slot v n in
      let d = last_desc (get_or v.va i no_tx_desc) vring_index in
      let size_pos : 0 < v.size = omega (arith, h.ring.head_lt) in
      record {
        known = h.known;
        ring = record {
          tail_lt = h.ring.tail_lt;
          head_lt = mod-lt (v.swhead + (n + 1)) size_pos;
          va_length = length-set v.va i d ∙ h.ring.va_length;
          ctx_length = h.ring.ctx_length;
        };
        same_tail = h.same_tail;
        fewer =
            let after =
              avail_tx-advance v (n + 1) h.ring.tail_lt h.ring.head_lt (omega (arith, le)) in
            omega (arith, after, avail_same v s0.ring h.same_size h.same_head h.same_tail);
        refs = h.refs;
        maps =
            h.maps
            ∙ ap (λ xs. xs ++ mapped s0.log) (sym (posted-said v i (suc n) d refl))
            ∙ ap
                (λ hd.
                  posted (record v { va = set v.va i d; swhead = hd }) (suc n) ++ mapped s0.log)
                h.same_head;
        none_unmapped = h.none_unmapped;
        held = λ m lt. rw (slot_same v s0.ring h.same_size h.same_head m) (
          (h.held m lt).0,
          read-set (λ x. x.status) v.va i (tx_slot v m) d refl ∙ (h.held m lt).1,
        );
        others = λ m m_le lt.
            let m_lt : m < v.size = omega (arith, lt, h.same_size) in
            let apart : i ≢ tx_slot v m =
              λ e. tx_slot-ne v n m h.ring.head_lt (omega (arith, m_le)) m_lt (sym e) in
            rw (slot_same v s0.ring h.same_size h.same_head m) (
              (h.others m m_le m_lt).0,
              get_or-set_ne v.va i (tx_slot v m) d no_tx_desc apart ∙ (h.others m m_le m_lt).1,
            );
      }

  pub all-Sent :
      (s0 : TxPath) (t : Bool × ℕ × TxPath)
      → Prefix f.skb t.1 s0 t.2
      → t.1 ≡ suc (length f.frags)
      → suc (length f.frags) ≤ avail_tx s0.ring
      → Sent f.skb (suc (length f.frags)) s0 (tx_finish hw_csum vring_index f dma t.2)
  all-Sent s0 t h e le =
      let same = avail_same t.2.ring s0.ring h.same_size h.same_head h.same_tail in
      tx_finish-Sent s0 t.2 (subst (λ k. Prefix f.skb k s0 t.2) e h) (omega (arith, same, le))

  -- the frame with its control block set up
  abbrev pub started : TxPath → TxPath
  started s =
      let cb = record (ref_at s f.skb) { sngl_mapped = s.ring.swhead; nodma_desc = none } in
      record s { skbs = set s.skbs f.skb cb }

  pub started-Prefix :
      (s : TxPath) → IsTxVring s.ring → f.skb < length s.skbs → Prefix f.skb 0 s (started s)
  started-Prefix s h known =
      let cb = record (ref_at s f.skb) { sngl_mapped = s.ring.swhead; nodma_desc = none } in
      record {
        ring = h;
        same_head = refl;
        same_tail = refl;
        same_size = refl;
        known = omega (arith, known, length-set s.skbs f.skb cb);
        maps = refl;
        none_unmapped = refl;
        refs = ap (λ r. r.refs) (get_or-set_self s.skbs f.skb cb no_ref known) ∙ omega arith;
        held = λ j lt. absurd (omega arith);
        others = λ j le lt. (refl, refl);
      }

  -- the clean-up of a prefix of the segments
  pub prefix-Undone :
      (j : ℕ) (s0 s : TxPath)
      → Prefix f.skb j s0 s
      → j ≤ suc (length f.frags)
      → suc (length f.frags) ≤ s0.ring.size
      → Undone f.skb (suc (length f.frags)) s0 (tx_unmap hw_csum vring_index f dma j s)
  prefix-Undone j s0 s h le fits =
      let v = s.ring in
      let u =
        tx_unmap-Unmapped hw_csum vring_index f dma j s h.ring.head_lt (omega (arith, h.same_size))
          h.known in
      let s' = tx_unmap hw_csum vring_index f dma j s in
      record {
        known = u.known;
        ring = record {
          tail_lt = omega (arith, u.same_tail, u.same_size, h.ring.tail_lt);
          head_lt = omega (arith, u.same_head, u.same_size, h.ring.head_lt);
          va_length = u.va_length ∙ h.ring.va_length ∙ sym u.same_size;
          ctx_length = ap (λ c. length c) u.same_ctx ∙ h.ring.ctx_length ∙ sym u.same_size;
        };
        same_head = u.same_head ∙ h.same_head;
        same_tail = u.same_tail ∙ h.same_tail;
        refs = omega (arith, u.refs, h.refs);
        done = posted v j;
        maps = u.same_maps ∙ h.maps;
        unmaps = u.unmaps ∙ ap (λ xs. rev_onto (posted v j) xs) h.none_unmapped;
        others = λ m m_le lt.
            let m_lt : m < v.size = omega (arith, lt, h.same_size) in
            rw (slot_same v s0.ring h.same_size h.same_head m) (
              ap (λ c. get_or c (tx_slot v m) none) u.same_ctx
                  ∙ (h.others m (omega (arith, m_le)) m_lt).0,
              u.others m (omega (arith, m_le)) m_lt ∙ (h.others m (omega (arith, m_le)) m_lt).1,
            );
      }
