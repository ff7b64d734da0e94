-- ===== src/Tx/Holds.antt =====
-- What the writes of `wil_tx_vring_tso` keep of a ring and a frame.
use wigig_wil.Prelude.{
  ℕ, ◌+◌, ◌-◌, ◌≡◌, ◌<◌, inl, inr, ◌∙◌, refl, ap, Option-cases, Option, some, List, [], ◌∷◌, length,
  get_or, get_or-set_self, length-set, arith,
}
use wigig_wil.Tx.Desc.{TxDesc, TxSkb, last_desc, set_tx_desc_count}
use wigig_wil.Tx.Send.{
  TxOp, map_single, map_page, unmap_single, unmap_page, doorbell, stop_queues, wake_queues,
  zero_ip_len, TxPath, no_ref, tx_slot, ref_at, skb_get, write_desc,
}
use wigig_wil.Tx.Tso.{Tso, edit_desc, end_chunk, post_tso}

-- the bytes of fragments that are mapped in a log
abbrev pub page_bytes : List TxOp → ℕ
page_bytes [] = 0
page_bytes (map_page (pa, len) ∷ log) = len + page_bytes log
page_bytes (map_single _ ∷ log) = page_bytes log
page_bytes (unmap_single _ ∷ log) = page_bytes log
page_bytes (unmap_page _ ∷ log) = page_bytes log
page_bytes (doorbell _ ∷ log) = page_bytes log
page_bytes (zero_ip_len _ ∷ log) = page_bytes log
page_bytes (stop_queues ∷ log) = page_bytes log
page_bytes (wake_queues ∷ log) = page_bytes log

-- `s'` is `s` with other descriptors
pub record Edited (s s' : TxPath) : Type 0 where
  pub same_size : s'.ring.size ≡ s.ring.size
  pub same_head : s'.ring.swhead ≡ s.ring.swhead
  pub same_tail : s'.ring.swtail ≡ s.ring.swtail
  pub same_ctx : s'.ring.ctx ≡ s.ring.ctx
  pub va_length : length s'.ring.va ≡ length s.ring.va
  pub same_skbs : s'.skbs ≡ s.skbs
  pub same_log : s'.log ≡ s.log

pub edit_desc-Edited : (j : ℕ) (g : TxDesc → TxDesc) (s : TxPath) → Edited s (edit_desc j g s)
unfolding edit_desc write_desc
edit_desc-Edited j g s = record {
  same_size = refl;
  same_head = refl;
  same_tail = refl;
  same_ctx = refl;
  va_length = length-set s.ring.va (tx_slot s.ring j) _;
  same_skbs = refl;
  same_log = refl;
}

pub Edited-trans : {s s' s'' : TxPath} → Edited s s' → Edited s' s'' → Edited s s''
Edited-trans a b = record {
  same_size = b.same_size ∙ a.same_size;
  same_head = b.same_head ∙ a.same_head;
  same_tail = b.same_tail ∙ a.same_tail;
  same_ctx = b.same_ctx ∙ a.same_ctx;
  va_length = b.va_length ∙ a.va_length;
  same_skbs = b.same_skbs ∙ a.same_skbs;
  same_log = b.same_log ∙ a.same_log;
}

-- a frame with `k` references taken and `sent` bytes of fragments mapped since `s0`
pub record Holds (n k sent : ℕ) (s0 s : TxPath) : Type 0 where
  pub same_size : s.ring.size ≡ s0.ring.size
  pub same_head : s.ring.swhead ≡ s0.ring.swhead
  pub same_tail : s.ring.swtail ≡ s0.ring.swtail
  pub va_length : length s.ring.va ≡ s0.ring.size
  pub ctx_length : length s.ring.ctx ≡ s0.ring.size
  pub known : n < length s.skbs
  pub refs : (ref_at s n).refs ≡ (ref_at s0 n).refs + k
  pub bytes : page_bytes s.log ≡ page_bytes s0.log + sent

pub Edited-Holds :
    (n k sent : ℕ) (s0 s s' : TxPath) → Holds n k sent s0 s → Edited s s' → Holds n k sent s0 s'
Edited-Holds n k sent s0 s s' h e = record {
  same_size = e.same_size ∙ h.same_size;
  same_head = e.same_head ∙ h.same_head;
  same_tail = e.same_tail ∙ h.same_tail;
  va_length = e.va_length ∙ h.va_length;
  ctx_length = ap (λ c. length c) e.same_ctx ∙ h.ctx_length;
  known = omega (arith, h.known, ap (λ l. length l) e.same_skbs);
  refs = ap (λ l. (get_or l n no_ref).refs) e.same_skbs ∙ h.refs;
  bytes = ap page_bytes e.same_log ∙ h.bytes;
}

module _ (vring_index : ℕ) (f : TxSkb) (dma : ℕ → Option ℕ) where
  pub end_chunk-Edited : (t : Tso) → Edited t.path (end_chunk vring_index f dma t)
  unfolding end_chunk
  end_chunk-Edited t =
      let s = edit_desc (t.used - 1) (λ d. last_desc d vring_index) t.path in
      let one = edit_desc-Edited (t.used - 1) (λ d. last_desc d vring_index) t.path in
      elim (Option-cases t.sg) [
        | inl e ↦ rw (e, end_chunk) one
        | inr (j, e) ↦
            rw (e, end_chunk)
              (Edited-trans one
                (edit_desc-Edited j (λ d. set_tx_desc_count d (t.sg_cnt + t.first_chunk)) s))
      ]

  -- a mapping posted
  pub post_tso-Holds :
      (pa len type : ℕ) (op : TxOp) (more sent : ℕ) (s0 : TxPath) (t : Tso)
      → Holds f.skb t.used sent s0 t.path
      → page_bytes (op ∷ t.path.log) ≡ more + page_bytes t.path.log
      → Holds f.skb (t.used + 1) (sent + more) s0 (post_tso vring_index f dma pa len type op t).path
  unfolding post_tso skb_get write_desc
  post_tso-Holds pa len type op more sent s0 t h m =
      let s = t.path in
      let ref = record (ref_at s f.skb) { refs = (ref_at s f.skb).refs + 1 } in
      record {
        same_size = h.same_size;
        same_head = h.same_head;
        same_tail = h.same_tail;
        va_length = length-set s.ring.va (tx_slot s.ring t.used) _ ∙ h.va_length;
        ctx_length = length-set s.ring.ctx (tx_slot s.ring t.used) (some f.skb) ∙ h.ctx_length;
        known = omega (arith, h.known, length-set s.skbs f.skb ref);
        refs =
            ap (λ r. r.refs) (get_or-set_self s.skbs f.skb ref no_ref h.known)
            ∙ omega (arith, h.refs);
        bytes = m ∙ omega (arith, h.bytes);
      }
