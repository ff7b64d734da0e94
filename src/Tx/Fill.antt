-- ===== src/Tx/Fill.antt =====
-- The loops of `wil_tx_vring`: the segments mapped, and the clean-up after an error.
use wigig_wil.Prelude.{
  ℕ, suc, ◌+◌, ◌≡◌, ◌≢◌, ◌<◌, ◌≤◌, inl, inr, ◌∙◌, refl, sym, ap, Bool, true, ◌&&◌, Option-cases,
  eq-cases, Option, none, some, is_some, List, [], ◌∷◌, ◌++◌, length, get_or, set, get_or-set_self,
  get_or-set_ne, length-set, arith,
}
use wigig_wil.Tx.Desc.{TxSkb}
use wigig_wil.Tx.Send.{
  TxVring, TxOp, map_page, TxPath, no_tx_desc, no_ref, tx_slot, ref_at, skb_get, write_desc,
  segment_desc, post, tx_frags,
}
use wigig_wil.Tx.Slots.{
  in_desc, said, posted, mapped, unmapped, tx_slot-lt, tx_slot-ne, segment_desc_lem, posted-set,
}

-- The indices are in range and the arrays have a place for each slot.
pub record IsTxVring (v : TxVring) : Type 0 where
  pub tail_lt : v.swtail < v.size
  pub head_lt : v.swhead < v.size
  pub va_length : length v.va ≡ v.size
  pub ctx_length : length v.ctx ≡ v.size

-- `s` is `s0` with the frame `n` in `k` slots from the head on
pub record Prefix (n k : ℕ) (s0 s : TxPath) : Type 0 where
  pub ring : IsTxVring s.ring
  pub same_head : s.ring.swhead ≡ s0.ring.swhead
  pub same_tail : s.ring.swtail ≡ s0.ring.swtail
  pub same_size : s.ring.size ≡ s0.ring.size
  pub known : n < length s.skbs
  pub maps : mapped s.log ≡ posted s.ring k ++ mapped s0.log
  pub none_unmapped : unmapped s.log ≡ unmapped s0.log
  pub refs : (ref_at s n).refs ≡ (ref_at s0 n).refs + k
  pub held :
      (j : ℕ)
      → j < k
      → (get_or s.ring.ctx (tx_slot s.ring j) none ≡ some n)
        × ((get_or s.ring.va (tx_slot s.ring j) no_tx_desc).status ≡ 0)
  pub others :
      (j : ℕ)
      → k ≤ j
      → j < s.ring.size
      → (get_or s.ring.ctx (tx_slot s.ring j) none ≡ get_or s0.ring.ctx (tx_slot s.ring j) none)
        × (get_or s.ring.va (tx_slot s.ring j) no_tx_desc
            ≡ get_or s0.ring.va (tx_slot s.ring j) no_tx_desc)

module _ (hw_csum : Bool) (vring_index : ℕ) (f : TxSkb) (dma : ℕ → Option ℕ) where
  pub post-Prefix :
      (k pa len : ℕ) (op : TxOp) (s0 s : TxPath)
      → Prefix f.skb k s0 s
      → k < s.ring.size
      → mapped (op ∷ s.log) ≡ in_desc (pa, len) ∷ mapped s.log
      → unmapped (op ∷ s.log) ≡ unmapped s.log
      → Prefix f.skb (suc k) s0 (post hw_csum vring_index f dma k pa len op s)
  unfolding post skb_get write_desc
  post-Prefix k pa len op s0 s h lt maps unmaps =
      let v = s.ring in
      let i = tx_slot v k in
      let i_lt = tx_slot-lt v k h.ring.head_lt lt in
      let d = segment_desc hw_csum vring_index f dma pa len in
      let d_lem = segment_desc_lem hw_csum vring_index f dma pa len in
      let ctx = set v.ctx i (some f.skb) in
      let here = get_or-set_self v.va i d no_tx_desc (omega (arith, i_lt, h.ring.va_length)) in
      let ref = record (ref_at s f.skb) { refs = (ref_at s f.skb).refs + 1 } in
      record {
        ring = record {
          tail_lt = h.ring.tail_lt;
          head_lt = h.ring.head_lt;
          va_length = length-set v.va i d ∙ h.ring.va_length;
          ctx_length = length-set v.ctx i (some f.skb) ∙ h.ring.ctx_length;
        };
        same_head = h.same_head;
        same_tail = h.same_tail;
        same_size = h.same_size;
        known = omega (arith, h.known, length-set s.skbs f.skb ref);
        maps =
            maps
            ∙ ap (λ xs. in_desc (pa, len) ∷ xs) h.maps
            ∙ ap (λ x. x ∷ (posted v k ++ mapped s0.log)) (sym (ap (λ x. said x) here ∙ d_lem.0))
            ∙ ap (λ xs. said (get_or (set v.va i d) i no_tx_desc) ∷ (xs ++ mapped s0.log))
                (sym (posted-set v k k d ctx h.ring.head_lt (omega arith) lt));
        none_unmapped = unmaps ∙ h.none_unmapped;
        refs =
            ap (λ r. r.refs) (get_or-set_self s.skbs f.skb ref no_ref h.known)
            ∙ omega (arith, h.refs);
        held = λ j j_lt. elim (eq-cases j k) [
          | inl e ↦ rw e (
            get_or-set_self v.ctx i (some f.skb) none (omega (arith, i_lt, h.ring.ctx_length)),
            ap (λ x. x.status) here ∙ d_lem.1,
          )
          | inr ne ↦
              let before : j < k = omega arith in
              let apart = tx_slot-ne v j k h.ring.head_lt before lt in
              (
                get_or-set_ne v.ctx i (tx_slot v j) (some f.skb) none apart ∙ (h.held j before).0,
                ap (λ x. x.status) (get_or-set_ne v.va i (tx_slot v j) d no_tx_desc apart)
                    ∙ (h.held j before).1,
              )
        ];
        others = λ j le j_lt.
            let apart : i ≢ tx_slot v j =
              λ e. tx_slot-ne v k j h.ring.head_lt (omega (arith, le)) j_lt (sym e) in
            let same = h.others j (omega (arith, le)) j_lt in
            (
              get_or-set_ne v.ctx i (tx_slot v j) (some f.skb) none apart ∙ same.0,
              get_or-set_ne v.va i (tx_slot v j) d no_tx_desc apart ∙ same.1,
            );
      }

  -- Does each mapping of the fragments succeed, from the `j`th on?
  abbrev pub all_map : List ℕ → ℕ → Bool
  all_map [] j = true
  all_map (_ ∷ lens) j = is_some (dma j) && all_map lens (suc j)

  pub record Ran (lens : List ℕ) (k : ℕ) (s0 : TxPath) (r : Bool × ℕ × TxPath) : Type 0 where
    pub ok_lem : r.0 ≡ all_map lens k
    pub at_most : r.1 ≤ k + length lens
    pub complete : r.0 ≡ true → r.1 ≡ k + length lens
    pub prefix : Prefix f.skb r.1 s0 r.2

  pub tx_frags-Ran :
      (lens : List ℕ) (k : ℕ) (s0 s : TxPath)
      → Prefix f.skb k s0 s
      → k + length lens ≤ s.ring.size
      → Ran lens k s0 (tx_frags hw_csum vring_index f dma lens k s)
  unfolding tx_frags
  tx_frags-Ran [] k s0 s h le = record {
    ok_lem = refl;
    at_most = omega arith;
    complete = λ e. omega arith;
    prefix = h;
  }
  tx_frags-Ran (len ∷ lens) k s0 s h le = elim (Option-cases (dma k)) [
    | inl e ↦
        rw (e, tx_frags)
          (record {
            ok_lem = ap (λ o. is_some o && all_map lens (suc k)) (sym e);
            at_most = omega arith;
            complete = λ e. absurd (ground (arith, e));
            prefix = h;
          })
    | inr (pa, e) ↦
        let op = map_page (pa, len) in
        let s1 = post hw_csum vring_index f dma k pa len op s in
        let h1 = post-Prefix k pa len op s0 s h (omega (arith, le)) refl refl in
        let r = tx_frags-Ran lens (suc k) s0 s1 h1 (omega (arith, le, h1.same_size, h.same_size)) in
        rw (e, tx_frags)
          (record {
            ok_lem = r.ok_lem ∙ ap (λ o. is_some o && all_map lens (suc k)) (sym e);
            at_most = omega (arith, r.at_most);
            complete = λ e. omega (arith, r.complete e);
            prefix = r.prefix;
          })
  ]
