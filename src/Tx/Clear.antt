-- ===== src/Tx/Clear.antt =====
-- One round of the second loop of `wil_tx_complete`.
use wigig_wil.Prelude.{
  ℕ, zero, suc, ◌+◌, ◌==◌, ◌≡◌, ◌≢◌, ◌<◌, ◌≤◌, inl, inr, ◌∙◌, refl, sym, ap, leb, Bool, true, false,
  if◌then◌else◌, Option-cases, eq-cases, none, some, List, [], ◌∷◌, ◌++◌, length, get_or,
  get_or-set_self, get_or-set_ne, length-set, count_some, count_slot, count_some-set, arith,
}
use wigig_wil.Rx.{NetStats}
use wigig_wil.Tx.Desc.{TxDesc}
use wigig_wil.Tx.Send.{TxVring, unmap_single, unmap_page, no_tx_desc, kfree_skb, ref_at}
use wigig_wil.Tx.Slots.{said, unmapped}
use wigig_wil.Tx.Fill.{IsTxVring}
use wigig_wil.Tx.Complete.{
  TxDone, tx_desc_at, is_pending, count_tx, release_ref, clear_slot, release_slot,
}
use wigig_wil.Tx.Scan.{done_slot, done_slot-lt, done_slot-ne}

-- the mappings of the first `k` slots that hold a reference, the latest first
abbrev pub released : TxVring → ℕ → List (ℕ × ℕ)
released v zero = []
released v (suc k) = elim (get_or v.ctx (done_slot v k) none) [
  | none ↦ released v k
  | some _ ↦ said (tx_desc_at v (done_slot v k)) ∷ released v k
]

abbrev pub counted_tx : NetStats → ℕ
counted_tx t = t.tx_packets + t.tx_errors

-- `s` is `s0` with the first `j` slots given back
pub record Released (j : ℕ) (s0 s : TxDone) : Type 0 where
  pub same_size : s.path.ring.size ≡ s0.path.ring.size
  pub same_head : s.path.ring.swhead ≡ s0.path.ring.swhead
  pub same_tail : s.path.ring.swtail ≡ s0.path.ring.swtail
  pub va_length : length s.path.ring.va ≡ s0.path.ring.size
  pub ctx_length : length s.path.ring.ctx ≡ s0.path.ring.size
  pub cleared : (m : ℕ) → m < j → get_or s.path.ring.ctx (done_slot s0.path.ring m) none ≡ none
  pub kept :
      (m : ℕ)
      → j ≤ m
      → m < s0.path.ring.size
      → (get_or s.path.ring.ctx (done_slot s0.path.ring m) none
          ≡ get_or s0.path.ring.ctx (done_slot s0.path.ring m) none)
        × (tx_desc_at s.path.ring (done_slot s0.path.ring m)
            ≡ tx_desc_at s0.path.ring (done_slot s0.path.ring m))
  pub finished : (m : ℕ) → m < j → is_pending s0.path.ring (done_slot s0.path.ring m) ≡ false
  pub unmaps : unmapped s.path.log ≡ released s0.path.ring j ++ unmapped s0.path.log
  pub slots :
      count_some s.path.ring.ctx + length (released s0.path.ring j) ≡ count_some s0.path.ring.ctx
  pub counts : counted_tx s.ndev_stats ≡ counted_tx s0.ndev_stats + length (released s0.path.ring j)
  pub sta_counts :
      counted_tx s.sta_stats ≡ counted_tx s0.sta_stats + length (released s0.path.ring j)

count_tx_lem :
    (ok : Bool) (len : ℕ) (t : NetStats) → counted_tx (count_tx ok len t) ≡ counted_tx t + 1
unfolding count_tx
count_tx_lem true len t = omega arith
count_tx_lem false len t = omega arith

unmapped-release_ref :
    (i n : ℕ) (s : TxDone)
    → unmapped (release_ref i n s).path.log ≡ said (tx_desc_at s.path.ring i) ∷ unmapped s.path.log
unfolding release_ref kfree_skb
unmapped-release_ref i n s = go (leb i (ref_at s.path n).sngl_mapped)
  where
    what : ℕ × ℕ
    what = said (tx_desc_at s.path.ring i)

    go :
        (b : Bool)
        → unmapped ((if b then unmap_single what else unmap_page what) ∷ s.path.log)
          ≡ what ∷ unmapped s.path.log
    go true = refl
    go false = refl

released-none :
    (v : TxVring) (k : ℕ)
    → get_or v.ctx (done_slot v k) none ≡ none
    → released v (suc k) ≡ released v k
released-none v k e = rw (e, released) refl

released-some :
    (v : TxVring) (k n : ℕ)
    → get_or v.ctx (done_slot v k) none ≡ some n
    → released v (suc k) ≡ said (tx_desc_at v (done_slot v k)) ∷ released v k
released-some v k n e = rw (e, released) refl

-- the slot cleared, in a state `x` that differs from `s` in its log and its statistics
clear_slot-Released :
    (j : ℕ) (s0 s x : TxDone)
    → IsTxVring s0.path.ring
    → Released j s0 s
    → j < s0.path.ring.size
    → is_pending s0.path.ring (done_slot s0.path.ring j) ≡ false
    → unmapped x.path.log ≡ released s0.path.ring (suc j) ++ unmapped s0.path.log
    → count_slot (get_or s0.path.ring.ctx (done_slot s0.path.ring j) none)
        + length (released s0.path.ring j)
      ≡ length (released s0.path.ring (suc j))
    → counted_tx x.ndev_stats ≡ counted_tx s0.ndev_stats + length (released s0.path.ring (suc j))
    → counted_tx x.sta_stats ≡ counted_tx s0.sta_stats + length (released s0.path.ring (suc j))
    → Released (suc j) s0 (record x {
      path = clear_slot (done_slot s0.path.ring j) (record x.path { ring = s.path.ring });
    })
unfolding clear_slot
clear_slot-Released j s0 s x h r lt free unmaps one counts sta_counts =
    let v0 = s0.path.ring in
    let v = s.path.ring in
    let i = done_slot v0 j in
    let here = r.kept j (omega arith) lt in
    let i_lt = done_slot-lt v0 j h.tail_lt lt in
    let gone = count_some-set v.ctx i none (omega (arith, i_lt, r.ctx_length)) in
    let d : TxDesc = record (tx_desc_at v i) {
      addr_low = 0;
      addr_high = 0;
      length = 0;
      status = 0;
      offload_cfg = 0;
    } in
    record {
      same_size = r.same_size;
      same_head = r.same_head;
      same_tail = r.same_tail;
      va_length = length-set v.va i d ∙ r.va_length;
      ctx_length = length-set v.ctx i none ∙ r.ctx_length;
      cleared = λ m m_lt. elim (eq-cases m j) [
        | inl e ↦ rw e (get_or-set_self v.ctx i none none (omega (arith, i_lt, r.ctx_length)))
        | inr ne ↦
            let before : m < j = omega (arith, m_lt, ne) in
            let apart : i ≢ done_slot v0 m = λ e. done_slot-ne v0 m j h.tail_lt before lt (sym e) in
            get_or-set_ne v.ctx i (done_slot v0 m) none none apart ∙ r.cleared m before
      ];
      kept = λ m le m_lt.
          let apart = done_slot-ne v0 j m h.tail_lt (omega (arith, le)) m_lt in
          let same = r.kept m (omega (arith, le)) m_lt in
          (
            get_or-set_ne v.ctx i (done_slot v0 m) none none apart ∙ same.0,
            get_or-set_ne v.va i (done_slot v0 m) d no_tx_desc apart ∙ same.1,
          );
      finished = λ m m_lt. elim (eq-cases m j) [
        | inl e ↦ rw e free
        | inr ne ↦ r.finished m (omega (arith, m_lt, ne))
      ];
      unmaps = unmaps;
      slots = omega (arith, gone, ap (λ o. count_slot o) here.0, one, r.slots);
      counts = counts;
      sta_counts = sta_counts;
    }

pub release_slot-Released :
    (j : ℕ) (s0 s : TxDone)
    → IsTxVring s0.path.ring
    → Released j s0 s
    → j < s0.path.ring.size
    → is_pending s0.path.ring (done_slot s0.path.ring j) ≡ false
    → Released (suc j) s0 (release_slot (done_slot s0.path.ring j) s)
unfolding release_slot release_ref kfree_skb
release_slot-Released j s0 s h r lt free =
    let v0 = s0.path.ring in
    let i = done_slot v0 j in
    let here = r.kept j (omega arith) lt in
    elim (Option-cases (get_or v0.ctx i none)) [
      | inl e ↦
          let same = released-none v0 j e in
          let len = ap (λ xs. length xs) same in
          rw (here.0 ∙ e, release_slot)
            (clear_slot-Released j s0 s s h r lt free
              (r.unmaps ∙ ap (λ xs. xs ++ unmapped s0.path.log) (sym same))
              (omega (arith, ap (λ o. count_slot o) e, len)) (omega (arith, r.counts, len))
              (omega (arith, r.sta_counts, len)))
      | inr (n, e) ↦
          let more = released-some v0 j n e in
          let len = ap (λ xs. length xs) more in
          let d = tx_desc_at s.path.ring i in
          let ok = d.error == 0 in
          let n_len = (ref_at s.path n).len in
          rw (here.0 ∙ e, release_slot)
            (clear_slot-Released j s0 s (release_ref i n s) h r lt free
              (unmapped-release_ref i n s
                ∙ ap (λ x. said x ∷ unmapped s.path.log) here.1
                ∙ ap (λ xs. said (tx_desc_at v0 i) ∷ xs) r.unmaps
                ∙ ap (λ xs. xs ++ unmapped s0.path.log) (sym more))
              (omega (arith, ap (λ o. count_slot o) e, len))
              (omega (arith, r.counts, len, count_tx_lem ok n_len s.ndev_stats))
              (omega (arith, r.sta_counts, len, count_tx_lem ok n_len s.sta_stats)))
    ]
