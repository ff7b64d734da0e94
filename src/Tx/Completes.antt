-- ===== src/Tx/Completes.antt =====
-- `wil_tx_complete`: which slots it gives back.
use wigig_wil.Prelude.{
  ℕ, ◌+◌, ◌-◌, ◌/◌, ◌≡◌, ◌<◌, ◌≤◌, ◌⊎◌, ◌∙◌, refl, sym, ap, ltb, Bool, true, false, if◌then◌else◌,
  none, List, ◌∷◌, ◌++◌, length, get_or, count_some, Outcome, returns, arith,
}
use wigig_wil.Vring.Refill.{mod_once}
use wigig_wil.Tx.Send.{TxVring, TxOp, wake_queues, avail_tx}
use wigig_wil.Tx.Slots.{unmapped}
use wigig_wil.Tx.Fill.{IsTxVring}
use wigig_wil.Tx.Ends.{avail_same}
use wigig_wil.Tx.Complete.{TxDone, tx_desc_at, is_pending, find_done, release_slots, tx_complete}
use wigig_wil.Tx.Scan.{
  done_slot, used_tx, done_slot-lt, used_tx-lt, last_done, last_done-le, find_done_lem,
}
use wigig_wil.Tx.Clear.{released, counted_tx, Released}
use wigig_wil.Tx.Release.{release_slots-Stops}

-- What a completion leaves: `done` slots from the tail on given back.
pub record Completes (s : TxDone) (m : Outcome (ℕ × TxDone)) : Type 0 where
  pub done : ℕ
  pub result : TxDone
  pub returned : m ≡ returns (done, result)
  pub ring : IsTxVring result.path.ring
  pub same_head : result.path.ring.swhead ≡ s.path.ring.swhead
  pub more : avail_tx result.path.ring ≡ avail_tx s.path.ring + done
  pub until : done ≤ last_done s.path.ring (used_tx s.path.ring) 0 0
  pub why :
      (done ≡ last_done s.path.ring (used_tx s.path.ring) 0 0)
      ⊎ (is_pending s.path.ring (done_slot s.path.ring done) ≡ true)
  pub finished : (m : ℕ) → m < done → is_pending s.path.ring (done_slot s.path.ring m) ≡ false
  pub cleared :
      (m : ℕ) → m < done → get_or result.path.ring.ctx (done_slot s.path.ring m) none ≡ none
  pub kept :
      (m : ℕ)
      → done ≤ m
      → m < s.path.ring.size
      → (get_or result.path.ring.ctx (done_slot s.path.ring m) none
          ≡ get_or s.path.ring.ctx (done_slot s.path.ring m) none)
        × (tx_desc_at result.path.ring (done_slot s.path.ring m)
            ≡ tx_desc_at s.path.ring (done_slot s.path.ring m))
  pub unmaps : unmapped result.path.log ≡ released s.path.ring done ++ unmapped s.path.log
  pub slots :
      count_some result.path.ring.ctx + length (released s.path.ring done)
      ≡ count_some s.path.ring.ctx
  pub counts :
      counted_tx result.ndev_stats ≡ counted_tx s.ndev_stats + length (released s.path.ring done)
  pub sta_counts :
      counted_tx result.sta_stats ≡ counted_tx s.sta_stats + length (released s.path.ring done)

-- the ring with its tail moved on
abbrev moved : TxVring → ℕ → TxVring
moved v j = record v { swtail = done_slot v j }

avail_tx-moved :
    (v : TxVring) (j : ℕ) → IsTxVring v → j ≤ used_tx v → avail_tx (moved v j) ≡ avail_tx v + j
avail_tx-moved v j h le =
    let a = mod_once (v.swtail + j) v.size (ground (arith, h.tail_lt, h.head_lt, le)) in
    let at_lt = done_slot-lt v j h.tail_lt (omega (arith, le, used_tx-lt v h)) in
    let b = mod_once (v.size + v.swhead - v.swtail) v.size (omega (arith, h.tail_lt, h.head_lt)) in
    let c = mod_once (v.size + v.swhead - done_slot v j) v.size (omega (arith, at_lt, h.head_lt)) in
    ground (arith, a, b, c, at_lt, le, h.tail_lt, h.head_lt)

start-Released : (s : TxDone) → IsTxVring s.path.ring → Released 0 s s
start-Released s h = record {
  same_size = refl;
  same_head = refl;
  same_tail = refl;
  va_length = h.va_length;
  ctx_length = h.ctx_length;
  cleared = λ m lt. absurd (omega arith);
  kept = λ m le lt. (refl, refl);
  finished = λ m lt. absurd (omega arith);
  unmaps = refl;
  slots = omega arith;
  counts = omega arith;
  sta_counts = omega arith;
}

unmapped-wake :
    (b : Bool) (log : List TxOp) → unmapped (if b then wake_queues ∷ log else log) ≡ unmapped log
unmapped-wake true log = refl
unmapped-wake false log = refl

-- On a well-formed ring a completion returns, keeps the ring well-formed and its head, and gives
-- back slots from the tail on, as many as are free afterwards besides those before: up to the last
-- posted slot that the card has finished, that one excluded, but none that ends a frame and is not
-- finished. For each reference in these slots its mapping is released just once and a packet or an
-- error is counted; the slots are empty afterwards, and no other slot changes.
pub tx_complete-Completes : (s : TxDone) → IsTxVring s.path.ring → Completes s (tx_complete s)
unfolding tx_complete
tx_complete-Completes s h =
    let v = s.path.ring in
    let used_lt = used_tx-lt v h in
    let t = last_done v (used_tx v) 0 0 in
    let t_le = last_done-le v (used_tx v) 0 0 (omega arith) in
    let zero_slot : done_slot v 0 ≡ v.swtail =
      ground (arith, mod_once (v.swtail + 0) v.size (omega (arith, h.tail_lt)), h.tail_lt) in
    let found =
      ap (λ x. find_done v.size v x x) (sym zero_slot)
      ∙ find_done_lem v.size v (used_tx v) 0 0 h (omega arith) used_lt in
    let r =
      release_slots-Stops v.size t 0 s s h (start-Released s h) (omega arith)
        (omega (arith, t_le, used_lt)) (omega (arith, t_le, used_lt)) in
    let back = ap (λ x. release_slots v.size (done_slot v t) x 0 s) (sym zero_slot) ∙ r.returned in
    let p = r.result.path in
    let w : TxVring = record p.ring { swtail = done_slot v r.at } in
    let low = ltb (w.size / 4) (avail_tx w) in
    let log : List TxOp = if low then wake_queues ∷ p.log else p.log in
    let k = r.released_to in
    let at_used : r.at ≤ used_tx v = omega (arith, r.at_le, t_le) in
    let same = avail_same w (moved v r.at) k.same_size k.same_head refl in
    let at_lt = done_slot-lt v r.at h.tail_lt (omega (arith, at_used, used_lt)) in
    record {
      done = r.at;
      result = record r.result { path = record p { ring = w; log = log } };
      returned = rw found (rw back refl);
      ring = record {
        tail_lt = omega (arith, at_lt, k.same_size);
        head_lt = omega (arith, k.same_head, k.same_size, h.head_lt);
        va_length = k.va_length ∙ sym k.same_size;
        ctx_length = k.ctx_length ∙ sym k.same_size;
      };
      same_head = k.same_head;
      more = same ∙ avail_tx-moved v r.at h at_used;
      until = r.at_le;
      why = r.why;
      finished = k.finished;
      cleared = k.cleared;
      kept = k.kept;
      unmaps = unmapped-wake low p.log ∙ k.unmaps;
      slots = k.slots;
      counts = k.counts;
      sta_counts = k.sta_counts;
    }
