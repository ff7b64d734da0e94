-- ===== src/Tx/Release.antt =====
-- The second loop of `wil_tx_complete`.
use wigig_wil.Prelude.{
  ℕ, zero, suc, ◌+◌, ◌-◌, ◌%◌, ◌≡◌, ◌<◌, ◌≤◌, ◌⊎◌, inl, inr, ◌∙◌, refl, ap, true, not, ◌&&◌,
  Bool-cases, eq-cases, ne→==, Outcome, returns, arith,
}
use wigig_wil.Word.{has_bit}
use wigig_wil.Tx.Fill.{IsTxVring}
use wigig_wil.Tx.Complete.{TxDone, is_pending, release_slot, release_slots}
use wigig_wil.Tx.Scan.{done_slot, done_slot-next, done_slot-ne}
use wigig_wil.Tx.Clear.{Released, release_slot-Released}

-- where the second loop stops, with the slot of offset `t` to be reached
pub record Stops (t : ℕ) (s0 : TxDone) (m : Outcome (ℕ × ℕ × TxDone)) : Type 0 where
  pub at : ℕ
  pub result : TxDone
  pub returned : m ≡ returns (done_slot s0.path.ring at, at, result)
  pub released_to : Released at s0 result
  pub at_le : at ≤ t
  pub why : (at ≡ t) ⊎ (is_pending s0.path.ring (done_slot s0.path.ring at) ≡ true)

pub release_slots-Stops :
    (fuel t j : ℕ) (s0 s : TxDone)
    → IsTxVring s0.path.ring
    → Released j s0 s
    → j ≤ t
    → t < s0.path.ring.size
    → t - j < fuel
    → Stops t s0 (release_slots fuel (done_slot s0.path.ring t) (done_slot s0.path.ring j) j s)
unfolding release_slots
release_slots-Stops zero t j s0 s h r le lt more = absurd (omega (arith, more))
release_slots-Stops (suc fuel) t j s0 s h r le lt more = elim (eq-cases j t) [
  | inl e ↦ record {
    at = j;
    result = s;
    returned = rw e (ground arith);
    released_to = r;
    at_le = le;
    why = inl e;
  }
  | inr ne ↦
      let v0 = s0.path.ring in
      let i = done_slot v0 j in
      let before : j < t = omega (arith, le, ne) in
      let apart = ne→== i (done_slot v0 t) (done_slot-ne v0 j t h.tail_lt before lt) in
      let same =
        ap (λ d. has_bit d.dma_d0 8 && not (has_bit d.status 0))
          (r.kept j (omega arith) (omega (arith, before, lt))).1 in
      elim (Bool-cases (is_pending v0 i)) [
        | inl wait ↦ record {
          at = j;
          result = s;
          returned = rw apart (rw (same ∙ wait) refl);
          released_to = r;
          at_le = le;
          why = inr wait;
        }
        | inr free ↦
            let next = release_slot-Released j s0 s h r (omega (arith, before, lt)) free in
            let one : j + 1 ≡ suc j = omega arith in
            let step =
              ap (λ z. (i + 1) % z) r.same_size
              ∙ done_slot-next v0 j h.tail_lt (omega (arith, before, lt)) in
            let rest =
              release_slots-Stops fuel t (suc j) s0 (release_slot i s) h next before lt
                (omega (arith, more, before)) in
            record {
              at = rest.at;
              result = rest.result;
              returned = rw apart (
                  rw (same ∙ free) (
                    ap (λ x. release_slots fuel (done_slot v0 t) x (j + 1) (release_slot i s)) step
                    ∙ ap
                        (λ x.
                          release_slots fuel (done_slot v0 t) (done_slot v0 (suc j)) x
                            (release_slot i s))
                        one
                    ∙ rest.returned));
              released_to = rest.released_to;
              at_le = rest.at_le;
              why = rest.why;
            }
      ]
]
