-- ===== src/Reorder/Limits.antt =====
-- The buffer sizes that a session may be given beside those of Inv: 0, and those that do not
-- divide 4096.
use native.Mathlib.Nat.{mod-lt, div-add-mod, mul-mod_left, zero-mod}
use wigig_wil.Prelude.{
  ℕ, suc, ◌+◌, ◌-◌, ◌*◌, ◌/◌, ◌%◌, ◌<◌, ◌≤◌, ◌≡◌, ltb, le→ltb, eq→==, Bool-cases, inl, inr, true,
  false, [], arith, returns, div_fault,
}
use wigig_wil.Skb.{Skb, rxdesc_seq}
use wigig_wil.Reorder.{
  Ampdu, reorder_index, reorder_in_session, make_room, release_reorder_frames, seq_less, seq_sub,
}
use wigig_wil.Reorder.Window.{ahead}

module _ (r : Ampdu) (zero_size : r.buf_size ≡ 0) where
  index_fault : (seq : ℕ) → reorder_index r seq ≡ div_fault
  unfolding reorder_index
  index_fault seq = rw (eq→== r.buf_size 0 zero_size)

  loop_fault :
      (fuel hseq : ℕ)
      → seq_less r.head_seq_num hseq ≡ true
      → release_reorder_frames (suc fuel) r hseq ≡ div_fault
  unfolding release_reorder_frames
  loop_fault fuel hseq e = rw (e, release_reorder_frames) (rw (index_fault r.head_seq_num))

  loop_skip :
      (fuel hseq : ℕ)
      → seq_less r.head_seq_num hseq ≡ false
      → release_reorder_frames (suc fuel) r hseq ≡ returns (r, [])
  unfolding release_reorder_frames
  loop_skip fuel hseq e = rw (e, release_reorder_frames)

  -- A session of size 0 divides by zero at every frame that is not old.
  pub reorder_in_session_zero :
      (now : ℕ) (skb : Skb)
      → r.head_seq_num < 4096
      → ahead r.head_seq_num (rxdesc_seq skb.desc) ≤ 2048
      → reorder_in_session now r skb ≡ div_fault
  unfolding reorder_in_session make_room seq_less
  reorder_in_session_zero now skb head_lt near =
      let seq = rxdesc_seq skb.desc in
      let old : ltb 2048 ((seq + 65536 - r.head_seq_num) % 4096) ≡ false =
        le→ltb 2048 _ (omega arith) in
      let fits : ltb 2048 ((seq + 65536 - (r.head_seq_num + r.buf_size) % 65536) % 4096) ≡ false =
        le→ltb 2048 _ (omega arith) in
      rw (old, fits)
        (elim (Bool-cases
          (seq_less r.head_seq_num (((seq + 65536 - r.buf_size) % 4096 + 1) % 4096))) [
            | inl e ↦ rw (loop_fault 2048 _ e)
            | inr e ↦ rw (loop_skip 2048 _ e, index_fault seq)
          ])

-- With a size above 1 that does not divide 4096 there are two sequence numbers, less than the size
-- apart, that share a place in the buffer: the later one is taken for a copy of the earlier.
reorder_index_collides :
    (r : Ampdu)
    → 1 < r.buf_size
    → r.buf_size ≤ 4096
    → 0 < 4096 % r.buf_size
    → r.ssn < 4096
    → let earlier = (r.ssn + 4096 - 4096 % r.buf_size) % 4096 in
      (reorder_index r earlier ≡ reorder_index r r.ssn)
      × (0 < ahead earlier r.ssn)
      × (ahead earlier r.ssn < r.buf_size)
unfolding reorder_index seq_sub
reorder_index_collides r size lim rest ssn_lt =
    let c_lt : 4096 % r.buf_size < r.buf_size = mod-lt 4096 (omega arith) in
    let turns : 4096 - 4096 % r.buf_size ≡ 4096 / r.buf_size * r.buf_size =
      omega (arith, div-add-mod 4096 r.buf_size) in
    let first : ((r.ssn + 4096 - 4096 % r.buf_size) % 4096 + 65536 - r.ssn) % 4096
        ≡ 4096 / r.buf_size * r.buf_size =
      omega arith in
    let second : (r.ssn + 65536 - r.ssn) % 4096 ≡ 0 = omega arith in
    (
      rw (first, second, mul-mod_left (4096 / r.buf_size) r.buf_size, zero-mod r.buf_size),
      omega arith,
      omega arith,
    )
