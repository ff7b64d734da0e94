-- ===== src/Reorder/Inv.antt =====
-- The state of a session that the driver keeps: array sizes, ranges and the frame counter, and how
-- the slots are read from the ring.
use wigig_wil.Prelude.{
  ℕ, suc, ◌+◌, ◌-◌, ◌%◌, ◌<◌, ◌≤◌, ◌≡◌, ◌≢◌, ◌∙◌, ap, ltb, if◌then◌else◌, none, length, get_or,
  count_some, returns, arith,
}
use native.Mathlib.Nat.{mod-lt, add-mod_right}
use wigig_wil.Reorder.{Ampdu, reorder_index}
use wigig_wil.Reorder.Seq.{add-mod-ne, modulo-mod, mod-eq_of_modulo}
use wigig_wil.Reorder.Window.{Slots}

-- The buffer size divides the range of sequence numbers. With another size the slots of a window
-- that spans sequence number 0 would not all differ; and a size of 1 or one of half the range
-- breaks the comparisons of the code.
pub record IsValid (r : Ampdu) : Type 0 where
  pub size_min : 2 ≤ r.buf_size
  pub size_max : r.buf_size < 2048
  pub divides : 4096 % r.buf_size ≡ 0
  pub buf_length : length r.reorder_buf ≡ r.buf_size
  pub time_length : length r.reorder_time ≡ r.buf_size
  pub counted : r.stored_mpdu_num ≡ count_some r.reorder_buf
  pub head_lt : r.head_seq_num < 4096
  pub ssn_lt : r.ssn < 4096

-- the place in the buffer of the frame `k` ahead of the head
abbrev pub slot_of : Ampdu → ℕ → ℕ
slot_of r k = (r.head_seq_num + 65536 - r.ssn + k) % r.buf_size

abbrev pub view : Ampdu → Slots
view r k = if ltb k r.buf_size then get_or r.reorder_buf (slot_of r k) none else none

pub slot_of_lt : {r : Ampdu} → IsValid r → (k : ℕ) → slot_of r k < length r.reorder_buf
slot_of_lt {r} v k = omega (arith, mod-lt (r.head_seq_num + 65536 - r.ssn + k) {m = r.buf_size})

-- The index that the code computes for the sequence number `k` ahead.
pub reorder_index_lem :
    {r : Ampdu} (seq k : ℕ)
    → IsValid r
    → seq < 4096
    → seq ≡ (r.head_seq_num + k) % 4096
    → reorder_index r seq ≡ returns (slot_of r k)
unfolding reorder_index
reorder_index_lem {r} seq k v lt e = ground (arith, same)
  where
    same : (seq + 65536 - r.ssn) % 4096 % r.buf_size ≡ slot_of r k
    same =
        modulo-mod r.buf_size v.divides (seq + 65536 - r.ssn)
        ∙ mod-eq_of_modulo r.buf_size v.divides (seq + 65536 - r.ssn)
            (r.head_seq_num + 65536 - r.ssn + k) (omega (arith, v.ssn_lt, v.head_lt))

-- Moving the head by one moves every slot by one.
pub slot_of_next :
    {r : Ampdu} (k : ℕ)
    → IsValid r
    → ((r.head_seq_num + 1) % 4096 + 65536 - r.ssn + k) % r.buf_size ≡ slot_of r (suc k)
slot_of_next {r} k v =
    mod-eq_of_modulo r.buf_size v.divides ((r.head_seq_num + 1) % 4096 + 65536 - r.ssn + k)
      (r.head_seq_num + 65536 - r.ssn + suc k) (omega (arith, v.ssn_lt, v.head_lt))

-- The slot after the last is the first again.
pub slot_of_turn :
    (r : Ampdu) (k : ℕ)
    → suc k ≡ r.buf_size
    → (r.head_seq_num + 65536 - r.ssn + suc k) % r.buf_size ≡ slot_of r 0
slot_of_turn r k e = rw e (
    add-mod_right (r.head_seq_num + 65536 - r.ssn) r.buf_size
    ∙ ap (λ t. t % r.buf_size) (omega arith))

pub slot_of_ne :
    (r : Ampdu) (j k : ℕ) → j < r.buf_size → k < r.buf_size → j ≢ k → slot_of r j ≢ slot_of r k
slot_of_ne r j k hj hk ne = add-mod-ne r.buf_size (r.head_seq_num + 65536 - r.ssn) j k hj hk ne
