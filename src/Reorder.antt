-- ===== src/Reorder.antt =====
-- rx_reorder.c, the Rx side of a block-ack session: `struct wil_tid_ampdu_rx` and the functions on
-- it. `kfree` and `wil_netif_rx_any` are logged in the order in which the code calls them; the
-- lock of the session makes each call of these functions one step.
pub mod Seq
pub mod Window
pub mod Content
pub mod Inv
pub mod Release
pub mod Store
pub mod Refine
pub mod Order
pub mod Session
pub mod Limits
mod Tests
use wigig_wil.Prelude.{
  ℕ, zero, suc, ◌+◌, ◌-◌, ◌%◌, ◌==◌, ltb, Bool, true, false, not, ◌&&◌, if◌then◌else◌, Option, none,
  some, is_some, List, [], ◌∷◌, ◌++◌, get_or, set, replicate, Outcome, returns, div_fault,
  out_of_fuel, ◌>>=◌,
}
use wigig_wil.Skb.{Skb, rxdesc_seq}

abbrev pub seq_modulo : ℕ
seq_modulo = 4096

-- `((sq1 - sq2) & SEQ_MASK) > (SEQ_MODULO >> 1)` at 16-bit arguments: the mask takes the
-- remainder modulo 4096, which divides the 65536 added here
unfoldable pub seq_less : ℕ → ℕ → Bool
seq_less sq1 sq2 = ltb 2048 ((sq1 + 65536 - sq2) % seq_modulo)

unfoldable pub seq_inc : ℕ → ℕ
seq_inc sq = (sq + 1) % seq_modulo

unfoldable pub seq_sub : ℕ → ℕ → ℕ
seq_sub sq1 sq2 = (sq1 + 65536 - sq2) % seq_modulo

-- `struct wil_tid_ampdu_rx`: the fields that the driver uses
pub record Ampdu : Type 0 where
  pub reorder_buf : List (Option Skb)
  pub reorder_time : List ℕ
  pub head_seq_num : ℕ
  pub stored_mpdu_num : ℕ
  pub ssn : ℕ
  pub buf_size : ℕ
  pub ssn_last_drop : ℕ

-- a call of `wil_netif_rx_any` or `dev_kfree_skb`
pub data RxEvent : Type 0 where
  netif_rx : Skb → RxEvent
  free_skb : Skb → RxEvent

-- `seq_sub(seq, r->ssn) % r->buf_size`: the division faults at a buffer size of 0
unfoldable pub reorder_index : Ampdu → ℕ → Outcome ℕ
unfolding seq_sub
reorder_index r seq =
    if r.buf_size == 0 then div_fault else returns (seq_sub seq r.ssn % r.buf_size)

-- `stored_mpdu_num` is a `u16`; its decrement wraps
unfoldable pub release_reorder_frame : Ampdu → ℕ → Ampdu × List RxEvent
unfolding seq_inc
release_reorder_frame r index = elim (get_or r.reorder_buf index none) [
  | none ↦ (record r { head_seq_num = seq_inc r.head_seq_num }, [])
  | some skb ↦ (
    record r {
      stored_mpdu_num = (r.stored_mpdu_num + 65535) % 65536;
      reorder_buf = set r.reorder_buf index none;
      head_seq_num = seq_inc r.head_seq_num;
    },
    netif_rx skb ∷ [],
  )
]

abbrev pub after {ℓ} :
    {A : Type ℓ} → List RxEvent → Outcome (A × List RxEvent) → Outcome (A × List RxEvent)
after out m = m >>= λ p. returns (p.0, out ++ p.1)

-- the `while` of `wil_release_reorder_frames`
unfoldable pub release_reorder_frames : ℕ → Ampdu → ℕ → Outcome (Ampdu × List RxEvent)
unfolding seq_less reorder_index release_reorder_frame
release_reorder_frames zero r hseq = out_of_fuel
release_reorder_frames (suc fuel) r hseq = elim (seq_less r.head_seq_num hseq) [
  | false ↦ returns (r, [])
  | true ↦ reorder_index r r.head_seq_num >>= λ index.
      after (release_reorder_frame r index).1
        (release_reorder_frames fuel (release_reorder_frame r index).0 hseq)
]

-- the `while` of `wil_reorder_release`
unfoldable pub reorder_release : ℕ → Ampdu → Outcome (Ampdu × List RxEvent)
unfolding reorder_index release_reorder_frame
reorder_release zero r = out_of_fuel
reorder_release (suc fuel) r = reorder_index r r.head_seq_num >>= λ index.
    elim (is_some (get_or r.reorder_buf index none)) [
      | false ↦ returns (r, [])
      | true ↦
          after (release_reorder_frame r index).1
            (reorder_release fuel (release_reorder_frame r index).0)
    ]

-- `wil_rx_reorder` from its check of the slot on, the frame being in range
unfoldable pub store_frame : ℕ → Ampdu → ℕ → ℕ → Skb → Outcome (Ampdu × List RxEvent)
unfolding seq_inc
store_frame now r index seq skb =
    if is_some (get_or r.reorder_buf index none)
    then returns (r, free_skb skb ∷ [])
    else if seq == r.head_seq_num && r.stored_mpdu_num == 0
    then returns (record r { head_seq_num = seq_inc r.head_seq_num }, netif_rx skb ∷ [])
    else reorder_release (suc r.buf_size) (record r {
      reorder_buf = set r.reorder_buf index (some skb);
      reorder_time = set r.reorder_time index now;
      stored_mpdu_num = (r.stored_mpdu_num + 1) % 65536;
    })

-- the rounds that the loop of `wil_release_reorder_frames` may take
abbrev pub release_fuel : ℕ
release_fuel = 2049

-- the part of `wil_rx_reorder` that moves the window so that `seq` fits
unfoldable pub make_room : Ampdu → ℕ → Outcome (Ampdu × List RxEvent)
unfolding seq_less seq_inc seq_sub
make_room r seq =
    if not (seq_less seq ((r.head_seq_num + r.buf_size) % 65536))
    then release_reorder_frames release_fuel r (seq_inc (seq_sub seq r.buf_size))
    else returns (r, [])

-- `wil_rx_reorder` under the lock of the session; `now` is `jiffies`
unfoldable pub reorder_in_session : ℕ → Ampdu → Skb → Outcome (Ampdu × List RxEvent)
reorder_in_session now r skb =
    let seq = rxdesc_seq skb.desc in
    if seq_less seq r.head_seq_num
    then returns (record r { ssn_last_drop = seq }, free_skb skb ∷ [])
    else make_room r seq >>= λ p.
        reorder_index p.0 seq >>= λ index. after p.1 (store_frame now p.0 index seq skb)

-- `wil_tid_ampdu_rx_alloc`; the Booleans say which of the three allocations succeed
unfoldable pub tid_ampdu_rx_alloc : Bool → Bool → Bool → ℕ → ℕ → Option Ampdu
tid_ampdu_rx_alloc got_r got_buf got_time size ssn =
    if got_r && (got_buf && got_time)
    then some (record {
      reorder_buf = replicate size none;
      reorder_time = replicate size 0;
      head_seq_num = ssn;
      stored_mpdu_num = 0;
      ssn = ssn;
      buf_size = size % 65536;
      ssn_last_drop = 0;
    })
    else none

-- `wil_tid_ampdu_rx_free`: what is released before the memory is given back
unfoldable pub tid_ampdu_rx_free : Option Ampdu → Outcome (List RxEvent)
tid_ampdu_rx_free none = returns []
tid_ampdu_rx_free (some r) =
    release_reorder_frames release_fuel r ((r.head_seq_num + r.buf_size) % 65536) >>= λ p.
    returns p.1
