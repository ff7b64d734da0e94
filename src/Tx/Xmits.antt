-- ===== src/Tx/Xmits.antt =====
-- `wil_start_xmit` for a frame to one station that is not a large segment.
use wigig_wil.Prelude.{
  ℕ, ◌+◌, ◌-◌, ◌≡◌, ◌<◌, ◌⊎◌, true, false, not, ◌&&◌, Bool, ltb, Option, none, some, List, length,
  get_or, Outcome, returns,
}
use wigig_wil.Tx.Send.{TxVring, TxRef, avail_tx, TxResult, tx_ok, tx_no_mem, tx_invalid, no_ref}
use wigig_wil.Tx.Fill.{IsTxVring}
use wigig_wil.Tx.Xmit.{
  XmitMode, Xmit, XmitEnv, XmitResult, netdev_tx_ok, netdev_tx_busy, net_xmit_drop, find_vring,
}

-- Each ring that is set up is well-formed.
abbrev pub IsXmit : Xmit → Type 0
IsXmit s = (i : ℕ) (v : TxVring) → get_or s.rings i none ≡ some v → IsTxVring v

abbrev pub refs_of : Xmit → ℕ → ℕ
refs_of s n = (get_or s.skbs n no_ref).refs

-- has a ring fewer than `k` free descriptors?
abbrev pub is_full : Option TxVring → ℕ → Bool
is_full none k = false
is_full (some v) k = ltb (avail_tx v) k

abbrev pub is_full_at : Xmit → Option ℕ → ℕ → Bool
is_full_at s none k = false
is_full_at s (some i) k = is_full (get_or s.rings i none) k

-- A frame has to wait if the link is up and the ring of its station is full.
abbrev pub must_wait : XmitMode → Xmit → List ℕ → ℕ → Bool
must_wait mode s dest k =
    (mode.fwready && mode.fwconnected && not mode.monitor) && is_full_at s (find_vring s dest) k

-- What is left: the queue keeps the frame, the frame is dropped, or it is in `k` descriptors.
pub record XmitEnds (wait : Bool) (n k : ℕ) (s : Xmit) (m : Outcome (XmitResult × Xmit))
    : Type 0 where
  result : XmitResult
  state : Xmit
  returned : m ≡ returns (result, state)
  rings : IsXmit state
  ends :
      (result ≡ netdev_tx_busy)
        × (wait ≡ true)
        × (refs_of state n ≡ refs_of s n)
        × (state.tx_dropped ≡ s.tx_dropped)
      ⊎ (result ≡ net_xmit_drop)
        × (wait ≡ false)
        × (refs_of state n ≡ refs_of s n - 1)
        × (state.tx_dropped ≡ s.tx_dropped + 1)
      ⊎ (result ≡ netdev_tx_ok)
        × (wait ≡ false)
        × (refs_of state n + 1 ≡ refs_of s n + k)
        × (state.tx_dropped ≡ s.tx_dropped)

-- the entry of a frame with a reference less
abbrev one_less : ℕ → Xmit → TxRef
one_less n s = let ref = get_or s.skbs n no_ref in record ref { refs = ref.refs - 1 }

module _ (mode : XmitMode) (env : XmitEnv) where
  -- a frame sent on a ring, or not
  record SendsOn (full : Bool) (n k : ℕ) (s : Xmit) (r : TxResult × Xmit) : Type 0 where
    rings : IsXmit r.1
    known : n < length r.1.skbs
    dropped : r.1.tx_dropped ≡ s.tx_dropped
    ends :
        (r.0 ≡ tx_no_mem) × (full ≡ true) × (refs_of r.1 n ≡ refs_of s n)
        ⊎ (r.0 ≡ tx_invalid) × (full ≡ false) × (refs_of r.1 n ≡ refs_of s n)
        ⊎ (r.0 ≡ tx_ok) × (full ≡ false) × (refs_of r.1 n ≡ refs_of s n + k)
