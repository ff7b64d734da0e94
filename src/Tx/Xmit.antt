-- ===== src/Tx/Xmit.antt =====
-- txrx.c: `wil_start_xmit`, the choice of the ring for a frame and the copies of a broadcast. A ring is
-- given by its number; one that is not set up is `none`.
use wigig_wil.Prelude.{
  ℕ, zero, suc, ◌+◌, ◌-◌, ◌%◌, ◌==◌, Bool, true, false, not, ◌&&◌, if◌then◌else◌, Option, none,
  some, List, [], ◌∷◌, ◌++◌, length, get_or, set, Outcome, returns, ◌>>=◌,
}
use wigig_wil.Station.{Sta, sta_at, find_cid}
use wigig_wil.Tx.Desc.{TxSkb}
use wigig_wil.Tx.Send.{
  TxVring, TxRef, TxOp, stop_queues, TxPath, TxResult, tx_ok, tx_no_mem, tx_invalid, tx_vring,
  no_ref,
}
use wigig_wil.Tx.Tso.{tx_vring_tso}

-- the state of the interface that the transmission reads
pub record XmitMode : Type 0 where
  pub fwready : Bool
  pub fwconnected : Bool
  pub monitor : Bool
  pub is_client : Bool
  pub hw_csum : Bool

-- `dests` are the destination addresses of the frames, by their number
pub record Xmit : Type 0 where
  pub rings : List (Option TxVring)
  pub cids : List ℕ
  pub stas : List Sta
  pub skbs : List TxRef
  pub dests : List (List ℕ)
  pub log : List TxOp
  pub tx_dropped : ℕ

-- what the kernel and the card contribute: the mappings for each ring, what `skb_copy` gives for
-- each ring, whether there is memory for a command, and how the command ends
pub record XmitEnv : Type 0 where
  pub dma : ℕ → ℕ → Option ℕ
  pub copies : ℕ → Option TxSkb
  pub got_mem : Bool
  pub sent : TxResult

-- what `wil_start_xmit` returns
pub data XmitResult : Type 0 where
  netdev_tx_ok netdev_tx_busy net_xmit_drop : XmitResult

abbrev pub is_active : Option TxVring → Bool
is_active none = false
is_active (some _) = true

-- `is_unicast_ether_addr`
abbrev pub is_unicast : List ℕ → Bool
is_unicast dest = not (get_or dest 0 0 % 2 == 1)

abbrev pub dest_of : Xmit → ℕ → List ℕ
dest_of s n = get_or s.dests n []

-- the ring `i` with what the rings share, and back
abbrev pub path_of : Xmit → TxVring → TxPath
path_of s v = record { ring = v; skbs = s.skbs; log = s.log }

unfoldable pub put_path : ℕ → TxPath → Xmit → Xmit
put_path i p s = record s { rings = set s.rings i (some p.ring); skbs = p.skbs; log = p.log }

-- the loop of `wil_find_first_tx_vring` from the ring `i` on
unfoldable pub first_vring : List (Option TxVring) → ℕ → Option ℕ
first_vring [] i = none
first_vring (r ∷ rs) i = if is_active r then some i else first_vring rs (suc i)

-- the loop of `wil_find_tx_vring`: the number of the first ring of the CID, if it is set up
unfoldable pub vring_of : ℕ → List ℕ → List (Option TxVring) → ℕ → Option ℕ
vring_of cid [] rings i = none
vring_of cid (c ∷ cs) rings i =
    if c == cid
    then (if is_active (get_or rings i none) then some i else none)
    else vring_of cid cs rings (suc i)

-- `wil_find_tx_vring`
unfoldable pub find_vring : Xmit → List ℕ → Option ℕ
unfolding vring_of
find_vring s dest = elim (find_cid s.stas dest) [
  | none ↦ none
  | some cid ↦ vring_of cid s.cids s.rings 0
]

-- `wil_set_da_for_vring`
unfoldable pub set_da : ℕ → ℕ → Xmit → Xmit
set_da n i s =
    let cid = get_or s.cids i 0 in record s { dests = set s.dests n (sta_at s.stas cid).addr }

module _ (mode : XmitMode) (env : XmitEnv) where
  -- `wil_tx_vring` on the ring `i`
  unfoldable pub send_on : ℕ → TxSkb → Xmit → TxResult × Xmit
  unfolding put_path
  send_on i f s = elim (get_or s.rings i none) [
    | none ↦ (tx_invalid, s)
    | some v ↦
        let r = tx_vring mode.hw_csum i f (env.dma i) (path_of s v) in (r.0, put_path i r.1 s)
  ]

  -- `wil_tx_vring_tso` on the ring `i`
  unfoldable pub send_tso_on : ℕ → TxSkb → Xmit → Outcome (TxResult × Xmit)
  unfolding put_path
  send_tso_on i f s = elim (get_or s.rings i none) [
    | none ↦ returns (tx_invalid, s)
    | some v ↦ tx_vring_tso i f (env.dma i) (path_of s v) >>= λ r. returns (r.0, put_path i r.1 s)
  ]

  -- a copy of the frame `f`, numbered next
  unfoldable pub add_copy : TxSkb → Xmit → Xmit
  add_copy f s = record s {
    skbs = s.skbs ++ (record no_ref { refs = 1; len = (get_or s.skbs f.skb no_ref).len } ∷ []);
    dests = s.dests ++ (dest_of s f.skb ∷ []);
  }

  -- one round of the loop of `wil_tx_bcast`: a copy of the frame to the ring `i`
  unfoldable pub copy_to : ℕ → TxSkb → Xmit → Xmit
  unfolding set_da send_on add_copy
  copy_to i f s = elim (env.copies i) [
    | none ↦ s
    | some copy ↦
        let c = record copy { skb = length s.skbs } in
        let s1 = add_copy f s in (send_on i c (if mode.is_client then s1 else set_da c.skb i s1)).1
  ]

  -- the loop over `n` rings from the ring `i` on
  unfoldable pub copy_rest : ℕ → ℕ → TxSkb → Xmit → Xmit
  unfolding copy_to
  copy_rest zero i f s = s
  copy_rest (suc n) i f s =
      copy_rest n (suc i) f (if is_active (get_or s.rings i none) then copy_to i f s else s)

  -- `wil_tx_bcast`
  unfoldable pub tx_bcast : TxSkb → Xmit → Option ℕ × Xmit
  unfolding first_vring set_da copy_rest
  tx_bcast f s = elim (first_vring s.rings 0) [
    | none ↦ (none, s)
    | some i ↦
        let s1 = if mode.is_client then s else set_da f.skb i s in
        (some i, copy_rest (length s.rings - suc i) (suc i) f s1)
  ]

  -- `wmi_tx_eapol`
  unfoldable pub tx_eapol : TxSkb → Xmit → TxResult
  tx_eapol f s = elim (find_cid s.stas (dest_of s f.skb)) [
    | none ↦ tx_invalid
    | some _ ↦ if env.got_mem then env.sent else tx_invalid
  ]

  -- the reference of the caller given up
  unfoldable pub drop_ref : ℕ → Xmit → Xmit
  drop_ref n s =
      let ref = get_or s.skbs n no_ref in
      record s { skbs = set s.skbs n (record ref { refs = ref.refs - 1 }) }

  unfoldable pub drop_skb : ℕ → Xmit → XmitResult × Xmit
  unfolding drop_ref
  drop_skb n s = (net_xmit_drop, drop_ref n (record s { tx_dropped = s.tx_dropped + 1 }))

  -- the label `drop_err`
  unfoldable pub drop_err : ℕ → Xmit → XmitResult × Xmit
  unfolding drop_skb
  drop_err n s = drop_skb n (record s { log = stop_queues ∷ s.log })

  -- the `switch` on the result of the transmission
  unfoldable pub finish_xmit : ℕ → TxResult × Xmit → XmitResult × Xmit
  unfolding drop_ref drop_err
  finish_xmit n r = elim r.0 [
    | tx_ok ↦ (netdev_tx_ok, drop_ref n r.1)
    | tx_no_mem ↦ (netdev_tx_busy, r.1)
    | tx_invalid ↦ drop_err n r.1
  ]

  -- `wil_start_xmit`; the frame is an EAPOL frame, and is to be segmented
  unfoldable pub start_xmit : Bool → Bool → TxSkb → Xmit → Outcome (XmitResult × Xmit)
  unfolding send_on send_tso_on find_vring tx_bcast tx_eapol drop_skb drop_err finish_xmit
  start_xmit is_pae is_gso f s =
      let n = f.skb in
      let ready = mode.fwready && mode.fwconnected && not mode.monitor in
      let unicast = is_unicast (dest_of s n) in
      let found = if unicast then (find_vring s (dest_of s n), s) else tx_bcast f s in
      if not ready
      then returns (drop_skb n s)
      else if is_pae
      then returns (finish_xmit n (tx_eapol f s, s))
      else elim found.0 [
        | none ↦ returns (if unicast then drop_skb n found.1 else drop_err n found.1)
        | some i ↦
            if is_gso
            then (send_tso_on i f found.1 >>= λ r. returns (finish_xmit n r))
            else returns (finish_xmit n (send_on i f found.1))
      ]
