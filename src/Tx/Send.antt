-- ===== src/Tx/Send.antt =====
-- txrx.c: `wil_tx_vring`. `dma k` is the address that the `k`th mapping of the call gives, `none`
-- on an error.
use Prim.Native.Nat.{bit_or}
use wigig_wil.Prelude.{
  ℕ, zero, suc, ◌+◌, ◌-◌, ◌*◌, ◌/◌, ◌%◌, ◌^◌, ltb, leb, Bool, true, false, ◌&&◌, if◌then◌else◌,
  Option, none, some, List, [], ◌∷◌, length, get_or, set,
}
use wigig_wil.Tx.Desc.{TxDesc, TxSkb, desc_map, offload_setup, last_desc}

-- a `struct vring` of Tx descriptors: the head is the next slot to post, the tail the next slot
-- to complete; `ctx` has the number of the frame that a slot keeps a reference to
pub record TxVring : Type 0 where
  pub size : ℕ
  pub swtail : ℕ
  pub swhead : ℕ
  pub va : List TxDesc
  pub ctx : List (Option ℕ)

-- a frame that the driver holds: its references, its length and `struct wil_skb_cb`; a
-- `nodma_desc` of `none` is -1
pub record TxRef : Type 0 where
  pub refs : ℕ
  pub len : ℕ
  pub sngl_mapped : ℕ
  pub nodma_desc : Option ℕ

-- `zero_ip_len` clears the lengths in the IP header, of version 4 for 1 and of version 6 for 2.
pub data TxOp : Type 0 where
  map_single map_page unmap_single unmap_page : ℕ × ℕ → TxOp
  doorbell zero_ip_len : ℕ → TxOp
  stop_queues wake_queues : TxOp

-- a ring, the frames by number, and the calls made, the latest first
pub record TxPath : Type 0 where
  pub ring : TxVring
  pub skbs : List TxRef
  pub log : List TxOp

-- the result of the transmission: 0, -ENOMEM, -EINVAL
pub data TxResult : Type 0 where
  tx_ok tx_no_mem tx_invalid : TxResult

abbrev pub no_tx_desc : TxDesc
no_tx_desc = record {
  mac_d0 = 0;
  mac_d1 = 0;
  mac_d2 = 0;
  ucode_cmd = 0;
  dma_d0 = 0;
  addr_low = 0;
  addr_high = 0;
  offload_cfg = 0;
  error = 0;
  status = 0;
  length = 0;
}

abbrev pub no_ref : TxRef
no_ref = record { refs = 0; len = 0; sngl_mapped = 0; nodma_desc = none }

-- `wil_vring_avail_tx`
abbrev pub avail_tx : TxVring → ℕ
avail_tx v = v.size - (v.size + v.swhead - v.swtail) % v.size - 1

-- the `j`th slot from the head on
abbrev pub tx_slot : TxVring → ℕ → ℕ
tx_slot v j = (v.swhead + j) % v.size

abbrev pub ref_at : TxPath → ℕ → TxRef
ref_at s n = get_or s.skbs n no_ref

-- `pa` as the driver reads it back from a descriptor
abbrev pub desc_pa : TxDesc → ℕ
desc_pa d = d.addr_low + d.addr_high * 2 ^ 32

-- `ctx` of a slot set to the frame, with one reference more
unfoldable pub skb_get : ℕ → ℕ → TxPath → TxPath
skb_get i n s = record s {
  ring = record s.ring { ctx = set s.ring.ctx i (some n) };
  skbs = set s.skbs n (record (ref_at s n) { refs = (ref_at s n).refs + 1 });
}

-- `dev_kfree_skb_any`
unfoldable pub kfree_skb : ℕ → TxPath → TxPath
kfree_skb n s = record s {
  skbs = set s.skbs n (record (ref_at s n) { refs = (ref_at s n).refs - 1 });
}

unfoldable pub write_desc : ℕ → TxDesc → TxPath → TxPath
write_desc i d s = record s { ring = record s.ring { va = set s.ring.va i d } }

-- `hw_csum` is the feature of the interface, `vring_index` the number of the ring
module _ (hw_csum : Bool) (vring_index : ℕ) (f : TxSkb) (dma : ℕ → Option ℕ) where
  -- the descriptor of a segment
  unfoldable pub segment_desc : ℕ → ℕ → TxDesc
  unfolding desc_map offload_setup
  segment_desc pa len =
      let d = desc_map pa len vring_index in
      let e = if f.csum_partial && hw_csum then offload_setup d f none else d in
      record e { mac_d2 = bit_or e.mac_d2 (length f.frags + 1) }

  -- a segment that is mapped, in the `j`th slot
  unfoldable pub post : ℕ → ℕ → ℕ → TxOp → TxPath → TxPath
  unfolding segment_desc skb_get write_desc
  post j pa len op s =
      let i = tx_slot s.ring j in
      skb_get i f.skb (write_desc i (segment_desc pa len) (record s { log = op ∷ s.log }))

  -- the loop over the fragments, from the `j`th slot on: are all mapped, and if not, the slot of
  -- the one that is not
  unfoldable pub tx_frags : List ℕ → ℕ → TxPath → Bool × ℕ × TxPath
  unfolding post
  tx_frags [] j s = (true, j, s)
  tx_frags (len ∷ lens) j s = elim (dma j) [
    | none ↦ (false, j, s)
    | some pa ↦ tx_frags lens (suc j) (post j pa len (map_page (pa, len)) s)
  ]

  -- the clean-up at `dma_error`: the slots below `j`, from the last one down
  unfoldable pub tx_unmap : ℕ → TxPath → TxPath
  unfolding write_desc kfree_skb
  tx_unmap zero s = s
  tx_unmap (suc j) s =
      let i = tx_slot s.ring j in
      let d = get_or s.ring.va i no_tx_desc in
      let what : ℕ × ℕ = (desc_pa d, d.length) in
      let op = if leb i (ref_at s f.skb).sngl_mapped then unmap_single what else unmap_page what in
      let s1 = write_desc i (record d { status = 1 }) s in
      tx_unmap j (kfree_skb f.skb (record s1 { log = op ∷ s1.log }))

  -- the last segment marked, the head moved on and the card told
  unfoldable pub tx_finish : TxPath → TxPath
  unfolding last_desc write_desc
  tx_finish s =
      let i = tx_slot s.ring (length f.frags) in
      let s1 = write_desc i (last_desc (get_or s.ring.va i no_tx_desc) vring_index) s in
      let head = (s.ring.swhead + (length f.frags + 1)) % s.ring.size in
      record s1 { ring = record s1.ring { swhead = head }; log = doorbell head ∷ s1.log }

  -- the mapping of the linear part and of the fragments
  unfoldable pub tx_map : TxPath → TxResult × TxPath
  unfolding post tx_frags tx_unmap tx_finish
  tx_map s =
      let cb = record (ref_at s f.skb) { sngl_mapped = s.ring.swhead; nodma_desc = none } in
      let s1 = record s { skbs = set s.skbs f.skb cb } in
      elim (dma 0) [
        | none ↦ (tx_invalid, s1)
        | some pa ↦
            let r = tx_frags f.frags 1 (post 0 pa f.headlen (map_single (pa, f.headlen)) s1) in
            if r.0 then (tx_ok, tx_finish r.2) else (tx_invalid, tx_unmap r.1 r.2)
      ]

  -- `wil_tx_vring`
  unfoldable pub tx_vring : TxPath → TxResult × TxPath
  unfolding tx_map
  tx_vring s =
      let low = ltb (avail_tx s.ring) (s.ring.size / 8) in
      let s1 = record s { log = if low then stop_queues ∷ s.log else s.log } in
      if ltb (avail_tx s.ring) (1 + length f.frags) then (tx_no_mem, s1) else tx_map s1
