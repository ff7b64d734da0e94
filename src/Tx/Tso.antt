-- ===== src/Tx/Tso.antt =====
-- txrx.c: `wil_tx_vring_tso`, a large segment cut to payloads of `gso_size` bytes. A slot is given by
-- its offset from the head; the mapping for the slot `k` is `dma k`. The loop over a fragment has
-- two rounds for each slot as its fuel.
use wigig_wil.Prelude.{
  ℕ, zero, suc, ◌+◌, ◌-◌, ◌*◌, ◌/◌, ◌%◌, ◌^◌, ◌==◌, ltb, leb, Bool, true, false, if◌then◌else◌,
  Option, none, some, List, [], ◌∷◌, length, get_or, set, Outcome, returns, out_of_fuel, ◌>>=◌,
}
use Prim.Native.Nat.{bit_or}
use wigig_wil.Tx.Desc.{
  TxDesc, TxSkb, desc_map, offload_setup, tcp_version, last_desc, set_tx_desc_count,
}
use wigig_wil.Tx.Send.{
  TxOp, map_single, map_page, unmap_single, unmap_page, doorbell, stop_queues, zero_ip_len, TxPath,
  TxResult, tx_ok, tx_no_mem, tx_invalid, no_tx_desc, avail_tx, tx_slot, ref_at, desc_pa, skb_get,
  kfree_skb, write_desc,
}

-- `rem_data`, what a payload has left: `below n` is the negative number -n
pub data Rem : Type 0 where
  left below : ℕ → Rem

-- the variables of the loop: `used` is `descs_used`, so that `d` is the slot `used - 1`; `sg` the
-- slot of `sg_desc`; `has_data` whether `firstdata` is set
pub record Tso : Type 0 where
  pub path : TxPath
  pub used : ℕ
  pub sg : Option ℕ
  pub sg_cnt : ℕ
  pub first_chunk : ℕ
  pub has_data : Bool
  pub rem : Rem

-- the `j`th slot's descriptor changed
unfoldable pub edit_desc : ℕ → (TxDesc → TxDesc) → TxPath → TxPath
unfolding write_desc
edit_desc j g s = let i = tx_slot s.ring j in write_desc i (g (get_or s.ring.va i no_tx_desc)) s

abbrev pub min_len : ℕ → ℕ → ℕ
min_len len r = if ltb r len then r else len

module _ (vring_index : ℕ) (f : TxSkb) (dma : ℕ → Option ℕ) where
  abbrev pub hdrlen : ℕ
  hdrlen = 14 + f.network_header_len + f.tcp_hdrlen

  -- a payload complete: its last descriptor marked, the first one given their number
  unfoldable pub end_chunk : Tso → TxPath
  unfolding edit_desc last_desc set_tx_desc_count
  end_chunk t =
      let s = edit_desc (t.used - 1) (λ d. last_desc d vring_index) t.path in
      elim t.sg [
        | none ↦ s
        | some j ↦ edit_desc j (λ d. set_tx_desc_count d (t.sg_cnt + t.first_chunk)) s
      ]

  -- a mapping of `len` bytes in the next slot
  unfoldable pub post_tso : ℕ → ℕ → ℕ → TxOp → Tso → Tso
  unfolding desc_map offload_setup skb_get write_desc
  post_tso pa len type op t =
      let i = tx_slot t.path.ring t.used in
      let d = offload_setup (desc_map pa len vring_index) f (some type) in
      let s = skb_get i f.skb (write_desc i d (record t.path { log = op ∷ t.path.log })) in
      record t { path = s; used = t.used + 1; has_data = true; sg_cnt = t.sg_cnt + 1 }

  -- a piece of a fragment: is it mapped?
  unfoldable pub tso_piece : ℕ → ℕ → ℕ → Rem → Tso → Bool × Tso
  unfolding post_tso
  tso_piece avail size len rem t =
      let sg : Option ℕ = elim t.sg [ none ↦ some t.used | some j ↦ some j ] in
      let type : ℕ = if t.has_data then 2 else 1 in
      if t.used == avail then (false, t) else elim (dma t.used) [
        | none ↦ (false, t)
        | some pa ↦
            (true, record (post_tso pa len type (map_page (pa, size)) t) { sg = sg; rem = rem })
      ]

  -- the loop over a fragment with `len` bytes left; a length of -n is 2^64 - n where it is a
  -- `size_t`, 2^32 - n where it is a `u32`
  unfoldable pub tso_frag : ℕ → ℕ → ℕ → Tso → Outcome (Bool × Tso)
  unfolding end_chunk tso_piece
  tso_frag zero avail zero t = returns (true, t)
  tso_frag zero avail (suc _) t = out_of_fuel
  tso_frag (suc fuel) avail zero t = returns (true, t)
  tso_frag (suc fuel) avail (suc len1) t =
      let len = suc len1 in
      elim t.rem [
        | left zero ↦ tso_frag fuel avail len (record t {
          path = end_chunk t;
          rem = left f.gso_size;
          sg = none;
          sg_cnt = 0;
          first_chunk = 0;
        })
        | left (suc r1) ↦
            let n = min_len len (suc r1) in
            let p = tso_piece avail n n (left (suc r1 - n)) t in
            let rest = tso_frag fuel avail (len - n) p.1 in
            if p.0 then rest else returns (false, p.1)
        | below n ↦
            let p = tso_piece avail (2 ^ 64 - n) (2 ^ 32 - n) (left 0) t in
            let rest = tso_frag fuel avail (len + n) p.1 in
            if p.0 then rest else returns (false, p.1)
      ]

  -- the loop over the fragments
  unfoldable pub tso_frags : ℕ → ℕ → List ℕ → Tso → Outcome (Bool × Tso)
  unfolding tso_frag
  tso_frags fuel avail [] t = returns (true, t)
  tso_frags fuel avail (len ∷ lens) t = tso_frag fuel avail len t >>= λ p.
      let rest = tso_frags fuel avail lens p.1 in if p.0 then rest else returns (false, p.1)

  -- the clean-up at `dma_error`, from the slot `j` down to the slot 1
  unfoldable pub tso_unmap : ℕ → TxPath → TxPath
  unfolding write_desc kfree_skb
  tso_unmap zero s = s
  tso_unmap (suc j) s =
      let i = tx_slot s.ring (suc j) in
      let d = get_or s.ring.va i no_tx_desc in
      let what : ℕ × ℕ = (desc_pa d, d.length) in
      let op = if ltb (ref_at s f.skb).sngl_mapped i then unmap_page what else unmap_single what in
      let s1 = write_desc i (record d { status = 1 }) s in
      tso_unmap j (kfree_skb f.skb (record s1 { log = op ∷ s1.log }))

  -- the last payload complete, the head moved on and the card told
  unfoldable pub tso_finish : Tso → TxPath
  unfolding end_chunk edit_desc set_tx_desc_count
  tso_finish t =
      let mark : TxDesc → TxDesc = λ d. record d { dma_d0 = bit_or d.dma_d0 (3 * 2 ^ 11) } in
      let s1 = edit_desc (t.used - 1) mark (end_chunk t) in
      let s2 = edit_desc 0 (λ d. set_tx_desc_count d t.used) s1 in
      let head = (s2.ring.swhead + t.used) % s2.ring.size in
      record s2 { ring = record s2.ring { swhead = head }; log = doorbell head ∷ s2.log }

  -- `sngl_mapped` of the frame
  unfoldable pub set_sngl : ℕ → TxPath → TxPath
  set_sngl i s = record s { skbs = set s.skbs f.skb (record (ref_at s f.skb) { sngl_mapped = i }) }

  -- the header in the slot 0
  unfoldable pub tso_header : ℕ → TxPath → Tso
  unfolding desc_map offload_setup last_desc skb_get write_desc
  tso_header pa s =
      let i = tx_slot s.ring 0 in
      let d = last_desc (offload_setup (desc_map pa hdrlen vring_index) f (some 0)) vring_index in
      let op = map_single (pa, hdrlen) in
      let s1 = skb_get i f.skb (write_desc i d (record s { log = op ∷ s.log })) in
      let cb = record (ref_at s1 f.skb) { sngl_mapped = i; nodma_desc = some i } in
      record {
        path = record s1 { skbs = set s1.skbs f.skb cb };
        used = 1;
        sg = none;
        sg_cnt = 0;
        first_chunk = 1;
        has_data = false;
        rem = left f.gso_size;
      }

  -- the linear data behind the headers, in the slot 1: is it mapped?
  unfoldable pub tso_linear : Tso → Bool × Tso
  unfolding post_tso set_sngl
  tso_linear t =
      let len = f.headlen - hdrlen in
      let rem = if leb len f.gso_size then left (f.gso_size - len) else below (len - f.gso_size) in
      if len == 0 then (true, t) else elim (dma 1) [
        | none ↦ (false, t)
        | some pa ↦
            let t1 = post_tso pa len 1 (map_single (pa, len)) t in
            let s = set_sngl (tx_slot t1.path.ring 1) t1.path in
            (true, record t1 { path = s; sg = some 1; rem = rem })
      ]

  -- what is done after the loop: all is sent, or what was mapped is released
  unfoldable pub tso_end : Bool × Tso → TxResult × TxPath
  unfolding tso_finish tso_unmap
  tso_end p = if p.0 then (tx_ok, tso_finish p.1) else (tx_invalid, tso_unmap p.1.used p.1.path)

  -- the mapping of the header and of all data
  unfoldable pub tso_map : TxPath → Outcome (TxResult × TxPath)
  unfolding tso_header tso_linear tso_frags tso_end
  tso_map s =
      let avail = avail_tx s.ring in
      let s1 = record s { log = zero_ip_len (tcp_version f) ∷ s.log } in
      elim (dma 0) [
        | none ↦ returns (tx_invalid, s1)
        | some pa ↦
            let p = tso_linear (tso_header pa s1) in
            if p.0
            then (tso_frags (s.ring.size + s.ring.size) avail f.frags p.1 >>= λ r.
                returns (tso_end r))
            else returns (tso_end p)
      ]

  -- `wil_tx_vring_tso`
  unfoldable pub tx_vring_tso : TxPath → Outcome (TxResult × TxPath)
  unfolding tso_map
  tx_vring_tso s =
      let low = ltb (avail_tx s.ring) (s.ring.size / 8) in
      let s1 = record s { log = if low then stop_queues ∷ s.log else s.log } in
      if ltb (avail_tx s.ring) (length f.frags * 3 + 1)
      then returns (tx_no_mem, s1)
      else if tcp_version f == 0
      then returns (tx_invalid, s1)
      else tso_map s1
