-- ===== src/Tx/Complete.antt =====
-- txrx.c and netdev.c: `wil_tx_complete` and `wil6210_netdev_poll_tx`. The descriptors are as the
-- call finds them; a loop over slots has a round for each slot of the ring as its fuel.
use wigig_wil.Prelude.{
  ℕ, zero, suc, ◌+◌, ◌/◌, ◌%◌, ◌==◌, ltb, leb, Bool, not, ◌&&◌, if◌then◌else◌, Option, none, some,
  List, ◌∷◌, get_or, set, Outcome, returns, out_of_fuel, ◌>>=◌,
}
use wigig_wil.Word.{has_bit}
use wigig_wil.Rx.{NetStats, no_stats}
use wigig_wil.Tx.Desc.{TxDesc}
use wigig_wil.Tx.Send.{
  TxVring, TxRef, TxOp, unmap_single, unmap_page, wake_queues, TxPath, no_tx_desc, avail_tx, ref_at,
  desc_pa, kfree_skb,
}

-- a ring, the statistics of its station and those of the interface
pub record TxDone : Type 0 where
  pub path : TxPath
  pub sta_stats : NetStats
  pub ndev_stats : NetStats

abbrev pub tx_desc_at : TxVring → ℕ → TxDesc
tx_desc_at v i = get_or v.va i no_tx_desc

-- has the card finished the slot?
abbrev pub is_done : TxVring → ℕ → Bool
is_done v i = has_bit (tx_desc_at v i).status 0

-- the last slot of a frame, not finished
abbrev pub is_pending : TxVring → ℕ → Bool
is_pending v i = has_bit (tx_desc_at v i).dma_d0 8 && not (is_done v i)

-- the first loop: the last slot before the head that the card has finished
unfoldable pub find_done : ℕ → TxVring → ℕ → ℕ → Outcome ℕ
find_done zero v i to_rel = out_of_fuel
find_done (suc fuel) v i to_rel =
    let rest = find_done fuel v ((i + 1) % v.size) (if is_done v i then i else to_rel) in
    if i == v.swhead then returns to_rel else rest

-- the statistics once a slot with a reference to a frame of `len` bytes is done
unfoldable pub count_tx : Bool → ℕ → NetStats → NetStats
count_tx ok len t =
    if ok
    then record t { tx_packets = t.tx_packets + 1; tx_bytes = t.tx_bytes + len }
    else record t { tx_errors = t.tx_errors + 1 }

-- a reference released: the statistics, the mapping, the reference
unfoldable pub release_ref : ℕ → ℕ → TxDone → TxDone
unfolding count_tx kfree_skb
release_ref i n s =
    let d = tx_desc_at s.path.ring i in
    let ref = ref_at s.path n in
    let ok = d.error == 0 in
    let what : ℕ × ℕ = (desc_pa d, d.length) in
    let op = if leb i ref.sngl_mapped then unmap_single what else unmap_page what in
    record s {
      path = kfree_skb n (record s.path { log = op ∷ s.path.log });
      sta_stats = count_tx ok ref.len s.sta_stats;
      ndev_stats = count_tx ok ref.len s.ndev_stats;
    }

-- a slot given back
unfoldable pub clear_slot : ℕ → TxPath → TxPath
clear_slot i s = record s {
  ring = record s.ring {
    ctx = set s.ring.ctx i none;
    va = set s.ring.va i (record (tx_desc_at s.ring i) {
      addr_low = 0;
      addr_high = 0;
      length = 0;
      status = 0;
      offload_cfg = 0;
    });
  };
}

-- one round of the second loop
unfoldable pub release_slot : ℕ → TxDone → TxDone
unfolding release_ref clear_slot
release_slot i s =
    let s1 : TxDone = elim (get_or s.path.ring.ctx i none) [
      | none ↦ s
      | some n ↦ release_ref i n s
    ] in
    record s1 { path = clear_slot i s1.path }

-- the second loop, from the slot `i` on, with `done` slots given back before
unfoldable pub release_slots : ℕ → ℕ → ℕ → ℕ → TxDone → Outcome (ℕ × ℕ × TxDone)
unfolding release_slot
release_slots zero to_rel i done s = out_of_fuel
release_slots (suc fuel) to_rel i done s =
    let next = (i + 1) % s.path.ring.size in
    let rest = release_slots fuel to_rel next (done + 1) (release_slot i s) in
    if i == to_rel
    then returns (i, done, s)
    else if is_pending s.path.ring i
    then returns (i, done, s)
    else rest

-- `wil_tx_complete` on a ring that is set up: how many slots it gives back
unfoldable pub tx_complete : TxDone → Outcome (ℕ × TxDone)
unfolding find_done release_slots
tx_complete s =
    let v = s.path.ring in
    find_done v.size v v.swtail v.swtail >>= λ to_rel.
    release_slots v.size to_rel v.swtail 0 s >>= λ r.
    let p = r.2.path in
    let w = record p.ring { swtail = r.0 } in
    let log = if ltb (w.size / 4) (avail_tx w) then wake_queues ∷ p.log else p.log in
    returns (r.1, record r.2 { path = record p { ring = w; log = log } })

-- what the rings share: the frames, the calls, the statistics of stations and interface; a ring
-- that is not set up is `none`, `cids` are those of the rings
pub record TxRings : Type 0 where
  pub rings : List (Option TxVring)
  pub cids : List ℕ
  pub skbs : List TxRef
  pub log : List TxOp
  pub stats : List NetStats
  pub ndev_stats : NetStats

-- `wil_tx_complete` on the ring of this number
unfoldable pub complete_ring : ℕ → TxRings → Outcome (ℕ × TxRings)
unfolding tx_complete
complete_ring i s = elim (get_or s.rings i none) [
  | none ↦ returns (0, s)
  | some v ↦
      let cid = get_or s.cids i 0 in
      let one : TxDone = record {
        path = record { ring = v; skbs = s.skbs; log = s.log };
        sta_stats = get_or s.stats cid no_stats;
        ndev_stats = s.ndev_stats;
      } in
      tx_complete one >>= λ r. returns (
        r.0,
        record s {
          rings = set s.rings i (some r.1.path.ring);
          skbs = r.1.path.skbs;
          log = r.1.path.log;
          stats = set s.stats cid r.1.sta_stats;
          ndev_stats = r.1.ndev_stats;
        },
      )
]

-- the loop of `wil6210_netdev_poll_tx` over `n` rings from the ring `i` on
unfoldable pub complete_rings : ℕ → ℕ → ℕ → TxRings → Outcome (ℕ × TxRings)
unfolding complete_ring
complete_rings zero i tx_done s = returns (tx_done, s)
complete_rings (suc n) i tx_done s =
    complete_ring i s >>= λ r. complete_rings n (suc i) (tx_done + r.0) r.1

-- `WIL6210_MAX_TX_RINGS`
abbrev pub max_tx_rings : ℕ
max_tx_rings = 24

-- `wil6210_netdev_poll_tx`: what it returns, and whether it ends the polling and unmasks the
-- interrupt
unfoldable pub poll_tx : ℕ → TxRings → Outcome (ℕ × Bool × TxRings)
unfolding complete_rings
poll_tx budget s = complete_rings max_tx_rings 0 0 s >>= λ r.
    returns (if leb r.0 budget then r.0 else budget, leb r.0 1, r.1)
