-- ===== src/Link.antt =====
-- Connection and disconnection of a station (main.c) and the table of its Tx rings (txrx.c):
-- `vring_tx[i].va` being NULL or not, and `vring2cid_tid[i]`, which a ring that is freed keeps.
pub mod Rings
pub mod Connect
pub mod Tests
use wigig_wil.Prelude.{
  ℕ, zero, suc, ◌+◌, ◌%◌, ◌==◌, Bool, true, false, not, ◌&&◌, if◌then◌else◌, Option, none, some,
  List, [], ◌∷◌, ◌++◌, get_or, set, replicate, Outcome, returns, ◌>>=◌,
}
use wigig_wil.Reorder.{Ampdu, RxEvent, tid_ampdu_rx_free}
use wigig_wil.Station.{
  Sta, StaStatus, sta_unused, sta_connected, sta_at, sta_tid_num, is_unused, find_cid,
}

pub record TxRing : Type 0 where
  pub active : Bool
  pub cid : ℕ
  pub tid : ℕ

abbrev pub no_ring : TxRing
no_ring = record { active = false; cid = 0; tid = 0 }

-- `wil_find_free_vring`; `none` is -EINVAL
unfoldable pub find_free_vring : List TxRing → Option ℕ
find_free_vring [] = none
find_free_vring (r ∷ rs) =
    let rest = find_free_vring rs in
    if not r.active then some 0 else elim rest [ none ↦ none | some i ↦ some (suc i) ]

-- `wil_vring_init_tx`: does it return 0? `got_mem` and `configured` say whether the ring gets
-- its memory and whether the firmware takes it; a ring that it does not take is freed.
unfoldable pub vring_init_tx : Bool → Bool → List TxRing → ℕ → ℕ → ℕ → Bool × List TxRing
vring_init_tx got_mem configured rings id cid tid =
    if (get_or rings id no_ring).active
    then (false, rings)
    else if not got_mem
    then (false, rings)
    else (configured, set rings id (record { active = configured; cid = cid; tid = tid }))

-- `wil_vring_fini_tx`, as far as the table of rings goes
unfoldable pub vring_fini_tx : TxRing → TxRing
vring_fini_tx r = record r { active = false }

-- the loop of `wil_disconnect_cid` over the rings
unfoldable pub fini_rings : ℕ → List TxRing → List TxRing
unfolding vring_fini_tx
fini_rings cid [] = []
fini_rings cid (r ∷ rs) = (if r.cid == cid then vring_fini_tx r else r) ∷ fini_rings cid rs

-- the loop of `wil_find_tx_vring`: the first ring of the CID, if it is active
unfoldable pub find_ring : ℕ → List TxRing → Option TxRing
find_ring cid [] = none
find_ring cid (r ∷ rs) =
    let rest = find_ring cid rs in if r.cid == cid then if r.active then some r else none else rest

-- `wil_find_tx_vring` for the destination address of a frame
unfoldable pub find_tx_vring : List Sta → List TxRing → List ℕ → Option TxRing
unfolding find_ring
find_tx_vring stas rings dest = elim (find_cid stas dest) [
  | none ↦ none
  | some cid ↦ find_ring cid rings
]

abbrev pub set_status : List Sta → ℕ → StaStatus → List Sta
set_status stas cid status = set stas cid (record (sta_at stas cid) { status = status })

-- what the worker reads and writes; `pending` is `pending_connect_cid`, `none` being -1
pub record Link : Type 0 where
  pub stas : List Sta
  pub rings : List TxRing
  pub pending : Option ℕ
  pub tid_to_use : ℕ

-- `wil_connect_worker`; `none` is an access outside of `vring_tx`, at the index -EINVAL
unfoldable pub connect_worker : Bool → Bool → Link → Option Link
unfolding find_free_vring vring_init_tx
connect_worker got_mem configured s =
    let tid = s.tid_to_use % 16 in
    elim s.pending [
      | none ↦ some s
      | some cid ↦ elim (find_free_vring s.rings) [
        | none ↦ none
        | some id ↦
            let (ok, rings) = vring_init_tx got_mem configured s.rings id cid tid in
            some (record s {
              stas = set_status s.stas cid (if ok then sta_connected else sta_unused);
              rings = rings;
              pending = none;
            })
      ]
    ]

-- the loop of `wil_disconnect_cid` over the sessions of a station
unfoldable pub free_sessions : List (Option Ampdu) → Outcome (List RxEvent)
free_sessions [] = returns []
free_sessions (r ∷ rs) =
    tid_ampdu_rx_free r >>= λ out. free_sessions rs >>= λ out'. returns (out ++ out')

-- `wil_disconnect_cid`: the state it leaves, the frames passed on, and whether it tells the
-- firmware to disconnect the station
unfoldable pub disconnect_cid : Link → ℕ → Outcome (Link × List RxEvent × Bool)
unfolding free_sessions fini_rings
disconnect_cid s cid =
    let sta = sta_at s.stas cid in
    free_sessions sta.tid_rx >>= λ out. returns (
      record s {
        stas =
            set s.stas cid
              (record sta { status = sta_unused; tid_rx = replicate sta_tid_num none });
        rings = fini_rings cid s.rings;
      },
      out,
      not (is_unused sta.status),
    )
