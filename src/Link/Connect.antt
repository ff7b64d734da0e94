-- ===== src/Link/Connect.antt =====
-- `wil_connect_worker`, `wil_disconnect_cid` and `wil_find_tx_vring` on the table of rings.
use mathlib.Core.Path.{subst}
use wigig_wil.Prelude.{
  ℕ, zero, suc, ◌%◌, ◌<◌, ◌≡◌, ◌∙◌, refl, ap, Bool, true, false, not, ◌&&◌, if◌then◌else◌, Option,
  none, some, is_some, List, [], ◌∷◌, ◌++◌, get_or, set, replicate, length, get_or-set_self,
  Bool-cases, Option-cases, inl, inr, arith, returns,
}
use wigig_wil.Reorder.{Ampdu, RxEvent}
use wigig_wil.Reorder.Order.{IsPlaced}
use wigig_wil.Station.Back.Worker.{held, tid_ampdu_rx_free-held}
use wigig_wil.Station.{
  find_cid, Sta, sta_unused, sta_connected, sta_at, no_sta, sta_tid_num, is_unused, is_connected,
}
use wigig_wil.Link.{
  find_tx_vring, TxRing, no_ring, find_free_vring, vring_init_tx, fini_rings, Link, connect_worker,
  disconnect_cid, free_sessions, set_status,
}
use wigig_wil.Link.Rings.{
  first_is_free, next_is_free, has_ring, IsFound, taken-IsFound, fini_rings-IsFound,
  fini_rings-has_ring,
}

-- the free ring that is found is in the table and not in use
free_lem :
    (rs : List TxRing) (k : ℕ)
    → find_free_vring rs ≡ some k
    → (k < length rs) × ((get_or rs k no_ring).active ≡ false)
unfolding find_free_vring
free_lem [] k e = absurd (none≢some e)
  where
    none≢some : {k : ℕ} → ◌≡◌ {A = Option ℕ} none (some k) → ⊥
    none≢some e = cc
free_lem (r ∷ rs) zero e = elim (Bool-cases r.active) [
  | inl on ↦ absurd (first_is_free r rs on e)
  | inr off ↦ (omega arith, off)
]
free_lem (r ∷ rs) (suc k) e =
    let h = free_lem rs k (next_is_free r rs k e).1 in (omega (arith, h.0), h.1)

has_ring-set :
    (cid : ℕ) (new : TxRing) (rs : List TxRing) (k : ℕ)
    → k < length rs
    → new.cid ≡ cid
    → new.active ≡ true
    → has_ring cid (set rs k new) ≡ true
has_ring-set cid new [] k lt e on = absurd (omega arith)
has_ring-set cid new (r ∷ rs) zero lt e on = ground (arith, e, on)
has_ring-set cid new (r ∷ rs) (suc k) lt e on =
    ground (arith, has_ring-set cid new rs k (omega arith) e on)

has_ring-set_off :
    (cid : ℕ) (new : TxRing) (rs : List TxRing) (k : ℕ)
    → new.active ≡ false
    → has_ring cid rs ≡ false
    → has_ring cid (set rs k new) ≡ false
has_ring-set_off cid new [] k off h = refl
has_ring-set_off cid new (r ∷ rs) zero off h = ground (arith, off, h)
has_ring-set_off cid new (r ∷ rs) (suc k) off h =
    let rest : has_ring cid rs ≡ false = ground (arith, h) in
    ground (arith, h, has_ring-set_off cid new rs k off rest)

-- the ring table after the lowest free ring `k` is given to a station, or is refused
abbrev given : Bool → Bool → List TxRing → ℕ → ℕ → ℕ → List TxRing
given got_mem configured rings k cid tid =
    if got_mem then set rings k (record { active = configured; cid = cid; tid = tid }) else rings

given-IsFound :
    (got configured : Bool) (rings : List TxRing) (k cid tid d : ℕ)
    → find_free_vring rings ≡ some k
    → has_ring cid rings ≡ false
    → IsFound d rings
    → IsFound d (given got configured rings k cid tid)
given-IsFound false configured rings k cid tid d free alone found = found
given-IsFound true configured rings k cid tid d free alone found =
    taken-IsFound d (record { active = configured; cid = cid; tid = tid }) rings k free
      (λ e off. subst (λ c. has_ring c rings ≡ false) e alone) found

given-has_ring :
    (got configured : Bool) (rings : List TxRing) (k cid tid : ℕ)
    → find_free_vring rings ≡ some k
    → has_ring cid rings ≡ false
    → has_ring cid (given got configured rings k cid tid) ≡ (got && configured)
given-has_ring false configured rings k cid tid free alone = alone
given-has_ring true true rings k cid tid free alone =
    has_ring-set cid (record { active = true; cid = cid; tid = tid }) rings k
      (free_lem rings k free).0 refl refl
given-has_ring true false rings k cid tid free alone =
    has_ring-set_off cid (record { active = false; cid = cid; tid = tid }) rings k refl alone

is_connected-if : (b : Bool) → is_connected (if b then sta_connected else sta_unused) ≡ b
is_connected-if true = refl
is_connected-if false = refl

-- what a connection leaves: the request is gone, the station is connected if and only if it has a
-- ring, and the search still finds the ring of every station that has one
pub record IsConnected (s' : Link) (cid : ℕ) (ok : Bool) : Type 0 where
  done : s'.pending ≡ none
  connected : is_connected (sta_at s'.stas cid).status ≡ ok
  owns : has_ring cid s'.rings ≡ ok
  found : (d : ℕ) → IsFound d s'.rings

-- A pending connection of a station without a ring, with a free ring, is settled: the station is
-- connected if and only if it got its ring, and the search for a ring finds one for exactly the
-- stations that have one, if it did before.
pub connect_worker_lem :
    (got configured : Bool) (s : Link) (cid k : ℕ)
    → s.pending ≡ some cid
    → find_free_vring s.rings ≡ some k
    → cid < length s.stas
    → has_ring cid s.rings ≡ false
    → ((d : ℕ) → IsFound d s.rings)
    → (s' : Link) × (connect_worker got configured s ≡ some s')
      × IsConnected s' cid (got && configured)
unfolding connect_worker vring_init_tx
connect_worker_lem got configured s cid k asked free lt alone found =
    let off = (free_lem s.rings k free).1 in
    let status = if got && configured then sta_connected else sta_unused in
    (
      record s {
        stas = set_status s.stas cid status;
        rings = given got configured s.rings k cid (s.tid_to_use % 16);
        pending = none;
      },
      ground (arith, asked, free, off),
      record {
        done = refl;
        connected =
            ap (λ t. is_connected t.status) (get_or-set_self s.stas cid _ no_sta lt)
            ∙ is_connected-if (got && configured);
        owns = given-has_ring got configured s.rings k cid (s.tid_to_use % 16) free alone;
        found = λ d.
            given-IsFound got configured s.rings k cid (s.tid_to_use % 16) d free alone (found d);
      },
    )

-- the frames that the sessions of a station hold, in order
abbrev pub held_all : List (Option Ampdu) → List RxEvent
held_all [] = []
held_all (r ∷ rs) = held r ++ held_all rs

pub free_sessions-held_all :
    (rs : List (Option Ampdu))
    → ((tid : ℕ) (r : Ampdu) → get_or rs tid none ≡ some r → IsPlaced r)
    → free_sessions rs ≡ returns (held_all rs)
unfolding free_sessions
free_sessions-held_all [] ok = refl
free_sessions-held_all (r ∷ rs) ok =
    rw (tid_ampdu_rx_free-held r (ok 0))
      (rw (free_sessions-held_all rs (λ tid q e. ok (suc tid) q e)) refl)

-- what a disconnection leaves: no session and no ring of the station
pub record IsDisconnected (s' : Link) (cid : ℕ) : Type 0 where
  pub unused : is_unused (sta_at s'.stas cid).status ≡ true
  pub sessions : (sta_at s'.stas cid).tid_rx ≡ replicate sta_tid_num none
  pub alone : has_ring cid s'.rings ≡ false
  pub found : (d : ℕ) → IsFound d s'.rings

-- the state that a disconnection leaves
abbrev pub cleared : Link → ℕ → Link
cleared s cid = record s {
  stas =
      set s.stas cid
        (record (sta_at s.stas cid) { status = sta_unused; tid_rx = replicate sta_tid_num none });
  rings = fini_rings cid s.rings;
}

pub disconnect_cid-cleared :
    (s : Link) (cid : ℕ)
    → ((tid : ℕ) (r : Ampdu) → get_or (sta_at s.stas cid).tid_rx tid none ≡ some r → IsPlaced r)
    → disconnect_cid s cid
      ≡ returns (
        cleared s cid,
        held_all (sta_at s.stas cid).tid_rx,
        not (is_unused (sta_at s.stas cid).status),
      )
unfolding disconnect_cid
disconnect_cid-cleared s cid placed =
    rw (free_sessions-held_all (sta_at s.stas cid).tid_rx placed) refl

pub cleared-IsDisconnected :
    (s : Link) (cid : ℕ)
    → cid < length s.stas
    → ((d : ℕ) → IsFound d s.rings)
    → IsDisconnected (cleared s cid) cid
cleared-IsDisconnected s cid lt found =
    let gone = record (sta_at s.stas cid) {
      status = sta_unused;
      tid_rx = replicate sta_tid_num none;
    } in
    let at : sta_at (set s.stas cid gone) cid ≡ gone = get_or-set_self s.stas cid gone no_sta lt in
    record {
      unused = ap (λ t. is_unused t.status) at;
      sessions = ap (λ t. t.tid_rx) at;
      alone = ground (arith, fini_rings-has_ring cid cid s.rings);
      found = λ d. fini_rings-IsFound cid d s.rings (found d);
    }

-- A disconnection returns: the sessions pass on the frames that they hold, the firmware is told
-- exactly if the station was in use, the station has no session and no ring left, and the search
-- still finds the rings of the others.
disconnect_cid_lem :
    (s : Link) (cid : ℕ)
    → cid < length s.stas
    → ((tid : ℕ) (r : Ampdu) → get_or (sta_at s.stas cid).tid_rx tid none ≡ some r → IsPlaced r)
    → ((d : ℕ) → IsFound d s.rings)
    → (s' : Link) × (disconnect_cid s cid
        ≡ returns
            (s', held_all (sta_at s.stas cid).tid_rx, not (is_unused (sta_at s.stas cid).status)))
      × IsDisconnected s' cid
disconnect_cid_lem s cid lt placed found =
    (cleared s cid, disconnect_cid-cleared s cid placed, cleared-IsDisconnected s cid lt found)

-- While every ring in use is within reach, a frame finds a ring exactly if its destination is
-- a station in use that has one.
find_tx_vring_lem :
    (stas : List Sta) (rings : List TxRing) (dest : List ℕ)
    → ((d : ℕ) → IsFound d rings)
    → is_some (find_tx_vring stas rings dest)
      ≡ (elim (find_cid stas dest) [ none ↦ false | some cid ↦ has_ring cid rings ])
unfolding find_tx_vring
find_tx_vring_lem stas rings dest found = elim (Option-cases (find_cid stas dest)) [
  | inl e ↦ rw (e, find_tx_vring) refl
  | inr (cid, e) ↦ rw (e, find_tx_vring) (found cid)
]
