-- ===== src/Evt/Backs.antt =====
-- `wmi_evt_ba_status` (wmi.c) on the sessions of the station.
use mathlib.Core.Path.{subst}
use wigig_wil.Prelude.{
  ℕ, zero, suc, ◌+◌, ◌%◌, ◌<◌, ◌≡◌, ◌≢◌, ◌∙◌, refl, sym, ap, Bool, true, false, not, ◌&&◌, ◌||◌,
  leb, ltb, ◌==◌, if◌then◌else◌, Option, none, some, List, [], ◌∷◌, ◌++◌, length, get_or, set,
  Bool-cases, inl, inr, arith, returns,
}
use wigig_wil.Reorder.{Ampdu, tid_ampdu_rx_alloc}
use wigig_wil.Reorder.Order.{IsPlaced}
use wigig_wil.Reorder.Session.{tid_ampdu_rx_alloc-IsPlaced}
use wigig_wil.Station.{session, sta_at, is_unused, max_cid, sta_tid_num}
use wigig_wil.Station.Back.Worker.{tid_ampdu_rx_free-held}
use wigig_wil.Station.Table.{IsTable, set-IsTable, sta_at-set, sta_at-set_ne}
use wigig_wil.Link.{no_ring}
use wigig_wil.Link.Connect.{held_all}
use wigig_wil.Dev.{Dev, passed}
use wigig_wil.Evt.{BaEvent, ba_event}
use wigig_wil.Evt.Station.{renew_sessions, wmi_evt_ba_status}

-- the session that takes the place of the `tid`th one
abbrev pub new_session : Bool → ℕ → (ℕ → Bool) → ℕ → Option Ampdu
new_session agreed size got tid =
    if agreed then tid_ampdu_rx_alloc (got tid) true true size 0 else none

abbrev pub renewed : Bool → ℕ → (ℕ → Bool) → ℕ → List (Option Ampdu) → List (Option Ampdu)
renewed agreed size got tid [] = []
renewed agreed size got tid (r ∷ rs) =
    new_session agreed size got tid ∷ renewed agreed size got (suc tid) rs

module _ (agreed : Bool) (size : ℕ) (got : ℕ → Bool) where
  renew_sessions-renewed :
      (tid : ℕ) (rs : List (Option Ampdu))
      → ((k : ℕ) (r : Ampdu) → get_or rs k none ≡ some r → IsPlaced r)
      → renew_sessions agreed size got tid rs
        ≡ returns (renewed agreed size got tid rs, held_all rs)
  unfolding renew_sessions
  renew_sessions-renewed tid [] ok = refl
  renew_sessions-renewed tid (r ∷ rs) ok =
      rw (tid_ampdu_rx_free-held r (ok 0))
        (rw (renew_sessions-renewed (suc tid) rs (λ k q e. ok (suc k) q e)) refl)

  length-renewed :
      (tid : ℕ) (rs : List (Option Ampdu)) → length (renewed agreed size got tid rs) ≡ length rs
  length-renewed tid [] = refl
  length-renewed tid (r ∷ rs) = ap suc (length-renewed (suc tid) rs)

  get_or-renewed :
      (tid : ℕ) (rs : List (Option Ampdu)) (k : ℕ)
      → k < length rs
      → get_or (renewed agreed size got tid rs) k none ≡ new_session agreed size got (tid + k)
  get_or-renewed tid [] k lt = absurd (omega arith)
  get_or-renewed tid (r ∷ rs) zero lt = ap (new_session agreed size got) (omega arith)
  get_or-renewed tid (r ∷ rs) (suc k) lt =
      get_or-renewed (suc tid) rs k (omega arith) ∙ ap (new_session agreed size got) (omega arith)

-- a size that the reorder buffer can work with
abbrev pub is_window : ℕ → Bool
is_window size = leb 2 size && (ltb size 2048 && ((4096 % size) == 0))

some-injective : {r q : Ampdu} → ◌≡◌ {A = Option Ampdu} (some r) (some q) → r ≡ q
some-injective e = cc

none≢some : {r : Ampdu} → ◌≡◌ {A = Option Ampdu} none (some r) → ⊥
none≢some e = cc

new_session-IsPlaced :
    (agreed ok : Bool) (size : ℕ) (r : Ampdu)
    → (agreed ≡ true → is_window size ≡ true)
    → (if agreed then tid_ampdu_rx_alloc ok true true size 0 else none) ≡ some r
    → IsPlaced r
unfolding tid_ampdu_rx_alloc
new_session-IsPlaced false ok size r fair e = absurd (none≢some e)
new_session-IsPlaced true false size r fair e = absurd (none≢some e)
new_session-IsPlaced true true size r fair e =
    let w = fair refl in
    let h =
      tid_ampdu_rx_alloc-IsPlaced size 0 (ground (arith, w)) (ground (arith, w)) (ground (arith, w))
        (omega arith) in
    subst IsPlaced (some-injective (sym h.0 ∙ e)) h.1

renewed-IsPlaced :
    (agreed : Bool) (size : ℕ) (got : ℕ → Bool) (tid : ℕ) (rs : List (Option Ampdu))
    → (agreed ≡ true → is_window size ≡ true)
    → (k : ℕ) (r : Ampdu) → get_or (renewed agreed size got tid rs) k none ≡ some r
    → IsPlaced r
renewed-IsPlaced agreed size got tid [] fair k r e = absurd (none≢some e)
renewed-IsPlaced agreed size got tid (q ∷ rs) fair zero r e =
    new_session-IsPlaced agreed (got tid) size r fair e
renewed-IsPlaced agreed size got tid (q ∷ rs) fair (suc k) r e =
    renewed-IsPlaced agreed size got (suc tid) rs fair k r e

abbrev pub is_agreed : BaEvent → Bool
is_agreed evt = (evt.status == 0) && not (evt.agg_wsize == 0)

-- the station whose Tx ring the event names
abbrev pub ba_cid : BaEvent → Dev → ℕ
ba_cid evt d = (get_or d.link.rings evt.ringid no_ring).cid

-- does the handler take the event?
abbrev pub is_known : BaEvent → Dev → Bool
is_known evt d =
    not (leb 24 evt.ringid)
    && (not (leb max_cid (ba_cid evt d))
        && not (is_unused (sta_at d.link.stas (ba_cid evt d)).status))

pub record Renewed (evt : BaEvent) (got : ℕ → Bool) (d d' : Dev) : Type 0 where
  pub table : IsTable d'.link.stas
  pub told : d'.told ≡ d.told ++ (passed (held_all (sta_at d.link.stas (ba_cid evt d)).tid_rx) ∷ [])
  pub sessions :
      (tid : ℕ)
      → tid < sta_tid_num
      → session d'.link.stas (ba_cid evt d) tid ≡ new_session (is_agreed evt) evt.agg_wsize got tid
  pub others : (c : ℕ) → c ≢ ba_cid evt d → sta_at d'.link.stas c ≡ sta_at d.link.stas c
  pub rings : d'.link.rings ≡ d.link.rings
  pub ready : d'.ready ≡ d.ready

-- how the event is handled
pub data Handled (evt : BaEvent) (got : ℕ → Bool) (d d' : Dev) : Type 0 where
  ignored : is_known evt d ≡ false → d' ≡ d → Handled evt got d d'
  handled : is_known evt d ≡ true → Renewed evt got d d' → Handled evt got d d'

-- an event that opens no session, or sessions of a fair size
abbrev pub is_fair_ba : BaEvent → Bool
is_fair_ba evt = not (is_agreed evt) || is_window evt.agg_wsize

Renewed-set :
    (evt : BaEvent) (got : ℕ → Bool) (d : Dev)
    → IsTable d.link.stas
    → is_fair_ba evt ≡ true
    → ba_cid evt d < max_cid
    → Renewed evt got d (record d {
      told = d.told ++ (passed (held_all (sta_at d.link.stas (ba_cid evt d)).tid_rx) ∷ []);
      link = record d.link {
        stas = set d.link.stas (ba_cid evt d) (record (sta_at d.link.stas (ba_cid evt d)) {
          tid_rx =
              renewed
                (is_agreed evt)
                evt.agg_wsize
                got
                0
                (sta_at d.link.stas (ba_cid evt d)).tid_rx;
        });
      };
      tx_data =
          set d.tx_data evt.ringid
            (record { agg_wsize = evt.agg_wsize; agg_timeout = evt.ba_timeout });
    })
unfolding session
Renewed-set evt got d t fair lt =
    let cid = ba_cid evt d in
    let sta = sta_at d.link.stas cid in
    let rs = renewed (is_agreed evt) evt.agg_wsize got 0 sta.tid_rx in
    let new = record sta { tid_rx = rs } in
    let at = sta_at-set d.link.stas cid new t lt in
    let len = length-renewed (is_agreed evt) evt.agg_wsize got 0 sta.tid_rx in
    record {
      table = set-IsTable d.link.stas cid new t lt (len ∙ t.tids cid lt) (
          renewed-IsPlaced (is_agreed evt) evt.agg_wsize got 0 sta.tid_rx
            (λ yes_agreed. ground (arith, fair, yes_agreed)));
      told = refl;
      sessions = λ tid tid_lt.
          ap (λ x. get_or x.tid_rx tid none) at
          ∙ get_or-renewed (is_agreed evt) evt.agg_wsize got 0 sta.tid_rx tid
              (omega (arith, t.tids cid lt, tid_lt))
          ∙ ap (new_session (is_agreed evt) evt.agg_wsize got) (omega arith);
      others = λ c ne. sta_at-set_ne d.link.stas cid c new (λ e. ne (sym e));
      rings = refl;
      ready = refl;
    }

-- The event, with a size that the reorder buffer can work with, is handled. For a ring in range
-- whose station is in use, every session of the station is closed, its frames passed on, and if
-- the peer agreed opened again with that size; the table stays well-formed, and the other stations
-- and the rings as they were. Any other event changes nothing.
pub wmi_evt_ba_status-Handled :
    (got : ℕ → Bool) (bytes : List ℕ) (d : Dev)
    → IsTable d.link.stas
    → is_fair_ba (ba_event bytes) ≡ true
    → (d' : Dev) × (wmi_evt_ba_status got bytes d ≡ returns d') × Handled (ba_event bytes) got d d'
unfolding wmi_evt_ba_status session
wmi_evt_ba_status-Handled got bytes d t fair =
    let evt = ba_event bytes in
    let cid = ba_cid evt d in
    let sta = sta_at d.link.stas cid in
    elim (Bool-cases (leb 24 evt.ringid)) [
      | inl far ↦ (d, rw (far, wmi_evt_ba_status) refl, ignored (ground (arith, far)) refl)
      | inr near ↦ elim (Bool-cases (leb max_cid cid)) [
        | inl far ↦
            (d, rw (near, far, wmi_evt_ba_status) refl, ignored (ground (arith, near, far)) refl)
        | inr lt ↦ elim (Bool-cases (is_unused sta.status)) [
          | inl off ↦ (
            d,
            rw (near, lt, off, wmi_evt_ba_status) refl,
            ignored (ground (arith, near, lt, off)) refl,
          )
          | inr on ↦ (
            _,
            rw (near, lt, on, wmi_evt_ba_status)
                (rw
                  (renew_sessions-renewed (is_agreed evt) evt.agg_wsize got 0 sta.tid_rx
                    (t.placed cid))
                  refl),
            handled (ground (arith, near, lt, on))
                (Renewed-set evt got d t fair (ground (arith, lt))),
          )
        ]
      ]
    ]
