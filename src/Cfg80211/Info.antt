-- ===== src/Cfg80211/Info.antt =====
-- cfg80211.c: what the stack is told of the stations.
use wigig_wil.Prelude.{
  ℕ, zero, suc, ◌-◌, ◌≡◌, refl, ◌==◌, false, if◌then◌else◌, Option, none, some, List, [], ◌∷◌,
  get_or, Bool-cases, inl, inr, arith,
}
use wigig_wil.Station.{Sta, sta_at, is_unused, find_cid}
use wigig_wil.Rx.{NetStats, no_stats}
use wigig_wil.Dev.{Dev, Rc, enoent, is_success, Fw, wmi_call, le16}
use wigig_wil.Cmd.{evt_byte}
use wigig_wil.Cmd.Structs.{notify_req_cmd}

-- the part of `struct station_info` that the driver fills in; `signal` is `none` if not filled
pub record StationInfo : Type 0 where
  pub generation : ℕ
  pub tx_mcs : ℕ
  pub rx_mcs : ℕ
  pub stats : NetStats
  pub signal : Option ℕ

-- `wil_cid_fill_sinfo`
unfoldable pub cid_fill_sinfo : Fw → ℕ → Dev → Rc × Dev × Option StationInfo
unfolding wmi_call
cid_fill_sinfo fw cid d =
    let (r, d') = wmi_call fw (record { id = 0x863; body = notify_req_cmd cid 0 }) d in
    let stats = get_or d.stats cid no_stats in
    if is_success r.rc
    then (
      r.rc,
      d',
      some (record {
        generation = d.sinfo_gen;
        tx_mcs = le16 r.reply 36;
        rx_mcs = stats.last_mcs_rx;
        stats = stats;
        signal = if d.fwconnected then some (evt_byte r 40) else none;
      }),
    )
    else (r.rc, d', none)

-- `wil_cfg80211_get_station`
unfoldable pub get_station : Fw → List ℕ → Dev → Rc × Dev × Option StationInfo
unfolding cid_fill_sinfo
get_station fw mac d = elim (find_cid d.link.stas mac) [
  | none ↦ (enoent, d, none)
  | some cid ↦ cid_fill_sinfo fw cid d
]

-- the loop of `wil_find_cid_by_idx` from station `i` on; `none` is -ENOENT
unfoldable pub find_cid_by_idx_from : ℕ → List Sta → ℕ → Option ℕ
find_cid_by_idx_from i [] idx = none
find_cid_by_idx_from i (sta ∷ stas) idx =
    let skip = find_cid_by_idx_from (suc i) stas idx in
    let next = find_cid_by_idx_from (suc i) stas (idx - 1) in
    if is_unused sta.status then skip else if idx == 0 then some i else next

unfoldable pub find_cid_by_idx : List Sta → ℕ → Option ℕ
unfolding find_cid_by_idx_from
find_cid_by_idx stas idx = find_cid_by_idx_from 0 stas idx

-- `wil_cfg80211_dump_station`: the address, and what is told of the station
unfoldable pub dump_station : Fw → ℕ → Dev → Rc × Dev × Option (List ℕ × Option StationInfo)
unfolding find_cid_by_idx cid_fill_sinfo
dump_station fw idx d = elim (find_cid_by_idx d.link.stas idx) [
  | none ↦ (enoent, d, none)
  | some cid ↦
      let (rc, d', info) = cid_fill_sinfo fw cid d in
      (rc, d', some ((sta_at d.link.stas cid).addr, info))
]

-- the CIDs of the stations in use, in order
abbrev pub used_from : ℕ → List Sta → List ℕ
used_from i [] = []
used_from i (sta ∷ stas) =
    if is_unused sta.status then used_from (suc i) stas else i ∷ used_from (suc i) stas

abbrev pub get_elem? : List ℕ → ℕ → Option ℕ
get_elem? [] i = none
get_elem? (x ∷ xs) zero = some x
get_elem? (x ∷ xs) (suc i) = get_elem? xs i

find_cid_by_idx_from-used_from :
    (stas : List Sta) (i idx : ℕ)
    → find_cid_by_idx_from i stas idx ≡ get_elem? (used_from i stas) idx
unfolding find_cid_by_idx_from
find_cid_by_idx_from-used_from [] i idx = refl
find_cid_by_idx_from-used_from (sta ∷ stas) i zero = elim (Bool-cases (is_unused sta.status)) [
  | inl off ↦ rw off (find_cid_by_idx_from-used_from stas (suc i) zero)
  | inr on ↦ rw on refl
]
find_cid_by_idx_from-used_from (sta ∷ stas) i (suc idx) = elim (Bool-cases (is_unused sta.status)) [
  | inl off ↦ rw off (find_cid_by_idx_from-used_from stas (suc i) (suc idx))
  | inr on ↦
      let less : suc idx - 1 ≡ idx = omega arith in
      let more : (suc idx == 0) ≡ false = ground arith in
      rw on (rw more (rw less (find_cid_by_idx_from-used_from stas (suc i) idx)))
]

-- For every index, a dump finds the station that stands at it among the stations in use, in the
-- order of their CIDs, and none just if there are not so many.
pub find_cid_by_idx-used_from :
    (stas : List Sta) (idx : ℕ) → find_cid_by_idx stas idx ≡ get_elem? (used_from 0 stas) idx
unfolding find_cid_by_idx
find_cid_by_idx-used_from stas idx = find_cid_by_idx_from-used_from stas 0 idx
