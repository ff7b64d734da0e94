-- ===== src/Cfg80211/Scan.antt =====
-- cfg80211.c: a request to scan.
use wigig_wil.Prelude.{
  ℕ, ◌==◌, Bool, false, not, ◌&&◌, if◌then◌else◌, Option, none, some, is_some, List, [], ◌∷◌,
  length, take,
}
use wigig_wil.Station.{addr_equal}
use wigig_wil.Dev.{
  Dev, Rc, success, eagain, ebusy, eopnotsupp, is_success, Fw, wmi_send, tell, scan_done,
}
use wigig_wil.Dev.Disconnect.{is_client}
use wigig_wil.Cmd.{channel0}
use wigig_wil.Cmd.Structs.{start_scan_cmd}
use wigig_wil.Cmd.Mlme.{wmi_p2p_cfg, wmi_set_ssid, wmi_set_ie, wmi_start_search, wmi_stop_discovery}

-- `struct ieee80211_channel`
pub record Channel : Type 0 where
  pub hw_value : ℕ
  pub center_freq : ℕ

-- `struct cfg80211_scan_request`, at an address; `ie` is `none` for NULL
pub record ScanRequest : Type 0 where
  pub at : ℕ
  pub ssids : List (List ℕ)
  pub channels : List Channel
  pub ie : Option (List ℕ)

-- "DIRECT-"
abbrev pub p2p_ssid : List ℕ
p2p_ssid = 68 ∷ 73 ∷ 82 ∷ 69 ∷ 67 ∷ 84 ∷ 45 ∷ []

abbrev is_60480 : List Channel → Bool
is_60480 (c ∷ []) = c.center_freq == 60480
is_60480 _ = false

abbrev is_p2p_ssid : List (List ℕ) → Bool
is_p2p_ssid (ssid ∷ []) = addr_equal ssid p2p_ssid
is_p2p_ssid _ = false

-- `wil_scan_is_p2p_search`
unfoldable pub is_p2p_search : ScanRequest → Bool
is_p2p_search r = is_60480 r.channels && is_p2p_ssid r.ssids

-- the IE of a search, if there is one
unfoldable pub set_probe_ie : Fw → Bool → Option (List ℕ) → Dev → Rc × Dev
unfolding wmi_set_ie
set_probe_ie fw got none d = (success, d)
set_probe_ie fw got (some ie) d =
    if length ie == 0 then (success, d) else wmi_set_ie fw got 1 (length ie) ie d

-- one step after another, up to the first that fails
abbrev pub and_then : Rc × Dev → (Dev → Rc × Dev) → Rc × Dev
and_then p next = if is_success p.0 then next p.1 else p

-- `wil_p2p_scan`
unfoldable pub p2p_scan : Fw → Bool → ScanRequest → Dev → Rc × Dev
unfolding wmi_p2p_cfg wmi_set_ssid set_probe_ie wmi_start_search wmi_stop_discovery
p2p_scan fw got r d =
    let (rc, d1) = wmi_p2p_cfg fw 2 100 d in
    let (rc2, d2) =
      and_then (wmi_set_ssid fw 7 p2p_ssid d1)
        λ e. and_then (set_probe_ie fw got r.ie e) λ e'. wmi_start_search fw e' in
    let d3 = (wmi_stop_discovery fw d2).1 in
    if not (is_success rc)
    then (rc, tell (scan_done r.at (is_success rc)) d1)
    else (rc2, tell (scan_done r.at (is_success rc2)) d3)

-- the channels that go into the command: an unknown one is left out
unfoldable pub scan_list : List Channel → List ℕ
scan_list [] = []
scan_list (c ∷ cs) =
    let rest = scan_list cs in if c.hw_value == 0 then rest else channel0 c.hw_value ∷ rest

-- the scan that the firmware is asked for
unfoldable pub start_scan : Fw → ScanRequest → Dev → Rc × Dev
unfolding wmi_send scan_list
start_scan fw r d =
    wmi_send fw (record { id = 7; body = start_scan_cmd (scan_list (take 4 r.channels)) })
      (record d { scan_request = some r.at })

-- `wil_cfg80211_scan`
unfoldable pub scan : Fw → Bool → ScanRequest → Dev → Rc × Dev
unfolding is_p2p_search p2p_scan start_scan
scan fw got r d =
    if is_some d.scan_request
    then (eagain, d)
    else if not (is_client d.iftype)
    then (eopnotsupp, d)
    else if d.dontscan
    then (ebusy, d)
    else if is_p2p_search r
    then p2p_scan fw got r d
    else start_scan fw r d
