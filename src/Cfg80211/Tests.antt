-- ===== src/Cfg80211/Tests.antt =====
-- A dump of a table with one station in use, a P2P search, and a request to connect.
use wigig_wil.Prelude.{◌≡◌, refl, true, false, none, some, [], ◌∷◌, replicate}
use wigig_wil.Station.Tests.{stas}
use wigig_wil.Dev.{Fw, success, eagain, failed, scan_done}
use wigig_wil.Dev.Tests.{device}
use wigig_wil.Cmd.Mlme.{wmi_p2p_cfg, wmi_set_ssid, wmi_start_search, wmi_stop_discovery}
use wigig_wil.Cfg80211.Info.{find_cid_by_idx, find_cid_by_idx-used_from, used_from, get_elem?}
use wigig_wil.Cfg80211.Scan.{
  ScanRequest, p2p_ssid, is_p2p_search, set_probe_ie, p2p_scan, start_scan, scan,
}
use wigig_wil.Cfg80211.Scans.{ScanEnds, scan-ScanEnds}
use wigig_wil.Cfg80211.Connect.{Bss, Sme}

find_cid_by_idx-used_from_example : find_cid_by_idx stas 0 ≡ get_elem? (used_from 0 stas) 0
find_cid_by_idx-used_from_example = find_cid_by_idx-used_from stas 0

-- a card that answers every command with success, and one that takes none
abbrev accepts : Fw
accepts cmds = record { rc = success; reply = replicate 12 0 }

abbrev refuses : Fw
refuses cmds = record { rc = failed 5; reply = [] }

abbrev search_request : ScanRequest
search_request = record {
  at = 9;
  ssids = p2p_ssid ∷ [];
  channels = (record { hw_value = 2; center_freq = 60480 }) ∷ [];
  ie = none;
}

abbrev plain : ScanRequest
plain = record search_request { ssids = [] }

scan-ScanEnds_example :
    ScanEnds accepts search_request device (scan accepts true search_request device)
scan-ScanEnds_example = scan-ScanEnds accepts true search_request device

search_aborted : (scan accepts true search_request device).1.told ≡ scan_done 9 true ∷ []
unfolding scan is_p2p_search p2p_scan set_probe_ie wmi_p2p_cfg wmi_set_ssid wmi_start_search
    wmi_stop_discovery wigig_wil.Cmd.call_plain wigig_wil.Cmd.call_status wigig_wil.Dev.wmi_send
    wigig_wil.Dev.wmi_call
search_aborted = refl

again_refused : (scan accepts true plain (scan refuses true plain device).1).0 ≡ eagain
unfolding scan is_p2p_search start_scan wigig_wil.Dev.wmi_send
again_refused = refl

abbrev bss : Bss
bss = record {
  at = 3;
  bssid = replicate 6 5;
  ssid = some (2, 119 ∷ 105 ∷ []);
  capability = 3;
  hw_value = 2;
}

abbrev sme : Sme
sme = record { ie = []; rsn = false }
