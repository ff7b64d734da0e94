-- ===== src/Cfg80211/Ap.antt =====
-- cfg80211.c: the access point.
use wigig_wil.Prelude.{
  ℕ, Bool, true, false, if◌then◌else◌, Option, none, some, List, length, Outcome, returns, ◌>>=◌,
}
use wigig_wil.Dev.{Dev, Rc, success, einval, is_success, Fw}
use wigig_wil.Dev.Disconnect.{disconnect}
use wigig_wil.Cmd.{u8}
use wigig_wil.Cmd.Mlme.{
  wmi_set_ssid, wmi_set_channel, wmi_set_mac_address, wmi_set_ie, wmi_set_passphrase, wmi_pcp_start,
}
use wigig_wil.Main.{World, Memory, reset, dev_rx_init, unless_failed}
use wigig_wil.Cfg80211.{iftype_nl2wmi}
use wigig_wil.Cfg80211.Scan.{and_then}

-- `struct cfg80211_ap_settings`; `channel` is the number of the channel, `none` being NULL
pub record ApSettings : Type 0 where
  pub channel : Option ℕ
  pub beacon_interval : ℕ
  pub ssid_len : ℕ
  pub ssid : List ℕ
  pub privacy : Bool
  pub proberesp_ies : List ℕ
  pub assocresp_ies : List ℕ

-- the parameters of the module, and whether commands get memory
pub record ModuleParams : Type 0 where
  pub use_pcp_for_ap : Bool
  pub passphrase : Option (List ℕ)
  pub got : Bool

-- the network type, the error code cut to a byte
unfoldable pub ap_nettype : ModuleParams → Dev → ℕ
unfolding iftype_nl2wmi
ap_nettype p d =
    if p.use_pcp_for_ap then 32 else elim (iftype_nl2wmi d.iftype) [ none ↦ 161 | some type ↦ type ]

-- a command whose result is not looked at
abbrev pub try_it : (Dev → Rc × Dev) → Dev → Dev
try_it send d = (send d).1

-- the passphrase of a secure access point
unfoldable pub set_ap_passphrase : Fw → ModuleParams → ApSettings → Dev → Rc × Dev
unfolding wmi_set_passphrase
set_ap_passphrase fw p info d = elim p.passphrase [
  | none ↦ (success, d)
  | some pass ↦
      if info.privacy
      then wmi_set_passphrase fw (u8 info.ssid_len) info.ssid (u8 (length pass)) pass d
      else (success, d)
]

-- `wil_cfg80211_start_ap` from the SSID on
unfoldable pub configure_ap : Fw → ModuleParams → Memory → ApSettings → ℕ → ℕ → Dev → Rc × Dev
unfolding wmi_set_ssid wmi_set_channel wmi_set_mac_address wmi_set_ie wmi_pcp_start
    set_ap_passphrase
configure_ap fw p m info nettype channel d =
    and_then (wmi_set_ssid fw (u8 info.ssid_len) info.ssid d) λ d1.
      and_then (wmi_set_channel fw channel d1) λ d2.
        let d3 = try_it (wmi_set_mac_address fw m.reserved d2.dev_addr) d2 in
        let d4 = try_it (wmi_set_ie fw p.got 2 (length info.proberesp_ies) info.proberesp_ies) d3 in
        let d5 = try_it (wmi_set_ie fw p.got 4 (length info.assocresp_ies) info.assocresp_ies) d4 in
        let d6 = record d5 { secure_pcp = info.privacy } in
        let d7 = try_it (set_ap_passphrase fw p info) d6 in
        let (rc, d8) =
          wmi_pcp_start fw (elim p.passphrase [ none ↦ false | some _ ↦ true ]) info.beacon_interval
            nettype (u8 channel) d7 in
        if is_success rc
        then (rc, record d8 { ssid_len = u8 info.ssid_len; ssid = info.ssid; carrier = true })
        else (rc, d8)

-- `wil_cfg80211_start_ap`
unfoldable pub start_ap : Fw → ModuleParams → World → Memory → ApSettings → Dev → Outcome (Rc × Dev)
unfolding ap_nettype reset dev_rx_init configure_ap
start_ap fw p w m info d =
    let nettype = ap_nettype p d in
    elim info.channel [
      | none ↦ returns (einval, d)
      | some channel ↦ reset w d >>= λ r. unless_failed r λ d1. dev_rx_init m d1 >>= λ q.
          unless_failed q λ d2. returns (configure_ap fw p m info nettype channel d2)
    ]

-- the code of the first that failed
abbrev pub first_failure : Rc → Rc → Rc
first_failure rc r = if is_success rc then r else rc

-- `wil_cfg80211_change_beacon`
unfoldable pub change_beacon : Fw → Bool → List ℕ → List ℕ → List ℕ → Dev → Rc × Dev
unfolding wmi_set_ie
change_beacon fw got proberesp assocresp beacon d =
    let (rc1, d1) = wmi_set_ie fw got 2 (length proberesp) proberesp d in
    let (rc2, d2) = wmi_set_ie fw got 4 (length assocresp) assocresp d1 in
    let (rc3, d3) = wmi_set_ie fw got 0 (length beacon) beacon d2 in
    (first_failure (first_failure rc1 rc2) rc3, d3)

-- `wil_cfg80211_del_station`
unfoldable pub del_station : List ℕ → Dev → Outcome (Rc × Dev)
unfolding disconnect
del_station mac d = disconnect d (some mac) >>= λ d'. returns (success, d')
