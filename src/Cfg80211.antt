-- ===== src/Cfg80211.antt =====
-- cfg80211.c: what the wireless stack asks of the driver. A pointer of the stack is a number; what
-- the kernel finds in a list of IEs is a parameter.
pub mod Scan
pub mod Scans
pub mod Search
pub mod Connect
pub mod Connections
pub mod Info
pub mod Ap
mod Tests
use wigig_wil.Prelude.{
  ℕ, ◌==◌, Bool, true, false, not, if◌then◌else◌, Option, none, some, List, [], ◌∷◌, ◌++◌,
}
use wigig_wil.Roc
use wigig_wil.Roc.{Roc, RocCode, RocCall, prepare_roc}
use wigig_wil.Dev.{
  Dev, Iftype, adhoc, station, ap, p2p_client, p2p_go, monitor, other, Rc, success, eopnotsupp,
  is_success, Fw, wmi_send, tell, mgmt_tx_status,
}
use wigig_wil.Dev.Disconnect.{disconnect}
use wigig_wil.Cmd.Mlme.{wmi_pcp_stop, wmi_add_cipher_key, wmi_del_cipher_key}
use wigig_wil.Cmd.Traffic.{wmi_mgmt_tx}

-- `wil_iftype_nl2wmi`; `none` is -EOPNOTSUPP
unfoldable pub iftype_nl2wmi : Iftype → Option ℕ
iftype_nl2wmi adhoc = some 2
iftype_nl2wmi station = some 1
iftype_nl2wmi ap = some 16
iftype_nl2wmi p2p_client = some 32
iftype_nl2wmi p2p_go = some 32
iftype_nl2wmi monitor = some 2
iftype_nl2wmi other = none

-- the types of interface that `wil_cfg80211_change_iface` takes, and what it keeps of the flags
unfoldable pub takes_iface : Iftype → Bool
takes_iface adhoc = false
takes_iface other = false
takes_iface _ = true

abbrev flags_for : Iftype → Option ℕ → ℕ → ℕ
flags_for monitor none old = 0
flags_for monitor (some flags) old = flags
flags_for _ flags old = old

-- `wil_cfg80211_change_iface`; `none` are no flags
unfoldable pub change_iface : Iftype → Option ℕ → Dev → Rc × Dev
unfolding takes_iface
change_iface type flags d =
    if takes_iface type
    then (success, record d { iftype = type; monitor_flags = flags_for type flags d.monitor_flags })
    else (eopnotsupp, d)

-- `wil_cfg80211_disconnect`
unfoldable pub cfg_disconnect : Fw → Dev → Rc × Dev
unfolding wmi_send
cfg_disconnect fw d = wmi_send fw (record { id = 3; body = [] }) d

abbrev cookie_value : Option ℕ → ℕ
cookie_value none = 0
cookie_value (some cookie) = cookie

-- `wil_cfg80211_mgmt_tx` on the channel of operation; `none` is no place for a cookie
unfoldable pub mgmt_tx : Fw → Bool → List ℕ → ℕ → Option ℕ → Dev → Rc × Dev
unfolding wmi_mgmt_tx
mgmt_tx fw got buf len cookie d =
    let (rc, d') = wmi_mgmt_tx fw got buf len d in
    (rc, tell (mgmt_tx_status (cookie_value cookie) (is_success rc)) d')

-- `wil_cfg80211_add_key`, `wil_cfg80211_del_key` and `wil_cfg80211_set_default_key`: a group key
-- is not used
unfoldable pub add_key : Fw → ℕ → Bool → List ℕ → ℕ → Option (List ℕ) → Dev → Rc × Dev
unfolding wmi_add_cipher_key
add_key fw key_index pairwise mac key_len key d =
    if pairwise then wmi_add_cipher_key fw key_index mac key_len key d else (success, d)

unfoldable pub del_key : Fw → ℕ → Bool → List ℕ → Dev → Rc × Dev
unfolding wmi_del_cipher_key
del_key fw key_index pairwise mac d =
    if pairwise then wmi_del_cipher_key fw key_index mac d else (success, d)

unfoldable pub set_default_key : Dev → Rc × Dev
set_default_key d = (success, d)

-- `wil_cfg80211_stop_ap`
unfoldable pub stop_ap : Fw → Dev → Rc × Dev
unfolding wmi_pcp_stop
stop_ap fw d = wmi_pcp_stop fw d

-- `wil_remain_on_channel`, by `wil_prepare_roc` without a frame
unfoldable pub remain_on_channel : ℕ → ℕ → ℕ → ℕ → ℕ → ℕ → Roc → RocCode × ℕ × Roc × List RocCall
unfolding prepare_roc
remain_on_channel p2p ssid listen chan duration cookie_at s =
    prepare_roc p2p ssid listen chan 0 0 duration cookie_at s
