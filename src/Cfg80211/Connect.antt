-- ===== src/Cfg80211/Connect.antt =====
-- cfg80211.c: `wil_cfg80211_connect`.
use wigig_wil.Prelude.{
  ℕ, ◌%◌, ◌==◌, ltb, Bool, true, not, if◌then◌else◌, Option, none, some, List, length, take,
}
use wigig_wil.Dev.{
  Dev, Rc, success, enoent, erange, eopnotsupp, is_success, Fw, wmi_send, tell, put_bss,
}
use wigig_wil.Cmd.{channel0}
use wigig_wil.Cmd.Structs.{ConnectCmd, connect_cmd}
use wigig_wil.Cmd.Mlme.{wmi_del_cipher_key, wmi_set_ie}

-- `struct cfg80211_bss` that the kernel finds; `ssid` is what follows the head of its SSID IE, with
-- the length that the head says, `none` being no such IE
pub record Bss : Type 0 where
  pub at : ℕ
  pub bssid : List ℕ
  pub ssid : Option (ℕ × List ℕ)
  pub capability : ℕ
  pub hw_value : ℕ

-- the IEs of the request, and whether the kernel finds an RSN among them
pub record Sme : Type 0 where
  pub ie : List ℕ
  pub rsn : Bool

abbrev pub min32 : ℕ → ℕ
min32 n = if ltb n 32 then n else 32

-- the network type for a capability, `none` being one that is not supported
unfoldable pub network_type : Bool → ℕ → Option ℕ
network_type use_pcp_for_ap capability =
    let type = capability % 4 in
    if type == 3
    then some (if use_pcp_for_ap then 32 else 1)
    else if type == 2
    then some 32
    else if type == 1
    then some 32
    else none

-- the command, with its zeros
unfoldable pub conn_for : Bool → ℕ → ℕ → List ℕ → Bss → ConnectCmd
conn_for rsn type len ssid bss = record {
  network_type = type;
  dot11_auth_mode = if rsn then 2 else 1;
  auth_mode = if rsn then 16 else 1;
  pairwise_crypto_type = if rsn then 32 else 0;
  pairwise_crypto_len = if rsn then 16 else 0;
  ssid_len = min32 len;
  ssid = take (min32 len) ssid;
  channel = channel0 bss.hw_value;
  bssid = bss.bssid;
  dst_mac = bss.bssid;
}

-- the commands that a secure connection begins with
unfoldable pub secure : Fw → Bool → Sme → Bss → Dev → Rc × Dev
unfolding wmi_del_cipher_key wmi_set_ie
secure fw got sme bss d =
    let (rc, d1) = wmi_del_cipher_key fw 0 bss.bssid d in
    if not sme.rsn
    then (success, d)
    else if ltb 1024 (length sme.ie)
    then (erange, d)
    else if is_success rc
    then wmi_set_ie fw got 3 (length sme.ie) sme.ie d1
    else (rc, d1)

-- the request to connect: no scan from now on, and a timer if it was sent
unfoldable pub send_connect : Fw → ConnectCmd → Dev → Rc × Dev
unfolding wmi_send
send_connect fw conn d =
    let (rc, d') =
      wmi_send fw (record { id = 1; body = connect_cmd conn }) (record d { dontscan = true }) in
    if is_success rc then (rc, record d' { timer = true }) else (rc, d')

-- what follows for a network type; a type that is not supported leaves the code at 0
unfoldable pub connect_as : Fw → Bool → ℕ → List ℕ → Bss → Option ℕ → Dev → Rc × Dev
unfolding conn_for send_connect
connect_as fw rsn len ssid bss none d = (success, d)
connect_as fw rsn len ssid bss (some type) d =
    if bss.hw_value == 0
    then (eopnotsupp, d)
    else send_connect fw (conn_for rsn type len ssid bss) d

-- the part between finding the BSS and giving it back
unfoldable pub connect_bss : Fw → Bool → Bool → Sme → Bss → Option (ℕ × List ℕ) → Dev → Rc × Dev
unfolding network_type secure connect_as
connect_bss fw got use_pcp sme bss none d = (enoent, d)
connect_bss fw got use_pcp sme bss (some (len, ssid)) d =
    let (rc, d1) = secure fw got sme bss d in
    if is_success rc
    then connect_as fw sme.rsn len ssid bss (network_type use_pcp bss.capability) d1
    else (rc, d1)

-- `wil_cfg80211_connect`; `none` is a BSS that the kernel does not find
unfoldable pub connect : Fw → Bool → Bool → Sme → Option Bss → Dev → Rc × Dev
unfolding connect_bss
connect fw got use_pcp sme none d = (enoent, d)
connect fw got use_pcp sme (some bss) d =
    let (rc, d') = connect_bss fw got use_pcp sme bss bss.ssid d in (rc, tell (put_bss bss.at) d')
