-- ===== src/Cmd/Mlme.antt =====
-- wmi.c: the commands that set up the interface, the network and the keys.
use wigig_wil.Prelude.{
  ℕ, ◌+◌, ◌%◌, ◌^◌, ltb, Bool, true, false, not, if◌then◌else◌, Option, none, some, List, [], take,
  drop, is_some,
}
use wigig_wil.Dev.{
  Dev, Rc, success, einval, enomem, eagain, is_success, Fw, wmi_send, wmi_call, le32, bytes32,
}
use wigig_wil.Cmd.{channel0, evt_byte, call_status, call_plain}
use wigig_wil.Cmd.Structs.{
  set_mac_address_cmd, pcp_start_cmd, set_passphrase_cmd, set_ssid_cmd, set_pcp_channel_cmd,
  p2p_cfg_cmd, delete_cipher_key_cmd, add_cipher_key_cmd, set_appie_cmd,
}

-- `wmi_echo`
unfoldable pub wmi_echo : Fw → Dev → Rc × Dev
unfolding call_plain
wmi_echo fw d = call_plain fw (record { id = 0x803; body = bytes32 0x12345678 }) d

-- `wmi_set_mac_address`; `reserved` is what the stack holds
unfoldable pub wmi_set_mac_address : Fw → List ℕ → List ℕ → Dev → Rc × Dev
unfolding wmi_send
wmi_set_mac_address fw reserved addr d =
    wmi_send fw (record { id = 0xf003; body = set_mac_address_cmd (take 6 addr) reserved }) d

-- `wmi_pcp_start`; `offload` says whether there is a passphrase
unfoldable pub wmi_pcp_start : Fw → Bool → ℕ → ℕ → ℕ → Dev → Rc × Dev
unfolding call_status
wmi_pcp_start fw offload bi wmi_nettype chan d =
    call_status fw
      (record {
        id = 0x918;
        body =
            pcp_start_cmd bi wmi_nettype (channel0 chan) (if offload then 0 else 1)
              (if d.secure_pcp then 0 else 1);
      })
      d

-- `wmi_pcp_stop`
unfoldable pub wmi_pcp_stop : Fw → Dev → Rc × Dev
unfolding call_plain
wmi_pcp_stop fw d = call_plain fw (record { id = 0x919; body = [] }) d

-- `wmi_set_passphrase`
unfoldable pub wmi_set_passphrase : Fw → ℕ → List ℕ → ℕ → List ℕ → Dev → Rc × Dev
unfolding wmi_send
wmi_set_passphrase fw ssid_len ssid pass_len pass d =
    if ltb 32 ssid_len
    then (einval, d)
    else if ltb 64 pass_len
    then (einval, d)
    else wmi_send fw (record { id = 0xf049; body = set_passphrase_cmd ssid_len ssid pass_len pass })
        d

-- `wmi_set_ssid`
unfoldable pub wmi_set_ssid : Fw → ℕ → List ℕ → Dev → Rc × Dev
unfolding wmi_send
wmi_set_ssid fw ssid_len ssid d =
    if ltb 32 ssid_len
    then (einval, d)
    else wmi_send fw (record { id = 0x827; body = set_ssid_cmd ssid_len ssid }) d

-- `wmi_get_ssid`: the third result is what the caller finds, if the call succeeds
unfoldable pub wmi_get_ssid : Fw → Dev → Rc × Dev × Option (List ℕ)
unfolding wmi_call
wmi_get_ssid fw d =
    let (r, d') = wmi_call fw (record { id = 0x828; body = [] }) d in
    let len = le32 r.reply 8 in
    if not (is_success r.rc)
    then (r.rc, d', none)
    else if ltb 32 len
    then (einval, d', none)
    else (success, d', some (take len (drop 12 r.reply)))

-- `wmi_set_channel`
unfoldable pub wmi_set_channel : Fw → ℕ → Dev → Rc × Dev
unfolding wmi_send
wmi_set_channel fw channel d =
    wmi_send fw (record { id = 0x829; body = set_pcp_channel_cmd (channel0 channel) }) d

-- `wmi_get_channel`
unfoldable pub wmi_get_channel : Fw → Dev → Rc × Dev × Option ℕ
unfolding wmi_call
wmi_get_channel fw d =
    let (r, d') = wmi_call fw (record { id = 0x82a; body = [] }) d in
    if not (is_success r.rc)
    then (r.rc, d', none)
    else if ltb 3 (evt_byte r 0)
    then (einval, d', none)
    else (success, d', some (evt_byte r 0 + 1))

-- `wmi_p2p_cfg`, in the mode of a peer
unfoldable pub wmi_p2p_cfg : Fw → ℕ → ℕ → Dev → Rc × Dev
unfolding wmi_send
wmi_p2p_cfg fw channel bi d =
    if is_some d.scan_request
    then (eagain, d)
    else wmi_send fw (record { id = 0x910; body = p2p_cfg_cmd 2 (channel0 channel) bi })
        (record d { dontscan = true })

-- `wmi_start_listen`
unfoldable pub wmi_start_listen : Fw → Dev → Rc × Dev
unfolding call_status
wmi_start_listen fw d = call_status fw (record { id = 0x914; body = [] }) d

-- `wmi_start_search`
unfoldable pub wmi_start_search : Fw → Dev → Rc × Dev
unfolding call_status
wmi_start_search fw d = call_status fw (record { id = 0x915; body = [] }) d

-- `wmi_stop_discovery`
unfoldable pub wmi_stop_discovery : Fw → Dev → Rc × Dev
unfolding call_plain
wmi_stop_discovery fw d =
    let (rc, d') = call_plain fw (record { id = 0x917; body = [] }) d in
    (rc, record d' { dontscan = false })

-- `wmi_start_discovery`
unfoldable pub wmi_start_discovery : Fw → Dev → Rc × Dev
unfolding call_plain
wmi_start_discovery fw d = call_plain fw (record { id = 0x916; body = [] }) d

-- `wmi_rxon`
unfoldable pub wmi_rxon : Fw → Bool → Dev → Rc × Dev
unfolding wmi_start_listen wmi_stop_discovery
wmi_rxon fw on d = if on then wmi_start_listen fw d else wmi_stop_discovery fw d

-- `wmi_del_cipher_key`; an address that is missing is NULL
unfoldable pub wmi_del_cipher_key : Fw → ℕ → List ℕ → Dev → Rc × Dev
unfolding wmi_send
wmi_del_cipher_key fw key_index mac d =
    wmi_send fw (record { id = 0x17; body = delete_cipher_key_cmd key_index mac }) d

-- `wmi_add_cipher_key`; `none` is a key that is NULL
unfoldable pub wmi_add_cipher_key : Fw → ℕ → List ℕ → ℕ → Option (List ℕ) → Dev → Rc × Dev
unfolding wmi_send
wmi_add_cipher_key fw key_index mac key_len none d = (einval, d)
wmi_add_cipher_key fw key_index mac key_len (some key) d =
    if ltb 32 key_len
    then (einval, d)
    else wmi_send fw (record { id = 0x16; body = add_cipher_key_cmd key_index key_len key mac }) d

-- `wmi_set_ie`; `got` says whether the command gets memory. The number of bytes and the length of
-- the command are 16-bit numbers, and only so many bytes of the command are sent.
unfoldable pub wmi_set_ie : Fw → Bool → ℕ → ℕ → List ℕ → Dev → Rc × Dev
unfolding wmi_send
wmi_set_ie fw got type ie_len ie d =
    let n = ie_len % 2 ^ 16 in
    if got
    then wmi_send fw
        (record { id = 0x3f; body = take ((4 + n) % 2 ^ 16) (set_appie_cmd type n ie) }) d
    else (enomem, d)
