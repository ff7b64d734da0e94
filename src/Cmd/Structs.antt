-- ===== src/Cmd/Structs.antt =====
-- wmi.h: the structures of commands, as bytes. A copy that is longer than its array shows as
-- a longer structure.
use wigig_wil.Prelude.{ℕ, length, ◌/◌, List, [], ◌∷◌, ◌++◌, take, replicate}
use wigig_wil.Dev.{bytes16, bytes32, field}
use wigig_wil.Cmd.{u8}

-- a 64-bit number, least byte first
abbrev pub bytes64 : ℕ → List ℕ
bytes64 v = bytes32 v ++ bytes32 (v / 4294967296)

-- `struct wmi_connect_cmd`
pub record ConnectCmd : Type 0 where
  pub network_type : ℕ
  pub dot11_auth_mode : ℕ
  pub auth_mode : ℕ
  pub pairwise_crypto_type : ℕ
  pub pairwise_crypto_len : ℕ
  pub ssid_len : ℕ
  pub ssid : List ℕ
  pub channel : ℕ
  pub bssid : List ℕ
  pub dst_mac : List ℕ

-- its bytes; the group cipher, the flags and what is reserved stay 0
abbrev pub connect_cmd : ConnectCmd → List ℕ
connect_cmd c =
    c.network_type
    ∷ c.dot11_auth_mode
    ∷ c.auth_mode
    ∷ c.pairwise_crypto_type
    ∷ c.pairwise_crypto_len
    ∷ 0
    ∷ 0
    ∷ c.ssid_len
    ∷ (field 32 c.ssid ++ (c.channel ∷ 0 ∷ (c.bssid ++ (bytes32 0 ++ (c.dst_mac ++ (0 ∷ 0 ∷ []))))))

-- `struct wmi_set_passphrase_cmd`
abbrev pub set_passphrase_cmd : ℕ → List ℕ → ℕ → List ℕ → List ℕ
set_passphrase_cmd ssid_len ssid pass_len pass =
    field 32 (take ssid_len ssid) ++ (field 64 (take pass_len pass) ++ (ssid_len ∷ pass_len ∷ []))

-- `struct wmi_add_cipher_key_cmd` for a pairwise key; the address may be missing
abbrev pub add_cipher_key_cmd : ℕ → ℕ → List ℕ → List ℕ → List ℕ
add_cipher_key_cmd key_index key_len key mac =
    key_index
    ∷ 0
    ∷ 0
    ∷ u8 key_len
    ∷ (replicate 8 0 ++ (field 32 (take key_len key) ++ (0 ∷ field 6 (take 6 mac))))

-- `struct wmi_delete_cipher_key_cmd`
abbrev pub delete_cipher_key_cmd : ℕ → List ℕ → List ℕ
delete_cipher_key_cmd key_index mac = key_index ∷ field 6 (take 6 mac)

-- an entry of the list of channels, and `struct wmi_start_scan_cmd` with the list
abbrev pub scan_channels : List ℕ → List ℕ
scan_channels [] = []
scan_channels (c ∷ cs) = c ∷ 0 ∷ scan_channels cs

abbrev pub start_scan_cmd : List ℕ → List ℕ
start_scan_cmd channels =
    replicate 8 0
    ++ (bytes32 0 ++ (bytes32 0 ++ (0 ∷ u8 (length channels) ∷ scan_channels channels)))

-- `struct wmi_set_appie_cmd`
abbrev pub set_appie_cmd : ℕ → ℕ → List ℕ → List ℕ
set_appie_cmd type ie_len ie = type ∷ 0 ∷ (bytes16 ie_len ++ take ie_len ie)

-- `struct wmi_set_ssid_cmd`
abbrev pub set_ssid_cmd : ℕ → List ℕ → List ℕ
set_ssid_cmd ssid_len ssid = bytes32 ssid_len ++ field 32 (take ssid_len ssid)

-- `struct wmi_set_pcp_channel_cmd`
abbrev pub set_pcp_channel_cmd : ℕ → List ℕ
set_pcp_channel_cmd channel = channel ∷ replicate 3 0

-- `struct wmi_p2p_cfg_cmd`
abbrev pub p2p_cfg_cmd : ℕ → ℕ → ℕ → List ℕ
p2p_cfg_cmd mode channel bi = mode ∷ channel ∷ bytes16 bi

-- `struct wmi_pcp_start_cmd`
abbrev pub pcp_start_cmd : ℕ → ℕ → ℕ → ℕ → ℕ → List ℕ
pcp_start_cmd bi network_type channel disable_sec_offload disable_sec =
    bytes16 bi
    ++ (replicate 10 0 ++ (network_type ∷ channel ∷ disable_sec_offload ∷ disable_sec ∷ []))

-- `struct wmi_sw_tx_req_cmd`
abbrev pub sw_tx_req_cmd : List ℕ → ℕ → List ℕ → List ℕ
sw_tx_req_cmd dst_mac len payload = dst_mac ++ (bytes16 len ++ take len payload)

-- `struct wmi_sw_ring_cfg`
abbrev pub sw_ring_cfg : ℕ → ℕ → ℕ → List ℕ
sw_ring_cfg base size max_mpdu_size = bytes64 base ++ (bytes16 size ++ bytes16 max_mpdu_size)

-- `struct wmi_vring_ba_en_cmd`
abbrev pub vring_ba_en_cmd : ℕ → ℕ → ℕ → List ℕ
vring_ba_en_cmd ringid agg_max_wsize ba_timeout = ringid ∷ agg_max_wsize ∷ bytes16 ba_timeout

-- `struct wmi_vring_ba_dis_cmd`
abbrev pub vring_ba_dis_cmd : ℕ → ℕ → List ℕ
vring_ba_dis_cmd ringid reason = ringid ∷ 0 ∷ bytes16 reason

-- `struct wmi_notify_req_cmd`; the time stays 0
abbrev pub notify_req_cmd : ℕ → ℕ → List ℕ
notify_req_cmd cid interval_usec =
    u8 cid ∷ 0 ∷ 0 ∷ 0 ∷ (bytes32 interval_usec ++ (0 ∷ 0 ∷ 0 ∷ 0 ∷ []))

-- `struct wmi_sniffer_cfg`
abbrev pub sniffer_cfg : ℕ → ℕ → ℕ → ℕ → List ℕ
sniffer_cfg mode phy_info_mode phy_support channel =
    bytes32 mode ++ (bytes32 phy_info_mode ++ (bytes32 phy_support ++ (channel ∷ replicate 3 0)))

-- `struct wmi_cfg_rx_chain_cmd`; what the driver does not set is 0
abbrev pub cfg_rx_chain_cmd : ℕ → List ℕ → ℕ → ℕ → ℕ → List ℕ → List ℕ
cfg_rx_chain_cmd action ring decap l3_l4_ctrl reorder sniffer =
    bytes32 action
    ++ (ring
        ++ (0
            ∷ decap
            ∷ 0
            ∷ 0
            ∷ 0
            ∷ 0
            ∷ l3_l4_ctrl
            ∷ 0
            ∷ (bytes16 0 ++ (bytes16 0 ++ (bytes32 0 ++ (bytes16 0 ++ (reorder ∷ 0 ∷ sniffer)))))))

-- `struct wmi_rcp_addba_resp_cmd`
abbrev pub rcp_addba_resp_cmd : ℕ → ℕ → ℕ → ℕ → ℕ → List ℕ
rcp_addba_resp_cmd cidxtid token status ba_param_set timeout =
    cidxtid ∷ token ∷ (bytes16 status ++ (bytes16 ba_param_set ++ bytes16 timeout))

-- `struct wmi_set_mac_address_cmd`; what is reserved holds what the stack held
abbrev pub set_mac_address_cmd : List ℕ → List ℕ → List ℕ
set_mac_address_cmd mac reserved = mac ++ reserved

-- `struct wmi_temp_sense_cmd`
abbrev pub temp_sense_cmd : ℕ → ℕ → List ℕ
temp_sense_cmd m_en r_en = bytes32 m_en ++ bytes32 r_en
