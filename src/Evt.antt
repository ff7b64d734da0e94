-- ===== src/Evt.antt =====
-- wmi.h and wmi.c: the events of the firmware, as the handlers read them from the bytes after the
-- WMI header. Reading past the last byte of an event gives 0.
pub mod Handlers
pub mod Station
pub mod News
pub mod Frames
pub mod Connects
pub mod Backs
pub mod Dispatch
pub mod Tests
use wigig_wil.Prelude.{ℕ, ◌+◌, ◌*◌, List}
use wigig_wil.Dev.{byte, le16, le32, mac_at}

-- `struct wmi_ready_event`
pub record ReadyEvent : Type 0 where
  pub sw_version : ℕ
  pub mac : List ℕ
  pub numof_additional_mids : ℕ

abbrev pub ready_event : List ℕ → ReadyEvent
ready_event d = record {
  sw_version = le32 d 0;
  mac = mac_at d 8;
  numof_additional_mids = byte d 15;
}

-- `struct wmi_rx_mgmt_info`, the fields that the handler uses
pub record MgmtInfo : Type 0 where
  pub sqi : ℕ
  pub len : ℕ
  pub channel : ℕ

abbrev pub mgmt_info : List ℕ → MgmtInfo
mgmt_info d = record { sqi = byte d 3; len = le32 d 8; channel = byte d 15 }

-- the size of `struct wmi_rx_mgmt_info`, before the frame
abbrev pub mgmt_info_size : ℕ
mgmt_info_size = 16

-- `struct wmi_connect_event` without `assoc_info`
pub record ConnectEvent : Type 0 where
  pub channel : ℕ
  pub bssid : List ℕ
  pub beacon_ie_len : ℕ
  pub assoc_req_len : ℕ
  pub assoc_resp_len : ℕ
  pub cid : ℕ

abbrev pub connect_event : List ℕ → ConnectEvent
connect_event d = record {
  channel = byte d 0;
  bssid = mac_at d 2;
  beacon_ie_len = byte d 16;
  assoc_req_len = byte d 17;
  assoc_resp_len = byte d 18;
  cid = byte d 19;
}

abbrev pub connect_event_size : ℕ
connect_event_size = 23

-- `bssid` of `struct wmi_disconnect_event`
abbrev pub disconnect_event_bssid : List ℕ → List ℕ
disconnect_event_bssid d = mac_at d 2

-- `struct wmi_notify_req_done_event`, the fields that the driver keeps
pub record NotifyEvent : Type 0 where
  pub tsf : ℕ
  pub snr_val : ℕ
  pub bf_mcs : ℕ
  pub my_rx_sector : ℕ
  pub my_tx_sector : ℕ
  pub other_rx_sector : ℕ
  pub other_tx_sector : ℕ
  pub sqi : ℕ

abbrev pub notify_event : List ℕ → NotifyEvent
notify_event d = record {
  tsf = le32 d 4 + 4294967296 * le32 d 8;
  snr_val = le32 d 12;
  bf_mcs = le16 d 28;
  my_rx_sector = le16 d 30;
  my_tx_sector = le16 d 32;
  other_rx_sector = le16 d 34;
  other_tx_sector = le16 d 36;
  sqi = byte d 40;
}

abbrev pub notify_event_size : ℕ
notify_event_size = 44

-- `struct wmi_eapol_rx_event` without the frame
pub record EapolEvent : Type 0 where
  pub src_mac : List ℕ
  pub eapol_len : ℕ

abbrev pub eapol_event : List ℕ → EapolEvent
eapol_event d = record { src_mac = mac_at d 0; eapol_len = le16 d 6 }

-- `struct wmi_vring_ba_status_event`
pub record BaEvent : Type 0 where
  pub status : ℕ
  pub ringid : ℕ
  pub agg_wsize : ℕ
  pub ba_timeout : ℕ

abbrev pub ba_event : List ℕ → BaEvent
ba_event d = record {
  status = le16 d 0;
  ringid = byte d 4;
  agg_wsize = byte d 5;
  ba_timeout = le16 d 6;
}
