-- ===== src/Evt/Handlers.antt =====
-- wmi.c: the handlers of events that change the state of the device in a plain way.
use wigig_wil.Prelude.{
  ℕ, ◌+◌, ◌%◌, ◌^◌, ◌==◌, ltb, Bool, true, false, not, if◌then◌else◌, none, some, List, Outcome,
}
use wigig_wil.Station.Back.{Back, rcp_addba_request}
use wigig_wil.Dev.{Dev, scan_done, tell, byte, le16, le32}
use wigig_wil.Dev.Disconnect.{disconnect}
use wigig_wil.Evt.{ready_event, disconnect_event_bssid, notify_event, notify_event_size}

-- `wmi_evt_ready`; `is_valid` is the kernel's `is_valid_ether_addr`
unfoldable pub wmi_evt_ready : (List ℕ → Bool) → List ℕ → Dev → Dev
wmi_evt_ready is_valid evt d =
    let e = ready_event evt in
    record d {
      fw_version = e.sw_version;
      n_mids = e.numof_additional_mids;
      dev_addr = if is_valid d.dev_addr then d.dev_addr else e.mac;
    }

-- `wmi_evt_fw_ready`
unfoldable pub wmi_evt_fw_ready : Dev → Dev
wmi_evt_fw_ready d = record d { irq = record d.irq { fwready = true }; ready = d.ready + 1 }

-- `wmi_evt_scan_complete`
unfoldable pub wmi_evt_scan_complete : List ℕ → Dev → Dev
wmi_evt_scan_complete evt d = elim d.scan_request [
  | none ↦ d
  | some request ↦
      let aborted = not (le32 evt 0 == 0) in
      record (tell (scan_done request aborted) d) { scan_request = none }
]

-- `wmi_evt_disconnect`
unfoldable pub wmi_evt_disconnect : List ℕ → Dev → Outcome Dev
unfolding disconnect
wmi_evt_disconnect evt d =
    disconnect (record d { sinfo_gen = (d.sinfo_gen + 1) % 2 ^ 32 })
      (some (disconnect_event_bssid evt))

-- `wmi_evt_notify`
unfoldable pub wmi_evt_notify : List ℕ → ℕ → Dev → Dev
wmi_evt_notify evt len d =
    let e = notify_event evt in
    if ltb len notify_event_size then d else record d {
      link_stats = record {
        tsf = e.tsf;
        snr = e.snr_val;
        bf_mcs = e.bf_mcs;
        my_rx_sector = e.my_rx_sector;
        my_tx_sector = e.my_tx_sector;
        peer_rx_sector = e.other_rx_sector;
        peer_tx_sector = e.other_tx_sector;
      };
    }

-- `wmi_evt_linkup`
unfoldable pub wmi_evt_linkup : Dev → Dev
wmi_evt_linkup d = record d { carrier = true }

-- `wmi_evt_linkdown`
unfoldable pub wmi_evt_linkdown : Dev → Dev
wmi_evt_linkdown d = record d { carrier = false }

-- `wmi_evt_rcp_addba_req`, with the fields of its event; `got` says whether the request gets memory
unfoldable pub wmi_evt_rcp_addba_req : Bool → List ℕ → Dev → Dev
unfolding rcp_addba_request
wmi_evt_rcp_addba_req got evt d =
    let req : Back = record {
      cidxtid = byte evt 0;
      dialog_token = byte evt 1;
      ba_param_set = le16 evt 2;
      ba_timeout = le16 evt 4;
      ba_seq_ctrl = le16 evt 6;
    } in
    record d { back_pending = (rcp_addba_request got req d.back_pending).1 }
