-- ===== src/Cmd/Traffic.antt =====
-- wmi.c: the commands about rings, frames, block-ack sessions and measurements.
use wigig_wil.Prelude.{
  ℕ, ◌+◌, ◌*◌, ◌%◌, ◌^◌, ◌==◌, Bool, true, false, not, if◌then◌else◌, Option, none, some, List,
}
use wigig_wil.Word.{has_bit, mk_cidxtid}
use wigig_wil.Dev.{
  Dev, Iftype, monitor, Rc, success, einval, enomem, is_success, Fw, wmi_send, wmi_call, le16, le32,
  mac_at,
}
use wigig_wil.Cmd.{channel0, call_status}
use wigig_wil.Cmd.Structs.{
  cfg_rx_chain_cmd, sw_ring_cfg, sniffer_cfg, sw_tx_req_cmd, vring_ba_en_cmd, vring_ba_dis_cmd,
  rcp_addba_resp_cmd, temp_sense_cmd,
}

abbrev pub is_monitor : Iftype → Bool
is_monitor monitor = true
is_monitor _ = false

-- the sniffer part of `wmi_rx_chain_add`; `channel` is the preset one, `none` being NULL
unfoldable pub sniffer_part : Option ℕ → Dev → List ℕ
sniffer_part channel d =
    let phy = if has_bit d.monitor_flags 3 then 0 else 1 in
    let info = if d.radiotap then 1 else 0 in
    if is_monitor d.iftype
    then (elim channel [
      | none ↦ sniffer_cfg 1 info phy 0
      | some ch ↦ sniffer_cfg 1 info phy (channel0 ch)
    ])
    else sniffer_cfg 0 0 0 0

-- `wmi_rx_chain_add` for a ring at an address: the third result is the register of the tail
unfoldable pub wmi_rx_chain_add : Fw → Bool → Option ℕ → ℕ → ℕ → Dev → Rc × Dev × Option ℕ
unfolding wmi_call sniffer_part
wmi_rx_chain_add fw rxcsum channel pa size d =
    let ring = sw_ring_cfg pa size 2048 in
    let csum = if rxcsum then 2 else 0 in
    let (r, d') =
      wmi_call fw
        (record { id = 0x820; body = cfg_rx_chain_cmd 0 ring 0 csum 1 (sniffer_part channel d) })
        d in
    if not (is_success r.rc)
    then (r.rc, d', none)
    else (if le32 r.reply 12 == 1 then success else einval, d', some (le32 r.reply 8))

-- `wmi_mgmt_tx`; `got` says whether the command gets memory
unfoldable pub wmi_mgmt_tx : Fw → Bool → List ℕ → ℕ → Dev → Rc × Dev
unfolding call_status
wmi_mgmt_tx fw got buf len d =
    if got
    then call_status fw (record { id = 0x82b; body = sw_tx_req_cmd (mac_at buf 4) len buf }) d
    else (enomem, d)

-- `wmi_get_temperature` for the two sensors that are asked for
unfoldable pub wmi_get_temperature : Fw → Bool → Bool → Dev → Rc × Dev × Option ℕ × Option ℕ
unfolding wmi_call
wmi_get_temperature fw want_m want_r d =
    let (r, d') =
      wmi_call fw
        (record {
          id = 0x80e;
          body = temp_sense_cmd (if want_m then 1 else 0) (if want_r then 1 else 0);
        })
        d in
    if not (is_success r.rc) then (r.rc, d', none, none) else (
      success,
      d',
      if want_m then some (le32 r.reply 8) else none,
      if want_r then some (le32 r.reply 12) else none,
    )

-- `wmi_addba`
unfoldable pub wmi_addba : Fw → ℕ → ℕ → ℕ → Dev → Rc × Dev
unfolding wmi_send
wmi_addba fw ringid size timeout d =
    wmi_send fw (record { id = 0x823; body = vring_ba_en_cmd ringid size timeout }) d

-- `wmi_delba`
unfoldable pub wmi_delba : Fw → ℕ → ℕ → Dev → Rc × Dev
unfolding wmi_send
wmi_delba fw ringid reason d =
    wmi_send fw (record { id = 0x824; body = vring_ba_dis_cmd ringid reason }) d

-- `wmi_rcp_addba_resp` for a TID below 16, so that its bits and those of the size are apart
unfoldable pub wmi_rcp_addba_resp : Fw → ℕ → ℕ → ℕ → ℕ → Bool → ℕ → ℕ → Dev → Rc × Dev
unfolding wmi_call mk_cidxtid
wmi_rcp_addba_resp fw cid tid token status amsdu agg_wsize timeout d =
    let set = ((if amsdu then 1 else 0) + 2 + tid * 4 + agg_wsize * 64) % 2 ^ 16 in
    let (r, d') =
      wmi_call fw
        (record {
          id = 0x825;
          body = rcp_addba_resp_cmd (mk_cidxtid cid tid) token status set timeout;
        })
        d in
    if not (is_success r.rc)
    then (r.rc, d')
    else (if le16 r.reply 10 == 0 then success else einval, d')
