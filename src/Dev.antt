-- ===== src/Dev.antt =====
-- `struct wil6210_priv` (wil6210.h) as main.c, the event handlers of wmi.c and cfg80211.c see it,
-- with the interface (`net_device`, `wireless_dev`) that belongs to it. Of the bits of `status`,
-- `fwready`, `reset_done` and `irqen` are fields of `irq`. The calls that leave the driver are
-- logged, the oldest first, and the commands that the firmware is sent, the last first.
pub mod Disconnect
pub mod Leaves
pub mod Disconnects
pub mod News
pub mod Tests
use wigig_wil.Prelude.{
  ◌-◌, length, ℕ, ◌+◌, ◌*◌, ◌/◌, ◌%◌, ◌^◌, Bool, true, false, Option, none, some, List, [], ◌∷◌,
  ◌++◌, drop, get_or, take, replicate,
}
use wigig_wil.Reorder.{RxEvent}
use wigig_wil.Station.Back.{Back}
use wigig_wil.Irq.{Irq}
use wigig_wil.Link.{Link}
use wigig_wil.Rx.{NetStats}
use wigig_wil.Vring.{Vring}
use wigig_wil.Vring.Setup.{FreeOp}
use wigig_wil.Wmi.Recv.{Event}

-- `enum nl80211_iftype`, as far as the driver names its values
pub data Iftype : Type 0 where
  adhoc station ap p2p_client p2p_go monitor other : Iftype

-- `wdev->sme_state`
pub data Sme : Type 0 where
  sme_idle sme_connecting sme_connected : Sme

-- a command: its number and the bytes of its structure
pub record Cmd : Type 0 where
  pub id : ℕ
  pub body : List ℕ

-- 0 or an error code; `failed` is the code of a command that could not be sent
pub data Rc : Type 0 where
  success einval enomem etime eagain ebusy enoent eopnotsupp erange : Rc
  failed : ℕ → Rc

abbrev pub is_success : Rc → Bool
is_success success = true
is_success _ = false

-- what the card makes of a command: the result of sending it and waiting, and the reply
pub record Reply : Type 0 where
  pub rc : Rc
  pub reply : List ℕ

-- the card, which may answer by all that it was sent, the last command first
abbrev pub Fw : Type 0
Fw = List Cmd → Reply

-- the registers that reset the card
pub data ResetReg : Type 0 where
  sw_rst_mask_0 mac_cpu_0 user_cpu_0 sw_rst_vec_0 sw_rst_vec_1 sw_rst_vec_2 sw_rst_vec_3 : ResetReg

-- a part of a buffer, from an offset on, or NULL with length 0
abbrev pub Part : Type 0
Part = Option (ℕ × ℕ)

-- what the driver tells the kernel
pub data Told : Type 0 where
  disconnected : Told
  connect_result : Option (List ℕ) → Part → Part → Bool → Told
  new_sta : List ℕ → ℕ → Part → Told
  del_sta : List ℕ → Told
  scan_done : ℕ → Bool → Told
  inform_bss : List ℕ → ℕ → ℕ → ℕ → Part → ℕ → Told
  rx_mgmt : ℕ → ℕ → ℕ → Told
  netif_rx_ni : List ℕ → Told
  passed : List RxEvent → Told
  mgmt_tx_status : ℕ → Bool → Told
  put_bss : ℕ → Told
  written : List (ResetReg × ℕ) → Told
  freed : List FreeOp → Told

-- the part of `struct wil6210_stats` that a notification fills in
pub record LinkStats : Type 0 where
  pub tsf : ℕ
  pub snr : ℕ
  pub bf_mcs : ℕ
  pub my_rx_sector : ℕ
  pub my_tx_sector : ℕ
  pub peer_rx_sector : ℕ
  pub peer_tx_sector : ℕ

-- `struct vring_tx_data`
pub record TxData : Type 0 where
  pub agg_wsize : ℕ
  pub agg_timeout : ℕ

-- `queued` says whether `connect_worker` waits in its queue, `timer` whether `connect_timer` runs,
-- `ready` counts the completions of `wmi_ready`; a request to scan is its address.
pub record Dev : Type 0 where
  pub irq : Irq
  pub link : Link
  pub fwconnected : Bool
  pub dontscan : Bool
  pub iftype : Iftype
  pub sme : Sme
  pub dev_addr : List ℕ
  pub carrier : Bool
  pub queues : Bool
  pub timer : Bool
  pub queued : Bool
  pub ready : ℕ
  pub scan_request : Option ℕ
  pub sinfo_gen : ℕ
  pub fw_version : ℕ
  pub n_mids : ℕ
  pub link_stats : LinkStats
  pub tx_data : List TxData
  pub stats : List NetStats
  pub ndev_stats : NetStats
  pub pending_ev : List Event
  pub back_pending : List Back
  pub rx_ring : Option Vring
  pub napi : Bool
  pub radiotap : Bool
  pub ssid : List ℕ
  pub ssid_len : ℕ
  pub secure_pcp : Bool
  pub monitor_flags : ℕ
  pub told : List Told
  pub sent : List Cmd

-- more to the log
abbrev pub tell : Told → Dev → Dev
tell t d = record d { told = d.told ++ (t ∷ []) }

-- `wmi_send` and `wmi_call`, as far as their callers see: the code, and the reply if there is one
unfoldable pub wmi_send : Fw → Cmd → Dev → Rc × Dev
wmi_send fw cmd d = ((fw (cmd ∷ d.sent)).rc, record d { sent = cmd ∷ d.sent })

unfoldable pub wmi_call : Fw → Cmd → Dev → Reply × Dev
wmi_call fw cmd d = (fw (cmd ∷ d.sent), record d { sent = cmd ∷ d.sent })

-- `wil_link_on` and `wil_link_off`
unfoldable pub link_on : Dev → Dev
link_on d = record d { carrier = true; queues = true }

unfoldable pub link_off : Dev → Dev
link_off d = record d { queues = false; carrier = false }

-- numbers in a buffer, least byte first
abbrev pub byte : List ℕ → ℕ → ℕ
byte d i = get_or d i 0

abbrev pub le16 : List ℕ → ℕ → ℕ
le16 d i = byte d i + 256 * byte d (i + 1)

abbrev pub le32 : List ℕ → ℕ → ℕ
le32 d i = le16 d i + 65536 * le16 d (i + 2)

abbrev pub bytes16 : ℕ → List ℕ
bytes16 v = v % 256 ∷ v / 256 % 256 ∷ []

abbrev pub bytes32 : ℕ → List ℕ
bytes32 v = bytes16 v ++ bytes16 (v / 65536)

-- an array of `n` bytes, zero but for what is copied to its start; a copy past its end shows as a
-- longer array
abbrev pub field : ℕ → List ℕ → List ℕ
field n src = src ++ replicate (n - length src) 0

abbrev pub mac_at : List ℕ → ℕ → List ℕ
mac_at d i = take 6 (drop i d)
