-- ===== src/Evt/Frames.antt =====
-- wmi.c: the events that bring a frame, `wmi_evt_eapol_rx` and `wmi_evt_rx_mgmt`.
use wigig_wil.Prelude.{
  ◌≡◌, ◌≢◌, ◌≤◌, ◌∙◌, refl, ap, length, length-append, length-take, length-drop, get_or-set_ne,
  get_or-set_self, ◌<◌, Bool-cases, inl, inr, arith, ℕ, ◌+◌, ◌-◌, ◌*◌, ◌%◌, ◌^◌, ltb, leb, Bool,
  true, false, not, ◌&&◌, ◌||◌, if◌then◌else◌, Option, none, some, List, [], ◌∷◌, ◌++◌, set, get_or,
  take, drop,
}
use wigig_wil.Word.{with_bit}
use wigig_wil.Station.{find_cid}
use wigig_wil.Rx.{NetStats, no_stats}
use wigig_wil.Dev.{Dev, netif_rx_ni, inform_bss, rx_mgmt, tell, le16, le32, mac_at}
use wigig_wil.Evt.{eapol_event, mgmt_info, mgmt_info_size}

-- the counters of a frame of `sz` bytes, passed on or dropped
unfoldable pub count_frame : Bool → ℕ → NetStats → NetStats
count_frame ok sz t =
    if ok
    then record t { rx_packets = t.rx_packets + 1; rx_bytes = t.rx_bytes + sz }
    else record t { rx_dropped = t.rx_dropped + 1 }

-- the Ethernet frame that is built from the event
unfoldable pub eapol_frame : List ℕ → List ℕ → List ℕ
eapol_frame dev_addr bytes =
    let evt = eapol_event bytes in
    dev_addr ++ (evt.src_mac ++ (0x88 ∷ 0x8e ∷ take evt.eapol_len (drop 8 bytes)))

-- the statistics of the station that sent it, if there is one
abbrev pub count_for : Option ℕ → Bool → ℕ → List NetStats → List NetStats
count_for none ok sz stats = stats
count_for (some cid) ok sz stats = set stats cid (count_frame ok sz (get_or stats cid no_stats))

-- `wmi_evt_eapol_rx`; `got` says whether the frame gets memory, `ok` whether `netif_rx_ni` takes it
unfoldable pub wmi_evt_eapol_rx : Bool → Bool → List ℕ → Dev → Dev
unfolding count_frame eapol_frame
wmi_evt_eapol_rx got ok bytes d =
    let evt = eapol_event bytes in
    let sz = evt.eapol_len + 14 in
    let cid = find_cid d.link.stas evt.src_mac in
    if ltb 196 evt.eapol_len
    then d
    else if not got
    then d
    else record (tell (netif_rx_ni (eapol_frame d.dev_addr bytes)) d) {
      ndev_stats = count_frame ok sz d.ndev_stats;
      stats = count_for cid ok sz d.stats;
    }

-- what the kernel says of channels and frames
pub record Ieee80211 : Type 0 where
  pub frequency : ℕ → ℕ
  pub has_channel : ℕ → Bool
  pub is_beacon : ℕ → Bool
  pub is_probe_resp : ℕ → Bool
  pub has_rsn : List ℕ → ℕ → Bool

-- `ie_len` of `wmi_evt_rx_mgmt`, a `size_t`
unfoldable pub mgmt_ie_len : ℕ → ℕ
mgmt_ie_len d_len = (d_len + 2 ^ 64 - 36) % 2 ^ 64

-- `wmi_evt_rx_mgmt`; the frame's own fields are at their places of the 802.11 standard
unfoldable pub wmi_evt_rx_mgmt : Ieee80211 → Bool → List ℕ → Dev → Dev
unfolding mgmt_ie_len
wmi_evt_rx_mgmt k use_pcp_for_ap bytes d =
    let info = mgmt_info bytes in
    let frame = drop mgmt_info_size bytes in
    let freq = k.frequency (info.channel + 1) in
    let fc = le16 frame 0 in
    let tsf = le32 frame 24 + 4294967296 * le32 frame 28 in
    let bi = le16 frame 32 in
    let ie_len = mgmt_ie_len info.len in
    let cap = le16 frame 34 in
    let private = if k.has_rsn (drop 36 frame) ie_len then with_bit cap 4 else cap in
    let ess = if use_pcp_for_ap then with_bit private 0 else private in
    let bss = inform_bss (mac_at frame 16) tsf ess bi (some (36, ie_len)) info.sqi in
    if not (k.has_channel freq)
    then d
    else if k.is_beacon fc || k.is_probe_resp fc
    then tell bss d
    else tell (rx_mgmt freq info.sqi info.len) d

-- what an EAPOL event leaves that delivers its frame
pub record Delivered (bytes : List ℕ) (ok : Bool) (d d' : Dev) : Type 0 where
  pub told :
      d'.told
      ≡ d.told
        ++ (netif_rx_ni
              (d.dev_addr ++ (take 6 bytes ++ (136 ∷ 142 ∷ take (le16 bytes 6) (drop 8 bytes))))
            ∷ [])
  pub sized : length (eapol_frame d.dev_addr bytes) ≡ (eapol_event bytes).eapol_len + 14
  pub small : length (eapol_frame d.dev_addr bytes) ≤ 210
  pub packets : d'.ndev_stats.rx_packets ≡ d.ndev_stats.rx_packets + (if ok then 1 else 0)
  pub dropped : d'.ndev_stats.rx_dropped ≡ d.ndev_stats.rx_dropped + (if ok then 0 else 1)
  pub octets :
      d'.ndev_stats.rx_bytes
      ≡ d.ndev_stats.rx_bytes + (if ok then length (eapol_frame d.dev_addr bytes) else 0)
  pub link : d'.link ≡ d.link
  pub sender :
      (cid : ℕ)
      → find_cid d.link.stas (take 6 bytes) ≡ some cid
      → cid < length d.stats
      → let t = get_or d.stats cid no_stats in
        let t' = get_or d'.stats cid no_stats in
        (t'.rx_packets ≡ t.rx_packets + (if ok then 1 else 0))
        × (t'.rx_dropped ≡ t.rx_dropped + (if ok then 0 else 1))
        × (t'.rx_bytes ≡ t.rx_bytes + (if ok then le16 bytes 6 + 14 else 0))
  pub others :
      (cid : ℕ)
      → find_cid d.link.stas (eapol_event bytes).src_mac ≢ some cid
      → get_or d'.stats cid no_stats ≡ get_or d.stats cid no_stats

pub data Eapol (bytes : List ℕ) (got ok : Bool) (d d' : Dev) : Type 0 where
  refused :
      (got && leb (eapol_event bytes).eapol_len 196) ≡ false → d' ≡ d → Eapol bytes got ok d d'
  delivered :
      (got && leb (eapol_event bytes).eapol_len 196) ≡ true
      → Delivered bytes ok d d'
      → Eapol bytes got ok d d'

length-eapol_frame :
    (dev_addr bytes : List ℕ)
    → length dev_addr ≡ 6
    → 8 + (eapol_event bytes).eapol_len ≤ length bytes
    → length (eapol_frame dev_addr bytes) ≡ (eapol_event bytes).eapol_len + 14
unfolding eapol_frame
length-eapol_frame dev_addr bytes own fits =
    let n = (eapol_event bytes).eapol_len in
    let rest = drop 8 bytes in
    let got = length-take n rest (omega (arith, length-drop 8 bytes, fits)) in
    let src = length-take 6 bytes (omega (arith, fits)) in
    length-append dev_addr _
    ∙ ap (λ k. length dev_addr + k) (length-append (take 6 bytes) _)
    ∙ omega (arith, own, got, src)

count_for-others :
    (o : Option ℕ) (ok : Bool) (sz : ℕ) (stats : List NetStats) (cid : ℕ)
    → o ≢ some cid
    → get_or (count_for o ok sz stats) cid no_stats ≡ get_or stats cid no_stats
count_for-others none ok sz stats cid ne = refl
count_for-others (some c) ok sz stats cid ne =
    get_or-set_ne stats c cid _ no_stats (λ e. ne (ap some e))

count_for-sender :
    (o : Option ℕ) (ok : Bool) (sz : ℕ) (stats : List NetStats) (cid : ℕ)
    → o ≡ some cid
    → cid < length stats
    → let t = get_or stats cid no_stats in
      let t' = get_or (count_for o ok sz stats) cid no_stats in
      (t'.rx_packets ≡ t.rx_packets + (if ok then 1 else 0))
      × (t'.rx_dropped ≡ t.rx_dropped + (if ok then 0 else 1))
      × (t'.rx_bytes ≡ t.rx_bytes + (if ok then sz else 0))
unfolding count_frame
count_for-sender o ok sz stats cid e lt =
    let t = get_or stats cid no_stats in
    rw (e, count_for, get_or-set_self stats cid (count_frame ok sz t) no_stats lt)
      (ground arith, ground arith, ground arith)

-- An EAPOL event whose bytes are as many as it says, on an interface with an address: a frame of
-- more than 196 bytes, or without memory, changes nothing. Any other is rebuilt as an Ethernet
-- frame of at most 210 bytes (the address of the interface, that of the sender, the type 0x888e
-- and the bytes of the event) and given to the stack, and counted once, as received or dropped, for
-- the interface and for the station that sent it, if there is one with counters, and no other.
pub wmi_evt_eapol_rx-Eapol :
    (got ok : Bool) (bytes : List ℕ) (d : Dev)
    → length d.dev_addr ≡ 6
    → 8 + (eapol_event bytes).eapol_len ≤ length bytes
    → Eapol bytes got ok d (wmi_evt_eapol_rx got ok bytes d)
unfolding wmi_evt_eapol_rx count_frame eapol_frame
wmi_evt_eapol_rx-Eapol got ok bytes d own fits =
    let n = (eapol_event bytes).eapol_len in
    let len = length-eapol_frame d.dev_addr bytes own fits in
    elim (Bool-cases (ltb 196 n)) [
      | inl large ↦ rw (large, wmi_evt_eapol_rx) (refused (ground (arith, large)) refl)
      | inr small ↦ elim (Bool-cases got) [
        | inr no_skb ↦ rw (small, no_skb, wmi_evt_eapol_rx) (refused refl refl)
        | inl skb ↦
            rw (small, skb, wmi_evt_eapol_rx)
              (delivered (ground (arith, small)) (record {
                told = refl;
                sized = len;
                small = ground (arith, len, small);
                packets = ground arith;
                dropped = ground arith;
                octets = ground (arith, len);
                link = refl;
                sender = λ cid e lt. count_for-sender _ ok _ d.stats cid e lt;
                others = λ cid ne. count_for-others _ ok _ d.stats cid ne;
              }))
      ]
    ]
