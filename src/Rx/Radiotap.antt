-- ===== src/Rx/Radiotap.antt =====
-- txrx.c: `wil_rx_add_radiotap_header`.
use wigig_wil.Prelude.{
  ℕ, ◌+◌, ◌-◌, ◌^◌, ◌≡◌, ◌≢◌, ◌⊎◌, ◌≤◌, ltb, leb, Bool, true, not, ◌&&◌, if◌then◌else◌, Option,
  none, some, arith,
}
use wigig_wil.Word.{has_bit}
use wigig_wil.Skb.{Skb, RxDesc, Rtap, rxdesc_phy_length, rxdesc_mcs}

-- the module parameter `rtap_include_phy_info`, the frequency of the preset channel, and of the
-- `sk_buff` the room before and after its data, the distance from there to the next boundary of 8
-- bytes, and whether it can be expanded
pub record RtapEnv : Type 0 where
  pub include_phy : Bool
  pub center_freq : Option ℕ
  pub headroom : ℕ
  pub tailroom : ℕ
  pub pad : ℕ
  pub expands : Bool

-- `sizeof` the header without and with the part of the vendor, the Rx descriptor, and `phy_data`
abbrev pub rtap_size : ℕ
rtap_size = 18

abbrev pub rtap_vendor_size : ℕ
rtap_vendor_size = 24

abbrev pub rx_desc_size : ℕ
rx_desc_size = 32

abbrev pub phy_data_size : ℕ
phy_data_size = 128

-- the bytes of PHY info that are copied to `phy_data`
unfoldable pub phy_length : RtapEnv → RxDesc → ℕ
phy_length env d =
    let asked = rxdesc_phy_length d in
    let len = if ltb (8 + phy_data_size) asked then 8 + phy_data_size else asked in
    if env.include_phy && has_bit d.status 6
    then if ltb 8 len && leb (len + env.pad) env.tailroom then len - 8 else 0
    else 0

unfoldable pub rtap_len : RtapEnv → RxDesc → ℕ
unfolding phy_length
rtap_len env d =
    let base = if env.include_phy then rtap_vendor_size + rx_desc_size else rtap_size in
    base + phy_length env d

unfoldable pub rtap_header : RtapEnv → RxDesc → Rtap
unfolding phy_length rtap_len
rtap_header env d = record {
  it_len = rtap_len env d;
  it_present = 2 ^ 1 + 2 ^ 3 + 2 ^ 19 + (if env.include_phy then 2 ^ 30 else 0);
  flags = if has_bit d.status 2 then 0x40 else 0;
  chnl_freq = elim env.center_freq [ none ↦ 58320 | some freq ↦ freq ];
  mcs_index = rxdesc_mcs d;
  vendor =
      if env.include_phy then some (rx_desc_size + phy_length env d, phy_length env d) else none;
}

unfoldable pub add_radiotap : RtapEnv → Skb → Skb
unfolding rtap_len rtap_header
add_radiotap env skb =
    if ltb env.headroom (rtap_len env skb.desc) && not env.expands then skb else record skb {
      len = skb.len + rtap_len env skb.desc;
      rtap = some (rtap_header env skb.desc);
    }

-- the header with the vendor's part has the bytes that its lengths say
abbrev pub vendor_bytes : Option (ℕ × ℕ) → ℕ
vendor_bytes none = rtap_size
vendor_bytes (some (skip, phy)) = rtap_vendor_size + skip

-- The PHY info never overruns the static buffer, nor is it read past the memory behind the frame;
-- the length in the header is that of its parts; and the frame grows by exactly that length, if
-- there is room before it or it can be expanded.
pub add_radiotap_lem :
    (env : RtapEnv) (skb : Skb)
    → let n = phy_length env skb.desc in
      let h = rtap_header env skb.desc in
      let skb' = add_radiotap env skb in
      (n ≤ phy_data_size)
      × (n ≢ 0 → env.pad + n ≤ env.tailroom)
      × (h.it_len ≡ vendor_bytes h.vendor)
      × ((h.it_len ≤ env.headroom) ⊎ (env.expands ≡ true)
          → (skb'.len ≡ skb.len + h.it_len) × (skb'.rtap ≡ some h))
unfolding phy_length rtap_len rtap_header add_radiotap
add_radiotap_lem env skb = ground arith
