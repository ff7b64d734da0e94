-- ===== src/Rx/Tests.antt =====
-- A ring of four slots with two finished frames, the second one not a data frame; a frame with
-- PHY info for the radiotap header; a frame whose addresses the card has swapped.
use wigig_wil.Prelude.{
  ℕ, zero, suc, ◌+◌, ◌*◌, ◌≡◌, ◌≢◌, ◌⊎◌, ◌≤◌, refl, true, false, none, some, [], ◌∷◌, replicate,
  arith, is_some, get_or, ◌<◌,
}
use wigig_wil.Word.{get_bits}
use wigig_wil.Skb.{RxDesc, Skb, rxdesc_phy_length}
use wigig_wil.Vring.{Vring, no_desc}
use wigig_wil.Vring.Refill.{IsRing, slot_at}
use wigig_wil.Station.Tests.{stas, stas-IsTable}
use wigig_wil.Rx.{RxPath, RxMode, RxEnv, no_stats, poll_rx}
use wigig_wil.Rx.Radiotap.{
  RtapEnv, phy_data_size, phy_length, rtap_header, add_radiotap, vendor_bytes, add_radiotap_lem,
}
use wigig_wil.Rx.Ethaddr.{swap_ethaddr, swap_ethaddr_lem}
use wigig_wil.Rx.Poll.{Polled, poll_rx-Polled}

-- from station 1, finished, of frame type `ftype`
abbrev desc_of : ℕ → RxDesc
desc_of ftype = record {
  mac_d0 = ftype * 1024 + 16;
  mac_d1 = 0;
  dma_d0 = 40 * 65536;
  addr_low = 0;
  addr_high = 0;
  error = 0;
  status = 65;
  length = 100;
}

-- the head at slot 1, slots 1 and 2 posted and finished
abbrev ring : Vring
ring = record {
  size = 4;
  swtail = 3;
  swhead = 1;
  va = no_desc ∷ desc_of 2 ∷ desc_of 1 ∷ no_desc ∷ [];
  ctx = none ∷ some 7 ∷ some 8 ∷ none ∷ [];
}

ring-IsRing : IsRing ring
ring-IsRing = record {
  tail_lt = omega arith;
  head_lt = omega arith;
  va_length = refl;
  ctx_length = refl;
  posted = λ j lt. posted_at j lt;
}
  where
    posted_at : (j : ℕ) → j < 2 → is_some (get_or ring.ctx (slot_at ring j) none) ≡ true
    posted_at zero lt = refl
    posted_at (suc zero) lt = refl
    posted_at (suc (suc j)) lt = absurd (omega arith)

abbrev mode : RxMode
mode = record { is_ether = true; is_radiotap = false; monitor = false; rxcsum = true }

abbrev rtap_env : RtapEnv
rtap_env = record {
  include_phy = true;
  center_freq = some 60480;
  headroom = 128;
  tailroom = 64;
  pad = 4;
  expands = false;
}

abbrev env : RxEnv
env = record {
  memory = λ id. replicate 8 id;
  rtap_env = λ id. rtap_env;
  eth_type_trans = λ skb. skb;
  accepts = λ k. true;
  bufs = λ k. some (k, 4096);
}

abbrev path : RxPath
path = record {
  ring = ring;
  stas = stas;
  stats = replicate 8 no_stats;
  ndev_stats = no_stats;
  last_mcs_rx = 0;
  received = 0;
}

poll_rx-Polled_example : Polled mode env 16 path (poll_rx mode env 0 16 path)
poll_rx-Polled_example = poll_rx-Polled mode env 0 16 path ring-IsRing stas-IsTable

abbrev skb : Skb
skb = record { desc = desc_of 2; len = 100; words = []; csum_unnecessary = false; rtap = none }

-- 40 bytes are asked for, 32 of them copied
copied : phy_length rtap_env skb.desc ≡ 32
unfolding phy_length rxdesc_phy_length get_bits
copied = refl

add_radiotap_lem_example :
    let n = phy_length rtap_env skb.desc in
    let h = rtap_header rtap_env skb.desc in
    let skb' = add_radiotap rtap_env skb in
    (n ≤ phy_data_size)
    × (n ≢ 0 → rtap_env.pad + n ≤ rtap_env.tailroom)
    × (h.it_len ≡ vendor_bytes h.vendor)
    × ((h.it_len ≤ rtap_env.headroom) ⊎ (rtap_env.expands ≡ true)
        → (skb'.len ≡ skb.len + h.it_len) × (skb'.rtap ≡ some h))
add_radiotap_lem_example = add_radiotap_lem rtap_env skb

swap_ethaddr_lem_example :
    swap_ethaddr (1 ∷ 2 ∷ 3 ∷ 4 ∷ 5 ∷ 6 ∷ 8 ∷ []) ≡ 4 ∷ 5 ∷ 6 ∷ 1 ∷ 2 ∷ 3 ∷ 8 ∷ []
swap_ethaddr_lem_example = swap_ethaddr_lem 1 2 3 4 5 6 (8 ∷ [])
