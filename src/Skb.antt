-- ===== src/Skb.antt =====
-- txrx.h and the kernel's `sk_buff`, as far as the Rx path reads it: the Rx descriptor that the
-- driver keeps in `skb->cb` and the fields that it decodes from it.
use wigig_wil.Prelude.{ℕ, Bool, List, Option}
use wigig_wil.Word.{get_bits}

-- `struct vring_rx_desc`, MAC and DMA parts (the fields that the driver reads or writes)
pub record RxDesc : Type 0 where
  pub mac_d0 : ℕ
  pub mac_d1 : ℕ
  pub dma_d0 : ℕ
  pub addr_low : ℕ
  pub addr_high : ℕ
  pub error : ℕ
  pub status : ℕ
  pub length : ℕ

-- the radiotap header that the driver puts before a frame in monitor mode; `vendor` has the
-- length of the vendor data and, of these, of the PHY info
pub record Rtap : Type 0 where
  pub it_len : ℕ
  pub it_present : ℕ
  pub flags : ℕ
  pub chnl_freq : ℕ
  pub mcs_index : ℕ
  pub vendor : Option (ℕ × ℕ)

-- `words` are the 16-bit words of the frame from its Ethernet header on.
pub record Skb : Type 0 where
  pub desc : RxDesc
  pub len : ℕ
  pub words : List ℕ
  pub csum_unnecessary : Bool
  pub rtap : Option Rtap

unfoldable pub rxdesc_tid : RxDesc → ℕ
unfolding get_bits
rxdesc_tid d = get_bits d.mac_d0 0 3

unfoldable pub rxdesc_cid : RxDesc → ℕ
unfolding get_bits
rxdesc_cid d = get_bits d.mac_d0 4 6

unfoldable pub rxdesc_mid : RxDesc → ℕ
unfolding get_bits
rxdesc_mid d = get_bits d.mac_d0 8 9

unfoldable pub rxdesc_ftype : RxDesc → ℕ
unfolding get_bits
rxdesc_ftype d = get_bits d.mac_d0 10 11

unfoldable pub rxdesc_subtype : RxDesc → ℕ
unfolding get_bits
rxdesc_subtype d = get_bits d.mac_d0 12 15

unfoldable pub rxdesc_seq : RxDesc → ℕ
unfolding get_bits
rxdesc_seq d = get_bits d.mac_d0 16 27

unfoldable pub rxdesc_ext_subtype : RxDesc → ℕ
unfolding get_bits
rxdesc_ext_subtype d = get_bits d.mac_d0 28 31

unfoldable pub rxdesc_ds_bits : RxDesc → ℕ
unfolding get_bits
rxdesc_ds_bits d = get_bits d.mac_d1 8 9

unfoldable pub rxdesc_mcs : RxDesc → ℕ
unfolding get_bits
rxdesc_mcs d = get_bits d.mac_d1 21 24

unfoldable pub rxdesc_phy_length : RxDesc → ℕ
unfolding get_bits
rxdesc_phy_length d = get_bits d.dma_d0 16 29
