-- ===== src/Tx/Desc.antt =====
-- txrx.h and txrx.c: the Tx descriptor and the functions that fill it.
-- The source's `|=` is `bit_or`.
use Prim.Native.Nat.{bit_or}
use wigig_wil.Prelude.{
  ℕ, ◌+◌, ◌-◌, ◌*◌, ◌/◌, ◌%◌, ◌^◌, Bool, true, false, ◌||◌, ◌&&◌, not, if◌then◌else◌, Option, none,
  some, List,
}

-- `struct vring_tx_desc`, MAC and DMA parts
pub record TxDesc : Type 0 where
  pub mac_d0 : ℕ
  pub mac_d1 : ℕ
  pub mac_d2 : ℕ
  pub ucode_cmd : ℕ
  pub dma_d0 : ℕ
  pub addr_low : ℕ
  pub addr_high : ℕ
  pub offload_cfg : ℕ
  pub error : ℕ
  pub status : ℕ
  pub length : ℕ

-- the network protocol of a frame, and the protocol above it
pub data NetProto : Type 0 where
  ipv4 ipv6 other_net : NetProto

pub data Transport : Type 0 where
  tcp udp other_transport : Transport

-- what the driver reads of an `sk_buff` to send: `skb` is its number, `headlen` the length of its
-- linear part, `frags` the lengths of its fragments
pub record TxSkb : Type 0 where
  pub skb : ℕ
  pub headlen : ℕ
  pub frags : List ℕ
  pub net : NetProto
  pub transport : Transport
  pub csum_partial : Bool
  pub network_header_len : ℕ
  pub tcp_hdrlen : ℕ
  pub gso_size : ℕ

abbrev pub is_ip4 : TxSkb → Bool
is_ip4 f = elim f.net [ ipv4 ↦ true | _ ↦ false ]

abbrev pub is_ip6 : TxSkb → Bool
is_ip6 f = elim f.net [ ipv6 ↦ true | _ ↦ false ]

abbrev pub is_tcp : TxSkb → Bool
is_tcp f =
    not (elim f.net [ other_net ↦ true | _ ↦ false ]) && elim f.transport [ tcp ↦ true | _ ↦ false ]

abbrev pub is_udp : TxSkb → Bool
is_udp f =
    not (elim f.net [ other_net ↦ true | _ ↦ false ]) && elim f.transport [ udp ↦ true | _ ↦ false ]

-- `wil_tx_desc_map`
unfoldable pub desc_map : ℕ → ℕ → ℕ → TxDesc
desc_map pa len vring_index = record {
  mac_d0 = 0;
  mac_d1 = 2 ^ 20;
  mac_d2 = 2 ^ 20 + 2 ^ 18;
  ucode_cmd = 0;
  dma_d0 = vring_index * 2 ^ 16;
  addr_low = pa % 2 ^ 32;
  addr_high = (pa / 2 ^ 32) % 2 ^ 16;
  offload_cfg = 0;
  error = 0;
  status = 0;
  length = len % 2 ^ 16;
}

abbrev pub when : Bool → ℕ → ℕ
when true n = n
when false n = 0

-- the bits that `wil_tx_desc_offload_setup` adds to `dma.d0`; a TSO type of `none` is -1
unfoldable pub offload_d0 : TxSkb → Option ℕ → ℕ
offload_d0 f tso =
    let seg : ℕ = elim tso [
      | none ↦ 0
      | some type ↦ bit_or (bit_or (2 ^ 13) (type * 2 ^ 11)) (when (is_ip4 f) (2 ^ 14))
    ] in
    let l4 = if is_tcp f then bit_or (bit_or (2 * 2 ^ 30) (f.tcp_hdrlen % 256)) seg else 8 in
    if is_tcp f || is_udp f then bit_or (bit_or (2 ^ 15) (2 ^ 21)) l4 else 0

-- `wil_tx_desc_offload_setup` with a descriptor
unfoldable pub offload_setup : TxDesc → TxSkb → Option ℕ → TxDesc
unfolding offload_d0
offload_setup d f tso =
    let cfg =
      bit_or (bit_or (when (is_ip4 f) (2 ^ 15)) (f.network_header_len % 256)) (14 * 2 ^ 8) in
    let counts : Bool = elim tso [ none ↦ false | some _ ↦ is_tcp f ] in
    if is_ip4 f || is_ip6 f
    then record d {
      offload_cfg = bit_or d.offload_cfg cfg;
      dma_d0 = bit_or d.dma_d0 (offload_d0 f tso);
      mac_d2 = bit_or d.mac_d2 (when counts 1);
    }
    else d

-- what `wil_tx_desc_offload_setup` returns
unfoldable pub tcp_version : TxSkb → ℕ
tcp_version f = if is_tcp f then (if is_ip4 f then 1 else 2) else 0

-- `wil_tx_last_desc`
unfoldable pub last_desc : TxDesc → ℕ → TxDesc
last_desc d vring_index =
    let bits = bit_or (bit_or (2 ^ 8) (2 ^ 9)) (bit_or (2 ^ 10) (vring_index * 2 ^ 16)) in
    record d { dma_d0 = bit_or d.dma_d0 bits }

-- `wil_set_tx_desc_count`
unfoldable pub set_tx_desc_count : TxDesc → ℕ → TxDesc
set_tx_desc_count d cnt = record d { mac_d2 = bit_or (d.mac_d2 - d.mac_d2 % 256) cnt }
