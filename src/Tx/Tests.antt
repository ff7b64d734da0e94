-- ===== src/Tx/Tests.antt =====
-- A ring of 16 slots whose head stands before the end of the array: a frame of two fragments is
-- sent, then the ring with its first two descriptors finished is completed.
use wigig_wil.Prelude.{
  ℕ, ◌+◌, refl, true, Option, none, some, false, [], ◌∷◌, replicate, set, arith,
}
use wigig_wil.Rx.{no_stats}
use wigig_wil.Tx.Desc.{TxSkb, ipv4, tcp}
use wigig_wil.Tx.Send.{TxVring, TxPath, no_tx_desc, tx_vring}
use wigig_wil.Tx.Fill.{IsTxVring}
use wigig_wil.Tx.Sends.{Ends, tx_vring-Ends}
use wigig_wil.Tx.Tso.{tx_vring_tso}
use wigig_wil.Tx.Segment.{TsoEnds}
use wigig_wil.Tx.Segments.{tx_vring_tso-TsoEnds}
use wigig_wil.Station.Tests.{stas, peer}
use wigig_wil.Tx.Send.{tx_ok}
use wigig_wil.Tx.Xmit.{XmitMode, XmitEnv, Xmit}
use wigig_wil.Tx.Complete.{TxDone, tx_complete}
use wigig_wil.Tx.Completes.{Completes, tx_complete-Completes}

abbrev ring : TxVring
ring = record {
  size = 16;
  swtail = 14;
  swhead = 14;
  va = replicate 16 no_tx_desc;
  ctx = replicate 16 none;
}

ring-IsTxVring : IsTxVring ring
ring-IsTxVring = record {
  tail_lt = omega arith;
  head_lt = omega arith;
  va_length = refl;
  ctx_length = refl;
}

abbrev frame : TxSkb
frame = record {
  skb = 0;
  headlen = 54;
  frags = 1000 ∷ 400 ∷ [];
  net = ipv4;
  transport = tcp;
  csum_partial = true;
  network_header_len = 20;
  tcp_hdrlen = 20;
  gso_size = 0;
}

abbrev path : TxPath
path = record {
  ring = ring;
  skbs = record { refs = 1; len = 1454; sngl_mapped = 0; nodma_desc = none } ∷ [];
  log = [];
}

abbrev dma : ℕ → Option ℕ
dma k = some (4096 + k)

tx_vring-Ends_example : Ends true 3 frame dma 3 path (tx_vring true 3 frame dma path)
tx_vring-Ends_example = tx_vring-Ends true 3 frame dma path ring-IsTxVring (omega arith)

-- three descriptors posted, the first two finished
abbrev posted_ring : TxVring
posted_ring = record ring {
  swhead = 1;
  va =
      set (set ring.va 14 (record no_tx_desc { status = 1 })) 15 (record no_tx_desc { status = 1 });
  ctx = set (set (set ring.ctx 14 (some 0)) 15 (some 0)) 0 (some 0);
}

abbrev posted_path : TxDone
posted_path = record {
  path = record path { ring = posted_ring };
  sta_stats = no_stats;
  ndev_stats = no_stats;
}

posted-IsTxVring : IsTxVring posted_ring
posted-IsTxVring = record {
  tail_lt = omega arith;
  head_lt = omega arith;
  va_length = refl;
  ctx_length = refl;
}

tx_complete-Completes_example : Completes posted_path (tx_complete posted_path)
tx_complete-Completes_example = tx_complete-Completes posted_path posted-IsTxVring

abbrev segment : TxSkb
segment = record frame { gso_size = 500; headlen = 94 }

-- 40 bytes of linear data, then 460, 500 and 40 bytes of the first fragment, 400 of the second
tx_vring_tso-TsoEnds_example : TsoEnds segment path (tx_vring_tso 3 segment dma path)
tx_vring_tso-TsoEnds_example =
    tx_vring_tso-TsoEnds 3 segment dma path ring-IsTxVring (omega arith) (omega arith) (omega arith)
      (omega arith)

abbrev mode : XmitMode
mode = record {
  fwready = true;
  fwconnected = true;
  monitor = false;
  is_client = false;
  hw_csum = true;
}

abbrev env : XmitEnv
env = record { dma = λ i. dma; copies = λ i. none; got_mem = true; sent = tx_ok }

-- the only ring is that of station 1, to which the frame goes
abbrev xmit : Xmit
xmit = record {
  rings = some ring ∷ [];
  cids = 1 ∷ [];
  stas = stas;
  skbs = path.skbs;
  dests = peer.addr ∷ [];
  log = [];
  tx_dropped = 0;
}
