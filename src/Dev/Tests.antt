-- ===== src/Dev/Tests.antt =====
-- A client with one station in use, ring 1 being that of the station.
use wigig_wil.Prelude.{◌≡◌, true, false, none, some, [], replicate, returns}
use wigig_wil.Mbox.{MboxRing, MboxCtl}
use wigig_wil.Irq.{Irq, irq_pseudo_mask}
use wigig_wil.Station.Tests.{peer, stas-IsTable}
use wigig_wil.Link.Tests.{link, rings-IsFound}
use wigig_wil.Rx.{no_stats}
use wigig_wil.Dev.{Dev, station, sme_connecting}
use wigig_wil.Dev.Disconnect.{disconnect}
use wigig_wil.Dev.Leaves.{IsLink}
use wigig_wil.Dev.Disconnects.{Disconnected, disconnect_lem}

abbrev empty_ring : MboxRing
empty_ring = record { base = 0; entry_size = 0; size = 0; tail = 0; head = 0 }

abbrev empty_ctl : MboxCtl
empty_ctl = record { tx = empty_ring; rx = empty_ring }

abbrev quiet : Irq
quiet = record {
  pseudo_cause = 0;
  pseudo_mask = irq_pseudo_mask;
  icr_rx = 0;
  icr_tx = 0;
  icr_misc = 0;
  imv_rx = 0;
  imv_tx = 0;
  imv_misc = 0;
  icc = 0;
  itr_trsh = 10000;
  itr_crl = 1;
  mbox_regs = empty_ctl;
  monitor = false;
  fwready = true;
  reset_done = true;
  irqen = true;
  isr_misc = 0;
  mbox_ctl = empty_ctl;
  calls = [];
}

abbrev pub device : Dev
device = record {
  irq = quiet;
  link = link;
  fwconnected = true;
  dontscan = false;
  iftype = station;
  sme = sme_connecting;
  dev_addr = replicate 6 7;
  carrier = false;
  queues = false;
  timer = false;
  queued = false;
  ready = 0;
  scan_request = none;
  sinfo_gen = 0;
  fw_version = 0;
  n_mids = 0;
  link_stats = record {
    tsf = 0;
    snr = 0;
    bf_mcs = 0;
    my_rx_sector = 0;
    my_tx_sector = 0;
    peer_rx_sector = 0;
    peer_tx_sector = 0;
  };
  tx_data = replicate 24 (record { agg_wsize = 0; agg_timeout = 0 });
  stats = replicate 8 no_stats;
  ndev_stats = no_stats;
  pending_ev = [];
  back_pending = [];
  rx_ring = none;
  napi = false;
  radiotap = false;
  ssid = [];
  ssid_len = 0;
  secure_pcp = false;
  monitor_flags = 0;
  told = [];
  sent = [];
}

pub device-IsLink : IsLink device.link
device-IsLink = record { table = stas-IsTable; found = rings-IsFound }

disconnect_lem_example :
    (d' : Dev) × (disconnect device (some peer.addr) ≡ returns d')
    × Disconnected (some peer.addr) device d'
disconnect_lem_example = disconnect_lem device (some peer.addr) device-IsLink
