-- ===== src/Dev/Disconnects.antt =====
-- What a disconnection leaves (main.c): which stations go, and that the others stay as they are.
use mathlib.Core.Path.{subst}
use wigig_wil.Prelude.{
  ◌++◌, append-nil, append_assoc, true, ℕ, ◌<◌, ◌≡◌, ◌∙◌, refl, sym, ap, Bool, false, not, ◌||◌,
  ◌==◌, if◌then◌else◌, Option, none, some, List, [], ◌∷◌, set, Bool-cases, inl, inr, arith, Outcome,
  returns,
}
use wigig_wil.Station.{sta_at, session, max_cid, is_unused, addr_equal, find_cid}
use wigig_wil.Station.Find.{Finds, absent, first, find_cid-Finds}
use wigig_wil.Link.{Link}
use wigig_wil.Link.Connect.{IsDisconnected, cleared, disconnect_cid-cleared, held_all}
use wigig_wil.Rx.{no_stats}
use wigig_wil.Dev.{Dev, Told, passed, link_off}
use wigig_wil.Dev.Disconnect.{
  dev_disconnect_cid, disconnect_cids, leave, leave_found, link_state, disconnect_now, disconnect,
  disconnect_sta,
}
use wigig_wil.Dev.News.{is_off, news, is_off_lem, news_sme-news, news_del-news}
use wigig_wil.Dev.Leaves.{
  IsLink, cleared-IsLink, Leaves, one, cleared-Leaves, Leaves-after, Leaves-none,
}

-- the device that the disconnection of a station leaves
abbrev pub left_cid : Dev → ℕ → Dev
left_cid d cid =
    let sta = sta_at d.link.stas cid in
    record d {
      link = cleared d.link cid;
      stats = set d.stats cid no_stats;
      sent = if not (is_unused sta.status) then disconnect_sta sta.addr 3 ∷ d.sent else d.sent;
      told = d.told ++ (passed (held_all sta.tid_rx) ∷ []);
    }

abbrev pub left_cids : Dev → List ℕ → Dev
left_cids d [] = d
left_cids d (cid ∷ cids) = left_cids (left_cid d cid) cids

dev_disconnect_cid-left_cid :
    (d : Dev) (cid : ℕ) → IsLink d.link → dev_disconnect_cid d cid ≡ returns (left_cid d cid)
unfolding dev_disconnect_cid session
dev_disconnect_cid-left_cid d cid h =
    rw (disconnect_cid-cleared d.link cid (h.table.placed cid)) refl

abbrev pub listed : List ℕ → ℕ → Bool
listed [] c = false
listed (cid ∷ cids) c = (c == cid) || listed cids c

abbrev AllBelow : List ℕ → Type 0
AllBelow [] = Unit {0}
AllBelow (cid ∷ cids) = (cid < max_cid) × AllBelow cids

disconnect_cids-left_cids :
    (cids : List ℕ) (d : Dev)
    → IsLink d.link
    → AllBelow cids
    → disconnect_cids d cids ≡ returns (left_cids d cids)
unfolding disconnect_cids
disconnect_cids-left_cids [] d h lt = refl
disconnect_cids-left_cids (cid ∷ cids) d h lt =
    rw (dev_disconnect_cid-left_cid d cid h)
      (disconnect_cids-left_cids cids (left_cid d cid) (cleared-IsLink d.link cid h lt.0) lt.1)

left_cids-Leaves :
    (cids : List ℕ) (d : Dev)
    → IsLink d.link
    → AllBelow cids
    → Leaves d.link (left_cids d cids).link (listed cids)
left_cids-Leaves [] d h lt = Leaves-none d.link h
left_cids-Leaves (cid ∷ cids) d h lt =
    Leaves-after d.link (cleared d.link cid) (left_cids d (cid ∷ cids)).link (one cid) (listed cids)
      (cleared-Leaves d.link cid h lt.0)
      (left_cids-Leaves cids (left_cid d cid) (cleared-IsLink d.link cid h lt.0) lt.1)

-- every station of the table
abbrev pub every_cid : List ℕ
every_cid = 0 ∷ 1 ∷ 2 ∷ 3 ∷ 4 ∷ 5 ∷ 6 ∷ 7 ∷ []

listed-every : (c : ℕ) → c < max_cid → listed every_cid c ≡ true
listed-every c lt = ground (arith, lt)

-- the frames that the stations hold, as they are passed on
abbrev pub outs : Link → List ℕ → List Told
outs s [] = []
outs s (cid ∷ cids) = passed (held_all (sta_at s.stas cid).tid_rx) ∷ outs (cleared s cid) cids

-- what the disconnection of stations leaves alone
record Same (d d' : Dev) : Type 0 where
  iftype : d'.iftype ≡ d.iftype
  sme : d'.sme ≡ d.sme
  carrier : d'.carrier ≡ d.carrier
  queues : d'.queues ≡ d.queues
  fwconnected : d'.fwconnected ≡ d.fwconnected
  dontscan : d'.dontscan ≡ d.dontscan
  ready : d'.ready ≡ d.ready

left_cids-Same : (cids : List ℕ) (d : Dev) → Same d (left_cids d cids)
left_cids-Same [] d = record {
  iftype = refl;
  sme = refl;
  carrier = refl;
  queues = refl;
  fwconnected = refl;
  dontscan = refl;
  ready = refl;
}
left_cids-Same (cid ∷ cids) d =
    let h = left_cids-Same cids (left_cid d cid) in
    record {
      iftype = h.iftype;
      sme = h.sme;
      carrier = h.carrier;
      queues = h.queues;
      fwconnected = h.fwconnected;
      dontscan = h.dontscan;
      ready = h.ready;
    }

left_cids-outs : (cids : List ℕ) (d : Dev) → (left_cids d cids).told ≡ d.told ++ outs d.link cids
left_cids-outs [] d = sym (append-nil d.told)
left_cids-outs (cid ∷ cids) d =
    left_cids-outs cids (left_cid d cid)
    ∙ append_assoc d.told (passed (held_all (sta_at d.link.stas cid).tid_rx) ∷ []) _

-- the stations that go: none without an address, the one with the address, all for the own address
abbrev pub leaving_found : Dev → List ℕ → Option ℕ → List ℕ
leaving_found d mac (some cid) = cid ∷ []
leaving_found d mac none = if addr_equal d.dev_addr mac then every_cid else []

abbrev pub leaving : Dev → Option (List ℕ) → List ℕ
leaving d none = []
leaving d (some mac) = leaving_found d mac (find_cid d.link.stas mac)

abbrev Goes : Dev → Outcome Dev → List ℕ → Type 0
Goes d o cids = (o ≡ returns (left_cids d cids)) × AllBelow cids

leave_found-Goes :
    (d : Dev) (mac : List ℕ) (o : Option ℕ)
    → IsLink d.link
    → Finds d.link.stas mac o
    → Goes d (leave_found d mac o) (leaving_found d mac o)
unfolding leave_found
leave_found-Goes d mac _ h (first cid lt peer before) =
    (dev_disconnect_cid-left_cid d cid h, (omega (arith, lt, h.table.cids), tt))
leave_found-Goes d mac _ h (absent no_peer) = elim (Bool-cases (addr_equal d.dev_addr mac)) [
  | inl own ↦ rw own (disconnect_cids-left_cids every_cid d h (omega arith), omega arith)
  | inr off ↦ rw off (refl, tt)
]

leave-Goes :
    (d : Dev) (bssid : Option (List ℕ)) → IsLink d.link → Goes d (leave d bssid) (leaving d bssid)
unfolding leave
leave-Goes d none h = (refl, tt)
leave-Goes d (some mac) h =
    leave_found-Goes d mac (find_cid d.link.stas mac) h (find_cid-Finds d.link.stas mac)

-- A client is off the network and may scan again; the interface of any other stays as it was. The
-- stack gets the frames that were held, then the news.
pub record Disconnected (bssid : Option (List ℕ)) (d d' : Dev) : Type 0 where
  pub every :
      (mac : List ℕ) (c : ℕ)
      → bssid ≡ some mac
      → find_cid d.link.stas mac ≡ none
      → addr_equal d.dev_addr mac ≡ true
      → c < max_cid
      → IsDisconnected d'.link c
  pub leaves : Leaves d.link d'.link (listed (leaving d bssid))
  pub told :
      d'.told ≡ d.told ++ (outs d.link (leaving d bssid) ++ news bssid (is_off d.iftype) d.sme)
  pub carrier : d'.carrier ≡ (if is_off d.iftype then false else d.carrier)
  pub queues : d'.queues ≡ (if is_off d.iftype then false else d.queues)
  pub fwconnected : d'.fwconnected ≡ (if is_off d.iftype then false else d.fwconnected)
  pub dontscan : d'.dontscan ≡ (if is_off d.iftype then false else d.dontscan)
  pub ready : d'.ready ≡ d.ready

-- what `link_state` sets and what it keeps
record States (bssid : Option (List ℕ)) (d d' : Dev) : Type 0 where
  link : d'.link ≡ d.link
  told : d'.told ≡ d.told ++ news bssid (is_off d.iftype) d.sme
  carrier : d'.carrier ≡ (if is_off d.iftype then false else d.carrier)
  queues : d'.queues ≡ (if is_off d.iftype then false else d.queues)
  fwconnected : d'.fwconnected ≡ (if is_off d.iftype then false else d.fwconnected)
  dontscan : d'.dontscan ≡ (if is_off d.iftype then false else d.dontscan)
  ready : d'.ready ≡ d.ready

link_state-States : (bssid : Option (List ℕ)) (d : Dev) → States bssid d (link_state bssid d)
unfolding link_state link_off
link_state-States bssid d = elim (Bool-cases (is_off d.iftype)) [
  | inl off ↦
      let c = is_off_lem d.iftype ∙ off in
      rw (c, link_state)
        (record {
          link = refl;
          told =
              ap (λ l. d.told ++ l)
                (news_sme-news bssid d.sme ∙ ap (λ b. news bssid b d.sme) (sym off));
          carrier = ground (arith, off);
          queues = ground (arith, off);
          fwconnected = ground (arith, off);
          dontscan = ground (arith, off);
          ready = refl;
        })
  | inr on ↦
      let c = is_off_lem d.iftype ∙ on in
      rw (c, link_state)
        (record {
          link = refl;
          told =
              ap (λ l. d.told ++ l)
                (news_del-news bssid d.sme ∙ ap (λ b. news bssid b d.sme) (sym on));
          carrier = ground (arith, on);
          queues = ground (arith, on);
          fwconnected = ground (arith, on);
          dontscan = ground (arith, on);
          ready = refl;
        })
]

-- the stations that go for the own address are all
leaving-every :
    (d : Dev) (bssid : Option (List ℕ)) (mac : List ℕ) (c : ℕ)
    → bssid ≡ some mac
    → find_cid d.link.stas mac ≡ none
    → addr_equal d.dev_addr mac ≡ true
    → c < max_cid
    → listed (leaving d bssid) c ≡ true
leaving-every d bssid mac c asked no_peer own lt = rw (asked, no_peer, own) (listed-every c lt)

disconnect_now_lem :
    (d : Dev) (bssid : Option (List ℕ))
    → IsLink d.link
    → (d' : Dev) × (disconnect_now d bssid ≡ returns d') × Disconnected bssid d d'
unfolding disconnect_now
disconnect_now_lem d bssid h =
    let goes = leave-Goes d bssid h in
    let cids = leaving d bssid in
    let kept = left_cids-Same cids d in
    let set = link_state-States bssid (left_cids d cids) in
    let leaves : Leaves d.link (link_state bssid (left_cids d cids)).link (listed cids) =
      subst (λ s. Leaves d.link s (listed cids)) (sym set.link)
        (left_cids-Leaves cids d h goes.1) in
    (
      link_state bssid (left_cids d cids),
      rw goes.0 refl,
      record {
        every = λ mac c asked no_peer own lt.
            leaves.gone c lt (leaving-every d bssid mac c asked no_peer own lt);
        leaves = leaves;
        told = cc (
          set.told,
          left_cids-outs cids d,
          kept.iftype,
          kept.sme,
          append_assoc d.told (outs d.link cids) (news bssid (is_off d.iftype) d.sme),
        );
        carrier = ground (arith, set.carrier, kept.iftype, kept.carrier);
        queues = ground (arith, set.queues, kept.iftype, kept.queues);
        fwconnected = ground (arith, set.fwconnected, kept.iftype, kept.fwconnected);
        dontscan = ground (arith, set.dontscan, kept.iftype, kept.dontscan);
        ready = set.ready ∙ kept.ready;
      },
    )

-- With a well-formed table a disconnection returns. Without an address no station goes; with that
-- of a station this one goes; with that of the interface, which no station has, all go. A station
-- that goes has its frames passed on and keeps no session and no ring; the others stay as they are.
-- A client loses its carrier and may scan again. Then a client that was connected, or connecting,
-- hears that it is not, and an access point that the station of the address is gone.
pub disconnect_lem :
    (d : Dev) (bssid : Option (List ℕ))
    → IsLink d.link
    → (d' : Dev) × (disconnect d bssid ≡ returns d') × Disconnected bssid d d'
unfolding disconnect
disconnect_lem d bssid h =
    let r = disconnect_now_lem (record d { timer = false }) bssid h in
    (
      r.0,
      r.1,
      record {
        every = r.2.every;
        leaves = r.2.leaves;
        told = r.2.told;
        carrier = r.2.carrier;
        queues = r.2.queues;
        fwconnected = r.2.fwconnected;
        dontscan = r.2.dontscan;
        ready = r.2.ready;
      },
    )
