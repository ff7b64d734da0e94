-- ===== src/Dev/Disconnect.antt =====
-- main.c: `_wil6210_disconnect` and what calls it. The command that tells the firmware of a
-- disconnected station is `wmi_disconnect_sta` (wmi.c) with the reason that the station leaves.
use wigig_wil.Prelude.{
  ℕ, Bool, true, false, if◌then◌else◌, Option, none, some, List, [], ◌∷◌, ◌++◌, set, Outcome,
  returns, ◌>>=◌,
}
use wigig_wil.Station.{sta_at, addr_equal, find_cid}
use wigig_wil.Link.{disconnect_cid}
use wigig_wil.Rx.{no_stats}
use wigig_wil.Dev.{
  Dev, Cmd, Told, Iftype, station, p2p_client, Sme, sme_connecting, sme_connected, sme_idle,
  disconnected, connect_result, del_sta, passed, link_off, bytes16,
}

-- `wmi_disconnect_sta`
unfoldable pub disconnect_sta : List ℕ → ℕ → Cmd
disconnect_sta mac reason = record { id = 4; body = mac ++ bytes16 reason }

-- `wil_disconnect_cid` with what it tells
unfoldable pub dev_disconnect_cid : Dev → ℕ → Outcome Dev
unfolding disconnect_sta
dev_disconnect_cid d cid =
    let left = disconnect_sta (sta_at d.link.stas cid).addr 3 in
    disconnect_cid d.link cid >>= λ p. returns (record d {
      link = p.0;
      stats = set d.stats cid no_stats;
      sent = if p.2 then left ∷ d.sent else d.sent;
      told = d.told ++ (passed p.1 ∷ []);
    })

-- the loop over stations
unfoldable pub disconnect_cids : Dev → List ℕ → Outcome Dev
unfolding dev_disconnect_cid
disconnect_cids d [] = returns d
disconnect_cids d (cid ∷ cids) = dev_disconnect_cid d cid >>= λ d'. disconnect_cids d' cids

abbrev pub all_cids : List ℕ
all_cids = 0 ∷ 1 ∷ 2 ∷ 3 ∷ 4 ∷ 5 ∷ 6 ∷ 7 ∷ []

-- the stations that an address asks to disconnect, with the result of the search for it
unfoldable pub leave_found : Dev → List ℕ → Option ℕ → Outcome Dev
unfolding disconnect_cids
leave_found d mac (some cid) = dev_disconnect_cid d cid
leave_found d mac none = if addr_equal d.dev_addr mac then disconnect_cids d all_cids else returns d

-- `none` is NULL
unfoldable pub leave : Dev → Option (List ℕ) → Outcome Dev
unfolding leave_found
leave d none = returns d
leave d (some mac) = leave_found d mac (find_cid d.link.stas mac)

-- what the stack is told of a client, and of a station of an access point
abbrev pub news_sme : Option (List ℕ) → Sme → List Told
news_sme bssid sme_connected = disconnected ∷ []
news_sme bssid sme_connecting = connect_result bssid none none false ∷ []
news_sme bssid sme_idle = []

abbrev pub news_del : Option (List ℕ) → List Told
news_del none = []
news_del (some mac) = del_sta mac ∷ []

abbrev pub is_client : Iftype → Bool
is_client station = true
is_client p2p_client = true
is_client _ = false

-- the link state after a disconnection
unfoldable pub link_state : Option (List ℕ) → Dev → Dev
unfolding link_off
link_state bssid d =
    if is_client d.iftype
    then record (link_off d) {
      fwconnected = false;
      told = d.told ++ news_sme bssid d.sme;
      dontscan = false;
    }
    else record d { told = d.told ++ news_del bssid }

-- `_wil6210_disconnect`
unfoldable pub disconnect_now : Dev → Option (List ℕ) → Outcome Dev
unfolding leave link_state
disconnect_now d bssid = leave d bssid >>= λ d'. returns (link_state bssid d')

-- `wil6210_disconnect`
unfoldable pub disconnect : Dev → Option (List ℕ) → Outcome Dev
unfolding disconnect_now
disconnect d bssid = disconnect_now (record d { timer = false }) bssid

-- `wil_connect_timer_fn` schedules `wil_disconnect_worker`, which runs later
unfoldable pub disconnect_worker : Dev → Outcome Dev
unfolding disconnect_now
disconnect_worker d = disconnect_now d none
