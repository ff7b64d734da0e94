-- ===== src/Evt/News.antt =====
-- What the stack is told of a connection (wmi.c, `wmi_evt_connect`), and the IEs that go with it.
use wigig_wil.Prelude.{
  ℕ, ◌+◌, ◌-◌, ◌≤◌, ◌<◌, ◌≡◌, ◌⊎◌, inl, inr, refl, true, leb, if◌then◌else◌, if_cases, none, some,
  List, [], ◌∷◌, arith,
}
use wigig_wil.Dev.{
  Part, Told, Iftype, adhoc, station, ap, p2p_client, p2p_go, monitor, other, connect_result,
  new_sta,
}
use wigig_wil.Dev.Disconnect.{is_client}
use wigig_wil.Evt.{ConnectEvent, connect_event_size}
use wigig_wil.Evt.Station.{is_ap, is_whole, assoc_req, assoc_resp}

-- A part of a buffer of `n` bytes: what follows the first `skip` of the `len` bytes at `at`, which
-- lie within the buffer, or no part if nothing follows them.
abbrev pub Cut : ℕ → ℕ → ℕ → ℕ → Part → Type 0
Cut skip at len n p =
    (len ≤ skip) × (p ≡ none) ⊎ (skip < len) × (at + len ≤ n) × (p ≡ some (at + skip, len - skip))

-- A client hears of its network, an access point of its station.
abbrev pub announced : ConnectEvent → Iftype → ℕ → Part → Part → List Told
announced evt adhoc gen req resp = []
announced evt station gen req resp = connect_result (some evt.bssid) req resp true ∷ []
announced evt ap gen req resp = new_sta evt.bssid gen req ∷ []
announced evt p2p_client gen req resp = connect_result (some evt.bssid) req resp true ∷ []
announced evt p2p_go gen req resp = new_sta evt.bssid gen req ∷ []
announced evt monitor gen req resp = []
announced evt other gen req resp = []

pub announced_lem :
    (evt : ConnectEvent) (t : Iftype) (gen : ℕ) (req resp : Part)
    → announced evt t gen req resp ≡ (
        if is_client t
        then connect_result (some evt.bssid) req resp true ∷ []
        else if is_ap t
        then new_sta evt.bssid gen req ∷ []
        else [])
announced_lem evt adhoc gen req resp = refl
announced_lem evt station gen req resp = refl
announced_lem evt ap gen req resp = refl
announced_lem evt p2p_client gen req resp = refl
announced_lem evt p2p_go gen req resp = refl
announced_lem evt monitor gen req resp = refl
announced_lem evt other gen req resp = refl

pub assoc_req-Cut :
    (evt : ConnectEvent) (len : ℕ)
    → is_whole evt len ≡ true
    → Cut 4 evt.beacon_ie_len evt.assoc_req_len (len - connect_event_size) (assoc_req evt)
unfolding assoc_req is_whole
assoc_req-Cut evt len whole =
    if_cases (Cut 4 evt.beacon_ie_len evt.assoc_req_len (len - connect_event_size))
      (leb evt.assoc_req_len 4) (λ h. inl (ground (arith, h), refl))
      (λ h. inr (ground (arith, h), ground (arith, whole, h), refl))

pub assoc_resp-Cut :
    (evt : ConnectEvent) (len : ℕ)
    → is_whole evt len ≡ true
    → Cut 6
        (evt.beacon_ie_len + evt.assoc_req_len)
        evt.assoc_resp_len
        (len - connect_event_size)
        (assoc_resp evt)
unfolding assoc_resp is_whole
assoc_resp-Cut evt len whole =
    if_cases
      (Cut 6 (evt.beacon_ie_len + evt.assoc_req_len) evt.assoc_resp_len (len - connect_event_size))
      (leb evt.assoc_resp_len 6) (λ h. inl (ground (arith, h), refl))
      (λ h. inr (ground (arith, h), ground (arith, whole, h), refl))
