-- ===== src/Evt/Station.antt =====
-- wmi.c: the events about a station, `wmi_evt_connect` and `wmi_evt_ba_status`, and the worker that
-- ends a connection (`wil_connect_worker` of main.c).
use wigig_wil.Prelude.{
  ℕ, suc, ◌+◌, ◌-◌, ◌%◌, ◌^◌, ◌==◌, ltb, leb, Bool, true, false, not, ◌&&◌, if◌then◌else◌, Option,
  none, some, is_some, List, [], ◌∷◌, ◌++◌, set, get_or, Outcome, returns, null_fault, ◌>>=◌,
}
use wigig_wil.Reorder.{Ampdu, RxEvent, tid_ampdu_rx_alloc, tid_ampdu_rx_free}
use wigig_wil.Station.{sta_at, sta_conn_pending, is_unused, max_cid}
use wigig_wil.Link.{no_ring, connect_worker}
use wigig_wil.Dev.{
  Dev, Part, Iftype, ap, p2p_go, sme_connecting, Sme, connect_result, new_sta, passed, tell,
  link_on,
}
use wigig_wil.Dev.Disconnect.{is_client}
use wigig_wil.Evt.{ConnectEvent, connect_event, connect_event_size, ba_event}

abbrev pub is_connecting : Sme → Bool
is_connecting sme_connecting = true
is_connecting _ = false

abbrev pub is_ap : Iftype → Bool
is_ap ap = true
is_ap p2p_go = true
is_ap _ = false

-- does the handler take the event? `len` is the number of its bytes
unfoldable pub is_whole : ConnectEvent → ℕ → Bool
is_whole evt len =
    not (ltb len connect_event_size)
    && (((len == connect_event_size + evt.beacon_ie_len + evt.assoc_req_len + evt.assoc_resp_len)
        && ltb evt.cid max_cid))

-- the IEs of the request and of the response in `assoc_info`, or NULL
unfoldable pub assoc_req : ConnectEvent → Part
assoc_req evt =
    if leb evt.assoc_req_len 4 then none else some (evt.beacon_ie_len + 4, evt.assoc_req_len - 4)

unfoldable pub assoc_resp : ConnectEvent → Part
assoc_resp evt =
    if leb evt.assoc_resp_len 6
    then none
    else some (evt.beacon_ie_len + evt.assoc_req_len + 6, evt.assoc_resp_len - 6)

-- the entry of the station, and the work that is queued for it
unfoldable pub ask_connect : ConnectEvent → Dev → Dev
ask_connect evt d =
    let sta = record (sta_at d.link.stas evt.cid) { addr = evt.bssid; status = sta_conn_pending } in
    record d {
      fwconnected = true;
      link = record d.link { stas = set d.link.stas evt.cid sta; pending = some evt.cid };
      queued = true;
    }

-- what a client, and what an access point, tells of a connection
abbrev pub tell_client : ConnectEvent → Dev → Dev
tell_client evt d =
    tell (connect_result (some evt.bssid) (assoc_req evt) (assoc_resp evt) true)
      (record d { timer = false })

abbrev pub tell_ap : ConnectEvent → Dev → Dev
tell_ap evt d =
    tell (new_sta evt.bssid d.sinfo_gen (assoc_req evt))
      (record d { sinfo_gen = (d.sinfo_gen + 1) % 2 ^ 32 })

-- `wmi_evt_connect`
unfoldable pub wmi_evt_connect : List ℕ → ℕ → Dev → Dev
unfolding is_whole assoc_req assoc_resp ask_connect
wmi_evt_connect bytes len d =
    let evt = connect_event bytes in
    if not (is_whole evt len)
    then d
    else if is_client d.iftype
    then if is_connecting d.sme then ask_connect evt (tell_client evt d) else d
    else if is_ap d.iftype
    then ask_connect evt (tell_ap evt d)
    else ask_connect evt d

-- `wil_connect_worker` with the link state: `got_mem` and `configured` say how the set-up of the
-- ring ends. Without a free ring the code writes before the array.
unfoldable pub dev_connect_worker : Bool → Bool → Dev → Outcome Dev
unfolding link_on
dev_connect_worker got_mem configured d =
    let d1 = record d { queued = false } in
    elim (connect_worker got_mem configured d.link) [
      | none ↦ null_fault
      | some link ↦
          let up = is_some d.link.pending && (got_mem && configured) in
          let d2 = record d1 { link = link } in returns (if up then link_on d2 else d2)
    ]

-- the loop of `wmi_evt_ba_status`: the `tid`th session is freed, and opened again if `agreed`;
-- `got` says for each TID whether it gets memory. The first result are the new sessions.
unfoldable pub renew_sessions :
    Bool → ℕ → (ℕ → Bool) → ℕ → List (Option Ampdu) → Outcome (List (Option Ampdu) × List RxEvent)
renew_sessions agreed size got tid [] = returns ([], [])
renew_sessions agreed size got tid (r ∷ rs) =
    let new = if agreed then tid_ampdu_rx_alloc (got tid) true true size 0 else none in
    tid_ampdu_rx_free r >>= λ out.
    renew_sessions agreed size got (suc tid) rs >>= λ p. returns (new ∷ p.0, out ++ p.1)

-- `wmi_evt_ba_status`
unfoldable pub wmi_evt_ba_status : (ℕ → Bool) → List ℕ → Dev → Outcome Dev
unfolding renew_sessions
wmi_evt_ba_status got bytes d =
    let evt = ba_event bytes in
    let cid = (get_or d.link.rings evt.ringid no_ring).cid in
    let sta = sta_at d.link.stas cid in
    let agreed = (evt.status == 0) && not (evt.agg_wsize == 0) in
    if leb 24 evt.ringid
    then returns d
    else if leb max_cid cid
    then returns d
    else if is_unused sta.status
    then returns d
    else (renew_sessions agreed evt.agg_wsize got 0 sta.tid_rx >>= λ p.
        returns (record (tell (passed p.1) d) {
          link = record d.link { stas = set d.link.stas cid (record sta { tid_rx = p.0 }) };
          tx_data =
              set d.tx_data evt.ringid
                (record { agg_wsize = evt.agg_wsize; agg_timeout = evt.ba_timeout });
        }))
