-- ===== src/Evt/Connects.antt =====
-- From the event of a connection (wmi.c) to the Tx ring of the station (main.c).
use mathlib.Core.Path.{subst}
use wigig_wil.Prelude.{
  ℕ, ◌+◌, ◌<◌, ◌≡◌, ◌≢◌, ◌∙◌, refl, sym, ap, Bool, true, false, not, ◌&&◌, ◌||◌, ◌-◌, if◌then◌else◌,
  some, List, [], ◌∷◌, ◌++◌, append-nil, length, Bool-cases, inl, inr, arith, returns,
}
use wigig_wil.Station.{session, sta_at, sta_conn_pending, max_cid}
use wigig_wil.Station.Table.{IsTable, set-IsTable, sta_at-set, sta_at-set_ne}
use wigig_wil.Link.{Link, find_free_vring}
use wigig_wil.Link.Rings.{has_ring, IsFound}
use wigig_wil.Link.Connect.{IsConnected, connect_worker_lem}
use wigig_wil.Dev.{Dev, Part, Told, connect_result, new_sta, link_on}
use wigig_wil.Dev.Disconnect.{is_client}
use wigig_wil.Dev.Leaves.{IsLink}
use wigig_wil.Evt.{ConnectEvent, connect_event, connect_event_size}
use wigig_wil.Evt.News.{Cut, announced, announced_lem, assoc_req-Cut, assoc_resp-Cut}
use wigig_wil.Evt.Station.{
  is_connecting, is_ap, is_whole, assoc_req, assoc_resp, ask_connect, tell_client, tell_ap,
  wmi_evt_connect, dev_connect_worker,
}

-- does the event begin a connection? A client must be connecting.
abbrev pub is_taken : ConnectEvent → ℕ → Dev → Bool
is_taken evt len d = is_whole evt len && (not (is_client d.iftype) || is_connecting d.sme)

-- what an event leaves that begins a connection
pub record Asked (evt : ConnectEvent) (len : ℕ) (s : Link) (ready : ℕ) (d' : Dev) : Type 0 where
  pub table : IsTable d'.link.stas
  pub addr : (sta_at d'.link.stas evt.cid).addr ≡ evt.bssid
  pub sessions : (sta_at d'.link.stas evt.cid).tid_rx ≡ (sta_at s.stas evt.cid).tid_rx
  pub others : (c : ℕ) → c ≢ evt.cid → sta_at d'.link.stas c ≡ sta_at s.stas c
  pub rings : d'.link.rings ≡ s.rings
  pub pending : d'.link.pending ≡ some evt.cid
  pub queued : d'.queued ≡ true
  pub completions : d'.ready ≡ ready

cid_lt : (evt : ConnectEvent) (len : ℕ) → is_whole evt len ≡ true → evt.cid < max_cid
unfolding is_whole
cid_lt evt len whole = ground (arith, whole)

ask_connect-Asked :
    (evt : ConnectEvent) (len : ℕ) (d : Dev)
    → IsTable d.link.stas
    → is_whole evt len ≡ true
    → Asked evt len d.link d.ready (ask_connect evt d)
unfolding ask_connect session
ask_connect-Asked evt len d t whole =
    let lt = cid_lt evt len whole in
    let sta = sta_at d.link.stas evt.cid in
    let new = record sta { addr = evt.bssid; status = sta_conn_pending } in
    let at = sta_at-set d.link.stas evt.cid new t lt in
    record {
      table = set-IsTable d.link.stas evt.cid new t lt (t.tids evt.cid lt) (t.placed evt.cid);
      addr = ap (λ x. x.addr) at;
      sessions = ap (λ x. x.tid_rx) at;
      others = λ c ne. sta_at-set_ne d.link.stas evt.cid c new (λ e. ne (sym e));
      rings = refl;
      pending = refl;
      queued = refl;
      completions = refl;
    }

-- what the stack is told of the connection: nothing but the news for the kind of interface, with
-- the IEs that the event carries after 4 and 6 bytes of its request and response
pub record Announces (evt : ConnectEvent) (len : ℕ) (d d' : Dev) : Type 0 where
  pub req : Part
  pub resp : Part
  pub req_cut : Cut 4 evt.beacon_ie_len evt.assoc_req_len (len - connect_event_size) req
  pub resp_cut :
      Cut 6
        (evt.beacon_ie_len + evt.assoc_req_len)
        evt.assoc_resp_len
        (len - connect_event_size)
        resp
  pub told : d'.told ≡ d.told ++ announced evt d.iftype d.sinfo_gen req resp

-- how the event of a connection is handled
pub data Begins (evt : ConnectEvent) (len : ℕ) (d d' : Dev) : Type 0 where
  ignored : is_taken evt len d ≡ false → d' ≡ d → Begins evt len d d'
  begun :
      is_taken evt len d ≡ true
      → Asked evt len d.link d.ready d'
      → Announces evt len d d'
      → Begins evt len d d'

-- what the handler tells, by the kind of interface
unfoldable heard : ConnectEvent → Dev → List Told
heard evt d =
    if is_client d.iftype
    then connect_result (some evt.bssid) (assoc_req evt) (assoc_resp evt) true ∷ []
    else if is_ap d.iftype
    then new_sta evt.bssid d.sinfo_gen (assoc_req evt) ∷ []
    else []

heard-Announces :
    (evt : ConnectEvent) (len : ℕ) (d d' : Dev)
    → is_whole evt len ≡ true
    → d'.told ≡ d.told ++ heard evt d
    → Announces evt len d d'
unfolding heard
heard-Announces evt len d d' whole same = record {
  req = assoc_req evt;
  resp = assoc_resp evt;
  req_cut = assoc_req-Cut evt len whole;
  resp_cut = assoc_resp-Cut evt len whole;
  told =
      same
      ∙ ap (λ l. d.told ++ l)
          (sym (announced_lem evt d.iftype d.sinfo_gen (assoc_req evt) (assoc_resp evt)));
}

begun-Asked :
    {evt : ConnectEvent} {len : ℕ} {d d' : Dev}
    → Begins evt len d d'
    → is_taken evt len d ≡ true
    → Asked evt len d.link d.ready d'
begun-Asked (ignored refused same) taken = absurd (false≢true (sym refused ∙ taken))
  where
    false≢true : false ≡ true → ⊥
    false≢true e = cc
begun-Asked (begun begins asked _) taken = asked

-- Whatever the bytes of the event: it is ignored, with nothing changed, unless its lengths and CID
-- are right and a client is connecting. Else its station gets the address and keeps its sessions,
-- the table stays well-formed with the other entries and the rings as they were, the connection is
-- pending and its worker queued. The stack is told just this: a client hears of the network and an
-- access point of the station, with the IEs that the event carries, which lie within its bytes.
pub wmi_evt_connect-Begins :
    (bytes : List ℕ) (len : ℕ) (d : Dev)
    → IsTable d.link.stas
    → Begins (connect_event bytes) len d (wmi_evt_connect bytes len d)
unfolding wmi_evt_connect ask_connect heard
wmi_evt_connect-Begins bytes len d t = elim (Bool-cases (is_whole (connect_event bytes) len)) [
  | inr e ↦ rw (e, wmi_evt_connect) (ignored (ground (arith, e)) refl)
  | inl e ↦ elim (Bool-cases (is_client d.iftype)) [
    | inl client ↦ elim (Bool-cases (is_connecting d.sme)) [
      | inl c ↦
          rw (e, client, c, wmi_evt_connect)
            (begun (ground (arith, e, client, c))
              (ask_connect-Asked (connect_event bytes) len (tell_client (connect_event bytes) d) t
                e)
              (heard-Announces (connect_event bytes) len d _ e (rw client refl)))
      | inr c ↦ rw (e, client, c, wmi_evt_connect) (ignored (ground (arith, e, client, c)) refl)
    ]
    | inr other ↦ elim (Bool-cases (is_ap d.iftype)) [
      | inl a ↦
          rw (e, other, a, wmi_evt_connect)
            (begun (ground (arith, e, other))
              (ask_connect-Asked (connect_event bytes) len (tell_ap (connect_event bytes) d) t e)
              (heard-Announces (connect_event bytes) len d _ e (rw (other, a) refl)))
      | inr a ↦
          rw (e, other, a, wmi_evt_connect)
            (begun (ground (arith, e, other)) (ask_connect-Asked (connect_event bytes) len d t e) (
              heard-Announces (connect_event bytes) len d _ e
                (rw (other, a) (sym (append-nil d.told)))))
    ]
  ]
]

-- the device once the worker has run
pub record Connected (cid : ℕ) (ok : Bool) (d d' : Dev) : Type 0 where
  pub link : IsConnected d'.link cid ok
  pub carrier : d'.carrier ≡ (if ok then true else d.carrier)
  pub queues : d'.queues ≡ (if ok then true else d.queues)
  pub queued : d'.queued ≡ false

dev_connect_worker-Connected :
    (got configured : Bool) (d : Dev) (cid k : ℕ)
    → d.link.pending ≡ some cid
    → find_free_vring d.link.rings ≡ some k
    → cid < length d.link.stas
    → has_ring cid d.link.rings ≡ false
    → ((c : ℕ) → IsFound c d.link.rings)
    → (d' : Dev) × (dev_connect_worker got configured d ≡ returns d')
      × Connected cid (got && configured) d d'
unfolding dev_connect_worker link_on
dev_connect_worker-Connected got configured d cid k asked free lt alone found =
    let r = connect_worker_lem got configured d.link cid k asked free lt alone found in
    let next = record d { queued = false; link = r.0 } in
    elim (Bool-cases (got && configured)) [
      | inl ok ↦ (
        link_on next,
        rw (r.1, dev_connect_worker, asked, ok) refl,
        record {
          link = r.2;
          carrier = ground (arith, ok);
          queues = ground (arith, ok);
          queued = refl;
        },
      )
      | inr no_ring ↦ (
        next,
        rw (r.1, dev_connect_worker, asked, no_ring) refl,
        record {
          link = r.2;
          carrier = ground (arith, no_ring);
          queues = ground (arith, no_ring);
          queued = refl;
        },
      )
    ]

-- An event that begins a connection, on a device with a free ring whose station has none, and
-- then the worker: the station is connected, and the interface set up, if and only if it got its
-- ring; the request is done, and the search finds the rings of all stations that have one.
pub dev_connect_worker-wmi_evt_connect :
    (bytes : List ℕ) (len : ℕ) (d : Dev) (got configured : Bool) (k : ℕ)
    → IsLink d.link
    → is_taken (connect_event bytes) len d ≡ true
    → find_free_vring d.link.rings ≡ some k
    → has_ring (connect_event bytes).cid d.link.rings ≡ false
    → (d' : Dev) × (dev_connect_worker got configured (wmi_evt_connect bytes len d) ≡ returns d')
      × Connected (connect_event bytes).cid (got && configured) (wmi_evt_connect bytes len d) d'
dev_connect_worker-wmi_evt_connect bytes len d got configured k h taken free alone =
    let asked = begun-Asked (wmi_evt_connect-Begins bytes len d h.table) taken in
    let cid = (connect_event bytes).cid in
    let d1 = wmi_evt_connect bytes len d in
    let lt : cid < max_cid = cid_lt (connect_event bytes) len (ground (arith, taken)) in
    dev_connect_worker-Connected got configured d1 cid k asked.pending (rw asked.rings free)
      (omega (arith, asked.table.cids, lt)) (rw asked.rings alone)
      (subst (λ r. (c : ℕ) → IsFound c r) (sym asked.rings) h.found)
