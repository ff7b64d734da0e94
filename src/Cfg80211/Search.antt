-- ===== src/Cfg80211/Search.antt =====
-- The commands of a P2P search (`wil_p2p_scan` of cfg80211.c) that succeeds.
use wigig_wil.Prelude.{
  ℕ, ◌+◌, ◌≡◌, ◌∙◌, refl, sym, ap, append_assoc, Bool, true, false, ◌%◌, ◌==◌, if◌then◌else◌,
  Option, none, some, is_some, List, [], ◌∷◌, ◌++◌, length, take, Bool-cases, inl, inr, arith,
}
use wigig_wil.Dev.{Dev, Cmd, Rc, eagain, is_success, Fw, wmi_send, scan_done}
use wigig_wil.Cmd.{call_plain, call_status}
use wigig_wil.Cmd.Structs.{set_appie_cmd, set_ssid_cmd, p2p_cfg_cmd}
use wigig_wil.Cmd.Mlme.{wmi_p2p_cfg, wmi_set_ssid, wmi_set_ie, wmi_start_search, wmi_stop_discovery}
use wigig_wil.Cfg80211.Scan.{ScanRequest, p2p_ssid, set_probe_ie, and_then, p2p_scan}

-- the command that sets the IE of a search, if there is one
abbrev ie_cmds : Option (List ℕ) → List Cmd
ie_cmds none = []
ie_cmds (some ie) =
    if length ie == 0
    then []
    else (record {
      id = 0x3f;
      body = take ((4 + length ie % 65536) % 65536) (set_appie_cmd 1 (length ie % 65536) ie);
    })
      ∷ []

-- The commands of a P2P search, the last one first: the configuration of a peer on channel 2, the
-- SSID, the IE, the search, and its end.
abbrev pub search_cmds : Option (List ℕ) → List Cmd
search_cmds ie =
    (record { id = 0x917; body = [] })
    ∷ (record { id = 0x915; body = [] })
    ∷ (ie_cmds ie
        ++ ((record { id = 0x827; body = set_ssid_cmd 7 p2p_ssid })
            ∷ (record { id = 0x910; body = p2p_cfg_cmd 2 1 100 })
            ∷ []))

false≢true : false ≡ true → ⊥
false≢true e = cc

-- Steps succeed only if the first does, and then they are the rest of them.
and_then_lem :
    (p : Rc × Dev) (next : Dev → Rc × Dev)
    → is_success (and_then p next).0 ≡ true
    → (is_success p.0 ≡ true) × (and_then p next ≡ next p.1)
and_then_lem p next ok = elim (Bool-cases (is_success p.0)) [
  | inl e ↦ (e, rw e refl)
  | inr e ↦
      let same : and_then p next ≡ p = rw e refl in
      absurd (false≢true (sym e ∙ ap (λ q. is_success q.0) (sym same) ∙ ok))
]

module _ (fw : Fw) (got : Bool) (r : ScanRequest) where
  wmi_p2p_cfg-sent :
      (d : Dev)
      → is_some d.scan_request ≡ false
      → (wmi_p2p_cfg fw 2 100 d).1.sent
        ≡ (record { id = 0x910; body = p2p_cfg_cmd 2 1 100 }) ∷ d.sent
  unfolding wmi_p2p_cfg wmi_send
  wmi_p2p_cfg-sent d free = rw free refl

  wmi_set_ssid-sent :
      (d : Dev)
      → (wmi_set_ssid fw 7 p2p_ssid d).1.sent
        ≡ (record { id = 0x827; body = set_ssid_cmd 7 p2p_ssid }) ∷ d.sent
  unfolding wmi_set_ssid wmi_send
  wmi_set_ssid-sent d = refl

  set_probe_ie-sent :
      (ie : Option (List ℕ)) (d : Dev)
      → is_success (set_probe_ie fw got ie d).0 ≡ true
      → (set_probe_ie fw got ie d).1.sent ≡ ie_cmds ie ++ d.sent
  unfolding set_probe_ie wmi_set_ie wmi_send
  set_probe_ie-sent none d ok = refl
  set_probe_ie-sent (some ie) d ok = elim (Bool-cases (length ie == 0)) [
    | inl e ↦ rw e refl
    | inr e ↦ elim (Bool-cases got) [
      | inl g ↦ rw (e, g) refl
      | inr g ↦
          let failed : is_success (set_probe_ie fw got (some ie) d).0 ≡ false = rw (e, g) refl in
          absurd (false≢true (sym failed ∙ ok))
    ]
  ]

  wmi_start_search-sent :
      (d : Dev) → (wmi_start_search fw d).1.sent ≡ (record { id = 0x915; body = [] }) ∷ d.sent
  unfolding wmi_start_search call_status wigig_wil.Dev.wmi_call
  wmi_start_search-sent d = ground arith

  wmi_stop_discovery-sent :
      (d : Dev) → (wmi_stop_discovery fw d).1.sent ≡ (record { id = 0x917; body = [] }) ∷ d.sent
  unfolding wmi_stop_discovery call_plain wigig_wil.Dev.wmi_call
  wmi_stop_discovery-sent d = refl

  ie_on : Dev → Rc × Dev
  ie_on e = and_then (set_probe_ie fw got r.ie e) λ e'. wmi_start_search fw e'

  steps : Dev → Rc × Dev
  unfolding ie_on
  steps d = and_then (wmi_set_ssid fw 7 p2p_ssid d) λ e. ie_on e

  steps-sent :
      (d : Dev)
      → is_success (steps d).0 ≡ true
      → (steps d).1.sent
        ≡ (record { id = 0x915; body = [] })
          ∷ (ie_cmds r.ie ++ ((record { id = 0x827; body = set_ssid_cmd 7 p2p_ssid }) ∷ d.sent))
  unfolding steps ie_on
  steps-sent d ok =
      let first = and_then_lem (wmi_set_ssid fw 7 p2p_ssid d) ie_on ok in
      let d1 = (wmi_set_ssid fw 7 p2p_ssid d).1 in
      let ok1 = ap (λ q. is_success q.0) (sym first.1) ∙ ok in
      let second = and_then_lem (set_probe_ie fw got r.ie d1) (λ e. wmi_start_search fw e) ok1 in
      let search : Cmd = record { id = 0x915; body = [] } in
      ap (λ q. q.1.sent) (first.1 ∙ second.1)
      ∙ wmi_start_search-sent (set_probe_ie fw got r.ie d1).1
      ∙ ap (λ l. search ∷ l)
          (set_probe_ie-sent r.ie d1 second.0 ∙ ap (λ l. ie_cmds r.ie ++ l) (wmi_set_ssid-sent d))

  pub p2p_scan-sent :
      (d : Dev)
      → is_some d.scan_request ≡ false
      → is_success (p2p_scan fw got r d).0 ≡ true
      → (p2p_scan fw got r d).1.sent ≡ search_cmds r.ie ++ d.sent
  unfolding p2p_scan steps ie_on
  p2p_scan-sent d free ok = elim (Bool-cases (is_success (wmi_p2p_cfg fw 2 100 d).0)) [
    | inr e ↦
        let same : (p2p_scan fw got r d).0 ≡ (wmi_p2p_cfg fw 2 100 d).0 = rw e refl in
        absurd (false≢true (sym e ∙ ap (λ c. is_success c) (sym same) ∙ ok))
    | inl e ↦
        let d1 = (wmi_p2p_cfg fw 2 100 d).1 in
        let same : (p2p_scan fw got r d).0 ≡ (steps d1).0 = rw e refl in
        let sent : (p2p_scan fw got r d).1.sent ≡ (wmi_stop_discovery fw (steps d1).1).1.sent =
          rw e refl in
        let stop : Cmd = record { id = 0x917; body = [] } in
        let tail : List Cmd → List Cmd = λ l.
          stop
          ∷ (record { id = 0x915; body = [] })
          ∷ (ie_cmds r.ie ++ ((record { id = 0x827; body = set_ssid_cmd 7 p2p_ssid }) ∷ l)) in
        sent
        ∙ wmi_stop_discovery-sent (steps d1).1
        ∙ ap (λ l. stop ∷ l) (steps-sent d1 (ap (λ c. is_success c) (sym same) ∙ ok))
        ∙ ap tail (wmi_p2p_cfg-sent d free)
        ∙ sym (
            ap (λ l. stop ∷ (record { id = 0x915; body = [] }) ∷ l)
              (append_assoc (ie_cmds r.ie) _ d.sent))
  ]
