-- ===== src/Cfg80211/Scans.antt =====
-- How a request to scan ends (cfg80211.c).
use wigig_wil.Prelude.{
  ℕ, ◌+◌, ◌*◌, ◌≤◌, ◌≡◌, ◌∙◌, refl, ap, Bool, true, false, not, ◌&&◌, ◌%◌, ◌==◌, if◌then◌else◌,
  Option, none, some, is_some, if_cases, List, [], ◌∷◌, ◌++◌, length, take, length-take-le,
  Bool-cases, inl, inr, arith,
}
use wigig_wil.Dev.{Dev, Cmd, Rc, eagain, is_success, Fw, wmi_send, scan_done}
use wigig_wil.Dev.Disconnect.{is_client}
use wigig_wil.Cmd.{call_plain, call_status}
use wigig_wil.Cmd.Structs.{scan_channels, start_scan_cmd}
use wigig_wil.Cmd.Mlme.{wmi_p2p_cfg, wmi_set_ssid, wmi_set_ie, wmi_start_search, wmi_stop_discovery}
use wigig_wil.Cfg80211.Search.{search_cmds, p2p_scan-sent}
use wigig_wil.Cfg80211.Scan.{
  Channel, ScanRequest, p2p_ssid, is_p2p_search, set_probe_ie, and_then, p2p_scan, scan_list,
  start_scan, scan,
}

-- what a command leaves alone
record Silent (d d' : Dev) : Type 0 where
  told : d'.told ≡ d.told
  scan_request : d'.scan_request ≡ d.scan_request

Silent-refl : (d : Dev) → Silent d d
Silent-refl d = record { told = refl; scan_request = refl }

Silent-trans : {d d' d'' : Dev} → Silent d d' → Silent d' d'' → Silent d d''
Silent-trans a b = record { told = b.told ∙ a.told; scan_request = b.scan_request ∙ a.scan_request }

and_then-Silent :
    (d : Dev) (p : Rc × Dev) (next : Dev → Rc × Dev)
    → Silent d p.1
    → ((e : Dev) → Silent e (next e).1)
    → Silent d (and_then p next).1
and_then-Silent d p next first rest = elim (Bool-cases (is_success p.0)) [
  | inl e ↦ rw e (Silent-trans first (rest p.1))
  | inr e ↦ rw e first
]

module _ (fw : Fw) (got : Bool) (r : ScanRequest) where
  wmi_p2p_cfg-Silent : (d : Dev) → Silent d (wmi_p2p_cfg fw 2 100 d).1
  unfolding wmi_p2p_cfg wmi_send
  wmi_p2p_cfg-Silent d = record { told = ground arith; scan_request = ground arith }

  wmi_set_ssid-Silent : (d : Dev) → Silent d (wmi_set_ssid fw 7 p2p_ssid d).1
  unfolding wmi_set_ssid wmi_send
  wmi_set_ssid-Silent d = record { told = refl; scan_request = refl }

  set_probe_ie-Silent : (ie : Option (List ℕ)) (d : Dev) → Silent d (set_probe_ie fw got ie d).1
  unfolding set_probe_ie wmi_set_ie wmi_send
  set_probe_ie-Silent none d = Silent-refl d
  set_probe_ie-Silent (some ie) d = record { told = ground arith; scan_request = ground arith }

  wmi_start_search-Silent : (d : Dev) → Silent d (wmi_start_search fw d).1
  unfolding wmi_start_search call_status wigig_wil.Dev.wmi_call
  wmi_start_search-Silent d = record { told = ground arith; scan_request = ground arith }

  wmi_stop_discovery-Silent : (d : Dev) → Silent d (wmi_stop_discovery fw d).1
  unfolding wmi_stop_discovery call_plain wigig_wil.Dev.wmi_call
  wmi_stop_discovery-Silent d = record { told = ground arith; scan_request = ground arith }

-- may a scan begin?
abbrev pub may_scan : Dev → Bool
may_scan d = not (is_some d.scan_request) && (is_client d.iftype && not d.dontscan)

-- the channels that have a number, as the firmware counts them
abbrev pub known : List Channel → List ℕ
known [] = []
known (c ∷ cs) =
    let rest = known cs in if c.hw_value == 0 then rest else ((c.hw_value + 255) % 256) ∷ rest

-- how a request ends
pub data ScanEnds (fw : Fw) (r : ScanRequest) (d : Dev) (p : Rc × Dev) : Type 0 where
  refused : may_scan d ≡ false → is_success p.0 ≡ false → p.1 ≡ d → ScanEnds fw r d p
  searched :
      may_scan d ≡ true
      → is_p2p_search r ≡ true
      → p.1.told ≡ d.told ++ (scan_done r.at (is_success p.0) ∷ [])
      → p.1.scan_request ≡ d.scan_request
      → (is_success p.0 ≡ true → p.1.sent ≡ search_cmds r.ie ++ d.sent)
      → ScanEnds fw r d p
  started :
      (channels : List ℕ)
      → channels ≡ known (take 4 r.channels)
      → may_scan d ≡ true
      → is_p2p_search r ≡ false
      → length channels ≤ 4
      → length (start_scan_cmd channels) ≡ 18 + 2 * length channels
      → p.1.sent ≡ (record { id = 7; body = start_scan_cmd channels }) ∷ d.sent
      → p.0 ≡ (fw p.1.sent).rc
      → p.1.told ≡ d.told
      → p.1.scan_request ≡ some r.at
      → ScanEnds fw r d p

length-scan_list : (cs : List Channel) → length (scan_list cs) ≤ length cs
unfolding scan_list
length-scan_list [] = omega arith
length-scan_list (c ∷ cs) = ground (arith, length-scan_list cs)

length-scan_channels : (cs : List ℕ) → length (scan_channels cs) ≡ 2 * length cs
length-scan_channels [] = refl
length-scan_channels (c ∷ cs) = omega (arith, length-scan_channels cs)

scan_list-known : (cs : List Channel) → scan_list cs ≡ known cs
unfolding scan_list
scan_list-known [] = refl
scan_list-known (c ∷ cs) = elim (Bool-cases (c.hw_value == 0)) [
  | inl e ↦ rw e (scan_list-known cs)
  | inr e ↦ rw e (ap (λ l. (c.hw_value + 255) % 256 ∷ l) (scan_list-known cs))
]

start_scan-ScanEnds :
    (fw : Fw) (r : ScanRequest) (d : Dev)
    → may_scan d ≡ true
    → is_p2p_search r ≡ false
    → ScanEnds fw r d (start_scan fw r d)
unfolding start_scan wmi_send
start_scan-ScanEnds fw r d may plain =
    let cs = scan_list (take 4 r.channels) in
    started cs (scan_list-known (take 4 r.channels)) may plain
      (omega (arith, length-scan_list (take 4 r.channels), length-take-le 4 r.channels))
      (omega (arith, length-scan_channels cs)) refl refl refl refl

p2p_scan-ScanEnds :
    (fw : Fw) (got : Bool) (r : ScanRequest) (d : Dev)
    → may_scan d ≡ true
    → is_p2p_search r ≡ true
    → ScanEnds fw r d (p2p_scan fw got r d)
unfolding p2p_scan
p2p_scan-ScanEnds fw got r d may asked =
    let d1 = (wmi_p2p_cfg fw 2 100 d).1 in
    let first = wmi_p2p_cfg-Silent fw got r d in
    let search_on : Dev → Rc × Dev = λ e. wmi_start_search fw e in
    let ie_on : Dev → Rc × Dev = λ e. and_then (set_probe_ie fw got r.ie e) search_on in
    let steps = and_then (wmi_set_ssid fw 7 p2p_ssid d1) ie_on in
    let middle =
      and_then-Silent d1 (wmi_set_ssid fw 7 p2p_ssid d1) ie_on (wmi_set_ssid-Silent fw got r d1)
        (λ e.
          and_then-Silent e (set_probe_ie fw got r.ie e) search_on
            (set_probe_ie-Silent fw got r r.ie e) (wmi_start_search-Silent fw got r)) in
    let last =
      Silent-trans first (Silent-trans middle (wmi_stop_discovery-Silent fw got r steps.1)) in
    if_cases
      (λ p. (is_success p.0 ≡ true → p.1.sent ≡ search_cmds r.ie ++ d.sent) → ScanEnds fw r d p)
      (not (is_success (wmi_p2p_cfg fw 2 100 d).0))
      (λ _ sent. searched may asked (rw first.told refl) first.scan_request sent)
      (λ _ sent. searched may asked (rw last.told refl) last.scan_request sent)
      (p2p_scan-sent fw got r d (ground (arith, may)))

-- A request to scan is refused, with nothing changed, if a scan runs, the interface is no client or
-- scans are barred. Else, if it is a P2P search, the stack is told once that the request is done,
-- as aborted just if the search succeeds, and then its commands have been sent in their order: the
-- configuration, the SSID, the IE if there is one, the search and its end. Any other request is
-- recorded, and one command is sent, with those of the first four channels that have a number; the request stays recorded, and
-- the stack is told nothing, even if the command cannot be sent.
pub scan-ScanEnds :
    (fw : Fw) (got : Bool) (r : ScanRequest) (d : Dev) → ScanEnds fw r d (scan fw got r d)
unfolding scan
scan-ScanEnds fw got r d =
    if_cases (ScanEnds fw r d) (is_some d.scan_request) (λ e. refused (ground (arith, e)) refl refl)
      λ e.
        if_cases (ScanEnds fw r d) (not (is_client d.iftype))
          (λ f. refused (ground (arith, e, f)) refl refl)
          λ f.
            if_cases (ScanEnds fw r d) d.dontscan (λ g. refused (ground (arith, e, f, g)) refl refl)
              λ g.
                if_cases (ScanEnds fw r d) (is_p2p_search r)
                  (p2p_scan-ScanEnds fw got r d (ground (arith, e, f, g)))
                  (start_scan-ScanEnds fw r d (ground (arith, e, f, g)))
