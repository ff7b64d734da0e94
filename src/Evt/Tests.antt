-- ===== src/Evt/Tests.antt =====
-- Events on the device of Dev/Tests: station 2 connects, station 1 sends a frame and agrees to
-- a block-ack session.
use wigig_wil.Prelude.{ℕ, ◌≡◌, refl, true, false, List, [], ◌∷◌, returns, arith}
use wigig_wil.Link.Tests.{free_at}
use wigig_wil.Wmi.Events.{HandlerCall, evt_connect, evt_ba_status, evt_fw_ready}
use wigig_wil.Dev.{Dev}
use wigig_wil.Dev.Tests.{device, device-IsLink}
use wigig_wil.Evt.{connect_event, ba_event}
use wigig_wil.Evt.Station.{wmi_evt_connect, wmi_evt_ba_status, dev_connect_worker, is_whole}
use wigig_wil.Evt.Connects.{
  is_taken, Begins, Connected, wmi_evt_connect-Begins, dev_connect_worker-wmi_evt_connect,
}
use wigig_wil.Evt.Backs.{Handled, wmi_evt_ba_status-Handled}
use wigig_wil.Evt.Frames.{Eapol, wmi_evt_eapol_rx, wmi_evt_eapol_rx-Eapol}
use wigig_wil.Evt.Dispatch.{Answers, Keeps, serve_all, serve_all-Keeps}

-- station 2, no IEs
abbrev pub joins : List ℕ
joins =
    1 ∷ 0 ∷ 4 ∷ 206 ∷ 20 ∷ 9 ∷ 9 ∷ 9 ∷ 0 ∷ 0 ∷ 0 ∷ 0 ∷ 0 ∷ 0 ∷ 0 ∷ 0 ∷ 0 ∷ 0 ∷ 0 ∷ 2 ∷ 0 ∷ 0 ∷ 0
    ∷ []

-- ring 1, a window of 8 frames
abbrev agrees : List ℕ
agrees = 0 ∷ 0 ∷ 0 ∷ 0 ∷ 1 ∷ 8 ∷ 0 ∷ 0 ∷ []

-- two bytes from station 1
abbrev eapol : List ℕ
eapol = 4 ∷ 206 ∷ 20 ∷ 1 ∷ 2 ∷ 3 ∷ 2 ∷ 0 ∷ 170 ∷ 187 ∷ []

joins_taken : is_taken (connect_event joins) 23 device ≡ true
unfolding is_whole
joins_taken = refl

wmi_evt_connect-Begins_example :
    Begins (connect_event joins) 23 device (wmi_evt_connect joins 23 device)
wmi_evt_connect-Begins_example = wmi_evt_connect-Begins joins 23 device device-IsLink.table

dev_connect_worker-wmi_evt_connect_example :
    (d' : Dev) × (dev_connect_worker true true (wmi_evt_connect joins 23 device) ≡ returns d')
    × Connected 2 true (wmi_evt_connect joins 23 device) d'
dev_connect_worker-wmi_evt_connect_example =
    dev_connect_worker-wmi_evt_connect joins 23 device true true 0 device-IsLink joins_taken free_at
      refl

wmi_evt_ba_status-Handled_example :
    (d' : Dev) × (wmi_evt_ba_status (λ k. true) agrees device ≡ returns d')
    × Handled (ba_event agrees) (λ k. true) device d'
wmi_evt_ba_status-Handled_example =
    wmi_evt_ba_status-Handled (λ k. true) agrees device device-IsLink.table refl

wmi_evt_eapol_rx-Eapol_example :
    Eapol eapol true true device (wmi_evt_eapol_rx true true eapol device)
wmi_evt_eapol_rx-Eapol_example = wmi_evt_eapol_rx-Eapol true true eapol device refl (omega arith)

abbrev pub answers : Answers
answers = record {
  is_valid = λ mac. true;
  got = true;
  got_tid = λ k. true;
  accepted = true;
  ieee80211 = record {
    frequency = λ k. k;
    has_channel = λ k. true;
    is_beacon = λ k. false;
    is_probe_resp = λ k. false;
    has_rsn = λ ie len. false;
  };
  use_pcp_for_ap = false;
}

abbrev pub says_ready : HandlerCall
says_ready = record { handler = evt_fw_ready; id = 0x1801; payload = []; len = 0 }

abbrev calls : List (Answers × HandlerCall)
calls =
    (answers, says_ready)
    ∷ (answers, record { handler = evt_connect; id = 0x1002; payload = joins; len = 23 })
    ∷ (answers, record { handler = evt_ba_status; id = 0x1823; payload = agrees; len = 8 })
    ∷ []

serve_all-Keeps_example : Keeps (serve_all calls device) 1
serve_all-Keeps_example = serve_all-Keeps calls device device-IsLink refl
