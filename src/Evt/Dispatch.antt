-- ===== src/Evt/Dispatch.antt =====
-- wmi.c: which handler serves an event (`wmi_evt_handlers`, `wmi_evt_call_handler`), and events in
-- sequence. `Answers` has what the kernel decides while an event is handled.
use mathlib.Core.Path.{subst}
use wigig_wil.Prelude.{
  ◌+◌, ◌%◌, ◌^◌, ℕ, ◌≡◌, refl, sym, ap, Bool, true, ◌&&◌, List, [], ◌∷◌, Outcome, returns, ◌>>=◌,
  some, inl, inr, arith, Option-cases,
}
use wigig_wil.Link.Rings.{IsFound}
use wigig_wil.Wmi.Events.{
  Handler, HandlerCall, evt_ready, evt_fw_ready, evt_rx_mgmt, evt_scan_complete, evt_connect,
  evt_disconnect, evt_notify, evt_eapol_rx, evt_linkup, evt_linkdown, evt_ba_status,
  evt_rcp_addba_req,
}
use wigig_wil.Dev.{Dev}
use wigig_wil.Dev.Leaves.{IsLink}
use wigig_wil.Dev.Disconnects.{disconnect_lem}
use wigig_wil.Evt.{ConnectEvent, BaEvent, ba_event, disconnect_event_bssid}
use wigig_wil.Evt.Handlers.{
  wmi_evt_ready, wmi_evt_fw_ready, wmi_evt_scan_complete, wmi_evt_disconnect, wmi_evt_notify,
  wmi_evt_linkup, wmi_evt_linkdown, wmi_evt_rcp_addba_req,
}
use wigig_wil.Evt.Station.{wmi_evt_connect, wmi_evt_ba_status}
use wigig_wil.Evt.Frames.{Ieee80211, wmi_evt_eapol_rx, wmi_evt_rx_mgmt}
use wigig_wil.Evt.Connects.{Begins, ignored, begun, wmi_evt_connect-Begins}
use wigig_wil.Evt.Backs
use wigig_wil.Evt.Backs.{Handled, handled, is_fair_ba, wmi_evt_ba_status-Handled}

pub record Answers : Type 0 where
  pub is_valid : List ℕ → Bool
  pub got : Bool
  pub got_tid : ℕ → Bool
  pub accepted : Bool
  pub ieee80211 : Ieee80211
  pub use_pcp_for_ap : Bool

-- the handler of an event, called
unfoldable pub serve_as : Handler → Answers → List ℕ → ℕ → Dev → Outcome Dev
unfolding wmi_evt_ready wmi_evt_fw_ready wmi_evt_scan_complete wmi_evt_disconnect wmi_evt_notify
    wmi_evt_linkup wmi_evt_linkdown wmi_evt_rcp_addba_req wmi_evt_connect wmi_evt_ba_status
    wmi_evt_eapol_rx wmi_evt_rx_mgmt
serve_as evt_ready a evt len d = returns (wmi_evt_ready a.is_valid evt d)
serve_as evt_fw_ready a evt len d = returns (wmi_evt_fw_ready d)
serve_as evt_rx_mgmt a evt len d = returns (wmi_evt_rx_mgmt a.ieee80211 a.use_pcp_for_ap evt d)
serve_as evt_scan_complete a evt len d = returns (wmi_evt_scan_complete evt d)
serve_as evt_connect a evt len d = returns (wmi_evt_connect evt len d)
serve_as evt_disconnect a evt len d = wmi_evt_disconnect evt d
serve_as evt_notify a evt len d = returns (wmi_evt_notify evt len d)
serve_as evt_eapol_rx a evt len d = returns (wmi_evt_eapol_rx a.got a.accepted evt d)
serve_as evt_linkup a evt len d = returns (wmi_evt_linkup d)
serve_as evt_linkdown a evt len d = returns (wmi_evt_linkdown d)
serve_as evt_ba_status a evt len d = wmi_evt_ba_status a.got_tid evt d
serve_as evt_rcp_addba_req a evt len d = returns (wmi_evt_rcp_addba_req a.got evt d)

-- the calls of handlers that `wmi_event_handle` makes, one after another
unfoldable pub serve_all : List (Answers × HandlerCall) → Dev → Outcome Dev
unfolding serve_as
serve_all [] d = returns d
serve_all ((a, c) ∷ calls) d = serve_as c.handler a c.payload c.len d >>= λ d'. serve_all calls d'

-- an event that does not ask for sessions of a size that the reorder buffer cannot work with
abbrev pub is_fair_as : Handler → List ℕ → Bool
is_fair_as evt_ba_status evt = is_fair_ba (ba_event evt)
is_fair_as _ evt = true

abbrev pub all_fair_calls : List (Answers × HandlerCall) → Bool
all_fair_calls [] = true
all_fair_calls ((a, c) ∷ calls) = is_fair_as c.handler c.payload && all_fair_calls calls

-- does the handler complete `wmi_ready`?
abbrev pub is_ready_as : Handler → ℕ
is_ready_as evt_fw_ready = 1
is_ready_as _ = 0

abbrev pub count_ready : List (Answers × HandlerCall) → ℕ
count_ready [] = 0
count_ready ((a, c) ∷ calls) = is_ready_as c.handler + count_ready calls

-- a call that returns with a well-formed link, and `n` completions
abbrev pub Keeps : Outcome Dev → ℕ → Type 0
Keeps o n = (d' : Dev) × (o ≡ returns d') × IsLink d'.link × (d'.ready ≡ n)

-- a state with the link and the completions of another
abbrev Quiet : Dev → Dev → Type 0
Quiet d d' = (d'.link ≡ d.link) × (d'.ready ≡ d.ready)

Quiet-Keeps : (d d' : Dev) → IsLink d.link → Quiet d d' → Keeps (returns d') d.ready
Quiet-Keeps d d' h q = (d', refl, subst IsLink (sym q.0) h, q.1)

Begins-Keeps :
    {evt : ConnectEvent} {len : ℕ} {d d' : Dev}
    → IsLink d.link
    → Begins evt len d d'
    → IsLink d'.link × (d'.ready ≡ d.ready)
Begins-Keeps h (ignored _ same) = (subst (λ x. IsLink x.link) (sym same) h, ap (λ x. x.ready) same)
Begins-Keeps h (begun _ asked _) = (
  record {
    table = asked.table;
    found = subst (λ r. (c : ℕ) → IsFound c r) (sym asked.rings) h.found;
  },
  asked.completions,
)

Handled-Keeps :
    {evt : BaEvent} {got : ℕ → Bool} {d d' : Dev}
    → IsLink d.link
    → Handled evt got d d'
    → IsLink d'.link × (d'.ready ≡ d.ready)
Handled-Keeps h (Backs.Handled.ignored _ same) =
    (subst (λ x. IsLink x.link) (sym same) h, ap (λ x. x.ready) same)
Handled-Keeps h (handled _ renewed) = (
  record {
    table = renewed.table;
    found = subst (λ r. (c : ℕ) → IsFound c r) (sym renewed.rings) h.found;
  },
  renewed.ready,
)

add_zero : (n : ℕ) → n + 0 ≡ n
add_zero n = omega arith

module _ (a : Answers) (evt : List ℕ) (len : ℕ) (d : Dev) (h : IsLink d.link) where
  wmi_evt_scan_complete-Quiet : Quiet d (wmi_evt_scan_complete evt d)
  unfolding wmi_evt_scan_complete
  wmi_evt_scan_complete-Quiet = elim (Option-cases d.scan_request) [
    | inl e ↦ rw (e, wmi_evt_scan_complete) (refl, refl)
    | inr (r, e) ↦ rw (e, wmi_evt_scan_complete) (refl, refl)
  ]

  wmi_evt_notify-Quiet : Quiet d (wmi_evt_notify evt len d)
  unfolding wmi_evt_notify
  wmi_evt_notify-Quiet = ground arith

  wmi_evt_eapol_rx-Quiet : Quiet d (wmi_evt_eapol_rx a.got a.accepted evt d)
  unfolding wmi_evt_eapol_rx
  wmi_evt_eapol_rx-Quiet = ground arith

  wmi_evt_rx_mgmt-Quiet : Quiet d (wmi_evt_rx_mgmt a.ieee80211 a.use_pcp_for_ap evt d)
  unfolding wmi_evt_rx_mgmt
  wmi_evt_rx_mgmt-Quiet = ground arith

  wmi_evt_disconnect-Keeps : Keeps (wmi_evt_disconnect evt d) d.ready
  unfolding wmi_evt_disconnect
  wmi_evt_disconnect-Keeps =
      let r =
        disconnect_lem (record d { sinfo_gen = (d.sinfo_gen + 1) % 2 ^ 32 })
          (some (disconnect_event_bssid evt)) h in
      (r.0, r.1, r.2.leaves.link, r.2.ready)

  wmi_evt_ba_status-Keeps :
      is_fair_ba (ba_event evt) ≡ true → Keeps (wmi_evt_ba_status a.got_tid evt d) d.ready
  wmi_evt_ba_status-Keeps fair =
      let r = wmi_evt_ba_status-Handled a.got_tid evt d h.table fair in
      let kept = Handled-Keeps h r.2 in (r.0, r.1, kept.0, kept.1)

  wmi_evt_connect-Keeps : Keeps (returns (wmi_evt_connect evt len d)) d.ready
  wmi_evt_connect-Keeps =
      let kept = Begins-Keeps h (wmi_evt_connect-Begins evt len d h.table) in
      (wmi_evt_connect evt len d, refl, kept.0, kept.1)

  serve_as-Keeps :
      (handler : Handler)
      → is_fair_as handler evt ≡ true
      → Keeps (serve_as handler a evt len d) (d.ready + is_ready_as handler)
  unfolding serve_as wmi_evt_ready wmi_evt_fw_ready wmi_evt_linkup wmi_evt_linkdown
      wmi_evt_rcp_addba_req
  serve_as-Keeps evt_fw_ready fair = (_, refl, h, refl)
  serve_as-Keeps evt_ready fair = rw (add_zero d.ready) (_, refl, h, refl)
  serve_as-Keeps evt_rx_mgmt fair = rw (add_zero d.ready) (Quiet-Keeps d _ h wmi_evt_rx_mgmt-Quiet)
  serve_as-Keeps evt_scan_complete fair =
      rw (add_zero d.ready) (Quiet-Keeps d _ h wmi_evt_scan_complete-Quiet)
  serve_as-Keeps evt_connect fair = rw (add_zero d.ready) wmi_evt_connect-Keeps
  serve_as-Keeps evt_disconnect fair = rw (add_zero d.ready) wmi_evt_disconnect-Keeps
  serve_as-Keeps evt_notify fair = rw (add_zero d.ready) (Quiet-Keeps d _ h wmi_evt_notify-Quiet)
  serve_as-Keeps evt_eapol_rx fair =
      rw (add_zero d.ready) (Quiet-Keeps d _ h wmi_evt_eapol_rx-Quiet)
  serve_as-Keeps evt_linkup fair = rw (add_zero d.ready) (_, refl, h, refl)
  serve_as-Keeps evt_linkdown fair = rw (add_zero d.ready) (_, refl, h, refl)
  serve_as-Keeps evt_ba_status fair = rw (add_zero d.ready) (wmi_evt_ba_status-Keeps fair)
  serve_as-Keeps evt_rcp_addba_req fair = rw (add_zero d.ready) (_, refl, h, refl)

-- Any events at all, in any order, of which none asks for sessions of a size that the reorder
-- buffer cannot work with: the handlers return, the table of stations stays well-formed, with
-- every ring in use found by the search, and `wmi_ready` is completed once for each event that
-- says the firmware is ready.
pub serve_all-Keeps :
    (calls : List (Answers × HandlerCall)) (d : Dev)
    → IsLink d.link
    → all_fair_calls calls ≡ true
    → Keeps (serve_all calls d) (d.ready + count_ready calls)
unfolding serve_all
serve_all-Keeps [] d h fair = (d, refl, h, omega arith)
serve_all-Keeps ((a, c) ∷ calls) d h fair =
    let first = serve_as-Keeps a c.payload c.len d h c.handler (ground (arith, fair)) in
    let rest = serve_all-Keeps calls first.0 first.2 (ground (arith, fair)) in
    (rest.0, rw first.1 rest.1, rest.2, omega (arith, rest.3, first.3))
