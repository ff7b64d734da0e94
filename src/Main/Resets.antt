-- ===== src/Main/Resets.antt =====
-- `wil_reset` (main.c).
use mathlib.Core.Path.{subst}
use wigig_wil.Prelude.{
  ◌++◌, ◌≡◌, ◌∙◌, refl, sym, ap, true, false, none, [], ◌∷◌, ◌==◌, arith, Outcome, returns, ◌>>=◌,
  not,
}
use wigig_wil.Station.Back.Worker.{all_fair, handled_all, back_worker_lem}
use wigig_wil.Dev.{Dev, Rc, success, is_success, link_off, tell, passed}
use wigig_wil.Dev.Disconnect.{disconnect, disconnect_now, leave, link_state}
use wigig_wil.Dev.Leaves.{IsLink}
use wigig_wil.Dev.News.{news, is_off}
use wigig_wil.Wmi.Events.{HandlerCall, evt_fw_ready}
use wigig_wil.Evt.Handlers.{wmi_evt_fw_ready}
use wigig_wil.Evt.Dispatch.{
  serve_as, Answers, all_fair_calls, count_ready, serve_all, serve_all-Keeps,
}
use wigig_wil.Main.{World, flush_conn, flush_back, silence, restart, wait_for_fw_ready, reset}

-- the device after `wil6210_disconnect(wil, NULL)`, which disconnects no station
abbrev pub cut : Dev → Dev
cut d = link_state none (record d { timer = false })

pub disconnect-cut : (d : Dev) → disconnect d none ≡ returns (cut d)
unfolding disconnect disconnect_now leave
disconnect-cut d = refl

-- what it leaves alone
pub record Kept (d d' : Dev) : Type 0 where
  pub link : d'.link ≡ d.link
  pub queued : d'.queued ≡ d.queued
  pub back_pending : d'.back_pending ≡ d.back_pending
  pub rx_ring : d'.rx_ring ≡ d.rx_ring
  pub scan_request : d'.scan_request ≡ d.scan_request
  pub iftype : d'.iftype ≡ d.iftype
  pub napi : d'.napi ≡ d.napi
  pub told : d'.told ≡ d.told ++ news none (is_off d.iftype) d.sme

pub cut-Kept : (d : Dev) → Kept d (cut d)
unfolding link_state link_off
cut-Kept d = ground arith

module _ (w : World) where
  -- the device before the card is reset, and when the wait begins
  abbrev pub before_reset : Dev → Dev
  before_reset d =
      let p = handled_all w.answers 0 d.back_pending d.link.stas in
      record (tell (passed p.1) d) { link = record d.link { stas = p.0 }; back_pending = [] }

  flush_back-before_reset :
      (d : Dev)
      → IsLink d.link
      → all_fair d.back_pending ≡ true
      → (flush_back w d ≡ returns (before_reset d)) × IsLink (before_reset d).link
  unfolding flush_back
  flush_back-before_reset d h fair =
      let r = back_worker_lem w.answers d.back_pending d.link.stas h.table fair in
      (rw r.0 refl, record { table = r.1; found = h.found })

  silence-link : (d : Dev) → (silence d).link ≡ d.link
  unfolding silence
  silence-link d = refl

  flush_conn-none : (d : Dev) → d.queued ≡ false → flush_conn w d ≡ returns d
  unfolding flush_conn
  flush_conn-none d e = rw e refl

  restart-link : (d : Dev) → IsLink d.link → IsLink (restart w d).link
  unfolding restart
  restart-link d h = record { table = h.table; found = h.found }

  restart-ready : (d : Dev) → (restart w d).ready ≡ 0
  unfolding restart
  restart-ready d = refl

  -- the device when the wait begins
  abbrev pub waiting : Dev → Dev
  waiting d = restart w (before_reset (silence (cut d)))

  silence-back : (d : Dev) → (silence d).back_pending ≡ d.back_pending
  unfolding silence
  silence-back d = refl

  silence-queued : (d : Dev) → (silence d).queued ≡ d.queued
  unfolding silence
  silence-queued d = refl

  -- what is left of the reset after each flush
  abbrev after_back : Dev → Outcome (Rc × Dev)
  after_back d = serve_all w.calls (restart w d) >>= λ d4. returns (wait_for_fw_ready d4)

  abbrev after_conn : Dev → Outcome (Rc × Dev)
  after_conn d = flush_back w d >>= after_back

  reset-waiting :
      (d : Dev)
      → IsLink d.link
      → d.queued ≡ false
      → all_fair d.back_pending ≡ true
      → (reset w d ≡ (serve_all w.calls (waiting d) >>= λ d4. returns (wait_for_fw_ready d4)))
        × IsLink (waiting d).link
  unfolding reset
  reset-waiting d h idle fair =
      let kept = cut-Kept d in
      let s = silence (cut d) in
      let link : s.link ≡ d.link = silence-link (cut d) ∙ kept.link in
      let flushed =
        flush_back-before_reset s (subst IsLink (sym link) h)
          (ap all_fair (silence-back (cut d) ∙ kept.back_pending) ∙ fair) in
      (
        ap (λ o. o >>= after_conn) (flush_conn-none s (silence-queued (cut d) ∙ kept.queued ∙ idle))
            ∙ ap (λ o. o >>= after_back) flushed.0,
        restart-link (before_reset s) flushed.1,
      )

wait_for_fw_ready-success : (d : Dev) → is_success (wait_for_fw_ready d).0 ≡ not (d.ready == 0)
unfolding wait_for_fw_ready
wait_for_fw_ready-success d = ground arith

wait_for_fw_ready-link : (d : Dev) → (wait_for_fw_ready d).1.link ≡ d.link
unfolding wait_for_fw_ready
wait_for_fw_ready-link d = ground arith

-- With a well-formed table, no connection queued and fair requests and events, a reset returns,
-- and keeps the table well-formed; it succeeds if and only if, while it waits, the firmware
-- reports that it is ready.
pub reset_lem :
    (w : World) (d : Dev)
    → IsLink d.link
    → d.queued ≡ false
    → all_fair d.back_pending ≡ true
    → all_fair_calls w.calls ≡ true
    → (p : Rc × Dev) × (reset w d ≡ returns p)
      × IsLink p.1.link
      × (is_success p.0 ≡ not (count_ready w.calls == 0))
reset_lem w d h idle fair fair_calls =
    let start = reset-waiting w d h idle fair in
    let served = serve_all-Keeps w.calls (waiting w d) start.1 fair_calls in
    let counted : served.0.ready ≡ count_ready w.calls =
      omega (arith, served.3, restart-ready w (before_reset w (silence (cut d)))) in
    (
      wait_for_fw_ready served.0,
      rw start.0 (rw served.1 refl),
      subst IsLink (sym (wait_for_fw_ready-link served.0)) served.2,
      wait_for_fw_ready-success served.0 ∙ ap (λ n. not (n == 0)) counted,
    )

serve_all-fw_ready :
    (a : Answers) (c : HandlerCall) (d : Dev)
    → c.handler ≡ evt_fw_ready
    → serve_all ((a, c) ∷ []) d ≡ returns (wmi_evt_fw_ready d)
unfolding serve_all serve_as
serve_all-fw_ready a c d ready = ap (λ k. serve_as k a c.payload c.len d >>= λ d'. returns d') ready

-- A reset, during whose wait the card says that it is ready and nothing else happens, succeeds and
-- leaves every station, with its sessions, and every Tx ring as they were: stations that the card
-- has forgotten count as connected.
pub reset_stale :
    (w : World) (d : Dev) (a : Answers) (c : HandlerCall)
    → IsLink d.link
    → d.queued ≡ false
    → d.back_pending ≡ []
    → w.calls ≡ (a, c) ∷ []
    → c.handler ≡ evt_fw_ready
    → (d' : Dev) × (reset w d ≡ returns (success, d'))
      × (d'.link.stas ≡ d.link.stas)
      × (d'.link.rings ≡ d.link.rings)
      × (d'.iftype ≡ d.iftype)
unfolding wmi_evt_fw_ready wait_for_fw_ready restart silence handled_all
reset_stale w d a c h idle none_asked only ready =
    let start = reset-waiting w d h idle (ap all_fair none_asked) in
    let kept = cut-Kept d in
    let asked : (cut d).back_pending ≡ [] = kept.back_pending ∙ none_asked in
    let same : (handled_all w.answers 0 (cut d).back_pending (cut d).link.stas).0 ≡ d.link.stas =
      rw asked (ap (λ s. s.stas) kept.link) in
    let served : serve_all w.calls (waiting w d) ≡ returns (wmi_evt_fw_ready (waiting w d)) =
      ap (λ l. serve_all l (waiting w d)) only ∙ serve_all-fw_ready a c (waiting w d) ready in
    (
      record (wmi_evt_fw_ready (waiting w d)) { ready = 0 },
      start.0 ∙ ap (λ o. o >>= λ d4. returns (wait_for_fw_ready d4)) served,
      same,
      ap (λ s. s.rings) kept.link,
      kept.iftype,
    )
