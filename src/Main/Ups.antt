-- ===== src/Main/Ups.antt =====
-- `wil_up` (main.c).
use mathlib.Core.Path.{subst}
use wigig_wil.Prelude.{
  ℕ, ◌+◌, ◌≡◌, ◌∙◌, refl, sym, ap, Bool, true, false, none, some, List, [], ◌==◌, length,
  Bool-cases, inl, inr, arith, Outcome, returns, ◌>>=◌,
}
use wigig_wil.Station.Back.Worker.{all_fair}
use wigig_wil.Vring.{Vring}
use wigig_wil.Vring.Refill.{IsRing, used}
use wigig_wil.Vring.Setup.{rx_init-Ends}
use wigig_wil.Cmd.Mlme.{wmi_set_ssid, wmi_set_mac_address}
use wigig_wil.Dev.{wmi_send, Dev, Rc, success, is_success, Fw, freed, tell}
use wigig_wil.Dev.Leaves.{IsLink}
use wigig_wil.Evt.Dispatch.{all_fair_calls, count_ready}
use wigig_wil.Main.{
  World, Memory, dev_rx_init, is_radiotap, rx_init_code, rx_ring_size, apply_ssid, finish_up,
  is_supported, up, unless_failed,
}
use wigig_wil.Main.Resets.{reset_lem}

-- the ring that the device has is well-formed, and filled but for one slot
abbrev pub HasRing : Dev → Type 0
HasRing d = (v : Vring) × (d.rx_ring ≡ some v) × IsRing v × (used v + 1 ≡ v.size)

rx_init_code-fails : (m : Memory) → is_success (rx_init_code m) ≡ false
unfolding rx_init_code
rx_init_code-fails m = elim (Bool-cases (is_success m.configured)) [
  | inl e ↦ ground (arith, e)
  | inr e ↦ ground (arith, e)
]

true≢false : (b : Bool) → b ≡ false → b ≡ true → ⊥
true≢false b off on = cc

dev_rx_init-HasRing :
    (m : Memory) (d : Dev)
    → length m.mem ≡ rx_ring_size
    → (p : Rc × Dev) × (dev_rx_init m d ≡ returns p)
      × (p.1.link ≡ d.link)
      × (p.1.iftype ≡ d.iftype)
      × (is_success p.0 ≡ true → HasRing p.1)
unfolding dev_rx_init
dev_rx_init-HasRing m d len =
    elim (rx_init-Ends m.got_ctx m.got_va (is_success m.configured) m.bufs m.mem rx_ring_size
      (omega arith) len) [
        | inl (ops, e) ↦ (
          (rx_init_code m, record (tell (freed ops) d) { rx_ring = none }),
          rw e refl,
          refl,
          refl,
          λ ok. absurd (true≢false (is_success (rx_init_code m)) (rx_init_code-fails m) ok),
        )
        | inr (v, e, ring, full) ↦ (
          (success, record (tell (freed []) d) { rx_ring = some v }),
          rw e refl,
          refl,
          refl,
          λ _. (v, refl, ring, full),
        )
      ]

-- how bringing the interface up ends
pub data UpEnds (w : World) (p : Rc × Dev) : Type 0 where
  not_up : is_success p.0 ≡ false → UpEnds w p
  is_up :
      is_success p.0 ≡ true
      → p.1.napi ≡ true
      → is_supported p.1.iftype ≡ true
      → (count_ready w.calls == 0) ≡ false
      → HasRing p.1
      → UpEnds w p

-- what a command leaves alone
record Rest (d d' : Dev) : Type 0 where
  link : d'.link ≡ d.link
  rx_ring : d'.rx_ring ≡ d.rx_ring
  iftype : d'.iftype ≡ d.iftype

apply_ssid-Rest : (fw : Fw) (d : Dev) → Rest d (apply_ssid fw d).1
unfolding apply_ssid wmi_set_ssid wmi_send
apply_ssid-Rest fw d = ground arith

wmi_set_mac_address-Rest :
    (fw : Fw) (reserved addr : List ℕ) (d : Dev) → Rest d (wmi_set_mac_address fw reserved addr d).1
unfolding wmi_set_mac_address wmi_send
wmi_set_mac_address-Rest fw reserved addr d = record { link = refl; rx_ring = refl; iftype = refl }

HasRing-Rest : (d d' : Dev) → d'.rx_ring ≡ d.rx_ring → HasRing d → HasRing d'
HasRing-Rest d d' e (v, at, ring, full) = (v, e ∙ at, ring, full)

module _ (fw : Fw) (w : World) (m : Memory) (d : Dev) (ring : HasRing d) (h : IsLink d.link) where
  abbrev named : Dev
  named = (apply_ssid fw (record d { radiotap = is_radiotap d.iftype })).1

  abbrev addressed : Dev
  addressed = (wmi_set_mac_address fw m.reserved named.dev_addr named).1

  addressed-Rest : Rest d addressed
  addressed-Rest =
      let a = apply_ssid-Rest fw (record d { radiotap = is_radiotap d.iftype }) in
      let b = wmi_set_mac_address-Rest fw m.reserved named.dev_addr named in
      record {
        link = b.link ∙ a.link;
        rx_ring = b.rx_ring ∙ a.rx_ring;
        iftype = b.iftype ∙ a.iftype;
      }

  finish_up-UpEnds :
      (count_ready w.calls == 0) ≡ false
      → UpEnds w (finish_up fw m d) × IsLink (finish_up fw m d).1.link
  unfolding finish_up
  finish_up-UpEnds ready =
      let a = apply_ssid-Rest fw (record d { radiotap = is_radiotap d.iftype }) in
      let b = addressed-Rest in
      elim (Bool-cases (is_supported d.iftype)) [
        | inr e ↦ rw (e, finish_up) (not_up refl, h)
        | inl e ↦
            elim (Bool-cases
              (is_success (apply_ssid fw (record d { radiotap = is_radiotap d.iftype })).0)) [
                | inr f ↦ rw (e, f, finish_up) (not_up f, subst IsLink (sym a.link) h)
                | inl f ↦
                    rw (e, f, finish_up)
                      (
                        is_up refl refl (ap is_supported b.iftype ∙ e) ready
                            (HasRing-Rest d addressed b.rx_ring ring),
                        subst IsLink (sym b.link) h,
                      )
              ]
      ]

-- With a well-formed table, no connection queued, fair requests and events, and memory of the
-- size of the ring: `wil_up` returns, and keeps the table well-formed. If it succeeds, the card
-- has said that it is ready, the type of the interface is supported, the Rx ring is well-formed
-- and filled but for one slot, and polling is enabled.
pub up_lem :
    (fw : Fw) (w : World) (m : Memory) (d : Dev)
    → IsLink d.link
    → d.queued ≡ false
    → all_fair d.back_pending ≡ true
    → all_fair_calls w.calls ≡ true
    → length m.mem ≡ rx_ring_size
    → (p : Rc × Dev) × (up fw w m d ≡ returns p) × UpEnds w p × IsLink p.1.link
unfolding up
up_lem fw w m d h idle fair fair_calls len =
    let r = reset_lem w d h idle fair fair_calls in
    elim (Bool-cases (is_success r.0.0)) [
      | inr failed ↦ (
        r.0,
        ap (λ o. o >>= λ p. unless_failed p (λ d1. then_ring d1)) r.1 ∙ rw failed refl,
        not_up failed,
        r.2,
      )
      | inl ok ↦
          let q = dev_rx_init-HasRing m r.0.1 len in
          let ready : (count_ready w.calls == 0) ≡ false = ground (arith, r.3, ok) in
          let link = subst IsLink (sym q.2) r.2 in
          let start = ap (λ o. o >>= λ p. unless_failed p (λ d1. then_ring d1)) r.1 in
          let next = ap (λ o. o >>= λ p. unless_failed p then_finish) q.1 in
          elim (Bool-cases (is_success q.0.0)) [
            | inr failed ↦ (q.0, start ∙ rw ok (next ∙ rw failed refl), not_up failed, link)
            | inl got ↦
                let e = finish_up-UpEnds fw w m q.0.1 (q.4 got) link ready in
                (finish_up fw m q.0.1, start ∙ rw ok (next ∙ rw got refl), e.0, e.1)
          ]
    ]
  where
    then_finish : Dev → Outcome (Rc × Dev)
    then_finish d2 = returns (finish_up fw m d2)

    then_ring : Dev → Outcome (Rc × Dev)
    then_ring d1 = dev_rx_init m d1 >>= λ q. unless_failed q then_finish
