-- ===== src/Main/Live.antt =====
-- `wil_up` (main.c) when nothing is in its way.
use wigig_wil.Prelude.{
  ℕ, zero, suc, ◌≡◌, ◌∙◌, refl, ap, Bool, true, false, Option, none, some, is_some, if_cases, List,
  [], ◌∷◌, arith, ◌==◌, returns,
}
use wigig_wil.Vring.{Vring, vring_alloc_skb, vring_next_tail, rx_refill}
use wigig_wil.Vring.Setup.{vring_alloc, fresh, rx_init}
use wigig_wil.Wmi.Events.{HandlerCall, evt_fw_ready}
use wigig_wil.Cmd.Mlme.{wmi_set_ssid}
use wigig_wil.Cmd.Structs.{set_ssid_cmd}
use wigig_wil.Dev.{Dev, Rc, success, is_success, Cmd, Fw, wmi_send, tell, freed}
use wigig_wil.Dev.Leaves.{IsLink}
use wigig_wil.Evt.Dispatch.{Answers}
use wigig_wil.Main.{
  World, Memory, dev_rx_init, rx_ring_size, apply_ssid, finish_up, is_supported, up,
}
use wigig_wil.Main.Resets.{reset_stale}

true≢false : {b : Bool} → b ≡ true → b ≡ false → ⊥
true≢false on off = cc

vring_alloc_skb-some :
    (b : Option (ℕ × ℕ)) (v : Vring) (i : ℕ) → is_some b ≡ true → (vring_alloc_skb b v i).0 ≡ true
unfolding vring_alloc_skb
vring_alloc_skb-some none v i e = absurd (true≢false e refl)
vring_alloc_skb-some (some p) v i e = refl

module _ (bufs : ℕ → Option (ℕ × ℕ)) (given : (k : ℕ) → is_some (bufs k) ≡ true) where
  rx_refill-true : (count k : ℕ) (v : Vring) → (rx_refill bufs count k v).0 ≡ true
  unfolding rx_refill
  rx_refill-true zero k v = refl
  rx_refill-true (suc count) k v =
      if_cases {A = Bool × Vring} (λ p. p.0 ≡ true) (vring_next_tail v == v.swhead) (λ _. refl)
        (λ _.
          if_cases {A = Bool × Vring} (λ p. p.0 ≡ true) (vring_alloc_skb (bufs k) v v.swtail).0
            (λ _. rx_refill-true count (suc k) _)
            (λ no. absurd (true≢false (vring_alloc_skb-some (bufs k) v v.swtail (given k)) no)))

-- memory and buffers for the Rx ring, and a firmware that takes it
pub record Granted (m : Memory) : Type 0 where
  pub ctx : m.got_ctx ≡ true
  pub va : m.got_va ≡ true
  pub configured : is_success m.configured ≡ true
  pub bufs : (k : ℕ) → is_some (m.bufs k) ≡ true

dev_rx_init-success :
    (m : Memory) (d : Dev)
    → Granted m
    → (p : Rc × Dev) × (dev_rx_init m d ≡ returns p)
      × (is_success p.0 ≡ true)
      × (p.1.iftype ≡ d.iftype)
unfolding dev_rx_init rx_init vring_alloc
dev_rx_init-success m d g =
    let v = fresh m.mem rx_ring_size in
    let filled = rx_refill-true m.bufs g.bufs rx_ring_size 0 v in
    let ring = (rx_refill m.bufs rx_ring_size 0 v).1 in
    (
      (success, record (tell (freed []) d) { rx_ring = some ring }),
      rw (g.ctx, g.va, g.configured, filled) refl,
      refl,
      refl,
    )

finish_up-success :
    (fw : Fw) (m : Memory) (d : Dev)
    → is_supported d.iftype ≡ true
    → ((cmds : List Cmd) → is_success (fw cmds).rc ≡ true)
    → is_success (finish_up fw m d).0 ≡ true
unfolding finish_up apply_ssid wmi_set_ssid wmi_send
finish_up-success fw m d ok accepts =
    ground
      (arith, ok, accepts ((record { id = 0x827; body = set_ssid_cmd d.ssid_len d.ssid }) ∷ d.sent))

-- On an interface of a type that is supported, with no connection and no request for a session
-- queued and a well-formed table: when one event is handled while the reset waits, by which the
-- card says that it is ready, the card takes every command, and the Rx ring gets its memory and
-- buffers, `wil_up` succeeds.
pub up-success :
    (fw : Fw) (w : World) (m : Memory) (d : Dev) (a : Answers) (c : HandlerCall)
    → IsLink d.link
    → d.queued ≡ false
    → d.back_pending ≡ []
    → w.calls ≡ (a, c) ∷ []
    → c.handler ≡ evt_fw_ready
    → Granted m
    → is_supported d.iftype ≡ true
    → ((cmds : List Cmd) → is_success (fw cmds).rc ≡ true)
    → (p : Rc × Dev) × (up fw w m d ≡ returns p) × (is_success p.0 ≡ true)
unfolding up
up-success fw w m d a c h idle none_asked only ready g ok accepts =
    let r = reset_stale w d a c h idle none_asked only ready in
    let q = dev_rx_init-success m r.0 g in
    (
      finish_up fw m q.0.1,
      rw r.1 (rw q.1 (rw q.2 refl)),
      finish_up-success fw m q.0.1 (ap is_supported (q.3 ∙ r.4) ∙ ok) accepts,
    )
