-- ===== src/Irq/Tests.antt =====
-- Interrupts at concrete registers: an Rx completion, and a firmware error that asks for the thread.
use wigig_wil.Prelude.{ℕ, ◌==◌, ◌≡◌, ◌≢◌, ◌⊎◌, true, false, if◌then◌else◌, [], ◌∷◌, refl}
use wigig_wil.Mbox.{MboxRing, MboxCtl}
use wigig_wil.Irq.{
  Irq, irq_none, irq_handled, irq_wake_thread, napi_schedule_rx, notify_fw_error, wmi_recv_cmd,
  irq_disable, irq_pseudo_mask, irq_rx, irq_tx, irq_misc, thread_irq, hardirq,
}
use wigig_wil.Irq.Protocol.{when_bit, hardirq_protocol, thread_irq_lem}
use wigig_wil.Irq.Request.{IsEnabled, init_irq, fini_irq, init_irq-fini_irq}

abbrev empty_ring : MboxRing
empty_ring = record { base = 0; entry_size = 0; size = 0; tail = 0; head = 0 }

abbrev empty_ctl : MboxCtl
empty_ctl = record { tx = empty_ring; rx = empty_ring }

-- enabled, with causes pending in the Rx and the misc block: a completion, an error of the
-- firmware and a mailbox event
abbrev pending : Irq
pending = record {
  pseudo_cause = 5;
  pseudo_mask = irq_pseudo_mask;
  icr_rx = 1;
  icr_tx = 0;
  icr_misc = 2684354560;
  imv_rx = 0;
  imv_tx = 0;
  imv_misc = 0;
  icc = 0;
  itr_trsh = 10000;
  itr_crl = 1;
  mbox_regs = empty_ctl;
  monitor = false;
  fwready = true;
  reset_done = false;
  irqen = true;
  isr_misc = 0;
  mbox_ctl = empty_ctl;
  calls = [];
}

-- after the hard handler
abbrev waiting : Irq
waiting = (hardirq pending).1

waiting_isr : waiting.isr_misc ≡ 2684354560
unfolding hardirq wigig_wil.Irq.serve irq_misc irq_rx
waiting_isr = refl

waiting_calls : (thread_irq waiting).calls ≡ wmi_recv_cmd ∷ notify_fw_error ∷ napi_schedule_rx ∷ []
unfolding hardirq thread_irq wigig_wil.Irq.serve irq_misc irq_rx
waiting_calls = refl

hardirq_protocol_example :
    let (rc, s') = hardirq pending in
    ((rc ≡ irq_wake_thread)
      × (s'.isr_misc ≢ 0)
      × (s'.irqen ≡ false)
      × (s'.pseudo_mask ≡ irq_disable))
    ⊎ ((rc ≢ irq_wake_thread)
        × (s'.isr_misc ≡ 0)
        × (s'.irqen ≡ true)
        × (s'.pseudo_mask ≡ irq_pseudo_mask))
hardirq_protocol_example = hardirq_protocol pending refl refl refl

thread_irq_lem_example :
    let s' = thread_irq waiting in
    (s'.isr_misc ≡ 0)
    × (s'.irqen ≡ true)
    × (s'.pseudo_mask ≡ irq_pseudo_mask)
    × (s'.imv_rx ≡ waiting.imv_rx)
    × (s'.imv_tx ≡ waiting.imv_tx)
    × (s'.calls
        ≡ when_bit waiting.isr_misc 29 wmi_recv_cmd
            (when_bit waiting.isr_misc 31 notify_fw_error waiting.calls))
thread_irq_lem_example = thread_irq_lem waiting

-- the kernel refuses line 42
abbrev refuses_42 : ℕ → ℕ
refuses_42 irq = if irq == 42 then 16 else 0

init_irq-fini_irq_example :
    let (rc, held', s') = init_irq refuses_42 3 50 [] pending in
    let (held'', s'') = fini_irq 3 50 held' s' in
    (rc ≢ 0 → (held' ≡ []) × (s' ≡ pending))
    × (rc ≡ 0
        → IsEnabled s'
          × (held'' ≡ [])
          × (s''.irqen ≡ false)
          × (s''.pseudo_mask ≡ irq_disable)
          × (s''.imv_rx ≡ irq_disable)
          × (s''.imv_tx ≡ irq_disable)
          × (s''.imv_misc ≡ irq_disable))
init_irq-fini_irq_example = init_irq-fini_irq refuses_42 3 50 [] pending

init_irq_refused : init_irq refuses_42 3 40 [] pending ≡ (16, [], pending)
unfolding init_irq
init_irq_refused = refl
