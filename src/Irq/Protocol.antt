-- ===== src/Irq/Protocol.antt =====
-- The two phases of an interrupt: the hard handler, and the thread it may ask for.
use wigig_wil.Prelude.{
  ◌^◌, ℕ, ◌==◌, ◌≡◌, ◌≢◌, ◌<◌, Bool, true, false, if◌then◌else◌, List, ◌∷◌, arith, inl, inr, ◌⊎◌,
  refl,
}
use wigig_wil.Word.{has_bit}
use wigig_wil.Irq.{
  Irq, IrqReturn, irq_none, irq_handled, irq_wake_thread, IrqCall, napi_schedule_rx,
  napi_schedule_tx, notify_fw_error, wmi_recv_cmd, irq_disable, irq_pseudo_mask, vote, irq_rx,
  irq_tx, irq_misc, thread_irq, serve, hardirq, mask_irq_pseudo,
}

-- no thread asked for, nothing left for it, and the pseudo interrupt masked
record IsQuiet (p : IrqReturn × Irq) : Type 0 where
  voted : p.0 ≡ irq_handled
  nothing : p.1.isr_misc ≡ 0
  off : p.1.irqen ≡ false
  masked : p.1.pseudo_mask ≡ irq_disable

record IsWaking (p : IrqReturn × Irq) : Type 0 where
  voted : p.0 ≡ irq_wake_thread
  causes : p.1.isr_misc ≢ 0
  off : p.1.irqen ≡ false
  masked : p.1.pseudo_mask ≡ irq_disable

vote_rx : (b : Bool) (p : IrqReturn × Irq) → IsQuiet p → IsQuiet (vote b irq_rx p)
unfolding vote irq_rx
vote_rx b p q = ground arith

vote_tx : (b : Bool) (p : IrqReturn × Irq) → IsQuiet p → IsQuiet (vote b irq_tx p)
unfolding vote irq_tx
vote_tx b p q = ground arith

vote_misc :
    (b : Bool) (p : IrqReturn × Irq)
    → IsQuiet p
    → IsWaking (vote b irq_misc p) ⊎ IsQuiet (vote b irq_misc p)
unfolding vote irq_misc
vote_misc b p q = ground arith

serve_lem :
    (cause : ℕ) (s : Irq) → s.isr_misc ≡ 0 → IsWaking (serve cause s) ⊎ IsQuiet (serve cause s)
unfolding serve mask_irq_pseudo
serve_lem cause s idle =
    let p0 : IrqReturn × Irq = (irq_handled, mask_irq_pseudo s) in
    let p1 : IrqReturn × Irq = vote (has_bit cause 0) irq_rx p0 in
    vote_misc (has_bit cause 2) (vote (has_bit cause 1) irq_tx p1) (
      vote_tx (has_bit cause 1) p1 (
        vote_rx (has_bit cause 0) p0
          (record { voted = refl; nothing = idle; off = refl; masked = refl })))

-- With the interrupt enabled and no causes left over, the hard handler asks for the thread exactly
-- if it leaves causes for it; it then leaves the pseudo interrupt masked, and otherwise unmasked.
pub hardirq_protocol :
    (s : Irq)
    → s.isr_misc ≡ 0
    → s.irqen ≡ true
    → s.pseudo_mask ≡ irq_pseudo_mask
    → let (rc, s') = hardirq s in
      ((rc ≡ irq_wake_thread)
        × (s'.isr_misc ≢ 0)
        × (s'.irqen ≡ false)
        × (s'.pseudo_mask ≡ irq_disable))
      ⊎ ((rc ≢ irq_wake_thread)
          × (s'.isr_misc ≡ 0)
          × (s'.irqen ≡ true)
          × (s'.pseudo_mask ≡ irq_pseudo_mask))
unfolding hardirq
hardirq_protocol s idle on unmasked =
    elim (serve_lem s.pseudo_cause (record s { pseudo_cause = 0 }) idle) [
      | inl w ↦ ground (arith, w.voted, w.causes, w.off, w.masked)
      | inr q ↦ ground (arith, q.voted, q.nothing, q.off, q.masked)
    ]

abbrev pub when_bit : ℕ → ℕ → IrqCall → List IrqCall → List IrqCall
when_bit isr k call calls = if has_bit isr k then call ∷ calls else calls

-- The thread serves each cause that was left for it once, the firmware error first; it leaves no
-- cause, the pseudo interrupt enabled and unmasked, and the other two blocks as they were.
pub thread_irq_lem :
    (s : Irq)
    → let s' = thread_irq s in
      (s'.isr_misc ≡ 0)
      × (s'.irqen ≡ true)
      × (s'.pseudo_mask ≡ irq_pseudo_mask)
      × (s'.imv_rx ≡ s.imv_rx)
      × (s'.imv_tx ≡ s.imv_tx)
      × (s'.calls
          ≡ when_bit s.isr_misc 29 wmi_recv_cmd (when_bit s.isr_misc 31 notify_fw_error s.calls))
unfolding thread_irq
thread_irq_lem s = ground arith

-- A firmware error that the misc block reports clears the ready flag at once, asks for the thread,
-- and leaves the error in the causes that the thread serves.
irq_misc_error :
    (s : Irq)
    → s.icr_misc < 2 ^ 32
    → has_bit s.icr_misc 31 ≡ true
    → let (rc, s') = irq_misc s in
      (rc ≡ irq_wake_thread)
      × (s'.fwready ≡ false)
      × (has_bit s'.isr_misc 31 ≡ true)
      × (s'.imv_misc ≡ irq_disable)
unfolding irq_misc
irq_misc_error s w h = ground arith

-- On the Rx and the Tx block: no cause is no interrupt of the device, and changes nothing but the
-- cause register; any cause masks the block until polling ends, and the completion bit schedules
-- the polling.
irq_rx-irq_tx_lem :
    (s : Irq)
    → (irq_rx s ≡ (
        if s.icr_rx == 0 then (irq_none, record s { icr_rx = 0 }) else (
          irq_handled,
          record s {
            icr_rx = 0;
            imv_rx = irq_disable;
            calls = when_bit s.icr_rx 0 napi_schedule_rx s.calls;
          },
        )))
      × (irq_tx s ≡ (
          if s.icr_tx == 0 then (irq_none, record s { icr_tx = 0 }) else (
            irq_handled,
            record s {
              icr_tx = 0;
              imv_tx = irq_disable;
              calls = when_bit s.icr_tx 0 napi_schedule_tx s.calls;
            },
          )))
unfolding irq_rx irq_tx
irq_rx-irq_tx_lem s = ground arith
