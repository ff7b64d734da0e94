-- ===== src/Irq.antt =====
-- interrupt.c. The registers that the handlers touch are part of the state, with the effect of a
-- write that `struct RGF_ICR` of wil6210.h documents: a 1 written to ICR clears the cause, to IMS
-- sets the mask and to IMC clears it; ICM reads as the cause without the masked bits.
pub mod Protocol
pub mod Request
mod Tests
use wigig_wil.Prelude.{
  ℕ, ◌+◌, ◌-◌, ◌%◌, ◌==◌, Bool, true, false, not, ◌&&◌, ◌||◌, if◌then◌else◌, List, [], ◌∷◌, Option,
  none, some,
}
use wigig_wil.Word.{has_bit, drop_bit}
use wigig_wil.Mbox.{MboxCtl}

-- calls that leave the handlers
pub data IrqCall : Type 0 where
  napi_schedule_rx napi_schedule_tx : IrqCall
  notify_fw_error wmi_recv_cmd : IrqCall

pub record Irq : Type 0 where
  pub pseudo_cause : ℕ
  pub pseudo_mask : ℕ
  pub icr_rx : ℕ
  pub icr_tx : ℕ
  pub icr_misc : ℕ
  pub imv_rx : ℕ
  pub imv_tx : ℕ
  pub imv_misc : ℕ
  pub icc : ℕ
  pub itr_trsh : ℕ
  pub itr_crl : ℕ
  pub mbox_regs : MboxCtl
  -- fields of `struct wil6210_priv`
  pub monitor : Bool
  pub fwready : Bool
  pub reset_done : Bool
  pub irqen : Bool
  pub isr_misc : ℕ
  pub mbox_ctl : MboxCtl
  -- newest first
  pub calls : List IrqCall

pub data IrqReturn : Type 0 where
  irq_none irq_handled irq_wake_thread : IrqReturn

abbrev pub irq_disable : ℕ
irq_disable = 0xFFFFFFFF

abbrev pub irq_pseudo_mask : ℕ
irq_pseudo_mask = 0xFFFFFFF8

unfoldable pub mask_irq_tx : Irq → Irq
mask_irq_tx s = record s { imv_tx = irq_disable }

unfoldable pub mask_irq_rx : Irq → Irq
mask_irq_rx s = record s { imv_rx = irq_disable }

unfoldable pub mask_irq_misc : Irq → Irq
mask_irq_misc s = record s { imv_misc = irq_disable }

unfoldable pub mask_irq_pseudo : Irq → Irq
mask_irq_pseudo s = record s { pseudo_mask = irq_disable; irqen = false }

-- TX_DONE and TX_DONE_N(0)
unfoldable pub unmask_irq_tx : Irq → Irq
unmask_irq_tx s = record s { imv_tx = drop_bit (drop_bit s.imv_tx 0) 1 }

unfoldable pub unmask_irq_rx : Irq → Irq
unmask_irq_rx s = record s { imv_rx = drop_bit s.imv_rx 0 }

-- FW_READY, MBOX_EVT and FW_ERROR
unfoldable pub unmask_irq_misc : Irq → Irq
unmask_irq_misc s = record s { imv_misc = drop_bit (drop_bit (drop_bit s.imv_misc 28) 29) 31 }

unfoldable pub unmask_irq_pseudo : Irq → Irq
unmask_irq_pseudo s = record s { irqen = true; pseudo_mask = irq_pseudo_mask }

unfoldable pub disable_irq : Irq → Irq
unfolding mask_irq_tx mask_irq_rx mask_irq_misc mask_irq_pseudo
disable_irq s = mask_irq_pseudo (mask_irq_misc (mask_irq_rx (mask_irq_tx s)))

unfoldable pub enable_irq : Irq → Irq
unfolding unmask_irq_tx unmask_irq_rx unmask_irq_misc unmask_irq_pseudo
enable_irq s =
    let configured = record s { icc = 0 } in
    let moderated =
      if s.monitor
      then record configured { itr_crl = 0 }
      else record configured { itr_trsh = 10000; itr_crl = 1 } in
    unmask_irq_misc (unmask_irq_rx (unmask_irq_tx (unmask_irq_pseudo moderated)))

unfoldable pub irq_rx : Irq → IrqReturn × Irq
unfolding mask_irq_rx
irq_rx s =
    let isr = s.icr_rx in
    let s1 = record s { icr_rx = 0 } in
    let s2 = mask_irq_rx s1 in
    if isr == 0
    then (irq_none, s1)
    else if has_bit isr 0
    then (irq_handled, record s2 { calls = napi_schedule_rx ∷ s2.calls })
    else (irq_handled, s2)

unfoldable pub irq_tx : Irq → IrqReturn × Irq
unfolding mask_irq_tx
irq_tx s =
    let isr = s.icr_tx in
    let s1 = record s { icr_tx = 0 } in
    let s2 = mask_irq_tx s1 in
    if isr == 0
    then (irq_none, s1)
    else if has_bit isr 0
    then (irq_handled, record s2 { calls = napi_schedule_tx ∷ s2.calls })
    else (irq_handled, s2)

unfoldable pub cache_mbox_regs : Irq → Irq
cache_mbox_regs s = record s { mbox_ctl = s.mbox_regs }

-- the part of `wil6210_irq_misc` for the firmware's error and ready bits
unfoldable pub note_fw_error : ℕ → Irq → Irq
note_fw_error isr s = if has_bit isr 31 then record s { fwready = false } else s

unfoldable pub note_fw_ready : ℕ → Irq → Irq
unfolding cache_mbox_regs
note_fw_ready isr s =
    let s1 = cache_mbox_regs s in if has_bit isr 28 then record s1 { reset_done = true } else s

unfoldable pub irq_misc : Irq → IrqReturn × Irq
unfolding mask_irq_misc unmask_irq_misc note_fw_error note_fw_ready
irq_misc s =
    let isr = s.icr_misc in
    let s1 = record s { icr_misc = 0 } in
    let s2 = note_fw_ready isr (note_fw_error isr (mask_irq_misc s1)) in
    let rest = drop_bit isr 28 in
    let s3 = record s2 { isr_misc = rest } in
    if isr == 0
    then (irq_none, s1)
    else if rest == 0
    then (irq_handled, unmask_irq_misc s3)
    else (irq_wake_thread, s3)

unfoldable pub irq_misc_thread : Irq → Irq
unfolding unmask_irq_misc
irq_misc_thread s =
    let isr = s.isr_misc in
    let s1 = if has_bit isr 31 then record s { calls = notify_fw_error ∷ s.calls } else s in
    let s2 = if has_bit isr 29 then record s1 { calls = wmi_recv_cmd ∷ s1.calls } else s1 in
    unmask_irq_misc (record s2 { isr_misc = 0 })

unfoldable pub thread_irq : Irq → Irq
unfolding irq_misc_thread unmask_irq_pseudo
thread_irq s = unmask_irq_pseudo (if s.isr_misc == 0 then s else irq_misc_thread s)

-- Does the debug check refuse the interrupt? Its reads clear the causes of the three blocks.
unfoldable pub debug_irq_mask : Irq → Bool × Irq
debug_irq_mask s =
    if s.irqen then (false, s) else (true, record s { icr_rx = 0; icr_tx = 0; icr_misc = 0 })

abbrev pub wakes : IrqReturn → Bool
wakes irq_wake_thread = true
wakes _ = false

-- one handler of `wil6210_hardirq`, called if its bit is set, and the vote for the thread
unfoldable pub vote : Bool → (Irq → IrqReturn × Irq) → IrqReturn × Irq → IrqReturn × Irq
vote called handler (rc, s) =
    let (r, s') = handler s in
    if called then (if wakes r then irq_wake_thread else rc, s') else (rc, s)

unfoldable pub serve : ℕ → Irq → IrqReturn × Irq
unfolding mask_irq_pseudo vote
serve cause s =
    vote (has_bit cause 2) irq_misc (
      vote (has_bit cause 1) irq_tx
        (vote (has_bit cause 0) irq_rx (irq_handled, mask_irq_pseudo s)))

unfoldable pub hardirq : Irq → IrqReturn × Irq
unfolding debug_irq_mask unmask_irq_pseudo
hardirq s =
    let cause = s.pseudo_cause in
    -- clear on read
    let s1 = record s { pseudo_cause = 0 } in
    let (refused, s2) = debug_irq_mask s1 in
    let (rc, s3) = serve cause s2 in
    if cause == 0 || (cause % 256) == 255
    then (irq_none, s1)
    else if refused
    then (irq_none, s2)
    else if wakes rc
    then (rc, s3)
    else (rc, unmask_irq_pseudo s3)
