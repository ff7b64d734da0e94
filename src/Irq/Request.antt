-- ===== src/Irq/Request.antt =====
-- interrupt.c: asking the kernel for the interrupt lines. `request` stands for the kernel's
-- `request_irq` and `request_threaded_irq`: the error code for each line, 0 for success.
use wigig_wil.Prelude.{
  ℕ, ◌+◌, ◌==◌, ◌≡◌, ◌≢◌, ◌∙◌, refl, if_cases, true, false, if◌then◌else◌, List, [], ◌∷◌, arith,
}
use wigig_wil.Word.{has_bit, drop_bit}
use wigig_wil.Irq.{
  unmask_irq_tx, unmask_irq_rx, unmask_irq_misc, unmask_irq_pseudo, Irq, irq_disable,
  irq_pseudo_mask, enable_irq, disable_irq,
}

-- the lines that the driver holds, `free_irq` giving one back
unfoldable pub free_irq : ℕ → List ℕ → List ℕ
free_irq irq [] = []
free_irq irq (i ∷ held) = if i == irq then held else i ∷ free_irq irq held

module _ (request : ℕ → ℕ) where
  -- Tx, Rx and misc on three lines
  unfoldable pub request_3msi : ℕ → List ℕ → ℕ × List ℕ
  unfolding free_irq
  request_3msi irq held =
      if request irq == 0
      then if request (irq + 1) == 0
        then if request (irq + 2) == 0
          then (0, (irq + 2) ∷ (irq + 1) ∷ irq ∷ held)
          else (request (irq + 2), free_irq irq (free_irq (irq + 1) ((irq + 1) ∷ irq ∷ held)))
        else (request (irq + 1), free_irq irq (irq ∷ held))
      else (request irq, held)

  request_one : ℕ → List ℕ → ℕ × List ℕ
  request_one irq held = if request irq == 0 then (0, irq ∷ held) else (request irq, held)

  unfoldable pub init_irq : ℕ → ℕ → List ℕ → Irq → ℕ × List ℕ × Irq
  unfolding request_3msi request_one enable_irq
  init_irq n_msi irq held s =
      let (rc, held') = if n_msi == 3 then request_3msi irq held else request_one irq held in
      if rc == 0 then (0, held', enable_irq s) else (rc, held', s)

unfoldable pub fini_irq : ℕ → ℕ → List ℕ → Irq → List ℕ × Irq
unfolding free_irq disable_irq
fini_irq n_msi irq held s =
    let held1 = free_irq irq held in
    (if n_msi == 3 then free_irq (irq + 2) (free_irq (irq + 1) held1) else held1, disable_irq s)

module _ (x : ℕ) where
  drop_tx :
      (has_bit (drop_bit (drop_bit x 0) 1) 0 ≡ false)
      × (has_bit (drop_bit (drop_bit x 0) 1) 1 ≡ false)
  drop_tx = ground arith

  drop_rx : has_bit (drop_bit x 0) 0 ≡ false
  drop_rx = ground arith

  drop_28 : has_bit (drop_bit x 28) 28 ≡ false
  drop_28 = ground arith

  drop_29 : (has_bit (drop_bit x 29) 29 ≡ false) × (has_bit (drop_bit x 29) 28 ≡ has_bit x 28)
  drop_29 = ground arith

  drop_31 :
      (has_bit (drop_bit x 31) 31 ≡ false)
      × (has_bit (drop_bit x 31) 28 ≡ has_bit x 28)
      × (has_bit (drop_bit x 31) 29 ≡ has_bit x 29)
  drop_31 = ground arith

-- The interrupts are on, with no mask for a frame sent (bits 0 and 1) or received (0), for the
-- start (28) or an error (31) of the firmware, and for an event in the mailbox (29).
pub record IsEnabled (s : Irq) : Type 0 where
  pub irqen : s.irqen ≡ true
  pub pseudo : s.pseudo_mask ≡ irq_pseudo_mask
  pub tx : (has_bit s.imv_tx 0 ≡ false) × (has_bit s.imv_tx 1 ≡ false)
  pub rx : has_bit s.imv_rx 0 ≡ false
  pub fw_ready : has_bit s.imv_misc 28 ≡ false
  pub mbox_evt : has_bit s.imv_misc 29 ≡ false
  pub fw_error : has_bit s.imv_misc 31 ≡ false

enable_irq-IsEnabled : (s : Irq) → IsEnabled (enable_irq s)
unfolding enable_irq
enable_irq-IsEnabled s =
    let m28 = drop_bit s.imv_misc 28 in
    let m29 = drop_bit m28 29 in
    let last = drop_31 m29 in
    if_cases {A = Irq}
      (λ t. IsEnabled (unmask_irq_misc (unmask_irq_rx (unmask_irq_tx (unmask_irq_pseudo t)))))
      s.monitor
      (λ _. record {
        irqen = refl;
        pseudo = refl;
        tx = drop_tx s.imv_tx;
        rx = drop_rx s.imv_rx;
        fw_ready = last.1 ∙ (drop_29 m28).1 ∙ drop_28 s.imv_misc;
        mbox_evt = last.2 ∙ (drop_29 m28).0;
        fw_error = last.0;
      })
      (λ _. record {
        irqen = refl;
        pseudo = refl;
        tx = drop_tx s.imv_tx;
        rx = drop_rx s.imv_rx;
        fw_ready = last.1 ∙ (drop_29 m28).1 ∙ drop_28 s.imv_misc;
        mbox_evt = last.2 ∙ (drop_29 m28).0;
        fw_error = last.0;
      })

init_irq-IsEnabled :
    (request : ℕ → ℕ) (n_msi irq : ℕ) (held : List ℕ) (s : Irq)
    → (init_irq request n_msi irq held s).0 ≡ 0
    → IsEnabled (init_irq request n_msi irq held s).2
unfolding init_irq
init_irq-IsEnabled request n_msi irq held s =
    let p = if n_msi == 3 then request_3msi request irq held else request_one request irq held in
    if_cases {A = ℕ × List ℕ × Irq} (λ t. t.0 ≡ 0 → IsEnabled t.2) (p.0 == 0)
      {x = (0, p.1, enable_irq s)} {y = (p.0, p.1, s)} (λ _ _. enable_irq-IsEnabled s)
      (λ failed ok. absurd (ground (arith, failed, ok)))

init_irq-back :
    (request : ℕ → ℕ) (n_msi irq : ℕ) (held : List ℕ) (s : Irq)
    → let (rc, held', s') = init_irq request n_msi irq held s in
      let (held'', s'') = fini_irq n_msi irq held' s' in
      (rc ≢ 0 → (held' ≡ held) × (s' ≡ s))
      × (rc ≡ 0
          → (held'' ≡ held)
            × (s''.irqen ≡ false)
            × (s''.pseudo_mask ≡ irq_disable)
            × (s''.imv_rx ≡ irq_disable)
            × (s''.imv_tx ≡ irq_disable)
            × (s''.imv_misc ≡ irq_disable))
unfolding init_irq fini_irq
init_irq-back request n_msi irq held s = ground arith

-- A failed start holds no line and leaves the device alone. After one that succeeds the interrupts
-- are enabled, with no mask for a frame sent or received, for the start or an error of the
-- firmware, or for an event in the mailbox; and stopping gives back every line and leaves all four
-- blocks masked.
pub init_irq-fini_irq :
    (request : ℕ → ℕ) (n_msi irq : ℕ) (held : List ℕ) (s : Irq)
    → let (rc, held', s') = init_irq request n_msi irq held s in
      let (held'', s'') = fini_irq n_msi irq held' s' in
      (rc ≢ 0 → (held' ≡ held) × (s' ≡ s))
      × (rc ≡ 0
          → IsEnabled s'
            × (held'' ≡ held)
            × (s''.irqen ≡ false)
            × (s''.pseudo_mask ≡ irq_disable)
            × (s''.imv_rx ≡ irq_disable)
            × (s''.imv_tx ≡ irq_disable)
            × (s''.imv_misc ≡ irq_disable))
init_irq-fini_irq request n_msi irq held s =
    let back = init_irq-back request n_msi irq held s in
    (
      back.0,
      λ ok.
          let b = back.1 ok in
          (init_irq-IsEnabled request n_msi irq held s ok, b.0, b.1, b.2, b.3, b.4, b.5),
    )
