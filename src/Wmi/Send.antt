-- ===== src/Wmi/Send.antt =====
-- wmi.c: `__wmi_send`. The two loops that wait for the firmware read the card again and again:
-- `descs` and `tails` are the values that the successive reads give.
use wigig_wil.Prelude.{
  ℕ, zero, suc, ◌+◌, ◌-◌, ◌%◌, ◌==◌, ltb, Bool, not, if◌then◌else◌, none, some, List, [], ◌∷◌,
  Outcome, returns, div_fault,
}
use wigig_wil.Mbox.{MboxRing, next_of, fw_host_off}
use wigig_wil.Wmi.Addr.{wmi_addr, wmi_buffer}

-- `struct wil6210_mbox_ring_desc`
pub record MboxDesc : Type 0 where
  pub sync : ℕ
  pub addr : ℕ

-- `struct wil6210_mbox_hdr` and `struct wil6210_mbox_hdr_wmi`, as the driver sends them
pub record Command : Type 0 where
  pub seq : ℕ
  pub len : ℕ
  pub id : ℕ

-- an access to the card, by its offset from `wil->csr`
pub data IoWrite : Type 0 where
  copy_command : ℕ → Command → IoWrite
  copy_payload : ℕ → List ℕ → IoWrite
  write_word : ℕ → ℕ → IoWrite

pub record Sender : Type 0 where
  pub ring : MboxRing
  pub wmi_seq : ℕ
  pub fwready : Bool

pub data SendCode : Type 0 where
  sent_ok send_erange send_eagain send_einval send_ebusy : SendCode

-- `for (retry = 5; retry > 0; retry--)`: the last value read, the loop ended by `stop`
unfoldable pub read_until {ℓ} : {A : Type ℓ} → (A → Bool) → (ℕ → A) → ℕ → ℕ → A
read_until stop read zero k = read k
read_until stop read (suc retry) k =
    let rest = read_until stop read retry (suc k) in if stop (read k) then read k else rest

abbrev pub retries : ℕ
retries = 4

abbrev pub host_mbox : ℕ
host_mbox = 0x2bc

-- `&mbox_ctl.tx.head` of the card, and its software interrupt with the bit for the mailbox
abbrev pub tx_head_reg : ℕ
tx_head_reg = host_mbox + 12

module _ (sw_int sw_int_mbox : ℕ) where
  -- what `__wmi_send` writes for a command, in order
  unfoldable pub command_writes : ℕ → ℕ → ℕ → Command → List ℕ → List IoWrite
  command_writes dst head next_head cmd buf =
      copy_command dst cmd
      ∷ copy_payload (dst + 16) buf
      ∷ write_word (head - fw_host_off) 1
      ∷ write_word tx_head_reg next_head
      ∷ write_word sw_int sw_int_mbox
      ∷ []

  -- `__wmi_send` from the division on, the head being an entry that is not busy
  unfoldable pub send_to :
      MboxDesc → (ℕ → ℕ) → Sender → ℕ → List ℕ → ℕ → Outcome (SendCode × Sender × List IoWrite)
  unfolding command_writes
  send_to d_head tails s cmdid buf len =
      let next_head = next_of s.ring.base s.ring.size s.ring.head in
      let tail = read_until (λ t. not (t == next_head)) tails retries 0 in
      let polled = record s { ring = record s.ring { tail = tail } } in
      let seq = (s.wmi_seq + 1) % 65536 in
      if s.ring.size == 0
      then div_fault
      else if tail == next_head
      then returns (send_ebusy, polled, [])
      else returns (elim (wmi_buffer d_head.addr) [
        | none ↦ (send_einval, polled, [])
        | some dst ↦ (
          sent_ok,
          record polled { wmi_seq = seq; ring = record polled.ring { head = next_head } },
          command_writes dst s.ring.head next_head
              (record { seq = seq; len = (8 + len) % 65536; id = cmdid }) buf,
        )
      ])

  -- `len` is the length of `buf` in bytes
  unfoldable pub wmi_send :
      (ℕ → MboxDesc)
      → (ℕ → ℕ)
      → Sender
      → ℕ
      → List ℕ
      → ℕ
      → Outcome (SendCode × Sender × List IoWrite)
  wmi_send descs tails s cmdid buf len =
      let d_head = read_until (λ d. d.sync == 0) descs retries 0 in
      let go = send_to d_head tails s cmdid buf len in
      if ltb s.ring.entry_size (16 + len)
      then returns (send_erange, s, [])
      else if not s.fwready
      then returns (send_eagain, s, [])
      else elim (wmi_addr s.ring.head) [
        | none ↦ returns (send_einval, s, [])
        | some _ ↦ if d_head.sync == 0 then go else returns (send_ebusy, s, [])
      ]
