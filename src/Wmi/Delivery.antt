-- ===== src/Wmi/Delivery.antt =====
-- The two ways in which `__wmi_send` ends.
use wigig_wil.Prelude.{
  is_some, ◌∙◌, ap, ℕ, zero, suc, ◌+◌, ◌-◌, ◌%◌, ◌==◌, ◌≡◌, ◌≢◌, ◌≤◌, ◌⊎◌, inl, inr, Bool, true,
  false, not, some, List, [], arith, refl, Bool-cases, Option-cases, ne→==, le→ltb, Outcome,
  returns,
}
use wigig_wil.Mbox.{MboxRing, InRing, next_of, fw_host_off}
use wigig_wil.Wmi.Addr.{wmi_addr, wmi_buffer}
use wigig_wil.Wmi.Send.{
  MboxDesc, IoWrite, Sender, SendCode, sent_ok, read_until, retries, command_writes, send_to,
  wmi_send,
}

-- a refused command: nothing is written, and the head and the number of the last command stay
pub record IsRefused (s : Sender) (p : SendCode × Sender × List IoWrite) : Type 0 where
  code : p.0 ≢ sent_ok
  silent : p.2 ≡ []
  same_head : p.1.ring.head ≡ s.ring.head
  same_seq : p.1.wmi_seq ≡ s.wmi_seq
  in_ring : InRing p.1.ring p.1.ring.head

module _ (sw_int sw_int_mbox cmdid len : ℕ) (buf : List ℕ) where
  -- An accepted command fits its entry; it goes to an aligned buffer in the window, then the
  -- entry is marked, then the head moves on by one entry, short of the tail last read.
  pub record IsSent (s : Sender) (p : SendCode × Sender × List IoWrite) : Type 0 where
    code : p.0 ≡ sent_ok
    fits : 16 + len ≤ s.ring.entry_size
    ready : s.fwready ≡ true
    dst : ℕ
    aligned : dst % 4 ≡ 0
    inside : dst + 4 ≤ 2097152
    seq_next : p.1.wmi_seq ≡ (s.wmi_seq + 1) % 65536
    written :
        p.2
        ≡ command_writes sw_int sw_int_mbox dst s.ring.head p.1.ring.head
            (record { seq = p.1.wmi_seq; len = 8 + len; id = cmdid })
            buf
    in_ring : InRing p.1.ring p.1.ring.head
    head_next : p.1.ring.head ≡ next_of s.ring.base s.ring.size s.ring.head
    not_full : p.1.ring.head ≢ p.1.ring.tail

  pub record Sends (s : Sender) (m : Outcome (SendCode × Sender × List IoWrite)) : Type 0 where
    result : SendCode × Sender × List IoWrite
    returned : m ≡ returns result
    either : IsRefused s result ⊎ IsSent s result

read_until_lem :
    {A : Type 0} (stop : A → Bool) (read : ℕ → A) (retry k j : ℕ)
    → j ≤ retry
    → stop (read (k + j)) ≡ true
    → stop (read_until stop read retry k) ≡ true
unfolding read_until
read_until_lem stop read zero k j le h = ap (λ m. stop (read m)) (omega arith) ∙ h
read_until_lem stop read (suc retry) k zero le h =
    let first : stop (read k) ≡ true = ap (λ m. stop (read m)) (omega arith) ∙ h in rw first first
read_until_lem stop read (suc retry) k (suc j) le h = elim (Bool-cases (stop (read k))) [
  | inl e ↦ rw e e
  | inr e ↦ rw e (
      read_until_lem stop read retry (suc k) j (omega arith)
        (ap (λ m. stop (read m)) (omega arith) ∙ h))
]

read_until_all :
    {A : Type 0} (stop p : A → Bool) (read : ℕ → A) (retry k : ℕ)
    → ((m : ℕ) → p (read m) ≡ true)
    → p (read_until stop read retry k) ≡ true
unfolding read_until
read_until_all stop p read zero k all = all k
read_until_all stop p read (suc retry) k all = elim (Bool-cases (stop (read k))) [
  | inl e ↦ rw e (all k)
  | inr e ↦ rw e (read_until_all stop p read retry (suc k) all)
]

wmi_addr-InRing : (r : MboxRing) (at : ℕ) → InRing r at → wmi_addr at ≡ some (at - fw_host_off)
unfolding wmi_addr
wmi_addr-InRing r at h =
    ground (arith, h.from, h.below, h.fits, h.based, h.aligned, h.entry, h.whole)

-- A command that fits is sent if the firmware is ready, frees the entry at the head before the
-- fifth read, moves its tail off the next entry before the fifth read, and names valid buffers.
pub wmi_send_succeeds :
    (sw_int sw_int_mbox cmdid len : ℕ) (buf : List ℕ) (descs : ℕ → MboxDesc) (tails : ℕ → ℕ)
    (s : Sender) (i j : ℕ)
    → InRing s.ring s.ring.head
    → s.fwready ≡ true
    → 16 + len ≤ s.ring.entry_size
    → i ≤ 4
    → (descs i).sync ≡ 0
    → j ≤ 4
    → tails j ≢ next_of s.ring.base s.ring.size s.ring.head
    → ((k : ℕ) → is_some (wmi_buffer (descs k).addr) ≡ true)
    → (s' : Sender) × (out : List IoWrite) × (wmi_send sw_int sw_int_mbox descs tails s cmdid buf
          len
        ≡ returns (sent_ok, s', out))
unfolding wmi_send send_to
wmi_send_succeeds sw_int sw_int_mbox cmdid len buf descs tails s i j h ready fits i_le idle j_le
      moved valid =
    let next = next_of s.ring.base s.ring.size s.ring.head in
    let d_head = read_until (λ d. d.sync == 0) descs retries 0 in
    let tail = read_until (λ t. not (t == next)) tails retries 0 in
    let free : (d_head.sync == 0) ≡ true =
      read_until_lem (λ d. d.sync == 0) descs retries 0 i i_le (ground (arith, idle)) in
    let room : not (tail == next) ≡ true =
      read_until_lem (λ t. not (t == next)) tails retries 0 j j_le (ground (arith, moved)) in
    let some_buf : is_some (wmi_buffer d_head.addr) ≡ true =
      read_until_all (λ d. d.sync == 0) (λ d. is_some (wmi_buffer d.addr)) descs retries 0 valid in
    let open_tail : (tail == next) ≡ false = ground (arith, room) in
    rw (le→ltb s.ring.entry_size (16 + len) fits) (
      simp ready (
        rw (wmi_addr-InRing s.ring s.ring.head h) (
          rw free (
            rw (ne→== s.ring.size 0 (omega (arith, h.from, h.below))) (
              rw open_tail (elim (Option-cases (wmi_buffer d_head.addr)) [
                | inl e ↦ absurd (ground (arith, e, some_buf))
                | inr (dst, e) ↦ rw e (_, _, refl)
              ]))))))
