-- ===== src/Wmi/Recv.antt =====
-- wmi.c: `wmi_recv_cmd`, which moves the events of the mailbox to the pending list. For
-- each round of the loop, `heads` and `got` are what the read of the head register and the
-- allocation give, and `descs`, `hdr_at` and `bytes_at` what the round finds in the memory of the
-- card, which the card may change between rounds.
pub mod Drain
use wigig_wil.Prelude.{
  ℕ, zero, suc, ◌+◌, ◌-◌, ◌==◌, Bool, true, false, not, if◌then◌else◌, Option, none, some, List, [],
  ◌∷◌, ◌++◌, Outcome, returns, div_fault, out_of_fuel,
}
use wigig_wil.Mbox.{MboxRing, next_of, fw_host_off}
use wigig_wil.Wmi.Addr.{wmi_buffer}
use wigig_wil.Wmi.Send.{MboxDesc}

-- `struct wil6210_mbox_hdr`
pub record MboxHdr : Type 0 where
  pub seq : ℕ
  pub len : ℕ
  pub kind : ℕ
  pub flags : ℕ

-- `struct pending_wmi_event`
pub record Event : Type 0 where
  pub hdr : MboxHdr
  pub body : List ℕ

-- `given` are the offsets from `wil->csr` of the entries that were given back, by `iowrite32(0, ...)`
-- to the word that says who owns an entry, in their order; `card_tail` is the tail
-- register of the card, `queued` that `wmi_event_worker` is queued
pub record Receiver : Type 0 where
  pub ring : MboxRing
  pub given : List ℕ
  pub card_tail : ℕ
  pub pending : List Event
  pub queued : Bool

module _ (hdr_at : ℕ → ℕ → MboxHdr) (bytes_at : ℕ → ℕ → ℕ → List ℕ) where
  -- the event that round `k` finds at an address that `wmi_read_hdr` takes
  unfoldable pub event_at : ℕ → ℕ → ℕ → Event
  event_at k src len = record { hdr = hdr_at k src; body = bytes_at k (src + 8) len }

  -- the end of a round: the entry is given back and the event is pending
  unfoldable pub take_event : Receiver → Event → Receiver
  take_event s evt =
      let next = next_of s.ring.base s.ring.size s.ring.tail in
      record s {
        given = s.given ++ ((s.ring.tail - fw_host_off) ∷ []);
        ring = record s.ring { tail = next };
        card_tail = next;
        pending = s.pending ++ (evt ∷ []);
        queued = true;
      }

  module _ (descs : ℕ → ℕ → MboxDesc) (heads : ℕ → ℕ) (got : ℕ → Bool) where
    -- the `for (;;)`, round `k` on; the tail lies in the window of the card
    unfoldable pub recv_loop : ℕ → ℕ → Receiver → Outcome Receiver
    unfolding take_event event_at
    recv_loop zero k s = out_of_fuel
    recv_loop (suc fuel) k s =
        let s1 = record s { ring = record s.ring { head = heads k } } in
        let d_tail = descs k (s1.ring.tail - fw_host_off) in
        if s1.ring.tail == s1.ring.head
        then returns s1
        else if d_tail.sync == 0
        then returns s1
        else elim (wmi_buffer d_tail.addr) [
          | none ↦ returns s1
          | some src ↦ elim (got k) [
            | false ↦ returns s1
            | true ↦ elim (s1.ring.size == 0) [
              | true ↦ div_fault
              | false ↦ recv_loop fuel (suc k) (take_event s1 (event_at k src (hdr_at k src).len))
            ]
          ]
        ]

    unfoldable pub wmi_recv_cmd : ℕ → Bool → Receiver → Outcome Receiver
    wmi_recv_cmd fuel reset_done s =
        let run = recv_loop fuel 0 s in if not reset_done then returns s else run
