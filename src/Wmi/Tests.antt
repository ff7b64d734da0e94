-- ===== src/Wmi/Tests.antt =====
-- A command and three events at concrete addresses: a mailbox of four entries in the window.
use wigig_wil.Prelude.{
  ℕ, ◌-◌, ◌/◌, ◌%◌, ◌==◌, ◌≡◌, refl, true, false, if◌then◌else◌, none, some, List, [], ◌∷◌, length,
  arith, returns,
}
use wigig_wil.Mbox.{MboxRing, InRing, next_of, next_of_lem}
use wigig_wil.Wmi.Addr.{wmi_buffer, wmi_buffer_lem}
use wigig_wil.Wmi.Send.{MboxDesc, IoWrite, Sender, sent_ok, wmi_send}
use wigig_wil.Wmi.Delivery.{wmi_send_succeeds}
use wigig_wil.Wmi.Recv.{MboxHdr, Event, Receiver, wmi_recv_cmd}
use wigig_wil.Wmi.Recv.Drain.{Received, wmi_recv_cmd_drains}
use wigig_wil.Wmi.Events.{Waiter, evt_call_handler, wmi_event_handle, wmi_call, call_ok}
use wigig_wil.Wmi.Events.Replies.{
  wmi_call_lem, wmi_call_bounds, reply_bytes, reply_count, dispatched,
}

abbrev ring_at : ℕ → MboxRing
ring_at head = record { base = 0x880800; entry_size = 256; size = 32; tail = 0x880800; head = head }

ring_at-InRing : InRing (ring_at 0x880818) 0x880818
ring_at-InRing = record {
  size_lt = omega arith;
  entry_size_lt = omega arith;
  whole = refl;
  based = omega arith;
  fits = omega arith;
  aligned = refl;
  from = omega arith;
  below = omega arith;
  entry = refl;
}

-- the card frees the entry at the second read
abbrev descs : ℕ → MboxDesc
descs k = record { sync = if k == 0 then 1 else 0; addr = 0x801000 }

abbrev tails : ℕ → ℕ
tails k = if k == 0 then 0x880800 else 0x880808

abbrev sender : Sender
sender = record { ring = ring_at 0x880818; wmi_seq = 65535; fwready = true }

buffer_valid : wmi_buffer 0x801000 ≡ some 0x81000
buffer_valid = wmi_buffer_lem 0x801000

wmi_send_succeeds_example :
    (s' : Sender) × (out : List IoWrite) × (wmi_send 1 2 descs tails sender 0x804 (7 ∷ []) 4
      ≡ returns (sent_ok, s', out))
wmi_send_succeeds_example =
    wmi_send_succeeds 1 2 0x804 4 (7 ∷ []) descs tails sender 1 1 ring_at-InRing refl (omega arith)
      (omega arith) refl (omega arith)
      (λ e. ground (arith, e, next_of_lem (ring_at 0x880818) 0x880818 ring_at-InRing))
      (λ k. rw buffer_valid refl)

abbrev hdr_at : ℕ → MboxHdr
hdr_at o = record { seq = 0; len = 12; kind = 0; flags = 0 }

-- the body of an event with this id
abbrev body : ℕ → List ℕ
body id = 0 ∷ 0 ∷ (id % 256) ∷ (id / 256) ∷ 0 ∷ 0 ∷ 0 ∷ 0 ∷ 1 ∷ 2 ∷ 3 ∷ 4 ∷ []

abbrev event : ℕ → Event
event id = record { hdr = hdr_at 0; body = body id }

-- two entries that the host owns, in every round
abbrev entries : ℕ → ℕ → MboxDesc
entries k o = record {
  sync = if o == 0x818 then 1 else if o == 0x800 then 1 else 0;
  addr = 0x801000;
}

abbrev receiver : Receiver
receiver = record {
  ring = record (ring_at 0x880818) { tail = 0x880818 };
  given = [];
  card_tail = 0x880818;
  pending = [];
  queued = false;
}

receiver-InRing : InRing receiver.ring 0x880818
receiver-InRing = record {
  size_lt = omega arith;
  entry_size_lt = omega arith;
  whole = refl;
  based = omega arith;
  fits = omega arith;
  aligned = refl;
  from = omega arith;
  below = omega arith;
  entry = refl;
}

wmi_recv_cmd_drains_example :
    Received
      (λ k. hdr_at)
      (λ k o n. body 0x1801)
      entries
      (λ k. 0x880800)
      (λ k. true)
      2
      0
      receiver
      (wmi_recv_cmd
        (λ k. hdr_at)
        (λ k o n. body 0x1801)
        entries
        (λ k. 0x880800)
        (λ k. true)
        3
        true
        receiver)
unfolding next_of
wmi_recv_cmd_drains_example =
    wmi_recv_cmd_drains (λ k. hdr_at) (λ k o n. body 0x1801) entries (λ k. 0x880800) (λ k. true) 2
      receiver receiver-InRing refl

abbrev waiter : Waiter
waiter = record {
  reply_id = 0;
  reply_buf = none;
  reply_size = 0;
  done = 0;
  pending = event 0x1001 ∷ event 0x1863 ∷ [];
  calls = [];
}

abbrev heard : List Event
heard = event 0x1001 ∷ event 0x1863 ∷ []

wmi_call_lem_example : wmi_call sent_ok heard 0x1863 (some (9 ∷ 9 ∷ 9 ∷ 9 ∷ [])) 4 waiter ≡ (
  call_ok,
  some (reply_bytes 0x1863 4 heard (9 ∷ 9 ∷ 9 ∷ 9 ∷ [])),
  record waiter {
    reply_id = 0;
    reply_buf = none;
    reply_size = 0;
    done = reply_count 0x1863 4 heard 0 - 1;
    calls = dispatched 0x1863 4 heard [];
  },
)
unfolding reply_count
wmi_call_lem_example = wmi_call_lem 0x1863 4 heard (9 ∷ 9 ∷ 9 ∷ 9 ∷ []) waiter

-- the reply as the caller finds it
caller_buffer :
    (wmi_call sent_ok heard 0x1863 (some (9 ∷ 9 ∷ 9 ∷ 9 ∷ [])) 4 waiter).1
    ≡ some (0 ∷ 0 ∷ 0x63 ∷ 0x18 ∷ [])
unfolding wmi_call wmi_event_handle evt_call_handler
caller_buffer = refl

wmi_call_bounds_example : length {A = ℕ} (0 ∷ 0 ∷ 0x63 ∷ 0x18 ∷ []) ≡ 4
wmi_call_bounds_example =
    wmi_call_bounds 0x1863 4 heard (9 ∷ 9 ∷ 9 ∷ 9 ∷ []) (0 ∷ 0 ∷ 0x63 ∷ 0x18 ∷ []) waiter
      (omega arith) refl caller_buffer
