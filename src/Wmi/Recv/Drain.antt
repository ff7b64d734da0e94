-- ===== src/Wmi/Recv/Drain.antt =====
-- The rounds of the receive loop of `wmi_recv_cmd`, up to one that finds an entry of the card.
use native.Mathlib.Nat.{zero-add}
use mathlib.Core.Path.{subst}
use wigig_wil.Prelude.{
  sym, ap, ◌∙◌, ℕ, zero, suc, ◌+◌, ◌-◌, ◌==◌, ◌≡◌, ◌≤◌, inl, inr, refl, Bool, true, false, Option,
  none, some, List, [], ◌∷◌, ◌++◌, Outcome, returns, arith, Bool-cases, Option-cases, ne→==,
  append-nil, append_assoc,
}
use wigig_wil.Mbox.{InRing, InRing-kept, next_of, next_of-InRing, fw_host_off}
use wigig_wil.Wmi.Addr.{wmi_buffer}
use wigig_wil.Wmi.Send.{MboxDesc}
use wigig_wil.Wmi.Recv.{MboxHdr, Event, Receiver, event_at, take_event, recv_loop, wmi_recv_cmd}

-- the entry `n` steps after the one at `at`
abbrev pub moves : ℕ → ℕ → ℕ → ℕ → ℕ
moves base size zero at = at
moves base size (suc n) at = moves base size n (next_of base size at)

-- the offsets of `n` successive entries
abbrev pub offsets : ℕ → ℕ → ℕ → ℕ → List ℕ
offsets base size zero at = []
offsets base size (suc n) at = (at - fw_host_off) ∷ offsets base size n (next_of base size at)

module _ (hdr_at : ℕ → ℕ → MboxHdr) (bytes_at : ℕ → ℕ → ℕ → List ℕ) (descs : ℕ → ℕ → MboxDesc) where
  unfoldable push_event : ℕ → Option ℕ → List Event → List Event
  push_event k none rest = []
  push_event k (some src) rest = event_at hdr_at bytes_at k src (hdr_at k src).len ∷ rest

  -- the events that `n` rounds find, one entry after another, from round `k` at `at` on
  unfoldable pub events_from : ℕ → ℕ → ℕ → ℕ → ℕ → List Event
  unfolding push_event
  events_from base size zero k at = []
  events_from base size (suc n) k at =
      push_event k (wmi_buffer (descs k (at - fw_host_off)).addr)
        (events_from base size n (suc k) (next_of base size at))

  module _ (heads : ℕ → ℕ) (got : ℕ → Bool) where
    -- why the loop stops in a round: it met the head, an entry that the card owns, an address that
    -- is not one of a buffer, or it got no memory
    pub data Stopped (k : ℕ) (s : Receiver) : Type 0 where
      met_head : s.ring.tail ≡ heads k → Stopped k s
      not_owned : (descs k (s.ring.tail - fw_host_off)).sync ≡ 0 → Stopped k s
      bad_address : wmi_buffer (descs k (s.ring.tail - fw_host_off)).addr ≡ none → Stopped k s
      no_memory : got k ≡ false → Stopped k s

    -- The loop of round `k` returns after `taken` rounds, at most `n`; each has taken the event of
    -- one entry, in the order of the ring, and given the entry back.
    pub record Received (n k : ℕ) (s : Receiver) (m : Outcome Receiver) : Type 0 where
      result : Receiver
      taken : ℕ
      returned : m ≡ returns result
      in_ring : InRing result.ring result.ring.tail
      few : taken ≤ n
      events : result.pending ≡ s.pending ++ events_from s.ring.base s.ring.size taken k s.ring.tail
      given_back : result.given ≡ s.given ++ offsets s.ring.base s.ring.size taken s.ring.tail
      told : s.card_tail ≡ s.ring.tail → result.card_tail ≡ result.ring.tail
      stopped : Stopped (k + taken) result

    -- what round `k` leaves
    next_round : ℕ → ℕ → Receiver → Receiver
    next_round k src s =
        take_event hdr_at bytes_at (record s { ring = record s.ring { head = heads k } })
          (event_at hdr_at bytes_at k src (hdr_at k src).len)

    -- the first round and those after it
    round_lem :
        (n k src : ℕ) (s : Receiver) (m : Outcome Receiver)
        → wmi_buffer (descs k (s.ring.tail - fw_host_off)).addr ≡ some src
        → Received n (suc k) (next_round k src s) m
        → Received (suc n) k s m
    unfolding take_event push_event events_from next_round
    round_lem n k src s m e r =
        let evt = event_at hdr_at bytes_at k src (hdr_at k src).len in
        let next = next_of s.ring.base s.ring.size s.ring.tail in
        let rest = events_from s.ring.base s.ring.size r.taken (suc k) next in
        record {
          result = r.result;
          taken = suc r.taken;
          returned = r.returned;
          in_ring = r.in_ring;
          few = omega (arith, r.few);
          events =
              r.events
              ∙ append_assoc s.pending (evt ∷ []) rest
              ∙ ap (λ o. s.pending ++ push_event k o rest) (sym e);
          given_back = r.given_back ∙ append_assoc s.given ((s.ring.tail - fw_host_off) ∷ []) _;
          told = λ e. r.told refl;
          stopped = subst (λ t. Stopped t r.result) (omega arith) r.stopped;
        }

    module _ (n k : ℕ) (s : Receiver) (h : InRing s.ring s.ring.tail) where
      stop :
          Stopped (k + 0) (record s { ring = record s.ring { head = heads k } })
          → Received n k s (returns (record s { ring = record s.ring { head = heads k } }))
      unfolding events_from
      stop why = record {
        result = record s { ring = record s.ring { head = heads k } };
        taken = 0;
        returned = refl;
        in_ring = InRing-kept s.ring s.ring.tail s.ring.tail (heads k) h;
        few = omega arith;
        events = sym (append-nil s.pending);
        given_back = sym (append-nil s.given);
        told = λ e. e;
        stopped = why;
      }

    here : (k : ℕ) → k + 0 ≡ k
    here k = omega arith

    recv_loop_lem :
        (n k : ℕ) (s : Receiver)
        → InRing s.ring s.ring.tail
        → (descs (k + n) (moves s.ring.base s.ring.size n s.ring.tail - fw_host_off)).sync ≡ 0
        → Received n k s (recv_loop hdr_at bytes_at descs heads got (suc n) k s)
    unfolding recv_loop take_event next_round
    recv_loop_lem zero k s h card =
        let off = s.ring.tail - fw_host_off in
        let card' : (descs k off).sync ≡ 0 = ap (λ i. (descs i off).sync) (sym (here k)) ∙ card in
        elim (Bool-cases (s.ring.tail == heads k)) [
          | inl e ↦ rw e (stop zero k s h (met_head (ground (arith, e))))
          | inr ne ↦ rw (ne, card') (stop zero k s h (not_owned card))
        ]
    recv_loop_lem (suc n) k s h card =
        let d = descs k (s.ring.tail - fw_host_off) in
        let next = next_of s.ring.base s.ring.size s.ring.tail in
        let more : k + suc n ≡ suc k + n = omega arith in
        let card' =
          ap (λ i. (descs i (moves s.ring.base s.ring.size n next - fw_host_off)).sync) (sym more)
          ∙ card in
        let end : Stopped k (record s { ring = record s.ring { head = heads k } })
            → Received (suc n) k s
                (returns (record s { ring = record s.ring { head = heads k } })) =
          λ why. stop (suc n) k s h (
            subst (λ i. Stopped i (record s { ring = record s.ring { head = heads k } }))
              (sym (here k)) why) in
        elim (Bool-cases (s.ring.tail == heads k)) [
          | inl e ↦ rw e (end (met_head (ground (arith, e))))
          | inr ne ↦ rw ne (elim (Bool-cases (d.sync == 0)) [
            | inl e ↦ rw e (end (not_owned (ground (arith, e))))
            | inr own ↦ rw own (elim (Option-cases (wmi_buffer d.addr)) [
              | inl e ↦ rw e (end (bad_address e))
              | inr (src, e2) ↦ rw e2 (elim (Bool-cases (got k)) [
                | inr e ↦ rw e (end (no_memory e))
                | inl e ↦
                    rw (e, ne→== s.ring.size 0 (omega (arith, h.from, h.below)))
                      (round_lem n k src s _ e2 (
                        recv_loop_lem n (suc k) (next_round k src s)
                          (InRing-kept s.ring next next (heads k)
                            (next_of-InRing s.ring s.ring.tail h))
                          card'))
              ])
            ])
          ])
        ]

    -- Once the reset is done, if the card owns the entry that round `n` comes to, the call returns
    -- after at most `n` events, whatever else the card writes meanwhile and whatever the head
    -- register reads. The events are taken in the order of the ring, each as its round finds it and
    -- from an entry that is given back; the card still knows the tail if it knew it before; and the
    -- call stopped for one of four reasons.
    pub wmi_recv_cmd_drains :
        (n : ℕ) (s : Receiver)
        → InRing s.ring s.ring.tail
        → (descs n (moves s.ring.base s.ring.size n s.ring.tail - fw_host_off)).sync ≡ 0
        → Received n 0 s (wmi_recv_cmd hdr_at bytes_at descs heads got (suc n) true s)
    unfolding wmi_recv_cmd
    wmi_recv_cmd_drains n s h card = recv_loop_lem n 0 s h (
        ap (λ i. (descs i (moves s.ring.base s.ring.size n s.ring.tail - fw_host_off)).sync)
          (zero-add n)
        ∙ card)
