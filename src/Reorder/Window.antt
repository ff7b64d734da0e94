-- ===== src/Reorder/Window.antt =====
-- What block-ack reordering promises, with no ring and no counter: a window of slots, counted from
-- the sequence number that is expected next.
use wigig_wil.Prelude.{
  ℕ, zero, suc, ◌+◌, ◌-◌, ◌%◌, ◌==◌, ltb, if◌then◌else◌, Option, none, some, is_some, List, [], ◌∷◌,
  ◌++◌,
}
use wigig_wil.Skb.{Skb, rxdesc_seq}
use wigig_wil.Reorder.{RxEvent, netif_rx, free_skb}

-- the frame stored at each distance from the head
abbrev pub Slots : Type 0
Slots = ℕ → Option Skb

abbrev pub shift : Slots → Slots
shift w k = w (suc k)

abbrev pub put : Slots → ℕ → Skb → Slots
put w d skb k = if k == d then some skb else w k

abbrev pub deliver : Option Skb → List RxEvent
deliver none = []
deliver (some skb) = netif_rx skb ∷ []

-- the window after `n` steps, and what they pass to the stack
unfoldable pub shifts : ℕ → Slots → Slots
shifts zero w = w
shifts (suc n) w = shifts n (shift w)

unfoldable pub flushed : ℕ → Slots → List RxEvent
flushed zero w = []
flushed (suc n) w = deliver (w 0) ++ flushed n (shift w)

-- how many slots from the head on are filled, up to `bound`
unfoldable pub leading : ℕ → Slots → ℕ
leading zero w = 0
leading (suc bound) w = elim (w 0) [ none ↦ 0 | some _ ↦ suc (leading bound (shift w)) ]

-- the distance of a sequence number ahead of the head
abbrev pub ahead : ℕ → ℕ → ℕ
ahead head seq = (seq + 4096 - head) % 4096

-- The head, the slots and the events once a frame has come to its place `d` ahead of the head: a
-- second copy is dropped; otherwise the filled slots at the head leave.
unfoldable pub land : ℕ → ℕ → Slots → ℕ → Skb → ℕ × Slots × List RxEvent
land size head w d skb =
    let filled = put w d skb in
    let m = leading size filled in
    if is_some (w d)
    then (head, w, free_skb skb ∷ [])
    else ((head + m) % 4096, shifts m filled, flushed m filled)

abbrev pub preceded : List RxEvent → ℕ × Slots × List RxEvent → ℕ × Slots × List RxEvent
preceded first (head, w, out) = (head, w, first ++ out)

-- A frame more than half the space ahead is old. One past the end moves the window on until it is
-- the last.
unfoldable pub receive : ℕ → ℕ → Slots → Skb → ℕ × Slots × List RxEvent
receive size head w skb =
    let d = ahead head (rxdesc_seq skb.desc) in
    let n = d + 1 - size in
    if ltb 2048 d
    then (head, w, free_skb skb ∷ [])
    else preceded (flushed n w) (land size ((head + n) % 4096) (shifts n w) (d - n) skb)
