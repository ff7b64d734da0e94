-- ===== src/Reorder/Order.antt =====
-- The frames that leave the window, and their order.
use native.Mathlib.Nat.{zero-add}
use mathlib.Core.Path.{subst}
use wigig_wil.Prelude.{
  length, sum_by, ℕ, zero, suc, ◌+◌, ◌-◌, ◌%◌, ◌<◌, ◌≤◌, ◌≡◌, ◌∙◌, refl, sym, ap, le→ltb, lt→ltb,
  dec_lt, Option, none, some, Option-cases, inl, inr, List, [], ◌∷◌, ◌++◌, arith, Outcome, returns,
}
use wigig_wil.Skb.{Skb, rxdesc_seq}
use wigig_wil.Reorder.{Ampdu, RxEvent, netif_rx, free_skb, reorder_in_session}
use wigig_wil.Reorder.Window.{
  Slots, shift, shifts, put, deliver, flushed, leading, land, receive, ahead, preceded,
}
use wigig_wil.Reorder.Content.{IsBounded, weight_in, weight_out, receive-weight}
use wigig_wil.Reorder.Inv.{IsValid, view}
use wigig_wil.Reorder.Refine.{reorder_in_session-Refines, rxdesc_seq-lt}

module _ (base : ℕ) where
  -- Each frame stands at the distance that its sequence number has from `base`, the slots being
  -- those from `base + c` on.
  abbrev pub PlacedFrom : ℕ → Slots → Type 0
  PlacedFrom c w =
      (k : ℕ) (skb : Skb) → w k ≡ some skb → rxdesc_seq skb.desc ≡ (base + (c + k)) % 4096

  -- The frames passed on have sequence numbers `base + k` for strictly increasing `k`, from `lo`
  -- on and below `hi`.
  abbrev pub InOrder : ℕ → ℕ → List RxEvent → Type 0
  InOrder lo hi [] = lo ≤ hi
  InOrder lo hi (netif_rx skb ∷ out) =
      (k : ℕ) × (lo ≤ k) × (rxdesc_seq skb.desc ≡ (base + k) % 4096) × InOrder (suc k) hi out
  InOrder lo hi (free_skb _ ∷ out) = InOrder lo hi out

  pub InOrder-from : (a b hi : ℕ) (out : List RxEvent) → a ≤ b → InOrder b hi out → InOrder a hi out
  InOrder-from a b hi [] le h = omega arith
  InOrder-from a b hi (netif_rx skb ∷ out) le (k, lo, e, h) = (k, omega arith, e, h)
  InOrder-from a b hi (free_skb _ ∷ out) le h = InOrder-from a b hi out le h

  InOrder-to : (a hi : ℕ) (out : List RxEvent) → InOrder a hi out → a ≤ hi
  InOrder-to a hi [] h = h
  InOrder-to a hi (netif_rx skb ∷ out) (k, lo, e, h) = omega (arith, InOrder-to (suc k) hi out h)
  InOrder-to a hi (free_skb _ ∷ out) h = InOrder-to a hi out h

  pub InOrder-append :
      (a b c : ℕ) (xs ys : List RxEvent) → InOrder a b xs → InOrder b c ys → InOrder a c (xs ++ ys)
  InOrder-append a b c [] ys h k = InOrder-from a b c ys h k
  InOrder-append a b c (netif_rx skb ∷ xs) ys (k, lo, e, h) l =
      (k, lo, e, InOrder-append (suc k) b c xs ys h l)
  InOrder-append a b c (free_skb _ ∷ xs) ys h l = InOrder-append a b c xs ys h l

  PlacedFrom-shift : (c : ℕ) (w : Slots) → PlacedFrom c w → PlacedFrom (suc c) (shift w)
  PlacedFrom-shift c w p k skb e = p (suc k) skb e ∙ ap (λ t. t % 4096) (omega arith)

  PlacedFrom-shifts : (n c : ℕ) (w : Slots) → PlacedFrom c w → PlacedFrom (c + n) (shifts n w)
  unfolding shifts
  PlacedFrom-shifts zero c w p = λ k skb e. p k skb e ∙ ap (λ t. t % 4096) (omega arith)
  PlacedFrom-shifts (suc n) c w p = λ k skb e.
      PlacedFrom-shifts n (suc c) (shift w) (PlacedFrom-shift c w p) k skb e
      ∙ ap (λ t. t % 4096) (omega arith)

  PlacedFrom-put :
      (c : ℕ) (w : Slots) (d : ℕ) (skb : Skb)
      → rxdesc_seq skb.desc ≡ (base + (c + d)) % 4096
      → PlacedFrom c w
      → PlacedFrom c (put w d skb)
  PlacedFrom-put c w d skb at p k s e = ground (arith, p k s)

  deliver-InOrder :
      (c : ℕ) (o : Option Skb)
      → ((skb : Skb) → o ≡ some skb → rxdesc_seq skb.desc ≡ (base + (c + 0)) % 4096)
      → InOrder c (suc c) (deliver o)
  deliver-InOrder c none p = omega arith
  deliver-InOrder c (some skb) p =
      (c, omega arith, p skb refl ∙ ap (λ t. t % 4096) (omega arith), omega arith)

  flushed-InOrder :
      (n c hi : ℕ) (w : Slots) → hi ≡ c + n → PlacedFrom c w → InOrder c hi (flushed n w)
  unfolding flushed
  flushed-InOrder zero c hi w e p = omega arith
  flushed-InOrder (suc n) c hi w e p =
      InOrder-append c (suc c) hi (deliver (w 0)) (flushed n (shift w))
        (deliver-InOrder c (w 0) (p 0))
        (flushed-InOrder n (suc c) hi (shift w) (omega arith) (PlacedFrom-shift c w p))

-- The same frames counted from an earlier base.
pub InOrder-rebase :
    (base b c lo hi : ℕ) (out : List RxEvent)
    → b ≡ (base + c) % 4096
    → InOrder b lo hi out
    → InOrder base (c + lo) (c + hi) out
InOrder-rebase base b c lo hi [] e h = omega arith
InOrder-rebase base b c lo hi (netif_rx skb ∷ out) e (k, le, at, h) = (
  c + k,
  omega arith,
  omega arith,
  InOrder-from base (suc (c + k)) (c + suc k) (c + hi) out (omega arith)
      (InOrder-rebase base b c (suc k) hi out e h),
)
InOrder-rebase base b c lo hi (free_skb _ ∷ out) e h = InOrder-rebase base b c lo hi out e h

-- How far a call has moved the window, with what it guarantees.
pub record Ordered (base : ℕ) (t : ℕ × Slots × List RxEvent) : Type 0 where
  pub moved : ℕ
  pub moved_le : moved ≤ 2049
  pub head_at : t.0 ≡ (base + moved) % 4096
  pub placed : PlacedFrom base moved t.1
  pub in_order : InOrder base 0 moved t.2

leading-le : (bound : ℕ) (w : Slots) → leading bound w ≤ bound
unfolding leading
leading-le zero w = omega arith
leading-le (suc bound) w = elim (Option-cases (w 0)) [
  | inl e ↦ rw (e, leading) (omega arith)
  | inr (skb, e) ↦ rw (e, leading) (omega (arith, leading-le bound (shift w)))
]

land-Ordered :
    (base c size : ℕ) (w : Slots) (d : ℕ) (skb : Skb) (first : List RxEvent)
    → PlacedFrom base c w
    → rxdesc_seq skb.desc ≡ (base + (c + d)) % 4096
    → c + size ≤ 2049
    → InOrder base 0 c first
    → Ordered base (preceded first (land size ((base + c) % 4096) w d skb))
unfolding land
land-Ordered base c size w d skb first p at small before = elim (Option-cases (w d)) [
  | inr (old, e) ↦ rw e (record {
    moved = c;
    moved_le = omega arith;
    head_at = refl;
    placed = p;
    in_order = InOrder-append base 0 c c first (free_skb skb ∷ []) before (omega arith);
  })
  | inl e ↦
      let filled = put w d skb in
      let m = leading size filled in
      let q = PlacedFrom-put base c w d skb at p in
      rw e (record {
        moved = c + m;
        moved_le = omega (arith, leading-le size filled);
        head_at = omega arith;
        placed = PlacedFrom-shifts base m c filled q;
        in_order =
            InOrder-append base 0 c (c + m) first (flushed m filled) before
              (flushed-InOrder base m c (c + m) filled refl q);
      })
]

receive-Ordered :
    (size head : ℕ) (w : Slots) (skb : Skb)
    → 2 ≤ size
    → size < 2048
    → head < 4096
    → PlacedFrom head 0 w
    → Ordered head (receive size head w skb)
unfolding receive
receive-Ordered size head w skb size_min size_max head_lt p =
    let d = ahead head (rxdesc_seq skb.desc) in
    let n = d + 1 - size in
    elim (dec_lt 2048 d) [
      | yes old ↦ rw (lt→ltb 2048 d old) (record {
        moved = 0;
        moved_le = omega arith;
        head_at = omega arith;
        placed = p;
        in_order = omega arith;
      })
      | no near ↦ rw (le→ltb 2048 d (omega arith)) (
          land-Ordered head n size (shifts n w) (d - n) skb (flushed n w)
            (subst (λ c. PlacedFrom head c (shifts n w)) (zero-add n)
              (PlacedFrom-shifts head n 0 w p))
            (omega (arith, rxdesc_seq-lt skb)) (omega arith)
            (flushed-InOrder head n 0 n w (omega arith) p))
    ]

-- A session with its frames at their places.
pub record IsPlaced (r : Ampdu) : Type 0 where
  pub valid : IsValid r
  pub placed : PlacedFrom r.head_seq_num 0 (view r)

-- the distance by which the head has moved on, when a call has returned
abbrev pub moved_by : Ampdu → Outcome (Ampdu × List RxEvent) → ℕ
moved_by r (returns (r', out)) = ahead r.head_seq_num r'.head_seq_num
moved_by r _ = 0

-- the frames in the window of a session, each with its weight
abbrev pub stored_weight : (Skb → ℕ) → Ampdu → ℕ
stored_weight weight r = weight_in weight r.buf_size (view r)

view-IsBounded : (r : Ampdu) → IsBounded r.buf_size (view r)
view-IsBounded r k le = rw (le→ltb k r.buf_size le) refl

-- What the calls for some frames guarantee, whatever these are: they return, and the session stays
-- well-formed. What is passed on is in order and lies between the old head and the new, the head
-- having moved by `moved`. The frames stored and given back are those stored before and the new
-- ones, each as often, whatever weight tells them apart.
pub record Delivers (r : Ampdu) (moved : ℕ) (skbs : List Skb) (o : Outcome (Ampdu × List RxEvent))
    : Type 0 where
  pub result : Ampdu
  pub out : List RxEvent
  pub returned : o ≡ returns (result, out)
  pub kept : IsPlaced result
  pub head_at : result.head_seq_num ≡ (r.head_seq_num + moved) % 4096
  pub in_order : InOrder r.head_seq_num 0 moved out
  pub conserved : result.stored_mpdu_num + length out ≡ r.stored_mpdu_num + length skbs
  pub accounted :
      (weight : Skb → ℕ)
      → stored_weight weight result + weight_out weight out
        ≡ stored_weight weight r + sum_by weight skbs

-- the contents of the window after a call
reorder_in_session-weight :
    (now : ℕ) (r : Ampdu) (skb : Skb) (v : IsValid r) (weight : Skb → ℕ)
    → stored_weight weight (reorder_in_session-Refines now r skb v).result
        + weight_out weight (receive r.buf_size r.head_seq_num (view r) skb).2
      ≡ stored_weight weight r + sum_by weight (skb ∷ [])
reorder_in_session-weight now r skb v weight =
    let h = reorder_in_session-Refines now r skb v in
    let t = receive r.buf_size r.head_seq_num (view r) skb in
    omega (
      arith,
      ap (λ size. weight_in weight size (view h.result)) h.moved.same_size,
      ap (λ w. weight_in weight r.buf_size w) h.moved.slots,
      receive-weight weight r.buf_size r.head_seq_num (view r) skb (omega (arith, v.size_min))
          (view-IsBounded r),
    )

-- `wil_rx_reorder` on a session whose stored frames stand at their places returns; it keeps the
-- session valid and its frames at their places, moves the head on by at most 2049 numbers, and
-- passes frames on in strictly increasing sequence number from the old head on and below the new
-- one. The frames stored before and the new one are, each just once, stored after, passed on or
-- freed: their sum is the same for every weight given to frames.
pub reorder_in_session-Delivers :
    (now : ℕ) (r : Ampdu) (skb : Skb)
    → IsPlaced r
    → (moved_by r (reorder_in_session now r skb) ≤ 2049)
      × Delivers r
          (moved_by r (reorder_in_session now r skb))
          (skb ∷ [])
          (reorder_in_session now r skb)
reorder_in_session-Delivers now r skb p =
    let v = p.valid in
    let h = reorder_in_session-Refines now r skb v in
    let o =
      receive-Ordered r.buf_size r.head_seq_num (view r) skb v.size_min v.size_max v.head_lt
        p.placed in
    let moved : moved_by r (reorder_in_session now r skb) ≡ o.moved =
      ap (moved_by r) h.returned
      ∙ omega (arith, h.moved.head_at, o.head_at, o.moved_le, v.head_lt) in
    (
      omega (arith, moved, o.moved_le),
      rw moved (record {
        result = h.result;
        out = (receive r.buf_size r.head_seq_num (view r) skb).2;
        returned = h.returned;
        kept = record {
          valid = h.moved.valid;
          placed = λ k s e.
              o.placed k s ((λ i. sym h.moved.slots i k) ∙ e)
              ∙ omega (arith, h.moved.head_at, o.head_at);
        };
        head_at = h.moved.head_at ∙ o.head_at;
        in_order = o.in_order;
        conserved = h.conserved;
        accounted = reorder_in_session-weight now r skb v;
      }),
    )
