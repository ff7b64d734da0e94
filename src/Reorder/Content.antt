-- ===== src/Reorder/Content.antt =====
-- The frames of a window and those that leave it, each counted with a weight of its own: equal sums
-- for every weight say that the same frames are there, each as often.
use wigig_wil.Prelude.{
  ℕ, zero, suc, ◌+◌, ◌-◌, ◌%◌, ◌<◌, ◌≤◌, ◌≡◌, ◌∙◌, refl, ap, le→ltb, lt→ltb, dec_lt, Option, none,
  some, Option-cases, inl, inr, List, [], ◌∷◌, ◌++◌, arith,
}
use wigig_wil.Skb.{Skb, rxdesc_seq}
use wigig_wil.Reorder.{RxEvent, netif_rx, free_skb}
use wigig_wil.Reorder.Window.{
  Slots, shift, shifts, put, deliver, flushed, leading, land, receive, ahead,
}

-- no slot is filled from `size` on
abbrev pub IsBounded : ℕ → Slots → Type 0
IsBounded size w = (k : ℕ) → size ≤ k → w k ≡ none

shifts-at : (n : ℕ) (w : Slots) (k : ℕ) → shifts n w k ≡ w (n + k)
unfolding shifts
shifts-at zero w k = ap w (omega arith)
shifts-at (suc n) w k = shifts-at n (shift w) k ∙ ap w (omega arith)

shifts-IsBounded : (size n : ℕ) (w : Slots) → IsBounded size w → IsBounded size (shifts n w)
shifts-IsBounded size n w b k le = shifts-at n w k ∙ b (n + k) (omega (arith, le))

put-IsBounded :
    (size : ℕ) (w : Slots) (d : ℕ) (skb : Skb)
    → d < size
    → IsBounded size w
    → IsBounded size (put w d skb)
put-IsBounded size w d skb lt b k le = ground (arith, b k le, lt, le)

module _ (weight : Skb → ℕ) where
  abbrev pub weight_of : Option Skb → ℕ
  weight_of none = 0
  weight_of (some skb) = weight skb

  -- the first `n` slots
  abbrev pub weight_in : ℕ → Slots → ℕ
  weight_in zero w = 0
  weight_in (suc n) w = weight_of (w 0) + weight_in n (shift w)

  -- passed on or freed
  abbrev pub weight_out : List RxEvent → ℕ
  weight_out [] = 0
  weight_out (netif_rx skb ∷ out) = weight skb + weight_out out
  weight_out (free_skb skb ∷ out) = weight skb + weight_out out

  pub weight_out-append :
      (xs ys : List RxEvent) → weight_out (xs ++ ys) ≡ weight_out xs + weight_out ys
  weight_out-append [] ys = omega arith
  weight_out-append (netif_rx skb ∷ xs) ys = omega (arith, weight_out-append xs ys)
  weight_out-append (free_skb skb ∷ xs) ys = omega (arith, weight_out-append xs ys)

  weight_out-deliver : (o : Option Skb) → weight_out (deliver o) ≡ weight_of o
  weight_out-deliver none = refl
  weight_out-deliver (some skb) = omega arith

  weight_in-same : (n : ℕ) (w w' : Slots) → ((k : ℕ) → w k ≡ w' k) → weight_in n w ≡ weight_in n w'
  weight_in-same zero w w' e = refl
  weight_in-same (suc n) w w' e =
      omega (arith, ap weight_of (e 0), weight_in-same n (shift w) (shift w') (λ k. e (suc k)))

  weight_in-none : (n : ℕ) (w : Slots) → ((k : ℕ) → w k ≡ none) → weight_in n w ≡ 0
  weight_in-none zero w e = refl
  weight_in-none (suc n) w e =
      omega (arith, ap weight_of (e 0), weight_in-none n (shift w) (λ k. e (suc k)))

  -- what leaves in `n` steps, and the next `m` slots
  weight_in-shifts :
      (n m : ℕ) (w : Slots)
      → weight_in (n + m) w ≡ weight_out (flushed n w) + weight_in m (shifts n w)
  unfolding flushed shifts
  weight_in-shifts zero m w =
      let same : 0 + m ≡ m = omega arith in omega (arith, ap (λ k. weight_in k w) same)
  weight_in-shifts (suc n) m w =
      let more : suc n + m ≡ suc (n + m) = omega arith in
      omega (
        arith,
        ap (λ k. weight_in k w) more,
        weight_in-shifts n m (shift w),
        weight_out-append (deliver (w 0)) (flushed n (shift w)),
        weight_out-deliver (w 0),
      )

  weight_in-IsBounded :
      (size n : ℕ) (w : Slots) → IsBounded size w → weight_in (size + n) w ≡ weight_in size w
  weight_in-IsBounded size n w b =
      let none_left =
        weight_in-none n (shifts size w) (λ k. shifts-at size w k ∙ b (size + k) (omega arith)) in
      let same : size + 0 ≡ size = omega arith in
      omega (
        arith,
        weight_in-shifts size n w,
        weight_in-shifts size 0 w,
        ap (λ k. weight_in k w) same,
        none_left,
      )

  -- No frame is lost or made while the window moves on.
  pub shifts-weight :
      (size n : ℕ) (w : Slots)
      → IsBounded size w
      → weight_in size (shifts n w) + weight_out (flushed n w) ≡ weight_in size w
  shifts-weight size n w b =
      let turn : n + size ≡ size + n = omega arith in
      omega (
        arith,
        weight_in-shifts n size w,
        ap (λ k. weight_in k w) turn,
        weight_in-IsBounded size n w b,
      )

  put-weight :
      (n : ℕ) (w : Slots) (d : ℕ) (skb : Skb)
      → d < n
      → w d ≡ none
      → weight_in n (put w d skb) ≡ weight_in n w + weight skb
  put-weight zero w d skb lt e = absurd (omega (arith, lt))
  put-weight (suc n) w zero skb lt e =
      let rest = weight_in-same n (shift (put w 0 skb)) (shift w) (λ k. ground arith) in
      let here : put w 0 skb 0 ≡ some skb = ground arith in
      omega (arith, rest, ap weight_of here, ap weight_of e)
  put-weight (suc n) w (suc d) skb lt e =
      let rest =
        weight_in-same n (shift (put w (suc d) skb)) (put (shift w) d skb) (λ k. ground arith) in
      let here : put w (suc d) skb 0 ≡ w 0 = ground arith in
      omega (arith, rest, ap weight_of here, put-weight n (shift w) d skb (omega (arith, lt)) e)

  -- the slots after a call, with what left them
  abbrev pub weight_after : ℕ → ℕ × Slots × List RxEvent → ℕ
  weight_after size t = weight_in size t.1 + weight_out t.2

  land-weight :
      (size head : ℕ) (w : Slots) (d : ℕ) (skb : Skb)
      → d < size
      → IsBounded size w
      → weight_after size (land size head w d skb) ≡ weight_in size w + weight skb
  unfolding land
  land-weight size head w d skb lt b = elim (Option-cases (w d)) [
    | inr (old, e) ↦ rw e (omega arith)
    | inl e ↦
        let filled = put w d skb in
        rw e (
          omega (
            arith,
            shifts-weight size (leading size filled) filled (put-IsBounded size w d skb lt b),
            put-weight size w d skb lt e,
          ))
  ]

  -- A call keeps or gives back just the frames that were stored and the new one.
  pub receive-weight :
      (size head : ℕ) (w : Slots) (skb : Skb)
      → 1 ≤ size
      → IsBounded size w
      → weight_after size (receive size head w skb) ≡ weight_in size w + weight skb
  unfolding receive
  receive-weight size head w skb pos b =
      let d = ahead head (rxdesc_seq skb.desc) in
      let n = d + 1 - size in
      elim (dec_lt 2048 d) [
        | yes old ↦ rw (lt→ltb 2048 d old) (omega arith)
        | no near ↦
            let landed = land size ((head + n) % 4096) (shifts n w) (d - n) skb in
            rw (le→ltb 2048 d (omega arith)) (
              omega (
                arith,
                land-weight size ((head + n) % 4096) (shifts n w) (d - n) skb (omega (arith, pos))
                    (shifts-IsBounded size n w b),
                shifts-weight size n w b,
                weight_out-append (flushed n w) landed.2,
              ))
      ]
