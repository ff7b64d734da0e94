-- ===== src/Rx/Reap.antt =====
-- One frame taken from the head of the Rx ring.
use native.Mathlib.Nat.{mod-eq_of_lt, mod_self}
use wigig_wil.Prelude.{
  ℕ, zero, suc, ◌+◌, ◌==◌, ◌≡◌, ◌≢◌, ◌<◌, ◌⊎◌, inl, inr, ◌∙◌, refl, ap, Bool, true, false, not,
  ◌||◌, if◌then◌else◌, Option, none, some, List, [], ◌∷◌, is_some, get_or, set, length-set,
  get_or-set_ne, dec_lt, Bool-cases, Option-cases, arith, Outcome, returns,
}
use wigig_wil.Word.{has_bit}
use wigig_wil.Skb.{Skb}
use wigig_wil.Vring.{Vring, vring_is_empty, vring_advance_head, no_desc}
use wigig_wil.Vring.Refill.{IsRing, used, slot_at}
use wigig_wil.Rx.Pass.{entered}
use wigig_wil.Rx.{
  RxPath, RxMode, RxEnv, Reaped, no_frame, dropped, frame, take_skb, check_skb, take_head, reap_rx,
}

-- the head moved on over a slot that is taken
abbrev pub taken : Vring → Vring
taken v = vring_advance_head (record v { ctx = set v.ctx v.swhead none }) 1

advance_lem :
    (v : Vring)
    → v.swhead < v.size
    → (vring_advance_head v 1).swhead ≡ (if v.swhead + 1 == v.size then 0 else v.swhead + 1)
unfolding vring_advance_head
advance_lem v lt = elim (dec_lt (v.swhead + 1) v.size) [
  | yes small ↦ rw (mod-eq_of_lt small) (ground (arith, small))
  | no big ↦
      let full : v.swhead + 1 ≡ v.size = omega arith in
      rw (full, mod_self v.size) (ground (arith, full))
]

pub used-taken : (v : Vring) → IsRing v → used v ≢ 0 → used (taken v) + 1 ≡ used v
unfolding vring_advance_head
used-taken v h some_used = ground (arith, advance_lem v h.head_lt, some_used, h.tail_lt, h.head_lt)

-- Taking the head keeps a ring with at least one posted slot well-formed.
pub taken-IsRing : (v : Vring) → IsRing v → used v ≢ 0 → IsRing (taken v)
unfolding vring_advance_head
taken-IsRing v h some_used = record {
  tail_lt = h.tail_lt;
  head_lt = ground (arith, advance_lem v h.head_lt, h.head_lt);
  va_length = h.va_length;
  ctx_length = length-set v.ctx v.swhead none ∙ h.ctx_length;
  posted = λ j lt.
      let next : slot_at (taken v) j ≡ slot_at v (suc j) =
        ground (arith, advance_lem v h.head_lt, h.head_lt, h.tail_lt, lt) in
      let more : suc j < used v = omega (arith, lt, used-taken v h some_used) in
      let apart : v.swhead ≢ slot_at v (suc j) = ground (arith, more, h.head_lt, h.tail_lt) in
      rw next (
        ap (λ o. is_some o) (get_or-set_ne v.ctx v.swhead (slot_at v (suc j)) none none apart)
        ∙ h.posted (suc j) more);
}

-- Is there no finished frame at the head?
abbrev pub is_idle : Vring → Bool
is_idle v = vring_is_empty v || not (has_bit (get_or v.va v.swhead no_desc).status 0)

pub Reaped-cases :
    (r : Reaped)
    → (r ≡ no_frame) ⊎ ((skb : Skb) × (r ≡ dropped skb)) ⊎ ((skb : Skb) × (r ≡ frame skb))
Reaped-cases no_frame = inl refl
Reaped-cases (dropped skb) = inr (inl (skb, refl))
Reaped-cases (frame skb) = inr (inr (skb, refl))

module _ (mode : RxMode) (env : RxEnv) where
  check_skb-frame : (skb : Skb) → check_skb mode env skb ≢ no_frame
  unfolding check_skb
  check_skb-frame skb e = ground (arith, e)

  reap_rx-idle : (s : RxPath) → is_idle s.ring ≡ true → reap_rx mode env s ≡ returns (no_frame, s)
  unfolding reap_rx
  reap_rx-idle s e = ground (arith, e)

  reap_rx-busy :
      (s : RxPath) (id : ℕ)
      → is_idle s.ring ≡ false
      → get_or s.ring.ctx s.ring.swhead none ≡ some id
      → let skb = take_skb mode env (get_or s.ring.va s.ring.swhead no_desc) id in
        reap_rx mode env s ≡ returns (check_skb mode env skb, take_head mode env s skb)
  unfolding reap_rx
  reap_rx-busy s id e c = ground (arith, e, c)

  busy-used : (v : Vring) → IsRing v → is_idle v ≡ false → used v ≢ 0
  unfolding vring_is_empty
  busy-used v h e = ground (arith, e, h.head_lt, h.tail_lt)

  busy-posted : (v : Vring) → IsRing v → used v ≢ 0 → get_or v.ctx v.swhead none ≢ none
  busy-posted v h e n =
      let here : slot_at v 0 ≡ v.swhead = ground (arith, h.head_lt) in
      let p = h.posted 0 (omega (arith, e)) in
      let q = ap (λ j. is_some (get_or v.ctx j none)) here in let r = ap (λ o. is_some o) n in cc

  -- the finished frame at the head, if a buffer is posted there, and its checks
  abbrev pub posted_frame : Vring → Option ℕ → Reaped
  posted_frame v none = no_frame
  posted_frame v (some id) =
      check_skb mode env (take_skb mode env (get_or v.va v.swhead no_desc) id)

  -- the frames that follow one taken off: a dropped one ends the loop
  abbrev pub arrival : Reaped → List Skb → List Skb
  arrival no_frame rest = []
  arrival (dropped skb) rest = skb ∷ []
  arrival (frame skb) rest = entered mode env skb ∷ rest

  -- the frames that at most `quota` steps take off a ring, one slot after another
  abbrev pub arrivals : ℕ → Vring → List Skb
  arrivals zero v = []
  arrivals (suc quota) v =
      let rest = arrivals quota (taken v) in
      if is_idle v then [] else arrival (posted_frame v (get_or v.ctx v.swhead none)) rest

  -- A frame reaped, or none: the ring is kept well-formed, and nothing but the ring and the
  -- modulation counters changes.
  pub record Reaps (s : RxPath) (m : Outcome (Reaped × RxPath)) : Type 0 where
    pub reaped : Reaped
    pub result : RxPath
    pub returned : m ≡ returns (reaped, result)
    pub ring : IsRing result.ring
    pub same_stas : result.stas ≡ s.stas
    pub same_received : result.received ≡ s.received
    pub same_ndev_stats : result.ndev_stats ≡ s.ndev_stats
    pub arrived :
        (quota : ℕ) → arrivals (suc quota) s.ring ≡ arrival reaped (arrivals quota result.ring)
    pub outcome :
        (reaped ≡ no_frame) × (result ≡ s) × (is_idle s.ring ≡ true)
        ⊎ (reaped ≢ no_frame) × (used result.ring + 1 ≡ used s.ring)

  pub reap_rx-Reaps : (s : RxPath) → IsRing s.ring → Reaps s (reap_rx mode env s)
  unfolding take_head
  reap_rx-Reaps s h = elim (Bool-cases (is_idle s.ring)) [
    | inl e ↦ record {
      reaped = no_frame;
      result = s;
      returned = reap_rx-idle s e;
      ring = h;
      same_stas = refl;
      same_received = refl;
      same_ndev_stats = refl;
      arrived = λ quota. rw e refl;
      outcome = inl (refl, refl, e);
    }
    | inr e ↦
        let busy = busy-used s.ring h e in
        elim (Option-cases (get_or s.ring.ctx s.ring.swhead none)) [
          | inl n ↦ absurd (busy-posted s.ring h busy n)
          | inr (id, c) ↦
              let skb = take_skb mode env (get_or s.ring.va s.ring.swhead no_desc) id in
              record {
                reaped = check_skb mode env skb;
                result = take_head mode env s skb;
                returned = reap_rx-busy s id e c;
                ring = taken-IsRing s.ring h busy;
                same_stas = refl;
                same_received = refl;
                same_ndev_stats = refl;
                arrived = λ quota.
                    rw e
                      (ap (λ o. arrival (posted_frame s.ring o) (arrivals quota (taken s.ring))) c);
                outcome = inr (check_skb-frame skb, used-taken s.ring h busy);
              }
        ]
  ]
