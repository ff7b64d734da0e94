-- ===== src/Vring/Refill.antt =====
-- The posted slots of a ring, and `wil_rx_refill`.
use native.Mathlib.Nat.{mod-eq_of_lt, mod-eq-sub-mod, mod-lt, mod_self}
use wigig_wil.Prelude.{
  ℕ, zero, suc, ◌+◌, ◌-◌, ◌%◌, ◌==◌, ◌≡◌, ◌≢◌, ◌≤◌, ◌<◌, ◌⊎◌, inl, inr, ◌∙◌, refl, ap, ltb, leb,
  Bool, true, if◌then◌else◌, Option, none, some, is_some, get_or, length, length-set,
  get_or-set_self, get_or-set_ne, eq-cases, dec_lt, Bool-cases, Option-cases, arith,
}
use wigig_wil.Vring.{
  vring_avail_tx, vring_advance_head, Vring, vring_next_tail, vring_alloc_skb, rx_refill,
}

-- how many slots are posted
abbrev pub used : Vring → ℕ
used v = if leb v.swhead v.swtail then v.swtail - v.swhead else v.swtail + v.size - v.swhead

-- the `j`th slot from the head on
abbrev pub slot_at : Vring → ℕ → ℕ
slot_at v j = if ltb (v.swhead + j) v.size then v.swhead + j else v.swhead + j - v.size

-- The indices are in range, and each posted slot has a buffer.
pub record IsRing (v : Vring) : Type 0 where
  pub tail_lt : v.swtail < v.size
  pub head_lt : v.swhead < v.size
  pub va_length : length v.va ≡ v.size
  pub ctx_length : length v.ctx ≡ v.size
  pub posted : (j : ℕ) → j < used v → is_some (get_or v.ctx (slot_at v j) none) ≡ true

next_tail_lem :
    (v : Vring)
    → v.swtail < v.size
    → vring_next_tail v ≡ (if v.swtail + 1 == v.size then 0 else v.swtail + 1)
unfolding vring_next_tail
next_tail_lem v lt = elim (dec_lt (v.swtail + 1) v.size) [
  | yes small ↦ rw (mod-eq_of_lt small) (ground (arith, small))
  | no big ↦
      let full : v.swtail + 1 ≡ v.size = omega arith in
      rw (full, mod_self v.size) (ground (arith, full))
]

-- the ring after one more buffer
abbrev step : ℕ × ℕ → Vring → Vring
step p v = record (vring_alloc_skb (some p) v v.swtail).1 { swtail = vring_next_tail v }

used-step :
    (p : ℕ × ℕ) (v : Vring) → IsRing v → vring_next_tail v ≢ v.swhead → used (step p v) ≡ used v + 1
unfolding vring_alloc_skb
used-step p v h free = ground (arith, next_tail_lem v h.tail_lt, free, h.tail_lt, h.head_lt)

step-IsRing : (p : ℕ × ℕ) (v : Vring) → IsRing v → vring_next_tail v ≢ v.swhead → IsRing (step p v)
unfolding vring_alloc_skb
step-IsRing p v h free = record {
  tail_lt = ground (arith, next_tail_lem v h.tail_lt, h.tail_lt, h.head_lt);
  head_lt = h.head_lt;
  va_length = length-set v.va v.swtail _ ∙ h.va_length;
  ctx_length = length-set v.ctx v.swtail (some p.0) ∙ h.ctx_length;
  posted = λ j lt. elim (eq-cases j (used v)) [
    | inl e ↦
        let here : slot_at v j ≡ v.swtail = ground (arith, e, h.tail_lt, h.head_lt) in
        rw here (
          ap (λ o. is_some o)
            (get_or-set_self v.ctx v.swtail (some p.0) none
              (omega (arith, h.ctx_length, h.tail_lt))))
    | inr ne ↦
        let before : j < used v = omega (arith, lt, used-step p v h free) in
        let apart : v.swtail ≢ slot_at v j = ground (arith, before, h.tail_lt, h.head_lt) in
        ap (λ o. is_some o) (get_or-set_ne v.ctx v.swtail (slot_at v j) (some p.0) none apart)
        ∙ h.posted j before
  ];
}

-- What a refill of up to `count` buffers leaves: a ring with `added` more buffers and the same
-- head; with all allocations successful, either `count` buffers or a ring that is full but for
-- one slot.
pub record Refills (v : Vring) (count : ℕ) (p : Bool × Vring) : Type 0 where
  pub added : ℕ
  pub ring : IsRing p.1
  pub same_head : p.1.swhead ≡ v.swhead
  pub same_size : p.1.size ≡ v.size
  pub used_more : used p.1 ≡ used v + added
  pub at_most : added ≤ count
  pub complete : p.0 ≡ true → (added ≡ count) ⊎ (used p.1 + 1 ≡ v.size)

-- Whatever the allocations give, a refill keeps the ring well-formed and its head, adds at most
-- `count` buffers and never fills the last free slot; if no allocation fails, it stops only
-- after `count` buffers or at that slot.
pub rx_refill-Refills :
    (bufs : ℕ → Option (ℕ × ℕ)) (count k : ℕ) (v : Vring)
    → IsRing v
    → Refills v count (rx_refill bufs count k v)
unfolding rx_refill vring_alloc_skb
rx_refill-Refills bufs zero k v h = record {
  added = 0;
  ring = h;
  same_head = refl;
  same_size = refl;
  used_more = omega arith;
  at_most = omega arith;
  complete = λ e. inl refl;
}
rx_refill-Refills bufs (suc count) k v h = elim (Bool-cases (vring_next_tail v == v.swhead)) [
  | inl full ↦ rw full (record {
    added = 0;
    ring = h;
    same_head = refl;
    same_size = refl;
    used_more = omega arith;
    at_most = omega arith;
    complete = λ e. inr (ground (arith, full, next_tail_lem v h.tail_lt, h.tail_lt, h.head_lt));
  })
  | inr free ↦ rw free (elim (Option-cases (bufs k)) [
    | inl e ↦ rw e (record {
      added = 0;
      ring = h;
      same_head = refl;
      same_size = refl;
      used_more = omega arith;
      at_most = omega arith;
      complete = λ eq. absurd (ground (arith, eq));
    })
    | inr (p, e) ↦ rw e (
        let apart : vring_next_tail v ≢ v.swhead = ground (arith, free) in
        let more = used-step p v h apart in
        let r = rx_refill-Refills bufs count (suc k) (step p v) (step-IsRing p v h apart) in
        record {
          added = suc r.added;
          ring = r.ring;
          same_head = r.same_head;
          same_size = r.same_size;
          used_more = omega (arith, r.used_more, more);
          at_most = omega (arith, r.at_most);
          complete = λ eq. elim (r.complete eq) [
            | inl all ↦ inl (omega (arith, all))
            | inr full ↦ inr full
          ];
        })
  ])
]

pub mod_once : (n m : ℕ) → n < m + m → n % m ≡ (if ltb n m then n else n - m)
mod_once n m lt = elim (dec_lt n m) [
  | yes small ↦ rw (mod-eq_of_lt small) (ground (arith, small))
  | no big ↦
      let once : n % m ≡ n - m =
        mod-eq-sub-mod {n = n} {m = m} (omega arith)
        ∙ mod-eq_of_lt {n = n - m} {m = m} (omega arith) in
      rw once (ground (arith, big))
]

-- Moving the head of a Tx ring on over slots that are free takes just these from the free ones.
pub vring_avail_tx-vring_advance_head :
    (v : Vring) (n : ℕ)
    → v.swtail < v.size
    → v.swhead < v.size
    → n ≤ vring_avail_tx v
    → vring_avail_tx (vring_advance_head v n) + n ≡ vring_avail_tx v
unfolding vring_avail_tx vring_advance_head
vring_avail_tx-vring_advance_head v n t h le =
    let at : ℕ = (v.swhead + n) % v.size in
    let at_lt : at < v.size = mod-lt (v.swhead + n) (omega arith) in
    let e1 = mod_once (v.size + v.swhead - v.swtail) v.size (omega arith) in
    let e2 = mod_once (v.swhead + n) v.size (omega arith) in
    let e3 = mod_once (v.size + at - v.swtail) v.size (omega arith) in
    ground (arith, e1, e2, e3, at_lt, le)
