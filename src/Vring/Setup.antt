-- ===== src/Vring/Setup.antt =====
-- txrx.c: a ring of Rx descriptors from its start to its end, `wil_rx_init`, `wil_rx_fini` and what
-- they call. `mem` is the memory that the ring gets, whatever it holds; the fuel of the loop that
-- frees a ring is its size.
use native.Mathlib.Nat.{mod-lt}
use wigig_wil.Prelude.{
  ℕ, zero, suc, ◌+◌, ◌*◌, ◌^◌, ◌==◌, ◌≡◌, ◌≤◌, ◌<◌, ◌⊎◌, inl, inr, ◌∙◌, refl, sym, ap, Bool, true,
  false, not, if◌then◌else◌, Bool-cases, Option, none, some, List, [], ◌∷◌, length, get_or,
  replicate, length-replicate, Outcome, returns, out_of_fuel, ◌>>=◌, arith,
}
use wigig_wil.Skb.{RxDesc}
use wigig_wil.Vring.{Vring, vring_is_empty, vring_advance_head, rx_refill, no_desc}
use wigig_wil.Vring.Refill.{IsRing, used, mod_once, rx_refill-Refills}

-- what is given back when a ring is freed
pub data FreeOp : Type 0 where
  unmap : ℕ × ℕ → FreeOp
  free : Option ℕ → FreeOp

-- all descriptors owned by the host
unfoldable pub set_done : List RxDesc → List RxDesc
set_done [] = []
set_done (d ∷ ds) = record d { status = 1 } ∷ set_done ds

-- the ring that `wil_vring_alloc` sets up
unfoldable pub fresh : List RxDesc → ℕ → Vring
unfolding set_done
fresh mem size = record {
  size = size;
  swtail = 0;
  swhead = 0;
  va = set_done mem;
  ctx = replicate size none;
}

-- `wil_vring_alloc`, for a ring whose arrays get their memory or not; `none` is -ENOMEM
unfoldable pub vring_alloc : Bool → Bool → List RxDesc → ℕ → Option Vring
unfolding fresh
vring_alloc got_ctx got_va mem size =
    if not got_ctx then none else if not got_va then none else some (fresh mem size)

-- the loop of `wil_vring_free` for an Rx ring
unfoldable pub free_rx : ℕ → Vring → Outcome (List FreeOp)
unfolding vring_is_empty vring_advance_head
free_rx zero v = if vring_is_empty v then returns [] else out_of_fuel
free_rx (suc fuel) v =
    let d = get_or v.va v.swtail no_desc in
    let what : ℕ × ℕ = (d.addr_low + d.addr_high * 2 ^ 32, d.length) in
    let rest = free_rx fuel (vring_advance_head v 1) in
    if vring_is_empty v
    then returns []
    else (rest >>= λ more. returns (unmap what ∷ free (get_or v.ctx v.swhead none) ∷ more))

-- `wil_rx_init` and `wil_rx_fini`: the ring that is set up, and what is given back
unfoldable pub rx_init :
    Bool
    → Bool
    → Bool
    → (ℕ → Option (ℕ × ℕ))
    → List RxDesc
    → ℕ
    → Outcome (Option Vring × List FreeOp)
unfolding vring_alloc free_rx
rx_init got_ctx got_va configured bufs mem size = elim (vring_alloc got_ctx got_va mem size) [
  | none ↦ returns (none, [])
  | some v ↦
      let r = rx_refill bufs size 0 v in
      if not configured
      then (free_rx size v >>= λ ops. returns (none, ops))
      else if r.0
      then returns (some r.1, [])
      else (free_rx size r.1 >>= λ ops. returns (none, ops))
]

unfoldable pub rx_fini : Option Vring → Outcome (List FreeOp)
unfolding free_rx
rx_fini none = returns []
rx_fini (some v) = free_rx v.size v

length-set_done : (ds : List RxDesc) → length (set_done ds) ≡ length ds
unfolding set_done
length-set_done [] = refl
length-set_done (d ∷ ds) = ap suc (length-set_done ds)

used-vring_advance_head :
    (v : Vring)
    → v.swtail < v.size
    → v.swhead < v.size
    → vring_is_empty v ≡ false
    → used (vring_advance_head v 1) + 1 ≡ used v
unfolding vring_is_empty vring_advance_head
used-vring_advance_head v t h e =
    ground (arith, mod_once (v.swhead + 1) v.size (omega (arith, h)), t, h, e)

-- The loop ends within as many rounds as slots are posted, and gives back two things for each.
pub length-free_rx :
    (fuel : ℕ) (v : Vring)
    → v.swtail < v.size
    → v.swhead < v.size
    → used v ≤ fuel
    → (ops : List FreeOp) × (free_rx fuel v ≡ returns ops) × (length ops ≡ used v + used v)
unfolding free_rx vring_is_empty
length-free_rx zero v t h le =
    let e : (v.swhead == v.swtail) ≡ true = ground (arith, t, h, le) in
    ([], rw e refl, ground (arith, t, h, le))
length-free_rx (suc fuel) v t h le = elim (Bool-cases (v.swhead == v.swtail)) [
  | inl e ↦ ([], rw e refl, ground (arith, e, t, h))
  | inr e ↦
      let less = used-vring_advance_head v t h e in
      let rest =
        length-free_rx fuel (vring_advance_head v 1) t (head-lt v h) (omega (arith, less, le)) in
      let d = get_or v.va v.swtail no_desc in
      let what : ℕ × ℕ = (d.addr_low + d.addr_high * 2 ^ 32, d.length) in
      (
        unmap what ∷ free (get_or v.ctx v.swhead none) ∷ rest.0,
        rw e (rw rest.1 refl),
        omega (arith, less, rest.2),
      )
]
  where
    head-lt : (v : Vring) → v.swhead < v.size → (vring_advance_head v 1).swhead < v.size
    head-lt v h = mod-lt (v.swhead + 1) (omega (arith, h))

fresh-IsRing :
    (mem : List RxDesc) (size : ℕ) → 1 ≤ size → length mem ≡ size → IsRing (fresh mem size)
unfolding fresh
fresh-IsRing mem size pos len = record {
  tail_lt = pos;
  head_lt = pos;
  va_length = length-set_done mem ∙ len;
  ctx_length = length-replicate size none;
  posted = λ j lt. absurd (ground (arith, lt));
}

-- how the set-up of the ring ends: with a ring that is filled but for one slot, or without one
abbrev pub Ends : Outcome (Option Vring × List FreeOp) → Type 0
Ends m =
    ((ops : List FreeOp) × (m ≡ returns (none, ops)))
    ⊎ ((v : Vring) × (m ≡ returns (some v, [])) × IsRing v × (used v + 1 ≡ v.size))

too_many : (v : Vring) → IsRing v → v.size ≤ used v → ⊥
too_many v h le = ground (arith, h.tail_lt, h.head_lt, le)

free-Ends :
    (size : ℕ) (v : Vring)
    → IsRing v
    → v.size ≡ size
    → Ends (free_rx size v >>= λ ops. returns (none, ops))
free-Ends size v h e =
    let used_le : used v ≤ size = ground (arith, h.tail_lt, h.head_lt, e) in
    let r = length-free_rx size v h.tail_lt h.head_lt used_le in inl (r.0, rw r.1 refl)

-- The set-up of the Rx ring returns, whatever of it fails; if it sets a ring up, this is
-- well-formed and has a buffer in each slot but one.
pub rx_init-Ends :
    (got_ctx got_va configured : Bool) (bufs : ℕ → Option (ℕ × ℕ)) (mem : List RxDesc) (size : ℕ)
    → 1 ≤ size
    → length mem ≡ size
    → Ends (rx_init got_ctx got_va configured bufs mem size)
unfolding rx_init vring_alloc
rx_init-Ends false got_va configured bufs mem size pos len = inl ([], refl)
rx_init-Ends true false configured bufs mem size pos len = inl ([], refl)
rx_init-Ends true true false bufs mem size pos len =
    free-Ends size (fresh mem size) (fresh-IsRing mem size pos len) refl
rx_init-Ends true true true bufs mem size pos len =
    let v = fresh mem size in
    let r = rx_refill bufs size 0 v in
    let h = rx_refill-Refills bufs size 0 v (fresh-IsRing mem size pos len) in
    elim (Bool-cases r.0) [
      | inl ok ↦
          let filled : used r.1 + 1 ≡ r.1.size = elim (h.complete ok) [
            | inl all ↦ absurd (too_many r.1 h.ring (omega (arith, h.used_more, h.same_size, all)))
            | inr full ↦ full ∙ sym h.same_size
          ] in
          rw ok (inr (r.1, refl, h.ring, filled))
      | inr bad ↦ rw bad (free-Ends size r.1 h.ring h.same_size)
    ]
