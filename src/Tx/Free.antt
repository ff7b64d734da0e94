-- ===== src/Tx/Free.antt =====
-- txrx.c: `wil_vring_free` for a Tx ring and `wil_vring_fini_tx`. The fuel of the loop is the size
-- of the ring.
use wigig_wil.Prelude.{
  ℕ, zero, suc, ◌+◌, ◌-◌, ◌%◌, ◌==◌, ◌≡◌, ◌≢◌, ◌≤◌, ◌<◌, inl, inr, ◌∙◌, refl, ap, leb, true,
  if◌then◌else◌, Bool-cases, Option-cases, Option, none, some, ◌∷◌, get_or, set, Outcome, returns,
  out_of_fuel, arith,
}
use native.Mathlib.Nat.{mod-lt}
use wigig_wil.Vring.Refill.{mod_once}
use wigig_wil.Tx.Send.{
  TxVring, unmap_single, unmap_page, TxPath, no_tx_desc, ref_at, desc_pa, kfree_skb,
}
use wigig_wil.Tx.Scan.{used_tx}

-- one round: the slot at the tail given back
unfoldable pub free_slot : TxPath → TxPath
unfolding kfree_skb
free_slot s =
    let i = s.ring.swtail in
    let d = get_or s.ring.va i no_tx_desc in
    let what : ℕ × ℕ = (desc_pa d, d.length) in
    let s1 : TxPath = elim (get_or s.ring.ctx i none) [
      | none ↦ s
      | some n ↦
          let op = if leb i (ref_at s n).sngl_mapped then unmap_single what else unmap_page what in
          let t = kfree_skb n (record s { log = op ∷ s.log }) in
          record t { ring = record t.ring { ctx = set t.ring.ctx i none } }
    ] in
    record s1 { ring = record s1.ring { swtail = (i + 1) % s.ring.size } }

-- the loop of `wil_vring_free` for a Tx ring
unfoldable pub free_tx : ℕ → TxPath → Outcome TxPath
unfolding free_slot
free_tx zero s = if s.ring.swhead == s.ring.swtail then returns s else out_of_fuel
free_tx (suc fuel) s =
    let rest = free_tx fuel (free_slot s) in
    if s.ring.swhead == s.ring.swtail then returns s else rest

-- `wil_vring_fini_tx`: `none` is a ring that is not set up
unfoldable pub fini_tx : Option TxPath → Outcome (Option TxPath)
unfolding free_tx
fini_tx none = returns none
fini_tx (some s) = elim (free_tx s.ring.size s) [ returns t ↦ returns (some t) | _ ↦ out_of_fuel ]

record Frees (s s' : TxPath) : Type 0 where
  same_size : s'.ring.size ≡ s.ring.size
  same_head : s'.ring.swhead ≡ s.ring.swhead
  tail_at : s'.ring.swtail ≡ (s.ring.swtail + 1) % s.ring.size

free_slot-Frees : (s : TxPath) → Frees s (free_slot s)
unfolding free_slot kfree_skb
free_slot-Frees s = elim (Option-cases (get_or s.ring.ctx s.ring.swtail none)) [
  | inl e ↦ rw (e, free_slot) (record { same_size = refl; same_head = refl; tail_at = refl })
  | inr (n, e) ↦ rw (e, free_slot) (record { same_size = refl; same_head = refl; tail_at = refl })
]

used-next :
    (t h size : ℕ)
    → t < size
    → h < size
    → h ≢ t
    → let n : ℕ = (t + 1) % size in
      (n < size)
      × ((if leb n h then h - n else h + size - n) + 1 ≡ (if leb t h then h - t else h + size - t))
used-next t h size t_lt h_lt ne = (
  mod-lt (t + 1) (omega (arith, t_lt)),
  ground (arith, mod_once (t + 1) size (omega (arith, t_lt)), t_lt, h_lt, ne),
)

used_same :
    (v w : TxVring)
    → v.size ≡ w.size
    → v.swhead ≡ w.swhead
    → v.swtail ≡ w.swtail
    → used_tx v ≡ used_tx w
used_same v w e h t =
    ap (λ a. if leb v.swtail v.swhead then v.swhead - v.swtail else v.swhead + a - v.swtail) e
    ∙ ap (λ a. if leb v.swtail a then a - v.swtail else a + w.size - v.swtail) h
    ∙ ap (λ a. if leb a w.swhead then w.swhead - a else w.swhead + w.size - a) t

-- The loop gives the ring back up to its head, in as many rounds as slots are posted.
pub free_tx_lem :
    (fuel : ℕ) (s : TxPath)
    → s.ring.swtail < s.ring.size
    → s.ring.swhead < s.ring.size
    → used_tx s.ring ≤ fuel
    → (s' : TxPath) × (free_tx fuel s ≡ returns s') × (s'.ring.swtail ≡ s'.ring.swhead)
unfolding free_tx
free_tx_lem zero s t h le =
    let e : (s.ring.swhead == s.ring.swtail) ≡ true = ground (arith, t, h, le) in
    (s, rw e refl, ground (arith, e))
free_tx_lem (suc fuel) s t h le = elim (Bool-cases (s.ring.swhead == s.ring.swtail)) [
  | inl e ↦ (s, rw e refl, ground (arith, e))
  | inr e ↦
      let ne : s.ring.swhead ≢ s.ring.swtail = ground (arith, e) in
      let f = free_slot-Frees s in
      let w = record s.ring { swtail = (s.ring.swtail + 1) % s.ring.size } in
      let next = used-next s.ring.swtail s.ring.swhead s.ring.size t h ne in
      let rest =
        free_tx_lem fuel (free_slot s) (omega (arith, next.0, f.same_size))
          (omega (arith, h, f.same_head, f.same_size))
          (omega (
            arith,
            used_same (free_slot s).ring w f.same_size f.same_head f.tail_at,
            next.1,
            le,
          )) in
      (rest.0, rw e rest.1, rest.2)
]
