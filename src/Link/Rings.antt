-- ===== src/Link/Rings.antt =====
-- The search for a ring (txrx.c) takes the first ring with a CID, which a ring that is freed keeps.
-- This file is about the order in which rings are given out and freed.
use wigig_wil.Prelude.{
  ℕ, zero, suc, ◌==◌, ◌≡◌, ◌≢◌, ◌∙◌, refl, sym, Bool, true, false, ◌&&◌, ◌||◌, if◌then◌else◌,
  Option, none, some, is_some, List, [], ◌∷◌, set, Bool-cases, eq-cases, Option-cases, inl, inr,
  arith,
}
use wigig_wil.Link.{TxRing, find_free_vring, vring_fini_tx, fini_rings, find_ring}

abbrev pub has_ring : ℕ → List TxRing → Bool
has_ring cid [] = false
has_ring cid (r ∷ rs) = ((r.cid == cid) && r.active) || has_ring cid rs

-- The search finds a ring for a CID exactly if the CID has an active one.
abbrev pub IsFound : ℕ → List TxRing → Type 0
IsFound cid rings = is_some (find_ring cid rings) ≡ has_ring cid rings

pub find_ring-has_ring :
    (cid : ℕ) (rs : List TxRing) → has_ring cid rs ≡ false → is_some (find_ring cid rs) ≡ false
unfolding find_ring
find_ring-has_ring cid [] h = refl
find_ring-has_ring cid (r ∷ rs) h = ground (arith, find_ring-has_ring cid rs)

none≢some : {k : ℕ} → ◌≡◌ {A = Option ℕ} none (some k) → ⊥
none≢some e = cc

pub first_is_free :
    (r : TxRing) (rs : List TxRing) → r.active ≡ true → find_free_vring (r ∷ rs) ≡ some 0 → ⊥
unfolding find_free_vring
first_is_free r rs on e = elim (Option-cases (find_free_vring rs)) [
  | inl f ↦ ground (arith, on, e, f)
  | inr (k, f) ↦ ground (arith, on, e, f)
]

pub next_is_free :
    (r : TxRing) (rs : List TxRing) (k : ℕ)
    → find_free_vring (r ∷ rs) ≡ some (suc k)
    → (r.active ≡ true) × (find_free_vring rs ≡ some k)
unfolding find_free_vring
next_is_free r rs k e = elim (Option-cases (find_free_vring rs)) [
  | inl f ↦ ground (arith, e, f)
  | inr (i, f) ↦ ground (arith, e, f)
]

-- The lowest free ring, taken for another CID or for one without a ring.
pub taken-IsFound :
    (cid : ℕ) (new : TxRing) (rs : List TxRing) (k : ℕ)
    → find_free_vring rs ≡ some k
    → (new.cid ≡ cid → new.active ≡ false → has_ring cid rs ≡ false)
    → IsFound cid rs
    → IsFound cid (set rs k new)
unfolding find_ring find_free_vring
taken-IsFound cid new [] k e fresh found = absurd (none≢some e)
taken-IsFound cid new (r ∷ rs) zero e fresh found = elim (Bool-cases r.active) [
  | inl on ↦ absurd (first_is_free r rs on e)
  | inr off ↦ ground (arith, off, find_ring-has_ring cid rs)
]
taken-IsFound cid new (r ∷ rs) (suc k) e fresh found = elim (Bool-cases (r.cid == cid)) [
  | inl same ↦ ground (arith, same, next_is_free r rs k e)
  | inr other ↦
      let h =
        taken-IsFound cid new rs k (next_is_free r rs k e).1
          (λ eq off. ground (arith, fresh eq off)) (ground (arith, other, found)) in
      ground (arith, other, h)
]

pub fini_rings-has_ring :
    (cid d : ℕ) (rs : List TxRing)
    → has_ring d (fini_rings cid rs) ≡ (if d == cid then false else has_ring d rs)
unfolding fini_rings
fini_rings-has_ring cid d [] = ground arith
fini_rings-has_ring cid d (r ∷ rs) = ground (arith, fini_rings-has_ring cid d rs)

find_ring-fini_rings :
    (cid d : ℕ) (rs : List TxRing)
    → d ≢ cid
    → is_some (find_ring d (fini_rings cid rs)) ≡ is_some (find_ring d rs)
unfolding fini_rings find_ring vring_fini_tx
find_ring-fini_rings cid d [] ne = refl
find_ring-fini_rings cid d (r ∷ rs) ne = ground (arith, ne, find_ring-fini_rings cid d rs ne)

pub fini_rings-IsFound :
    (cid d : ℕ) (rs : List TxRing) → IsFound d rs → IsFound d (fini_rings cid rs)
fini_rings-IsFound cid d rs found = elim (eq-cases d cid) [
  | inl e ↦
      let gone : has_ring d (fini_rings cid rs) ≡ false =
        ground (arith, e, fini_rings-has_ring cid d rs) in
      find_ring-has_ring d (fini_rings cid rs) gone ∙ sym gone
  | inr ne ↦
      let kept : has_ring d (fini_rings cid rs) ≡ has_ring d rs =
        ground (arith, ne, fini_rings-has_ring cid d rs) in
      find_ring-fini_rings cid d rs ne ∙ found ∙ sym kept
]
