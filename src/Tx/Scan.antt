-- ===== src/Tx/Scan.antt =====
-- The slots of a Tx ring by their offset from the tail, and the first loop of `wil_tx_complete`.
use wigig_wil.Prelude.{
  ℕ, zero, suc, ◌+◌, ◌-◌, ◌%◌, ◌≡◌, ◌≢◌, ◌<◌, ◌≤◌, ◌∙◌, refl, sym, ap, leb, Bool, true, false,
  if◌then◌else◌, ne→==, returns, arith,
}
use wigig_wil.Vring.Refill.{mod_once}
use wigig_wil.Tx.Send.{TxVring}
use wigig_wil.Tx.Fill.{IsTxVring}
use wigig_wil.Tx.Complete.{is_done, find_done}

-- the `j`th slot from the tail on, and how many are posted
abbrev pub done_slot : TxVring → ℕ → ℕ
done_slot v j = (v.swtail + j) % v.size

abbrev pub used_tx : TxVring → ℕ
used_tx v = if leb v.swtail v.swhead then v.swhead - v.swtail else v.swhead + v.size - v.swtail

pub done_slot-next :
    (v : TxVring) (j : ℕ)
    → v.swtail < v.size
    → j < v.size
    → (done_slot v j + 1) % v.size ≡ done_slot v (suc j)
done_slot-next v j t lt =
    let a = mod_once (v.swtail + j) v.size (omega arith) in
    let b = mod_once (v.swtail + suc j) v.size (omega arith) in
    let at_lt : done_slot v j < v.size = ground (arith, a) in
    let c = mod_once (done_slot v j + 1) v.size (omega (arith, at_lt)) in ground (arith, a, b, c)

pub done_slot-lt : (v : TxVring) (j : ℕ) → v.swtail < v.size → j < v.size → done_slot v j < v.size
done_slot-lt v j t lt = ground (arith, mod_once (v.swtail + j) v.size (omega arith))

pub done_slot-ne :
    (v : TxVring) (j k : ℕ) → v.swtail < v.size → j < k → k < v.size → done_slot v j ≢ done_slot v k
done_slot-ne v j k t lt k_lt e = ground (
  arith,
  e,
  mod_once (v.swtail + j) v.size (omega arith),
  mod_once (v.swtail + k) v.size (omega arith),
)

pub done_slot-used : (v : TxVring) → IsTxVring v → done_slot v (used_tx v) ≡ v.swhead
done_slot-used v h = ground (
  arith,
  mod_once (v.swtail + used_tx v) v.size (ground (arith, h.tail_lt, h.head_lt)),
  h.tail_lt,
  h.head_lt,
)

pub used_tx-lt : (v : TxVring) → IsTxVring v → used_tx v < v.size
used_tx-lt v h = ground (arith, h.tail_lt, h.head_lt)

-- the last of the `m` slots from the `j`th on that the card has finished, `k` if there is none
abbrev pub last_done : TxVring → ℕ → ℕ → ℕ → ℕ
last_done v zero j k = k
last_done v (suc m) j k = last_done v m (suc j) (if is_done v (done_slot v j) then j else k)

pub last_done-le : (v : TxVring) (m j k : ℕ) → k ≤ j → last_done v m j k ≤ j + m
last_done-le v zero j k le = omega arith
last_done-le v (suc m) j k le =
    let next : ℕ = if is_done v (done_slot v j) then j else k in
    let next_le : next ≤ suc j = ground arith in
    omega (arith, last_done-le v m (suc j) next next_le)

-- The first loop finds that slot.
pub find_done_lem :
    (fuel : ℕ) (v : TxVring) (m j k : ℕ)
    → IsTxVring v
    → j + m ≡ used_tx v
    → m < fuel
    → find_done fuel v (done_slot v j) (done_slot v k) ≡ returns (done_slot v (last_done v m j k))
unfolding find_done
find_done_lem zero v m j k h e lt = absurd (omega (arith, lt))
find_done_lem (suc fuel) v zero j k h e lt =
    let at_head : done_slot v j ≡ v.swhead =
      ap (λ x. done_slot v x) (omega (arith, e)) ∙ done_slot-used v h in
    rw (at_head, find_done) (ground arith)
find_done_lem (suc fuel) v (suc m) j k h e lt =
    let below : j < used_tx v = omega (arith, e) in
    let used_lt = used_tx-lt v h in
    let apart : done_slot v j ≢ v.swhead =
      λ eq. done_slot-ne v j (used_tx v) h.tail_lt below used_lt (eq ∙ sym (done_slot-used v h)) in
    let next = done_slot-next v j h.tail_lt (omega (arith, below, used_lt)) in
    let rest =
      find_done_lem fuel v m (suc j) (if is_done v (done_slot v j) then j else k) h
        (omega (arith, e)) (omega (arith, lt)) in
    let b = is_done v (done_slot v j) in
    rw (ne→== (done_slot v j) v.swhead apart) (
      ap (λ i. find_done fuel v i (if b then done_slot v j else done_slot v k)) next
      ∙ ap (λ i. find_done fuel v (done_slot v (suc j)) i) (pick b)
      ∙ rest)
  where
    pick :
        (b : Bool) → (if b then done_slot v j else done_slot v k) ≡ done_slot v (if b then j else k)
    pick true = refl
    pick false = refl
