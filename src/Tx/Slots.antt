-- ===== src/Tx/Slots.antt =====
-- The slots of a Tx ring from the head on, what a descriptor says of its mapping, and the mappings
-- in a log.
use wigig_wil.Prelude.{
  ℕ, zero, suc, ◌+◌, ◌%◌, ◌^◌, ◌≡◌, ◌≢◌, ◌<◌, ◌≤◌, ◌∙◌, refl, ap, Bool, ◌&&◌, ◌||◌, Bool-cases, inl,
  inr, Option, none, List, [], ◌∷◌, get_or, set, get_or-set_ne, arith,
}
use wigig_wil.Vring.Refill.{mod_once}
use wigig_wil.Tx.Desc.{TxDesc, TxSkb, desc_map, offload_setup, is_ip4, is_ip6}
use wigig_wil.Tx.Send.{
  TxVring, TxOp, map_single, map_page, unmap_single, unmap_page, doorbell, zero_ip_len, stop_queues,
  wake_queues, no_tx_desc, tx_slot, desc_pa, segment_desc,
}

-- a mapping as it fits in a descriptor: 48 bits of address and 16 of length
abbrev pub in_desc : ℕ × ℕ → ℕ × ℕ
in_desc (pa, len) = (pa % 2 ^ 48, len % 2 ^ 16)

abbrev pub said : TxDesc → ℕ × ℕ
said d = (desc_pa d, d.length)

-- what the `k` slots from the head on say, the latest first
abbrev pub posted : TxVring → ℕ → List (ℕ × ℕ)
posted v zero = []
posted v (suc k) = said (get_or v.va (tx_slot v k) no_tx_desc) ∷ posted v k

-- the mappings and the releases in a log, the latest first
abbrev pub mapped : List TxOp → List (ℕ × ℕ)
mapped [] = []
mapped (map_single m ∷ log) = in_desc m ∷ mapped log
mapped (map_page m ∷ log) = in_desc m ∷ mapped log
mapped (unmap_single _ ∷ log) = mapped log
mapped (unmap_page _ ∷ log) = mapped log
mapped (doorbell _ ∷ log) = mapped log
mapped (zero_ip_len _ ∷ log) = mapped log
mapped (stop_queues ∷ log) = mapped log
mapped (wake_queues ∷ log) = mapped log

abbrev pub unmapped : List TxOp → List (ℕ × ℕ)
unmapped [] = []
unmapped (map_single _ ∷ log) = unmapped log
unmapped (map_page _ ∷ log) = unmapped log
unmapped (unmap_single m ∷ log) = m ∷ unmapped log
unmapped (unmap_page m ∷ log) = m ∷ unmapped log
unmapped (doorbell _ ∷ log) = unmapped log
unmapped (zero_ip_len _ ∷ log) = unmapped log
unmapped (stop_queues ∷ log) = unmapped log
unmapped (wake_queues ∷ log) = unmapped log

-- `xs`, first to last, put before `ys`
abbrev pub rev_onto {ℓ} : {A : Type ℓ} → List A → List A → List A
rev_onto [] ys = ys
rev_onto (x ∷ xs) ys = rev_onto xs (x ∷ ys)

pub tx_slot-lt : (v : TxVring) (j : ℕ) → v.swhead < v.size → j < v.size → tx_slot v j < v.size
tx_slot-lt v j h lt = ground (arith, mod_once (v.swhead + j) v.size (omega arith))

pub tx_slot-ne :
    (v : TxVring) (j k : ℕ) → v.swhead < v.size → j < k → k < v.size → tx_slot v k ≢ tx_slot v j
tx_slot-ne v j k h lt k_lt e = ground (
  arith,
  e,
  mod_once (v.swhead + j) v.size (omega arith),
  mod_once (v.swhead + k) v.size (omega arith),
)

desc_pa-desc_map : (pa len n : ℕ) → desc_pa (desc_map pa len n) ≡ pa % 2 ^ 48
unfolding desc_map
desc_pa-desc_map pa len n = omega arith

pub offload_setup_lem :
    (d : TxDesc) (f : TxSkb) (tso : Option ℕ)
    → let e = offload_setup d f tso in (said e ≡ said d) × (e.status ≡ d.status)
unfolding offload_setup
offload_setup_lem d f tso = elim (Bool-cases (is_ip4 f || is_ip6 f)) [
  | inl e ↦ rw e (refl, refl)
  | inr e ↦ rw e (refl, refl)
]

module _ (hw_csum : Bool) (n : ℕ) (f : TxSkb) (dma : ℕ → Option ℕ) where
  pub segment_desc_lem :
      (pa len : ℕ)
      → let d = segment_desc hw_csum n f dma pa len in (said d ≡ in_desc (pa, len)) × (d.status ≡ 0)
  unfolding segment_desc desc_map
  segment_desc_lem pa len =
      let plain = ap (λ a. (a, len % 2 ^ 16)) (desc_pa-desc_map pa len n) in
      let setup = offload_setup_lem (desc_map pa len n) f none in
      elim (Bool-cases (f.csum_partial && hw_csum)) [
        | inl e ↦ rw e (setup.0 ∙ plain, setup.1)
        | inr e ↦ rw e (plain, refl)
      ]

-- a write that keeps what `g` reads of a descriptor keeps it of them all
pub read-set {ℓ} :
    {B : Type ℓ} (g : TxDesc → B) (va : List TxDesc) (i j : ℕ) (d : TxDesc)
    → g d ≡ g (get_or va i no_tx_desc)
    → g (get_or (set va i d) j no_tx_desc) ≡ g (get_or va j no_tx_desc)
read-set g [] i j d e = refl
read-set g (x ∷ va) zero zero d e = e
read-set g (x ∷ va) zero (suc j) d e = refl
read-set g (x ∷ va) (suc i) zero d e = refl
read-set g (x ∷ va) (suc i) (suc j) d e = read-set g va i j d e

pub posted-said :
    (v : TxVring) (i k : ℕ) (d : TxDesc)
    → said d ≡ said (get_or v.va i no_tx_desc)
    → posted (record v { va = set v.va i d }) k ≡ posted v k
posted-said v i zero d e = refl
posted-said v i (suc k) d e =
    rw (read-set (λ x. said x) v.va i (tx_slot v k) d e)
      (ap (λ xs. said (get_or v.va (tx_slot v k) no_tx_desc) ∷ xs) (posted-said v i k d e))

-- a write from slot `m` on leaves what the slots before it say
pub posted-set :
    (v : TxVring) (k m : ℕ) (d : TxDesc) (ctx : List (Option ℕ))
    → v.swhead < v.size
    → k ≤ m
    → m < v.size
    → posted (record v { va = set v.va (tx_slot v m) d; ctx = ctx }) k ≡ posted v k
posted-set v zero m d ctx h le lt = refl
posted-set v (suc k) m d ctx h le lt =
    let apart = tx_slot-ne v k m h (omega arith) lt in
    rw (get_or-set_ne v.va (tx_slot v m) (tx_slot v k) d no_tx_desc apart) (
      ap (λ xs. said (get_or v.va (tx_slot v k) no_tx_desc) ∷ xs)
        (posted-set v k m d ctx h (omega arith) lt))
