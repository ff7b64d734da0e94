-- ===== src/Station/Find.antt =====
-- `wil_find_cid` and the stations that have an address.
use wigig_wil.Prelude.{
  ℕ, zero, suc, ◌<◌, ◌≡◌, inl, inr, refl, Bool, true, false, not, ◌&&◌, Option, none, some, List,
  [], ◌∷◌, length, Bool-cases, arith,
}
use wigig_wil.Station.{Sta, sta_at, find_cid, find_cid_from, is_unused, addr_equal}

-- is the station in use, with this address?
abbrev pub is_peer : List ℕ → Sta → Bool
is_peer mac sta = not (is_unused sta.status) && addr_equal sta.addr mac

-- the first peer in the table, or no peer at all
pub data Finds (stas : List Sta) (mac : List ℕ) : Option ℕ → Type 0 where
  absent : ((j : ℕ) → is_peer mac (sta_at stas j) ≡ false) → Finds stas mac none
  first :
      (i : ℕ)
      → i < length stas
      → is_peer mac (sta_at stas i) ≡ true
      → ((j : ℕ) → j < i → is_peer mac (sta_at stas j) ≡ false)
      → Finds stas mac (some i)

shifted : Option ℕ → Option ℕ
shifted none = none
shifted (some i) = some (suc i)

find_cid_from-suc :
    (i : ℕ) (stas : List Sta) (mac : List ℕ)
    → find_cid_from (suc i) stas mac ≡ shifted (find_cid_from i stas mac)
unfolding find_cid_from shifted
find_cid_from-suc i [] mac = refl
find_cid_from-suc i (sta ∷ stas) mac = elim (Bool-cases (is_peer mac sta)) [
  | inl e ↦ rw e refl
  | inr e ↦ rw e (find_cid_from-suc (suc i) stas mac)
]

Finds-next :
    (sta : Sta) (stas : List Sta) (mac : List ℕ) (o : Option ℕ)
    → is_peer mac sta ≡ false
    → Finds stas mac o
    → Finds (sta ∷ stas) mac (shifted o)
unfolding shifted
Finds-next sta stas mac _ e (absent none_of) = absent (λ j.
    elim j as (λ k. is_peer mac (sta_at (sta ∷ stas) k) ≡ false) [ zero ↦ e | suc j' ↦ none_of j' ])
Finds-next sta stas mac _ e (first i lt peer before) = first (suc i) (omega arith) peer (λ j.
    elim j as (λ k. k < suc i → is_peer mac (sta_at (sta ∷ stas) k) ≡ false) [
      | zero ↦ λ lt'. e
      | suc j' ↦ λ lt'. before j' (omega arith)
    ])

-- The result is the index of the first station in use that has the address; there is none if and
-- only if no station in use has it.
pub find_cid-Finds : (stas : List Sta) (mac : List ℕ) → Finds stas mac (find_cid stas mac)
unfolding find_cid find_cid_from
find_cid-Finds [] mac = absent (λ j. refl)
find_cid-Finds (sta ∷ stas) mac = elim (Bool-cases (is_peer mac sta)) [
  | inl e ↦ rw e (first 0 (omega arith) e (λ j lt. absurd (omega arith)))
  | inr e ↦ rw e (
      rw (find_cid_from-suc 0 stas mac)
        (Finds-next sta stas mac (find_cid_from 0 stas mac) e (find_cid-Finds stas mac)))
]
