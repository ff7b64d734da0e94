-- ===== src/Station/Table.antt =====
-- The table of stations: its size, and that every session in it is well-formed.
use mathlib.Core.Path.{subst}
use wigig_wil.Prelude.{
  ℕ, ◌<◌, ◌≡◌, ◌≢◌, ◌⊎◌, inl, inr, ◌∙◌, sym, ap, Option, none, some, List, length, get_or, set,
  length-set, get_or-set_self, get_or-set_ne, eq-cases, arith,
}
use wigig_wil.Reorder.{Ampdu}
use wigig_wil.Reorder.Order.{IsPlaced}
use wigig_wil.Station.{Sta, sta_at, no_sta, session, set_session, max_cid, sta_tid_num}

pub record IsTable (stas : List Sta) : Type 0 where
  pub cids : length stas ≡ max_cid
  pub tids : (cid : ℕ) → cid < max_cid → length (sta_at stas cid).tid_rx ≡ sta_tid_num
  pub placed : (cid tid : ℕ) (r : Ampdu) → session stas cid tid ≡ some r → IsPlaced r

sta_at-set_session :
    (stas : List Sta) (cid tid : ℕ) (r : Option Ampdu)
    → IsTable stas
    → cid < max_cid
    → sta_at (set_session stas cid tid r) cid
      ≡ record (sta_at stas cid) { tid_rx = set (sta_at stas cid).tid_rx tid r }
unfolding set_session
sta_at-set_session stas cid tid r t lt = get_or-set_self stas cid _ no_sta (omega (arith, t.cids))

sta_at-set_session_ne :
    (stas : List Sta) (cid tid c : ℕ) (r : Option Ampdu)
    → cid ≢ c
    → sta_at (set_session stas cid tid r) c ≡ sta_at stas c
unfolding set_session
sta_at-set_session_ne stas cid tid c r ne = get_or-set_ne stas cid c _ no_sta ne

pub session-set_session :
    (stas : List Sta) (cid tid : ℕ) (r : Option Ampdu)
    → IsTable stas
    → cid < max_cid
    → tid < sta_tid_num
    → session (set_session stas cid tid r) cid tid ≡ r
unfolding session
session-set_session stas cid tid r t c_lt t_lt =
    ap (λ s. get_or s.tid_rx tid none) (sta_at-set_session stas cid tid r t c_lt)
    ∙ get_or-set_self (sta_at stas cid).tid_rx tid r none (omega (arith, t.tids cid c_lt))

pub session-set_session_ne :
    (stas : List Sta) (cid tid c d : ℕ) (r : Option Ampdu)
    → IsTable stas
    → cid < max_cid
    → (cid ≢ c) ⊎ (tid ≢ d)
    → session (set_session stas cid tid r) c d ≡ session stas c d
unfolding session
session-set_session_ne stas cid tid c d r t lt (inl ne) =
    ap (λ s. get_or s.tid_rx d none) (sta_at-set_session_ne stas cid tid c r ne)
session-set_session_ne stas cid tid c d r t lt (inr ne) = elim (eq-cases cid c) [
  | inl e ↦
      subst (λ k. session (set_session stas cid tid r) k d ≡ session stas k d) e
        (ap (λ s. get_or s.tid_rx d none) (sta_at-set_session stas cid tid r t lt)
          ∙ get_or-set_ne (sta_at stas cid).tid_rx tid d r none ne)
  | inr off ↦ ap (λ s. get_or s.tid_rx d none) (sta_at-set_session_ne stas cid tid c r off)
]

length-set_session :
    (stas : List Sta) (cid tid : ℕ) (r : Option Ampdu)
    → length (set_session stas cid tid r) ≡ length stas
unfolding set_session
length-set_session stas cid tid r = length-set stas cid _

-- A table stays one when a session is replaced by none or by a well-formed one.
pub set_session-IsTable :
    (stas : List Sta) (cid tid : ℕ) (r : Option Ampdu)
    → IsTable stas
    → cid < max_cid
    → tid < sta_tid_num
    → ((q : Ampdu) → r ≡ some q → IsPlaced q)
    → IsTable (set_session stas cid tid r)
set_session-IsTable stas cid tid r t c_lt t_lt ok = record {
  cids = length-set_session stas cid tid r ∙ t.cids;
  tids = λ c lt. elim (eq-cases cid c) [
    | inl e ↦
        subst (λ k. length (sta_at (set_session stas cid tid r) k).tid_rx ≡ sta_tid_num) e
          (ap (λ s. length s.tid_rx) (sta_at-set_session stas cid tid r t c_lt)
            ∙ length-set (sta_at stas cid).tid_rx tid r
            ∙ t.tids cid c_lt)
    | inr off ↦ ap (λ s. length s.tid_rx) (sta_at-set_session_ne stas cid tid c r off) ∙ t.tids c lt
  ];
  placed = λ c d q e. elim (eq-cases cid c) [
    | inr off ↦
        t.placed c d q (sym (session-set_session_ne stas cid tid c d r t c_lt (inl off)) ∙ e)
    | inl ec ↦ elim (eq-cases tid d) [
      | inr off ↦
          t.placed c d q (sym (session-set_session_ne stas cid tid c d r t c_lt (inr off)) ∙ e)
      | inl ed ↦ ok q (
          sym (session-set_session stas cid tid r t c_lt t_lt)
          ∙ ap (λ k. session (set_session stas cid tid r) k tid) ec
          ∙ ap (session (set_session stas cid tid r) c) ed
          ∙ e)
    ]
  ];
}

pub sta_at-set :
    (stas : List Sta) (cid : ℕ) (sta : Sta)
    → IsTable stas
    → cid < max_cid
    → sta_at (set stas cid sta) cid ≡ sta
sta_at-set stas cid sta t lt = get_or-set_self stas cid sta no_sta (omega (arith, t.cids))

pub sta_at-set_ne :
    (stas : List Sta) (cid c : ℕ) (sta : Sta)
    → cid ≢ c
    → sta_at (set stas cid sta) c ≡ sta_at stas c
sta_at-set_ne stas cid c sta ne = get_or-set_ne stas cid c sta no_sta ne

-- A table stays one when an entry is replaced whose sessions are well-formed.
pub set-IsTable :
    (stas : List Sta) (cid : ℕ) (sta : Sta)
    → IsTable stas
    → cid < max_cid
    → length sta.tid_rx ≡ sta_tid_num
    → ((tid : ℕ) (r : Ampdu) → get_or sta.tid_rx tid none ≡ some r → IsPlaced r)
    → IsTable (set stas cid sta)
unfolding session
set-IsTable stas cid sta t lt len placed = record {
  cids = length-set stas cid sta ∙ t.cids;
  tids = λ c c_lt. elim (eq-cases cid c) [
    | inl e ↦
        subst (λ k. length (sta_at (set stas cid sta) k).tid_rx ≡ sta_tid_num) e
          (ap (λ s. length s.tid_rx) (sta_at-set stas cid sta t lt) ∙ len)
    | inr off ↦ ap (λ s. length s.tid_rx) (sta_at-set_ne stas cid c sta off) ∙ t.tids c c_lt
  ];
  placed = λ c tid r e. elim (eq-cases cid c) [
    | inl same ↦ placed tid r (
        sym (ap (λ s. get_or s.tid_rx tid none) (sta_at-set stas cid sta t lt))
        ∙ ap (λ k. session (set stas cid sta) k tid) same
        ∙ e)
    | inr off ↦
        t.placed c tid r
          (sym (ap (λ s. get_or s.tid_rx tid none) (sta_at-set_ne stas cid c sta off)) ∙ e)
  ];
}
