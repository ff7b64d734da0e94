-- ===== src/Station/Held.antt =====
-- The frames that wait in the windows of all stations together.
use mathlib.Core.Path.{subst}
use wigig_wil.Prelude.{
  ℕ, ◌+◌, ◌<◌, ◌≡◌, refl, ap, Option, none, some, Option-cases, inl, inr, List, [], ◌∷◌, length,
  set, sum_by, sum_by-set, Outcome, returns, arith,
}
use wigig_wil.Skb.{Skb, rxdesc_cid, rxdesc_tid}
use wigig_wil.Reorder.{Ampdu, RxEvent, netif_rx}
use wigig_wil.Reorder.Content.{weight_out}
use wigig_wil.Reorder.Order.{IsPlaced, stored_weight, reorder_in_session-Delivers}
use wigig_wil.Station.{Sta, sta_at, no_sta, session, set_session, rx_reorder, max_cid, sta_tid_num}
use wigig_wil.Station.Table.{IsTable, set_session-IsTable}
use wigig_wil.Station.Rx.{rxdesc_cid-lt, rxdesc_tid-lt}

abbrev pub held_of : Option Ampdu → ℕ
held_of none = 0
held_of (some r) = r.stored_mpdu_num

abbrev pub held_by : Sta → ℕ
held_by sta = sum_by held_of sta.tid_rx

abbrev pub held_in : List Sta → ℕ
held_in stas = sum_by held_by stas

-- the same with a weight for each frame
abbrev pub content_of : (Skb → ℕ) → Option Ampdu → ℕ
content_of weight none = 0
content_of weight (some r) = stored_weight weight r

abbrev pub content_in : (Skb → ℕ) → List Sta → ℕ
content_in weight stas = sum_by (λ sta. sum_by (content_of weight) sta.tid_rx) stas

-- what is summed over the sessions changes with the one that is set
sum-set_session :
    (f : Option Ampdu → ℕ) (stas : List Sta) (cid tid : ℕ) (r : Option Ampdu)
    → IsTable stas
    → cid < max_cid
    → tid < sta_tid_num
    → sum_by (λ sta. sum_by f sta.tid_rx) (set_session stas cid tid r) + f (session stas cid tid)
      ≡ sum_by (λ sta. sum_by f sta.tid_rx) stas + f r
unfolding set_session session
sum-set_session f stas cid tid r t c_lt t_lt =
    let sta = sta_at stas cid in
    let new = record sta { tid_rx = set sta.tid_rx tid r } in
    omega (
      arith,
      sum_by-set (λ s. sum_by f s.tid_rx) stas cid new no_sta (omega (arith, t.cids)),
      sum_by-set f sta.tid_rx tid r none (omega (arith, t.tids cid c_lt)),
    )

-- what a received frame leaves: a well-formed table, and one frame more, held or passed on or
-- freed
pub record Accounted (stas : List Sta) (skb : Skb) (m : Outcome (List Sta × List RxEvent))
    : Type 0 where
  pub result : List Sta
  pub out : List RxEvent
  pub returned : m ≡ returns (result, out)
  pub table : IsTable result
  pub conserved : held_in result + length out ≡ held_in stas + 1
  pub accounted :
      (weight : Skb → ℕ)
      → content_in weight result + weight_out weight out ≡ content_in weight stas + weight skb

pub rx_reorder-Accounted :
    (now : ℕ) (stas : List Sta) (skb : Skb)
    → IsTable stas
    → Accounted stas skb (rx_reorder now stas skb)
unfolding rx_reorder
rx_reorder-Accounted now stas skb t =
    let cid = rxdesc_cid skb.desc in
    let tid = rxdesc_tid skb.desc in
    elim (Option-cases (session stas cid tid)) [
      | inl e ↦
          rw (e, rx_reorder)
            (record {
              result = stas;
              out = netif_rx skb ∷ [];
              returned = refl;
              table = t;
              conserved = omega arith;
              accounted = λ weight. omega arith;
            })
      | inr (r, e) ↦
          let h = (reorder_in_session-Delivers now r skb (t.placed cid tid r e)).1 in
          let sum : (f : Option Ampdu → ℕ)
              → sum_by (λ sta. sum_by f sta.tid_rx) (set_session stas cid tid (some h.result))
                  + f (session stas cid tid)
                ≡ sum_by (λ sta. sum_by f sta.tid_rx) stas + f (some h.result) =
            λ f.
              sum-set_session f stas cid tid (some h.result) t (rxdesc_cid-lt skb)
                (rxdesc_tid-lt skb) in
          rw (e, rx_reorder)
            (rw h.returned (record {
              result = set_session stas cid tid (some h.result);
              out = h.out;
              returned = refl;
              table =
                  set_session-IsTable stas cid tid (some h.result) t (rxdesc_cid-lt skb)
                    (rxdesc_tid-lt skb) (λ q s. subst IsPlaced (some-injective s) h.kept);
              conserved = omega (arith, sum held_of, ap held_of e, h.conserved);
              accounted = λ weight.
                  omega
                    (arith, sum (content_of weight), ap (content_of weight) e, h.accounted weight);
            }))
    ]
  where
    some-injective : {r q : Ampdu} → ◌≡◌ {A = Option Ampdu} (some r) (some q) → r ≡ q
    some-injective e = cc
