-- ===== src/Station/Rx.antt =====
-- A received frame, whatever station and session its descriptor names.
use mathlib.Core.Path.{subst}
use wigig_wil.Prelude.{
  ℕ, ◌<◌, ◌≡◌, ◌≢◌, ◌⊎◌, inl, inr, ◌∙◌, refl, sym, ap, ◌≤◌, Option, none, some, List, [], ◌∷◌,
  Option-cases, Outcome, returns, arith,
}
use wigig_wil.Skb.{Skb, rxdesc_cid, rxdesc_tid}
use wigig_wil.Reorder.{Ampdu, RxEvent, netif_rx}
use wigig_wil.Reorder.Order.{IsPlaced, InOrder, moved_by, Delivers, reorder_in_session-Delivers}
use wigig_wil.Reorder.Window.{ahead}
use wigig_wil.Station.{Sta, session, set_session, rx_reorder, max_cid, sta_tid_num}
use wigig_wil.Station.Table.{
  IsTable, session-set_session, session-set_session_ne, set_session-IsTable,
}

pub rxdesc_cid-lt : (skb : Skb) → rxdesc_cid skb.desc < max_cid
unfolding rxdesc_cid
rxdesc_cid-lt skb = omega arith

pub rxdesc_tid-lt : (skb : Skb) → rxdesc_tid skb.desc < sta_tid_num
unfolding rxdesc_tid
rxdesc_tid-lt skb = omega arith

-- What the call leaves: a table in which at most one session differs. Without a session the frame
-- is passed on at once; with one it goes through its window.
pub record Reordered (stas : List Sta) (skb : Skb) (cid tid : ℕ)
    (m : Outcome (List Sta × List RxEvent)) : Type 0 where
  result : List Sta
  out : List RxEvent
  returned : m ≡ returns (result, out)
  table : IsTable result
  others : (c d : ℕ) → (cid ≢ c) ⊎ (tid ≢ d) → session result c d ≡ session stas c d
  direct : session stas cid tid ≡ none → (result ≡ stas) × (out ≡ netif_rx skb ∷ [])
  windowed :
      (r : Ampdu)
      → session stas cid tid ≡ some r
      → (r' : Ampdu) × (session result cid tid ≡ some r')
        × (ahead r.head_seq_num r'.head_seq_num ≤ 2049)
        × Delivers r (ahead r.head_seq_num r'.head_seq_num) (skb ∷ []) (returns (r', out))

-- In a well-formed table any frame is handled: the call returns, it leaves the table well-formed
-- and every other session as it was; without a session the frame is passed on at once. In a session
-- what is passed on is in strictly increasing sequence number between the old head and the new,
-- which is at most 2049 numbers on, and of the frames stored before and the new one each is stored
-- after, passed on or freed, just once.
pub rx_reorder-Reordered :
    (now : ℕ) (stas : List Sta) (skb : Skb)
    → IsTable stas
    → Reordered stas skb (rxdesc_cid skb.desc) (rxdesc_tid skb.desc) (rx_reorder now stas skb)
unfolding rx_reorder
rx_reorder-Reordered now stas skb t =
    let cid = rxdesc_cid skb.desc in
    let tid = rxdesc_tid skb.desc in
    elim (Option-cases (session stas cid tid)) [
      | inl e ↦
          rw (e, rx_reorder)
            (record {
              result = stas;
              out = netif_rx skb ∷ [];
              returned = refl;
              table = t;
              others = λ c d ne. refl;
              direct = λ none. (refl, refl);
              windowed = λ r s. absurd (none≢some (sym e ∙ s));
            })
      | inr (r, e) ↦
          let (few, h) = reorder_in_session-Delivers now r skb (t.placed cid tid r e) in
          let moved = ap (moved_by r) h.returned in
          let stas' = set_session stas cid tid (some h.result) in
          let put =
            session-set_session stas cid tid (some h.result) t (rxdesc_cid-lt skb)
              (rxdesc_tid-lt skb) in
          rw (e, rx_reorder)
            (rw h.returned (record {
              result = stas';
              out = h.out;
              returned = refl;
              table =
                  set_session-IsTable stas cid tid (some h.result) t (rxdesc_cid-lt skb)
                    (rxdesc_tid-lt skb) (λ q s. subst IsPlaced (some-injective s) h.kept);
              others = λ c d ne.
                  session-set_session_ne stas cid tid c d (some h.result) t (rxdesc_cid-lt skb) ne;
              direct = λ n. absurd (none≢some (sym n ∙ e));
              windowed = λ q s.
                  subst
                    (λ z.
                      (r' : Ampdu) × (session stas' cid tid ≡ some r')
                      × (ahead z.head_seq_num r'.head_seq_num ≤ 2049)
                      × Delivers z (ahead z.head_seq_num r'.head_seq_num) (skb ∷ [])
                          (returns (r', h.out)))
                    (some-injective (sym e ∙ s))
                    (
                      h.result,
                      put,
                      omega (arith, few, moved),
                      record {
                        result = h.result;
                        out = h.out;
                        returned = refl;
                        kept = h.kept;
                        head_at = omega (arith, h.head_at, moved);
                        in_order = subst (λ k. InOrder r.head_seq_num 0 k h.out) moved h.in_order;
                        conserved = h.conserved;
                        accounted = h.accounted;
                      },
                    );
            }))
    ]
  where
    none≢some : {r : Ampdu} → ◌≡◌ {A = Option Ampdu} none (some r) → ⊥
    none≢some e = cc

    some-injective : {r q : Ampdu} → ◌≡◌ {A = Option Ampdu} (some r) (some q) → r ≡ q
    some-injective e = cc
