-- ===== src/Tx/Pieces.antt =====
-- The loop of `wil_tx_vring_tso` over a fragment.
use mathlib.Core.Path.{subst}
use wigig_wil.Prelude.{
  ℕ, zero, suc, ◌+◌, ◌-◌, ◌*◌, ◌≡◌, ◌≤◌, ◌⊎◌, inl, inr, ◌∙◌, refl, sym, ap, Bool, true, false,
  if◌then◌else◌, Option-cases, eq-cases, eq→==, ne→==, Option, none, Outcome, returns, arith,
}
use wigig_wil.Tx.Desc.{TxSkb}
use wigig_wil.Tx.Send.{map_page, TxPath}
use wigig_wil.Tx.Tso.{left, Tso, min_len, end_chunk, tso_piece, tso_frag}
use wigig_wil.Tx.Holds.{Edited-Holds, Holds, end_chunk-Edited, post_tso-Holds}

module _ (vring_index : ℕ) (f : TxSkb) (dma : ℕ → Option ℕ) where
  -- the loop with `sent` bytes mapped, and `room` left in the payload
  pub record Loop (avail sent room : ℕ) (s0 : TxPath) (t : Tso) : Type 0 where
    pub holds : Holds f.skb t.used sent s0 t.path
    pub used_pos : 1 ≤ t.used
    pub used_le : t.used ≤ avail
    pub rem_lem : t.rem ≡ left room
    pub room_le : room ≤ f.gso_size

  -- a piece of a fragment: mapped, or nothing done
  tso_piece-lem :
      (avail n sent room next : ℕ) (s0 : TxPath) (t : Tso)
      → Loop avail sent room s0 t
      → next ≤ f.gso_size
      → let p = tso_piece vring_index f dma avail n n (left next) t in
        ((p.0 ≡ true) × Loop avail (sent + n) next s0 p.1 × (p.1.used ≡ t.used + 1))
        ⊎ ((p.0 ≡ false) × (p.1 ≡ t))
  unfolding tso_piece
  tso_piece-lem avail n sent room next s0 t h le = elim (eq-cases t.used avail) [
    | inl e ↦ rw (eq→== t.used avail e, tso_piece) (inr (refl, refl))
    | inr ne ↦ elim (Option-cases (dma t.used)) [
      | inl e ↦ rw (ne→== t.used avail ne, tso_piece) (rw e (inr (refl, refl)))
      | inr (pa, e) ↦
          let type : ℕ = if t.has_data then 2 else 1 in
          let more =
            post_tso-Holds vring_index f dma pa n type (map_page (pa, n)) n sent s0 t h.holds
              refl in
          rw (ne→== t.used avail ne, tso_piece)
            (rw e (
              inl (
                refl,
                record {
                  holds = more;
                  used_pos = omega arith;
                  used_le = omega (arith, h.used_le, ne);
                  rem_lem = refl;
                  room_le = le;
                },
                refl,
              )))
    ]
  ]

  -- how a loop over fragments ends: with `sent` bytes mapped, or broken off
  abbrev pub Fine : ℕ → ℕ → TxPath → Bool × Tso → Type 0
  Fine avail sent s0 p =
      ((p.0 ≡ true) × ((room : ℕ) × Loop avail sent room s0 p.1))
      ⊎ ((p.0 ≡ false) × ((x : ℕ) × Holds f.skb p.1.used x s0 p.1.path))

  pub record Runs (avail sent : ℕ) (s0 : TxPath) (m : Outcome (Bool × Tso)) : Type 0 where
    pub result : Bool × Tso
    pub returned : m ≡ returns result
    pub fine : Fine avail sent s0 result

  -- one round more before a payload that is full is completed
  abbrev pub lag : ℕ → ℕ
  lag zero = 1
  lag (suc _) = 0

  pub lag-le : (room : ℕ) → lag room ≤ 1
  lag-le zero = omega arith
  lag-le (suc _) = omega arith

  lag-pos : {room : ℕ} → 1 ≤ room → lag room ≡ 0
  lag-pos {room = zero} h = absurd (omega (arith, h))
  lag-pos {room = suc _} h = refl

  -- the two rounds of the loop without a negative rest
  tso_frag-full :
      (fuel avail len1 : ℕ) (t : Tso)
      → t.rem ≡ left 0
      → tso_frag vring_index f dma (suc fuel) avail (suc len1) t
        ≡ tso_frag vring_index f dma fuel avail (suc len1) (record t {
          path = end_chunk vring_index f dma t;
          rem = left f.gso_size;
          sg = none;
          sg_cnt = 0;
          first_chunk = 0;
        })
  unfolding tso_frag
  tso_frag-full fuel avail len1 t e = simp (e, tso_frag) refl

  tso_frag-piece :
      (fuel avail len1 r1 : ℕ) (t : Tso)
      → t.rem ≡ left (suc r1)
      → let n = min_len (suc len1) (suc r1) in
        let p = tso_piece vring_index f dma avail n n (left (suc r1 - n)) t in
        tso_frag vring_index f dma (suc fuel) avail (suc len1) t ≡ (
          if p.0
          then tso_frag vring_index f dma fuel avail (suc len1 - n) p.1
          else returns (false, p.1))
  unfolding tso_frag
  tso_frag-piece fuel avail len1 r1 t e = simp (e, tso_frag) refl

  pub tso_frag-Runs :
      (fuel avail len sent room : ℕ) (s0 : TxPath) (t : Tso)
      → Loop avail sent room s0 t
      → 1 ≤ f.gso_size
      → 2 * (avail - t.used) + lag room + 1 ≤ fuel
      → Runs avail (sent + len) s0 (tso_frag vring_index f dma fuel avail len t)
  unfolding tso_frag
  tso_frag-Runs zero avail len sent room s0 t h pos le = absurd (omega (arith, le))
  tso_frag-Runs (suc fuel) avail zero sent room s0 t h pos le = record {
    result = (true, t);
    returned = refl;
    fine = inl (refl, (room, subst (λ x. Loop avail x room s0 t) (omega arith) h));
  }
  tso_frag-Runs (suc fuel) avail (suc len1) sent zero s0 t h pos le =
      let t1 : Tso = record t {
        path = end_chunk vring_index f dma t;
        rem = left f.gso_size;
        sg = none;
        sg_cnt = 0;
        first_chunk = 0;
      } in
      let h1 : Loop avail sent f.gso_size s0 t1 = record {
        holds =
            Edited-Holds f.skb t.used sent s0 t.path (end_chunk vring_index f dma t) h.holds
              (end_chunk-Edited vring_index f dma t);
        used_pos = h.used_pos;
        used_le = h.used_le;
        rem_lem = refl;
        room_le = omega arith;
      } in
      let rest =
        tso_frag-Runs fuel avail (suc len1) sent f.gso_size s0 t1 h1 pos
          (omega (arith, le, lag-pos pos)) in
      record {
        result = rest.result;
        returned = tso_frag-full fuel avail len1 t h.rem_lem ∙ rest.returned;
        fine = rest.fine;
      }
  tso_frag-Runs (suc fuel) avail (suc len1) sent (suc r1) s0 t h pos le =
      let len = suc len1 in
      let n = min_len len (suc r1) in
      let n_le : n ≤ len = ground arith in
      let p = tso_piece vring_index f dma avail n n (left (suc r1 - n)) t in
      let go = tso_frag vring_index f dma fuel avail (len - n) p.1 in
      elim (tso_piece-lem avail n sent (suc r1) (suc r1 - n) s0 t h (omega (arith, h.room_le))) [
        | inl (ok, h1, more) ↦
            let used_le = h1.used_le in
            let rest =
              tso_frag-Runs fuel avail (len - n) (sent + n) (suc r1 - n) s0 p.1 h1 pos
                (omega (arith, le, more, used_le, lag-le (suc r1 - n))) in
            subst (λ x. Runs avail x s0 (tso_frag vring_index f dma (suc fuel) avail len t))
              (omega (arith, n_le))
              (record {
                result = rest.result;
                returned =
                    tso_frag-piece fuel avail len1 r1 t h.rem_lem
                    ∙ ap (λ b. if b then go else returns (false, p.1)) ok
                    ∙ rest.returned;
                fine = rest.fine;
              })
        | inr (bad, same) ↦ record {
          result = (false, p.1);
          returned =
              tso_frag-piece fuel avail len1 r1 t h.rem_lem
              ∙ ap (λ b. if b then go else returns (false, p.1)) bad;
          fine =
              inr (refl, (sent, subst (λ x. Holds f.skb x.used sent s0 x.path) (sym same) h.holds));
        }
      ]
