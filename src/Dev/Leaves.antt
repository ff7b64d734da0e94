-- ===== src/Dev/Leaves.antt =====
-- The table of stations while stations are disconnected one after another (main.c).
use mathlib.Core.Path.{subst}
use wigig_wil.Prelude.{
  ℕ, ◌<◌, ◌≡◌, ◌≢◌, ◌∙◌, refl, sym, ap, Bool, true, false, ◌||◌, ◌==◌, Option, none, some, get_or,
  replicate, length-replicate, get_or-replicate, Bool-cases, inl, inr, arith,
}
use wigig_wil.Reorder.{Ampdu}
use wigig_wil.Reorder.Order.{IsPlaced}
use wigig_wil.Station.{sta_at, sta_tid_num, max_cid, is_unused}
use wigig_wil.Station.Table.{IsTable, set-IsTable, sta_at-set_ne}
use wigig_wil.Link.{Link}
use wigig_wil.Link.Rings.{has_ring, IsFound, fini_rings-has_ring, fini_rings-IsFound}
use wigig_wil.Link.Connect.{IsDisconnected, cleared, cleared-IsDisconnected}

-- the table is well-formed, and the search finds every ring in use
pub record IsLink (s : Link) : Type 0 where
  pub table : IsTable s.stas
  pub found : (c : ℕ) → IsFound c s.rings

none≢some : {r : Ampdu} → ◌≡◌ {A = Option Ampdu} none (some r) → ⊥
none≢some e = cc

no_sessions-IsPlaced :
    (tid : ℕ) (r : Ampdu) → get_or (replicate sta_tid_num none) tid none ≡ some r → IsPlaced r
no_sessions-IsPlaced tid r e = absurd (none≢some (sym (get_or-replicate sta_tid_num tid none) ∙ e))

-- the table is kept well-formed by a disconnected station
pub cleared-IsLink : (s : Link) (cid : ℕ) → IsLink s → cid < max_cid → IsLink (cleared s cid)
cleared-IsLink s cid h lt = record {
  table =
      set-IsTable s.stas cid _ h.table lt (length-replicate {A = Option Ampdu} sta_tid_num none)
        no_sessions-IsPlaced;
  found = λ c. fini_rings-IsFound cid c s.rings (h.found c);
}

-- The stations of a list are gone, and the others are as before.
pub record Leaves (s s' : Link) (cids : ℕ → Bool) : Type 0 where
  pub link : IsLink s'
  pub gone : (c : ℕ) → c < max_cid → cids c ≡ true → IsDisconnected s' c
  pub others : (c : ℕ) → cids c ≡ false → sta_at s'.stas c ≡ sta_at s.stas c
  pub rings : (c : ℕ) → cids c ≡ false → has_ring c s'.rings ≡ has_ring c s.rings

abbrev pub one : ℕ → ℕ → Bool
one cid c = c == cid

pub cleared-Leaves :
    (s : Link) (cid : ℕ) → IsLink s → cid < max_cid → Leaves s (cleared s cid) (one cid)
cleared-Leaves s cid h lt = record {
  link = cleared-IsLink s cid h lt;
  gone = λ c c_lt e.
      subst (IsDisconnected (cleared s cid)) (same c e)
        (cleared-IsDisconnected s cid (omega (arith, lt, h.table.cids)) h.found);
  others = λ c e. sta_at-set_ne s.stas cid c _ (other c e);
  rings = λ c e. ground (arith, fini_rings-has_ring cid c s.rings, e);
}
  where
    same : (c : ℕ) → (c == cid) ≡ true → cid ≡ c
    same c e = ground (arith, e)

    other : (c : ℕ) → (c == cid) ≡ false → cid ≢ c
    other c e = ground (arith, e)

-- one disconnection after another
pub Leaves-after :
    (s s1 s2 : Link) (p q : ℕ → Bool)
    → Leaves s s1 p
    → Leaves s1 s2 q
    → Leaves s s2 (λ c. p c || q c)
Leaves-after s s1 s2 p q h1 h2 = record {
  link = h2.link;
  gone = λ c lt e. elim (Bool-cases (q c)) [
    | inl now ↦ h2.gone c lt now
    | inr kept ↦
        let before = h1.gone c lt (ground (arith, e, kept)) in
        record {
          unused = ap (λ t. is_unused t.status) (h2.others c kept) ∙ before.unused;
          sessions = ap (λ t. t.tid_rx) (h2.others c kept) ∙ before.sessions;
          alone = h2.rings c kept ∙ before.alone;
          found = h2.link.found;
        }
  ];
  others = λ c e. h2.others c (ground (arith, e)) ∙ h1.others c (ground (arith, e));
  rings = λ c e. h2.rings c (ground (arith, e)) ∙ h1.rings c (ground (arith, e));
}

pub Leaves-none : (s : Link) → IsLink s → Leaves s s (λ _. false)
Leaves-none s h = record {
  link = h;
  gone = λ c lt e. absurd (ne e);
  others = λ c e. refl;
  rings = λ c e. refl;
}
  where
    ne : false ≡ true → ⊥
    ne e = cc
