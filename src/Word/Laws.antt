-- ===== src/Word/Laws.antt =====
-- The packed `cidxtid` byte and the bit fields of wil6210.h.
use wigig_wil.Prelude.{ℕ, ◌<◌, ◌≡◌, arith}
use wigig_wil.Word.{mk_cidxtid, parse_cidxtid}

-- For every CID and TID below 16, `parse_cidxtid` recovers the pair that `mk_cidxtid` packed, and
-- the packed value fits a byte.
parse_cidxtid-mk_cidxtid :
    (cid tid : ℕ)
    → cid < 16
    → tid < 16
    → (parse_cidxtid (mk_cidxtid cid tid) ≡ (cid, tid)) × (mk_cidxtid cid tid < 256)
unfolding parse_cidxtid mk_cidxtid
parse_cidxtid-mk_cidxtid cid tid h k = (ground arith, omega arith)

-- Packing what `parse_cidxtid` read from a byte gives the byte back.
mk_cidxtid-parse_cidxtid :
    (b : ℕ) → b < 256 → mk_cidxtid (parse_cidxtid b).0 (parse_cidxtid b).1 ≡ b
unfolding parse_cidxtid mk_cidxtid
mk_cidxtid-parse_cidxtid b h = omega arith
