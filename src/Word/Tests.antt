-- ===== src/Word/Tests.antt =====
-- A packed byte: CID 3, TID 5.
use wigig_wil.Prelude.{◌≡◌, refl}
use wigig_wil.Word.{mk_cidxtid, parse_cidxtid}

packed : mk_cidxtid 3 5 ≡ 83
unfolding mk_cidxtid
packed = refl

parsed : parse_cidxtid 83 ≡ (3, 5)
unfolding parse_cidxtid
parsed = refl
