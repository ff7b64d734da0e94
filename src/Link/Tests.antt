-- ===== src/Link/Tests.antt =====
-- Stations 0 and 1 have had rings; ring 0 is free and keeps its CID. Station 2 connects.
use wigig_wil.Prelude.{ℕ, ◌≡◌, refl, true, false, some, List, [], ◌∷◌, arith}
use wigig_wil.Station.Tests.{stas}
use wigig_wil.Link.{TxRing, find_free_vring, find_ring, Link, connect_worker}
use wigig_wil.Link.Rings.{IsFound}
use wigig_wil.Link.Connect.{IsConnected, connect_worker_lem}

abbrev pub rings : List TxRing
rings =
    (record { active = false; cid = 0; tid = 0 })
    ∷ (record { active = true; cid = 1; tid = 0 })
    ∷ (record { active = false; cid = 0; tid = 0 })
    ∷ []

pub rings-IsFound : (d : ℕ) → IsFound d rings
unfolding find_ring
rings-IsFound d = ground arith

pub free_at : find_free_vring rings ≡ some 0
unfolding find_free_vring
free_at = refl

abbrev pub link : Link
link = record { stas = stas; rings = rings; pending = some 2; tid_to_use = 0 }

connect_worker_lem_example :
    (s' : Link) × (connect_worker true true link ≡ some s') × IsConnected s' 2 true
connect_worker_lem_example =
    connect_worker_lem true true link 2 0 refl free_at (omega arith) refl rings-IsFound
