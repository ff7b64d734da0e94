-- ===== src/Main/Downs.antt =====
-- `wil_down` (main.c).
use wigig_wil.Prelude.{
  ◌≡◌, ◌∙◌, refl, sym, ap, false, Option, none, some, List, [], Option-cases, inl, inr, arith,
  returns, ◌>>=◌,
}
use wigig_wil.Vring.{Vring}
use wigig_wil.Vring.Refill.{IsRing}
use wigig_wil.Vring.Setup.{FreeOp, rx_fini, length-free_rx}
use wigig_wil.Dev.{Dev, freed, tell}
use wigig_wil.Main.{abort_scan, down}
use wigig_wil.Main.Resets.{cut, cut-Kept}

-- what `wil_down` leaves
pub record Downed (d d' : Dev) : Type 0 where
  pub napi : d'.napi ≡ false
  pub rx_ring : d'.rx_ring ≡ none
  pub scan_request : d'.scan_request ≡ none
  pub stations : d'.link ≡ d.link

-- the device when its stations are to be disconnected
abbrev quiet : Dev → Dev
quiet d = abort_scan (record d { napi = false })

abort_scan-quiet :
    (d : Dev)
    → ((quiet d).link ≡ d.link)
      × ((quiet d).napi ≡ false)
      × ((quiet d).rx_ring ≡ d.rx_ring)
      × ((quiet d).scan_request ≡ none)
unfolding abort_scan
abort_scan-quiet d = elim (Option-cases d.scan_request) [
  | inl e ↦ rw (e, abort_scan) (refl, refl, refl, e)
  | inr (r, e) ↦ rw (e, abort_scan) (refl, refl, refl, refl)
]

rx_fini-returns :
    (o : Option Vring)
    → ((v : Vring) → o ≡ some v → IsRing v)
    → (ops : List FreeOp) × (rx_fini o ≡ returns ops)
unfolding rx_fini
rx_fini-returns none ok = ([], refl)
rx_fini-returns (some v) ok =
    let ring = ok v refl in
    let r =
      length-free_rx v.size v ring.tail_lt ring.head_lt
        (ground (arith, ring.tail_lt, ring.head_lt)) in
    (r.0, r.1)

-- Whatever runs, with an Rx ring that is well-formed if there is one, `wil_down` returns: polling
-- is off, the ring is gone and no scan waits; but every station, with its sessions and its Tx ring,
-- stays as it was.
pub down_lem :
    (d : Dev)
    → ((v : Vring) → d.rx_ring ≡ some v → IsRing v)
    → (d' : Dev) × (down d ≡ returns d') × Downed d d'
unfolding down
down_lem d ok =
    let q = abort_scan-quiet d in
    let k = cut-Kept (quiet d) in
    let ring : (cut (quiet d)).rx_ring ≡ d.rx_ring = k.rx_ring ∙ q.2 in
    let r = rx_fini-returns (cut (quiet d)).rx_ring (λ v e. ok v (sym ring ∙ e)) in
    (
      record (tell (freed r.0) (cut (quiet d))) { rx_ring = none },
      ap (λ o. o >>= λ ops. returns (record (tell (freed ops) (cut (quiet d))) { rx_ring = none }))
          r.1,
      record {
        napi = k.napi ∙ q.1;
        rx_ring = refl;
        scan_request = k.scan_request ∙ q.3;
        stations = k.link ∙ q.0;
      },
    )
