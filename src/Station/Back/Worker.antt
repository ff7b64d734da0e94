-- ===== src/Station/Back/Worker.antt =====
-- `wil_back_worker` and the sizes of the windows that requests ask for.
use mathlib.Core.Path.{subst}
use wigig_wil.Prelude.{
  ℕ, zero, suc, ◌/◌, ◌%◌, ◌==◌, ◌<◌, ◌≤◌, ◌≡◌, inl, inr, ◌∙◌, refl, sym, ltb, leb, Bool, true,
  false, not, ◌&&◌, if◌then◌else◌, Option, none, some, List, [], ◌∷◌, ◌++◌, length, Bool-cases,
  returns, arith,
}
use wigig_wil.Word.{parse_cidxtid}
use wigig_wil.Reorder.{Ampdu, RxEvent, tid_ampdu_rx_alloc, tid_ampdu_rx_free}
use wigig_wil.Reorder.Window.{flushed}
use wigig_wil.Reorder.Inv.{view}
use wigig_wil.Reorder.Order.{IsPlaced}
use wigig_wil.Reorder.Session.{fresh, tid_ampdu_rx_alloc-IsPlaced, tid_ampdu_rx_free_lem}
use wigig_wil.Station.{Sta, sta_at, session, set_session, max_cid, is_connected}
use wigig_wil.Station.Table.{IsTable, set_session-IsTable}
use wigig_wil.Station.Back.{Back, Answer, agg_wsize, back_handle, back_worker}

-- the size of the window is 2, 4, 8 or 16, the fields are in the range of their types
abbrev pub is_fair : Back → Bool
is_fair req = leb 2 (agg_wsize req) && (((4096 % agg_wsize req) == 0) && ltb req.ba_seq_ctrl 65536)

-- the session that a request opens when all its allocations succeed
abbrev pub opened : Back → Ampdu
opened req = fresh (agg_wsize req) (req.ba_seq_ctrl / 16)

-- the frames that a session still holds, in order
abbrev pub held : Option Ampdu → List RxEvent
held none = []
held (some r) = flushed r.buf_size (view r)

pub tid_ampdu_rx_free-held :
    (o : Option Ampdu)
    → ((r : Ampdu) → o ≡ some r → IsPlaced r)
    → tid_ampdu_rx_free o ≡ returns (held o)
unfolding tid_ampdu_rx_free
tid_ampdu_rx_free-held none ok = refl
tid_ampdu_rx_free-held (some r) ok = tid_ampdu_rx_free_lem r (ok r refl).valid

agg_wsize-le : (req : Back) → agg_wsize req ≤ 16
unfolding agg_wsize
agg_wsize-le req = ground arith

some-injective : {r q : Ampdu} → ◌≡◌ {A = Option Ampdu} (some r) (some q) → r ≡ q
some-injective e = cc

none≢some : {r : Ampdu} → ◌≡◌ {A = Option Ampdu} none (some r) → ⊥
none≢some e = cc

alloc-IsPlaced :
    (a b c : Bool) (req : Back) (r : Ampdu)
    → is_fair req ≡ true
    → tid_ampdu_rx_alloc a b c (agg_wsize req) (req.ba_seq_ctrl / 16) ≡ some r
    → IsPlaced r
unfolding tid_ampdu_rx_alloc
alloc-IsPlaced false b c req r fair e = absurd (none≢some e)
alloc-IsPlaced true false c req r fair e = absurd (none≢some e)
alloc-IsPlaced true true false req r fair e = absurd (none≢some e)
alloc-IsPlaced true true true req r fair e =
    let h =
      tid_ampdu_rx_alloc-IsPlaced (agg_wsize req) (req.ba_seq_ctrl / 16) (ground (arith, fair))
        (omega (arith, agg_wsize-le req)) (ground (arith, fair)) (ground (arith, fair)) in
    subst IsPlaced (some-injective (sym h.0 ∙ e)) h.1

-- does the worker open a session for the request?
abbrev pub is_accepted : Answer → List Sta → Back → Bool
is_accepted answer stas req =
    let (cid, tid) = parse_cidxtid req.cidxtid in
    not (leb max_cid cid) && (is_connected (sta_at stas cid).status && answer.responded)

-- the table and the frames passed on once a request is handled
abbrev pub handled : Answer → List Sta → Back → List Sta × List RxEvent
handled answer stas req =
    let (cid, tid) = parse_cidxtid req.cidxtid in
    let r =
      tid_ampdu_rx_alloc answer.got_r answer.got_buf answer.got_time (agg_wsize req)
        (req.ba_seq_ctrl / 16) in
    if is_accepted answer stas req
    then (set_session stas cid tid r, held (session stas cid tid))
    else (stas, [])

-- In a well-formed table a request, whatever its parameters, is handled: for a CID in range of a
-- connected station that gets a response, the old session passes on the frames that it holds, in
-- order, and the new one takes its place; any other request changes nothing.
back_handle_lem :
    (answer : Answer) (stas : List Sta) (req : Back)
    → IsTable stas
    → back_handle answer stas req ≡ returns (handled answer stas req)
unfolding back_handle parse_cidxtid
back_handle_lem answer stas req t =
    let (cid, tid) = parse_cidxtid req.cidxtid in
    rw (tid_ampdu_rx_free-held (session stas cid tid) (t.placed cid tid)) (ground arith)

handled-IsTable :
    (answer : Answer) (stas : List Sta) (req : Back)
    → IsTable stas
    → is_fair req ≡ true
    → IsTable (handled answer stas req).0
unfolding parse_cidxtid
handled-IsTable answer stas req t fair = elim (Bool-cases (is_accepted answer stas req)) [
  | inr e ↦ rw e t
  | inl e ↦ rw e (
      set_session-IsTable stas (req.cidxtid % 16) (req.cidxtid / 16 % 16) _ t (ground (arith, e))
        (omega arith)
        (λ q s. alloc-IsPlaced answer.got_r answer.got_buf answer.got_time req q fair s))
]

abbrev pub all_fair : List Back → Bool
all_fair [] = true
all_fair (req ∷ reqs) = is_fair req && all_fair reqs

module _ (answers : ℕ → Answer) where
  -- the requests one after another, with the answer for the `k`th
  unfoldable pub handled_all : ℕ → List Back → List Sta → List Sta × List RxEvent
  handled_all k [] stas = (stas, [])
  handled_all k (req ∷ reqs) stas =
      let p = handled (answers k) stas req in
      let q = handled_all (suc k) reqs p.0 in (q.0, p.1 ++ q.1)

  worker_lem :
      (pending : List Back) (fuel k : ℕ) (stas : List Sta)
      → IsTable stas
      → all_fair pending ≡ true
      → length pending < fuel
      → (back_worker answers fuel k stas pending
          ≡ returns (((handled_all k pending stas).0, []), (handled_all k pending stas).1))
        × IsTable (handled_all k pending stas).0
  unfolding back_worker handled_all
  worker_lem pending zero k stas t fair lt = absurd (omega arith)
  worker_lem [] (suc fuel) k stas t fair lt = (refl, t)
  worker_lem (req ∷ reqs) (suc fuel) k stas t fair lt =
      let t' = handled-IsTable (answers k) stas req t (ground (arith, fair)) in
      let h =
        worker_lem reqs fuel (suc k) (handled (answers k) stas req).0 t' (ground (arith, fair))
          (omega arith) in
      (rw (back_handle_lem (answers k) stas req t) (rw h.0 refl), h.1)

  -- The worker, with fuel for one round more than there are requests, handles all of them in
  -- the order in which they came, leaves none and keeps the table well-formed, if the requests are
  -- fair: each asks for a window of a size that divides 4096 and is at least 2.
  pub back_worker_lem :
      (pending : List Back) (stas : List Sta)
      → IsTable stas
      → all_fair pending ≡ true
      → (back_worker answers (suc (length pending)) 0 stas pending
          ≡ returns (((handled_all 0 pending stas).0, []), (handled_all 0 pending stas).1))
        × IsTable (handled_all 0 pending stas).0
  back_worker_lem pending stas t fair =
      worker_lem pending (suc (length pending)) 0 stas t fair (omega arith)
