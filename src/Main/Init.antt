-- ===== src/Main/Init.antt =====
-- main.c: `wil_priv_init` and `wil_priv_deinit`.
use wigig_wil.Prelude.{
  Bool, true, false, not, if◌then◌else◌, none, List, [], ◌∷◌, replicate, Outcome, returns, ◌>>=◌,
}
use wigig_wil.Station.{no_sta, max_cid}
use wigig_wil.Station.Back.{back_flush}
use wigig_wil.Dev.{Dev, Rc, success, eagain}
use wigig_wil.Dev.Disconnect.{disconnect}

-- the work queues
pub data Queue : Type 0 where
  wmi_wq wmi_wq_conn back_wq roc_wq : Queue

-- the queues that `wil_priv_init` leaves, and whether it succeeds; `got` says which it gets
unfoldable pub init_queues : (Queue → Bool) → Bool × List Queue
init_queues got =
    if not (got wmi_wq)
    then (false, [])
    else if not (got wmi_wq_conn)
    then (false, [])
    else if not (got back_wq)
    then (false, [])
    else if not (got roc_wq)
    then (false, back_wq ∷ [])
    else (true, wmi_wq ∷ wmi_wq_conn ∷ back_wq ∷ roc_wq ∷ [])

-- `wil_priv_init`
unfoldable pub priv_init : (Queue → Bool) → Dev → Rc × List Queue × Dev
unfolding init_queues
priv_init got d =
    let (ok, queues) = init_queues got in
    let fresh = record d {
      link = record d.link { stas = replicate max_cid no_sta; pending = none };
      ready = 0;
      pending_ev = [];
      back_pending = [];
    } in
    (if ok then success else eagain, queues, fresh)

-- `wil_priv_deinit`: all queues are destroyed
unfoldable pub priv_deinit : Dev → Outcome (List Queue × Dev)
unfolding disconnect back_flush
priv_deinit d = disconnect d none >>= λ d'.
    returns ([], record d' { pending_ev = []; back_pending = back_flush d'.back_pending })
