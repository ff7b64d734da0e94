-- ===== src/Wmi/Events.antt =====
-- wmi.c: the pending events and `wmi_call`. A call of a handler is logged with its arguments, the
-- oldest first; what the handlers do is not part of this file. `done` counts the calls of
-- `complete(&wil->wmi_ready)` by `wmi_event_handle`.
pub mod Replies
use wigig_wil.Prelude.{
  ℕ, zero, suc, ◌+◌, ◌-◌, ◌*◌, ◌==◌, leb, ltb, Bool, true, false, not, ◌&&◌, if◌then◌else◌, Option,
  none, some, List, [], ◌∷◌, ◌++◌, get_or, take, drop, Outcome, returns, out_of_fuel,
}
use wigig_wil.Wmi.Send.{SendCode, sent_ok}
use wigig_wil.Wmi.Recv.{Event}

pub data Handler : Type 0 where
  evt_ready evt_fw_ready evt_rx_mgmt evt_scan_complete evt_connect evt_disconnect : Handler
  evt_notify evt_eapol_rx evt_linkup evt_linkdown evt_ba_status evt_rcp_addba_req : Handler

-- `wmi_evt_handlers`
abbrev pub evt_handlers : List (ℕ × Handler)
evt_handlers =
    (0x1001, evt_ready)
    ∷ (0x1801, evt_fw_ready)
    ∷ (0x1840, evt_rx_mgmt)
    ∷ (0x100a, evt_scan_complete)
    ∷ (0x1002, evt_connect)
    ∷ (0x1003, evt_disconnect)
    ∷ (0x1863, evt_notify)
    ∷ (0x9002, evt_eapol_rx)
    ∷ (0x1860, evt_linkup)
    ∷ (0x1861, evt_linkdown)
    ∷ (0x1823, evt_ba_status)
    ∷ (0x1824, evt_rcp_addba_req)
    ∷ []

pub record HandlerCall : Type 0 where
  pub handler : Handler
  pub id : ℕ
  pub payload : List ℕ
  pub len : ℕ

pub record Waiter : Type 0 where
  pub reply_id : ℕ
  pub reply_buf : Option (List ℕ)
  pub reply_size : ℕ
  pub done : ℕ
  pub pending : List Event
  pub calls : List HandlerCall

unfoldable pub find_handler : List (ℕ × Handler) → ℕ → Option Handler
find_handler [] id = none
find_handler ((eventid, handler) ∷ rest) id =
    if eventid == id then some handler else find_handler rest id

-- `wmi_evt_call_handler`
unfoldable pub evt_call_handler : ℕ → List ℕ → ℕ → Waiter → Bool × Waiter
unfolding find_handler
evt_call_handler id d len w = elim (find_handler evt_handlers id) [
  | none ↦ (false, w)
  | some h ↦ (
    true,
    record w {
      calls = w.calls ++ ((record { handler = h; id = id; payload = d; len = len }) ∷ []);
    },
  )
]

-- `memcpy(dst, src, n)`: a copy past the end of `dst` shows as a longer `dst`
abbrev pub memcpy : List ℕ → List ℕ → ℕ → List ℕ
memcpy dst src n = take n src ++ drop n dst

abbrev pub min : ℕ → ℕ → ℕ
min a b = if ltb a b then a else b

-- the little-endian `id` of the WMI header that the body begins with
abbrev pub event_id : Event → ℕ
event_id evt = get_or evt.body 2 0 + 256 * get_or evt.body 3 0

abbrev pub is_wmi : Event → Bool
is_wmi evt = (evt.hdr.kind == 0) && leb 8 evt.hdr.len

-- does the event answer the call that waits for `reply_id`?
abbrev pub answers : ℕ → Event → Bool
answers reply_id evt = not (reply_id == 0) && (reply_id == event_id evt)

unfoldable pub wmi_event_handle : Event → Waiter → Waiter
unfolding evt_call_handler
wmi_event_handle evt w =
    let unsolicited = (evt_call_handler (event_id evt) (drop 8 evt.body) (evt.hdr.len - 8) w).1 in
    let solicited : Waiter = elim w.reply_buf [
      | some buf ↦ record w {
        reply_buf = some (memcpy buf evt.body (min evt.hdr.len w.reply_size));
      }
      | none ↦ unsolicited
    ] in
    if is_wmi evt
    then if answers w.reply_id evt
      then record solicited { done = solicited.done + 1 }
      else unsolicited
    else w

-- `next_wmi_ev`
unfoldable pub next_wmi_ev : Waiter → Option (Event × Waiter)
next_wmi_ev w = elim w.pending [ [] ↦ none | evt ∷ rest ↦ some (evt, record w { pending = rest }) ]

unfoldable pub wmi_event_worker : ℕ → Waiter → Outcome Waiter
unfolding next_wmi_ev wmi_event_handle
wmi_event_worker zero w = out_of_fuel
wmi_event_worker (suc fuel) w = elim (next_wmi_ev w) [
  | none ↦ returns w
  | some p ↦ wmi_event_worker fuel (wmi_event_handle p.0 p.1)
]

unfoldable pub wmi_event_flush : Waiter → Waiter
wmi_event_flush w = record w { pending = [] }

-- the events that the worker handles one after another
abbrev pub handle_all : List Event → Waiter → Waiter
handle_all [] w = w
handle_all (evt ∷ evts) w = handle_all evts (wmi_event_handle evt w)

pub data CallCode : Type 0 where
  call_ok call_etime : CallCode
  call_send : SendCode → CallCode

abbrev is_sent : SendCode → Bool
is_sent sent_ok = true
is_sent _ = false

-- `wmi_call`: `sent` is the result of `__wmi_send`, `evts` are the events that the worker handles
-- while the call waits. `wait_for_completion_timeout` takes one of the completions that are there
-- at its end, by these events or left over from before, and gives 0 if there are none. The second
-- result is what the caller finds in its buffer.
unfoldable pub wmi_call :
    SendCode → List Event → ℕ → Option (List ℕ) → ℕ → Waiter → CallCode × Option (List ℕ) × Waiter
wmi_call sent evts reply_id reply reply_size w =
    let w1 = record w { reply_id = reply_id; reply_buf = reply; reply_size = reply_size } in
    let w2 = handle_all evts w1 in
    let rc = if w2.done == 0 then call_etime else call_ok in
    if is_sent sent
    then (
      rc,
      w2.reply_buf,
      record w2 { reply_id = 0; reply_buf = none; reply_size = 0; done = w2.done - 1 },
    )
    else (call_send sent, reply, w)
