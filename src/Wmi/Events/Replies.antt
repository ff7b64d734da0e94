-- ===== src/Wmi/Events/Replies.antt =====
-- `wmi_event_worker` on the pending events, and `wmi_call` while events arrive.
use wigig_wil.Prelude.{
  ℕ, zero, suc, ◌+◌, ◌-◌, ◌==◌, ◌≡◌, ◌≤◌, ◌<◌, ◌∙◌, ap, sym, refl, leb, Bool, true, ◌&&◌,
  if◌then◌else◌, Option, none, some, List, [], ◌∷◌, ◌++◌, length, drop, length-take-drop, returns,
  arith, inl, inr, Bool-cases,
}
use wigig_wil.Wmi.Send.{sent_ok}
use wigig_wil.Wmi.Recv.{Event}
use wigig_wil.Wmi.Events.{
  Waiter, Handler, HandlerCall, find_handler, evt_handlers, evt_call_handler, memcpy, min, event_id,
  is_wmi, answers, wmi_event_handle, wmi_event_worker, handle_all, wmi_call, call_ok, call_etime,
}

handle_pending :
    (evt : Event) (p : List Event) (w : Waiter)
    → wmi_event_handle evt (record w { pending = p })
      ≡ record (wmi_event_handle evt (record w { pending = [] })) { pending = p }
unfolding wmi_event_handle evt_call_handler
handle_pending evt p w = ground arith

worker_lem :
    (evts : List Event) (fuel : ℕ) (w : Waiter)
    → length evts < fuel
    → wmi_event_worker fuel (record w { pending = evts })
      ≡ returns (handle_all evts (record w { pending = [] }))
unfolding wmi_event_worker
worker_lem evts zero w lt = absurd (omega arith)
worker_lem [] (suc fuel) w lt = refl
worker_lem (evt ∷ evts) (suc fuel) w lt =
    let w' = wmi_event_handle evt (record w { pending = [] }) in
    ap (wmi_event_worker fuel) (handle_pending evt evts w)
    ∙ worker_lem evts fuel w' (omega arith)
    ∙ ap (λ v. returns (handle_all evts v)) (sym (handle_pending evt [] w))

-- The worker, with fuel for one round more than there are events, handles all the pending events
-- in the order of their arrival and leaves none.
wmi_event_worker_lem :
    (w : Waiter)
    → wmi_event_worker (suc (length w.pending)) w
      ≡ returns (handle_all w.pending (record w { pending = [] }))
wmi_event_worker_lem w = worker_lem w.pending (suc (length w.pending)) w (omega arith)

-- the handler that an unsolicited event is for, after those in `calls`
abbrev pub dispatch : Event → List HandlerCall → List HandlerCall
dispatch evt calls =
    let call : Handler → HandlerCall = λ h. record {
      handler = h;
      id = event_id evt;
      payload = drop 8 evt.body;
      len = evt.hdr.len - 8;
    } in
    if is_wmi evt
    then elim (find_handler evt_handlers (event_id evt)) [
      | none ↦ calls
      | some h ↦ calls ++ (call h ∷ [])
    ]
    else calls

-- each event is at least as long as its header says
abbrev pub all_whole : List Event → Bool
all_whole [] = true
all_whole (evt ∷ evts) = leb evt.hdr.len (length evt.body) && all_whole evts

module _ (id size : ℕ) where
  abbrev pub replied : Event → Bool
  replied evt = is_wmi evt && answers id evt

  -- the buffer of the caller after some events: each reply is copied over it
  unfoldable pub reply_bytes : List Event → List ℕ → List ℕ
  reply_bytes [] buf = buf
  reply_bytes (evt ∷ evts) buf =
      reply_bytes evts (if replied evt then memcpy buf evt.body (min evt.hdr.len size) else buf)

  unfoldable pub reply_count : List Event → ℕ → ℕ
  reply_count [] done = done
  reply_count (evt ∷ evts) done = reply_count evts (if replied evt then done + 1 else done)

  unfoldable pub dispatched : List Event → List HandlerCall → List HandlerCall
  dispatched [] calls = calls
  dispatched (evt ∷ evts) calls =
      dispatched evts (if replied evt then calls else dispatch evt calls)

  waiting : Waiter → List ℕ → ℕ → List HandlerCall → Waiter
  waiting w buf done calls = record w {
    reply_id = id;
    reply_buf = some buf;
    reply_size = size;
    done = done;
    calls = calls;
  }

  handle-waiting :
      (evt : Event) (w : Waiter) (buf : List ℕ) (done : ℕ) (calls : List HandlerCall)
      → wmi_event_handle evt (waiting w buf done calls)
        ≡ waiting w
            (if replied evt then memcpy buf evt.body (min evt.hdr.len size) else buf)
            (if replied evt then done + 1 else done)
            (if replied evt then calls else dispatch evt calls)
  unfolding wmi_event_handle evt_call_handler waiting
  handle-waiting evt w buf done calls = ground arith

  handle_all-waiting :
      (evts : List Event) (w : Waiter) (buf : List ℕ) (done : ℕ) (calls : List HandlerCall)
      → handle_all evts (waiting w buf done calls)
        ≡ waiting w (reply_bytes evts buf) (reply_count evts done) (dispatched evts calls)
  unfolding reply_bytes reply_count dispatched
  handle_all-waiting [] w buf done calls = refl
  handle_all-waiting (evt ∷ evts) w buf done calls =
      ap (handle_all evts) (handle-waiting evt w buf done calls)
      ∙ handle_all-waiting evts w
          (if replied evt then memcpy buf evt.body (min evt.hdr.len size) else buf)
          (if replied evt then done + 1 else done)
          (if replied evt then calls else dispatch evt calls)

  -- A call that was sent gets the replies to its id, and only these, in its buffer; the other events
  -- go to their handlers, in order. It succeeds just if a completion is there when it ends, one for
  -- each reply that was handled and any left over from before; it takes one of them, and nothing
  -- waits any more.
  pub wmi_call_lem :
      (evts : List Event) (buf : List ℕ) (w : Waiter)
      → wmi_call sent_ok evts id (some buf) size w ≡ (
        if reply_count evts w.done == 0 then call_etime else call_ok,
        some (reply_bytes evts buf),
        record w {
          reply_id = 0;
          reply_buf = none;
          reply_size = 0;
          done = reply_count evts w.done - 1;
          calls = dispatched evts w.calls;
        },
      )
  unfolding wmi_call waiting
  wmi_call_lem evts buf w =
      ap
        (λ v. (
          if v.done == 0 then call_etime else call_ok,
          v.reply_buf,
          record v { reply_id = 0; reply_buf = none; reply_size = 0; done = v.done - 1 },
        ))
        (handle_all-waiting evts w buf w.done w.calls)

  reply_bytes_length :
      (evts : List Event) (buf : List ℕ)
      → size ≤ length buf
      → all_whole evts ≡ true
      → length (reply_bytes evts buf) ≡ length buf
  unfolding reply_bytes
  reply_bytes_length [] buf le whole = refl
  reply_bytes_length (evt ∷ evts) buf le whole =
      let n : ℕ = min evt.hdr.len size in
      let copied : length (memcpy buf evt.body n) ≡ length buf =
        length-take-drop n evt.body buf (ground (arith, whole)) (ground arith) in
      let rest : all_whole evts ≡ true = ground (arith, whole) in
      elim (Bool-cases (replied evt)) [
        | inl e ↦
            rw e (
              reply_bytes_length evts (memcpy buf evt.body n) (omega (arith, copied)) rest ∙ copied)
        | inr e ↦ rw e (reply_bytes_length evts buf le rest)
      ]

  -- If the caller says no more than the size of its buffer, and each event is as long as its header
  -- says, no reply is written past the buffer.
  pub wmi_call_bounds :
      (evts : List Event) (buf out : List ℕ) (w : Waiter)
      → size ≤ length buf
      → all_whole evts ≡ true
      → (wmi_call sent_ok evts id (some buf) size w).1 ≡ some out
      → length out ≡ length buf
  wmi_call_bounds evts buf out w le whole e =
      let got : ◌≡◌ {A = Option (List ℕ)} (some (reply_bytes evts buf)) (some out) =
        sym (ap (λ v. v.1) (wmi_call_lem evts buf w)) ∙ e in
      let same : reply_bytes evts buf ≡ out = cc in rw⁻¹ same (reply_bytes_length evts buf le whole)
