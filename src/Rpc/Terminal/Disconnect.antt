-- ===== src/Rpc/Terminal/Disconnect.antt =====
-- The requests of the phone's client over a run of it, and after it disconnects
-- (mobile/src/screens/TerminalScreen.tsx).
use mobilecoding.Base.{
  ℕ, ◌+◌, ◌<◌, ◌≡◌, refl, sym, ap, subst, ◌∙◌, String, Bool, true, false, Option, none, List, [],
  ◌∷◌, ◌++◌, arith, eqb, ltb, get_elem?, if◌then◌else◌, Bool-cases, inl, inr, All, All-mono,
  eq_refl, eqb_refl,
}
use mobilecoding.Json.{Json}
use mobilecoding.Event.{ConnectionStatus}
use mobilecoding.Rpc.Calls.{
  Request, Entry, Calls, rejected, enqueue, do_send, put, has_id, has_call, remove_first, send,
  reject_all,
}
use mobilecoding.Rpc.Ledger.{Inv, no_calls-Inv, places, in_queue, in_settled, in_settled-append}
use mobilecoding.Rpc.Conservation.{
  send-Inv, do_send-Inv, respond-Inv, time_out-Inv, not_used, put-new,
}
use mobilecoding.Rpc.Rejection.{
  reject_all-Inv, reject_queue-Inv, reject_all_lem, reject_queue_lem, rejections, refusals,
  in_settled-rejections, in_settled-refusals,
}
use mobilecoding.Rpc.Answer.{remove_first-last, no_call}
use mobilecoding.Rpc.Web.{Envelope}
use mobilecoding.Rpc.Web.Envelope.{req, resp_ok, resp_err, resp_bare, evt}
use mobilecoding.Rpc.Web.Steps.{is_connecting, is_alive}
use mobilecoding.Rpc.Terminal.{
  RealClient, new_real_client, RealInput, connects, sends, disconnects, socket_opens, socket_gets,
  socket_closes, request_timer, notify, connect_real, expired, try_send, send_real, flush_each,
  open_real, handle_real, disconnect_real, step_real, run_real,
}

notify-calls : (s : ConnectionStatus) (c : RealClient) → (notify s c).calls ≡ c.calls
notify-calls s c = refl

connect_real-calls : (can_make : Bool) (c : RealClient) → (connect_real can_make c).calls ≡ c.calls
unfolding connect_real
connect_real-calls true c = refl
connect_real-calls false c = refl

disconnect_real-Inv : (c : RealClient) → Inv c.calls → Inv (disconnect_real c).calls
unfolding disconnect_real
disconnect_real-Inv c v = reject_queue-Inv "连接已断开" _ (reject_all-Inv "连接已断开" c.calls v)

settles_all :
    (c : RealClient)
    → Inv c.calls
    → let d = disconnect_real c in
      ((t : ℕ) → in_settled t d.calls.settled ≡ (if ltb t c.calls.issued then 1 else 0))
      × (d.calls.queue ≡ [])
      × (d.calls.pending ≡ [])
      × (d.calls.timers ≡ [])
      × (d.ws ≡ none)
      × (d.connected ≡ false)
unfolding disconnect_real
settles_all c v =
    let msg : String = "连接已断开" in
    rw (reject_queue_lem msg (reject_all msg c.calls), reject_all_lem msg c.calls v)
      (
        (λ t. omega (
          arith,
          v.once t,
          in_settled-append t (c.calls.settled ++ rejections msg c.calls.pending)
              (refusals msg c.calls.queue),
          in_settled-append t c.calls.settled (rejections msg c.calls.pending),
          in_settled-rejections t msg c.calls.pending,
          in_settled-refusals t msg c.calls.queue,
        )),
        refl,
        refl,
        refl,
        refl,
        refl,
      )

module _ (id_of : ℕ → String) (thrown : String)
    (distinct : (m n : ℕ) → id_of m ≡ id_of n → m ≡ n) where
  -- A request that is sent, or fails to be, is pending or settled after it.
  try_send-Inv :
      (fails : Bool) (method : String) (params : Option Json) (ticket : ℕ) (c : Calls)
      → c.timers ≡ c.pending
      → All (λ e. e.call < c.made) c.pending
      → let d = try_send id_of thrown fails method params ticket c in
        (d.timers ≡ d.pending)
        × All (λ e. e.call < d.made) d.pending
        × ((t : ℕ) → places t d ≡ places t c + (if eqb ticket t then 1 else 0))
        × (d.issued ≡ c.issued)
  unfolding try_send do_send put
  try_send-Inv false method params ticket c armed used =
      do_send-Inv id_of distinct method params ticket c armed used
  try_send-Inv true method params ticket c armed used =
      let e : Entry = record { call = c.made; method = method; ticket = ticket } in
      let fresh = not_used id_of distinct c.made c.pending used in
      let pend : remove_first (has_id id_of (id_of c.made)) (put id_of e c.pending) ≡ c.pending =
        ap (remove_first (has_id id_of (id_of c.made))) (put-new id_of distinct e c.pending used)
        ∙ remove_first-last _ c.pending e fresh (eq_refl (id_of c.made)) in
      let alarm : remove_first (has_call c.made) (c.timers ++ e ∷ []) ≡ c.timers =
        ap (λ l. remove_first (has_call c.made) (l ++ e ∷ [])) armed
        ∙ remove_first-last _ c.pending e (no_call c.made c.pending used) (eqb_refl c.made)
        ∙ sym armed in
      (
        alarm ∙ armed ∙ sym pend,
        subst (All (λ x. x.call < c.made + 1)) (sym pend)
            (All-mono _ _ c.pending (λ x h. omega arith) used),
        (λ t.
            rw pend
              (omega (arith, in_settled-append t c.settled ((ticket, rejected thrown) ∷ [])))),
        refl,
      )

  try_send-queue :
      (fails : Bool) (method : String) (params : Option Json) (ticket : ℕ) (c : Calls)
      → (try_send id_of thrown fails method params ticket c).queue ≡ c.queue
  unfolding try_send do_send
  try_send-queue true method params ticket c = refl
  try_send-queue false method params ticket c = refl

  flush_each-Inv :
      (fails : Bool) (rs : List Request) (c : Calls)
      → c.queue ≡ rs
      → Inv c
      → Inv (flush_each id_of thrown fails rs c)
  unfolding flush_each
  flush_each-Inv fails [] c h v = record {
    armed = v.armed;
    used = v.used;
    once = λ t. omega (arith, v.once t, ap (in_queue t) h);
  }
  flush_each-Inv fails (r ∷ rs) c h v =
      let (a, u, o, i) =
        try_send-Inv fails r.method r.params r.ticket (record c { queue = rs }) v.armed v.used in
      flush_each-Inv fails rs _ (try_send-queue fails r.method r.params r.ticket _) (record {
        armed = a;
        used = u;
        once = λ t. rw i (omega (arith, o t, v.once t, ap (in_queue t) h));
      })

  -- A promise is made, then queued or sent.
  sent-Inv :
      (fails : Bool) (method : String) (params : Option Json) (c : Calls)
      → Inv c
      → Inv
          (try_send id_of thrown fails method params c.issued (record c { issued = c.issued + 1 }))
  sent-Inv fails method params c v =
      let (a, u, o, i) =
        try_send-Inv fails method params c.issued (record c { issued = c.issued + 1 }) v.armed
          v.used in
      record { armed = a; used = u; once = λ t. ground (arith, o t, i, v.once t) }

  send_real-Inv :
      (method : String) (params : Option Json) (c : RealClient)
      → Inv c.calls
      → Inv (send_real id_of thrown method params c).calls
  unfolding send_real enqueue send
  send_real-Inv method params c v = elim (Bool-cases c.connected) [
    | inl e ↦ rw e (sent-Inv _ method params c.calls v)
    | inr e ↦ rw e (send-Inv id_of distinct false method params c.calls v)
  ]

  handle_real-Inv :
      (env : Envelope) (c : RealClient) → Inv c.calls → Inv (handle_real id_of thrown env c).calls
  unfolding handle_real
  handle_real-Inv (req id method params) c v = v
  handle_real-Inv (resp_ok id r) c v = respond-Inv id_of distinct id _ c.calls v
  handle_real-Inv (resp_err id m) c v = respond-Inv id_of distinct id _ c.calls v
  handle_real-Inv (resp_bare id) c v = respond-Inv id_of distinct id _ c.calls v
  handle_real-Inv (evt sid ev) c v = v

  step_real-Inv :
      (i : RealInput) (c : RealClient) → Inv c.calls → Inv (step_real id_of thrown i c).calls
  unfolding step_real open_real
  step_real-Inv (connects can_make) c v = subst Inv (sym (connect_real-calls can_make c)) v
  step_real-Inv (sends method params) c v = send_real-Inv method params c v
  step_real-Inv disconnects c v = disconnect_real-Inv c v
  step_real-Inv (socket_opens i) c v = elim (Bool-cases (is_connecting (get_elem? c.sockets i))) [
    | inl e ↦ rw e (flush_each-Inv _ c.calls.queue c.calls refl v)
    | inr e ↦ rw e v
  ]
  step_real-Inv (socket_gets env) c v = handle_real-Inv env c v
  step_real-Inv (socket_closes i) c v = elim (Bool-cases (is_alive (get_elem? c.sockets i))) [
    | inl e ↦ rw e v
    | inr e ↦ rw e v
  ]
  step_real-Inv (request_timer n) c v = time_out-Inv id_of distinct expired n c.calls v

  run_real-Inv :
      (is : List RealInput) (c : RealClient) → Inv c.calls → Inv (run_real id_of thrown is c).calls
  unfolding run_real
  run_real-Inv [] c v = v
  run_real-Inv (i ∷ is) c v = run_real-Inv is _ (step_real-Inv i c v)

  -- Where the ids are distinct, over any run of a new client, failed sends included, disconnecting
  -- afterwards settles every promise ever made, each exactly once, and leaves nothing queued, nothing
  -- pending, no timer and no socket.
  pub disconnect_real-run :
      (is : List RealInput)
      → let c = run_real id_of thrown is new_real_client in
        let d = disconnect_real c in
        ((t : ℕ) → in_settled t d.calls.settled ≡ (if ltb t c.calls.issued then 1 else 0))
        × (d.calls.queue ≡ [])
        × (d.calls.pending ≡ [])
        × (d.calls.timers ≡ [])
        × (d.ws ≡ none)
        × (d.connected ≡ false)
  disconnect_real-run is = settles_all _ (run_real-Inv is new_real_client no_calls-Inv)
