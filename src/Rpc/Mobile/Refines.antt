-- ===== src/Rpc/Mobile/Refines.antt =====
-- The phone's client keeps to the specification of its requests
-- (mobile/src/services/network/WSClient.ts).
use mobilecoding.Base.{
  ℕ, ◌≡◌, refl, sym, subst, String, true, none, some, List, [], ◌∷◌, get_elem?, set,
  get_elem?-set_self, eqb, any, Bool-cases, inl, inr,
}
use mobilecoding.Rpc.Calls.{Request, Calls, send_all, flush}
use mobilecoding.Rpc.Ledger.{Inv, no_calls-Inv}
use mobilecoding.Rpc.Web.{connecting, opened, Envelope}
use mobilecoding.Rpc.Web.Envelope.{req, resp_ok, resp_err, resp_bare, evt}
use mobilecoding.Rpc.Web.Steps.{
  Input, connects, closes, sends, socket_opens, socket_gets, socket_closes, request_timer,
  retry_timer, is_connecting, is_alive,
}
use mobilecoding.Rpc.Mobile.{
  MobileClient, new_mobile_client, connect_mobile, wire_of, carries, post, post_all, handle_open,
  send_mobile, handle_message, step_mobile, run_mobile,
}
use mobilecoding.Rpc.Mobile.Sockets.{
  IsSingle, IsCalm, step_mobile-IsSingle, schedule_again-fields, disconnect_mobile-fields,
  connecting-some,
}
use mobilecoding.Rpc.Mobile.Spec.{
  LedgerStep, rests, makes, flushes, answers, expires, LedgerStep-Inv,
}

module _ (id_of : ℕ → String) where
  post_all-send_all :
      (rs : List Request) (c : Calls) → post_all id_of carries rs c ≡ send_all id_of rs c
  unfolding post_all send_all post
  post_all-send_all [] c = refl
  post_all-send_all (r ∷ rs) c = post_all-send_all rs _

  -- The current socket opens: the queue goes out.
  handle_open-flush :
      (c : MobileClient) (i : ℕ)
      → c.ws ≡ some i
      → is_connecting (get_elem? c.sockets i) ≡ true
      → (handle_open id_of (record c { sockets = set c.sockets i opened })).calls
        ≡ flush id_of c.calls
  unfolding handle_open flush wire_of
  handle_open-flush c i w h =
      let at : get_elem? (set c.sockets i opened) i ≡ some opened =
        get_elem?-set_self c.sockets i opened connecting (connecting-some _ h) in
      rw (w, wire_of, at) (post_all-send_all c.calls.queue _)

  handle_message-LedgerStep :
      (env : Envelope) (c : MobileClient)
      → LedgerStep id_of c.calls (handle_message id_of env c).calls
  unfolding handle_message
  handle_message-LedgerStep (req id method params) c = rests
  handle_message-LedgerStep (resp_ok id r) c = answers id _
  handle_message-LedgerStep (resp_err id m) c = answers id _
  handle_message-LedgerStep (resp_bare id) c = answers id _
  handle_message-LedgerStep (evt sid ev) c = rests

  -- A step of the client, as one on its requests.
  step_mobile-LedgerStep :
      (i : Input) (c : MobileClient)
      → IsSingle c.ws c.sockets
      → LedgerStep id_of c.calls (step_mobile id_of i c).calls
  unfolding step_mobile connect_mobile send_mobile
  step_mobile-LedgerStep (connects token) c s = rests
  step_mobile-LedgerStep closes c s =
      subst (LedgerStep id_of c.calls) (sym (disconnect_mobile-fields c).2) rests
  step_mobile-LedgerStep (sends method params) c s = makes _ method params
  step_mobile-LedgerStep (socket_opens i) c s =
      elim (Bool-cases (is_connecting (get_elem? c.sockets i))) [
        | inl e ↦
            rw e (subst (LedgerStep id_of c.calls) (sym (handle_open-flush c i (s i e) e)) flushes)
        | inr e ↦ rw e rests
      ]
  step_mobile-LedgerStep (socket_gets env) c s = handle_message-LedgerStep env c
  step_mobile-LedgerStep (socket_closes i code) c s =
      elim (Bool-cases (is_alive (get_elem? c.sockets i))) [
        | inl e ↦ rw e (subst (LedgerStep id_of c.calls) (sym (schedule_again-fields _).2) rests)
        | inr e ↦ rw e rests
      ]
  step_mobile-LedgerStep (request_timer n) c s = expires _ n
  step_mobile-LedgerStep (retry_timer h) c s =
      elim (Bool-cases (any (λ r. eqb r.handle h) c.retries)) [
        | inl e ↦ rw e rests
        | inr e ↦ rw e rests
      ]

  -- Every connection of the run is made while no other is being opened.
  abbrev pub IsCalmRun : List Input → MobileClient → Type 0
  IsCalmRun [] c = Unit {0}
  IsCalmRun (i ∷ is) c = IsCalm i c × IsCalmRun is (step_mobile id_of i c)

  run_mobile-keeps :
      (distinct : (m n : ℕ) → id_of m ≡ id_of n → m ≡ n) (is : List Input) (c : MobileClient)
      → IsCalmRun is c
      → IsSingle c.ws c.sockets
      → Inv c.calls
      → Inv (run_mobile id_of is c).calls
  unfolding run_mobile
  run_mobile-keeps distinct [] c n s v = v
  run_mobile-keeps distinct (i ∷ is) c (k, n) s v =
      run_mobile-keeps distinct is _ n (step_mobile-IsSingle id_of i c k s)
        (LedgerStep-Inv id_of distinct (step_mobile-LedgerStep i c s) v)

  no_socket-IsSingle : IsSingle none []
  no_socket-IsSingle j h = cc

  -- Where the ids are distinct and each connection is made while no other is being opened, every
  -- promise that a run of the client has made is queued, pending or settled, in exactly one of these
  -- places and once there; each pending request has its timer.
  pub run_mobile-Inv :
      (distinct : (m n : ℕ) → id_of m ≡ id_of n → m ≡ n) (is : List Input)
      → IsCalmRun is new_mobile_client
      → Inv (run_mobile id_of is new_mobile_client).calls
  run_mobile-Inv distinct is n =
      run_mobile-keeps distinct is new_mobile_client n no_socket-IsSingle no_calls-Inv
