-- ===== src/Rpc/Relay/Live.antt =====
-- The steps of a relay client that is not closed (web/src/core/ws/relay-client.ts).
use mobilecoding.Base.{
  ℕ, ◌≡◌, ◌⊎◌, refl, subst, String, true, false, Option, none, some, List, [], ◌∷◌, get_elem?, set,
  eqb, any, Bool-cases, inl, inr, arith,
}
use mobilecoding.Event.{AppEvent}
use mobilecoding.Rpc.Web.{ReadyState, connecting, opened, closing, gone, Retry, disarm, is_opened}
use mobilecoding.Rpc.Web.Steps.{is_connecting, is_alive}
use mobilecoding.Rpc.Relay.{
  RelayClient, RelayInput, connects, closes, sends, socket_opens, socket_gets, socket_closes,
  retry_timer, Incoming, paired, forwarded, relay_error, unknown_frame, do_connect_relay,
  connect_to, send_forward, open_socket, open_relay, handle_frame, step_relay,
}
use mobilecoding.Rpc.Relay.Tidy.{
  IsDead, IsTimed, IsLive, IsQuiet, IsDead-gone, alive-set, no_timer, do_connect_relay-IsLive,
  put_frame-IsLive, pair_with-IsLive, deliver_to-IsLive, on_close_relay-IsLive, close_relay-IsQuiet,
}

-- A call of `connect` comes when every socket has closed and no timer is set.
abbrev pub IsCalm : RelayInput → RelayClient → Type 0
IsCalm (connects k) c = IsDead c.sockets × (c.retries ≡ [])
IsCalm _ c = Unit {0}

connecting-alive : (o : Option ReadyState) → is_connecting o ≡ true → is_alive o ≡ true
connecting-alive none e = cc
connecting-alive (some connecting) e = refl
connecting-alive (some opened) e = cc
connecting-alive (some closing) e = cc
connecting-alive (some gone) e = cc

opened-IsLive :
    (c : RelayClient) (i : ℕ)
    → is_connecting (get_elem? c.sockets i) ≡ true
    → IsLive c
    → IsLive (open_relay (record c { sockets = set c.sockets i opened }))
unfolding open_relay
opened-IsLive c i e (o, only, timed) =
    let a = connecting-alive (get_elem? c.sockets i) e in
    pair_with-IsLive c.config _ (
      o,
      (λ j h. only j (alive-set c.sockets i j opened a h)),
      inl (no_timer c.reconnect_timer c.retries c.sockets i timed a),
    )

-- A timer that runs out was the only one.
retried_none :
    (h : ℕ) (timer : Option ℕ) (rs : List Retry) (xs : List ReadyState)
    → any (λ r. eqb r.handle h) rs ≡ true
    → IsTimed timer rs xs
    → IsDead xs × (disarm h rs ≡ [])
retried_none h timer rs xs a (inl e) =
    let k : any (λ (r : Retry). eqb r.handle h) [] ≡ true =
      subst (λ l. any (λ r. eqb r.handle h) l ≡ true) e a in
    cc
retried_none h timer rs xs a (inr (d, r, e, t)) =
    let k : any (λ x. eqb x.handle h) (r ∷ []) ≡ true =
      subst (λ l. any (λ x. eqb x.handle h) l ≡ true) e a in
    (d, rw e (ground (arith, k)))

retried-IsLive :
    (c : RelayClient) (h : ℕ)
    → any (λ r. eqb r.handle h) c.retries ≡ true
    → IsLive c
    → IsLive (do_connect_relay (record c { retries = disarm h c.retries }))
retried-IsLive c h a (o, only, timed) =
    let (d, e) = retried_none h c.reconnect_timer c.retries c.sockets a timed in
    do_connect_relay-IsLive (record c { retries = disarm h c.retries }) o d e

module _ (read : String → String → Option AppEvent) where
  handle_frame-IsLive : (f : Incoming) (c : RelayClient) → IsLive c → IsLive (handle_frame read f c)
  unfolding handle_frame
  handle_frame-IsLive (paired id) c v = v
  handle_frame-IsLive (forwarded true sid p) c v = deliver_to-IsLive read (read sid p) sid c v
  handle_frame-IsLive (forwarded false sid p) c v = v
  handle_frame-IsLive (relay_error code) c v = v
  handle_frame-IsLive unknown_frame c v = v

  pub step_relay-IsLive :
      (i : RelayInput) (c : RelayClient)
      → IsCalm i c
      → IsLive c
      → IsLive (step_relay read i c) ⊎ IsQuiet (step_relay read i c)
  unfolding step_relay connect_to send_forward open_relay
  step_relay-IsLive (connects k) c (d, r) v = inl (do_connect_relay-IsLive _ refl d r)
  step_relay-IsLive closes c n v = inr (close_relay-IsQuiet c v)
  step_relay-IsLive (sends p) c n v = inl (put_frame-IsLive (open_socket c) _ c v)
  step_relay-IsLive (socket_opens i) c n v =
      elim (Bool-cases (is_connecting (get_elem? c.sockets i))) [
        | inl e ↦ rw e (inl (opened-IsLive c i e v))
        | inr e ↦ rw e (inl v)
      ]
  step_relay-IsLive (socket_gets i f) c n v =
      elim (Bool-cases (is_opened (get_elem? c.sockets i))) [
        | inl e ↦ rw e (inl (handle_frame-IsLive f c v))
        | inr e ↦ rw e (inl v)
      ]
  step_relay-IsLive (socket_closes i code) c n (o, only, timed) =
      elim (Bool-cases (is_alive (get_elem? c.sockets i))) [
        | inl e ↦ rw e (
            inl (
              on_close_relay-IsLive code (record c { sockets = set c.sockets i gone }) o
                (IsDead-gone c.ws c.sockets i only e)
                (no_timer c.reconnect_timer c.retries c.sockets i timed e)))
        | inr e ↦ rw e (inl (o, only, timed))
      ]
  step_relay-IsLive (retry_timer h) c n v =
      elim (Bool-cases (any (λ r. eqb r.handle h) c.retries)) [
        | inl e ↦ rw e (inl (retried-IsLive c h e v))
        | inr e ↦ rw e (inl v)
      ]
