-- ===== src/Rpc/Relay/Close.antt =====
-- What a closed relay client does (web/src/core/ws/relay-client.ts).
use mobilecoding.Base.{
  ℕ, zero, suc, ◌≡◌, ◌⊎◌, refl, sym, ap, subst, ◌∙◌, String, Bool, true, false, Option, none, some,
  List, [], ◌∷◌, get_elem?, set, eqb, any, if◌then◌else◌, Bool-cases, inl, inr, ◌||◌, All,
}
use mobilecoding.Event.{ConnectionStatus, AppEvent}
use mobilecoding.Rpc.Web.{ReadyState, connecting, opened, closing, gone, Retry, is_opened, rank}
use mobilecoding.Rpc.Web.Steps.{is_connecting, is_alive}
use mobilecoding.Rpc.Relay.{
  RelayClient, RelayInput, connects, closes, sends, socket_opens, socket_gets, socket_closes,
  retry_timer, connect_to, close_relay, send_forward, open_socket, on_close_relay, retries_without,
  sockets_without, step_relay, run_relay, new_relay_client,
}
use mobilecoding.Rpc.Relay.Live.{IsCalm, step_relay-IsLive}
use mobilecoding.Rpc.Relay.Tidy.{
  IsLive, IsQuiet, do_connect_relay-IsLive, close_relay-IsQuiet, is_working, status_closed,
  idle-IsLive,
}

-- Any input but a call of `connect`.
abbrev pub IsNoConnect : RelayInput → Type 0
IsNoConnect (connects k) = ⊥
IsNoConnect _ = Unit {0}

-- Nothing went out or came in, no listener was called, and the client is as closed as before.
abbrev pub IsSilent : RelayClient → RelayClient → Type 0
IsSilent c d =
    (d.sent ≡ c.sent)
    × (d.delivered ≡ c.delivered)
    × (d.notified ≡ c.notified)
    × (d.status ≡ ConnectionStatus.closed)

working-none :
    (o : Option ReadyState)
    → is_working o ≡ false
    → (is_connecting o ≡ false) × (is_opened o ≡ false)
working-none none e = (refl, refl)
working-none (some connecting) e = cc
working-none (some opened) e = cc
working-none (some closing) e = (refl, refl)
working-none (some gone) e = (refl, refl)

same_notified {ℓ} :
    {A : Type ℓ} (s : ConnectionStatus) (x y : A)
    → s ≡ ConnectionStatus.closed
    → (if eqb (rank s) (rank ConnectionStatus.closed) then x else y) ≡ x
same_notified s x y e = rw e refl

open_socket-none : (c : RelayClient) → c.ws ≡ none → open_socket c ≡ none
unfolding open_socket
open_socket-none c e = rw (e, open_socket) refl

working-gone :
    (xs : List ReadyState) (i j : ℕ)
    → is_working (get_elem? xs j) ≡ false
    → is_working (get_elem? (set xs i gone) j) ≡ false
working-gone [] i j h = h
working-gone (x ∷ xs) zero zero h = refl
working-gone (x ∷ xs) zero (suc j) h = h
working-gone (x ∷ xs) (suc i) zero h = h
working-gone (x ∷ xs) (suc i) (suc j) h = working-gone xs i j h

or_true : (a b : Bool) → b ≡ true → (a || b) ≡ true
or_true true b e = refl
or_true false b e = e

retries_none : (o : Option ℕ) (rs : List Retry) → rs ≡ [] → retries_without o rs ≡ []
retries_none none rs e = e
retries_none (some h) rs e = rw e refl

module _ (read : String → String → Option AppEvent) where
  IsSilent-self : (c : RelayClient) → c.status ≡ ConnectionStatus.closed → IsSilent c c
  IsSilent-self c e = (refl, refl, refl, e)

  close_again : (c : RelayClient) → IsQuiet c → IsQuiet (close_relay c) × IsSilent c (close_relay c)
  unfolding close_relay
  close_again c (o, w, r, n, s) = (
    (
      refl,
      refl,
      retries_none c.reconnect_timer c.retries r,
      subst (λ ws. (j : ℕ) → is_working (get_elem? (sockets_without ws c.sockets) j) ≡ false)
          (sym w) n,
      status_closed c.status,
    ),
    (refl, refl, same_notified c.status c.notified _ s, status_closed c.status),
  )

  socket_ends :
      (code i : ℕ) (c : RelayClient)
      → IsQuiet c
      → let d = on_close_relay code (record c { sockets = set c.sockets i gone }) in
        IsQuiet d × IsSilent c d
  unfolding on_close_relay
  socket_ends code i c (o, w, r, n, s) = rw (or_true (eqb code 1000) c.closed o) (
    (o, w, r, (λ j. working-gone c.sockets i j (n j)), status_closed c.status),
    (refl, refl, same_notified c.status c.notified _ s, status_closed c.status),
  )

  step_relay-IsQuiet :
      (i : RelayInput) (c : RelayClient)
      → IsNoConnect i
      → IsQuiet c
      → IsQuiet (step_relay read i c) × IsSilent c (step_relay read i c)
  unfolding step_relay send_forward
  step_relay-IsQuiet (connects k) c h v = absurd h
  step_relay-IsQuiet closes c h v = close_again c v
  step_relay-IsQuiet (sends p) c h (o, w, r, n, s) =
      rw (open_socket-none c w) ((o, w, r, n, s), IsSilent-self c s)
  step_relay-IsQuiet (socket_opens i) c h (o, w, r, n, s) =
      rw ((working-none (get_elem? c.sockets i) (n i)).0) ((o, w, r, n, s), IsSilent-self c s)
  step_relay-IsQuiet (socket_gets i f) c h (o, w, r, n, s) =
      rw ((working-none (get_elem? c.sockets i) (n i)).1) ((o, w, r, n, s), IsSilent-self c s)
  step_relay-IsQuiet (socket_closes i code) c h (o, w, r, n, s) =
      elim (Bool-cases (is_alive (get_elem? c.sockets i))) [
        | inl e ↦ rw e (socket_ends code i c (o, w, r, n, s))
        | inr e ↦ rw e ((o, w, r, n, s), IsSilent-self c s)
      ]
  step_relay-IsQuiet (retry_timer t) c h (o, w, r, n, s) =
      let k : any (λ x. eqb x.handle t) c.retries ≡ false = ap (any (λ x. eqb x.handle t)) r in
      rw k ((o, w, r, n, s), IsSilent-self c s)

  after_close :
      (i : RelayInput) (c : RelayClient)
      → IsCalm i c
      → IsQuiet c
      → IsLive (step_relay read i c) ⊎ IsQuiet (step_relay read i c)
  unfolding step_relay connect_to
  after_close (connects k) c (d, r) v = inl (do_connect_relay-IsLive _ refl d r)
  after_close closes c k v = inr ((step_relay-IsQuiet closes c tt v).0)
  after_close (sends p) c k v = inr ((step_relay-IsQuiet (sends p) c tt v).0)
  after_close (socket_opens i) c k v = inr ((step_relay-IsQuiet (socket_opens i) c tt v).0)
  after_close (socket_gets i f) c k v = inr ((step_relay-IsQuiet (socket_gets i f) c tt v).0)
  after_close (socket_closes i n) c k v = inr ((step_relay-IsQuiet (socket_closes i n) c tt v).0)
  after_close (retry_timer h) c k v = inr ((step_relay-IsQuiet (retry_timer h) c tt v).0)

  -- Each call of `connect` in the run is calm.
  abbrev pub IsCalmRun : List RelayInput → RelayClient → Type 0
  IsCalmRun [] c = Unit {0}
  IsCalmRun (i ∷ is) c = IsCalm i c × IsCalmRun is (step_relay read i c)

  run_relay-IsQuiet :
      (is : List RelayInput) (c : RelayClient)
      → All IsNoConnect is
      → IsQuiet c
      → IsSilent c (run_relay read is c)
  unfolding run_relay
  run_relay-IsQuiet [] c h (o, w, r, n, s) = IsSilent-self c s
  run_relay-IsQuiet (i ∷ is) c (k, h) v =
      let (q, a) = step_relay-IsQuiet i c k v in
      let b = run_relay-IsQuiet is (step_relay read i c) h q in
      (b.0 ∙ a.0, b.1 ∙ a.1, b.2 ∙ a.2, b.3)

  calm_step :
      (i : RelayInput) (c : RelayClient)
      → IsCalm i c
      → IsLive c ⊎ IsQuiet c
      → IsLive (step_relay read i c) ⊎ IsQuiet (step_relay read i c)
  calm_step i c k (inl v) = step_relay-IsLive read i c k v
  calm_step i c k (inr v) = after_close i c k v

  run_relay-IsTidy :
      (is : List RelayInput) (c : RelayClient)
      → IsCalmRun is c
      → IsLive c ⊎ IsQuiet c
      → IsLive (run_relay read is c) ⊎ IsQuiet (run_relay read is c)
  unfolding run_relay
  run_relay-IsTidy [] c k v = v
  run_relay-IsTidy (i ∷ is) c (k, ks) v = run_relay-IsTidy is _ ks (calm_step i c k v)

  closed-IsQuiet : (c : RelayClient) → IsLive c ⊎ IsQuiet c → IsQuiet (close_relay c)
  closed-IsQuiet c (inl v) = close_relay-IsQuiet c v
  closed-IsQuiet c (inr v) = (close_again c v).0

  -- After a run in which each call of `connect` comes when every socket has closed and no timer is
  -- set, `close` ends the client: whatever follows but a call of `connect`, late events of the old
  -- sockets and timers included, nothing is sent, no event is delivered, no listener is called, and
  -- the status stays closed.
  pub run_relay-close :
      (is js : List RelayInput)
      → IsCalmRun is new_relay_client
      → All IsNoConnect js
      → let c = close_relay (run_relay read is new_relay_client) in IsSilent c (run_relay read js c)
  run_relay-close is js k h = run_relay-IsQuiet js _ h (
      closed-IsQuiet _ (
        run_relay-IsTidy is new_relay_client k
          (inl (idle-IsLive new_relay_client refl (λ j. refl) refl))))
