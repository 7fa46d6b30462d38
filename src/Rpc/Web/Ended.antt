-- ===== src/Rpc/Web/Ended.antt =====
-- What closing a web client does (web/src/core/ws/ws-client.ts).
use mobilecoding.Base.{
  ℕ, ◌≡◌, refl, sym, ap, subst, ◌∙◌, String, true, false, none, List, [], ◌∷◌, ◌++◌, arith, eqb,
  Option-cases, Bool-cases, inl, inr, ◌||◌, length, length-set,
}
use mobilecoding.Event.{ConnectionStatus}
use mobilecoding.Rpc.Calls.{Entry, Frame, Calls, reject_each, reject_all}
use mobilecoding.Rpc.Ledger.{Inv}
use mobilecoding.Rpc.Rejection.{rejections, reject_all_lem}
use mobilecoding.Rpc.Web.{
  WsClient, rank, set_status, is_open, do_connect, clear_reconnect, drop_socket, shut, close,
  schedule_reconnect, on_close, ReadyState,
}
use mobilecoding.Rpc.Web.Ledger.{shut-calls, set_status-calls}

-- The client holds no socket, connects no more, has made these sockets and sent these frames.
pub record Ended (n : ℕ) (frames : List Frame) (c : WsClient) : Type 0 where
  pub shut_off : c.closed ≡ true
  pub no_socket : c.ws ≡ none
  pub made : length c.sockets ≡ n
  pub said : c.calls.sent ≡ frames

pub set_status-Ended :
    (n : ℕ) (f : List Frame) (s : ConnectionStatus) (c : WsClient)
    → Ended n f c
    → Ended n f (set_status s c)
unfolding set_status
set_status-Ended n f s c v = elim (Bool-cases (eqb (rank c.status) (rank s))) [
  | inl e ↦ rw e v
  | inr e ↦
      rw e (record { shut_off = v.shut_off; no_socket = v.no_socket; made = v.made; said = v.said })
]

clear_reconnect-fields :
    (c : WsClient)
    → ((clear_reconnect c).closed ≡ c.closed)
      × ((clear_reconnect c).sockets ≡ c.sockets)
      × ((clear_reconnect c).reconnect_timer ≡ none)
unfolding clear_reconnect
clear_reconnect-fields c = elim (Option-cases c.reconnect_timer) [
  | inl e ↦ rw e (refl, refl, refl)
  | inr (h, e) ↦ rw e (refl, refl, refl)
]

drop_socket-fields :
    (c : WsClient)
    → ((drop_socket c).closed ≡ c.closed)
      × (length (drop_socket c).sockets ≡ length c.sockets)
      × ((drop_socket c).ws ≡ none)
      × ((drop_socket c).reconnect_timer ≡ c.reconnect_timer)
unfolding drop_socket
drop_socket-fields c = elim (Option-cases c.ws) [
  | inl e ↦ rw e (refl, refl, refl, refl)
  | inr (i, e) ↦ rw e (refl, length-set c.sockets i ReadyState.closing, refl, refl)
]

set_status-fields :
    (s : ConnectionStatus) (c : WsClient)
    → ((set_status s c).ws ≡ c.ws) × ((set_status s c).reconnect_timer ≡ c.reconnect_timer)
unfolding set_status
set_status-fields s c = elim (Bool-cases (eqb (rank c.status) (rank s))) [
  | inl e ↦ rw e (refl, refl)
  | inr e ↦ rw e (refl, refl)
]

set_status-status : (s : ConnectionStatus) (c : WsClient) → rank (set_status s c).status ≡ rank s
unfolding set_status
set_status-status s c = elim (Bool-cases (eqb (rank c.status) (rank s))) [
  | inl e ↦ let same : rank c.status ≡ rank s = ground (arith, e) in rw e same
  | inr e ↦ rw e refl
]

shut-Ended : (c : WsClient) → Ended (length c.sockets) c.calls.sent (shut c)
unfolding shut
shut-Ended c =
    let c0 : WsClient = record c { closed = true } in
    let (o, s, t) = clear_reconnect-fields c0 in
    let (o', s', t') = clear_reconnect-fields (clear_reconnect c0) in
    let (o'', s'', w, t'') = drop_socket-fields (clear_reconnect (clear_reconnect c0)) in
    set_status-Ended _ _ ConnectionStatus.closed _ (record {
      shut_off = o'' ∙ o' ∙ o;
      no_socket = w;
      made = s'' ∙ ap length s' ∙ ap length s;
      said =
          ap (λ (d : Calls). d.sent)
            (sym (set_status-calls ConnectionStatus.closed _) ∙ shut-calls c);
    })

shut-status : (c : WsClient) → rank (shut c).status ≡ rank ConnectionStatus.closed
unfolding shut
shut-status c = set_status-status ConnectionStatus.closed _

shut-timer : (c : WsClient) → (shut c).reconnect_timer ≡ none
unfolding shut
shut-timer c =
    let (a, b) = set_status-fields ConnectionStatus.closed _ in
    let (o, s, w, t) = drop_socket-fields _ in
    let (o', s', t') = clear_reconnect-fields _ in b ∙ t ∙ t'

-- Where the timers are those of the pending requests, closing turns the client off (no socket, no
-- timer that connects again, status closed) and settles every pending request with the error, in the
-- order of the calls, and cancels its timer; the queued requests stay queued.
close_lem :
    (c : WsClient)
    → Inv c.calls
    → (rank (close c).status ≡ rank ConnectionStatus.closed)
      × ((close c).closed ≡ true)
      × ((close c).ws ≡ none)
      × ((close c).reconnect_timer ≡ none)
      × ((close c).calls ≡ record c.calls {
        pending = [];
        timers = [];
        settled = c.calls.settled ++ rejections "connection closed" c.calls.pending;
      })
unfolding close
close_lem c v = (
  shut-status c,
  (shut-Ended c).shut_off,
  (shut-Ended c).no_socket,
  shut-timer c,
  rw (shut-calls c) (reject_all_lem "connection closed" c.calls v),
)

reject_each-sent :
    (msg : String) (es : List Entry) (c : Calls) → (reject_each msg es c).sent ≡ c.sent
unfolding reject_each
reject_each-sent msg [] c = refl
reject_each-sent msg (e ∷ es) c = reject_each-sent msg es _

pub close-from : (c : WsClient) → Ended (length c.sockets) c.calls.sent (close c)
unfolding close reject_all
close-from c = record {
  shut_off = (shut-Ended c).shut_off;
  no_socket = (shut-Ended c).no_socket;
  made = (shut-Ended c).made;
  said = reject_each-sent _ _ (shut c).calls ∙ (shut-Ended c).said;
}

pub close-Ended : (n : ℕ) (f : List Frame) (c : WsClient) → Ended n f c → Ended n f (close c)
close-Ended n f c v =
    let w = close-from c in
    record {
      shut_off = w.shut_off;
      no_socket = w.no_socket;
      made = w.made ∙ v.made;
      said = w.said ∙ v.said;
    }

pub no_socket-is_open : (c : WsClient) → c.ws ≡ none → is_open c ≡ false
unfolding is_open
no_socket-is_open c h = rw h refl

pub do_connect-Ended :
    (n : ℕ) (f : List Frame) (c : WsClient) → Ended n f c → Ended n f (do_connect c)
unfolding do_connect
do_connect-Ended n f c v = subst (Ended n f) (sym (off v.shut_off)) v
  where
    off : c.closed ≡ true → do_connect c ≡ c
    off h = rw h refl

pub on_close-Ended :
    (n : ℕ) (f : List Frame) (code : ℕ) (c : WsClient) → Ended n f c → Ended n f (on_close code c)
unfolding on_close schedule_reconnect
on_close-Ended n f code c v = elim (Bool-cases (eqb code 1000 || c.closed)) [
  | inl e ↦ rw e (set_status-Ended n f ConnectionStatus.closed c v)
  | inr e ↦ absurd (ground (arith, e, v.shut_off))
]
