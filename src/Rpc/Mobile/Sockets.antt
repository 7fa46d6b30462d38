-- ===== src/Rpc/Mobile/Sockets.antt =====
-- The sockets of the phone's client over its steps (mobile/src/services/network/WSClient.ts).
use mobilecoding.Base.{
  ℕ, zero, suc, ◌≡◌, ◌≢◌, refl, ap, String, true, false, Option, none, some, List, [], ◌∷◌, ◌++◌,
  length, get_elem?, set, eqb, any, Bool-cases, Option-cases, inl, inr, arith,
}
use mobilecoding.Rpc.Web.{ReadyState, connecting, opened, closing, gone, Envelope}
use mobilecoding.Rpc.Web.Envelope.{req, resp_ok, resp_err, resp_bare, evt}
use mobilecoding.Rpc.Web.Steps.{
  Input, connects, closes, sends, socket_opens, socket_gets, socket_closes, request_timer,
  retry_timer, is_connecting, is_alive,
}
use mobilecoding.Rpc.Mobile.{
  MobileClient, connect_mobile, disconnect_mobile, schedule_again, handle_open, send_mobile,
  handle_message, step_mobile, is_closed, close_at,
}

-- No socket is being opened.
abbrev pub IsSettled : List ReadyState → Type 0
IsSettled sockets = (j : ℕ) → is_connecting (get_elem? sockets j) ≡ false

-- A socket that is being opened is the current one.
abbrev pub IsSingle : Option ℕ → List ReadyState → Type 0
IsSingle ws sockets = (j : ℕ) → is_connecting (get_elem? sockets j) ≡ true → ws ≡ some j

-- A socket is made only while none is being opened.
abbrev pub IsCalm : Input → MobileClient → Type 0
IsCalm (connects token) c = IsSettled c.sockets
IsCalm (retry_timer h) c = IsSettled c.sockets
IsCalm _ c = Unit {0}

connecting-last :
    (xs : List ReadyState) (j : ℕ)
    → IsSettled xs
    → is_connecting (get_elem? (xs ++ connecting ∷ []) j) ≡ true
    → length xs ≡ j
connecting-last [] zero n h = refl
connecting-last [] (suc j) n h = cc
connecting-last (x ∷ xs) zero n h = let k = n 0 in cc
connecting-last (x ∷ xs) (suc j) n h = ap suc (connecting-last xs j (λ k. n (suc k)) h)

connecting-set :
    (xs : List ReadyState) (i j : ℕ) (v : ReadyState)
    → is_connecting (some v) ≡ false
    → is_connecting (get_elem? (set xs i v) j) ≡ true
    → (is_connecting (get_elem? xs j) ≡ true) × (i ≢ j)
connecting-set [] i j v e h = cc
connecting-set (x ∷ xs) zero zero v e h = cc
connecting-set (x ∷ xs) zero (suc j) v e h = (h, λ p. absurd (omega (arith, p)))
connecting-set (x ∷ xs) (suc i) zero v e h = (h, λ p. absurd (omega (arith, p)))
connecting-set (x ∷ xs) (suc i) (suc j) v e h =
    let (k, d) = connecting-set xs i j v e h in (k, λ p. d (omega (arith, p)))

pub IsSingle-set :
    (ws : Option ℕ) (xs : List ReadyState) (i : ℕ) (v : ReadyState)
    → is_connecting (some v) ≡ false
    → IsSingle ws xs
    → IsSingle ws (set xs i v)
IsSingle-set ws xs i v e s j h = s j (connecting-set xs i j v e h).0

pub IsSingle-connect :
    (ws : Option ℕ) (xs : List ReadyState)
    → IsSettled xs
    → IsSingle (some (length xs)) (xs ++ connecting ∷ [])
IsSingle-connect ws xs n j h = ap some (connecting-last xs j n h)

-- The current socket is given up.
IsSingle-drop :
    (i : ℕ) (xs : List ReadyState) → IsSingle (some i) xs → IsSingle none (set xs i closing)
IsSingle-drop i xs s j h =
    let (k, d) = connecting-set xs i j closing refl h in absurd (d (some_injective i j (s j k)))
  where
    some_injective : (a b : ℕ) → some a ≡ some b → a ≡ b
    some_injective a b e = cc

pub schedule_again-fields :
    (c : MobileClient)
    → ((schedule_again c).ws ≡ c.ws)
      × ((schedule_again c).sockets ≡ c.sockets)
      × ((schedule_again c).calls ≡ c.calls)
unfolding schedule_again
schedule_again-fields c = elim (Bool-cases (is_closed c.status)) [
  | inl e ↦ rw e (refl, refl, refl)
  | inr e ↦ rw e (refl, refl, refl)
]

pub disconnect_mobile-fields :
    (c : MobileClient)
    → ((disconnect_mobile c).ws ≡ none)
      × ((disconnect_mobile c).sockets ≡ close_at c.ws c.sockets)
      × ((disconnect_mobile c).calls ≡ c.calls)
unfolding disconnect_mobile
disconnect_mobile-fields c = elim (Option-cases c.reconnect_timer) [
  | inl e ↦ rw (e, disconnect_mobile) (refl, refl, refl)
  | inr (h, e) ↦ rw (e, disconnect_mobile) (refl, refl, refl)
]

pub close_at-IsSingle :
    (ws : Option ℕ) (xs : List ReadyState) → IsSingle ws xs → IsSingle none (close_at ws xs)
close_at-IsSingle none xs s = s
close_at-IsSingle (some i) xs s = IsSingle-drop i xs s

pub connecting-some : (o : Option ReadyState) → is_connecting o ≡ true → o ≡ some connecting
connecting-some none e = cc
connecting-some (some connecting) e = refl
connecting-some (some opened) e = cc
connecting-some (some closing) e = cc
connecting-some (some gone) e = cc

module _ (id_of : ℕ → String) where
  handle_message-IsSingle :
      (env : Envelope) (c : MobileClient)
      → IsSingle c.ws c.sockets
      → IsSingle (handle_message id_of env c).ws (handle_message id_of env c).sockets
  unfolding handle_message
  handle_message-IsSingle (req id method params) c s = s
  handle_message-IsSingle (resp_ok id r) c s = s
  handle_message-IsSingle (resp_err id m) c s = s
  handle_message-IsSingle (resp_bare id) c s = s
  handle_message-IsSingle (evt sid ev) c s = s

  pub step_mobile-IsSingle :
      (i : Input) (c : MobileClient)
      → IsCalm i c
      → IsSingle c.ws c.sockets
      → IsSingle (step_mobile id_of i c).ws (step_mobile id_of i c).sockets
  unfolding step_mobile connect_mobile send_mobile handle_open
  step_mobile-IsSingle (connects token) c n s = IsSingle-connect c.ws c.sockets n
  step_mobile-IsSingle closes c n s =
      let (w, x, k) = disconnect_mobile-fields c in rw (w, x) (close_at-IsSingle c.ws c.sockets s)
  step_mobile-IsSingle (sends method params) c n s = s
  step_mobile-IsSingle (socket_opens i) c n s =
      elim (Bool-cases (is_connecting (get_elem? c.sockets i))) [
        | inl e ↦ rw e (IsSingle-set c.ws c.sockets i opened refl s)
        | inr e ↦ rw e s
      ]
  step_mobile-IsSingle (socket_gets env) c n s = handle_message-IsSingle env c s
  step_mobile-IsSingle (socket_closes i code) c n s =
      elim (Bool-cases (is_alive (get_elem? c.sockets i))) [
        | inl e ↦
            let (w, x, k) = schedule_again-fields (record c { sockets = set c.sockets i gone }) in
            rw (e, w, x) (IsSingle-set c.ws c.sockets i gone refl s)
        | inr e ↦ rw e s
      ]
  step_mobile-IsSingle (request_timer m) c n s = s
  step_mobile-IsSingle (retry_timer h) c n s =
      elim (Bool-cases (any (λ r. eqb r.handle h) c.retries)) [
        | inl e ↦ rw e (IsSingle-connect c.ws c.sockets n)
        | inr e ↦ rw e s
      ]
