-- ===== src/Rpc/Relay/Tidy.antt =====
-- A relay client that is connected again only when nothing of an earlier connection is left has one
-- socket at most, or one timer (web/src/core/ws/relay-client.ts).
use mobilecoding.Base.{
  ℕ, zero, suc, ◌≡◌, ◌≢◌, ◌⊎◌, refl, sym, ap, ◌∙◌, String, Bool, true, false, Option, none, some,
  List, [], ◌∷◌, ◌++◌, length, get_elem?, set, eqb, if◌then◌else◌, Bool-cases, inl, inr, arith,
  ◌||◌, eqb_refl,
}
use mobilecoding.Event.{ConnectionStatus, AppEvent}
use mobilecoding.Chat.Io.{RelayConfig}
use mobilecoding.Rpc.Reconnect.{reconnect_delay}
use mobilecoding.Rpc.Web.{ReadyState, connecting, opened, closing, gone, Retry, rank}
use mobilecoding.Rpc.Web.Steps.{is_alive}
use mobilecoding.Rpc.Relay.{
  RelayClient, RelayFrame, has_config, make_socket, do_connect_relay, close_relay, put_frame,
  pair_with, open_socket, schedule_relay, on_close_relay, retries_without, sockets_without,
  deliver_to,
}

-- Every socket has closed.
abbrev pub IsDead : List ReadyState → Type 0
IsDead sockets = (j : ℕ) → is_alive (get_elem? sockets j) ≡ false

-- A socket that has not closed is the current one.
abbrev pub IsOnly : Option ℕ → List ReadyState → Type 0
IsOnly ws sockets = (j : ℕ) → is_alive (get_elem? sockets j) ≡ true → ws ≡ some j

-- No timer is set, or it is the known one and every socket has closed.
abbrev pub IsTimed : Option ℕ → List Retry → List ReadyState → Type 0
IsTimed timer retries sockets =
    (retries ≡ []) ⊎ (IsDead sockets × (r : Retry) × (retries ≡ r ∷ []) × (timer ≡ some r.handle))

abbrev pub IsLive : RelayClient → Type 0
IsLive c =
    (c.closed ≡ false) × IsOnly c.ws c.sockets × IsTimed c.reconnect_timer c.retries c.sockets

abbrev pub is_working : Option ReadyState → Bool
is_working none = false
is_working (some connecting) = true
is_working (some opened) = true
is_working (some closing) = false
is_working (some gone) = false

-- Closed for good: no socket that works, no timer.
abbrev pub IsQuiet : RelayClient → Type 0
IsQuiet c =
    (c.closed ≡ true)
    × (c.ws ≡ none)
    × (c.retries ≡ [])
    × ((j : ℕ) → is_working (get_elem? c.sockets j) ≡ false)
    × (c.status ≡ ConnectionStatus.closed)

dead-last :
    (xs : List ReadyState) (j : ℕ)
    → IsDead xs
    → is_alive (get_elem? (xs ++ connecting ∷ []) j) ≡ true
    → length xs ≡ j
dead-last [] zero n h = refl
dead-last [] (suc j) n h = cc
dead-last (x ∷ xs) zero n h = let k = n 0 in cc
dead-last (x ∷ xs) (suc j) n h = ap suc (dead-last xs j (λ k. n (suc k)) h)

pub alive-set :
    (xs : List ReadyState) (i j : ℕ) (v : ReadyState)
    → is_alive (get_elem? xs i) ≡ true
    → is_alive (get_elem? (set xs i v) j) ≡ true
    → is_alive (get_elem? xs j) ≡ true
alive-set [] i j v a h = cc
alive-set (x ∷ xs) zero zero v a h = a
alive-set (x ∷ xs) zero (suc j) v a h = h
alive-set (x ∷ xs) (suc i) zero v a h = h
alive-set (x ∷ xs) (suc i) (suc j) v a h = alive-set xs i j v a h

-- A socket that closes is not alive.
gone-set : (xs : List ReadyState) (i : ℕ) → is_alive (get_elem? (set xs i gone) i) ≡ false
gone-set [] i = refl
gone-set (x ∷ xs) zero = refl
gone-set (x ∷ xs) (suc i) = gone-set xs i

some_injective : (a b : ℕ) → some a ≡ some b → a ≡ b
some_injective a b e = cc

-- Once the only socket has closed, every one has.
pub IsDead-gone :
    (ws : Option ℕ) (xs : List ReadyState) (i : ℕ)
    → IsOnly ws xs
    → is_alive (get_elem? xs i) ≡ true
    → IsDead (set xs i gone)
IsDead-gone ws xs i o a j = elim (Bool-cases (is_alive (get_elem? (set xs i gone) j))) [
  | inr e ↦ e
  | inl e ↦
      let old = alive-set xs i j gone a e in
      let same : i ≡ j = some_injective i j (sym (o i a) ∙ o j old) in
      absurd
        (false≢ (sym (gone-set xs i) ∙ ap (λ k. is_alive (get_elem? (set xs i gone) k)) same ∙ e))
]
  where
    false≢ : false ≡ true → ⊥
    false≢ e = cc

-- A socket that has not closed leaves no timer.
pub no_timer :
    (timer : Option ℕ) (rs : List Retry) (xs : List ReadyState) (i : ℕ)
    → IsTimed timer rs xs
    → is_alive (get_elem? xs i) ≡ true
    → rs ≡ []
no_timer timer rs xs i (inl e) a = e
no_timer timer rs xs i (inr (d, r, e, t)) a = let k = d i in cc

make_socket-IsLive :
    (c : RelayClient)
    → c.closed ≡ false
    → IsDead c.sockets
    → c.retries ≡ []
    → IsLive (make_socket c)
unfolding make_socket
make_socket-IsLive c o d r = (o, (λ j h. ap some (dead-last c.sockets j d h)), inl r)

pub put_frame-IsLive :
    (o : Option ℕ) (f : RelayFrame) (c : RelayClient) → IsLive c → IsLive (put_frame o f c)
put_frame-IsLive none f c v = v
put_frame-IsLive (some i) f c v = v

pub pair_with-IsLive :
    (k : Option RelayConfig) (c : RelayClient) → IsLive c → IsLive (pair_with k c)
pair_with-IsLive none c v = v
pair_with-IsLive (some k) c v = put_frame-IsLive (open_socket c) _ c v

pub deliver_to-IsLive :
    (read : String → String → Option AppEvent) (e : Option AppEvent) (sid : String)
    (c : RelayClient)
    → IsLive c
    → IsLive (deliver_to read e sid c)
deliver_to-IsLive read none sid c v = v
deliver_to-IsLive read (some ev) sid c v = v

if-IsLive : (b : Bool) (x y : RelayClient) → IsLive x → IsLive y → IsLive (if b then x else y)
if-IsLive true x y v w = v
if-IsLive false x y v w = w

-- No socket is left, and no timer.
pub idle-IsLive :
    (c : RelayClient) → c.closed ≡ false → IsDead c.sockets → c.retries ≡ [] → IsLive c
idle-IsLive c o d r = (o, (λ j h. let k = d j in cc), inl r)

schedule_relay-IsLive :
    (c : RelayClient)
    → c.closed ≡ false
    → IsDead c.sockets
    → c.retries ≡ []
    → IsLive (schedule_relay c)
unfolding schedule_relay
schedule_relay-IsLive c o d r =
    let t : Retry = record {
      handle = c.retries_made;
      delay = reconnect_delay c.reconnect_attempt;
    } in
    (o, (λ j h. let k = d j in cc), inr (d, t, ap (λ l. l ++ t ∷ []) r, refl))

-- The last socket closes: the client stays closed, or a timer is set.
pub on_close_relay-IsLive :
    (code : ℕ) (c : RelayClient)
    → c.closed ≡ false
    → IsDead c.sockets
    → c.retries ≡ []
    → IsLive (on_close_relay code c)
unfolding on_close_relay
on_close_relay-IsLive code c o d r =
    if-IsLive (eqb code 1000 || c.closed) _ _ (idle-IsLive c o d r) (schedule_relay-IsLive c o d r)

pub do_connect_relay-IsLive :
    (c : RelayClient)
    → c.closed ≡ false
    → IsDead c.sockets
    → c.retries ≡ []
    → IsLive (do_connect_relay c)
unfolding do_connect_relay
do_connect_relay-IsLive c o d r =
    if-IsLive c.closed _ _ (idle-IsLive c o d r)
      (if-IsLive (has_config c.config) _ _ (make_socket-IsLive c o d r) (idle-IsLive c o d r))

-- The timer that is set is the one that is cleared.
retries_without-IsTimed :
    (timer : Option ℕ) (rs : List Retry) (xs : List ReadyState)
    → IsTimed timer rs xs
    → retries_without timer rs ≡ []
retries_without-IsTimed none rs xs (inl e) = e
retries_without-IsTimed (some h) rs xs (inl e) = rw e refl
retries_without-IsTimed timer rs xs (inr (d, r, e, t)) = rw (t, e, eqb_refl r.handle) refl

pub working-alive : (o : Option ReadyState) → is_working o ≡ true → is_alive o ≡ true
working-alive none e = cc
working-alive (some connecting) e = refl
working-alive (some opened) e = refl
working-alive (some closing) e = cc
working-alive (some gone) e = cc

working-set :
    (xs : List ReadyState) (i j : ℕ)
    → is_working (get_elem? (set xs i closing) j) ≡ true
    → (is_alive (get_elem? xs j) ≡ true) × (i ≢ j)
working-set [] i j h = cc
working-set (x ∷ xs) zero zero h = cc
working-set (x ∷ xs) zero (suc j) h =
    (working-alive (get_elem? xs j) h, λ p. absurd (omega (arith, p)))
working-set (x ∷ xs) (suc i) zero h = (working-alive (some x) h, λ p. absurd (omega (arith, p)))
working-set (x ∷ xs) (suc i) (suc j) h =
    let (k, d) = working-set xs i j h in (k, λ p. d (omega (arith, p)))

none_working :
    (ws : Option ℕ) (xs : List ReadyState) (j : ℕ)
    → IsOnly ws xs
    → is_working (get_elem? (sockets_without ws xs) j) ≡ true
    → ⊥
none_working none xs j o h = let k = o j (working-alive (get_elem? xs j) h) in cc
none_working (some i) xs j o h = let (k, d) = working-set xs i j h in d (some_injective i j (o j k))

pub status_closed :
    (s : ConnectionStatus)
    → (if eqb (rank s) (rank ConnectionStatus.closed) then s else ConnectionStatus.closed)
      ≡ ConnectionStatus.closed
status_closed ConnectionStatus.idle = refl
status_closed ConnectionStatus.connecting = refl
status_closed ConnectionStatus.connected = refl
status_closed ConnectionStatus.reconnecting = refl
status_closed ConnectionStatus.closed = refl

pub close_relay-IsQuiet : (c : RelayClient) → IsLive c → IsQuiet (close_relay c)
unfolding close_relay
close_relay-IsQuiet c (o, only, timed) = (
  refl,
  refl,
  retries_without-IsTimed c.reconnect_timer c.retries c.sockets timed,
  (λ j. elim (Bool-cases (is_working (get_elem? (sockets_without c.ws c.sockets) j))) [
    | inr e ↦ e
    | inl e ↦ absurd (none_working c.ws c.sockets j only e)
  ]),
  status_closed c.status,
)
