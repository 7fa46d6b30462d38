-- ===== src/Rpc/Calls.antt =====
-- The bookkeeping of requests that the WebSocket clients share: `send`, `doSend`, the handling of a
-- response, the time limit of a request, and the queue that is sent when a connection opens
-- (web/src/core/ws/ws-client.ts, mobile/src/screens/TerminalScreen.tsx).
-- A promise is a ticket, numbered in the order of the calls of `send`; a call of its `resolve` or
-- `reject` is an entry of `settled`. The n-th call of `doSend` makes the id `id_of n` and a timer,
-- whose handle is n.
use mobilecoding.Base.{
  ℕ, ◌+◌, String, Bool, Option, none, some, List, [], ◌∷◌, ◌++◌, eqb, if◌then◌else◌, ◌==◌, any,
}
use mobilecoding.Json.{Json}

pub record Request : Type 0 where
  pub method : String
  pub params : Option Json
  pub ticket : ℕ

-- An entry of `pendingRequests`, and what its timer's callback knows.
pub record Entry : Type 0 where
  pub call : ℕ
  pub method : String
  pub ticket : ℕ

pub data Outcome : Type 0 where
  resolved : Option Json → Outcome
  rejected : String → Outcome

-- `{ type: 'req', id, method, params }`
pub record Frame : Type 0 where
  pub id : String
  pub method : String
  pub params : Option Json

pub record Calls : Type 0 where
  pub queue : List Request
  pub pending : List Entry
  pub timers : List Entry
  pub settled : List (ℕ × Outcome)
  pub sent : List Frame
  pub issued : ℕ
  pub made : ℕ

abbrev pub no_calls : Calls
no_calls = record {
  queue = [];
  pending = [];
  timers = [];
  settled = [];
  sent = [];
  issued = 0;
  made = 0;
}

abbrev pub find_first : (Entry → Bool) → List Entry → Option Entry
find_first p [] = none
find_first p (e ∷ es) = if p e then some e else find_first p es

abbrev pub remove_first : (Entry → Bool) → List Entry → List Entry
remove_first p [] = []
remove_first p (e ∷ es) = if p e then es else e ∷ remove_first p es

abbrev pub replace_first : (Entry → Bool) → Entry → List Entry → List Entry
replace_first p x [] = []
replace_first p x (e ∷ es) = if p e then x ∷ es else e ∷ replace_first p x es

abbrev pub has_call : ℕ → Entry → Bool
has_call n e = eqb e.call n

abbrev pub settle : ℕ → Outcome → Calls → Calls
settle t o c = record c { settled = c.settled ++ (t, o) ∷ [] }

-- `requestQueue.push(…)`
unfoldable pub enqueue : Request → Calls → Calls
enqueue r c = record c { queue = c.queue ++ r ∷ [] }

module _ (id_of : ℕ → String) where
  abbrev pub has_id : String → Entry → Bool
  has_id id e = id_of e.call == id

  -- `Map.set`: an entry with the same key gives way.
  unfoldable pub put : Entry → List Entry → List Entry
  put e es =
      if any (has_id (id_of e.call)) es
      then replace_first (has_id (id_of e.call)) e es
      else es ++ e ∷ []

  unfoldable pub do_send : String → Option Json → ℕ → Calls → Calls
  do_send method params ticket c =
      let e : Entry = record { call = c.made; method = method; ticket = ticket } in
      record c {
        pending = put e c.pending;
        timers = c.timers ++ e ∷ [];
        sent = c.sent ++ record { id = id_of c.made; method = method; params = params } ∷ [];
        made = c.made + 1;
      }

  -- `send`, with whether the connection is open.
  unfoldable pub send : Bool → String → Option Json → Calls → Calls
  send open_now method params c =
      let c' : Calls = record c { issued = c.issued + 1 } in
      if open_now
      then do_send method params c.issued c'
      else enqueue (record { method = method; params = params; ticket = c.issued }) c'

  -- The queued requests in their order, each sent.
  unfoldable pub send_all : List Request → Calls → Calls
  send_all [] c = c
  send_all (r ∷ rs) c = send_all rs (do_send r.method r.params r.ticket c)

  -- `flushQueue` with a connection that is open.
  unfoldable pub flush : Calls → Calls
  flush c = send_all c.queue (record c { queue = [] })

  -- A response: the entry goes, its timer is cleared, its promise is settled.
  unfoldable pub respond : String → Outcome → Calls → Calls
  respond id o c = elim (find_first (has_id id) c.pending) [
    | none ↦ c
    | some e ↦ settle e.ticket o (record c {
      pending = remove_first (has_id id) c.pending;
      timers = remove_first (has_call e.call) c.timers;
    })
  ]

  -- A timer runs out; `msg` is the error for the method. A handle that is not armed does nothing.
  unfoldable pub time_out : (String → String) → ℕ → Calls → Calls
  time_out msg n c = elim (find_first (has_call n) c.timers) [
    | none ↦ c
    | some e ↦ settle e.ticket (rejected (msg e.method)) (record c {
      pending = remove_first (has_id (id_of e.call)) c.pending;
      timers = remove_first (has_call n) c.timers;
    })
  ]

-- Each of the entries: its timer is cleared, its promise rejected.
unfoldable pub reject_each : String → List Entry → Calls → Calls
reject_each msg [] c = c
reject_each msg (e ∷ es) c =
    reject_each msg es (
      settle e.ticket (rejected msg)
        (record c { timers = remove_first (has_call e.call) c.timers }))

-- `rejectAllPending`
unfoldable pub reject_all : String → Calls → Calls
reject_all msg c = record (reject_each msg c.pending c) { pending = [] }

-- The queued requests in their order, each rejected.
unfoldable pub reject_requests : String → List Request → Calls → Calls
reject_requests msg [] c = c
reject_requests msg (r ∷ rs) c = reject_requests msg rs (settle r.ticket (rejected msg) c)

-- The queue, emptied, with each of its requests rejected.
unfoldable pub reject_queue : String → Calls → Calls
reject_queue msg c = reject_requests msg c.queue (record c { queue = [] })
