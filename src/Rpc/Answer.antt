-- ===== src/Rpc/Answer.antt =====
-- A request and its response, and the queue that goes out when a connection opens
-- (web/src/core/ws/ws-client.ts).
use mathlib.Core.List.{append-nil, append_assoc}
use mobilecoding.Base.{
  ℕ, ◌+◌, ◌<◌, ◌≡◌, refl, sym, ap, ◌∙◌, String, Bool, true, false, Option, some, List, [], ◌∷◌,
  ◌++◌, arith, any, All, All-append, All-mono, Bool-cases, inl, inr, eqb_refl, eq_refl, length, suc,
}
use mobilecoding.Json.{Json}
use mobilecoding.Rpc.Calls.{
  Request, Entry, Outcome, Frame, Calls, find_first, remove_first, has_call, has_id, do_send, send,
  send_all, flush, respond,
}
use mobilecoding.Rpc.Ledger.{Inv}
use mobilecoding.Rpc.Conservation.{not_used, put-new}

pub find_first-last :
    (p : Entry → Bool) (es : List Entry) (e : Entry)
    → any p es ≡ false
    → p e ≡ true
    → find_first p (es ++ e ∷ []) ≡ some e
find_first-last p [] e h k = rw k refl
find_first-last p (x ∷ es) e h k = elim (Bool-cases (p x)) [
  | inl q ↦ absurd (ground (arith, q, h))
  | inr q ↦ rw q (find_first-last p es e (rw q at h) k)
]

pub remove_first-last :
    (p : Entry → Bool) (es : List Entry) (e : Entry)
    → any p es ≡ false
    → p e ≡ true
    → remove_first p (es ++ e ∷ []) ≡ es
remove_first-last p [] e h k = rw k refl
remove_first-last p (x ∷ es) e h k = elim (Bool-cases (p x)) [
  | inl q ↦ absurd (ground (arith, q, h))
  | inr q ↦ rw q (ap (λ l. x ∷ l) (remove_first-last p es e (rw q at h) k))
]

pub no_call : (n : ℕ) (es : List Entry) → All (λ e. e.call < n) es → any (has_call n) es ≡ false
no_call n [] h = refl
no_call n (e ∷ es) (h, hs) = ground (arith, no_call n es hs)

-- What sending the requests makes of them, when the next number is n.
abbrev pub entries : ℕ → List Request → List Entry
entries n [] = []
entries n (r ∷ rs) = record { call = n; method = r.method; ticket = r.ticket } ∷ entries (n + 1) rs

module _ (id_of : ℕ → String) where
  abbrev pub frames : ℕ → List Request → List Frame
  frames n [] = []
  frames n (r ∷ rs) =
      record { id = id_of n; method = r.method; params = r.params } ∷ frames (n + 1) rs

module _ (id_of : ℕ → String) (distinct : (m n : ℕ) → id_of m ≡ id_of n → m ≡ n) where
  send_lem :
      (method : String) (params : Option Json) (c : Calls)
      → Inv c
      → let e : Entry = record { call = c.made; method = method; ticket = c.issued } in
        send id_of true method params c ≡ record c {
          pending = c.pending ++ e ∷ [];
          timers = c.timers ++ e ∷ [];
          sent = c.sent ++ record { id = id_of c.made; method = method; params = params } ∷ [];
          issued = c.issued + 1;
          made = c.made + 1;
        }
  unfolding send do_send
  send_lem method params c v =
      rw
        (put-new id_of distinct (record { call = c.made; method = method; ticket = c.issued })
          c.pending v.used)
        refl

  -- Where the ids are distinct and the ledger is in order, a request that is sent on an open
  -- connection, followed by the response with its id, settles the promise of that request with the
  -- response and leaves nothing else behind than the frame sent and the two counters.
  pub respond-send :
      (method : String) (params : Option Json) (o : Outcome) (c : Calls)
      → Inv c
      → respond id_of (id_of c.made) o (send id_of true method params c) ≡ record c {
        sent = c.sent ++ record { id = id_of c.made; method = method; params = params } ∷ [];
        settled = c.settled ++ (c.issued, o) ∷ [];
        issued = c.issued + 1;
        made = c.made + 1;
      }
  unfolding respond
  respond-send method params o c v =
      let e : Entry = record { call = c.made; method = method; ticket = c.issued } in
      let same = eq_refl (id_of c.made) in
      let fresh = not_used id_of distinct c.made c.pending v.used in
      let alarm : remove_first (has_call c.made) (c.timers ++ e ∷ []) ≡ c.timers =
        ap (λ l. remove_first (has_call c.made) (l ++ e ∷ [])) v.armed
        ∙ remove_first-last (has_call c.made) c.pending e (no_call c.made c.pending v.used)
            (eqb_refl c.made)
        ∙ sym v.armed in
      ap (respond id_of (id_of c.made) o) (send_lem method params c v)
      ∙ rw
          (
            find_first-last (has_id id_of (id_of c.made)) c.pending e fresh same,
            respond,
            remove_first-last (has_id id_of (id_of c.made)) c.pending e fresh same,
            alarm,
          )
          refl

  send_all_lem :
      (rs : List Request) (c : Calls)
      → All (λ e. e.call < c.made) c.pending
      → send_all id_of rs c ≡ record c {
        pending = c.pending ++ entries c.made rs;
        timers = c.timers ++ entries c.made rs;
        sent = c.sent ++ frames id_of c.made rs;
        made = c.made + length rs;
      }
  unfolding send_all do_send
  send_all_lem [] c h =
      let none_more : c.made ≡ c.made + 0 = omega arith in
      rw (append-nil c.pending, append-nil c.timers, append-nil c.sent)
        (ap (λ n. record c { made = n }) none_more)
  send_all_lem (r ∷ rs) c h =
      let counted : c.made + 1 + length rs ≡ c.made + suc (length rs) = omega arith in
      let e : Entry = record { call = c.made; method = r.method; ticket = r.ticket } in
      let f : Frame = record { id = id_of c.made; method = r.method; params = r.params } in
      let added = put-new id_of distinct e c.pending h in
      let used =
        All-append (λ x. x.call < c.made + 1) c.pending (e ∷ [])
          (All-mono _ _ c.pending (λ x k. omega arith) h) (omega arith, tt) in
      rw added (
        send_all_lem rs _ used
        ∙ rw
            (
              append_assoc c.pending (e ∷ []) (entries (c.made + 1) rs),
              append_assoc c.timers (e ∷ []) (entries (c.made + 1) rs),
              append_assoc c.sent (f ∷ []) (frames id_of (c.made + 1) rs),
            )
            (rw counted refl))

  -- Where the ids are distinct and the ledger is in order, the queue goes out as a whole when a
  -- connection opens: one frame for each queued request, in the order of the calls, each with a new
  -- id; all of them are pending then, with a timer, and nothing is queued.
  flush_lem :
      (c : Calls)
      → Inv c
      → flush id_of c ≡ record c {
        queue = [];
        pending = c.pending ++ entries c.made c.queue;
        timers = c.timers ++ entries c.made c.queue;
        sent = c.sent ++ frames id_of c.made c.queue;
        made = c.made + length c.queue;
      }
  unfolding flush
  flush_lem c v = send_all_lem c.queue (record c { queue = [] }) v.used
