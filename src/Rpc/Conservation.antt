-- ===== src/Rpc/Conservation.antt =====
-- The requests over each operation on them (web/src/core/ws/ws-client.ts).
use mobilecoding.Base.{
  ℕ, ◌+◌, ◌<◌, ◌≡◌, refl, sym, ap, subst, ◌∙◌, String, Bool, true, false, Option, some, List, [],
  ◌∷◌, ◌++◌, arith, eqb, any, All, All-append, All-mono, if◌then◌else◌, ◌==◌, eq_iff, Option-cases,
  Bool-cases, inl, inr, eq_refl,
}
use mobilecoding.Json.{Json}
use mobilecoding.Rpc.Calls.{
  Request, Entry, Outcome, rejected, Calls, find_first, remove_first, has_call, enqueue, has_id,
  put, do_send, send, send_all, flush, respond, time_out,
}
use mobilecoding.Rpc.Ledger.{
  in_queue, places, Inv, in_queue-append, in_entries-append, in_settled-append,
  in_entries-remove_first, All-remove_first, remove_first-agree, find_first-agree, find_first_sound,
}

enqueue-places :
    (t : ℕ) (r : Request) (c : Calls)
    → places t (enqueue r c) ≡ places t c + (if eqb r.ticket t then 1 else 0)
unfolding enqueue
enqueue-places t r c = omega (arith, in_queue-append t c.queue (r ∷ []))

-- Ids are made once: `crypto.randomUUID()`, or a text with a counter.
module _ (id_of : ℕ → String) (distinct : (m n : ℕ) → id_of m ≡ id_of n → m ≡ n) where
  same_entry : (e x : Entry) → has_id id_of (id_of e.call) x ≡ has_call e.call x
  same_entry e x = elim (Bool-cases (id_of x.call == id_of e.call)) [
    | inl q ↦
        rw q (ground (arith, distinct x.call e.call ((eq_iff (id_of x.call) (id_of e.call)).0 q)))
    | inr q ↦ elim (Bool-cases (eqb x.call e.call)) [
      | inr k ↦ rw (q, k)
      | inl k ↦
          let same : x.call ≡ e.call = ground arith in
          cc (q, ap (λ n. id_of n == id_of e.call) same, eq_refl (id_of e.call))
    ]
  ]

  pub not_used :
      (n : ℕ) (es : List Entry) → All (λ e. e.call < n) es → any (has_id id_of (id_of n)) es ≡ false
  not_used n [] h = refl
  not_used n (e ∷ es) (h, hs) = elim (Bool-cases (id_of e.call == id_of n)) [
    | inl q ↦
        let same : e.call ≡ n = distinct e.call n ((eq_iff (id_of e.call) (id_of n)).0 q) in
        absurd (omega arith)
    | inr q ↦ rw q (not_used n es hs)
  ]

  pub put-new :
      (e : Entry) (es : List Entry) → All (λ x. x.call < e.call) es → put id_of e es ≡ es ++ e ∷ []
  unfolding put
  put-new e es h = rw (not_used e.call es h)

  -- A request that is sent moves to the pending ones.
  pub do_send-Inv :
      (method : String) (params : Option Json) (ticket : ℕ) (c : Calls)
      → c.timers ≡ c.pending
      → All (λ e. e.call < c.made) c.pending
      → let d = do_send id_of method params ticket c in
        (d.timers ≡ d.pending)
        × All (λ e. e.call < d.made) d.pending
        × ((t : ℕ) → places t d ≡ places t c + (if eqb ticket t then 1 else 0))
        × (d.issued ≡ c.issued)
  unfolding do_send
  do_send-Inv method params ticket c armed used = (
    ap (λ l. l ++ e ∷ []) armed ∙ sym added,
    subst (All (λ x. x.call < c.made + 1)) (sym added) (
        All-append _ c.pending (e ∷ []) (All-mono _ _ c.pending (λ x h. omega arith) used)
          (omega arith, tt)),
    (λ t. rw added (omega (arith, in_entries-append t c.pending (e ∷ [])))),
    refl,
  )
    where
      e : Entry
      e = record { call = c.made; method = method; ticket = ticket }

      added : put id_of e c.pending ≡ c.pending ++ e ∷ []
      added = put-new e c.pending used

  pub send-Inv :
      (open_now : Bool) (method : String) (params : Option Json) (c : Calls)
      → Inv c
      → Inv (send id_of open_now method params c)
  unfolding send enqueue
  send-Inv true method params c v =
      let (a, u, o, i) =
        do_send-Inv method params c.issued (record c { issued = c.issued + 1 }) v.armed v.used in
      record { armed = a; used = u; once = λ t. ground (arith, o t, i, v.once t) }
  send-Inv false method params c v = record {
    armed = v.armed;
    used = v.used;
    once = λ t. ground (
      arith,
      enqueue-places t (record { method = method; params = params; ticket = c.issued })
          (record c { issued = c.issued + 1 }),
      v.once t,
    );
  }

  send_all-Inv :
      (rs : List Request) (c : Calls)
      → c.timers ≡ c.pending
      → All (λ e. e.call < c.made) c.pending
      → let d = send_all id_of rs c in
        (d.timers ≡ d.pending)
        × All (λ e. e.call < d.made) d.pending
        × ((t : ℕ) → places t d ≡ places t c + in_queue t rs)
        × (d.issued ≡ c.issued)
  unfolding send_all
  send_all-Inv [] c armed used = (armed, used, (λ t. omega arith), refl)
  send_all-Inv (r ∷ rs) c armed used =
      let (a, u, o, i) = do_send-Inv r.method r.params r.ticket c armed used in
      let (a', u', o', i') = send_all-Inv rs _ a u in
      (a', u', (λ t. omega (arith, o t, o' t)), i' ∙ i)

  pub flush-Inv : (c : Calls) → Inv c → Inv (flush id_of c)
  unfolding flush
  flush-Inv c v =
      let (a, u, o, i) = send_all-Inv c.queue (record c { queue = [] }) v.armed v.used in
      record { armed = a; used = u; once = λ t. rw i (omega (arith, o t, v.once t)) }

  -- The search by id and the search by timer agree on an entry that one of them finds.
  agree :
      (e x : Entry) (id : String) → has_id id_of id e ≡ true → has_id id_of id x ≡ has_call e.call x
  agree e x id h =
      ap (λ i. id_of x.call == i) (sym ((eq_iff (id_of e.call) id).0 h)) ∙ same_entry e x

  pub respond-Inv : (id : String) (o : Outcome) (c : Calls) → Inv c → Inv (respond id_of id o c)
  unfolding respond
  respond-Inv id o c v = elim (Option-cases (find_first (has_id id_of id) c.pending)) [
    | inl n ↦ rw (n, respond) v
    | inr (e, f) ↦
        rw (f, respond)
          (record {
            armed =
                ap (remove_first (has_call e.call)) v.armed
                ∙ sym (
                    remove_first-agree _ _ c.pending
                      (λ x. agree e x id (find_first_sound _ c.pending e f)));
            used = All-remove_first _ _ c.pending v.used;
            once = λ t. omega (
              arith,
              v.once t,
              in_entries-remove_first t _ c.pending e f,
              in_settled-append t c.settled ((e.ticket, o) ∷ []),
            );
          })
  ]

  pub time_out-Inv :
      (msg : String → String) (n : ℕ) (c : Calls) → Inv c → Inv (time_out id_of msg n c)
  unfolding time_out
  time_out-Inv msg n c v = elim (Option-cases (find_first (has_call n) c.timers)) [
    | inl m ↦ rw (m, time_out) v
    | inr (e, f) ↦
        let same : e.call ≡ n = ground (arith, find_first_sound (has_call n) c.timers e f) in
        let found : find_first (has_id id_of (id_of e.call)) c.pending ≡ some e =
          find_first-agree _ _ c.pending (λ x. same_entry e x ∙ ap (eqb x.call) same)
          ∙ ap (find_first (has_call n)) (sym v.armed)
          ∙ f in
        rw (f, time_out)
          (record {
            armed =
                ap (remove_first (has_call n)) v.armed
                ∙ sym
                    (remove_first-agree _ _ c.pending (λ x. same_entry e x ∙ ap (eqb x.call) same));
            used = All-remove_first _ _ c.pending v.used;
            once = λ t. omega (
              arith,
              v.once t,
              in_entries-remove_first t _ c.pending e found,
              in_settled-append t c.settled ((e.ticket, rejected (msg e.method)) ∷ []),
            );
          })
  ]
