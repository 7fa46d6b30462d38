-- ===== src/Rpc/Rejection.antt =====
-- The requests over the operations that reject them (web/src/core/ws/ws-client.ts).
use mathlib.Core.List.{append-nil, append_assoc}
use mobilecoding.Base.{ℕ, ◌≡◌, refl, ap, ◌∙◌, String, List, [], ◌∷◌, ◌++◌, arith, eqb_refl}
use mobilecoding.Rpc.Calls.{
  Request, Entry, Outcome, rejected, Calls, remove_first, has_call, reject_each, reject_all,
  reject_requests, reject_queue,
}
use mobilecoding.Rpc.Ledger.{in_queue, in_entries, in_settled, Inv, in_settled-append}

-- What rejecting the entries does: their timers go, and each gets its error, in order.
abbrev pub rejections : String → List Entry → List (ℕ × Outcome)
rejections msg [] = []
rejections msg (e ∷ es) = (e.ticket, rejected msg) ∷ rejections msg es

pub in_settled-rejections :
    (t : ℕ) (msg : String) (es : List Entry) → in_settled t (rejections msg es) ≡ in_entries t es
in_settled-rejections t msg [] = refl
in_settled-rejections t msg (e ∷ es) = omega (arith, in_settled-rejections t msg es)

reject_each_lem :
    (msg : String) (es : List Entry) (c : Calls)
    → c.timers ≡ es
    → reject_each msg es c ≡ record c { timers = []; settled = c.settled ++ rejections msg es }
unfolding reject_each
reject_each_lem msg [] c h = ground (arith, h, append-nil c.settled)
reject_each_lem msg (e ∷ es) c h =
    reject_each_lem msg es _
      (ap (remove_first (has_call e.call)) h ∙ ground (arith, eqb_refl e.call))
    ∙ ap (λ l. record c { timers = []; settled = l })
        (append_assoc c.settled ((e.ticket, rejected msg) ∷ []) (rejections msg es))

-- Rejecting all pending requests: no entry and no timer is left, and each promise gets the error.
pub reject_all_lem :
    (msg : String) (c : Calls)
    → Inv c
    → reject_all msg c
      ≡ record c { pending = []; timers = []; settled = c.settled ++ rejections msg c.pending }
unfolding reject_all
reject_all_lem msg c v =
    ap (λ (d : Calls). record d { pending = [] }) (reject_each_lem msg c.pending c v.armed)

pub reject_all-Inv : (msg : String) (c : Calls) → Inv c → Inv (reject_all msg c)
reject_all-Inv msg c v = rw (reject_all_lem msg c v) (record {
  armed = refl;
  used = tt;
  once = λ t. omega (
    arith,
    v.once t,
    in_settled-append t c.settled (rejections msg c.pending),
    in_settled-rejections t msg c.pending,
  );
})

abbrev pub refusals : String → List Request → List (ℕ × Outcome)
refusals msg [] = []
refusals msg (r ∷ rs) = (r.ticket, rejected msg) ∷ refusals msg rs

pub in_settled-refusals :
    (t : ℕ) (msg : String) (rs : List Request) → in_settled t (refusals msg rs) ≡ in_queue t rs
in_settled-refusals t msg [] = refl
in_settled-refusals t msg (r ∷ rs) = omega (arith, in_settled-refusals t msg rs)

reject_requests_lem :
    (msg : String) (rs : List Request) (c : Calls)
    → reject_requests msg rs c ≡ record c { settled = c.settled ++ refusals msg rs }
unfolding reject_requests
reject_requests_lem msg [] c = ground (arith, append-nil c.settled)
reject_requests_lem msg (r ∷ rs) c =
    reject_requests_lem msg rs _
    ∙ ap (λ l. record c { settled = l })
        (append_assoc c.settled ((r.ticket, rejected msg) ∷ []) (refusals msg rs))

pub reject_queue_lem :
    (msg : String) (c : Calls)
    → reject_queue msg c ≡ record c { queue = []; settled = c.settled ++ refusals msg c.queue }
unfolding reject_queue
reject_queue_lem msg c = reject_requests_lem msg c.queue (record c { queue = [] })

pub reject_queue-Inv : (msg : String) (c : Calls) → Inv c → Inv (reject_queue msg c)
reject_queue-Inv msg c v = rw (reject_queue_lem msg c) (record {
  armed = v.armed;
  used = v.used;
  once = λ t. omega (
    arith,
    v.once t,
    in_settled-append t c.settled (refusals msg c.queue),
    in_settled-refusals t msg c.queue,
  );
})
