-- ===== src/Chat/Tests.antt =====
-- The theorems on the chat at concrete inputs (web/src/core/state/ChatContext.tsx).
use mobilecoding.Base.{
  zero, suc, eqb, ℕ, ◌≡◌, refl, String, true, none, some, List, [], ◌∷◌, ◌++◌, arith, take_last,
  if◌then◌else◌,
}
use mobilecoding.Event.{event}
use mobilecoding.Chat.State.{ChatState, Action}
use mobilecoding.Chat.Storage.{Env, load_last_seq, load_messages, load_perm_allowlist}
use mobilecoding.Chat.Reducer.{initial_state, run, reducer}
use mobilecoding.Chat.Receive.{receive, is_for_stopped}
use mobilecoding.Chat.Merge.{join_thinking}
use mobilecoding.Chat.Sync.{IsOpen, after_reload}
use mobilecoding.Chat.Reload.{reload-run}
use mobilecoding.Chat.Bounds.{IsBounded, run-initial_state-IsBounded}
use mobilecoding.Chat.Stream.{Chunk, run-stream, stream, streamed, chunk_event, text_event}
use mobilecoding.Chat.Reply.{run-reply, final_message}
use mobilecoding.Chat.Flush.{
  SendEnd, delivers, queues, fails, Merge, flush_pending, flush_from, queue_all,
  flush_pending-split,
}
use mobilecoding.Chat.Dedup.{receive_twice}
use mobilecoding.Chat.Permission.{run-initial_state-IsPaired, IsPaired}
use mobilecoding.Chat.Turn.{stop-events_of, events_of}
use mobilecoding.Chat.Lists.{IsTidy}
use mobilecoding.Chat.Sample.{blank, here, fresh, base_of, request, hello, history}

fresh_test : initial_state 7 blank ≡ fresh
unfolding initial_state load_last_seq load_messages load_perm_allowlist take_last
fresh_test = refl

here-IsOpen : IsOpen here
here-IsOpen = record { can_set = λ k. refl; can_remove = refl }

reload-run_example :
    let w = run history (initial_state 7 blank, blank) in
    let t = initial_state 9 w.1 in
    (t.last_seq ≡ w.0.last_seq)
    × (t.perm_allowlist ≡ w.0.perm_allowlist)
    × (t.messages ≡ after_reload w.0.messages)
reload-run_example =
    reload-run 7 9 blank history
      (here-IsOpen, (here-IsOpen, (here-IsOpen, (here-IsOpen, (here-IsOpen, tt)))))

run-initial_state-IsBounded_example : IsBounded (run history (initial_state 7 blank, blank)).0
run-initial_state-IsBounded_example = run-initial_state-IsBounded 7 blank history

run-initial_state-IsPaired_example : IsPaired (run history (initial_state 7 blank, blank)).0
run-initial_state-IsPaired_example = run-initial_state-IsPaired 7 blank history

abbrev chunk : ℕ → String → String → Chunk
chunk n id body = record { base = base_of n id; body = body; thinking = none }

abbrev pieces : List (Env × Chunk)
pieces = (here, chunk 6 "m6" "lo ") ∷ (here, chunk 7 "m7" "you") ∷ []

-- A chat with one message in it.
abbrev greeted : ChatState
greeted = record fresh { session_id = some "s"; messages = event hello ∷ [] }

run-stream_example :
    ((run (stream 0 (some "s") ((here, chunk 5 "m5" "hel") ∷ pieces)) (greeted, blank)).0.messages
      ≡ greeted.messages ++ streamed 0 (chunk 5 "m5" "hel") pieces ∷ [])
    × ((run
          (stream 0 (some "s") ((here, chunk 5 "m5" "hel") ∷ pieces))
          (greeted, blank)).0.stopped_session_id
        ≡ greeted.stopped_session_id)
unfolding is_for_stopped
run-stream_example =
    run-stream (some "s") 0 here (chunk 5 "m5" "hel") pieces greeted blank refl (omega arith) refl
      refl (refl, (refl, tt))

run-reply_example :
    (run
      (stream 0 (some "s") ((here, chunk 5 "m5" "hel") ∷ pieces)
        ++ (here, Action.event_received (text_event (chunk 8 "m8" "hello you")) (some "s")) ∷ [])
      (greeted, blank)).0.messages
    ≡ greeted.messages ++ final_message (chunk 8 "m8" "hello you") none ∷ []
unfolding is_for_stopped join_thinking
run-reply_example =
    run-reply (some "s") 0 here here (chunk 5 "m5" "hel") (chunk 8 "m8" "hello you") pieces greeted
      blank refl (omega arith) refl refl (refl, (refl, tt)) refl

stop-events_of_example :
    let w = reducer here Action.session_stopped greeted blank in
    run (events_of "s" ((here, hello) ∷ (here, request) ∷ [])) w ≡ w
stop-events_of_example =
    stop-events_of here "s" ((here, hello) ∷ (here, request) ∷ []) greeted blank refl refl

receive_twice_example :
    let w = receive here hello (some "s") fresh blank in receive here hello none w.0 w.1 ≡ w
unfolding is_for_stopped
receive_twice_example =
    receive_twice here here hello (some "s") none fresh blank "m4" refl refl refl refl refl

abbrev streaming : ChatState
streaming = record fresh { messages = event (chunk_event 0 (chunk 5 "m5" "hel")) ∷ [] }

abbrev asked : ChatState
asked = record fresh { messages = event hello ∷ event request ∷ event hello ∷ [] }

fresh-IsTidy : IsTidy fresh
fresh-IsTidy = record { queue = tt; tools = tt }

-- The first input is queued by the send itself, the third send fails.
abbrev third_fails : ℕ → SendEnd
third_fails zero = queues
third_fails (suc zero) = delivers
third_fails (suc (suc n)) = fails

flush_pending-split_example :
    let f = flush_pending third_fails ("a" ∷ "b" ∷ "c" ∷ "d" ∷ []) in
    Merge f.attempted (queue_all f.requeued []) ("a" ∷ "b" ∷ "c" ∷ "d" ∷ [])
flush_pending-split_example =
    flush_pending-split third_fails ("a" ∷ "b" ∷ "c" ∷ "d" ∷ []) (refl, (refl, (refl, (refl, tt))))

queued_test :
    flush_pending third_fails ("a" ∷ "b" ∷ "c" ∷ "d" ∷ [])
    ≡ record { attempted = "b" ∷ "c" ∷ []; requeued = "a" ∷ "d" ∷ []; failed = true }
unfolding flush_pending flush_from
queued_test = refl

-- A text that is queued twice: after its second send failed, what was sent before it is queued again.
repeated_text_test :
    flush_pending (λ n. if eqb n 2 then fails else delivers) ("a" ∷ "b" ∷ "a" ∷ [])
    ≡ record { attempted = "a" ∷ "b" ∷ "a" ∷ []; requeued = "b" ∷ "a" ∷ []; failed = true }
unfolding flush_pending flush_from
repeated_text_test = refl
