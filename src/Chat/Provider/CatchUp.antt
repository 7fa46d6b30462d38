-- ===== src/Chat/Provider/CatchUp.antt =====
-- The effect that fetches what was missed while disconnected (web/src/core/state/ChatContext.tsx).
-- The text of a message is read by a parameter, for `JSON.parse`.
use mobilecoding.Base.{
  ℕ, ◌≡◌, refl, ap, String, not, ◌||◌, Option, none, some, List, [], ◌∷◌, truthy, ltb,
  if◌then◌else◌,
}
use mobilecoding.Base.Sort.{sort_by, sort_by-Reorder, Reorder, AreDistinct}
use mobilecoding.Event.{AppEvent}
use mobilecoding.Chat.State.{ChatState, Action}
use mobilecoding.Chat.Storage.{Storage, Env}
use mobilecoding.Chat.Io.{Effect, dispatches}
use mobilecoding.Chat.Provider.{Reply, unreachable, refused, body, is_connected, is_relay}
use mobilecoding.Chat.Provider.Stop.{apply}

pub record Missed : Type 0 where
  pub seq : ℕ
  pub content : String

module _ (parse : String → Option AppEvent) where
  -- The loop over the sorted messages; one that cannot be read is passed over.
  unfoldable pub replay : Option String → List Missed → List Effect
  replay sid [] = []
  replay sid (m ∷ ms) = elim (parse m.content) [
    | none ↦ replay sid ms
    | some ev ↦ dispatches (Action.event_received ev sid) ∷ replay sid ms
  ]

  unfoldable pub catch_up : Option String → Reply (Option (List Missed)) → List Effect
  catch_up sid unreachable = []
  catch_up sid refused = []
  catch_up sid (body none) = []
  catch_up sid (body (some ms)) = replay sid (sort_by (λ m. m.seq) ms)

  unfoldable pub fetch_missed : ChatState → Reply (Option (List Missed)) → List Effect
  fetch_missed s reply =
      if not (is_connected s.status) || is_relay s.connection_mode
      then []
      else if not (truthy s.session_id) || not (ltb 0 s.last_seq)
      then []
      else catch_up s.session_id reply

  fetch_missed-Reorder :
      (s : ChatState) (ms ns : List Missed)
      → Reorder ms ns
      → AreDistinct (λ m. m.seq) ms
      → fetch_missed s (body (some ms)) ≡ fetch_missed s (body (some ns))
  unfolding fetch_missed catch_up
  fetch_missed-Reorder s ms ns r h = rw (sort_by-Reorder (λ m. m.seq) r h) refl

  -- Where the server lists the missed messages once each, the chat and what is stored after the
  -- catch-up do not depend on the order in which it lists them.
  pub apply-fetch_missed-Reorder :
      (env : Env) (s : ChatState) (st : Storage) (ms ns : List Missed)
      → Reorder ms ns
      → AreDistinct (λ m. m.seq) ms
      → apply env (fetch_missed s (body (some ms))) (s, st)
        ≡ apply env (fetch_missed s (body (some ns))) (s, st)
  apply-fetch_missed-Reorder env s st ms ns r h =
      ap (λ es. apply env es (s, st)) (fetch_missed-Reorder s ms ns r h)
