-- ===== src/Chat/Io.antt =====
-- What an asynchronous function of the chat's provider does: the actions that it dispatches, the
-- requests that it sends, and how it ends (web/src/core/state/ChatContext.tsx).
use mobilecoding.Base.{String, Bool, Option, List, [], ◌∷◌, ◌++◌}
use mobilecoding.Chat.State.{Action, RuntimeConfig}

-- `SessionStartParams`
pub record StartParams : Type 0 where
  pub command : String
  pub args : Option (List String)
  pub cwd : Option String
  pub restart : Bool
  pub resume_session_id : Option String

-- `RelayConfig` (web/src/core/ws/relay-client.ts)
pub record RelayConfig : Type 0 where
  pub relay_url : String
  pub session_id : String
  pub pairing_secret : String

pub data Effect : Type 0 where
  dispatches : Action → Effect
  stores_session_id : String → Effect
  sets_runtime : RuntimeConfig → Effect
  -- the methods of `WSClient`
  starts_session : StartParams → Effect
  sends_input : String → Effect
  stops_session : Effect
  aborts_turn : Effect
  responds : String → Bool → Effect
  -- those of `RelayClient`
  relays_start : StartParams → Effect
  relays_text : String → Effect
  relays_abort : Effect
  relays_response : String → Bool → Effect
  closes_relay : Effect
  connects_relay : RelayConfig → Effect

-- A function returns, or throws an error with a message.
pub data Result {ℓ} (A : Type ℓ) : Type ℓ where
  ok : A → Result A
  thrown : String → Result A

pub record Io {ℓ} (A : Type ℓ) : Type ℓ where
  pub effects : List Effect
  pub result : Result A

-- What was done before.
abbrev pub before {ℓ} : {A : Type ℓ} → List Effect → Io A → Io A
before es m = record { effects = es ++ m.effects; result = m.result }

infixl 5 ◌>>=◌ ◌>>◌
unfoldable pub bind_result {ℓ κ} :
    {A : Type ℓ} {B : Type κ} → List Effect → Result A → (A → Io B) → Io B
bind_result es (ok a) f = before es (f a)
bind_result es (thrown e) f = record { effects = es; result = thrown e }

unfoldable pub ◌>>=◌ {ℓ κ} : {A : Type ℓ} {B : Type κ} → Io A → (A → Io B) → Io B
m >>= f = bind_result m.effects m.result f

abbrev pub ◌>>◌ {κ} : {B : Type κ} → Io (Unit {0}) → Io B → Io B
m >> k = m >>= λ _. k

abbrev pub give {ℓ} : {A : Type ℓ} → A → Io A
give a = record { effects = []; result = ok a }

abbrev pub throw {ℓ} : {A : Type ℓ} → String → Io A
throw e = record { effects = []; result = thrown e }

abbrev pub emit : Effect → Io (Unit {0})
emit e = record { effects = e ∷ []; result = ok tt }

abbrev pub dispatch : Action → Io (Unit {0})
dispatch a = emit (dispatches a)

-- A call whose promise ends as given, after the request went out.
abbrev pub call {ℓ} : {A : Type ℓ} → Effect → Result A → Io A
call e r = record { effects = e ∷ []; result = r }
