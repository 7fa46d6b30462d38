-- ===== src/Chat/Opening.antt =====
-- How a page connects when it is opened: the effect of `TokenInterceptor` (web/src/App.tsx), which runs
-- first, as that of a component inside the provider; then `resolveToken` and the two effects of the
-- provider that connect (web/src/core/state/ChatContext.tsx). `get` is `URLSearchParams.get` on a query,
-- `drop_token` the query, with its question mark, that is left after `delete('token')`. An effect
-- runs once, as it does in a build for production.
pub mod Links
mod Tests
use mobilecoding.Base.{
  String, Bool, true, false, ◌&&◌, Option, none, some, List, [], ◌∷◌, ◌++◌, ◌==◌, concat, truthy,
  text_of, map, if◌then◌else◌,
}
use mobilecoding.Chat.State.{ConnectionMode, direct, relay}
use mobilecoding.Chat.Io.{Effect, RelayConfig, Result, ok, thrown, Io}
use mobilecoding.Chat.Provider.{connect_relay}

-- `location`, as far as it is read. A query that was taken out is the empty text.
pub record Location : Type 0 where
  pub protocol : String
  pub host : String
  pub search : String

-- What the page finds: the address, the token in localStorage, and whether that can be written.
pub record Browser : Type 0 where
  pub location : Location
  pub token : Option String
  pub can_set : Bool

pub data OpeningEffect : Type 0 where
  -- `connect` of the direct client with a token
  connects_direct : String → OpeningEffect
  provider : Effect → OpeningEffect

pub record Opened : Type 0 where
  pub browser : Browser
  pub effects : List OpeningEffect
  pub mode : ConnectionMode

-- `history.replaceState` to the address without its query.
unfoldable pub without_query : Browser → Browser
without_query b = record b { location = record b.location { search = "" } }

abbrev pub direct_effects : Option String → List OpeningEffect
direct_effects t = if truthy t then connects_direct (text_of t) ∷ [] else []

abbrev pub connects : Browser × Result (Option String) → Browser × Result (List OpeningEffect)
connects (b, ok t) = (b, ok (direct_effects t))
connects (b, thrown e) = (b, thrown e)

module _ (get : String → String → Option String) where
  -- The token, or what `setItem` throws.
  unfoldable pub resolve_token : Browser → Browser × Result (Option String)
  unfolding without_query
  resolve_token b =
      let from_query = get b.location.search "token" in
      if truthy from_query
      then (if b.can_set
          then (without_query (record b { token = from_query }), ok from_query)
          else (b, thrown "QuotaExceededError"))
      else (b, ok b.token)

  -- The effect that connects directly.
  unfoldable pub connect_direct : ConnectionMode → Browser → Browser × Result (List OpeningEffect)
  connect_direct relay b = (b, ok [])
  connect_direct direct b = connects (resolve_token b)

  unfoldable pub relay_config : Browser → RelayConfig
  relay_config b = record {
    relay_url =
        concat
          (if b.location.protocol == "https:"
            then concat "wss://" b.location.host
            else concat "ws://" b.location.host)
          "/relay";
    session_id = text_of (get b.location.search "session");
    pairing_secret = text_of (get b.location.search "secret");
  }

  abbrev pub has_pairing : String → Bool
  has_pairing search =
      truthy (get search "relay") && (truthy (get search "session") && truthy (get search "secret"))

  -- The effect that connects to the relay; a page that is opened has no relay client yet.
  unfoldable pub pair_by_link : Opened → Opened
  pair_by_link o =
      if has_pairing o.browser.location.search
      then record {
        browser = without_query o.browser;
        effects = o.effects ++ map provider (connect_relay (relay_config o.browser) false).effects;
        mode = relay;
      }
      else o

  abbrev pub opened_direct : Browser × Result (List OpeningEffect) → Opened
  opened_direct (b, ok es) = pair_by_link (record { browser = b; effects = es; mode = direct })
  opened_direct (b, thrown e) = record { browser = b; effects = []; mode = direct }

module _ (get : String → String → Option String) (drop_token : String → String) where
  -- The effect of `TokenInterceptor`. Where `setItem` throws, the effects of the provider still run.
  unfoldable pub intercept_token : Browser → Browser
  intercept_token b =
      let url_token = get b.location.search "token" in
      if truthy url_token && b.can_set
      then record b {
        token = url_token;
        location = record b.location { search = drop_token b.location.search };
      }
      else b

  -- The effects in their order; in the provider, one that throws keeps those after it from running.
  unfoldable pub open_page : Browser → Opened
  open_page b = opened_direct get (connect_direct get direct (intercept_token b))
