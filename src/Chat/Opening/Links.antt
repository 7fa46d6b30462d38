-- ===== src/Chat/Opening/Links.antt =====
-- What the links do that a page is opened by (web/src/App.tsx,
-- web/src/core/state/ChatContext.tsx).
use mobilecoding.Base.{
  ◌≡◌, refl, ◌∙◌, String, true, false, Option, none, List, [], ◌∷◌, ◌++◌, ◌==◌, truthy, text_of,
  Bool-cases, inl, inr, if_intro, if◌then◌else◌,
}
use mobilecoding.Chat.State.{direct, relay, Action}
use mobilecoding.Chat.Io.{dispatches, connects_relay, bind_result, ◌>>=◌}
use mobilecoding.Chat.Provider.{connect_relay}
use mobilecoding.Chat.Opening.{
  Browser, OpeningEffect, connects_direct, provider, without_query, intercept_token, resolve_token,
  connect_direct, relay_config, has_pairing, pair_by_link, open_page, direct_effects,
}

direct_effects_lem :
    (t : Option String) → truthy t ≡ true → direct_effects t ≡ connects_direct (text_of t) ∷ []
direct_effects_lem t e = rw e refl

module _ (get : String → String → Option String) (drop_token : String → String) where
  -- A link that pairs with a relay and has no token: the page connects to the relay at its own host,
  -- with the link's session and secret and after it connected by the token of before, if there is one;
  -- the secret is out of the address then.
  pub open_page-pairing :
      (b : Browser)
      → truthy (get b.location.search "token") ≡ false
      → has_pairing get b.location.search ≡ true
      → open_page get drop_token b ≡ record {
        browser = without_query b;
        effects =
            direct_effects b.token
            ++ (provider (dispatches (Action.set_connection_mode relay))
                ∷ provider (connects_relay (relay_config get b))
                ∷ []);
        mode = relay;
      }
  unfolding open_page intercept_token connect_direct resolve_token pair_by_link connect_relay ◌>>=◌
      bind_result
  open_page-pairing b n p = rw (n, n, p) refl

  -- A link without either: the page connects by the stored token.
  open_page-plain :
      (b : Browser)
      → truthy (get b.location.search "token") ≡ false
      → has_pairing get b.location.search ≡ false
      → open_page get drop_token b
        ≡ record { browser = b; effects = direct_effects b.token; mode = direct }
  unfolding open_page intercept_token connect_direct resolve_token pair_by_link
  open_page-plain b n p = rw (n, n, p) refl

  -- What the link's pairing asks for, and nothing where it has none.
  abbrev pub pairing_effects : Browser → List OpeningEffect
  pairing_effects b =
      if has_pairing get b.location.search
      then provider (dispatches (Action.set_connection_mode relay))
        ∷ provider (connects_relay (relay_config get b))
        ∷ []
      else []

  -- The address after the page was opened by a link with a token.
  abbrev pub search_left : String → String
  search_left q = if has_pairing get q then "" else drop_token q

  -- The page as the interceptor of tokens leaves it.
  abbrev taken : Browser → Browser
  taken b = record b {
    token = get b.location.search "token";
    location = record b.location { search = drop_token b.location.search };
  }

  module _ (dropped : (q : String) → get (drop_token q) "token" ≡ none)
      (others : (q key : String)
        → (key == "token") ≡ false
        → get (drop_token q) key ≡ get q key) where
    open_page-taken :
        (b : Browser)
        → truthy (get b.location.search "token") ≡ true
        → b.can_set ≡ true
        → open_page get drop_token b ≡ open_page get drop_token (taken b)
    unfolding open_page intercept_token
    open_page-taken b t c = rw (t, c, dropped b.location.search) refl

    has_pairing-drop_token : (q : String) → has_pairing get (drop_token q) ≡ has_pairing get q
    has_pairing-drop_token q =
        rw (others q "relay" refl, others q "session" refl, others q "secret" refl) refl

    relay_config-taken : (b : Browser) → relay_config get (taken b) ≡ relay_config get b
    unfolding relay_config
    relay_config-taken b =
        rw (others b.location.search "session" refl, others b.location.search "secret" refl) refl

    open_page-token :
        (b : Browser)
        → truthy (get b.location.search "token") ≡ true
        → b.can_set ≡ true
        → open_page get drop_token b ≡ record {
          browser = record (taken b) {
            location = record b.location { search = search_left b.location.search };
          };
          effects = connects_direct (text_of (get b.location.search "token")) ∷ pairing_effects b;
          mode = if has_pairing get b.location.search then relay else direct;
        }
    unfolding without_query
    open_page-token b t c = elim (Bool-cases (has_pairing get b.location.search)) [
      | inl p ↦
          open_page-taken b t c
          ∙ (open_page-pairing (taken b) (rw (dropped b.location.search) refl)
                (has_pairing-drop_token b.location.search ∙ p)
              ∙ rw (p, relay_config-taken b, direct_effects_lem _ t) refl)
      | inr p ↦
          open_page-taken b t c
          ∙ (open_page-plain (taken b) (rw (dropped b.location.search) refl)
                (has_pairing-drop_token b.location.search ∙ p)
              ∙ rw (p, direct_effects_lem _ t) refl)
    ]

    -- The token of a link outlives it. Where it can be stored, and `URLSearchParams` does as it
    -- documents (the empty query has no parameter; a deleted one is gone and the others stay), the page
    -- that is opened by the link connects by its token and, where the link pairs with a relay too, then
    -- pairs by it; what is left in the address has no token and does not pair. Opened again at that
    -- address, the page connects by the same token and does nothing else, and leaves the address and
    -- the storage as they are.
    pub open_page-again :
        (b : Browser)
        → ((key : String) → get "" key ≡ none)
        → truthy (get b.location.search "token") ≡ true
        → b.can_set ≡ true
        → let opened = open_page get drop_token b in
          let connects = connects_direct (text_of (get b.location.search "token")) in
          (opened.effects ≡ connects ∷ pairing_effects b)
          × (opened.browser.location.search ≡ search_left b.location.search)
          × (get opened.browser.location.search "token" ≡ none)
          × (has_pairing get opened.browser.location.search ≡ false)
          × (open_page get drop_token opened.browser
              ≡ record { browser = opened.browser; effects = connects ∷ []; mode = direct })
    open_page-again b empty t c =
        let q = b.location.search in
        let left : Browser = record (taken b) {
          location = record b.location { search = search_left q };
        } in
        let no_token : get (search_left q) "token" ≡ none =
          if_intro (λ r. get r "token" ≡ none) (has_pairing get q) _ _ (λ e. empty "token")
            (λ e. dropped q) in
        let no_pairing : has_pairing get (search_left q) ≡ false =
          if_intro (λ r. has_pairing get r ≡ false) (has_pairing get q) _ _
            (λ e. rw (empty "relay") refl) (λ e. has_pairing-drop_token q ∙ e) in
        rw (open_page-token b t c) (
          refl,
          refl,
          no_token,
          no_pairing,
          open_page-plain left (rw no_token refl) no_pairing
              ∙ rw (direct_effects_lem (get q "token") t) refl,
        )
