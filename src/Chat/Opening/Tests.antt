-- ===== src/Chat/Opening/Tests.antt =====
-- Pages that are opened at concrete addresses (web/src/core/state/ChatContext.tsx).
use mobilecoding.Base.{
  ◌≡◌, refl, sym, ap, subst, eq_iff, String, Bool, true, false, Option, none, some, [], ◌∷◌, ◌==◌,
  Bool-cases, inl, inr, if◌then◌else◌,
}
use mobilecoding.Chat.State.{direct, relay, Action}
use mobilecoding.Chat.Io.{dispatches, connects_relay}
use mobilecoding.Chat.Opening.{
  Browser, connects_direct, provider, without_query, relay_config, has_pairing, open_page,
}
use mobilecoding.Chat.Opening.Links.{open_page-pairing, open_page-again}

-- The parameters of the queries below.
abbrev pairing : String → Option String
pairing key =
    if key == "relay"
    then some "1"
    else if key == "session"
    then some "s"
    else if key == "secret"
    then some "x"
    else none

abbrev get : String → String → Option String
get search key =
    if search == "?token=t"
    then (if key == "token" then some "t" else none)
    else if search == "?relay=1&session=s&secret=x"
    then pairing key
    else if search == "?token=t&relay=1&session=s&secret=x"
    then (if key == "token" then some "t" else pairing key)
    else none

abbrev drop_token : String → String
drop_token search =
    if search == "?token=t"
    then ""
    else if search == "?token=t&relay=1&session=s&secret=x"
    then "?relay=1&session=s&secret=x"
    else search

none_lem : (b : Bool) → (if b then pairing "token" else none) ≡ none
none_lem true = refl
none_lem false = refl

get-drop_token : (q : String) → get (drop_token q) "token" ≡ none
get-drop_token q = elim (Bool-cases (q == "?token=t")) [
  | inl e ↦ rw e refl
  | inr e ↦ elim (Bool-cases (q == "?token=t&relay=1&session=s&secret=x")) [
    | inl d ↦ rw (e, d) refl
    | inr d ↦ rw (e, d) (rw (e, d) (none_lem (q == "?relay=1&session=s&secret=x")))
  ]
]

get-others : (q key : String) → (key == "token") ≡ false → get (drop_token q) key ≡ get q key
get-others q key n = elim (Bool-cases (q == "?token=t")) [
  | inl e ↦ rw (e, n) refl
  | inr e ↦ elim (Bool-cases (q == "?token=t&relay=1&session=s&secret=x")) [
    | inl d ↦
        let same : q ≡ "?token=t&relay=1&session=s&secret=x" = (eq_iff q _).0 d in
        subst (λ r. get (drop_token r) key ≡ get r key) (sym same) (rw n refl)
    | inr d ↦ let same : drop_token q ≡ q = rw (e, d) refl in ap (λ r. get r key) same
  ]
]

abbrev at : String → Browser
at search = record {
  location = record { protocol = "https:"; host = "h:1"; search = search };
  token = some "old";
  can_set = true;
}

pairing_test : open_page get drop_token (at "?relay=1&session=s&secret=x") ≡ record {
  browser = without_query (at "?relay=1&session=s&secret=x");
  effects =
      connects_direct "old"
      ∷ provider (dispatches (Action.set_connection_mode relay))
      ∷ provider (connects_relay (relay_config get (at "?relay=1&session=s&secret=x")))
      ∷ [];
  mode = relay;
}
pairing_test = open_page-pairing get drop_token (at "?relay=1&session=s&secret=x") refl refl

abbrev link : Browser
link = at "?token=t&relay=1&session=s&secret=x"

-- A link with a token and a pairing: the page does both, and only connects when it is opened again.
open_page-again_example :
    let opened = open_page get drop_token link in
    (opened.effects
      ≡ connects_direct "t"
        ∷ provider (dispatches (Action.set_connection_mode relay))
        ∷ provider (connects_relay (relay_config get link))
        ∷ [])
    × (opened.browser.location.search ≡ "")
    × (get opened.browser.location.search "token" ≡ none)
    × (has_pairing get opened.browser.location.search ≡ false)
    × (open_page get drop_token opened.browser
        ≡ record { browser = opened.browser; effects = connects_direct "t" ∷ []; mode = direct })
open_page-again_example =
    open_page-again get drop_token get-drop_token get-others link (λ key. refl) refl refl
