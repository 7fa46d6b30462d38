-- ===== src/Phone/Link.antt =====
-- Connection links: mobile/src/services/auth/DeepLinkService.ts and
-- mobile/src/services/network/ConnectionAdapter.ts. `decode` is `decodeURIComponent`, with none where
-- it throws; `number` is `Number`, with none where it gives no number, and `show` its text.
pub mod Parse
pub mod Adapt
mod Tests
use mobilecoding.Base.{
  ℕ, ◌+◌, String, Bool, true, false, not, ◌&&◌, ◌||◌, Option, none, some, List, [], ◌∷◌, ◌==◌,
  concat, eqb, is_empty, has_prefix, strip_prefix, includes, or_text, text_of, if◌then◌else◌,
}
use Prim.Native.Char.{code}
use Prim.Native.String

-- What stands before the first occurrence of a text, and what stands behind it.
unfoldable pub cut : String → String → Option (String × String)
unfolding strip_prefix
cut sep String.[] = none
cut sep (String.◌∷◌ c s) = elim (strip_prefix sep (String.◌∷◌ c s)) [
  | some r ↦ some ("", r)
  | none ↦ elim (cut sep s) [ none ↦ none | some p ↦ some (String.◌∷◌ c p.0, p.1) ]
]

abbrev pub before_or_all : String → String → String
before_or_all sep s = elim (cut sep s) [ none ↦ s | some p ↦ p.0 ]

-- `const [key, value] = pair.split('=')`, where an empty value counts as none.
unfoldable pub key_value : String → String × String
key_value s = elim (cut "=" s) [ none ↦ (s, "") | some p ↦ (p.0, before_or_all "=" p.1) ]

-- `query.split('&')`
unfoldable pub pairs_of : String → List String
pairs_of String.[] = "" ∷ []
pairs_of (String.◌∷◌ c s) = elim (pairs_of s) [
  | [] ↦ []
  | ◌∷◌ p ps ↦ if eqb (code c) 38 then "" ∷ p ∷ ps else String.◌∷◌ c p ∷ ps
]

pub record Connection : Type 0 where
  pub host : String
  pub port : Option ℕ
  pub token : String

pub data Parsed : Type 0 where
  parsed : Connection → Parsed
  failed : String → Parsed

-- The text behind the first `?`; `none` without one.
abbrev pub query_of : String → Option String
query_of s = elim (cut "?" s) [ none ↦ none | some p ↦ some p.1 ]

-- `Map.get(key) || ''`, the last pair with the key first.
abbrev pub get_param : String → List (String × String) → String
get_param key [] = ""
get_param key ((k, v) ∷ r) = if k == key then v else get_param key r

module _ (decode : String → Option String) (number : String → Option ℕ) where
  -- The parameters that have a key and a value, the last one first; `none` where decoding throws.
  unfoldable pub collect : List String → List (String × String) → Option (List (String × String))
  collect [] found = some found
  collect (x ∷ xs) found =
      let (k, v) = key_value x in
      let rest : List (String × String) → Option (List (String × String)) = collect xs in
      if is_empty k || is_empty v
      then rest found
      else elim (decode v) [ none ↦ none | some d ↦ rest ((k, d) ∷ found) ]

  -- `query.split('&').forEach(…)` of the other links: the last token counts.
  unfoldable pub last_token : List String → String → Option String
  last_token [] token = some token
  last_token (x ∷ xs) token =
      let (k, v) = key_value x in
      let rest : String → Option String = last_token xs in
      if not (k == "token") || is_empty v
      then rest token
      else elim (decode v) [ none ↦ none | some d ↦ rest d ]

  abbrev pub deep_query : String → String
  deep_query input = elim (query_of input) [ none ↦ "" | some q ↦ before_or_all "?" q ]

  unfoldable pub parse_deep : String → Parsed
  parse_deep input = elim (collect (pairs_of (deep_query input)) []) [
    | none ↦ failed "URI malformed"
    | some ps ↦ parsed (record {
      host = get_param "host" ps;
      port = number (or_text (get_param "port" ps) "8443");
      token = get_param "token" ps;
    })
  ]

  abbrev pub token_of : Option String → Option String
  token_of none = some ""
  token_of (some q) = last_token (pairs_of q) ""

  abbrev pub port_of : Option (String × String) → Option ℕ
  port_of none = some 8443
  port_of (some p) = number p.1

  unfoldable pub parse_web : String → Parsed
  parse_web input = elim (cut "://" input) [
    | none ↦ failed "Invalid URL format"
    | some p ↦
        let host_port = before_or_all "/" p.1 in
        elim (token_of (query_of input)) [
          | none ↦ failed "URI malformed"
          | some t ↦ parsed (record {
            host = before_or_all ":" host_port;
            port = port_of (cut ":" host_port);
            token = t;
          })
        ]
  ]

  unfoldable pub parse_connection_url : String → Parsed
  unfolding strip_prefix
  parse_connection_url input =
      if has_prefix "mobilecoding:" input then parse_deep input else parse_web input
