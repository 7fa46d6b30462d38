-- ===== src/Phone/Link/Tests.antt =====
-- Links at concrete inputs (mobile/src/services/auth/DeepLinkService.ts).
use mobilecoding.Base.{ℕ, ◌≡◌, refl, String, Option, none, some, if◌then◌else◌, ◌==◌, strip_prefix}
use mobilecoding.Phone.Link.{
  Parsed, parsed, parse_connection_url, parse_deep, parse_web, collect, last_token, cut, key_value,
  pairs_of,
}
use mobilecoding.Phone.Link.Parse.{link, parse_connection_url-link}

-- `Number` on the texts below.
abbrev number : String → Option ℕ
number t = if t == "8443" then some 8443 else if t == "9000" then some 9000 else none

-- `decodeURIComponent`, on a text without escapes.
abbrev plain : String → Option String
plain t = some t

parse_connection_url-link_example :
    parse_connection_url plain number (link "10.0.0.5" "8443" "abc123")
    ≡ parsed (record { host = "10.0.0.5"; port = some 8443; token = "abc123" })
parse_connection_url-link_example =
    parse_connection_url-link plain number "10.0.0.5" "8443" "abc123" "abc123" refl refl refl refl
      refl refl refl

parse_tests :
    (parse_connection_url plain number "mobilecoding://open?host=h&port=9000&token=t"
      ≡ parsed (record { host = "h"; port = some 9000; token = "t" }))
    × (parse_connection_url plain number "mobilecoding://open?host=h"
        ≡ parsed (record { host = "h"; port = some 8443; token = "" }))
    × (parse_connection_url plain number "https://h/?token=t"
        ≡ parsed (record { host = "h"; port = some 8443; token = "t" }))
    × (parse_connection_url plain number "h:1" ≡ Parsed.failed "Invalid URL format")
unfolding parse_connection_url parse_deep parse_web collect last_token cut key_value pairs_of
    strip_prefix
parse_tests = (refl, refl, refl, refl)

-- A link without a path before its query is not split there: the query is part of the host, or of the
-- port.
no_path_test :
    parse_connection_url plain number "https://h?token=t"
    ≡ parsed (record { host = "h?token=t"; port = some 8443; token = "t" })
unfolding parse_connection_url parse_deep parse_web collect last_token cut key_value pairs_of
    strip_prefix
no_path_test = refl
