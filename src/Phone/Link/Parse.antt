-- ===== src/Phone/Link/Parse.antt =====
-- The links that the desktop shows are read back (mobile/src/services/auth/DeepLinkService.ts).
use Prim.Native.Char.{Char, code}
use text.Mathlib.TextLemmas.{nil-append, cons-append, append_assoc}
use mobilecoding.Base.{
  ℕ, ◌≡◌, refl, ap, ◌∙◌, String, Bool, true, false, not, ◌&&◌, Option, none, some, [], ◌∷◌, concat,
  eqb, eqb_refl, is_empty, has_prefix, strip_prefix, strip_prefix-concat, arith,
}
use mobilecoding.Phone.Link.{
  cut, before_or_all, key_value, pairs_of, parsed, last_token, parse_web, parse_connection_url,
}

-- No letter of the text has the code.
abbrev pub is_free : ℕ → String → Bool
is_free k String.[] = true
is_free k (String.◌∷◌ c s) = not (eqb (code c) k) && is_free k s

strip-here :
    (d : Char) (sep b : String)
    → strip_prefix (String.◌∷◌ d sep) (String.◌∷◌ d (concat sep b)) ≡ some b
unfolding strip_prefix
strip-here d sep b = rw (eqb_refl (code d)) (strip_prefix-concat sep b)

strip-other :
    (d c : Char) (sep s : String)
    → eqb (code d) (code c) ≡ false
    → strip_prefix (String.◌∷◌ d sep) (String.◌∷◌ c s) ≡ none
unfolding strip_prefix
strip-other d c sep s e = rw e refl

differs :
    (k : ℕ) (c : Char) (a : String)
    → is_free k (String.◌∷◌ c a) ≡ true
    → (eqb k (code c) ≡ false) × (eqb (code c) k ≡ false) × (is_free k a ≡ true)
differs k c a h = ground (arith, h)

-- A text is cut at the first occurrence of what begins with a letter that it has not.
cut-concat :
    (d : Char) (sep a b : String)
    → is_free (code d) a ≡ true
    → cut (String.◌∷◌ d sep) (concat a (concat (String.◌∷◌ d sep) b)) ≡ some (a, b)
unfolding cut
cut-concat d sep String.[] b h =
    rw (nil-append (concat (String.◌∷◌ d sep) b), cons-append d sep b, strip-here d sep b, cut) refl
cut-concat d sep (String.◌∷◌ c a) b h =
    let (e, g, f) = differs (code d) c a h in
    rw
      (
        cons-append c a (concat (String.◌∷◌ d sep) b),
        strip-other d c sep _ e,
        cut,
        cut-concat d sep a b f,
      )
      refl

-- Without such a letter nothing is cut.
cut-free : (d : Char) (sep a : String) → is_free (code d) a ≡ true → cut (String.◌∷◌ d sep) a ≡ none
unfolding cut
cut-free d sep String.[] h = refl
cut-free d sep (String.◌∷◌ c a) h =
    let (e, g, f) = differs (code d) c a h in
    rw (strip-other d c sep a e, cut, cut-free d sep a f) refl

pairs_of-free : (s : String) → is_free 38 s ≡ true → pairs_of s ≡ s ∷ []
unfolding pairs_of
pairs_of-free String.[] h = refl
pairs_of-free (String.◌∷◌ c s) h =
    let (e, g, f) = differs 38 c s h in rw (pairs_of-free s f, pairs_of, g) refl

is_free-concat :
    (k : ℕ) (a b : String) → is_free k a ≡ true → is_free k b ≡ true → is_free k (concat a b) ≡ true
is_free-concat k String.[] b h j = rw (nil-append b) j
is_free-concat k (String.◌∷◌ c a) b h j =
    let (e, g, f) = differs k c a h in rw (cons-append c a b, g) (is_free-concat k a b f j)

-- The link that the desktop shows: its address and the encoded token.
abbrev pub host_port : String → String → String
host_port host port = concat host (concat ":" port)

abbrev pub link : String → String → String → String
link host port enc = concat "https" (
    concat "://"
      (concat (host_port host port) (concat "/" (concat "?" (concat "token" (concat "=" enc))))))

before_or_all-cut :
    (sep s : String) (p : String × String) → cut sep s ≡ some p → before_or_all sep s ≡ p.0
before_or_all-cut sep s p e = rw (e, before_or_all) refl

key_value-token :
    (enc : String)
    → is_free 61 enc ≡ true
    → key_value (concat "token" (concat "=" enc)) ≡ ("token", enc)
unfolding key_value
key_value-token enc h =
    let e : cut "=" (concat "token" (concat "=" enc)) ≡ some ("token", enc) =
      cut-concat "=" "" "token" enc refl in
    let f : cut "=" enc ≡ none = cut-free "=" "" enc h in rw (e, key_value, f, before_or_all) refl

no_deep_link : (s : String) → has_prefix "mobilecoding:" (concat "https" s) ≡ false
no_deep_link s =
    let e : strip_prefix "mobilecoding:" (String.◌∷◌ "h" (concat "ttps" s)) ≡ none =
      strip-other "m" "h" "obilecoding:" (concat "ttps" s) refl in
    rw (cons-append "h" "ttps" s, e) refl

module _ (decode : String → Option String) (number : String → Option ℕ) where
  last_token-link :
      (enc token : String)
      → is_free 38 enc ≡ true
      → is_free 61 enc ≡ true
      → is_empty enc ≡ false
      → decode enc ≡ some token
      → last_token decode number (pairs_of (concat "token" (concat "=" enc))) "" ≡ some token
  unfolding last_token
  last_token-link enc token amp eq filled d =
      let one =
        pairs_of-free (concat "token" (concat "=" enc))
          (is_free-concat 38 "token" (concat "=" enc) refl (is_free-concat 38 "=" enc refl amp)) in
      rw (one, last_token, key_value-token enc eq, filled, d) refl

  -- A link of the desktop, whose host and port have none of the letters that end them, and whose
  -- encoded token is not empty and has no `&` and no `=`, is read back to its host, its port and its
  -- token.
  pub parse_connection_url-link :
      (host port enc token : String)
      → is_free 58 host ≡ true
      → is_free 47 (host_port host port) ≡ true
      → is_free 63 (host_port host port) ≡ true
      → is_free 38 enc ≡ true
      → is_free 61 enc ≡ true
      → is_empty enc ≡ false
      → decode enc ≡ some token
      → parse_connection_url decode number (link host port enc)
        ≡ parsed (record { host = host; port = number port; token = token })
  unfolding parse_connection_url parse_web last_token
  parse_connection_url-link host port enc token colon slash mark amp eq filled d =
      let hp = host_port host port in
      let query = concat "token" (concat "=" enc) in
      let rest = concat hp (concat "/" (concat "?" query)) in
      let scheme : cut "://" (link host port enc) ≡ some ("https", rest) =
        cut-concat ":" "//" "https" rest refl in
      let address : cut "/" rest ≡ some (hp, concat "?" query) =
        cut-concat "/" "" hp (concat "?" query) slash in
      let split : cut ":" hp ≡ some (host, port) = cut-concat ":" "" host port colon in
      let front = concat "https" (concat "://" (concat hp "/")) in
      let moved : link host port enc ≡ concat front (concat "?" query) = simp (append_assoc) in
      let open_mark : is_free 63 front ≡ true =
        is_free-concat 63 "https" (concat "://" (concat hp "/")) refl
          (is_free-concat 63 "://" (concat hp "/") refl (is_free-concat 63 hp "/" mark refl)) in
      let asked : cut "?" (link host port enc) ≡ some (front, query) =
        ap (cut "?") moved ∙ cut-concat "?" "" front query open_mark in
      let e1 : has_prefix "mobilecoding:" (link host port enc) ≡ false =
        no_deep_link (concat "://" rest) in
      let e2 = last_token-link enc token amp eq filled d in
      let e3 : before_or_all "/" rest ≡ hp = before_or_all-cut "/" rest _ address in
      let e4 : before_or_all ":" hp ≡ host = before_or_all-cut ":" hp _ split in
      rw (e1, parse_web, scheme, asked, e2, e3, e4, split) refl
