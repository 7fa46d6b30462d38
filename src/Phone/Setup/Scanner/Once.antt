-- ===== src/Phone/Setup/Scanner/Once.antt =====
-- How often the scanner opens the terminal (mobile/src/screens/QRScannerScreen.tsx).
use mobilecoding.Base.{
  ℕ, ◌≡◌, ◌≤◌, ◌+◌, refl, ◌∙◌, ◌⊎◌, inl, inr, ap, subst, sym, String, Bool, true, false, not,
  Option, List, [], ◌∷◌, ◌++◌, is_empty, length, if_intro, filter, filter-append, length-append,
  arith, truthy, text_of, if◌then◌else◌,
}
use mobilecoding.Phone.Link.Adapt.{Adapted, adapted, refused, looks_like_connection_url}
use mobilecoding.Phone.Setup.{Device, SetupEffect, opens_terminal}
use mobilecoding.Phone.Setup.Scanner.{
  Scanner, new_scanner, Scanned, connect_scanned, on_code_scanned, render, run_scanner,
}

unfoldable pub opens : SetupEffect → Bool
opens (opens_terminal t) = true
opens _ = false

-- How often a list of effects opens the terminal.
abbrev pub openings : List SetupEffect → ℕ
openings es = length (filter opens es)

-- The state of a rendered scanner: open for a code, or done.
abbrev IsOpen : Scanner → Type 0
IsOpen s = s ≡ new_scanner

abbrev IsDone : Scanner → Type 0
IsDone s = s.rendered.scanned ≡ true

-- A code at an open scanner leaves it open once it is rendered, or opens the terminal once.
abbrev Handles : Scanned → Type 0
Handles h =
    ((render h.0 ≡ new_scanner) × (openings h.1 ≡ 0))
    ⊎ (((render h.0).rendered.scanned ≡ true) × (openings h.1 ≡ 1))

openings-append : (xs ys : List SetupEffect) → openings (xs ++ ys) ≡ openings xs + openings ys
openings-append xs ys =
    ap length (filter-append opens xs ys) ∙ length-append (filter opens xs) (filter opens ys)

module _ (d : Device) where
  connect_scanned-Handles : (a : Adapted) → Handles (connect_scanned d a new_scanner)
  unfolding connect_scanned opens
  connect_scanned-Handles (refused msg) = inl (refl, refl)
  connect_scanned-Handles (adapted c) =
      if_intro Handles (is_empty c.token) _ _ (λ e. inl (refl, refl)) (λ e. inr (refl, refl))

  open-Handles : (value : Option String) → Handles (on_code_scanned d value new_scanner)
  unfolding on_code_scanned opens
  open-Handles value =
      if_intro Handles (not (truthy value)) _ _ (λ e. inl (refl, refl))
        (λ e.
          if_intro Handles (not (looks_like_connection_url (text_of value))) _ _
            (λ e1. inl (refl, refl)) (λ e1. connect_scanned-Handles _))

  done_lem : (value : Option String) (s : Scanner) → IsDone s → on_code_scanned d value s ≡ (s, [])
  unfolding on_code_scanned
  done_lem value s e = ground (arith, e)

  -- The screen is rendered after each code.
  abbrev pub AreRendered : List (Option String × Bool) → Type 0
  AreRendered [] = Unit {0}
  AreRendered ((value, r) ∷ codes) = (r ≡ true) × AreRendered codes

  done-openings :
      (codes : List (Option String × Bool)) (s : Scanner)
      → AreRendered codes
      → IsDone s
      → s.now.scanned ≡ true
      → openings (run_scanner d codes s) ≡ 0
  unfolding run_scanner
  done-openings [] s a e n = refl
  done-openings ((value, r) ∷ codes) s a e n =
      rw (done_lem value s e, a.0) (done-openings codes (render s) a.1 n n)

  open-openings :
      (codes : List (Option String × Bool)) (s : Scanner)
      → AreRendered codes
      → IsOpen s
      → openings (run_scanner d codes s) ≤ 1
  unfolding run_scanner
  open-openings [] s a e = omega arith
  open-openings ((value, r) ∷ codes) s a e =
      let h = on_code_scanned d value s in
      let next : Scanner = if r then render h.0 else h.0 in
      let step : next ≡ render h.0 = rw a.0 refl in
      let here : Handles h =
        subst (λ (t : Scanner). Handles (on_code_scanned d value t)) (sym e) (open-Handles value) in
      let total : openings (run_scanner d ((value, r) ∷ codes) s)
          ≡ openings h.1 + openings (run_scanner d codes next) =
        openings-append h.1 _ in
      elim here [
        | inl (o, z) ↦
            let rest = open-openings codes next a.1 (step ∙ o) in omega (arith, total, z, rest)
        | inr (o, z) ↦
            let rest =
              done-openings codes next a.1 (ap (λ (t : Scanner). t.rendered.scanned) step ∙ o)
                (ap (λ (t : Scanner). t.now.scanned) step ∙ o) in
            omega (arith, total, z, rest)
      ]

  -- Where the screen is rendered after each code that the camera finds, the terminal is opened once at
  -- most, however many codes are found.
  pub run_scanner-openings :
      (codes : List (Option String × Bool))
      → AreRendered codes
      → openings (run_scanner d codes new_scanner) ≤ 1
  run_scanner-openings codes a = open-openings codes new_scanner a refl
