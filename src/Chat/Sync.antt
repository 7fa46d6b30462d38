-- ===== src/Chat/Sync.antt =====
-- The storage follows the state: what a reload of the page brings back
-- (web/src/core/state/ChatContext.tsx).
use mathlib.Core.List.{reverse, reverse-cons, reverse-reverse}
use mobilecoding.Base.{
  ℕ, ◌-◌, ◌≡◌, refl, sym, ap, ap₂, zero, suc, ◌∙◌, Bool, true, not, some, List, [], ◌∷◌, ◌++◌,
  arith, length, drop, filter, filter-All, filter_of_All, filter-append, length-filter-le,
  length-take_last, take_last, take_last_of_le, All-take_last, Option-cases, inl, inr,
}
use mobilecoding.Event.{Resolution, DisplayMessage, event, user, is_permission_message}
use mobilecoding.Chat.State.{ChatState}
use mobilecoding.Chat.Storage.{
  Storage, Env, Key, max_stored_messages, parsed_messages, load_last_seq, load_messages,
  load_perm_allowlist,
}
use mobilecoding.Chat.Bounds.{length-load_messages}
use mobilecoding.Chat.Reducer.{mark_first, mark_latest, resolve_message}

abbrev pub is_kept : DisplayMessage → Bool
is_kept m = not (is_permission_message m)

-- What a reload shows of a message list: the last 200 without the permission requests.
abbrev pub after_reload : List DisplayMessage → List DisplayMessage
after_reload msgs = filter is_kept (take_last max_stored_messages msgs)

-- No access of the storage fails.
pub record IsOpen (env : Env) : Type 0 where
  pub can_set : (k : Key) → env.can_set k ≡ true
  pub can_remove : env.can_remove ≡ true

pub record IsSynced (s : ChatState) (st : Storage) : Type 0 where
  pub seq : load_last_seq st ≡ s.last_seq
  pub tools : load_perm_allowlist st ≡ s.perm_allowlist
  pub messages : load_messages st ≡ after_reload s.messages

pub load-saved :
    (st : Storage) (msgs : List DisplayMessage)
    → st.messages ≡ some (take_last max_stored_messages msgs)
    → load_messages st ≡ after_reload msgs
unfolding load_messages
load-saved st msgs e = rw e (
    take_last_of_le max_stored_messages _ (
      omega (
        arith,
        length-filter-le is_kept (take_last max_stored_messages msgs),
        length-take_last max_stored_messages msgs,
      )))

pub after_reload-load_messages : (st : Storage) → load_messages st ≡ after_reload (load_messages st)
unfolding load_messages
after_reload-load_messages st = sym (
    ap (filter is_kept)
      (take_last_of_le max_stored_messages _ (omega (arith, length-load_messages st)))
    ∙ filter_of_All is_kept (load_messages st)
        (All-take_last _ max_stored_messages _ (filter-All is_kept (parsed_messages st.messages))))

-- Lists that differ in permission requests alone.
abbrev Similar : List DisplayMessage → List DisplayMessage → Type 0
Similar [] [] = Unit {0}
Similar [] (y ∷ ys) = ⊥
Similar (x ∷ xs) [] = ⊥
Similar (x ∷ xs) (y ∷ ys) = (filter is_kept (x ∷ []) ≡ filter is_kept (y ∷ [])) × Similar xs ys

Similar-refl : (xs : List DisplayMessage) → Similar xs xs
Similar-refl [] = tt
Similar-refl (x ∷ xs) = (refl, Similar-refl xs)

Similar-append :
    (xs ys zs ws : List DisplayMessage)
    → Similar xs ys
    → Similar zs ws
    → Similar (xs ++ zs) (ys ++ ws)
Similar-append [] [] zs ws h k = k
Similar-append [] (y ∷ ys) zs ws h k = elim h [ ]
Similar-append (x ∷ xs) [] zs ws h k = elim h [ ]
Similar-append (x ∷ xs) (y ∷ ys) zs ws (e, h) k = (e, Similar-append xs ys zs ws h k)

Similar-reverse : (xs ys : List DisplayMessage) → Similar xs ys → Similar (reverse xs) (reverse ys)
Similar-reverse [] [] h = tt
Similar-reverse [] (y ∷ ys) h = elim h [ ]
Similar-reverse (x ∷ xs) [] h = elim h [ ]
Similar-reverse (x ∷ xs) (y ∷ ys) (e, h) =
    rw (reverse-cons x xs, reverse-cons y ys)
      (Similar-append (reverse xs) (reverse ys) (x ∷ []) (y ∷ []) (Similar-reverse xs ys h) (e, tt))

Similar-drop :
    (n : ℕ) (xs ys : List DisplayMessage) → Similar xs ys → Similar (drop n xs) (drop n ys)
Similar-drop zero xs ys h = h
Similar-drop (suc n) [] [] h = h
Similar-drop (suc n) [] (y ∷ ys) h = elim h [ ]
Similar-drop (suc n) (x ∷ xs) [] h = elim h [ ]
Similar-drop (suc n) (x ∷ xs) (y ∷ ys) h = Similar-drop n xs ys h.1

Similar-length : (xs ys : List DisplayMessage) → Similar xs ys → length xs ≡ length ys
Similar-length [] [] h = refl
Similar-length [] (y ∷ ys) h = elim h [ ]
Similar-length (x ∷ xs) [] h = elim h [ ]
Similar-length (x ∷ xs) (y ∷ ys) h = ap suc (Similar-length xs ys h.1)

Similar-filter :
    (xs ys : List DisplayMessage) → Similar xs ys → filter is_kept xs ≡ filter is_kept ys
Similar-filter [] [] h = refl
Similar-filter [] (y ∷ ys) h = elim h [ ]
Similar-filter (x ∷ xs) [] h = elim h [ ]
Similar-filter (x ∷ xs) (y ∷ ys) (e, h) =
    filter-append is_kept (x ∷ []) xs
    ∙ ap₂ (◌++◌ {A = DisplayMessage}) e (Similar-filter xs ys h)
    ∙ sym (filter-append is_kept (y ∷ []) ys)

Similar-after_reload :
    (xs ys : List DisplayMessage) → Similar xs ys → after_reload xs ≡ after_reload ys
unfolding take_last
Similar-after_reload xs ys h =
    Similar-filter _ _ (Similar-drop (length xs - max_stored_messages) xs ys h)
    ∙ ap (λ n. filter is_kept (drop (n - max_stored_messages) ys)) (Similar-length xs ys h)

resolve-similar :
    (r : Resolution) (m m' : DisplayMessage)
    → resolve_message r m ≡ some m'
    → filter is_kept (m' ∷ []) ≡ filter is_kept (m ∷ [])
resolve-similar r (user u) m' e = cc
resolve-similar r (event ev) m' e = ground arith

Similar-mark_first : (r : Resolution) (ms : List DisplayMessage) → Similar (mark_first r ms) ms
unfolding mark_first
Similar-mark_first r [] = tt
Similar-mark_first r (m ∷ ms) = elim (Option-cases (resolve_message r m)) [
  | inl e ↦ rw (e, mark_first) (refl, Similar-mark_first r ms)
  | inr (m', e) ↦ rw (e, mark_first) (resolve-similar r m m' e, Similar-refl ms)
]

pub after_reload-mark_latest :
    (r : Resolution) (ms : List DisplayMessage) → after_reload (mark_latest r ms) ≡ after_reload ms
unfolding mark_latest
after_reload-mark_latest r ms =
    Similar-after_reload _ ms
      (rw reverse-reverse at (Similar-reverse _ _ (Similar-mark_first r (reverse ms))))
