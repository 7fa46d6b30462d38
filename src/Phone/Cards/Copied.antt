-- ===== src/Phone/Cards/Copied.antt =====
-- What a long press on a card copies (mobile/src/components/terminal/AssistantGroupCard.tsx).
use package.text.Mathlib.TextLemmas.{cons-append}
use mobilecoding.Base.{
  ◌≡◌, refl, ap, sym, String, Bool, true, false, Option, none, some, List, [], ◌∷◌, ◌∙◌, is_empty,
  truthy, text_of, join, Bool-cases, inl, inr, if◌then◌else◌,
}
use mobilecoding.Json.{Json}
use mobilecoding.Event.{Payload, text, text_delta, tool_result, tool_output, tool_end, bash_output}
use mobilecoding.Phone.Cards.{
  Block, Tone, with_block, markdown, tool_block, other_block, render_block, render_blocks,
  input_block, output_block, content_of, text_field, texts_of, extract_text, Pressed,
  nothing_to_copy, offers_copy, on_long_press,
}

-- The texts that are shown as Markdown; the blocks for tools are passed over.
abbrev pub markdown_of : List Block → List String
markdown_of [] = []
markdown_of (markdown t ∷ bs) = t ∷ markdown_of bs
markdown_of (tool_block i l d b t ∷ bs) = markdown_of bs
markdown_of (other_block l ∷ bs) = markdown_of bs

-- What there is to copy of some texts.
abbrev pub copy_of : List String → Pressed
copy_of [] = nothing_to_copy
copy_of (t ∷ ts) = offers_copy (join "\n\n" (t ∷ ts))

silent_lem :
    (e : Bool) (i l d : String) (b : Option String) (t : Tone) (bs : List Block)
    → markdown_of (with_block (if e then none else some (tool_block i l d b t)) bs) ≡ markdown_of bs
silent_lem true i l d b t bs = refl
silent_lem false i l d b t bs = refl

join_filled :
    (t : String) (ts : List String) → is_empty t ≡ false → is_empty (join "\n\n" (t ∷ ts)) ≡ false
unfolding join
join_filled String.[] ts e = cc
join_filled (String.◌∷◌ c t) [] e = refl
join_filled (String.◌∷◌ c t) (q ∷ ts) e = rw (cons-append c t _) refl

truthy_filled : (o : Option String) → truthy o ≡ true → is_empty (text_of o) ≡ false
truthy_filled none e = cc
truthy_filled (some String.[]) e = cc
truthy_filled (some (String.◌∷◌ c t)) e = refl

press_lem :
    (ps : List Payload)
    → (if is_empty (join "\n\n" (texts_of ps))
        then nothing_to_copy
        else offers_copy (join "\n\n" (texts_of ps)))
      ≡ copy_of (texts_of ps)
unfolding join
press_lem [] = refl
press_lem (p ∷ ps) = elim (Bool-cases (truthy (text_field p))) [
  | inl e ↦ rw (e, join_filled (text_of (text_field p)) (texts_of ps) (truthy_filled _ e)) refl
  | inr e ↦ rw e (press_lem ps)
]

module _ (stringify pretty : Json → String) where
  -- What one message adds to the texts.
  shown_lem :
      (p : Payload) (bs : List Block)
      → markdown_of (with_block (render_block stringify pretty p) bs) ≡ (
          if truthy (text_field p) then text_of (text_field p) ∷ markdown_of bs else markdown_of bs)
  unfolding render_block output_block input_block
  shown_lem (text String.[] th) bs = refl
  shown_lem (text (String.◌∷◌ c t) th) bs = refl
  shown_lem (text_delta String.[] th n) bs = refl
  shown_lem (text_delta (String.◌∷◌ c t) th n) bs = refl
  shown_lem (tool_result name result) bs =
      silent_lem (is_empty (content_of stringify pretty (tool_result name result))) _ _ _ _ _ bs
  shown_lem (tool_output id out) bs =
      silent_lem (is_empty (content_of stringify pretty (tool_output id out))) _ _ _ _ _ bs
  shown_lem (tool_end id name) bs =
      silent_lem (is_empty (content_of stringify pretty (tool_end id name))) _ _ _ _ _ bs
  shown_lem (bash_output id out) bs = silent_lem (is_empty out) _ _ _ _ _ bs
  shown_lem _ bs = refl

  texts_of-render_blocks :
      (ps : List Payload) → markdown_of (render_blocks stringify pretty ps) ≡ texts_of ps
  unfolding render_blocks
  texts_of-render_blocks [] = refl
  texts_of-render_blocks (p ∷ ps) =
      shown_lem p (render_blocks stringify pretty ps)
      ∙ ap (λ (ts : List String). if truthy (text_field p) then text_of (text_field p) ∷ ts else ts)
          (texts_of-render_blocks ps)

  -- A long press offers to copy exactly the answer texts that the card shows as Markdown, in their
  -- order and with an empty line between two, and nothing of what its blocks for tools and its
  -- thinking show; where the card has no such text it says that there is nothing to copy.
  pub on_long_press-render_blocks :
      (ps : List Payload)
      → on_long_press ps ≡ copy_of (markdown_of (render_blocks stringify pretty ps))
  unfolding on_long_press extract_text
  on_long_press-render_blocks ps = press_lem ps ∙ ap copy_of (sym (texts_of-render_blocks ps))
