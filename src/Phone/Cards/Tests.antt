-- ===== src/Phone/Cards/Tests.antt =====
-- A card at a concrete group of messages (mobile/src/components/terminal/AssistantGroupCard.tsx,
-- mobile/src/components/terminal/toolTone.ts).
use mobilecoding.Base.{◌≡◌, refl, true, none, List, [], ◌∷◌, join}
use mobilecoding.Json.{bool, str, obj, field, end, member}
use mobilecoding.Event.{Payload}
use mobilecoding.Chat.Agent.{starts_folded}
use mobilecoding.Chat.Detect.{trim}
use mobilecoding.Phone.Cards.{
  tool_tone, is_tool_error, reads_as_error, failed, succeeded, under_way, render_blocks,
  offers_copy, on_long_press, extract_text,
}
use mobilecoding.Phone.Cards.Copied.{markdown_of, copy_of, on_long_press-render_blocks}

abbrev group : List Payload
group =
    Payload.text "one" none
    ∷ Payload.tool_use "Read" (str "a.ts")
    ∷ Payload.text "" none
    ∷ Payload.text_delta "two" none 0
    ∷ []

copied_test : on_long_press group ≡ offers_copy "one\n\ntwo"
unfolding on_long_press extract_text join
copied_test = refl

tone_test :
    (tool_tone (Payload.tool_output "1" " Fatal: no") ≡ failed)
    × ((tool_tone (Payload.tool_output "1" "done") ≡ succeeded)
        × ((tool_tone (Payload.tool_use "Read" (str "a.ts")) ≡ under_way)
            × (tool_tone (Payload.tool_result "Read" (obj (field "is_error" (bool true) end)))
                ≡ failed)))
unfolding tool_tone is_tool_error reads_as_error starts_folded trim member
tone_test = (refl, (refl, (refl, refl)))

on_long_press-render_blocks_example :
    on_long_press group ≡ copy_of (markdown_of (render_blocks (λ j. "json") (λ j. "json") group))
on_long_press-render_blocks_example = on_long_press-render_blocks (λ j. "json") (λ j. "json") group
