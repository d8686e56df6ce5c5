-- ===== src/Examples/Screens.antt =====
-- The theorems on selectors, themes and the line editor, at small inputs.
use ced.Base.{arith, ◌⊎◌, ◌≡◌, ◌↔◌, refl, true, false, some, [], ◌∷◌}
use ced.Proto.{Bytes}
use ced.Selector.{rule_matches, mismatch_at_end, backwards, matches_from_end, selector_matches}
use ced.Selector.Embed.{Embeds, selector_matches-Embeds}
use ced.Theme.Merge.{Color, Highlight, Setting, no_setting}
use ced.Theme.{Theme, any_scope, style_of, theme_token}
use ced.Theme.Cache.{IsFaithful, theme_token-style_of}
use ced.LineEditor.{position, minus_one, LineEditor, key_end, key_backspace, key_char, press_all}
use ced.LineEditor.Cursor.{Answers, EndsEmpty, press_all_lem}

-- "co" and "comment".
abbrev co : Bytes
co = 99 ∷ 111 ∷ []

abbrev comment : Bytes
comment = 99 ∷ 111 ∷ 109 ∷ 109 ∷ 101 ∷ 110 ∷ 116 ∷ []

selector_matches-Embeds_example :
    (selector_matches (co ∷ []) (comment ∷ (1 ∷ []) ∷ []) ≡ true)
    ↔ Embeds (co ∷ []) (comment ∷ (1 ∷ []) ∷ [])
selector_matches-Embeds_example = selector_matches-Embeds (co ∷ []) (comment ∷ (1 ∷ []) ∷ [])

abbrev red : Color
red = record { r = 255; g = 0; b = 0; a = 255 }

abbrev red_comments : Setting
red_comments = record no_setting {
  scopes = (co ∷ []) ∷ [];
  foreground = some red;
  font_style = Highlight.bold;
}

abbrev plain : Setting
plain = record no_setting { scopes = [] ∷ []; background = some red }

matches : any_scope red_comments.scopes (comment ∷ []) ≡ true
unfolding any_scope selector_matches rule_matches mismatch_at_end backwards matches_from_end
matches = refl

misses : any_scope red_comments.scopes ((1 ∷ []) ∷ []) ≡ false
unfolding any_scope selector_matches rule_matches mismatch_at_end backwards matches_from_end
misses = refl

abbrev warm : Theme
warm = record {
  settings = plain ∷ [];
  cache = (co ∷ [], 1, style_of (plain ∷ []) (co ∷ []) 1) ∷ [];
}

theme_token-style_of_example :
    ((theme_token warm (co ∷ []) 1).0 ≡ style_of (plain ∷ []) (co ∷ []) 1)
    × ((theme_token warm (co ∷ []) 1).1.settings ≡ plain ∷ [])
    × IsFaithful (theme_token warm (co ∷ []) 1).1.settings (theme_token warm (co ∷ []) 1).1.cache
theme_token-style_of_example = theme_token-style_of warm (co ∷ []) 1 (refl, tt)

abbrev typed_co : LineEditor
typed_co = record { cursor = position 1; sel_anchor = minus_one; text = co }

press_all_lem_example :
    Answers (press_all typed_co (key_end ∷ key_char 120 ∷ key_backspace ∷ key_end ∷ []))
    ⊎ EndsEmpty typed_co (key_end ∷ key_char 120 ∷ key_backspace ∷ key_end ∷ [])
press_all_lem_example =
    press_all_lem (key_end ∷ key_char 120 ∷ key_backspace ∷ key_end ∷ []) typed_co (omega arith)
