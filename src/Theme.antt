-- ===== src/Theme.antt =====
-- theme.h and theme.cc, the class Theme: how the settings of a theme that match a token are put
-- together. `Theme/Merge.antt` has a setting and how two of them merge, `Theme/Cache.antt` and
-- `Theme/Override.antt` have the proofs. Loading a theme from its file is not modelled.
pub mod Merge
pub mod Cache
pub mod Override
pub mod Plist
pub mod Print
pub mod Load
pub mod Palette
use ced.Base.{
  ℕ, ◌==◌, ◌&&◌, ◌||◌, ◌/◌, ◌%◌, if◌then◌else◌, Bool, true, false, Option, none, some, List, [],
  ◌∷◌,
}
use ced.Proto.{Bytes}
use ced.Selector.{selector_matches, backwards}
use ced.Theme.Merge.{
  Color, Highlight, unset, no_highlight, Setting, no_setting, merge_color, merge_setting,
}

pub record Result : Type 0 where
  pub foreground : Color
  pub background : Color
  pub highlight : Highlight

abbrev pub Tag : Type 0
Tag = List Bytes

-- The loop over a setting's scopes.
unfoldable pub any_scope : List Tag → Tag → Bool
any_scope [] token = false
any_scope (sel ∷ sels) token =
    let rest = any_scope sels token in if selector_matches sel token then true else rest

-- The loop over the settings, from the last to the first.
unfoldable pub compose : Setting → List Setting → Tag → Setting
unfolding any_scope
compose composite [] token = composite
compose composite (s ∷ ss) token =
    let merged = compose (merge_setting composite s) ss token in
    let skipped = compose composite ss token in if any_scope s.scopes token then merged else skipped

-- `flags & HIGHLIGHT_LINE` and `flags & SELECTED`
unfoldable pub has_highlight_line : ℕ → Bool
has_highlight_line flags = flags % 2 == 1

unfoldable pub has_selected : ℕ → Bool
has_selected flags = flags / 2 % 2 == 1

abbrev pub or_color : Option Color → Color → Color
or_color none d = d
or_color (some c) d = c

unfoldable pub or_none : Highlight → Highlight
or_none unset = no_highlight
or_none no_highlight = no_highlight
or_none Highlight.bold = Highlight.bold
or_none Highlight.underline = Highlight.underline
or_none Highlight.italic = Highlight.italic
or_none Highlight.strike = Highlight.strike

abbrev pub lit_background : Setting → ℕ → Option Color
lit_background s flags =
    if has_highlight_line flags then merge_color s.line_highlight s.background else s.background

-- What ThemeToken computes from the composite setting.
unfoldable pub result_of : Setting → ℕ → Result
unfolding has_highlight_line has_selected or_none
result_of s flags = record {
  foreground = or_color s.foreground (record { r = 255; g = 255; b = 255; a = 255 });
  background =
      or_color
        (if has_selected flags
          then merge_color s.selection (lit_background s flags)
          else lit_background s flags)
        (record { r = 0; g = 0; b = 0; a = 255 });
  highlight = or_none s.font_style;
}

unfoldable pub style_of : List Setting → Tag → ℕ → Result
unfolding compose result_of
style_of settings token flags = result_of (compose no_setting (backwards settings) token) flags

-- The settings and `theme_cache_`.
pub record Theme : Type 0 where
  pub settings : List Setting
  pub cache : List (Tag × ℕ × Result)

unfoldable pub same_bytes : Bytes → Bytes → Bool
same_bytes [] [] = true
same_bytes [] (y ∷ ys) = false
same_bytes (x ∷ xs) [] = false
same_bytes (x ∷ xs) (y ∷ ys) = x == y && same_bytes xs ys

unfoldable pub same_tag : Tag → Tag → Bool
same_tag [] [] = true
same_tag [] (y ∷ ys) = false
same_tag (x ∷ xs) [] = false
same_tag (x ∷ xs) (y ∷ ys) = same_bytes x y && same_tag xs ys

unfoldable pub cache_find : List (Tag × ℕ × Result) → Tag → ℕ → Option Result
cache_find [] token flags = none
cache_find ((t, f, r) ∷ rest) token flags =
    let later = cache_find rest token flags in
    if same_tag t token && f == flags then some r else later

unfoldable pub theme_token : Theme → Tag → ℕ → Result × Theme
theme_token t token flags = elim (cache_find t.cache token flags) [
  | some r ↦ (r, t)
  | none ↦
      let r = style_of t.settings token flags in
      (r, record t { cache = (token, flags, r) ∷ t.cache })
]
