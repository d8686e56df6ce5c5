-- ===== src/Theme/Merge.antt =====
-- theme.h and theme.cc: a setting of a theme and the `Merge` functions. The channels of a color are
-- bytes, and `shadow_width` is an int.
use ced.Base.{ℕ, ◌+◌, ◌-◌, ◌*◌, ◌/◌, ◌%◌, ◌^◌, Option, none, some, List, [], ℤ, pos, negsuc}
use ced.Proto.{Bytes}

pub data Highlight : Type 0 where
  unset : Highlight
  no_highlight : Highlight
  bold : Highlight
  underline : Highlight
  italic : Highlight
  strike : Highlight

pub record Color : Type 0 where
  pub r : ℕ
  pub g : ℕ
  pub b : ℕ
  pub a : ℕ

pub record Setting : Type 0 where
  pub scopes : List (List Bytes)
  pub font_style : Highlight
  pub bracket_contents_options : Highlight
  pub brackets_options : Highlight
  pub tags_options : Highlight
  pub shadow_width : ℤ
  pub foreground : Option Color
  pub background : Option Color
  pub invisibles : Option Color
  pub caret : Option Color
  pub line_highlight : Option Color
  pub bracket_contents_foreground : Option Color
  pub brackets_foreground : Option Color
  pub tags_foreground : Option Color
  pub find_highlight : Option Color
  pub find_highlight_foreground : Option Color
  pub gutter : Option Color
  pub gutter_foreground : Option Color
  pub selection : Option Color
  pub selection_border : Option Color
  pub inactive_selection : Option Color
  pub guide : Option Color
  pub active_guide : Option Color
  pub stack_guide : Option Color
  pub highlight : Option Color
  pub highlight_foreground : Option Color
  pub shadow : Option Color

abbrev pub no_setting : Setting
no_setting = record {
  scopes = [];
  font_style = unset;
  bracket_contents_options = unset;
  brackets_options = unset;
  tags_options = unset;
  shadow_width = negsuc 0;
  foreground = none;
  background = none;
  invisibles = none;
  caret = none;
  line_highlight = none;
  bracket_contents_foreground = none;
  brackets_foreground = none;
  tags_foreground = none;
  find_highlight = none;
  find_highlight_foreground = none;
  gutter = none;
  gutter_foreground = none;
  selection = none;
  selection_border = none;
  inactive_selection = none;
  guide = none;
  active_guide = none;
  stack_guide = none;
  highlight = none;
  highlight_foreground = none;
  shadow = none;
}

unfoldable pub merge_highlight : Highlight → Highlight → Highlight
merge_highlight unset h = h
merge_highlight no_highlight h = no_highlight
merge_highlight bold h = bold
merge_highlight underline h = underline
merge_highlight italic h = italic
merge_highlight strike h = strike

unfoldable pub merge_width : ℤ → ℤ → ℤ
merge_width (pos n) w = pos n
merge_width (negsuc n) w = w

unfoldable pub blend : ℕ → ℕ → ℕ → ℕ
blend x y alpha = (alpha * x + (255 - alpha) * y) / 255 % 2 ^ 8

-- The overload for colors: it is preferred to the template for every optional.
unfoldable pub merge_color : Option Color → Option Color → Option Color
unfolding blend
merge_color none y = y
merge_color (some x) none = some x
merge_color (some x) (some y) =
    some (record { r = blend x.r y.r x.a; g = blend x.g y.g x.a; b = blend x.b y.b x.a; a = 255 })

-- The body of ThemeToken's loop; the composite's scopes are never read.
unfoldable pub merge_setting : Setting → Setting → Setting
unfolding merge_highlight merge_width merge_color
merge_setting c s = record {
  scopes = c.scopes;
  font_style = merge_highlight c.font_style s.font_style;
  bracket_contents_options = merge_highlight c.bracket_contents_options s.bracket_contents_options;
  brackets_options = merge_highlight c.brackets_options s.brackets_options;
  tags_options = merge_highlight c.tags_options s.tags_options;
  shadow_width = merge_width c.shadow_width s.shadow_width;
  foreground = merge_color c.foreground s.foreground;
  background = merge_color c.background s.background;
  invisibles = merge_color c.invisibles s.invisibles;
  caret = merge_color c.caret s.caret;
  line_highlight = merge_color c.line_highlight s.line_highlight;
  bracket_contents_foreground =
      merge_color c.bracket_contents_foreground s.bracket_contents_foreground;
  brackets_foreground = merge_color c.brackets_foreground s.brackets_foreground;
  tags_foreground = merge_color c.tags_foreground s.tags_foreground;
  find_highlight = merge_color c.find_highlight s.find_highlight;
  find_highlight_foreground = merge_color c.find_highlight_foreground s.find_highlight_foreground;
  gutter = merge_color c.gutter s.gutter;
  gutter_foreground = merge_color c.gutter_foreground s.gutter_foreground;
  selection = merge_color c.selection s.selection;
  selection_border = merge_color c.selection_border s.selection_border;
  inactive_selection = merge_color c.inactive_selection s.inactive_selection;
  guide = merge_color c.guide s.guide;
  active_guide = merge_color c.active_guide s.active_guide;
  stack_guide = merge_color c.stack_guide s.stack_guide;
  highlight = merge_color c.highlight s.highlight;
  highlight_foreground = merge_color c.highlight_foreground s.highlight_foreground;
  shadow = merge_color c.shadow s.shadow;
}
