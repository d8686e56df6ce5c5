-- ===== src/Theme/Palette.antt =====
-- terminal_color.cc, the class TerminalColor: the terminal's colors and color pairs for a theme's
-- results. curses and the distance of two colors are parameters; the distance is any type with an
-- order, since the code only compares it. The theme's own answer is given.
use ced.Base.{
  ℕ, zero, suc, ◌*◌, ◌/◌, ◌==◌, ◌&&◌, if◌then◌else◌, Bool, Option, none, some, List, [], ◌∷◌, ℤ,
  pos, negsuc,
}
use ced.Theme.{Tag, Result, same_tag}
use ced.Theme.Merge.{Color}

-- An RGB is three channels.
abbrev pub Rgb : Type 0
Rgb = ℕ × ℕ × ℕ

abbrev pub rgb_of : Color → Rgb
rgb_of c = (c.r, c.g, c.b)

unfoldable pub same_rgb : Rgb → Rgb → Bool
same_rgb a b = a.0 == b.0 && a.1 == b.1 && a.2 == b.2

-- The members, without the theme. An index is an int.
pub record TerminalColor : Type 0 where
  pub next_color : ℕ
  pub next_pair : ℕ
  pub color_cache : List (Rgb × ℤ)
  pub pair_cache : List (ℤ × ℤ × ℕ)
  pub cache : List (Tag × ℕ × ℕ)

unfoldable pub find_color : List (Rgb × ℤ) → Rgb → Option ℤ
unfolding same_rgb
find_color [] rgb = none
find_color ((k, n) ∷ rest) rgb =
    let later = find_color rest rgb in if same_rgb k rgb then some n else later

unfoldable pub same_index : ℤ → ℤ → Bool
same_index (pos a) (pos b) = a == b
same_index (pos a) (negsuc b) = Bool.false
same_index (negsuc a) (pos b) = Bool.false
same_index (negsuc a) (negsuc b) = a == b

unfoldable pub find_pair : List (ℤ × ℤ × ℕ) → ℤ → ℤ → Option ℕ
unfolding same_index
find_pair [] fg bg = none
find_pair ((f, b, n) ∷ rest) fg bg =
    let later = find_pair rest fg bg in if same_index f fg && same_index b bg then some n else later

unfoldable pub find_style : List (Tag × ℕ × ℕ) → Tag → ℕ → Option ℕ
find_style [] token flags = none
find_style ((t, f, n) ∷ rest) token flags =
    let later = find_style rest token flags in
    if same_tag t token && f == flags then some n else later

module _ {ℓ} {Distance : Type ℓ} (greater : Distance → Distance → Bool)
    (distance : Rgb → Rgb → Distance) (color_content : ℕ → Rgb) where
  abbrev system_rgb : ℕ → Rgb
  system_rgb i = let c = color_content i in (c.0 * 255 / 1000, c.1 * 255 / 1000, c.2 * 255 / 1000)

  -- The loop over the terminal's colors from `i` on, with the best so far.
  unfoldable pub nearest : Rgb → ℕ → ℕ → Option (Distance × ℕ) → ℤ
  nearest rgb zero i none = negsuc 0
  nearest rgb zero i (some best) = pos best.1
  nearest rgb (suc left) i none = nearest rgb left (suc i) (some (distance rgb (system_rgb i), i))
  nearest rgb (suc left) i (some best) =
      let diff = distance rgb (system_rgb i) in
      nearest rgb left (suc i) (if greater best.0 diff then some (diff, i) else some best)

  -- ColorToIndex.
  unfoldable pub color_to_index : Bool → ℕ → TerminalColor → Color → ℤ × TerminalColor
  unfolding find_color nearest
  color_to_index can_change_color colors t c =
      let rgb = rgb_of c in
      elim (find_color t.color_cache rgb) [
        | some n ↦ (n, t)
        | none ↦
            if can_change_color
            then (
              pos t.next_color,
              record t {
                next_color = suc t.next_color;
                color_cache = (rgb, pos t.next_color) ∷ t.color_cache;
              },
            )
            else (let n = nearest rgb colors 0 none in
                (n, record t { color_cache = (rgb, n) ∷ t.color_cache }))
      ]

  -- The pair for two indices, and Theme; `color_pair` is the macro COLOR_PAIR.
  unfoldable pub pair_of : TerminalColor → ℤ → ℤ → ℕ × TerminalColor
  unfolding find_pair
  pair_of t fg bg = elim (find_pair t.pair_cache fg bg) [
    | some n ↦ (n, t)
    | none ↦ (
      t.next_pair,
      record t { next_pair = suc t.next_pair; pair_cache = (fg, bg, t.next_pair) ∷ t.pair_cache },
    )
  ]

  unfoldable pub style :
      Bool → ℕ → (ℕ → ℕ) → (Tag → ℕ → Result) → TerminalColor → Tag → ℕ → ℕ × TerminalColor
  unfolding color_to_index pair_of find_style
  style can_change_color colors color_pair theme_token t token flags =
      elim (find_style t.cache token flags) [
        | some n ↦ (n, t)
        | none ↦
            let r = theme_token token flags in
            let (fg, t1) = color_to_index can_change_color colors t r.foreground in
            let (bg, t2) = color_to_index can_change_color colors t1 r.background in
            let (n, t3) = pair_of t2 fg bg in
            (color_pair n, record t3 { cache = (token, flags, color_pair n) ∷ t3.cache })
      ]
