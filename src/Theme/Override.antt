-- ===== src/Theme/Override.antt =====
-- What the last of a theme's settings decides of how a token looks.
use ced.Base.{
  ℕ, ◌≤◌, ◌≡◌, ◌≢◌, refl, ap, ◌∙◌, sym, true, false, Option, none, some, List, [], ◌∷◌, ◌++◌, arith,
  Bool-cases, inl, inr,
}
use ced.Selector.{backwards}
use ced.Selector.Embed.{backwards-snoc}
use ced.Theme.Merge.{
  Color, Highlight, unset, Setting, no_setting, blend, merge_color, merge_highlight, merge_setting,
}
use ced.Theme.{Tag, any_scope, compose, result_of, style_of, or_none}

-- A color whose channels are bytes and that hides what is below it.
pub record IsOpaque (c : Color) : Type 0 where
  pub red : c.r ≤ 255
  pub green : c.g ≤ 255
  pub blue : c.b ≤ 255
  pub alpha : c.a ≡ 255

blend_opaque : (x y : ℕ) → x ≤ 255 → blend x y 255 ≡ x
unfolding blend
blend_opaque x y h = omega arith

merge_color_opaque : (c : Color) (o : Option Color) → IsOpaque c → merge_color (some c) o ≡ some c
unfolding merge_color
merge_color_opaque c none w = refl
merge_color_opaque c (some d) w = rw w.alpha (
    rw (blend_opaque c.r d.r w.red, blend_opaque c.g d.g w.green, blend_opaque c.b d.b w.blue) refl)

merge_highlight_set : (h k : Highlight) → h ≢ unset → merge_highlight h k ≡ h
unfolding merge_highlight
merge_highlight_set unset k d = absurd (d refl)
merge_highlight_set Highlight.no_highlight k d = refl
merge_highlight_set Highlight.bold k d = refl
merge_highlight_set Highlight.underline k d = refl
merge_highlight_set Highlight.italic k d = refl
merge_highlight_set Highlight.strike k d = refl

compose-foreground :
    (ss : List Setting) (token : Tag) (composite : Setting) (c : Color)
    → IsOpaque c
    → composite.foreground ≡ some c
    → (compose composite ss token).foreground ≡ some c
unfolding compose merge_setting
compose-foreground [] token composite c w h = h
compose-foreground (s ∷ ss) token composite c w h = elim (Bool-cases (any_scope s.scopes token)) [
  | inl e ↦ rw e (
      compose-foreground ss token (merge_setting composite s) c w
        (ap (λ o. merge_color o s.foreground) h ∙ merge_color_opaque c s.foreground w))
  | inr e ↦ rw e (compose-foreground ss token composite c w h)
]

compose-font_style :
    (ss : List Setting) (token : Tag) (composite : Setting)
    → composite.font_style ≢ unset
    → (compose composite ss token).font_style ≡ composite.font_style
unfolding compose merge_setting
compose-font_style [] token composite d = refl
compose-font_style (s ∷ ss) token composite d = elim (Bool-cases (any_scope s.scopes token)) [
  | inl e ↦
      let same = merge_highlight_set composite.font_style s.font_style d in
      rw e (compose-font_style ss token (merge_setting composite s) (λ q. d (sym same ∙ q)) ∙ same)
  | inr e ↦ rw e (compose-font_style ss token composite d)
]

-- A last setting that matches the token and has an opaque foreground decides the foreground,
-- whatever the settings before it and the flags say.
pub style_of-foreground :
    (settings : List Setting) (s : Setting) (token : Tag) (flags : ℕ) (c : Color)
    → any_scope s.scopes token ≡ true
    → s.foreground ≡ some c
    → IsOpaque c
    → (style_of (settings ++ s ∷ []) token flags).foreground ≡ c
unfolding style_of compose result_of merge_setting merge_color
style_of-foreground settings s token flags c matches h w = rw (backwards-snoc settings s) (
    rw matches
      (rw (compose-foreground (backwards settings) token (merge_setting no_setting s) c w h) refl))

-- A last setting that matches the token and sets a font style decides the highlight, whatever the
-- settings before it and the flags say.
pub style_of-highlight :
    (settings : List Setting) (s : Setting) (token : Tag) (flags : ℕ)
    → any_scope s.scopes token ≡ true
    → s.font_style ≢ unset
    → (style_of (settings ++ s ∷ []) token flags).highlight ≡ or_none s.font_style
unfolding style_of compose result_of merge_setting merge_highlight
style_of-highlight settings s token flags matches d = rw (backwards-snoc settings s) (
    rw matches
      (ap or_none (compose-font_style (backwards settings) token (merge_setting no_setting s) d)))

-- A setting that does not match the token changes nothing for it.
pub style_of_unmatched :
    (settings : List Setting) (s : Setting) (token : Tag) (flags : ℕ)
    → any_scope s.scopes token ≡ false
    → style_of (settings ++ s ∷ []) token flags ≡ style_of settings token flags
unfolding style_of compose
style_of_unmatched settings s token flags h = rw (backwards-snoc settings s) (rw h refl)
