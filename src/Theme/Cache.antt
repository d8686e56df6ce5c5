-- ===== src/Theme/Cache.antt =====
-- ThemeToken and its cache, beside what the settings give without one.
use ced.Base.{
  ℕ, ◌≡◌, refl, ◌==◌, ◌&&◌, true, Option, none, some, List, [], ◌∷◌, All, arith, Bool-cases, inl,
  inr,
}
use ced.Proto.{Bytes}
use ced.Theme.Merge.{Setting}
use ced.Theme.{Result, Tag, Theme, style_of, same_bytes, same_tag, cache_find, theme_token}

same_bytes_sound : (xs ys : Bytes) → same_bytes xs ys ≡ true → xs ≡ ys
unfolding same_bytes
same_bytes_sound [] [] h = refl
same_bytes_sound [] (y ∷ ys) h = ground arith
same_bytes_sound (x ∷ xs) [] h = ground arith
same_bytes_sound (x ∷ xs) (y ∷ ys) h =
    let head : x ≡ y = ground arith in
    let tail : same_bytes xs ys ≡ true = ground arith in let e = same_bytes_sound xs ys tail in cc

same_tag_sound : (xs ys : Tag) → same_tag xs ys ≡ true → xs ≡ ys
unfolding same_tag
same_tag_sound [] [] h = refl
same_tag_sound [] (y ∷ ys) h = ground arith
same_tag_sound (x ∷ xs) [] h = ground arith
same_tag_sound (x ∷ xs) (y ∷ ys) h =
    let first : same_bytes x y ≡ true = ground arith in
    let tail : same_tag xs ys ≡ true = ground arith in
    let d = same_bytes_sound x y first in let e = same_tag_sound xs ys tail in cc

-- Each entry of the cache is what the settings give for its key.
abbrev pub IsFaithful : List Setting → List (Tag × ℕ × Result) → Type 0
IsFaithful settings cache = All (λ e. e.2 ≡ style_of settings e.0 e.1) cache

cache_find-IsFaithful :
    (settings : List Setting) (cache : List (Tag × ℕ × Result)) (token : Tag) (flags : ℕ)
    (r : Result)
    → IsFaithful settings cache
    → cache_find cache token flags ≡ some r
    → r ≡ style_of settings token flags
unfolding cache_find
cache_find-IsFaithful settings [] token flags r w h = ground arith
cache_find-IsFaithful settings ((t, f, r') ∷ rest) token flags r w h =
    elim (Bool-cases (same_tag t token && f == flags)) [
      | inl e ↦
          let tag_e : same_tag t token ≡ true = ground arith in
          let flags_e : f ≡ flags = ground arith in
          let same = same_tag_sound t token tag_e in
          let hit : some r' ≡ some r = rw e at h in let here = w.0 in cc
      | inr e ↦
          let miss : cache_find rest token flags ≡ some r = rw e at h in
          cache_find-IsFaithful settings rest token flags r w.1 miss
    ]

abbrev answer : Theme → Tag → ℕ → Option Result → Result × Theme
answer t token flags o = elim o [
  | some r ↦ (r, t)
  | none ↦
      let r = style_of t.settings token flags in
      (r, record t { cache = (token, flags, r) ∷ t.cache })
]

-- ThemeToken on a theme whose cache is faithful to its settings answers what the settings give for
-- the token and the flags; it keeps the settings, and the cache stays faithful.
pub theme_token-style_of :
    (t : Theme) (token : Tag) (flags : ℕ)
    → IsFaithful t.settings t.cache
    → ((theme_token t token flags).0 ≡ style_of t.settings token flags)
      × ((theme_token t token flags).1.settings ≡ t.settings)
      × IsFaithful (theme_token t token flags).1.settings (theme_token t token flags).1.cache
unfolding theme_token
theme_token-style_of t token flags w = go (cache_find t.cache token flags) refl
  where
    go :
        (o : Option Result)
        → cache_find t.cache token flags ≡ o
        → ((answer t token flags o).0 ≡ style_of t.settings token flags)
          × ((answer t token flags o).1.settings ≡ t.settings)
          × IsFaithful (answer t token flags o).1.settings (answer t token flags o).1.cache
    go none e = (refl, refl, (refl, w))
    go (some r) e = (cache_find-IsFaithful t.settings t.cache token flags r w e, refl, w)
