-- ===== src/Selector/Embed.antt =====
-- What a selector's match means: an embedding of its rules into the tags.
use ced.Base.{
  ◌↔◌, ◌≡◌, ap, ◌∙◌, refl, true, List, [], ◌∷◌, ◌++◌, arith, subst, Bool-cases, inl, inr, ==_refl,
}
use ced.Proto.{Bytes}
use ced.Selector.{mismatch_at_end, rule_matches, backwards, matches_from_end, selector_matches}

-- The token starts with the rule.
abbrev pub Starts : Bytes → Bytes → Type 0
Starts rule token = (rest : Bytes) × (rule ++ rest ≡ token)

-- The rules are prefixes of tags among the given ones, in order.
pub data Embeds : List Bytes → List Bytes → Type 0 where
  done : (tags : List Bytes) → Embeds [] tags
  skip :
      {sels : List Bytes} (tag : Bytes) {tags : List Bytes}
      → Embeds sels tags
      → Embeds sels (tag ∷ tags)
  take :
      {sel : Bytes} {sels : List Bytes} {tag : Bytes} {tags : List Bytes}
      → Starts sel tag
      → Embeds sels tags
      → Embeds (sel ∷ sels) (tag ∷ tags)

mismatch-Starts : (sel token : Bytes) → mismatch_at_end sel token ≡ true → Starts sel token
unfolding mismatch_at_end
mismatch-Starts [] token h = (token, refl)
mismatch-Starts (c ∷ cs) [] h = ground arith
mismatch-Starts (c ∷ cs) (d ∷ ds) h =
    let same : c ≡ d = ground arith in
    let tail : mismatch_at_end cs ds ≡ true = ground arith in
    let (rest, e) = mismatch-Starts cs ds tail in
    (rest, subst (λ x. c ∷ (cs ++ rest) ≡ x ∷ ds) same (ap (◌∷◌ c) e))

rule_matches-Starts : (sel token : Bytes) → rule_matches sel token ≡ true → Starts sel token
unfolding rule_matches
rule_matches-Starts sel token h =
    let reached : mismatch_at_end sel token ≡ true = ground arith in
    mismatch-Starts sel token reached

Starts-rule_matches : (sel rest : Bytes) → rule_matches sel (sel ++ rest) ≡ true
unfolding rule_matches mismatch_at_end
Starts-rule_matches [] rest = ground arith
Starts-rule_matches (c ∷ cs) rest =
    let h = Starts-rule_matches cs rest in rw (==_refl c) (ground (arith, h))

Embeds-tail : {sel : Bytes} {sels tags : List Bytes} → Embeds (sel ∷ sels) tags → Embeds sels tags
Embeds-tail (skip tag e) = skip tag (Embeds-tail e)
Embeds-tail (take {tag = tag} s e) = skip tag e

matches-Embeds : (sels tags : List Bytes) → matches_from_end sels tags ≡ true → Embeds sels tags
unfolding matches_from_end
matches-Embeds [] tags h = done tags
matches-Embeds (sel ∷ sels) [] h = ground arith
matches-Embeds (sel ∷ sels) (tag ∷ tags) h = elim (Bool-cases (rule_matches sel tag)) [
  | inl e ↦
      let hit : matches_from_end sels tags ≡ true = rw e at h in
      take (rule_matches-Starts sel tag e) (matches-Embeds sels tags hit)
  | inr e ↦
      let miss : matches_from_end (sel ∷ sels) tags ≡ true = rw e at h in
      skip tag (matches-Embeds (sel ∷ sels) tags miss)
]

Embeds-matches : (sels tags : List Bytes) → Embeds sels tags → matches_from_end sels tags ≡ true
unfolding matches_from_end
Embeds-matches [] tags h = refl
Embeds-matches (sel ∷ sels) [] h = elim h [ ]
Embeds-matches (sel ∷ sels) (tag ∷ tags) (skip _ e) =
    let hit = Embeds-matches sels tags (Embeds-tail e) in
    let miss = Embeds-matches (sel ∷ sels) tags e in ground (arith, hit, miss)
Embeds-matches (sel ∷ sels) (tag ∷ tags) (take s e) =
    let hit = Embeds-matches sels tags e in
    let starts : rule_matches sel tag ≡ true =
      subst (λ t. rule_matches sel t ≡ true) s.1 (Starts-rule_matches sel s.0) in
    rw starts hit

snoc_skip :
    {sels tags : List Bytes} (tag : Bytes) → Embeds sels tags → Embeds sels (tags ++ tag ∷ [])
snoc_skip tag (done tags) = done (tags ++ tag ∷ [])
snoc_skip tag (skip t e) = skip t (snoc_skip tag e)
snoc_skip tag (take s e) = take s (snoc_skip tag e)

snoc_take :
    {sels tags : List Bytes} (sel tag : Bytes)
    → Starts sel tag
    → Embeds sels tags
    → Embeds (sels ++ sel ∷ []) (tags ++ tag ∷ [])
snoc_take x y s (done []) = take s (done [])
snoc_take x y s (done (t ∷ tags)) = skip t (snoc_take x y s (done tags))
snoc_take x y s (skip t e) = skip t (snoc_take x y s e)
snoc_take x y s (take r e) = take r (snoc_take x y s e)

Embeds-backwards :
    {sels tags : List Bytes} → Embeds sels tags → Embeds (backwards sels) (backwards tags)
unfolding backwards
Embeds-backwards (done tags) = done (backwards tags)
Embeds-backwards (skip t e) = snoc_skip t (Embeds-backwards e)
Embeds-backwards (take {sel = x} {tag = y} s e) = snoc_take x y s (Embeds-backwards e)

pub backwards-snoc {ℓ} :
    {A : Type ℓ} (xs : List A) (x : A) → backwards (xs ++ x ∷ []) ≡ x ∷ backwards xs
unfolding backwards
backwards-snoc [] x = refl
backwards-snoc (y ∷ ys) x = ap (λ l. l ++ y ∷ []) (backwards-snoc ys x)

backwards_twice {ℓ} : {A : Type ℓ} (xs : List A) → backwards (backwards xs) ≡ xs
unfolding backwards
backwards_twice [] = refl
backwards_twice (x ∷ xs) = backwards-snoc (backwards xs) x ∙ ap (◌∷◌ x) (backwards_twice xs)

-- SelectorMatches answers yes exactly if the selector's rules are prefixes of some of the tags, in
-- the same order: reading both from the end and taking the first tag that fits loses no match.
pub selector_matches-Embeds :
    (selector tag : List Bytes) → (selector_matches selector tag ≡ true) ↔ Embeds selector tag
unfolding selector_matches
selector_matches-Embeds selector tag = (
  λ h.
      subst (λ l. Embeds l tag) (backwards_twice selector)
        (subst (Embeds (backwards (backwards selector))) (backwards_twice tag)
          (Embeds-backwards (matches-Embeds (backwards selector) (backwards tag) h))),
  λ e. Embeds-matches (backwards selector) (backwards tag) (Embeds-backwards e),
)
