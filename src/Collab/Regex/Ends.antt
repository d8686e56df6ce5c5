-- ===== src/Collab/Regex/Ends.antt =====
-- The loop of RegexHighlightCollaborator::Edit over what is left of the text.
use ced.Base.{
  ℕ, zero, suc, ◌+◌, ◌≤◌, ◌<◌, ◌≡◌, ◌≢◌, ◌==◌, refl, ap, false, Option, none, some, List, [], ◌∷◌,
  ◌++◌, length, drop, get_elem?, arith, Bool-cases, Option-cases, inl, inr,
}
use ced.Ids.{Id64}
use ced.Proto.{Bytes, CommandSet, Attribute}
use ced.Outcome.{Outcome, ok, fault, out_of_fuel, ◌>>=◌, deref}
use ced.Text.Annotator.{AnnotationEditor}
use ced.Text.Attributes.{Serializer, mark_attribute}
use ced.Collab.Regex.{first_hit, highlight}

length-drop {ℓ} : {A : Type ℓ} (n : ℕ) (xs : List A) → length (drop n xs) ≤ length xs
length-drop zero xs = omega arith
length-drop (suc n) [] = omega arith
length-drop (suc n) (x ∷ xs) = let rest = length-drop n xs in omega arith

-- A chain of steps runs out of fuel only where a step of it does.
bind_ends {ℓ κ} :
    {X : Type ℓ} {Y : Type κ} (r : Outcome X) (next : X → Outcome Y)
    → r ≢ out_of_fuel
    → ((x : X) → next x ≢ out_of_fuel)
    → (r >>= next) ≢ out_of_fuel
bind_ends (ok x) next h k = k x
bind_ends fault next h k = λ e. absurd (ground (arith, e))
bind_ends out_of_fuel next h k = λ e. h refl

ok_ends {ℓ} : {X : Type ℓ} (x : X) → ok x ≢ out_of_fuel
ok_ends x e = ground (arith, e)

deref_ends {ℓ} : {X : Type ℓ} (p : Option X) → deref p ≢ out_of_fuel
deref_ends none e = ground (arith, e)
deref_ends (some x) e = ground (arith, e)

module _ {ℓ} {Re : Type ℓ} (consume : Re → Bytes → Option ℕ) (ser : Serializer) where
  abbrev taken : ℕ → Option (ℕ × Bytes) → ℕ
  taken n none = n
  taken n (some p) = p.0

  positive : (k n : ℕ) → (k == 0) ≡ false → k ≡ n → 0 < n
  positive k n z e = ground arith

  first_hit_moves :
      (rules : List (Re × Bytes)) (text : Bytes) (n : ℕ) (scope : Bytes)
      → first_hit consume ser rules text ≡ some (n, scope)
      → 0 < n
  unfolding first_hit
  first_hit_moves [] text n scope e = absurd (ground (arith, e))
  first_hit_moves ((re, s) ∷ rest) text n scope e = elim (Option-cases (consume re text)) [
    | inl miss ↦ first_hit_moves rest text n scope (rw (miss, first_hit) at e)
    | inr (k, hit) ↦ elim (Bool-cases (k == 0)) [
      | inl z ↦ first_hit_moves rest text n scope (rw z at (rw (hit, first_hit) at e))
      | inr z ↦
          let same : some (k, s) ≡ some (n, scope) = rw z at (rw (hit, first_hit) at e) in
          let moved : k ≡ n = ap (taken n) same in positive k n z moved
    ]
  ]

  -- Whatever the expressions match, the loop ends within as many rounds as the text has characters.
  pub highlight_ends :
      (rounds : ℕ) (rules : List (Re × Bytes)) (markers : List Id64) (at : ℕ) (text : Bytes)
      (ed : AnnotationEditor)
      → length text ≤ rounds
      → highlight consume ser rounds rules markers at text ed ≢ out_of_fuel
  unfolding highlight
  highlight_ends rounds rules markers at [] ed h = ok_ends _
  highlight_ends zero rules markers at (c ∷ cs) ed h = absurd (omega arith)
  highlight_ends (suc rounds) rules markers at (c ∷ cs) ed h =
      let again = λ (k : ℕ) (e : AnnotationEditor) (m : 0 < k).
        highlight_ends rounds rules markers (at + k) (drop k (c ∷ cs)) e (shorter k m) in
      elim (Option-cases (first_hit consume ser rules (c ∷ cs))) [
        | inl miss ↦ rw (miss, highlight) (again 1 ed (omega arith))
        | inr ((n, scope), hit) ↦
            rw (hit, highlight)
              (bind_ends (deref (get_elem? markers at)) _ (deref_ends (get_elem? markers at))
                (λ beg.
                  bind_ends (deref (get_elem? markers (at + n))) _
                    (deref_ends (get_elem? markers (at + n)))
                    (λ end.
                      let m = mark_attribute ser ed beg end (Attribute.tags (scope ∷ [])) in
                      bind_ends
                        (highlight consume ser rounds rules markers (at + n) (drop n (c ∷ cs)) m.2)
                        _ (again n m.2 (first_hit_moves rules (c ∷ cs) n scope hit))
                        (λ (r : CommandSet × AnnotationEditor). ok_ends (m.1 ++ r.0, r.1)))))
      ]
    where
      shorter : (k : ℕ) → 0 < k → length (drop k (c ∷ cs)) ≤ rounds
      shorter zero m = absurd (omega arith)
      shorter (suc k) m = let rest = length-drop k cs in omega (arith, rest)
