-- ===== src/Collab/Regex.antt =====
-- regex_highlight_collaborator.cc, the class RegexHighlightCollaborator: it tags what its regular
-- expressions match. RE2 is a parameter: `consume re text` is the number of characters that
-- RE2::Consume takes off the front of `text`, if `re` matches there. A pointer into the text is its
-- offset.
pub mod Ends
use ced.Base.{
  ℕ, zero, suc, ◌+◌, ◌==◌, if◌then◌else◌, Option, none, some, List, [], ◌∷◌, ◌++◌, get_elem?, drop,
  length,
}
use ced.Ids.{Id64}
use ced.Proto.{Bytes, CommandSet, Attribute}
use ced.Outcome.{Outcome, ok, out_of_fuel, ◌>>=◌, deref}
use ced.Text.Scan.{scan_text}
use ced.Text.Annotator.{AnnotationEditor, end_edit}
use ced.Text.Attributes.{Serializer, mark_attribute}
use ced.Buffer.{EditNotification}

module _ {ℓ} {Re : Type ℓ} (consume : Re → Bytes → Option ℕ) (ser : Serializer) where
  -- The loop over `regex_to_scope_`: the first that matches and moves on, and by how much.
  unfoldable pub first_hit : List (Re × Bytes) → Bytes → Option (ℕ × Bytes)
  first_hit [] text = none
  first_hit ((re, scope) ∷ rest) text =
      let later = first_hit rest text in
      elim (consume re text) [ none ↦ later | some n ↦ if n == 0 then later else some (n, scope) ]

  -- `while (!text.empty())`, where `text` is what is left from offset `at` on.
  unfoldable pub highlight :
      ℕ
      → List (Re × Bytes)
      → List Id64
      → ℕ
      → Bytes
      → AnnotationEditor
      → Outcome (CommandSet × AnnotationEditor)
  unfolding first_hit
  highlight rounds rules markers at [] ed = ok ([], ed)
  highlight zero rules markers at (c ∷ cs) ed = out_of_fuel
  highlight (suc rounds) rules markers at (c ∷ cs) ed =
      let again = λ (k : ℕ) (e : AnnotationEditor).
        highlight rounds rules markers (at + k) (drop k (c ∷ cs)) e in
      elim (first_hit rules (c ∷ cs)) [
        | none ↦ again 1 ed
        | some (n, scope) ↦ do
          beg ← deref (get_elem? markers at)
          end ← deref (get_elem? markers (at + n))
          (let (_, cmds, ed1) = mark_attribute ser ed beg end (Attribute.tags (scope ∷ [])) in
              again n ed1 >>= λ (r : CommandSet × AnnotationEditor). ok (cmds ++ r.0, r.1))
      ]

  unfoldable pub edit :
      ℕ
      → List (Re × Bytes)
      → AnnotationEditor
      → EditNotification
      → Outcome (CommandSet × AnnotationEditor)
  unfolding highlight
  edit fuel rules ed n = scan_text fuel n.content >>= λ t.
      highlight (length t.0) rules t.1 0 t.0 ed >>= λ r.
      (let (deleted, ed') = end_edit r.1 in ok (r.0 ++ deleted, ed'))
