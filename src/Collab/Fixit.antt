-- ===== src/Collab/Fixit.antt =====
-- fixit_collaborator.cc, the class FixitCollaborator: it applies the compiler's fixes.
use ced.Base.{ℕ, ◌==◌, if◌then◌else◌, List, [], ◌∷◌, ◌++◌}
use ced.Ids.{Site}
use ced.Proto.{CommandSet, Attribute}
use ced.Outcome.{Outcome, ok, ◌>>=◌}
use ced.Text.{AnnotatedString}
use ced.Text.Iterate.{iterator, iter_prev}
use ced.Text.Commands.{make_del_mark, make_delete_range, make_insert}
use ced.Text.Attributes.{Marked, for_each_annotation}
use ced.Buffer.{EditNotification}

-- `Fixit::COMPILE_FIX` and `Attribute::kFixit`
abbrev pub compile_fix : ℕ
compile_fix = 2

abbrev pub fixit_case : ℕ
fixit_case = 3

unfoldable pub apply_fixit : ℕ → AnnotatedString → Site → Marked → Outcome (CommandSet × Site)
apply_fixit fuel s site m = elim m.attr [
  | Attribute.fixit type diagnostic replacement ↦
      if type == compile_fix
      then (do
        deleted ← make_delete_range fuel s m.begin m.end
        it ← iterator fuel s m.begin
        prev ← iter_prev fuel s it
        r ← make_insert s site replacement prev
        ok (make_del_mark m.annid ∷ deleted ++ r.0, r.2))
      else ok ([], site)
  | _ ↦ ok ([], site)
]

unfoldable pub apply_fixits : ℕ → AnnotatedString → Site → List Marked → Outcome (CommandSet × Site)
unfolding apply_fixit
apply_fixits fuel s site [] = ok ([], site)
apply_fixits fuel s site (m ∷ ms) =
    apply_fixit fuel s site m >>= λ r. apply_fixits fuel s r.1 ms >>= λ r'. ok (r.0 ++ r'.0, r'.1)

unfoldable pub edit : ℕ → Site → EditNotification → Outcome (CommandSet × Site)
unfolding apply_fixits
edit fuel site n =
    for_each_annotation n.content fixit_case >>= λ ms. apply_fixits fuel n.content site ms
