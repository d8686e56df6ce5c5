-- ===== src/Collab/Format.antt =====
-- clang_format_collaborator.cc, the class ClangFormatCollaborator: it applies the replacements that
-- clang-format prints. The tool, pugixml and the path of the tool are one parameter: for a text, the
-- replacements, or none where the answer is no XML or says that it is incomplete.
use ced.Base.{ℕ, zero, suc, ◌+◌, ◌-◌, not, if◌then◌else◌, Option, none, some, List, [], ◌∷◌, ◌++◌}
use ced.Ids.{Id64, Site, begin_id}
use ced.Proto.{Bytes, CommandSet}
use ced.Outcome.{Outcome, ok, ◌>>=◌}
use ced.Text.{AnnotatedString}
use ced.Text.Iterate.{iterator, iter_next, iter_prev, render}
use ced.Text.Commands.{make_delete, make_insert}
use ced.Buffer.{EditNotification}

pub record Replacement : Type 0 where
  pub offset : ℕ
  pub length : ℕ
  pub text : Bytes

-- `for (; n < r.offset; n++) it.MoveNext();` takes `offset - n` steps.
unfoldable pub skip : ℕ → AnnotatedString → ℕ → Id64 → Outcome Id64
skip fuel s zero it = ok it
skip fuel s (suc k) it = iter_next fuel s it >>= λ p. skip fuel s k p

-- The loop that deletes `length` characters.
unfoldable pub delete_chars : ℕ → AnnotatedString → ℕ → Id64 → Outcome (CommandSet × Id64)
delete_chars fuel s zero it = ok ([], it)
delete_chars fuel s (suc k) it =
    iter_next fuel s it >>= λ p. delete_chars fuel s k p >>= λ r. ok (make_delete it ∷ r.0, r.1)

-- `if (r.text[0])`: the text is a C string.
unfoldable pub insert_new : ℕ → AnnotatedString → Site → Bytes → Id64 → Outcome (CommandSet × Site)
insert_new fuel s site [] it = ok ([], site)
insert_new fuel s site (c ∷ cs) it =
    iter_prev fuel s it >>= λ p. make_insert s site (c ∷ cs) p >>= λ r. ok (r.0, r.2)

-- The loop over the replacements, with the iterator at character `n`.
unfoldable pub replace_all :
    ℕ → AnnotatedString → Site → ℕ → Id64 → List Replacement → Outcome (CommandSet × Site)
unfolding skip delete_chars insert_new
replace_all fuel s site n it [] = ok ([], site)
replace_all fuel s site n it (r ∷ rs) = do
  start ← skip fuel s (r.offset - n) it
  del ← delete_chars fuel s r.length start
  ins ← insert_new fuel s site r.text del.1
  rest ← replace_all fuel s ins.1 (n + (r.offset - n) + r.length) del.1 rs
  ok (del.0 ++ ins.0 ++ rest.0, rest.1)

unfoldable pub edit :
    (Bytes → Option (List Replacement)) → ℕ → Site → EditNotification → Outcome (CommandSet × Site)
unfolding replace_all
edit clang_format fuel site n =
    if not n.fully_loaded
    then ok ([], site)
    else (render fuel n.content >>= λ text. elim (clang_format text) [
      | none ↦ ok ([], site)
      | some rs ↦ iterator fuel n.content begin_id >>= λ start.
          iter_next fuel n.content start >>= λ first. replace_all fuel n.content site 0 first rs
    ])
