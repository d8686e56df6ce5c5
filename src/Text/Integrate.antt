-- ===== src/Text/Integrate.antt =====
-- annotated_string.cc, Integrate on a command and on a set of commands.
use ced.Base.{ℕ, [], ◌∷◌}
use ced.Ids.{Id64}
use ced.Proto.{Command, CommandSet, Body}
use ced.Proto.Body.{insert, delete, decl, del_decl, mark, del_mark, command_not_set}
use ced.Outcome.{Outcome, ok, fault, ◌>>=◌}
use ced.Text.{AnnotatedString, integrate_insert, integrate_del_char}
use ced.Text.Marks.{integrate_decl, integrate_del_decl, integrate_mark, integrate_del_mark}

-- The switch on `command_case()`; its default throws.
unfoldable pub integrate_body : ℕ → AnnotatedString → Id64 → Body → Outcome AnnotatedString
integrate_body fuel s id (insert cmd) = integrate_insert fuel s id cmd
integrate_body fuel s id delete = integrate_del_char s id
integrate_body fuel s id (decl attr) = ok (integrate_decl s id attr)
integrate_body fuel s id del_decl = integrate_del_decl s id
integrate_body fuel s id (mark ann) = integrate_mark fuel s id ann
integrate_body fuel s id del_mark = integrate_del_mark fuel s id
integrate_body fuel s id command_not_set = fault

unfoldable pub integrate : ℕ → AnnotatedString → Command → Outcome AnnotatedString
unfolding integrate_body
integrate fuel s cmd = integrate_body fuel s cmd.id cmd.body

unfoldable pub integrate_all : ℕ → AnnotatedString → CommandSet → Outcome AnnotatedString
integrate_all fuel s [] = ok s
integrate_all fuel s (cmd ∷ cmds) = integrate fuel s cmd >>= λ t. integrate_all fuel t cmds
