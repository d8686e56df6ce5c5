-- ===== src/Collab/Terminal.antt =====
-- terminal_collaborator.cc, the class TerminalCollaborator: the keys of the terminal as edits of its
-- Editor, and the notifications and responses that it passes on. curses' codes of the keys are a
-- parameter, and so is the number of its rows. Of rendering, only the lines of the
-- diagnostics are modelled.
use ced.Base.{
  ℕ, ◌==◌, ltb, leb, ◌&&◌, ◌||◌, if◌then◌else◌, Bool, true, false, Option, none, some, List, [],
  ◌∷◌, ◌++◌, ◌+◌, bytes,
}
use ced.Ids.{Id64}
use ced.Proto.{Bytes, Attribute}
use ced.Outcome.{Outcome, ok, ◌>>=◌}
use ced.Buffer.{EditNotification, EditResponse}
use ced.Text.{AnnotatedString}
use ced.Text.Attributes.{Serializer, for_each_attribute}
use ced.Editor.Session.{Session, has_commands, make_response, update_state}
use ced.Editor.{
  Editor, Clipboard, select_left, move_left, select_right, move_right, move_start_of_line,
  move_end_of_line, move_up_n, move_down_n, select_up_n, select_down_n, backspace, copy, cut, paste,
  ins_char,
}

-- What a key stands for in MaybeProcessEditingKey; `typed` is for what is not in its switch.
pub data Keypress : Type 0 where
  sleft : Keypress
  left : Keypress
  sright : Keypress
  right : Keypress
  home : Keypress
  key_end : Keypress
  ppage : Keypress
  npage : Keypress
  sr : Keypress
  sf : Keypress
  up : Keypress
  down : Keypress
  key_backspace : Keypress
  ctrl_c : Keypress
  ctrl_x : Keypress
  ctrl_v : Keypress
  typed : ℕ → Keypress

pub record Terminal : Type 0 where
  pub session : Session
  pub clipboard : Clipboard
  pub recently_used : Bool

abbrev edits : Terminal → Outcome Editor → Outcome (Bool × Terminal)
edits t result = result >>= λ e. ok (true, record t { session = record t.session { editor = e } })

-- MaybeProcessEditingKey: whether it took the key, and the state after it.
unfoldable pub maybe_process_editing_key : ℕ → ℕ → Terminal → Keypress → Outcome (Bool × Terminal)
maybe_process_editing_key fuel rows t sleft = edits t (select_left fuel t.session.editor)
maybe_process_editing_key fuel rows t left = edits t (move_left fuel t.session.editor)
maybe_process_editing_key fuel rows t sright = edits t (select_right fuel t.session.editor)
maybe_process_editing_key fuel rows t right = edits t (move_right fuel t.session.editor)
maybe_process_editing_key fuel rows t home = edits t (move_start_of_line fuel t.session.editor)
maybe_process_editing_key fuel rows t key_end = edits t (move_end_of_line fuel t.session.editor)
maybe_process_editing_key fuel rows t ppage = edits t (move_up_n fuel t.session.editor rows)
maybe_process_editing_key fuel rows t npage = edits t (move_down_n fuel t.session.editor rows)
maybe_process_editing_key fuel rows t sr = edits t (select_up_n fuel t.session.editor 1)
maybe_process_editing_key fuel rows t sf = edits t (select_down_n fuel t.session.editor 1)
maybe_process_editing_key fuel rows t up = edits t (move_up_n fuel t.session.editor 1)
maybe_process_editing_key fuel rows t down = edits t (move_down_n fuel t.session.editor 1)
maybe_process_editing_key fuel rows t key_backspace = edits t (backspace fuel t.session.editor)
maybe_process_editing_key fuel rows t ctrl_c =
    copy fuel t.session.editor t.clipboard >>= λ clip. ok (true, record t { clipboard = clip })
maybe_process_editing_key fuel rows t ctrl_x =
    cut fuel t.session.editor t.clipboard >>= λ (r : Editor × Clipboard).
    ok (true, record t { session = record t.session { editor = r.0 }; clipboard = r.1 })
maybe_process_editing_key fuel rows t ctrl_v = edits t (paste fuel t.session.editor t.clipboard)
maybe_process_editing_key fuel rows t (typed c) =
    if leb 32 c && ltb c 127 then edits t (ins_char fuel t.session.editor c) else ok (false, t)

-- ProcessKey, where key 10 that is not an editing key inserts a line break.
unfoldable pub process_key : Bool → ℕ → ℕ → Terminal → Keypress → Outcome Terminal
unfolding maybe_process_editing_key
process_key synthetic fuel rows t0 key =
    if synthetic
    then ok t0
    else (let t = record t0 { recently_used = true } in
        maybe_process_editing_key fuel rows t key >>= λ (r : Bool × Terminal).
        (if r.0 then ok r.1 else (elim key [
          | typed c ↦
              if c == 10
              then (edits r.1 (ins_char fuel r.1.session.editor 10) >>= λ (q : Bool × Terminal).
                  ok q.1)
              else ok r.1
          | _ ↦ ok r.1
        ])))

-- Push, and Pull, which waits until there is something to send.
unfoldable pub push :
    (AnnotatedString → AnnotatedString → Bool) → ℕ → Terminal → EditNotification → Outcome Terminal
push same_total_identity fuel t n =
    update_state same_total_identity fuel t.session n >>= λ s. ok (record t { session = s })

unfoldable pub pull : Serializer → ℕ → Terminal → Outcome (Option (EditResponse × Terminal))
pull ser fuel t =
    if has_commands t.session || t.recently_used
    then (make_response ser fuel t.session >>= λ (r : EditResponse × Session). ok (
        some (
          record r.0 { become_used = r.0.become_used || t.recently_used },
          record t { session = r.1; recently_used = false },
        )))
    else ok none

-- All_ProcessKey: each terminal that is open takes the key, and all have one clipboard. A terminal
-- stands with whether its buffer is synthetic.
unfoldable pub all_process_key :
    ℕ
    → ℕ
    → Clipboard
    → List (Bool × Terminal)
    → Keypress
    → Outcome (Clipboard × List (Bool × Terminal))
unfolding process_key
all_process_key fuel rows clip [] key = ok (clip, [])
all_process_key fuel rows clip ((synthetic, t) ∷ ts) key =
    process_key synthetic fuel rows (record t { clipboard = clip }) key >>= λ u.
    all_process_key fuel rows u.clipboard ts key >>= λ (r : Clipboard × List (Bool × Terminal)).
    ok (r.0, (synthetic, u) ∷ r.1)

-- The lines of Render for the diagnostics, at most ten; `num` is `num_diagnostics`. The name of a
-- severity is a parameter.
unfoldable pub diagnostic_lines : (ℕ → Bytes) → ℕ → List (Id64 × Attribute) → List Bytes
diagnostic_lines severity_name num [] = []
diagnostic_lines severity_name num ((_, Attribute.diagnostic severity message) ∷ rest) =
    let more = diagnostic_lines severity_name (num + 1) rest in
    let none_added = diagnostic_lines severity_name num rest in
    if ltb num 10
    then (bytes "[" ++ severity_name severity ++ bytes "] " ++ message) ∷ more
    else none_added
diagnostic_lines severity_name num (_ ∷ rest) = diagnostic_lines severity_name num rest

unfoldable pub render_diagnostics : (ℕ → Bytes) → AnnotatedString → List Bytes
unfolding diagnostic_lines
render_diagnostics severity_name content =
    diagnostic_lines severity_name 0 (for_each_attribute content 2)
