-- ===== src/Examples/Sites.antt =====
-- The theorems on two sites, on listeners and on waiting threads, at small inputs.
use ced.Base.{◌==◌, if◌then◌else◌, ◌≢◌, ◌↔◌, ℕ, ◌≡◌, refl, true, false, List, [], ◌∷◌, ◌++◌, arith}
use ced.Ids.{Id64, begin_id, end_id, id_block}
use ced.Proto.{Bytes}
use ced.Outcome.{fault, Outcome, ok}
use ced.Text.{AnnotatedString, new_string}
use ced.Text.Integrate.{integrate, integrate_all}
use ced.Text.Scan.{scan_text}
use ced.Text.Doc.{Cell, inserted}
use ced.Text.Doc.Insert.{IsText}
use ced.Text.Doc.Block.{block_cells, integrate_insert_lem}
use ced.Text.Doc.Render.{text_of, new_string-IsText}
use ced.Text.Doc.Walk.{marks_of}
use ced.Text.Doc.Converge.{place_command, insert_twice_lem}
use ced.Buffer.{EditNotification, EditResponse, Buffer, begin_update}
use ced.Buffer.Exclusion.{Phases, outside, editing, set_phase, begins, Reached, start, step}
use ced.Buffer.Progress.{IsFree, Enters, Reached-Enters}
use ced.Buffer.Listeners.{Shared, Sunk, sink_response-Sunk}

-- "a", typed by site 1.
abbrev cell_a : Cell
cell_a = inserted 1 97 begin_id end_id

a_typed :
    (t : AnnotatedString) × (integrate 10 new_string (place_command [] [] 1 97) ≡ ok t)
    × IsText t (cell_a ∷ [])
unfolding block_cells id_block
a_typed =
    integrate_insert_lem 10 new_string [] [] 1 97 [] new_string-IsText (tt, tt)
      (((λ e. absurd (omega arith)), ((λ e. absurd (omega arith)), tt)), tt) (omega arith)

-- Sites 2 and 3 type "b" and "c" behind it.
insert_twice_lem_example :
    let first = place_command (cell_a ∷ []) [] 2 98 in
    let second = place_command (cell_a ∷ []) [] 3 99 in
    let chars : Bytes = text_of (cell_a ∷ []) ++ 98 ∷ 99 ∷ text_of [] in
    let ids_of : List Id64 = marks_of (cell_a ∷ []) ++ 2 ∷ 3 ∷ marks_of [] in
    (t u : AnnotatedString) × (integrate_all 10 a_typed.0 (first ∷ second ∷ []) ≡ ok t)
    × (integrate_all 10 a_typed.0 (second ∷ first ∷ []) ≡ ok u)
    × (scan_text 10 t ≡ ok (chars, ids_of))
    × (scan_text 10 u ≡ ok (chars, ids_of))
insert_twice_lem_example =
    insert_twice_lem (cell_a ∷ []) [] 2 3 98 99 a_typed.0 10 a_typed.2 (omega arith)
      (
        (
          (λ e. absurd (omega arith)),
          ((λ e. absurd (omega arith)), ((λ e. absurd (omega arith)), tt)),
        ),
        (
          (
            (λ e. absurd (omega arith)),
            ((λ e. absurd (omega arith)), ((λ e. absurd (omega arith)), tt)),
          ),
          tt,
        ),
      )
      (omega arith)

abbrev at_rest : Buffer
at_rest = record {
  version = 0;
  declared_no_edit = [];
  done = [];
  updating = false;
  state = record {
    content = new_string;
    fully_loaded = true;
    shutdown = false;
    referenced_file_version = 0;
  };
  collaborators = [];
}

abbrev busy : Buffer
busy = record at_rest { updating = true }

abbrev one_editing : Phases
one_editing = set_phase (λ _. outside) 1 (editing at_rest.state)

-- Thread 1's function throws.
abbrev unloaded : ℕ → EditNotification → Outcome EditNotification
unloaded t st = if t == 1 then fault else ok (record st { fully_loaded = false })

one_begun : Reached busy one_editing
unfolding begin_update
one_begun =
    step busy one_editing (start at_rest refl)
      (begins at_rest (λ _. outside) 1 at_rest.state busy refl refl)

-- Thread 2 wants to update while thread 1 is editing.
Reached-Enters_example :
    (Enters unloaded 2 busy one_editing ↔ IsFree unloaded busy one_editing)
    × ((u : ℕ) (st : EditNotification)
        → one_editing u ≡ editing st
        → ((st' : EditNotification) → unloaded u st ≢ ok st')
        → ¬ Enters unloaded 2 busy one_editing)
Reached-Enters_example = Reached-Enters unloaded 2 busy one_editing one_begun refl

abbrev types_a : EditResponse
types_a = record {
  done = true;
  become_used = true;
  become_loaded = false;
  referenced_file_changed = false;
  content_updates = place_command [] [] 1 97 ∷ [];
}

abbrev watched : Shared
watched = record {
  buffer = at_rest;
  listeners = record { id = 4; initial = new_string; updates = [] } ∷ [];
}

all_typed : integrate_all 10 new_string types_a.content_updates ≡ ok a_typed.0
unfolding integrate_all
all_typed = rw a_typed.1 refl

sink_response-Sunk_example : Sunk 10 7 types_a watched
unfolding integrate_all
sink_response-Sunk_example =
    sink_response-Sunk 10 7 types_a watched a_typed.0 refl all_typed (refl, tt)
