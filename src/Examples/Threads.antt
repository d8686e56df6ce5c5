-- ===== src/Examples/Threads.antt =====
-- The theorem on the buffer's threads: two begin and commit in turn.
use ced.Base.{ℕ, ◌≡◌, refl, true, false, some, [], ◌∷◌, List, arith}
use ced.Outcome.{Outcome, ok}
use ced.Text.{new_string, contains}
use ced.Buffer.{
  EditNotification, EditResponse, Buffer, begin_update, commit_update, has_updates,
  next_notification, shuts_down, finish,
}
use ced.Buffer.Listeners.{Shared}
use ced.Buffer.Shutdown.{shut_down, sink_all, shut_down_lem}
use ced.Buffer.Exclusion.{
  Phases, outside, editing, set_phase, begins, commits, Reached, start, step, IsExclusive,
  Reached-IsExclusive,
}

abbrev fresh : Buffer
fresh = record {
  version = 0;
  declared_no_edit = [];
  done = [];
  updating = false;
  state = record {
    content = new_string;
    fully_loaded = false;
    shutdown = false;
    referenced_file_version = 0;
  };
  collaborators = [];
}

abbrev shut : EditNotification → EditNotification
shut st = record st { shutdown = true }

abbrev shuts : EditNotification → Outcome EditNotification
shuts st = ok (shut st)

abbrev held : Buffer
held = record fresh { updating = true }

abbrev freed : Buffer
freed = commit_update held (shut fresh.state)

abbrev held_again : Buffer
held_again = record freed { updating = true }

abbrev nobody : Phases
nobody = λ _. outside

abbrev first : Phases
first = set_phase nobody 1 (editing fresh.state)

abbrev handed_over : Phases
handed_over = set_phase first 1 outside

abbrev second : Phases
second = set_phase handed_over 2 (editing (shut fresh.state))

turns : Reached held_again second
unfolding begin_update commit_update
turns =
    step held_again second
      (step freed handed_over
        (step held first (start fresh refl) (begins fresh nobody 1 fresh.state held refl refl))
        (commits held first 1 fresh.state shuts (shut fresh.state) refl refl))
      (begins freed handed_over 2 (shut fresh.state) held_again refl refl)

Reached-IsExclusive_example : IsExclusive held_again second
Reached-IsExclusive_example = Reached-IsExclusive held_again second turns

-- Three collaborators, of which one was done before the destructor.
abbrev three : Buffer
three = record fresh { collaborators = 1 ∷ 2 ∷ 7 ∷ []; done = 7 ∷ [] }

abbrev quiet : EditResponse
quiet = record {
  done = false;
  become_used = false;
  become_loaded = false;
  referenced_file_changed = false;
  content_updates = [];
}

abbrev answers : List (ℕ × EditResponse)
answers = (2, quiet) ∷ (1, record quiet { done = true }) ∷ []

shut_down_lem_example :
    (b1 : Buffer) × (t : Shared) × (shut_down three ≡ some (ok b1))
    × (sink_all 1 answers (record { buffer = b1; listeners = [] }) ≡ some (ok t))
    × ((c : ℕ) → next_notification t.buffer c b1.version ≡ shuts_down (finish t.buffer c))
unfolding has_updates contains
shut_down_lem_example =
    shut_down_lem 1 three [] answers refl
      (
        ((λ e. absurd (omega arith)), ((λ e. absurd (omega arith)), tt)),
        (((λ e. absurd (omega arith)), tt), (tt, tt)),
      )
      (tt, tt) (refl, (refl, tt)) (λ c. ground arith)
