-- ===== src/Buffer.antt =====
-- buffer.h and buffer.cc, the class Buffer: the state that the collaborators' threads share under
-- `mu_`. Each definition is one critical section, or the work between two of them. A collaborator is
-- a number. Times, the waits for idleness, the log and the collaborators themselves are not modelled.
pub mod Exclusion
pub mod Progress
pub mod Listeners
pub mod Loops
pub mod Shutdown
pub mod Builder
use ced.Base.{
  ℕ, ◌+◌, ◌%◌, ◌^◌, ◌==◌, not, ◌&&◌, ◌||◌, if◌then◌else◌, Bool, true, false, Option, none, some,
  List, [], ◌∷◌, length,
}
use ced.Proto.{CommandSet}
use ced.Outcome.{Outcome, ok, ◌>>=◌}
use ced.Text.{AnnotatedString, contains}
use ced.Text.Integrate.{integrate_all}

pub record EditNotification : Type 0 where
  pub content : AnnotatedString
  pub fully_loaded : Bool
  pub shutdown : Bool
  pub referenced_file_version : ℕ

pub record EditResponse : Type 0 where
  pub done : Bool
  pub become_used : Bool
  pub become_loaded : Bool
  pub referenced_file_changed : Bool
  pub content_updates : CommandSet

-- The members that `mu_` guards, without the times, the threads and the listeners.
pub record Buffer : Type 0 where
  pub version : ℕ
  pub declared_no_edit : List ℕ
  pub done : List ℕ
  pub updating : Bool
  pub state : EditNotification
  pub collaborators : List ℕ

abbrev no_commands : CommandSet → Bool
no_commands [] = true
no_commands (_ ∷ _) = false

unfoldable pub has_updates : EditResponse → Bool
has_updates r = r.become_loaded || r.referenced_file_changed || not (no_commands r.content_updates)

unfoldable pub integrate_response : ℕ → EditResponse → EditNotification → Outcome EditNotification
integrate_response fuel r st = integrate_all fuel st.content r.content_updates >>= λ content.
    ok (record st {
      content = content;
      fully_loaded = if r.become_loaded then true else st.fully_loaded;
      referenced_file_version =
          if r.referenced_file_changed
          then (st.referenced_file_version + 1) % 2 ^ 64
          else st.referenced_file_version;
    })

-- UpdateState's first critical section: it waits while `updating_`, and takes a copy of the state.
unfoldable pub begin_update : Buffer → Option (EditNotification × Buffer)
begin_update b = if b.updating then none else some (b.state, record b { updating = true })

-- UpdateState's second critical section, with the state as its function has left the copy.
unfoldable pub commit_update : Buffer → EditNotification → Buffer
commit_update b st = record b {
  updating = false;
  version = (b.version + 1) % 2 ^ 64;
  declared_no_edit = b.done;
  state = st;
}

unfoldable pub set_insert : ℕ → List ℕ → List ℕ
set_insert x xs = if contains x xs then xs else x ∷ xs

-- SinkResponse without updates, and what a thread does when its collaborator is done.
unfoldable pub declare_no_edit : Buffer → ℕ → Buffer
unfolding set_insert
declare_no_edit b c = record b { declared_no_edit = set_insert c b.declared_no_edit }

unfoldable pub finish : Buffer → ℕ → Buffer
unfolding set_insert
finish b c = record b { done = set_insert c b.done }

unfoldable pub all_edits_complete : Buffer → Bool
all_edits_complete b = b.state.shutdown && length b.declared_no_edit == length b.collaborators

-- What NextNotification gives: it waits, it returns the state and the version, or it throws Shutdown.
pub data Next : Type 0 where
  waits : Next
  notifies : EditNotification → ℕ → Next
  shuts_down : Buffer → Next

unfoldable pub next_notification : Buffer → ℕ → ℕ → Next
unfolding all_edits_complete finish
next_notification b c last_processed =
    if not (b.version == last_processed)
    then notifies b.state b.version
    else (if all_edits_complete b then shuts_down (finish b c) else waits)
