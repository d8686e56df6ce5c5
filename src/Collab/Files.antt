-- ===== src/Collab/Files.antt =====
-- io_collaborator.cc and referenced_file_collaborator.cc: loading and saving the file of a buffer,
-- and watching the files that it depends on. The system calls, and whether two strings share their
-- tree of characters, are parameters. An unordered set is a list without repetitions.
use ced.Base.{
  ℕ, ◌==◌, ◌&&◌, not, ◌||◌, if◌then◌else◌, Bool, true, false, Option, none, some, List, [], ◌∷◌,
  length,
}
use ced.Ids.{Id64, Site, end_id}
use ced.Proto.{Bytes, Attribute}
use ced.Outcome.{Outcome, ok, ◌>>=◌}
use ced.Text.{AnnotatedString}
use ced.Text.Iterate.{render}
use ced.Text.Commands.{make_raw_insert}
use ced.Text.Annotator.{equal_bytes}
use ced.Text.Attributes.{for_each_attribute}
use ced.Buffer.{EditNotification, EditResponse}

-- `kChunkSize`
abbrev pub chunk_size : ℕ
chunk_size = 4096

abbrev no_response : EditResponse
no_response = record {
  done = false;
  become_used = false;
  become_loaded = false;
  referenced_file_changed = false;
  content_updates = [];
}

-- IOCollaborator::Pull on what `read` gave: the response, `last_char_id_` and the site after it.
unfoldable pub pull_chunk : Bytes → Id64 → Site → Outcome (EditResponse × Id64 × Site)
pull_chunk buf last_char_id site =
    let over = not (length buf == chunk_size) in
    make_raw_insert site buf last_char_id end_id >>= λ r.
    ok (record no_response { done = over; become_loaded = over; content_updates = r.0 }, r.1, r.2)

-- IOCollaborator::Push: what it writes to the file, if anything.
unfoldable pub push_file :
    (AnnotatedString → AnnotatedString → Bool)
    → ℕ
    → AnnotatedString
    → EditNotification
    → Outcome (Option Bytes)
push_file same_content_identity fuel last_saved n =
    if not n.fully_loaded || same_content_identity last_saved n.content
    then ok none
    else (render fuel n.content >>= λ text. ok (some text))

-- The members of ReferencedFileCollaborator; `watch` is what `fswatch_` was last started on.
pub record ReferencedFiles : Type 0 where
  pub last : List Bytes
  pub update : Bool
  pub shutdown : Bool
  pub watch : List Bytes

unfoldable pub has_file : Bytes → List Bytes → Bool
has_file f [] = false
has_file f (g ∷ gs) = equal_bytes f g || has_file f gs

unfoldable pub dependencies : List (Id64 × Attribute) → List Bytes
unfolding has_file
dependencies [] = []
dependencies ((_, attr) ∷ rest) =
    let later = dependencies rest in
    elim attr [ Attribute.dependency f ↦ if has_file f later then later else f ∷ later | _ ↦ later ]

unfoldable pub all_in : List Bytes → List Bytes → Bool
unfolding has_file
all_in [] gs = true
all_in (f ∷ fs) gs = has_file f gs && all_in fs gs

unfoldable pub restart_watch : ReferencedFiles → ReferencedFiles
restart_watch st = record st { watch = st.last }

-- `Attribute::kDependency`
abbrev pub dependency_case : ℕ
dependency_case = 9

unfoldable pub push_files : ReferencedFiles → EditNotification → ReferencedFiles
unfolding dependencies all_in restart_watch
push_files st n =
    let referenced = dependencies (for_each_attribute n.content dependency_case) in
    let st' = record st { shutdown = if n.shutdown then true else st.shutdown } in
    if all_in referenced st.last && all_in st.last referenced
    then st'
    else restart_watch (record st' { last = referenced })

-- Pull: it waits until there is something to say.
unfoldable pub pull_files : ReferencedFiles → Option (EditResponse × ReferencedFiles)
pull_files st =
    if st.update || st.shutdown
    then some (
      record no_response { referenced_file_changed = st.update; done = st.shutdown },
      record st { update = false },
    )
    else none

unfoldable pub changed_file : Bool → ReferencedFiles → ReferencedFiles
unfolding restart_watch
changed_file shutdown_fswatch st =
    let st' = record st { update = true } in if not shutdown_fswatch then restart_watch st' else st'
