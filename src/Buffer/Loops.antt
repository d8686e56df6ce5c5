-- ===== src/Buffer/Loops.antt =====
-- buffer.cc: the rounds of the loops that a Buffer runs in its collaborators' threads, RunPush,
-- RunPull, RunSync and the loop of a command collaborator, and what follows their end. What the
-- collaborator itself answers is given. A round is a whole call that no other thread interrupts.
use ced.Base.{ℕ, Bool, true, false, none, some, ◌∷◌}
use ced.Proto.{CommandSet}
use ced.Outcome.{Outcome, ok, ◌>>=◌}
use ced.Buffer.{
  EditNotification, EditResponse, Buffer, waits, notifies, shuts_down, next_notification,
  declare_no_edit, finish,
}
use ced.Buffer.Listeners.{Shared, push_changes, sink_response}

-- What a round leaves: the loop waits, goes on, or has ended.
pub data Turn : Type 0 where
  blocked : Turn
  goes_on : ℕ → Shared → Turn
  ended : Shared → Turn

abbrev with_buffer : Shared → Buffer → Shared
with_buffer s b = record s { buffer = b }

-- RunPush: `last` is `processed_version`; the collaborator is handed the notification.
unfoldable pub push_round : ℕ → ℕ → Shared → Turn
push_round collaborator last s = elim (next_notification s.buffer collaborator last) [
  | waits ↦ blocked
  | notifies _ version ↦ goes_on version s
  | shuts_down b ↦ ended (with_buffer s b)
]

-- The round of RunPull, and of RunSync after its notification: SinkResponse of an answer.
unfoldable pub sink_round : ℕ → ℕ → ℕ → EditResponse → Shared → Outcome Turn
sink_round fuel collaborator last r s = elim (sink_response fuel collaborator r s) [
  | none ↦ ok blocked
  | some result ↦ result >>= λ (q : Bool × Shared).
      ok (elim q.0 [ true ↦ ended q.1 | false ↦ goes_on last q.1 ])
]

-- RunSync: `edit` is the collaborator's Edit.
unfoldable pub sync_round : ℕ → ℕ → (EditNotification → EditResponse) → ℕ → Shared → Outcome Turn
unfolding sink_round
sync_round fuel collaborator edit last s = elim (next_notification s.buffer collaborator last) [
  | waits ↦ ok blocked
  | notifies n version ↦ sink_round fuel collaborator version (edit n) s
  | shuts_down b ↦ ok (ended (with_buffer s b))
]

-- A round of a command collaborator: what it pulled goes to every listener but its own, and into the
-- content. `more` is what its Pull returned.
unfoldable pub command_round : ℕ → ℕ → CommandSet → Bool → ℕ → Shared → Outcome Turn
command_round fuel listener cmds more last s = elim (push_changes fuel cmds (some listener) s) [
  | none ↦ ok blocked
  | some result ↦
      result >>= λ (t : Shared). ok (elim more [ true ↦ goes_on last t | false ↦ ended t ])
]

-- What a thread does after its loop: that of RunPull and RunSync, and that of a command collaborator.
unfoldable pub after_loop : ℕ → Shared → Shared
after_loop collaborator s = with_buffer s (finish s.buffer collaborator)

unfoldable pub after_commands : ℕ → Shared → Shared
after_commands collaborator s =
    with_buffer s (declare_no_edit (finish s.buffer collaborator) collaborator)

-- AddCollaborator, without the threads that it starts.
unfoldable pub add_collaborator : ℕ → Shared → Shared
add_collaborator collaborator s =
    with_buffer s (record s.buffer { collaborators = collaborator ∷ s.buffer.collaborators })
