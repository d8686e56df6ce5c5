-- ===== src/Project/Client.antt =====
-- client.cc, the class Client and its ClientCollaborator: how a client finds a server, or starts one,
-- and the buffer that it makes from the server's greeting. gRPC, processes and the file system are
-- parameters: what the code learns from them is given.
use ced.Base.{
  ℕ, zero, suc, ◌+◌, ltb, not, ◌&&◌, ◌||◌, if◌then◌else◌, Bool, true, false, Option, none, some,
  List, [], ◌∷◌,
}
use ced.Ids.{Site, make_site}
use ced.Proto.{Bytes, CommandSet, AnnotatedStringMsg}
use ced.Outcome.{Outcome, ok, fault, out_of_fuel, ◌>>=◌, deref}
use ced.Text.{AnnotatedString}
use ced.Text.Messages.{from_proto}
use ced.Text.Annotator.{equal_bytes}

-- `while (!port_exists())`, where the wait before look n + 1 is `a` milliseconds: the time that was
-- slept, or a throw once a wait is longer than two seconds.
unfoldable pub wait_for_port : ℕ → (ℕ → Bool) → ℕ → ℕ → ℕ → ℕ → Outcome ℕ
wait_for_port zero port_exists n a b slept = out_of_fuel
wait_for_port (suc rounds) port_exists n a b slept =
    let rest = wait_for_port rounds port_exists (suc n) (a + b) a (slept + a) in
    if port_exists n then ok slept else (if ltb 2000 a then fault else rest)

-- What an attempt meets: whether the port is there, when it comes up after a start, the server's
-- answer to ConnectionHello, and whether the port can be removed.
pub record Attempt : Type 0 where
  pub port_there : Bool
  pub comes_up : ℕ → Bool
  pub src_hash : Option Bytes
  pub removable : Bool

-- The greeting on which an attempt ends or goes on; `force` is `force_restart`.
unfoldable pub after_hello : Bool → Bytes → Bool → Option Bytes → Bool
after_hello check_version own_hash force none = false
after_hello check_version own_hash force (some hash) =
    not (force || (check_version && not (equal_bytes hash own_hash)))

-- The loop over the attempts: whether one of them succeeded. A throw is `fault`.
unfoldable pub connect : ℕ → Bool → Bytes → Bool → List Attempt → Outcome Bool
unfolding wait_for_port after_hello
connect fuel check_version own_hash force [] = ok false
connect fuel check_version own_hash force (t ∷ ts) =
    let force' = force && t.port_there in
    let again = λ (f : Bool). connect fuel check_version own_hash f ts in
    (if t.port_there then ok 0 else wait_for_port fuel t.comes_up 0 1 1 0) >>= λ slept.
    if after_hello check_version own_hash force' t.src_hash
    then ok true
    else (if t.removable then again force' else fault)

-- A message from the server, as Pull and MakeBuffer tell its types apart.
pub data ServerMessage : Type 0 where
  greeting : ℕ → AnnotatedStringMsg → ServerMessage
  server_commands : CommandSet → ServerMessage
  other_message : ServerMessage

-- ClientCollaborator::Pull: the commands, or none for false, and whether it cancels the stream.
unfoldable pub pull_commands : Option ServerMessage → Option CommandSet × Bool
pull_commands none = (none, false)
pull_commands (some (server_commands cmds)) = (some cmds, false)
pull_commands (some (greeting _ _)) = (none, true)
pull_commands (some other_message) = (none, true)

-- ClientCollaborator::Push: the message that it writes, or none where it cancels the stream.
unfoldable pub push_commands : Option CommandSet → Option CommandSet
push_commands none = none
push_commands (some cmds) = some cmds

-- MakeBuffer on the server's answer to its hello: the buffer's content and site.
unfoldable pub make_buffer : ℕ → Option ServerMessage → Outcome (Option (AnnotatedString × Site))
make_buffer fuel none = ok none
make_buffer fuel (some (server_commands _)) = ok none
make_buffer fuel (some other_message) = ok none
make_buffer fuel (some (greeting site_id state)) = from_proto fuel state >>= λ content.
    deref (make_site (some site_id) 0) >>= λ made. ok (some (content, made.0))
