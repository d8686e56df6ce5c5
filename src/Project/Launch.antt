-- ===== src/Project/Launch.antt =====
-- server.cc: how a ProjectServer comes up, from its arguments on, its answer to ConnectionHello, and
-- the arguments with which SpawnServer starts one. gRPC is not modelled; the path of a text
-- and the comparison of paths are parameters.
use ced.Base.{◌==◌, if◌then◌else◌, Bool, false, List, [], ◌∷◌, ◌++◌, get_elem?, length, bytes}
use ced.Proto.{Bytes}
use ced.Outcome.{Outcome, ok, fault, ◌>>=◌, deref}
use ced.Project.{Paths, local_address_path}
use ced.Project.Server.{Server}

-- PathFromArgs, on `argv` with the program's name as its first entry.
unfoldable pub path_from_args : List Bytes → Outcome Bytes
path_from_args argv = if length argv == 2 then deref (get_elem? argv 1) else fault

module _ {ℓ} {FilePath : Type ℓ} (paths : Paths FilePath) (remove_filename : FilePath → FilePath)
    (of_text : Bytes → FilePath) (same : FilePath → FilePath → Bool) where
  -- The constructor, up to the start of gRPC's server; `root` is the project's root.
  unfoldable pub new_server {κ} :
      (Buffer : Type κ) → FilePath → List Bytes → Outcome (Server paths remove_filename Buffer)
  unfolding path_from_args
  new_server Buffer root argv = path_from_args argv >>= λ path.
      if same (of_text path) (local_address_path paths root)
      then ok (record { active_requests = 0; quit_requested = false; buffers = [] })
      else fault

  -- SpawnServer's arguments to run_daemon, without the program. `src_hash` is the build's hash.
  unfoldable pub spawn_args : Bytes → FilePath → List Bytes
  spawn_args src_hash root =
      let port = local_address_path paths root in
      bytes "-mode"
      ∷ bytes "ProjectServer"
      ∷ bytes "-logfile"
      ∷ paths.text (paths.child (paths.parent port) (bytes ".cedlog.server." ++ src_hash))
      ∷ paths.text port
      ∷ []

-- ConnectionHello: the hash of the server's build.
unfoldable pub connection_hello : Bytes → Bytes
connection_hello src_hash = src_hash
