-- ===== src/Project/Server.antt =====
-- server.cc, the class ProjectServer: the requests that run, the buffers that are open, which paths
-- a client may open, and an Edit stream as the messages that it reads and writes. gRPC and time are
-- not modelled; boost's paths are parameters. A buffer is its content, which only
-- the stream itself changes here. A read that fails leaves the message as it was.
use ced.Base.{
  ℕ, suc, ◌-◌, ◌==◌, ltb, not, ◌&&◌, ◌||◌, if◌then◌else◌, Bool, true, false, Option, none, some,
  List, [], ◌∷◌, length, bytes,
}
use ced.Ids.{Site}
use ced.Proto.{Bytes, CommandSet, AnnotatedStringMsg}
use ced.Outcome.{Outcome, ok, fault, ◌>>=◌}
use ced.Text.{AnnotatedString}
use ced.Text.Integrate.{integrate_all}
use ced.Text.Messages.{as_proto}
use ced.Text.Annotator.{equal_bytes}
use ced.Project.{Paths}

-- `std::equal(haystack.begin(), haystack.end(), needle.begin())`: where the needle ends first, it is
-- read behind its end.
unfoldable pub equal_range : Bytes → Bytes → Outcome Bool
equal_range [] needle = ok true
equal_range (h ∷ hs) [] = fault
equal_range (h ∷ hs) (n ∷ ns) = let rest = equal_range hs ns in if h == n then rest else ok false

module _ {ℓ} {FilePath : Type ℓ} (paths : Paths FilePath)
    (remove_filename : FilePath → FilePath) where
  unfoldable pub is_child_of : FilePath → FilePath → Outcome Bool
  unfolding equal_range
  is_child_of needle0 haystack0 =
      let needle = paths.absolute needle0 in
      let abs = paths.absolute haystack0 in
      let haystack =
        if equal_bytes (paths.filename abs) (bytes ".") then remove_filename abs else abs in
      if not (paths.has_filename needle)
      then ok false
      else (let needle_str = paths.text (remove_filename needle) in
          let haystack_str = paths.text haystack in
          if ltb (length haystack_str) (length needle_str)
          then ok false
          else equal_range haystack_str needle_str)

  pub record Server {κ} (Buffer : Type κ) : Type κ where
    pub active_requests : ℕ
    pub quit_requested : Bool
    pub buffers : List (Bytes × Buffer)

  module _ {κ} {Buffer : Type κ} where
    unfoldable pub find_buffer : List (Bytes × Buffer) → Bytes → Option Buffer
    find_buffer [] key = none
    find_buffer ((k, b) ∷ rest) key =
        let later = find_buffer rest key in if equal_bytes k key then some b else later

    -- GetBuffer: the buffer of a path below the root, made where there is none yet.
    unfoldable pub get_buffer :
        FilePath
        → (FilePath → Buffer)
        → FilePath
        → Server Buffer
        → Outcome (Option (Buffer × Server Buffer))
    unfolding is_child_of find_buffer
    get_buffer root make path0 srv =
        let path = paths.absolute path0 in
        is_child_of path root >>= λ inside.
        if not inside then ok none else (elim (find_buffer srv.buffers (paths.text path)) [
          | some b ↦ ok (some (b, srv))
          | none ↦
              let b = make path in
              ok (some (b, record srv { buffers = (paths.text path, b) ∷ srv.buffers }))
        ])

    -- ScopedRequest's constructor and destructor, and Quit.
    unfoldable pub begin_request : Server Buffer → Server Buffer
    begin_request srv = record srv { active_requests = suc srv.active_requests }

    unfoldable pub end_request : Server Buffer → Server Buffer
    end_request srv = record srv { active_requests = srv.active_requests - 1 }

    unfoldable pub quit : Server Buffer → Server Buffer
    quit srv = record srv { quit_requested = true }

    -- The condition on which Run returns; `idle` says that an hour has gone by.
    unfoldable pub run_done : Bool → Server Buffer → Bool
    run_done idle srv = srv.active_requests == 0 && (srv.quit_requested || idle)

-- `message EditMessage` as Edit tells its types apart.
pub data EditMessage : Type 0 where
  client_hello : Bytes → EditMessage
  commands : CommandSet → EditMessage
  other_type : EditMessage

pub data Status : Type 0 where
  status_ok : Status
  invalid_argument : Status

-- The first message to the client.
unfoldable pub server_hello : Site → AnnotatedString → ℕ × AnnotatedStringMsg
server_hello site initial = (site.id, as_proto initial)

-- The loop of Edit over the messages that are read, and what follows it: `msg` is the last message
-- that was read when the stream ends, and its commands are what is pushed then.
unfoldable pub serve_edits :
    ℕ → Site → CommandSet → List EditMessage → AnnotatedString → Outcome (Status × AnnotatedString)
serve_edits fuel site msg [] content = integrate_all fuel content msg >>= λ t. ok (status_ok, t)
serve_edits fuel site msg (commands cmds ∷ ms) content =
    integrate_all fuel content cmds >>= λ t. serve_edits fuel site cmds ms t
serve_edits fuel site msg (client_hello _ ∷ ms) content = ok (invalid_argument, content)
serve_edits fuel site msg (other_type ∷ ms) content = ok (invalid_argument, content)

-- Edit from its first message on, where `buffer` is the content of the buffer that it names.
unfoldable pub serve :
    ℕ
    → Site
    → (Bytes → Option AnnotatedString)
    → List EditMessage
    → Outcome (Status × Option AnnotatedString)
unfolding serve_edits
serve fuel site buffer (client_hello name ∷ ms) = elim (buffer name) [
  | none ↦ ok (invalid_argument, none)
  | some content ↦ serve_edits fuel site [] ms content >>= λ r. ok (r.0, some r.1)
]
serve fuel site buffer (commands _ ∷ ms) = ok (invalid_argument, none)
serve fuel site buffer (other_type ∷ ms) = ok (invalid_argument, none)
serve fuel site buffer [] = ok (invalid_argument, none)
