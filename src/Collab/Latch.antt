-- ===== src/Collab/Latch.antt =====
-- content_latch.h: the guard that keeps a collaborator from the same content twice. Whether two
-- strings share their tree of characters is a question of addresses, and is a parameter.
use ced.Base.{ℕ, Bool, true, false, ◌==◌, not, if◌then◌else◌}
use ced.Text.{AnnotatedString}
use ced.Buffer.{EditNotification}

pub record ContentLatch : Type 0 where
  pub consumes_dependents : Bool
  pub last_str : AnnotatedString
  pub last_deps : ℕ

-- IsNewContent, and the latch after it.
unfoldable pub is_new_content :
    (AnnotatedString → AnnotatedString → Bool)
    → ContentLatch
    → EditNotification
    → Bool × ContentLatch
is_new_content same_content_identity latch n =
    let taken = record latch { last_str = n.content; last_deps = n.referenced_file_version } in
    if same_content_identity n.content latch.last_str
    then (if not latch.consumes_dependents
        then (false, latch)
        else (if latch.last_deps == n.referenced_file_version
            then (false, latch)
            else (true, taken)))
    else (true, taken)
