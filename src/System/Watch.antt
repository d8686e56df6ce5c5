-- ===== src/System/Watch.antt =====
-- fswatch.cc: RunWatch on Linux and on macOS, and the class FSWatcher. What inotify, kqueue and poll
-- answer is given; a run's calls that open and close descriptors are listed in order. The messages on
-- stderr are left out.
pub mod Balance
use ced.Base.{
  ℕ, zero, suc, ◌==◌, not, ◌&&◌, ◌||◌, if◌then◌else◌, Bool, true, false, Option, none, some, List,
  [], ◌∷◌, ◌++◌, map,
}

pub data Call : Type 0 where
  opens : ℕ → Call
  closes : ℕ → Call

-- A Cleanup: the descriptors that its functions close, in the order in which they were added.
abbrev pub clean_up : List ℕ → List Call
clean_up fds = map closes fds

unfoldable pub all_added : List Bool → Bool
all_added [] = true
all_added (b ∷ bs) = b && all_added bs

-- RunWatch on Linux: inotify_init's descriptor, whether each path could be watched, and whether poll
-- finds the pipe's `revents` zero.
unfoldable pub run_inotify : Option ℕ → List Bool → Bool → Bool × List Call
unfolding all_added
run_inotify none added quiet = (false, [])
run_inotify (some fd) added quiet = (all_added added && quiet, opens fd ∷ clean_up (fd ∷ []))

-- The loop of RunWatch on macOS that opens the paths: whether it went through, and what it opened and
-- what it left to the Cleanup. -1 is `none`; 0 counts as a failure, too.
unfoldable pub open_paths : List (Option ℕ) → Bool × List ℕ × List ℕ
open_paths [] = (true, [], [])
open_paths (none ∷ rest) = (false, [], [])
open_paths (some zero ∷ rest) = (false, zero ∷ [], [])
open_paths (some (suc n) ∷ rest) =
    let (done, opened, added) = open_paths rest in (done, suc n ∷ opened, suc n ∷ added)

unfoldable pub any_pipe : List Bool → Bool
any_pipe [] = false
any_pipe (b ∷ bs) = b || any_pipe bs

-- RunWatch on macOS. kevent fails, or gives for each event whether it is the pipe's.
unfoldable pub run_kqueue : Option ℕ → List (Option ℕ) → Option (List Bool) → Bool × List Call
unfolding open_paths any_pipe
run_kqueue none paths events = (false, [])
run_kqueue (some kq) paths events =
    let (done, opened, added) = open_paths paths in
    let changed : Bool = elim events [ none ↦ false | some es ↦ not (any_pipe es) ] in
    (done && changed, opens kq ∷ (map opens opened ++ clean_up (kq ∷ added)))

-- The thread of an FSWatcher: what its callback is told, which is whether the watcher shuts down.
unfoldable pub watch : Bool × List Call → Bool
watch r = not r.0
