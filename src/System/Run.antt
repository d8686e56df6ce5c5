-- ===== src/System/Run.antt =====
-- run.cc: run and run_daemon. A process is its table of file descriptors, each with the file that it
-- stands for. `strtol` on a whole name is a parameter, and so are the entries of the directory that
-- lists the open descriptors. execvp and abort are not modelled: the child is what it is before them.
pub mod Child
use ced.Base.{
  ℕ, ◌==◌, leb, ◌||◌, if◌then◌else◌, Bool, true, false, Option, none, some, List, [], ◌∷◌,
}
use ced.Proto.{Bytes}
use ced.Outcome.{Outcome, ok, fault, ◌>>=◌, deref}
use ced.System.Syscall.{Answers, wrap_syscall, read_all, write_all}

-- The open descriptors, the latest first, by the number of the file behind each.
abbrev pub Descriptors : Type 0
Descriptors = List (ℕ × ℕ)

unfoldable pub file_at : ℕ → Descriptors → Option ℕ
file_at fd [] = none
file_at fd ((d, f) ∷ ds) = let later = file_at fd ds in if d == fd then some f else later

unfoldable pub close_at : ℕ → Descriptors → Descriptors
close_at fd [] = []
close_at fd ((d, f) ∷ ds) = let later = close_at fd ds in if d == fd then later else (d, f) ∷ later

-- dup2: the new descriptor is closed first, if it is open.
unfoldable pub dup2 : ℕ → ℕ → Descriptors → Outcome Descriptors
unfolding file_at close_at
dup2 old new ds =
    deref (file_at old ds) >>= λ f. ok (if old == new then ds else (new, f) ∷ close_at new ds)

-- `close` of a descriptor that is not open fails.
unfoldable pub close_checked : ℕ → Descriptors → Outcome Descriptors
unfolding file_at close_at
close_checked fd ds = deref (file_at fd ds) >>= λ _. ok (close_at fd ds)

abbrev pub starts_with_dot : Bytes → Bool
starts_with_dot [] = false
starts_with_dot (c ∷ _) = c == b'.'

module _ (strtol : Bytes → Option ℕ) where
  -- The loop of CloseFDsAfter over the directory, which is open as `dir`.
  unfoldable pub close_entries : ℕ → ℕ → List Bytes → Descriptors → Outcome Descriptors
  close_entries after dir [] ds = ok ds
  close_entries after dir (name ∷ names) ds =
      let skip = close_entries after dir names ds in
      let next = λ (t : Descriptors). close_entries after dir names t in
      if starts_with_dot name
      then skip
      else (deref (strtol name) >>= λ fd.
          if leb fd after || fd == dir then skip else (close_checked fd ds >>= λ t. next t))

  -- CloseFDsAfter: what opendir gives is a descriptor with the directory behind it, or nothing, on
  -- which every descriptor stays open. `entries` is what readdir lists.
  unfoldable pub close_fds_after :
      ℕ → Option (ℕ × ℕ) → (Descriptors → List Bytes) → Descriptors → Outcome Descriptors
  unfolding close_entries
  close_fds_after after none entries ds = ok ds
  close_fds_after after (some (dir, file)) entries ds =
      let opened = (dir, file) ∷ ds in
      close_entries after dir (entries opened) opened >>= λ t. ok (close_at dir t)

  -- The child of run before execvp: the ends of the pipes that it is given become 0, 1 and 2.
  unfoldable pub child :
      ℕ → ℕ → ℕ → Option (ℕ × ℕ) → (Descriptors → List Bytes) → Descriptors → Outcome Descriptors
  child read_in write_out write_err dir entries ds = dup2 read_in 0 ds >>= λ a.
      dup2 write_out 1 a >>= λ b. dup2 write_err 2 b >>= λ c. close_fds_after 2 dir entries c

  -- The child of run_daemon: /dev/null, opened twice, is `null`.
  unfoldable pub daemon :
      ℕ → ℕ → ℕ → Option (ℕ × ℕ) → (Descriptors → List Bytes) → Descriptors → Outcome Descriptors
  unfolding child
  daemon rdf wrf null dir entries ds =
      child rdf wrf wrf dir entries ((wrf, null) ∷ (rdf, null) ∷ ds)

pub record RunResult : Type 0 where
  pub out : Bytes
  pub err : Bytes
  pub status : ℕ

-- What the parent does with the pipes of the child, after `pipe` and `fork`: the three threads have
-- each their own pipe. The result, and what the child is sent.
unfoldable pub run :
    ℕ → ℕ → Bytes → Answers ℕ → Answers Bytes → Answers Bytes → ℕ → Outcome (RunResult × Bytes)
run eintr fuel input writes outs errs status = write_all eintr fuel input writes >>= λ sent.
    read_all eintr fuel outs >>= λ out.
    read_all eintr fuel errs >>= λ err. ok (record { out = out; err = err; status = status }, sent)

-- cppfilt.cc
unfoldable pub cppfilt :
    ℕ → ℕ → Bytes → Answers ℕ → Answers Bytes → Answers Bytes → ℕ → Outcome Bytes
unfolding run
cppfilt eintr fuel text writes outs errs status =
    run eintr fuel text writes outs errs status >>= λ (r : RunResult × Bytes). ok r.0.out
