-- ===== src/System/Pipes.antt =====
-- The loops of run.cc and read.cc on answers that a system may give: what a reader and a writer pass
-- on, whatever the sizes of the pieces and however often a call is interrupted.
use ced.Base.{
  ℕ, zero, suc, ◌<◌, ◌≤◌, ◌≡◌, refl, ap, [], ◌∷◌, ◌++◌, length, drop, arith, take-append-drop,
  length-drop, ==_refl,
}
use ced.Proto.{Bytes}
use ced.Outcome.{ok}
use ced.System.Run.{run}
use ced.System.Syscall.{Answers, gave, failed, wrap_syscall, read_all, write_all, read_file_from}

module _ (eintr : ℕ) where
  -- Answers to `read` with a content to come: pieces that are not empty, an interruption at any time,
  -- and an empty piece at the end.
  pub data Reads : Bytes → Answers Bytes → Type 0 where
    at_end : (rest : Answers Bytes) → Reads [] (gave [] ∷ rest)
    piece :
        (c : ℕ) (cs more : Bytes) (rest : Answers Bytes)
        → Reads more rest
        → Reads (c ∷ (cs ++ more)) (gave (c ∷ cs) ∷ rest)
    interrupted :
        (content : Bytes) (rest : Answers Bytes)
        → Reads content rest
        → Reads content (failed eintr ∷ rest)

  -- On such answers, with a round for each, the reader of a pipe ends and has the whole content.
  pub read_all_lem :
      {content : Bytes} {as' : Answers Bytes}
      → Reads content as'
      → (fuel : ℕ) → length as' ≤ fuel
      → read_all eintr fuel as' ≡ ok content
  unfolding read_all wrap_syscall
  read_all_lem (at_end rest) zero h = absurd (omega arith)
  read_all_lem (piece c cs more rest r) zero h = absurd (omega arith)
  read_all_lem (interrupted content rest r) zero h = absurd (omega arith)
  read_all_lem (at_end rest) (suc fuel) h = refl
  read_all_lem (piece c cs more rest r) (suc fuel) h =
      rw (read_all_lem r fuel (omega arith)) (ground arith)
  read_all_lem (interrupted content rest r) (suc fuel) h =
      rw (==_refl eintr) (read_all_lem r (suc fuel) (omega arith))

  -- Answers to `write` for a buffer: each takes some of what is left, and it may be interrupted.
  pub data Writes : Bytes → Answers ℕ → Type 0 where
    written : (rest : Answers ℕ) → Writes [] rest
    takes :
        (buf : Bytes) (n : ℕ) (rest : Answers ℕ)
        → suc n ≤ length buf
        → Writes (drop (suc n) buf) rest
        → Writes buf (gave (suc n) ∷ rest)
    stopped : (buf : Bytes) (rest : Answers ℕ) → Writes buf rest → Writes buf (failed eintr ∷ rest)

  -- On such answers, with a round for each byte, the writer ends and the pipe has taken the whole buffer.
  pub write_all_lem :
      {buf : Bytes} {as' : Answers ℕ}
      → Writes buf as'
      → (fuel : ℕ) → length buf < fuel
      → write_all eintr fuel buf as' ≡ ok buf
  unfolding write_all wrap_syscall
  write_all_lem (written rest) zero h = absurd (omega arith)
  write_all_lem (takes buf n rest p w) zero h = absurd (omega arith)
  write_all_lem (stopped buf rest w) zero h = absurd (omega arith)
  write_all_lem (written rest) (suc fuel) h = refl
  write_all_lem (takes [] n rest p w) (suc fuel) h = absurd (omega arith)
  write_all_lem (takes (c ∷ cs) n rest p w) (suc fuel) h =
      rw (write_all_lem w fuel (omega (arith, length-drop n cs)))
        (ap (λ out. ok (c ∷ out)) (take-append-drop n cs))
  write_all_lem (stopped [] rest w) (suc fuel) h = refl
  write_all_lem (stopped (c ∷ cs) rest w) (suc fuel) h =
      rw (==_refl eintr) (write_all_lem w (suc fuel) h)

  -- Answers to `read` for a file: full pieces and then one that is short.
  pub data ReadsFile (size : ℕ) : Bytes → Answers Bytes → Type 0 where
    short :
        (piece : Bytes) (rest : Answers Bytes)
        → length piece < size
        → ReadsFile size piece (gave piece ∷ rest)
    full :
        (piece more : Bytes) (rest : Answers Bytes)
        → length piece ≡ size
        → ReadsFile size more rest
        → ReadsFile size (piece ++ more) (gave piece ∷ rest)
    again :
        (content : Bytes) (rest : Answers Bytes)
        → ReadsFile size content rest
        → ReadsFile size content (failed eintr ∷ rest)

  read_file_from_lem :
      (size : ℕ) {content : Bytes} {as' : Answers Bytes}
      → ReadsFile size content as'
      → (fuel : ℕ) → length as' ≤ fuel
      → read_file_from eintr size fuel as' ≡ ok content
  unfolding read_file_from wrap_syscall
  read_file_from_lem size (short p rest q) zero h = absurd (omega arith)
  read_file_from_lem size (full p more rest q r) zero h = absurd (omega arith)
  read_file_from_lem size (again content rest r) zero h = absurd (omega arith)
  read_file_from_lem size (short p rest q) (suc fuel) h = ground (arith, q)
  read_file_from_lem size (full p more rest q r) (suc fuel) h =
      rw (read_file_from_lem size r fuel (omega arith)) (ground (arith, q))
  read_file_from_lem size (again content rest r) (suc fuel) h =
      rw (==_refl eintr) (read_file_from_lem size r (suc fuel) (omega arith))

  -- On such answers for its three pipes, run sends the command the whole input and returns the whole
  -- of what it writes to either output, with its status.
  pub run_lem :
      {input out err : Bytes} {writes : Answers ℕ} {outs errs : Answers Bytes} (fuel status : ℕ)
      → Writes input writes
      → Reads out outs
      → Reads err errs
      → length input < fuel
      → length outs ≤ fuel
      → length errs ≤ fuel
      → run eintr fuel input writes outs errs status
        ≡ ok (record { out = out; err = err; status = status }, input)
  unfolding run
  run_lem fuel status w ro re hi ho he =
      rw (write_all_lem w fuel hi)
        (rw (read_all_lem ro fuel ho) (rw (read_all_lem re fuel he) refl))
