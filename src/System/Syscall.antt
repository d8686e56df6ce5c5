-- ===== src/System/Syscall.antt =====
-- wrap_syscall.cc, WrapSyscall, and the loops that are built on it: Read of read.cc, and the reader and
-- the writer of run.cc. A call's answer is what it gives, or -1 with an errno. The errno EINTR is a
-- parameter. An answer of `read` is the bytes that it puts into the buffer, one of `write` their count.
use ced.Base.{ℕ, zero, suc, ◌==◌, ltb, if◌then◌else◌, List, [], ◌∷◌, ◌++◌, length, drop, take}
use ced.Proto.{Bytes}
use ced.Outcome.{Outcome, ok, fault, out_of_fuel, ◌>>=◌}

pub data Answer {ℓ} (A : Type ℓ) : Type ℓ where
  gave : A → Answer A
  failed : ℕ → Answer A

abbrev pub Answers {ℓ} : Type ℓ → Type ℓ
Answers A = List (Answer A)

module _ (eintr : ℕ) where
  -- WrapSyscall: the answer, and the answers that are left. Without an answer it goes on asking.
  unfoldable pub wrap_syscall {ℓ} : {A : Type ℓ} → Answers A → Outcome (A × Answers A)
  wrap_syscall [] = out_of_fuel
  wrap_syscall (gave a ∷ rest) = ok (a, rest)
  wrap_syscall (failed e ∷ rest) =
      let again = wrap_syscall rest in if e == eintr then again else fault

  -- `do { n = read(...); out->append(buf, n); } while (n > 0);`
  unfoldable pub read_all : ℕ → Answers Bytes → Outcome Bytes
  read_all zero as' = out_of_fuel
  read_all (suc fuel) as' =
      let more = λ (rest : Answers Bytes). read_all fuel rest in
      wrap_syscall as' >>= λ (r : Bytes × Answers Bytes).
      if ltb 0 (length r.0) then (more r.1 >>= λ out. ok (r.0 ++ out)) else ok r.0

  -- `while (buf != end) buf += write(...)`: what the pipe has taken.
  unfoldable pub write_all : ℕ → Bytes → Answers ℕ → Outcome Bytes
  write_all zero buf as' = out_of_fuel
  write_all (suc fuel) buf as' =
      let more = λ (b : Bytes) (rest : Answers ℕ). write_all fuel b rest in
      elim buf [
        | [] ↦ ok []
        | c ∷ cs ↦ wrap_syscall as' >>= λ (r : ℕ × Answers ℕ).
            more (drop r.0 (c ∷ cs)) r.1 >>= λ out. ok (take r.0 (c ∷ cs) ++ out)
      ]

  -- The loop of Read, `while (n == sizeof(buf))`.
  unfoldable pub read_file_from : ℕ → ℕ → Answers Bytes → Outcome Bytes
  read_file_from size zero as' = out_of_fuel
  read_file_from size (suc fuel) as' =
      let more = λ (rest : Answers Bytes). read_file_from size fuel rest in
      wrap_syscall as' >>= λ (r : Bytes × Answers Bytes).
      if length r.0 == size then (more r.1 >>= λ out. ok (r.0 ++ out)) else ok r.0

  -- Read, whose buffer has 16384 bytes: `open`, and the loop. The descriptor stays open.
  unfoldable pub read_file : ℕ → Answers ℕ → Answers Bytes → Outcome Bytes
  unfolding read_file_from
  read_file fuel opens reads =
      wrap_syscall opens >>= λ (r : ℕ × Answers ℕ). read_file_from 16384 fuel reads
