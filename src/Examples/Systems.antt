-- ===== src/Examples/Systems.antt =====
-- The theorems on processes and on the watch of files, at small inputs. A descriptor's name is one
-- byte, its number behind a digit.
use ced.Base.{ℕ, ◌≡◌, refl, true, false, Option, none, some, [], ◌∷◌, arith}
use ced.Proto.{Bytes}
use ced.Outcome.{ok}
use ced.System.Syscall.{gave, failed}
use ced.System.Pipes.{at_end, piece, interrupted, written, takes, stopped, run_lem}
use ced.System.Run.{Descriptors, file_at, child, run}
use ced.System.Run.Child.{listing, three, child_lem}
use ced.System.Watch.{run_inotify, run_kqueue}
use ced.System.Watch.Balance.{opened, closed, run_watch-closes}

-- `c++filt` is given "ab", in two pieces and with an interruption, and answers "xy".
run_lem_example :
    run 4 5
      (97 ∷ 98 ∷ [])
      (gave 1 ∷ failed 4 ∷ gave 1 ∷ [])
      (gave (120 ∷ []) ∷ failed 4 ∷ gave (121 ∷ []) ∷ gave [] ∷ [])
      (gave [] ∷ [])
      0
    ≡ ok (record { out = 120 ∷ 121 ∷ []; err = []; status = 0 }, 97 ∷ 98 ∷ [])
run_lem_example =
    run_lem 4 5 0
      (takes (97 ∷ 98 ∷ []) 0 (failed 4 ∷ gave 1 ∷ []) (omega arith)
        (stopped (98 ∷ []) (gave 1 ∷ []) (takes (98 ∷ []) 0 [] (omega arith) (written []))))
      (piece 120 [] (121 ∷ []) _ (interrupted (121 ∷ []) _ (piece 121 [] [] _ (at_end []))))
      (at_end []) (omega arith) (omega arith) (omega arith)

abbrev name : ℕ → Bytes
name n = b'0' ∷ n ∷ []

abbrev number : Bytes → Option ℕ
number (_ ∷ n ∷ []) = some n
number _ = none

-- A terminal as 0, 1 and 2, another file, and the six ends of the pipes.
abbrev parent : Descriptors
parent =
    (0, 100)
    ∷ (1, 100)
    ∷ (2, 100)
    ∷ (3, 101)
    ∷ (4, 200)
    ∷ (5, 201)
    ∷ (6, 202)
    ∷ (7, 203)
    ∷ (8, 204)
    ∷ (9, 205)
    ∷ []

child_lem_example :
    (t : Descriptors) × (child number 4 7 9 (some (10, 300)) (listing name) parent ≡ ok t)
    × ((j : ℕ) → file_at j t ≡ three 200 203 205 j)
unfolding file_at
child_lem_example =
    child_lem number name (λ n. refl) (λ n. refl) 4 7 9 10 300 200 203 205 parent (omega arith)
      (omega arith) (omega arith) (omega arith) (omega arith) refl refl refl refl

run_watch-closes_example :
    (opened 3 (run_inotify (some 3) (true ∷ false ∷ []) true).1
      ≡ closed 3 (run_inotify (some 3) (true ∷ false ∷ []) true).1)
    × (opened 3 (run_kqueue (some 3) (some 4 ∷ none ∷ []) none).1
        ≡ closed 3 (run_kqueue (some 3) (some 4 ∷ none ∷ []) none).1)
run_watch-closes_example =
    run_watch-closes (some 3) (true ∷ false ∷ []) true (some 4 ∷ none ∷ []) none 3
      ((λ e. cc (e)), ((λ e. cc (e)), tt))
