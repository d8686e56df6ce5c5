-- ===== src/System/Screen.antt =====
-- curses_client.cc, the class CursesClient: the loop of Run with the keys that curses reads, and
-- InvalidateTerminal. What Render draws, times and the log are not modelled.
use ced.Base.{ℕ, ◌==◌, not, if◌then◌else◌, Bool, true, false, List, [], ◌∷◌, get_elem?, length}
use ced.Proto.{Bytes}
use ced.Outcome.{Outcome, ok, fault, ◌>>=◌, deref}
use ced.Editor.{Clipboard}
use ced.Collab.Terminal.{Terminal, Keypress, all_process_key}

-- FileFromCmdLine, on `argv` with the program's name as its first entry.
unfoldable pub file_from_cmd_line : List Bytes → Outcome Bytes
file_from_cmd_line argv = if length argv == 2 then deref (get_elem? argv 1) else fault

-- What getch returns, as the switch of Run tells it apart.
pub data Code : Type 0 where
  err : Code
  key_resize : Code
  escape : Code
  pressed : Keypress → Code

-- What Run keeps: `was_invalidated`, and the terminals with their clipboard.
pub record Screen : Type 0 where
  pub was_invalidated : Bool
  pub clipboard : Clipboard
  pub terminals : List (Bool × Terminal)

unfoldable pub new_screen : List (Bool × Terminal) → Screen
new_screen terminals = record { was_invalidated = false; clipboard = []; terminals = terminals }

-- What a round meets: whether Render animates, `invalidated` before getch, what getch returns, and
-- `invalidated` at the exchange, which sets it to false.
pub record Round : Type 0 where
  pub animates : Bool
  pub invalidated : Bool
  pub code : Code
  pub invalidated_after : Bool

-- Whether a round draws, and whether getch waits for 10 milliseconds at most.
unfoldable pub draws : Screen → Bool
draws s = not s.was_invalidated

unfoldable pub has_timeout : Screen → Round → Bool
has_timeout s r = if s.was_invalidated then true else r.animates

pub data Looped : Type 0 where
  returns : Screen → Looped
  loops : Screen → Looped

-- The exchange at the end of a round, after which `was` stays only if `invalidated` was set.
abbrev exchanged : Bool → Bool → Screen → Looped
exchanged was invalidated s =
    loops (record s { was_invalidated = if invalidated then was else false })

unfoldable pub run_round : ℕ → ℕ → Screen → Round → Outcome Looped
run_round fuel rows s r = elim (if r.invalidated then err else r.code) [
  | err ↦ ok (exchanged true r.invalidated_after s)
  | key_resize ↦ ok (exchanged true r.invalidated_after s)
  | escape ↦ ok (returns (record s { was_invalidated = false }))
  | pressed key ↦
      all_process_key fuel rows s.clipboard s.terminals key
      >>= λ (q : Clipboard × List (Bool × Terminal)).
          ok (exchanged false r.invalidated_after (record s { clipboard = q.0; terminals = q.1 }))
]

-- Run on the rounds that it meets.
unfoldable pub run_loop : ℕ → ℕ → Screen → List Round → Outcome Looped
unfolding run_round
run_loop fuel rows s [] = ok (loops s)
run_loop fuel rows s (r ∷ rs) = run_round fuel rows s r >>= λ l. elim l [
  | returns t ↦ ok (returns t)
  | loops t ↦ run_loop fuel rows t rs
]
