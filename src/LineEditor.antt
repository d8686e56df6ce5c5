-- ===== src/LineEditor.antt =====
-- line_editor.h, the class LineEditor: one line of text with a cursor. `cursor_` and `sel_anchor_`
-- are ints; MoveEndOfLine may set the cursor to -1, which the text's methods read as the largest
-- size_t. Each method with an empty body leaves the state as it is and has one definition, `idle`.
pub mod Cursor
use ced.Base.{ℕ, zero, suc, ◌+◌, ltb, leb, if◌then◌else◌, Bool, true, false, List, [], ◌∷◌, length}
use ced.Proto.{Bytes}
use ced.Outcome.{Outcome, ok, fault, ◌>>=◌}

-- An int that is a position or -1, the one negative value that the code makes.
pub data Index : Type 0 where
  position : ℕ → Index
  minus_one : Index

pub record LineEditor : Type 0 where
  pub cursor : Index
  pub sel_anchor : Index
  pub text : Bytes

abbrev pub new_line_editor : LineEditor
new_line_editor = record { cursor = position 0; sel_anchor = minus_one; text = [] }

-- `sel_anchor_ == -1` and `cursor_ == 0`
unfoldable pub is_unset : Index → Bool
is_unset minus_one = true
is_unset (position _) = false

unfoldable pub is_start : Index → Bool
is_start (position zero) = true
is_start (position (suc _)) = false
is_start minus_one = false

unfoldable pub select_mode : LineEditor → Bool → LineEditor
select_mode e true = record e {
  sel_anchor = if is_unset e.sel_anchor then e.cursor else e.sel_anchor;
}
select_mode e false = record e { sel_anchor = minus_one }

-- `cursor_ -= (cursor_ > 0)`
unfoldable pub index_left : Index → Index
index_left minus_one = minus_one
index_left (position zero) = position zero
index_left (position (suc n)) = position n

-- `cursor_ += (cursor_ < text_.length())`
unfoldable pub index_right : ℕ → Index → Index
index_right len minus_one = minus_one
index_right len (position n) = if ltb n len then position (suc n) else position n

unfoldable pub cursor_left : LineEditor → LineEditor
unfolding index_left
cursor_left e = record e { cursor = index_left e.cursor }

unfoldable pub cursor_right : LineEditor → LineEditor
unfolding index_right
cursor_right e = record e { cursor = index_right (length e.text) e.cursor }

unfoldable pub select_left : LineEditor → LineEditor
select_left e = cursor_left (select_mode e true)

unfoldable pub move_left : LineEditor → LineEditor
move_left e = cursor_left (select_mode e false)

unfoldable pub select_right : LineEditor → LineEditor
select_right e = cursor_right (select_mode e true)

-- It leaves the selection as it is.
unfoldable pub move_right : LineEditor → LineEditor
move_right e = cursor_right e

unfoldable pub move_start_of_line : LineEditor → LineEditor
move_start_of_line e = record e { cursor = position 0 }

-- `text_.length() - 1` as an int.
unfoldable pub last_index : ℕ → Index
last_index zero = minus_one
last_index (suc n) = position n

unfoldable pub move_end_of_line : LineEditor → LineEditor
unfolding last_index
move_end_of_line e = record e { cursor = last_index (length e.text) }

unfoldable pub idle : LineEditor → LineEditor
idle e = e

-- `text_.erase(pos, 1)` and `text_.insert(pos, 1, c)`; the caller has tested the position.
unfoldable pub erase_at : ℕ → Bytes → Bytes
erase_at n [] = []
erase_at zero (c ∷ cs) = cs
erase_at (suc n) (c ∷ cs) = c ∷ erase_at n cs

unfoldable pub insert_at : ℕ → ℕ → Bytes → Bytes
insert_at zero x cs = x ∷ cs
insert_at (suc n) x [] = x ∷ []
insert_at (suc n) x (c ∷ cs) = c ∷ insert_at n x cs

-- A position past the text's length makes std::string throw.
unfoldable pub backspace_at : LineEditor → Index → Outcome LineEditor
unfolding erase_at
backspace_at e minus_one = fault
backspace_at e (position zero) = ok e
backspace_at e (position (suc n)) =
    if leb (suc n) (length e.text)
    then ok (record e { text = erase_at (suc n) e.text; cursor = position n })
    else fault

abbrev pub backspace : LineEditor → Outcome LineEditor
backspace e = backspace_at e e.cursor

unfoldable pub ins_char_at : LineEditor → ℕ → Index → Outcome LineEditor
unfolding insert_at
ins_char_at e c minus_one = fault
ins_char_at e c (position n) =
    if leb n (length e.text)
    then ok (record e { text = insert_at n c e.text; cursor = position (suc n) })
    else fault

abbrev pub ins_char : LineEditor → ℕ → Outcome LineEditor
ins_char e c = ins_char_at e c e.cursor

-- The keys that a line editor answers.
pub data Key : Type 0 where
  key_select_left : Key
  key_left : Key
  key_select_right : Key
  key_right : Key
  key_home : Key
  key_end : Key
  key_idle : Key
  key_backspace : Key
  key_char : ℕ → Key

unfoldable pub press : LineEditor → Key → Outcome LineEditor
press e key_select_left = ok (select_left e)
press e key_left = ok (move_left e)
press e key_select_right = ok (select_right e)
press e key_right = ok (move_right e)
press e key_home = ok (move_start_of_line e)
press e key_end = ok (move_end_of_line e)
press e key_idle = ok (idle e)
press e key_backspace = backspace e
press e (key_char c) = ins_char e c

unfoldable pub press_all : LineEditor → List Key → Outcome LineEditor
press_all e [] = ok e
press_all e (k ∷ ks) = press e k >>= λ e'. press_all e' ks
