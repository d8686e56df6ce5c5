-- ===== src/Editor.antt =====
-- editor.h and editor.cc, the class Editor: the cursor, the selection and the edits of a text. `fuel` bounds each loop and each walk inside it.
pub mod Typing
pub mod Copying
pub mod Session
pub mod View
use ced.Base.{
  ℕ, zero, suc, ◌==◌, ◌||◌, not, if◌then◌else◌, Bool, true, false, Option, none, some, List, [],
  ◌∷◌, ◌++◌, ℤ, increment, decrement,
}
use ced.Ids.{Id64, Site, null_id, begin_id, end_id}
use ced.Proto.{Bytes, CommandSet}
use ced.Outcome.{Outcome, ok, fault, out_of_fuel, ◌>>=◌, deref}
use ced.Avl.Map.{lookup}
use ced.Text.{AnnotatedString, newline}
use ced.Text.Iterate.{iterator, iter_next, iter_prev, line_iterator, line_next, render_range}
use ced.Text.Commands.{insert_text, make_delete, make_delete_range}

pub record Editor : Type 0 where
  pub site : Site
  pub cursor_row : ℤ
  pub cursor : Id64
  pub selection_anchor : Id64
  pub content : AnnotatedString
  pub unpublished : CommandSet

-- `AppEnv::clipboard`
abbrev pub Clipboard : Type 0
Clipboard = Bytes

-- `it.value() == '\n'`
unfoldable pub at_newline : AnnotatedString → Id64 → Outcome Bool
at_newline s pos = deref (lookup s.chars pos) >>= λ ci. ok (ci.chr == newline)

-- The lambda `edge` of CursorDown and CursorUp.
unfoldable pub edge : AnnotatedString → Id64 → Outcome Bool
unfolding at_newline
edge s pos = if pos == begin_id || pos == end_id then ok true else at_newline s pos

abbrev pub select_mode : Editor → Bool
select_mode e = not (e.selection_anchor == null_id)

unfoldable pub set_select_mode : Editor → Bool → Editor
set_select_mode e false = record e { selection_anchor = null_id }
set_select_mode e true = record e {
  selection_anchor = if e.selection_anchor == null_id then e.cursor else e.selection_anchor;
}

unfoldable pub cursor_left : ℕ → Editor → Outcome Editor
cursor_left fuel e = do
  it ← iterator fuel e.content e.cursor
  nl ← at_newline e.content it
  prev ← iter_prev fuel e.content it
  ok (record e {
    cursor_row = (if nl then decrement e.cursor_row else e.cursor_row);
    cursor = prev;
  })

unfoldable pub cursor_right : ℕ → Editor → Outcome Editor
cursor_right fuel e = do
  it ← iterator fuel e.content e.cursor
  next ← iter_next fuel e.content it
  nl ← at_newline e.content next
  ok (record e {
    cursor_row = (if nl then increment e.cursor_row else e.cursor_row);
    cursor = next;
  })

-- `while (!edge()) { it.MovePrev(); col++; }`: where it ends, and the column.
unfoldable pub column : ℕ → ℕ → AnnotatedString → Id64 → ℕ → Outcome (Id64 × ℕ)
column fuel zero s pos col = out_of_fuel
column fuel (suc rounds) s pos col =
    let rest = λ (p : Id64). column fuel rounds s p (suc col) in
    edge s pos >>= λ b. if b then ok (pos, col) else (iter_prev fuel s pos >>= λ p. rest p)

-- `do { it.MoveNext(); } while (!edge());` and the same with MovePrev.
unfoldable pub next_edge : ℕ → ℕ → AnnotatedString → Id64 → Outcome Id64
next_edge fuel zero s pos = out_of_fuel
next_edge fuel (suc rounds) s pos =
    let rest = λ (p : Id64). next_edge fuel rounds s p in
    iter_next fuel s pos >>= λ p. edge s p >>= λ b. if b then ok p else rest p

unfoldable pub prev_edge : ℕ → ℕ → AnnotatedString → Id64 → Outcome Id64
prev_edge fuel zero s pos = out_of_fuel
prev_edge fuel (suc rounds) s pos =
    let rest = λ (p : Id64). prev_edge fuel rounds s p in
    iter_prev fuel s pos >>= λ p. edge s p >>= λ b. if b then ok p else rest p

-- `for (; col > 0 && !edge(); col--) it.MoveNext();`
unfoldable pub to_column : ℕ → AnnotatedString → ℕ → Id64 → Outcome Id64
to_column fuel s zero pos = ok pos
to_column fuel s (suc col) pos =
    let rest = λ (p : Id64). to_column fuel s col p in
    edge s pos >>= λ b. if b then ok pos else (iter_next fuel s pos >>= λ p. rest p)

unfoldable pub cursor_down : ℕ → Editor → Outcome Editor
cursor_down fuel e = do
  start ← iterator fuel e.content e.cursor
  c ← column fuel fuel e.content start 0
  again ← iterator fuel e.content e.cursor
  line_end ← next_edge fuel fuel e.content again
  first ← iter_next fuel e.content line_end
  pos ← to_column fuel e.content c.1 first
  prev ← iter_prev fuel e.content pos
  ok (record e { cursor = prev; cursor_row = increment e.cursor_row })

unfoldable pub cursor_up : ℕ → Editor → Outcome Editor
cursor_up fuel e = do
  start ← iterator fuel e.content e.cursor
  c ← column fuel fuel e.content start 0
  line_start ← prev_edge fuel fuel e.content c.0
  first ← iter_next fuel e.content line_start
  pos ← to_column fuel e.content c.1 first
  prev ← iter_prev fuel e.content pos
  ok (record e { cursor = prev; cursor_row = decrement e.cursor_row })

unfoldable pub cursor_start_of_line : ℕ → Editor → Outcome Editor
cursor_start_of_line fuel e =
    line_iterator fuel e.content e.cursor >>= λ l. ok (record e { cursor = l })

unfoldable pub cursor_end_of_line : ℕ → Editor → Outcome Editor
cursor_end_of_line fuel e = do
  l ← line_iterator fuel e.content e.cursor
  n ← line_next e.content l
  it ← iterator fuel e.content n
  prev ← iter_prev fuel e.content it
  ok (record e { cursor = prev })

unfoldable pub delete_selection : ℕ → Editor → Outcome Editor
delete_selection fuel e =
    if not (select_mode e)
    then ok e
    else (make_delete_range fuel e.content e.cursor e.selection_anchor >>= λ cmds.
        iterator fuel e.content e.cursor >>= λ it. iter_prev fuel e.content it >>= λ prev.
        ok (record e { unpublished = e.unpublished ++ cmds; cursor = prev }))

unfoldable pub select_left : ℕ → Editor → Outcome Editor
select_left fuel e = cursor_left fuel (set_select_mode e true)

unfoldable pub move_left : ℕ → Editor → Outcome Editor
move_left fuel e = cursor_left fuel (set_select_mode e false)

unfoldable pub select_right : ℕ → Editor → Outcome Editor
select_right fuel e = cursor_right fuel (set_select_mode e true)

unfoldable pub move_right : ℕ → Editor → Outcome Editor
move_right fuel e = cursor_right fuel (set_select_mode e false)

unfoldable pub move_start_of_line : ℕ → Editor → Outcome Editor
move_start_of_line fuel e = cursor_start_of_line fuel (set_select_mode e false)

unfoldable pub move_end_of_line : ℕ → Editor → Outcome Editor
move_end_of_line fuel e = cursor_end_of_line fuel (set_select_mode e false)

-- `for (int i = 0; i < n; i++) step();`
unfoldable pub repeat : (Editor → Outcome Editor) → ℕ → Editor → Outcome Editor
repeat step zero e = ok e
repeat step (suc n) e = step e >>= λ e'. repeat step n e'

unfoldable pub move_down_n : ℕ → Editor → ℕ → Outcome Editor
move_down_n fuel e n = repeat (cursor_down fuel) n (set_select_mode e false)

unfoldable pub move_up_n : ℕ → Editor → ℕ → Outcome Editor
move_up_n fuel e n = repeat (cursor_up fuel) n (set_select_mode e false)

unfoldable pub select_down_n : ℕ → Editor → ℕ → Outcome Editor
select_down_n fuel e n = repeat (cursor_down fuel) n (set_select_mode e true)

unfoldable pub select_up_n : ℕ → Editor → ℕ → Outcome Editor
select_up_n fuel e n = repeat (cursor_up fuel) n (set_select_mode e true)

unfoldable pub backspace : ℕ → Editor → Outcome Editor
backspace fuel e0 =
    let e = set_select_mode e0 false in
    iterator fuel e.content e.cursor >>= λ it. iter_prev fuel e.content it >>= λ prev.
    ok (record e { unpublished = e.unpublished ++ make_delete e.cursor ∷ []; cursor = prev })

unfoldable pub copy : ℕ → Editor → Clipboard → Outcome Clipboard
copy fuel e clip =
    if select_mode e then render_range fuel e.content e.cursor e.selection_anchor else ok clip

unfoldable pub cut : ℕ → Editor → Clipboard → Outcome (Editor × Clipboard)
cut fuel e clip =
    if select_mode e
    then (render_range fuel e.content e.cursor e.selection_anchor >>= λ text.
        delete_selection fuel e >>= λ e'. ok (set_select_mode e' false, text))
    else ok (e, clip)

-- `cursor_ = state_.content.Insert(&unpublished_commands_, site_, chars, cursor_)`
unfoldable pub insert_here : ℕ → Editor → Bytes → Outcome Editor
insert_here fuel e cs = insert_text fuel e.content e.site cs e.cursor >>= λ r.
    ok (record e { unpublished = e.unpublished ++ r.0; cursor = r.1; site = r.2; content = r.3 })

unfoldable pub paste : ℕ → Editor → Clipboard → Outcome Editor
paste fuel e clip =
    (if select_mode e
      then (delete_selection fuel e >>= λ e'. ok (set_select_mode e' false))
      else ok e)
    >>= λ e'. insert_here fuel e' clip

unfoldable pub ins_char : ℕ → Editor → ℕ → Outcome Editor
ins_char fuel e c = do
  e1 ← delete_selection fuel e
  e2 ← insert_here fuel (set_select_mode e1 false) (c ∷ [])
  ok (record e2 { cursor_row = if c == newline then increment e2.cursor_row else e2.cursor_row })
