-- ===== src/Examples/Texts.antt =====
-- The theorems on texts and the editor, at a text of one line that site 1 has typed.
use ced.Base.{ℕ, ◌≡◌, refl, true, false, none, some, [], ◌∷◌, ◌++◌, arith, pos, subst, sym}
use ced.Ids.{
  Id64, begin_id, end_id, null_id, make_id, site_of, clock_of, next_clock, id_block,
  generate_id_block,
}
use ced.Proto.{Attribute, tags, Annotation, Body, Bytes, data_case}
use ced.Proto.Body.{insert, delete, decl, mark, del_mark}
use ced.Outcome.{Outcome, ok, fault, out_of_fuel}
use ced.Avl.Map.{Avl, lookup}
use ced.Avl.Set
use ced.Avl.Set.Keys
use ced.Text.{AnnotatedString, new_string, insert_char}
use ced.Text.Integrate.{integrate}
use ced.Text.Iterate.{render}
use ced.Text.Doc.{Cell, begin_cell, end_cell, inserted}
use ced.Text.Doc.Insert.{IsText}
use ced.Text.Doc.Block.{block_cells, integrate_insert_lem}
use ced.Text.Doc.Delete.{Deletes, delete_lem}
use ced.Text.Doc.Render.{text_of, render_lem, new_string-IsText}
use ced.Editor.{Editor, ins_char}
use ced.Text.Commands.{insert_text}
use ced.Editor.Typing.{typed, insert_text_lem, ins_char_lem}
use ced.Text.Spin.{insert_char_spins}
use ced.Text.Keep.{IsTouched}
use ced.Text.Bury.{mark_lem, del_mark_lem}
use ced.Text.{
  CharInfo, integrate_insert, insert_chars, insert_adjacent, insert_line_break, prev_line,
  link_char, between, kept, contains, choose, narrow,
}
use ced.Text.Integrate.{integrate_body}
use ced.Text.Marks.{integrate_decl, integrate_mark, mark_chars, or_empty}
use ced.Avl.Map.{add, empty}
use ced.Avl.Tree.{
  height, make_node, rotate_left, rotate_right, rotate_left_right, rotate_right_left, rebalance,
  add_key, get,
}

-- "a\n", typed in one command.
abbrev pub cell_a : Cell
cell_a = inserted 1 97 begin_id end_id

abbrev pub cell_nl : Cell
cell_nl = inserted 65537 10 1 end_id

line_typed :
    (t : AnnotatedString) × (integrate 10 new_string (record {
      id = 1;
      body = insert (record { after = begin_id; before = end_id; characters = 97 ∷ 10 ∷ [] });
    })
      ≡ ok t)
    × IsText t (cell_a ∷ cell_nl ∷ [])
unfolding block_cells id_block next_clock make_id site_of clock_of
line_typed =
    integrate_insert_lem 10 new_string [] [] 1 97 (10 ∷ []) new_string-IsText
      (((λ e. absurd (omega arith)), tt), (tt, tt))
      (
        ((λ e. absurd (omega arith)), ((λ e. absurd (omega arith)), tt)),
        (((λ e. absurd (omega arith)), ((λ e. absurd (omega arith)), tt)), tt),
      )
      (omega arith)

abbrev result : Outcome AnnotatedString → AnnotatedString
result (ok t) = t
result fault = new_string
result out_of_fuel = new_string

abbrev run : AnnotatedString → Id64 → Body → AnnotatedString
run s i b = result (integrate 10 s (record { id = i; body = b }))

abbrev ins : Id64 → Id64 → Bytes → Body
ins a b cs = insert (record { after = a; before = b; characters = cs })

abbrev pub line : AnnotatedString
line = run new_string 1 (ins begin_id end_id (97 ∷ 10 ∷ []))

pub line-IsText : IsText line (cell_a ∷ cell_nl ∷ [])
line-IsText = subst (λ r. IsText (result r) (cell_a ∷ cell_nl ∷ [])) (sym line_typed.1) line_typed.2

-- Site 2 inserts "xy" between the two.
integrate_insert_lem_example :
    (t : AnnotatedString) × (integrate 10 line (record {
      id = 2;
      body = insert (record { after = 1; before = 65537; characters = 120 ∷ 121 ∷ [] });
    })
      ≡ ok t)
    × IsText t (cell_a ∷ (block_cells 2 (120 ∷ 121 ∷ []) 1 65537 ++ cell_nl ∷ []))
unfolding id_block next_clock make_id site_of clock_of
integrate_insert_lem_example =
    integrate_insert_lem 10 line (cell_a ∷ []) (cell_nl ∷ []) 2 120 (121 ∷ []) line-IsText
      (((λ e. absurd (omega arith)), tt), (tt, tt))
      (
        (
          (λ e. absurd (omega arith)),
          (
            (λ e. absurd (omega arith)),
            ((λ e. absurd (omega arith)), ((λ e. absurd (omega arith)), tt)),
          ),
        ),
        (
          (
            (λ e. absurd (omega arith)),
            (
              (λ e. absurd (omega arith)),
              ((λ e. absurd (omega arith)), ((λ e. absurd (omega arith)), tt)),
            ),
          ),
          tt,
        ),
      )
      (omega arith)

-- The newline is deleted.
delete_lem_example :
    (t : AnnotatedString) × (integrate 10 line (record { id = 65537; body = delete }) ≡ ok t)
    × Deletes line (cell_a ∷ []) cell_nl [] t
delete_lem_example = delete_lem line (cell_a ∷ []) cell_nl [] line-IsText 10

render_lem_example : render 10 line ≡ ok (text_of (cell_a ∷ cell_nl ∷ []))
render_lem_example = render_lem line (cell_a ∷ cell_nl ∷ []) 10 line-IsText (omega arith)

-- Two sites insert at the same place, and then a third character is to go before the second of them.
abbrev crossed : AnnotatedString
crossed = run (run new_string 1 (ins begin_id end_id (97 ∷ []))) 2 (ins begin_id end_id (98 ∷ []))

abbrev char : Id64 → Id64 → Id64 → Id64 → ℕ → CharInfo
char p n a b c = record {
  visible = true;
  chr = c;
  next = n;
  prev = p;
  after = a;
  before = b;
  annotations = Keys.empty;
}

insert_char_spins_example : insert_char 10 1000 crossed 65538 99 begin_id 2 ≡ out_of_fuel
unfolding integrate integrate_body integrate_insert insert_chars insert_char insert_adjacent
    insert_line_break prev_line link_char new_string between kept contains choose narrow next_clock
    make_id site_of clock_of lookup add empty height make_node rotate_left rotate_right
    rotate_left_right rotate_right_left rebalance add_key get
insert_char_spins_example =
    insert_char_spins 10 crossed 65538 99 begin_id 2
      (record {
        visible = false;
        chr = 0;
        next = 1;
        prev = end_id;
        after = end_id;
        before = end_id;
        annotations = Keys.empty;
      })
      (char 1 end_id 1 end_id 98) ((1, char begin_id 2 begin_id end_id 97) ∷ []) refl refl
      (λ e. absurd (omega arith)) refl refl 1000

-- Site 3 types "!" behind the "a" of the line.
abbrev pub editor : Editor
editor = record {
  site = record { id = 3; clock = 0 };
  cursor_row = pos 0;
  cursor = 1;
  selection_anchor = null_id;
  content = line;
  unpublished = [];
}

ins_char_lem_example :
    (e' : Editor) × (ins_char 10 editor 33 ≡ ok e')
    × IsText e'.content (cell_a ∷ inserted 3 33 1 65537 ∷ cell_nl ∷ [])
    × (e'.cursor ≡ 3)
    × (e'.unpublished ≡ typed 10 line (cell_a ∷ []) (cell_nl ∷ []) editor.site 33 [] ∷ [])
unfolding generate_id_block make_id
ins_char_lem_example =
    ins_char_lem 10 editor (cell_a ∷ []) (cell_nl ∷ []) 33 line-IsText refl refl (omega arith)
      (
        (
          (λ e. absurd (omega arith)),
          (
            (λ e. absurd (omega arith)),
            ((λ e. absurd (omega arith)), ((λ e. absurd (omega arith)), tt)),
          ),
        ),
        tt,
      )
      (omega arith)

-- An attribute under 65539, and a mark under 131075 over the whole line.
abbrev attr : Attribute
attr = tags []

abbrev declared : AnnotatedString
declared = run line 65539 (decl attr)

abbrev note : Annotation
note = record { begin = 1; end = end_id; attribute = 65539 }

line_not_buried : Keys.lookup line.graveyard 65539 ≡ false
unfolding integrate integrate_body integrate_insert insert_chars insert_char insert_adjacent
    insert_line_break prev_line link_char new_string between kept contains choose narrow next_clock
    make_id site_of clock_of lookup add empty height make_node rotate_left rotate_right
    rotate_left_right rotate_right_left rebalance add_key get data_case or_empty integrate_decl
    integrate_mark mark_chars Keys.lookup Keys.add Keys.empty Set.get Set.add_key Set.make_node
    Set.height Set.rebalance Set.rotate_left Set.rotate_right Set.rotate_left_right
    Set.rotate_right_left
line_not_buried = refl

declared-IsText : IsText declared (cell_a ∷ cell_nl ∷ [])
unfolding integrate integrate_body integrate_insert insert_chars insert_char insert_adjacent
    insert_line_break prev_line link_char new_string between kept contains choose narrow next_clock
    make_id site_of clock_of lookup add empty height make_node rotate_left rotate_right
    rotate_left_right rotate_right_left rebalance add_key get data_case or_empty integrate_decl
    integrate_mark mark_chars Keys.lookup Keys.add Keys.empty Set.get Set.add_key Set.make_node
    Set.height Set.rebalance Set.rotate_left Set.rotate_right Set.rotate_left_right
    Set.rotate_right_left
declared-IsText = record { store = line-IsText.store; lines = line-IsText.lines }

mark_lem_example :
    (t : AnnotatedString) × (integrate 10 declared (record { id = 131075; body = mark note })
      ≡ ok t)
    × IsText t (cell_a ∷ cell_nl ∷ [])
    × (lookup t.annotations 131075 ≡ some 1)
    × ((m : Avl Annotation) × (lookup t.annotations_by_type 1 ≡ some m)
        × (lookup m 131075 ≡ some note))
    × IsTouched (λ a. Keys.add a 131075) declared.chars (cell_a ∷ cell_nl ∷ []) t.chars
unfolding integrate integrate_body integrate_insert insert_chars insert_char insert_adjacent
    insert_line_break prev_line link_char new_string between kept contains choose narrow next_clock
    make_id site_of clock_of lookup add empty height make_node rotate_left rotate_right
    rotate_left_right rotate_right_left rebalance add_key get data_case or_empty integrate_decl
    integrate_mark mark_chars Keys.lookup Keys.add Keys.empty Set.get Set.add_key Set.make_node
    Set.height Set.rebalance Set.rotate_left Set.rotate_right Set.rotate_left_right
    Set.rotate_right_left
mark_lem_example =
    mark_lem 10 declared (cell_a ∷ cell_nl ∷ []) (begin_cell ∷ []) (cell_a ∷ cell_nl ∷ []) end_cell
      [] 131075 65539 1 declared-IsText refl (omega arith) refl refl

abbrev marked : AnnotatedString
marked = run declared 131075 (mark note)

marked-IsText : IsText marked (cell_a ∷ cell_nl ∷ [])
unfolding integrate integrate_body integrate_insert insert_chars insert_char insert_adjacent
    insert_line_break prev_line link_char new_string between kept contains choose narrow next_clock
    make_id site_of clock_of lookup add empty height make_node rotate_left rotate_right
    rotate_left_right rotate_right_left rebalance add_key get data_case or_empty integrate_decl
    integrate_mark mark_chars Keys.lookup Keys.add Keys.empty Set.get Set.add_key Set.make_node
    Set.height Set.rebalance Set.rotate_left Set.rotate_right Set.rotate_left_right
    Set.rotate_right_left
marked-IsText =
    let m =
      mark_lem 10 declared (cell_a ∷ cell_nl ∷ []) (begin_cell ∷ []) (cell_a ∷ cell_nl ∷ [])
        end_cell [] 131075 65539 1 declared-IsText refl (omega arith) refl refl in
    subst (λ r. IsText (result r) (cell_a ∷ cell_nl ∷ [])) (sym m.1) m.2

-- What the first mark leaves under its type.
abbrev notes : Avl Annotation
notes = add empty 131075 note

del_mark_lem_example :
    (t : AnnotatedString) × (integrate 10 marked (record { id = 131075; body = del_mark }) ≡ ok t)
    × IsText t (cell_a ∷ cell_nl ∷ [])
    × (lookup t.annotations 131075 ≡ none)
    × ((m : Avl Annotation) × (lookup t.annotations_by_type 1 ≡ some m) × (lookup m 131075 ≡ none))
    × ((f : ℕ) (again : Annotation)
        → (integrate f t (record { id = 131075; body = mark again }) ≡ ok t)
          × (integrate f t (record { id = 131075; body = del_mark }) ≡ ok t))
    × IsTouched (λ a. Keys.remove a 131075) marked.chars (cell_a ∷ cell_nl ∷ []) t.chars
unfolding integrate integrate_body integrate_insert insert_chars insert_char insert_adjacent
    insert_line_break prev_line link_char new_string between kept contains choose narrow next_clock
    make_id site_of clock_of lookup add empty height make_node rotate_left rotate_right
    rotate_left_right rotate_right_left rebalance add_key get data_case or_empty integrate_decl
    integrate_mark mark_chars Keys.lookup Keys.add Keys.empty Set.get Set.add_key Set.make_node
    Set.height Set.rebalance Set.rotate_left Set.rotate_right Set.rotate_left_right
    Set.rotate_right_left
del_mark_lem_example =
    del_mark_lem 10 marked (cell_a ∷ cell_nl ∷ []) (begin_cell ∷ []) (cell_a ∷ cell_nl ∷ [])
      end_cell [] 131075 65539 1 marked-IsText refl (omega arith) notes refl refl refl

abbrev attrs : Avl Attribute
attrs = add empty 65539 attr

insert_text_lem_example :
    (t : AnnotatedString) × (insert_text 10 line (record { id = 3; clock = 0 }) (33 ∷ 10 ∷ []) 1
      ≡ ok (
        typed 10 line (cell_a ∷ []) (cell_nl ∷ []) (record { id = 3; clock = 0 }) 33 (10 ∷ []) ∷ [],
        65539,
        record { id = 3; clock = 2 },
        t,
      ))
    × IsText t (cell_a ∷ (block_cells 3 (33 ∷ 10 ∷ []) 1 65537 ++ cell_nl ∷ []))
unfolding generate_id_block id_block next_clock make_id site_of clock_of
insert_text_lem_example =
    insert_text_lem 10 line (cell_a ∷ []) (cell_nl ∷ []) (record { id = 3; clock = 0 }) 33 (10 ∷ [])
      line-IsText (((λ e. absurd (omega arith)), tt), (tt, tt))
      (
        (
          (λ e. absurd (omega arith)),
          (
            (λ e. absurd (omega arith)),
            ((λ e. absurd (omega arith)), ((λ e. absurd (omega arith)), tt)),
          ),
        ),
        (
          (
            (λ e. absurd (omega arith)),
            (
              (λ e. absurd (omega arith)),
              ((λ e. absurd (omega arith)), ((λ e. absurd (omega arith)), tt)),
            ),
          ),
          tt,
        ),
      )
      (omega arith)
