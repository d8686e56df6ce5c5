-- ===== src/Examples/Orders.antt =====
-- The theorems on the order of characters, on Copy and on the message of a text, at the text "a\n".
use ced.Base.{◌≡◌, refl, [], ◌∷◌, ◌++◌, arith, inr, lt, eq, gt}
use ced.Ids.{begin_id, end_id}
use ced.Outcome.{ok}
use ced.Ids.{make_id, site_of, clock_of, next_clock}
use ced.Text.{
  AnnotatedString, new_string, integrate_insert, insert_chars, insert_char, insert_adjacent,
  insert_line_break, prev_line, link_char, between, kept, contains, choose, narrow,
}
use ced.Text.Integrate.{integrate, integrate_body}
use ced.Avl.Map.{lookup, add, empty, to_list}
use ced.Avl.Tree.{
  height, make_node, rotate_left, rotate_right, rotate_left_right, rotate_right_left, rebalance,
  add_key, get, for_each,
}
use ced.Text.Iterate.{order_ids, render}
use ced.Text.Messages.{flatten, as_proto, from_proto}
use ced.Links.{Linked}
use ced.Text.Doc.{enclosed, IsStore}
use ced.Text.Doc.Lines.{line_next_of, line_prev_of}
use ced.Text.Doc.Render.{text_of}
use ced.Text.Doc.Ordered.{order_ids_lem}
use ced.Text.Doc.Received.{newlines_onto, from_proto-as_proto}
use ced.Editor.{Editor, copy}
use ced.Editor.Copying.{copy_lem}
use ced.Examples.Texts.{cell_a, cell_nl, line, line-IsText, editor}

order_ids_lem_example :
    (order_ids 10 line 1 65537 ≡ ok lt)
    × (order_ids 10 line 65537 1 ≡ ok gt)
    × (order_ids 10 line 1 1 ≡ ok eq)
order_ids_lem_example = order_ids_lem line [] cell_a [] cell_nl [] 10 line-IsText (omega arith)

-- The selection starts behind "a" and the cursor has been moved behind the newline.
abbrev selecting : Editor
selecting = record editor { cursor = 65537; selection_anchor = 1 }

copy_lem_example : copy 10 selecting (33 ∷ []) ≡ ok (text_of (cell_a ∷ []))
copy_lem_example =
    copy_lem selecting (33 ∷ []) [] cell_a [] cell_nl [] 10 line-IsText (omega arith)
      (λ e. absurd (omega arith)) (inr (refl, refl))

no_annotations : (as_proto line).annotations ≡ []
unfolding integrate integrate_body integrate_insert insert_chars insert_char insert_adjacent
    insert_line_break prev_line link_char new_string between kept contains choose narrow next_clock
    make_id site_of clock_of lookup add empty height make_node rotate_left rotate_right
    rotate_left_right rotate_right_left rebalance add_key get as_proto flatten to_list for_each
no_annotations = refl

from_proto-as_proto_example :
    (t : AnnotatedString) × (from_proto 10 (as_proto line) ≡ ok t)
    × IsStore t.chars (enclosed (cell_a ∷ cell_nl ∷ []))
    × (render 10 t ≡ render 10 line)
    × Linked
        (line_next_of t.line_breaks)
        (line_prev_of t.line_breaks)
        (begin_id ∷ (newlines_onto [] (cell_a ∷ cell_nl ∷ []) ++ end_id ∷ []))
from_proto-as_proto_example =
    from_proto-as_proto line (cell_a ∷ cell_nl ∷ []) 10 line-IsText.store no_annotations
      (omega arith)
