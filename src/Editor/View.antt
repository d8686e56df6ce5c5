-- ===== src/Editor/View.antt =====
-- editor.h, PrepareRender of the class Editor: which cells it draws, and where it puts the terminal's
-- cursor. The window is its width and height; absl's StrCat of a number is a parameter.
use ced.Base.{
  ℕ, zero, suc, ◌+◌, ◌-◌, ◌*◌, ◌%◌, ◌^◌, ◌==◌, leb, ◌||◌, not, if◌then◌else◌, Bool, true, false,
  List, [], ◌∷◌, ◌++◌, ℤ, pos, negsuc, increment, length, bytes,
}
use ced.Ids.{Id64}
use ced.Proto.{Bytes, Attribute}
use ced.Outcome.{Outcome, ok, out_of_fuel, ◌>>=◌, deref}
use ced.Avl.Map.{lookup}
use ced.Text.{AnnotatedString, newline}
use ced.Text.Iterate.{iterator, line_iterator, line_prev, line_forward, all_next}
use ced.Text.Annotator.{equal_bytes}
use ced.Text.Attributes.{for_each_attr_value}
use ced.Editor.{Editor}

-- Put with the tag and the flags of its theme, and Move.
pub data Draw : Type 0 where
  put : ℕ → ℤ → ℕ → List Bytes → ℕ → Draw
  move : ℕ → ℤ → Draw

-- `cursor_row_` within the window.
unfoldable pub clamp_row : ℕ → ℤ → ℤ
clamp_row height (negsuc _) = pos 0
clamp_row zero (pos n) = negsuc 0
clamp_row (suc h) (pos n) = if leb n h then pos n else pos h

unfoldable pub line_back : ℕ → AnnotatedString → Id64 → Outcome Id64
line_back zero s id = ok id
line_back (suc n) s id = line_prev s id >>= λ i. line_back n s i

-- What the attributes of a character say.
pub record Look : Type 0 where
  pub move_cursor : Bool
  pub selected : Bool
  pub has_diagnostic : Bool
  pub tags : List Bytes
  pub gutter : List Bytes

-- `add_gutter`
unfoldable pub has_gutter : Bytes → List Bytes → Bool
has_gutter g [] = false
has_gutter g (h ∷ hs) = equal_bytes h g || has_gutter g hs

unfoldable pub add_gutter : Bytes → List Bytes → List Bytes
unfolding has_gutter
add_gutter g gs = if has_gutter g gs then gs else gs ++ g ∷ []

-- `SizeAnnotation::OFFSET_INTO_PARENT` and `SizeAnnotation::SIZEOF_SELF`, and the texts for them.
module _ (decimal : ℕ → Bytes) where
  unfoldable pub gutter_text : ℕ → ℕ → ℕ → List Bytes
  gutter_text type size bits =
      if type == 1
      then (if bits == 0
          then (bytes "@" ++ decimal size) ∷ []
          else (bytes "@" ++ decimal size ++ bytes "." ++ decimal bits) ∷ [])
      else (if type == 2
          then (if bits == 0
              then (decimal size ++ bytes "B") ∷ []
              else (decimal ((size * 8 + bits) % 2 ^ 64) ++ bytes "b") ∷ [])
          else [])

  unfoldable pub add_gutters : List Bytes → List Bytes → List Bytes
  unfolding add_gutter
  add_gutters [] gs = gs
  add_gutters (g ∷ new) gs = add_gutters new (add_gutter g gs)

  -- The callback on each attribute.
  unfoldable pub look_at : Look → List Attribute → Look
  unfolding gutter_text add_gutters
  look_at look [] = look
  look_at look (Attribute.cursor ∷ attrs) = look_at (record look { move_cursor = true }) attrs
  look_at look (Attribute.selection ∷ attrs) = look_at (record look { selected = true }) attrs
  look_at look (Attribute.diagnostic _ _ ∷ attrs) =
      look_at (record look { has_diagnostic = true }) attrs
  look_at look (Attribute.tags ts ∷ attrs) = look_at (record look { tags = look.tags ++ ts }) attrs
  look_at look (Attribute.size type size bits ∷ attrs) =
      look_at (record look { gutter = add_gutters (gutter_text type size bits) look.gutter }) attrs
  look_at look (Attribute.data_not_set ∷ attrs) = look_at look attrs
  look_at look (Attribute.fixit _ _ _ ∷ attrs) = look_at look attrs
  look_at look (Attribute.buffer_ref _ _ ∷ attrs) = look_at look attrs
  look_at look (Attribute.buffer _ _ ∷ attrs) = look_at look attrs
  look_at look (Attribute.dependency _ ∷ attrs) = look_at look attrs
  look_at look (Attribute.top_context _ ∷ attrs) = look_at look attrs

-- `flags`: HIGHLIGHT_LINE is 1 and SELECTED is 2.
abbrev pub flags_of : Bool → Bool → ℕ
flags_of highlight selected = (if highlight then 1 else 0) + (if selected then 2 else 0)

-- A difference of ints.
unfoldable pub minus : ℕ → ℕ → ℤ
minus a zero = pos a
minus zero (suc b) = negsuc b
minus (suc a) (suc b) = minus a b

-- absl::StrJoin with a comma.
unfoldable pub join : List Bytes → Bytes
join [] = []
join (g ∷ []) = g
join (g ∷ (h ∷ hs)) = g ++ 44 ∷ join (h ∷ hs)

-- The loop that fills a line, and the loop over the gutter.
unfoldable pub fill : ℕ → ℕ → ℕ → ℕ → List Draw
fill zero nrow ncol flags = []
fill (suc n) nrow ncol flags = put nrow (pos ncol) 32 [] flags ∷ fill n nrow (suc ncol) flags

unfoldable pub put_gutter : Bytes → ℕ → ℤ → ℕ → List Draw
put_gutter [] nrow ncol flags = []
put_gutter (c ∷ cs) nrow ncol flags =
    put nrow ncol c (bytes "comment.gutter" ∷ []) flags ∷ put_gutter cs nrow (increment ncol) flags

unfoldable pub end_line : ℕ → ℕ → ℕ → ℕ → List Bytes → List Draw
unfolding fill put_gutter join minus
end_line width nrow ncol flags gs =
    let gutter = join gs in
    fill (width - ncol) nrow ncol flags
    ++ put_gutter gutter nrow (minus width (length gutter)) flags

-- The locals of the loop; `highlight` is HIGHLIGHT_LINE in `base_flags`.
pub record View : Type 0 where
  pub it : Id64
  pub start_of_line : Id64
  pub nrow : ℕ
  pub ncol : ℕ
  pub highlight : Bool
  pub gutter : List Bytes

-- The branch for a newline and the branch for any other character.
unfoldable pub draw_char : ℕ → ℕ → Look → View → List Draw × View
unfolding end_line
draw_char width chr look v =
    if chr == newline
    then (
      end_line width v.nrow v.ncol (flags_of v.highlight false) look.gutter,
      record v {
        gutter = [];
        nrow = suc v.nrow;
        ncol = 0;
        start_of_line = v.it;
        highlight = false;
      },
    )
    else (
      put v.nrow (pos v.ncol) chr
            (look.tags ++ (if look.has_diagnostic then bytes "invalid" ∷ [] else []))
            (flags_of v.highlight look.selected)
          ∷ [],
      record v { ncol = suc v.ncol; gutter = look.gutter },
    )

-- `if (move_cursor)`: the first time on a line, the line is drawn again from its start.
unfoldable pub place_cursor : Bool → Bool → View → List Draw × View
place_cursor false has_focus v = ([], v)
place_cursor true has_focus v = (
  if has_focus then move v.nrow (pos v.ncol) ∷ [] else [],
  if v.highlight then v else record v { ncol = 0; it = v.start_of_line; highlight = true },
)

module _ (decimal : ℕ → Bytes) (s : AnnotatedString) (width : ℕ) (has_focus : Bool)
    (line_fw : Id64) where
  -- One round of the loop, before `it.MoveNext()`.
  unfoldable pub draw_at : View → Outcome (List Draw × View)
  unfolding look_at draw_char place_cursor
  draw_at v = deref (lookup s.chars v.it) >>= λ ci.
      if not ci.visible
      then ok ([], v)
      else (for_each_attr_value s v.it >>= λ attrs.
          (let look =
              look_at decimal
                (record {
                  move_cursor = false;
                  selected = false;
                  has_diagnostic = false;
                  tags = [];
                  gutter = v.gutter;
                })
                attrs in
            let (drawn, v1) = draw_char width ci.chr look v in
            let (moved, v2) = place_cursor look.move_cursor has_focus v1 in
            ok (drawn ++ moved, v2)))

  unfoldable pub draw_all : ℕ → View → Outcome (List Draw)
  unfolding draw_at
  draw_all zero v = out_of_fuel
  draw_all (suc rounds) v =
      let again = λ (w : View). draw_all rounds w in
      if v.it == line_fw
      then ok []
      else (draw_at v >>= λ r. all_next s r.1.it >>= λ next.
          again (record r.1 { it = next }) >>= λ later. ok (r.0 ++ later))

-- The function that PrepareRender returns, on a window: the editor after it, and what is drawn.
unfoldable pub prepare_render :
    (ℕ → Bytes) → ℕ → Bool → ℕ → ℕ → Editor → Outcome (Editor × List Draw)
unfolding clamp_row line_back draw_all
prepare_render decimal fuel has_focus width height e = do
  cursor ← iterator fuel e.content e.cursor
  line_cr ← line_iterator fuel e.content cursor
  line_bk ← line_back height e.content line_cr
  line_fw ← line_forward height e.content line_cr
  drawn ← draw_all decimal e.content width has_focus line_fw fuel (record {
    it = line_bk;
    start_of_line = line_bk;
    nrow = 0;
    ncol = 0;
    highlight = false;
    gutter = [];
  })
  ok (record e { cursor = cursor; cursor_row = clamp_row height e.cursor_row }, drawn)
