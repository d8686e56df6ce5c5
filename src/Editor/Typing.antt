-- ===== src/Editor/Typing.antt =====
-- Typing a character: what InsChar and Insert do to the document, the cursor and the commands.
use ced.Base.{
  ℕ, ◌+◌, ◌-◌, ◌%◌, ◌^◌, ◌<◌, ◌≡◌, sym, ap, refl, List, [], ◌∷◌, ◌++◌, arith, subst, length,
  if◌then◌else◌, ◌==◌, increment,
}
use ced.Ids.{Id64, Site, make_id, null_id, generate_id_block, id_block}
use ced.Proto.{Bytes, Command}
use ced.Proto.Body.{insert}
use ced.Outcome.{ok}
use ced.Text.{AnnotatedString, newline}
use ced.Text.Integrate.{integrate_all}
use ced.Text.Commands.{command, make_raw_insert, make_insert, insert_text}
use ced.Text.Doc.{Cell, begin_cell, inserted}
use ced.Text.Doc.Insert.{IsText, last_cell, first_cell, ends_held}
use ced.Text.Doc.Block.{Fresh, block_cells, integrate_insert_lem}
use ced.Links.{Distinct}
use ced.Editor.{Editor, set_select_mode, delete_selection, insert_here, ins_char}

module _ (fuel : ℕ) (s : AnnotatedString) (xs ys : List Cell) (site : Site) (c : ℕ)
    (cs : Bytes) where
  abbrev place : Id64
  place = (last_cell begin_cell xs).id

  abbrev ids_given : Id64 × Id64 × Site
  ids_given = generate_id_block site (length (c ∷ cs))

  -- The command that Insert makes.
  abbrev pub typed : Command
  typed =
      command ids_given.0
        (insert (record { after = place; before = (first_cell ys).id; characters = c ∷ cs }))

  -- Insert of a text behind a character of the document, where the block of IDs that the site gives
  -- is distinct and unused: the one command is made, the document has the text at that place, and the
  -- result is the last ID of the block.
  pub insert_text_lem :
      IsText s (xs ++ ys)
      → Distinct (id_block ids_given.0 (length (c ∷ cs)))
      → Fresh (id_block ids_given.0 (length (c ∷ cs))) (xs ++ ys)
      → length xs + length (c ∷ cs) < fuel
      → (t : AnnotatedString) × (insert_text fuel s site (c ∷ cs) place
          ≡ ok (typed ∷ [], ids_given.1, ids_given.2, t))
        × IsText t (xs ++ (block_cells ids_given.0 (c ∷ cs) place (first_cell ys).id ++ ys))
  unfolding insert_text make_insert make_raw_insert integrate_all
  insert_text_lem text d f h =
      let (ci, at_place, next) = (ends_held s xs ys text).0 in
      let (t, run, text') = integrate_insert_lem fuel s xs ys ids_given.0 c cs text d f h in
      (t, rw at_place (rw next (rw run)), text')

module _ (fuel : ℕ) (e : Editor) (xs ys : List Cell) (c : ℕ) where
  abbrev pub first_id : Id64
  first_id = (generate_id_block e.site 1).0

  -- InsChar without a selection, the cursor on a character of the document or on Begin, and the
  -- site's next ID unused: the character stands behind the cursor, the cursor is on it, and the
  -- command that says so is the one that is added to the unpublished commands.
  pub ins_char_lem :
      IsText e.content (xs ++ ys)
      → e.selection_anchor ≡ null_id
      → e.cursor ≡ (last_cell begin_cell xs).id
      → e.site.clock < 2 ^ 64
      → Fresh (first_id ∷ []) (xs ++ ys)
      → length xs + 1 < fuel
      → (e' : Editor) × (ins_char fuel e c ≡ ok e')
        × IsText e'.content (xs ++ inserted first_id c e.cursor (first_cell ys).id ∷ ys)
        × (e'.cursor ≡ first_id)
        × (e'.unpublished ≡ e.unpublished ++ typed fuel e.content xs ys e.site c [] ∷ [])
  unfolding ins_char insert_here delete_selection set_select_mode generate_id_block block_cells
      id_block
  ins_char_lem text no_sel at_cursor clock fresh h =
      let (t, run, text') =
        insert_text_lem fuel e.content xs ys e.site c [] text (tt, tt) fresh h in
      let wrapped : (e.site.clock + 1 + (2 ^ 64 - 1)) % 2 ^ 64 ≡ e.site.clock = omega arith in
      (
        record e {
          site = (generate_id_block e.site 1).2;
          cursor_row = if c == newline then increment e.cursor_row else e.cursor_row;
          cursor = (generate_id_block e.site 1).1;
          selection_anchor = null_id;
          content = t;
          unpublished = e.unpublished ++ typed fuel e.content xs ys e.site c [] ∷ [];
        },
        rw no_sel (rw at_cursor (rw run refl)),
        subst (λ p. IsText t (xs ++ inserted first_id c p (first_cell ys).id ∷ ys)) (sym at_cursor)
            text',
        ap (make_id e.site.id) wrapped,
        refl,
      )
