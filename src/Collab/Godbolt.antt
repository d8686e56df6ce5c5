-- ===== src/Collab/Godbolt.antt =====
-- godbolt_collaborator.cc, the class GodboltCollaborator: the listing of a file's code beside its
-- source. The compiler and objdump are one parameter: for a text, what AsmParse makes of the listing,
-- or none where the compiler fails.
use ced.Base.{
  ℕ, ◌-◌, ◌+◌, not, if◌then◌else◌, Bool, Option, none, some, List, [], ◌∷◌, ◌++◌, ℤ, pos, negsuc,
}
use ced.Ids.{Id64, begin_id}
use ced.Proto.{Bytes, CommandSet, Attribute}
use ced.Outcome.{Outcome, ok, ◌>>=◌}
use ced.Text.{AnnotatedString}
use ced.Text.Iterate.{render, line_iterator, line_next, line_forward}
use ced.Text.Annotator.{AnnotationEditor, attr_id, end_edit}
use ced.Text.Attributes.{Serializer, mark_attribute}
use ced.Buffer.{EditNotification}
use ced.AsmParser.{AsmParseResult}
use ced.Collab.Latch.{ContentLatch, is_new_content}

pub record Godbolt : Type 0 where
  pub latch : ContentLatch
  pub ed : AnnotationEditor

-- `while (line_idx < m.first)`: how many lines it moves on, and where that leaves `line_idx`.
unfoldable pub lines_to : ℕ → ℤ → ℕ
lines_to line_idx (pos n) = n - line_idx
lines_to line_idx (negsuc _) = 0

module _ (ser : Serializer) where
  -- The loop over `src_to_asm_line`, with the line iterator at `line` and `line_idx`.
  unfoldable pub mark_lines :
      AnnotatedString
      → Id64
      → AnnotationEditor
      → ℕ
      → Id64
      → List (ℤ × List ℕ)
      → Outcome (CommandSet × AnnotationEditor)
  unfolding lines_to
  mark_lines s side_buf ed line_idx line [] = ok ([], ed)
  mark_lines s side_buf ed line_idx line ((first, asm) ∷ rest) = do
    here ← line_forward (lines_to line_idx first) s line
    next ← line_next s here
    (let (_, cmds, ed1) = mark_attribute ser ed here next (Attribute.buffer_ref side_buf asm) in
        mark_lines s side_buf ed1 (line_idx + lines_to line_idx first) here rest
        >>= λ (r : CommandSet × AnnotationEditor). ok (cmds ++ r.0, r.1))

  -- Edit after the compiler: the attribute with the listing, and a mark for each line.
  unfoldable pub show_listing :
      ℕ
      → AnnotatedString
      → Bytes
      → AsmParseResult
      → AnnotationEditor
      → Outcome (CommandSet × AnnotationEditor)
  unfolding mark_lines
  show_listing fuel s name asm ed =
      let (side_buf, cmds, ed1) = attr_id ser.attribute ed (Attribute.buffer name asm.body) in
      line_iterator fuel s begin_id >>= λ line.
      mark_lines s side_buf ed1 0 line asm.src_to_asm_line
      >>= λ (r : CommandSet × AnnotationEditor).
          (let (deleted, ed2) = end_edit r.1 in ok (cmds ++ r.0 ++ deleted, ed2))

  -- Edit: whether it is done, its commands, and the collaborator after it. `name` is the file's name
  -- with the extension `s`.
  unfoldable pub edit :
      (AnnotatedString → AnnotatedString → Bool)
      → (Bytes → Option AsmParseResult)
      → ℕ
      → Bytes
      → Godbolt
      → EditNotification
      → Outcome (Bool × CommandSet × Godbolt)
  unfolding is_new_content show_listing
  edit same_content_identity compile fuel name g n =
      if n.shutdown
      then ok (Bool.true, [], g)
      else (if not n.fully_loaded
          then ok (Bool.false, [], g)
          else (let (fresh, latch) = is_new_content same_content_identity g.latch n in
              let g1 = record g { latch = latch } in
              if not fresh
              then ok (Bool.false, [], g1)
              else (render fuel n.content >>= λ text. elim (compile text) [
                | none ↦ ok (Bool.false, [], g1)
                | some asm ↦
                    show_listing fuel n.content name asm g1.ed
                    >>= λ (r : CommandSet × AnnotationEditor).
                        ok (Bool.false, r.0, record g1 { ed = r.1 })
              ])))
