-- ===== src/Editor/Session.antt =====
-- editor.cc, MakeResponse, PublishCursor and UpdateState of the class Editor: what it exchanges with
-- the buffer that it edits, and with the side buffers that the text's attributes hold. A side buffer
-- is its content; its own collaborators are not modelled. The Site that an Editor and its
-- AnnotationEditors share is the one in `editor`, and is handed to each of them.
use ced.Base.{ℕ, ◌==◌, not, ◌||◌, if◌then◌else◌, Bool, Option, none, some, List, [], ◌∷◌, ◌++◌, lt}
use ced.Ids.{Id64, Site, begin_id}
use ced.Proto.{Attribute, CommandSet}
use ced.Outcome.{Outcome, ok, ◌>>=◌}
use ced.Text.{AnnotatedString, new_string}
use ced.Text.Integrate.{integrate, integrate_all}
use ced.Text.Iterate.{iterator, iter_next, order_ids, from_line_number, line_next}
use ced.Text.Commands.{insert_text}
use ced.Text.Annotator.{AnnotationEditor, end_edit}
use ced.Text.Attributes.{Serializer, mark_attribute, for_each_attr_value, for_each_attribute}
use ced.Buffer.{EditNotification, EditResponse}
use ced.Editor.{Editor, select_mode}

pub record BufferInfo : Type 0 where
  pub content : AnnotatedString
  pub ed : AnnotationEditor

abbrev pub Buffers : Type 0
Buffers = List (Id64 × BufferInfo)

pub record Session : Type 0 where
  pub editor : Editor
  pub shutdown : Bool
  pub cursor_reported : Id64
  pub unacknowledged : CommandSet
  pub ed : AnnotationEditor
  pub buffers : Buffers

abbrev pub with_site : Site → AnnotationEditor → AnnotationEditor
with_site site ed = record ed { site = site }

abbrev no_commands : CommandSet → Bool
no_commands [] = Bool.true
no_commands (_ ∷ _) = Bool.false

-- HasCommands
unfoldable pub has_commands : Session → Bool
has_commands s =
    s.shutdown
    || not (no_commands s.editor.unpublished)
    || not (s.cursor_reported == s.editor.cursor)

unfoldable pub find_info : Buffers → Id64 → Option BufferInfo
find_info [] id = none
find_info ((i, b) ∷ rest) id = let later = find_info rest id in if i == id then some b else later

unfoldable pub set_info : Buffers → Id64 → BufferInfo → Buffers
set_info [] id b = []
set_info ((i, c) ∷ rest) id b =
    let later = set_info rest id b in if i == id then (i, b) ∷ rest else (i, c) ∷ later

-- A new AnnotationEditor.
abbrev pub new_annotation_editor : Site → AnnotationEditor
new_annotation_editor site = record {
  site = site;
  last_attr2id = [];
  new_attr2id = [];
  last_ann2id = [];
  new_ann2id = [];
}

module _ (ser : Serializer) (fuel : ℕ) where
  -- The marks on the lines of a side buffer.
  unfoldable pub mark_child_lines :
      AnnotatedString → List ℕ → AnnotationEditor → Outcome (CommandSet × AnnotationEditor)
  mark_child_lines s [] ed = ok ([], ed)
  mark_child_lines s (line ∷ lines) ed = do
    li ← from_line_number fuel s line
    next ← line_next s li
    (let (_, cmds, ed1) = mark_attribute ser ed li next Attribute.cursor in
        mark_child_lines s lines ed1 >>= λ (r : CommandSet × AnnotationEditor).
        ok (cmds ++ r.0, r.1))

  -- One scoped edit of a side buffer, and PushChanges of its commands.
  unfoldable pub mark_child : Site → List ℕ → BufferInfo → Outcome (Site × BufferInfo)
  unfolding mark_child_lines
  mark_child site lines b = mark_child_lines b.content lines (with_site site b.ed) >>= λ r.
      (let (deleted, ed) = end_edit r.1 in
        integrate_all fuel b.content (r.0 ++ deleted) >>= λ content.
        ok (ed.site, record { content = content; ed = ed }))

  -- The callback of PublishCursor, on each attribute at the cursor.
  unfoldable pub mark_children : List Attribute → Site → Buffers → Outcome (Site × Buffers)
  unfolding mark_child find_info set_info
  mark_children [] site bs = ok (site, bs)
  mark_children (attr ∷ attrs) site bs =
      let skipped = mark_children attrs site bs in
      elim attr [
        | Attribute.buffer_ref id lines ↦ elim (find_info bs id) [
          | none ↦ skipped
          | some b ↦ mark_child site lines b >>= λ r. mark_children attrs r.0 (set_info bs id r.1)
        ]
        | _ ↦ skipped
      ]

  -- The mark of the selection, in the order of the text.
  unfoldable pub mark_selection :
      Editor → AnnotationEditor → Outcome (CommandSet × AnnotationEditor)
  mark_selection e ed =
      if not (select_mode e)
      then ok ([], ed)
      else (order_ids fuel e.content e.cursor e.selection_anchor >>= λ o.
          (let forward = mark_attribute ser ed e.cursor e.selection_anchor Attribute.selection in
            let back = mark_attribute ser ed e.selection_anchor e.cursor Attribute.selection in
            elim o [ lt ↦ ok (forward.1, forward.2) | _ ↦ ok (back.1, back.2) ]))

  unfoldable pub publish_cursor : Session → Outcome Session
  unfolding mark_selection mark_children
  publish_cursor s =
      let e = s.editor in
      iterator fuel e.content e.cursor >>= λ it. iter_next fuel e.content it >>= λ next.
      (let (_, curs, ed1) =
          mark_attribute ser (with_site e.site s.ed) e.cursor next Attribute.cursor in
        mark_selection e ed1 >>= λ sel. for_each_attr_value e.content it >>= λ attrs.
        mark_children attrs sel.1.site s.buffers >>= λ kids.
        (let (deleted, ed2) = end_edit (with_site kids.0 sel.1) in
          let unpublished = e.unpublished ++ (curs ++ sel.0 ++ deleted) in
          ok (record s {
            editor = record e { site = ed2.site; unpublished = unpublished };
            ed = ed2;
            buffers = kids.1;
            cursor_reported = e.cursor;
          })))

  unfoldable pub make_response : Session → Outcome (EditResponse × Session)
  unfolding publish_cursor
  make_response s0 = publish_cursor s0 >>= λ s.
      integrate_all fuel s.editor.content s.editor.unpublished >>= λ content.
      (let r : EditResponse = record {
        done = s.shutdown;
        become_used = not (no_commands s.editor.unpublished);
        become_loaded = Bool.false;
        referenced_file_changed = Bool.false;
        content_updates = s.editor.unpublished;
      } in
        ok (
          r,
          record s {
            editor = record s.editor { content = content; unpublished = [] };
            unacknowledged = s.unacknowledged ++ s.editor.unpublished;
          },
        ))

-- The commands that a content does not have yet. Whether integrating one has left the string the
-- same is a question of addresses, and is a parameter.
unfoldable pub still_unacked :
    (AnnotatedString → AnnotatedString → Bool)
    → ℕ
    → AnnotatedString
    → CommandSet
    → Outcome CommandSet
still_unacked same_total_identity fuel s2 [] = ok []
still_unacked same_total_identity fuel s2 (cmd ∷ cmds) = integrate fuel s2 cmd >>= λ s3.
    still_unacked same_total_identity fuel s3 cmds >>= λ later.
    ok (if same_total_identity s2 s3 then later else cmd ∷ later)

-- The side buffers for the attributes of the new content: the old ones are kept.
unfoldable pub next_buffers :
    ℕ → Buffers → Site → List (Id64 × Attribute) → Outcome (Site × Buffers)
unfolding find_info
next_buffers fuel old site [] = ok (site, [])
next_buffers fuel old site ((id, attr) ∷ rest) = elim (find_info old id) [
  | some b ↦ next_buffers fuel old site rest >>= λ r. ok (r.0, (id, b) ∷ r.1)
  | none ↦ elim attr [
    | Attribute.buffer name contents ↦
        insert_text fuel new_string site contents begin_id >>= λ made.
        next_buffers fuel old made.2 rest >>= λ r.
        ok (r.0, (id, record { content = made.3; ed = new_annotation_editor made.2 }) ∷ r.1)
    | _ ↦ next_buffers fuel old site rest
  ]
]

-- `Attribute::kBuffer`
abbrev pub buffer_case : ℕ
buffer_case = 8

unfoldable pub update_state :
    (AnnotatedString → AnnotatedString → Bool) → ℕ → Session → EditNotification → Outcome Session
unfolding still_unacked next_buffers
update_state same_total_identity fuel s n =
    still_unacked same_total_identity fuel n.content s.unacknowledged >>= λ unacked.
    next_buffers fuel s.buffers s.editor.site (for_each_attribute n.content buffer_case) >>= λ r.
    ok (record s {
      editor = record s.editor { content = n.content; site = r.0 };
      shutdown = n.shutdown;
      unacknowledged = unacked;
      buffers = r.1;
    })
