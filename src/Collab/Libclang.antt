-- ===== src/Collab/Libclang.antt =====
-- libclang_collaborator.cc, the class LibClangCollaborator: what it marks in a text from the tokens,
-- the included files and the diagnostics that libclang gives. libclang is not modelled: what it says
-- of a translation unit is a record. Offsets are into the text.
use ced.Base.{
  ℕ, ◌/◌, ◌%◌, not, if◌then◌else◌, Bool, Option, none, some, List, [], ◌∷◌, ◌++◌, ℤ, pos, negsuc,
  get_elem?, bytes,
}
use ced.Ids.{Id64}
use ced.Proto.{Bytes, CommandSet, Attribute}
use ced.Outcome.{Outcome, ok, ◌>>=◌, deref}
use ced.Text.{AnnotatedString, contains}
use ced.Text.Scan.{scan_text}
use ced.Text.Annotator.{AnnotationEditor, attr_id, end_edit}
use ced.Text.Attributes.{Serializer, mark_attribute, mark_range}
use ced.Buffer.{EditNotification}
use ced.Collab.Latch.{ContentLatch, is_new_content}

pub data TokenKind : Type 0 where
  keyword : TokenKind
  comment : TokenKind
  other_token : TokenKind

pub data CxSeverity : Type 0 where
  cx_ignored : CxSeverity
  cx_note : CxSeverity
  cx_warning : CxSeverity
  cx_error : CxSeverity
  cx_fatal : CxSeverity
  cx_other : CxSeverity

-- A cursor's kind: the tag that `tok_cursor_rules` has for it, and its spelling.
pub record CursorKind : Type 0 where
  pub rule : Option Bytes
  pub spelling : Bytes

-- A token: the line on which it ends and its offsets, its kind, the offset of the field that it declares (negative where
-- it declares none), and the kinds of its cursor and of the cursors around it, the innermost first,
-- down to the null cursor.
pub record Token : Type 0 where
  pub line : ℕ
  pub start : ℕ
  pub end : ℕ
  pub kind : TokenKind
  pub field_offset : ℤ
  pub cursors : List CursorKind

-- A range in some file; `here` says that the file is the buffer's.
pub record Range : Type 0 where
  pub here : Bool
  pub start : ℕ
  pub end : ℕ

pub record CxFixit : Type 0 where
  pub extent : Range
  pub replacement : Bytes

pub record CxDiagnostic : Type 0 where
  pub severity : CxSeverity
  pub message : Bytes
  pub ranges : List Range
  pub fixits : List CxFixit

pub record TranslationUnit : Type 0 where
  pub tokens : List Token
  pub included : List Bytes
  pub diagnostics : List CxDiagnostic

-- How far libclang gets: it has no translation unit, it has no range of the text in it, or all.
pub data Parsed : Type 0 where
  no_unit : Parsed
  no_range : Parsed
  parsed : TranslationUnit → Parsed

unfoldable pub diagnostic_severity : CxSeverity → ℕ
diagnostic_severity cx_ignored = 1
diagnostic_severity cx_note = 2
diagnostic_severity cx_warning = 3
diagnostic_severity cx_error = 4
diagnostic_severity cx_fatal = 5
diagnostic_severity cx_other = 0

-- `f_add`: the outermost cursor's tags come first.
unfoldable pub cursor_tags : List CursorKind → List Bytes
cursor_tags [] = []
cursor_tags (k ∷ ks) =
    cursor_tags ks
    ++ (elim k.rule [ none ↦ [] | some tag ↦ tag ∷ [] ])
    ++ (bytes "LIBCLANG-" ++ k.spelling) ∷ []

-- `f_tidy`
unfoldable pub tidy_tags : TokenKind → List Bytes
tidy_tags keyword = bytes "keyword.c++" ∷ []
tidy_tags comment = bytes "comment.c++" ∷ []
tidy_tags other_token = []

unfoldable pub token_tags : Token → List Bytes
unfolding cursor_tags tidy_tags
token_tags t = bytes "source.c++" ∷ cursor_tags t.cursors ++ tidy_tags t.kind

-- `SizeAnnotation::OFFSET_INTO_PARENT` and `Fixit::COMPILE_FIX`
abbrev pub offset_into_parent : ℕ
offset_into_parent = 1

abbrev pub compile_fix : ℕ
compile_fix = 2

abbrev pub Edits : Type 0
Edits = CommandSet × AnnotationEditor

module _ (ser : Serializer) (ids : List Id64) where
  -- `ed_.Mark(ids[start], ids[end], attr)`
  unfoldable pub mark_offsets : ℕ → ℕ → Attribute → AnnotationEditor → Outcome Edits
  mark_offsets start end attr ed = do
    a ← deref (get_elem? ids start)
    b ← deref (get_elem? ids end)
    (let (_, cmds, ed1) = mark_attribute ser ed a b attr in ok (cmds, ed1))

  -- The offset of the first field of a line, which is marked once: `seen` are `ofs_annotation`'s keys.
  unfoldable pub mark_field : List ℕ → Token → AnnotationEditor → Outcome (Edits × List ℕ)
  unfolding mark_offsets
  mark_field seen t ed =
      if contains t.line seen then ok (([], ed), seen) else (elim t.field_offset [
        | negsuc _ ↦ ok (([], ed), seen)
        | pos ofs ↦
            mark_offsets t.start t.end (Attribute.size offset_into_parent (ofs / 8) (ofs % 8)) ed
            >>= λ r. ok (r, t.line ∷ seen)
      ])

  -- The loop over the tokens.
  unfoldable pub mark_tokens : List ℕ → List Token → AnnotationEditor → Outcome Edits
  unfolding mark_field mark_offsets
  mark_tokens seen [] ed = ok ([], ed)
  mark_tokens seen (t ∷ ts) ed = do
    f ← mark_field seen t ed
    r ← mark_offsets t.start t.end (Attribute.tags (token_tags t)) f.0.1
    rest ← mark_tokens f.1 ts r.1
    ok (f.0.0 ++ r.0 ++ rest.0, rest.1)

  -- The included files.
  unfoldable pub name_files : List Bytes → AnnotationEditor → Edits
  name_files [] ed = ([], ed)
  name_files (f ∷ fs) ed =
      let (_, cmds, ed1) = attr_id ser.attribute ed (Attribute.dependency f) in
      let (later, ed2) = name_files fs ed1 in (cmds ++ later, ed2)

  -- A diagnostic's ranges, and its fixes, where they are in the buffer's file.
  unfoldable pub mark_ranges : Id64 → List Range → AnnotationEditor → Outcome Edits
  mark_ranges diag [] ed = ok ([], ed)
  mark_ranges diag (r ∷ rs) ed =
      let skipped = mark_ranges diag rs ed in
      if not r.here
      then skipped
      else (deref (get_elem? ids r.start) >>= λ a. deref (get_elem? ids r.end) >>= λ b.
          (let (_, cmds, ed1) = mark_range ser ed a b diag in
            mark_ranges diag rs ed1 >>= λ later. ok (cmds ++ later.0, later.1)))

  unfoldable pub mark_fixits : Id64 → List CxFixit → AnnotationEditor → Outcome Edits
  unfolding mark_offsets
  mark_fixits diag [] ed = ok ([], ed)
  mark_fixits diag (f ∷ fs) ed =
      let skipped = mark_fixits diag fs ed in
      if not f.extent.here
      then skipped
      else (mark_offsets f.extent.start f.extent.end
            (Attribute.fixit compile_fix diag f.replacement) ed
          >>= λ r. mark_fixits diag fs r.1 >>= λ later. ok (r.0 ++ later.0, later.1))

  unfoldable pub mark_diagnostics : List CxDiagnostic → AnnotationEditor → Outcome Edits
  unfolding mark_ranges mark_fixits
  mark_diagnostics [] ed = ok ([], ed)
  mark_diagnostics (d ∷ ds) ed =
      let attr = Attribute.diagnostic (diagnostic_severity d.severity) d.message in
      let (diag, cmds, ed1) = attr_id ser.attribute ed attr in
      mark_ranges diag d.ranges ed1 >>= λ r. mark_fixits diag d.fixits r.1 >>= λ f.
      mark_diagnostics ds f.1 >>= λ later. ok (cmds ++ r.0 ++ f.0 ++ later.0, later.1)

  -- The whole of the scoped edit.
  unfoldable pub mark_unit : Bool → TranslationUnit → AnnotationEditor → Outcome Edits
  unfolding mark_tokens name_files mark_diagnostics
  mark_unit fully_loaded u ed = mark_tokens [] u.tokens ed >>= λ t.
      (let (named, ed1) = name_files u.included t.1 in
        (if fully_loaded then mark_diagnostics u.diagnostics ed1 else ok ([], ed1)) >>= λ d.
        (let (deleted, ed2) = end_edit d.1 in ok (t.0 ++ named ++ d.0 ++ deleted, ed2)))

-- Edit: `clang` is what libclang says of the text. Where it has no range, the scoped edit is empty.
unfoldable pub edit :
    Serializer
    → (AnnotatedString → AnnotatedString → Bool)
    → (Bytes → Parsed)
    → ℕ
    → ContentLatch
    → AnnotationEditor
    → EditNotification
    → Outcome (CommandSet × AnnotationEditor × ContentLatch)
unfolding is_new_content mark_unit
edit ser same_content_identity clang fuel latch ed n =
    let (fresh, latch') = is_new_content same_content_identity latch n in
    if not fresh
    then ok ([], ed, latch')
    else (scan_text fuel n.content >>= λ t. elim (clang t.0) [
      | no_unit ↦ ok ([], ed, latch')
      | no_range ↦ let (deleted, ed1) = end_edit ed in ok (deleted, ed1, latch')
      | parsed u ↦ mark_unit ser t.1 n.fully_loaded u ed >>= λ r. ok (r.0, r.1, latch')
    ])
