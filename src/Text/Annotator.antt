-- ===== src/Text/Annotator.antt =====
-- annotated_string.h and annotated_string.cc, the class AnnotationEditor: in each edit it names the
-- attributes and annotations that are to stand, and EndEdit deletes those of the edit before that
-- were not named again. The commands are returned in the order in which they are added. Protobuf's
-- serialization is a parameter. An unordered map is a list, visited in the list's order.
use ced.Base.{
  ◌==◌, ◌&&◌, ◌≡◌, refl, if◌then◌else◌, Bool, true, false, Option, none, some, List, [], ◌∷◌, ◌++◌,
  ==_refl, subst, sym, Option-cases, inl, inr,
}
use ced.Ids.{Id64, Site}
use ced.Proto.{Attribute, Annotation, Bytes, CommandSet}
use ced.Text.Commands.{make_decl, make_mark, make_del_mark, make_del_decl}

abbrev pub ValToId : Type 0
ValToId = List (Bytes × Id64)

pub record AnnotationEditor : Type 0 where
  pub site : Site
  pub last_attr2id : ValToId
  pub new_attr2id : ValToId
  pub last_ann2id : ValToId
  pub new_ann2id : ValToId

unfoldable pub equal_bytes : Bytes → Bytes → Bool
equal_bytes [] [] = true
equal_bytes [] (y ∷ ys) = false
equal_bytes (x ∷ xs) [] = false
equal_bytes (x ∷ xs) (y ∷ ys) = x == y && equal_bytes xs ys

unfoldable pub find_id : ValToId → Bytes → Option Id64
find_id [] ser = none
find_id ((k, i) ∷ rest) ser =
    let later = find_id rest ser in if equal_bytes k ser then some i else later

unfoldable pub erase_id : ValToId → Bytes → ValToId
erase_id [] ser = []
erase_id ((k, i) ∷ rest) ser =
    let later = erase_id rest ser in if equal_bytes k ser then rest else (k, i) ∷ later

module _ (serialize : Attribute → Bytes) where
  unfoldable pub attr_id : AnnotationEditor → Attribute → Id64 × CommandSet × AnnotationEditor
  attr_id ed attr =
      let ser = serialize attr in
      elim (find_id ed.new_attr2id ser) [
        | some i ↦ (i, [], ed)
        | none ↦ elim (find_id ed.last_attr2id ser) [
          | some i ↦ (
            i,
            [],
            record ed {
              new_attr2id = (ser, i) ∷ ed.new_attr2id;
              last_attr2id = erase_id ed.last_attr2id ser;
            },
          )
          | none ↦
              let (cmd, i, site) = make_decl ed.site attr in
              (i, cmd ∷ [], record ed { site = site; new_attr2id = (ser, i) ∷ ed.new_attr2id })
        ]
      ]

module _ (serialize : Annotation → Bytes) where
  unfoldable pub mark_id : AnnotationEditor → Annotation → Id64 × CommandSet × AnnotationEditor
  mark_id ed ann =
      let ser = serialize ann in
      elim (find_id ed.new_ann2id ser) [
        | some i ↦ (i, [], ed)
        | none ↦ elim (find_id ed.last_ann2id ser) [
          | some i ↦ (
            i,
            [],
            record ed {
              new_ann2id = (ser, i) ∷ ed.new_ann2id;
              last_ann2id = erase_id ed.last_ann2id ser;
            },
          )
          | none ↦
              let (cmd, i, site) = make_mark ed.site ann in
              (i, cmd ∷ [], record ed { site = site; new_ann2id = (ser, i) ∷ ed.new_ann2id })
        ]
      ]

unfoldable pub del_marks : ValToId → CommandSet
del_marks [] = []
del_marks ((_, i) ∷ rest) = make_del_mark i ∷ del_marks rest

unfoldable pub del_decls : ValToId → CommandSet
del_decls [] = []
del_decls ((_, i) ∷ rest) = make_del_decl i ∷ del_decls rest

unfoldable pub end_edit : AnnotationEditor → CommandSet × AnnotationEditor
unfolding del_marks del_decls
end_edit ed = (
  del_marks ed.last_ann2id ++ del_decls ed.last_attr2id,
  record ed {
    last_ann2id = ed.new_ann2id;
    last_attr2id = ed.new_attr2id;
    new_ann2id = [];
    new_attr2id = [];
  },
)

pub equal_bytes_refl : (xs : Bytes) → equal_bytes xs xs ≡ true
unfolding equal_bytes
equal_bytes_refl [] = refl
equal_bytes_refl (x ∷ xs) = rw (==_refl x) (equal_bytes_refl xs)

find_id_head : (ser : Bytes) (i : Id64) (rest : ValToId) → find_id ((ser, i) ∷ rest) ser ≡ some i
unfolding find_id
find_id_head ser i rest = rw (equal_bytes_refl ser) refl

module _ (serialize : Attribute → Bytes) (ed : AnnotationEditor) (attr : Attribute) where
  attr_id_known :
      (i : Id64)
      → find_id ed.new_attr2id (serialize attr) ≡ some i
      → attr_id serialize ed attr ≡ (i, [], ed)
  unfolding attr_id
  attr_id_known i e = rw (e, attr_id) refl

  abbrev Named : Id64 × CommandSet × AnnotationEditor → Type 0
  Named r = find_id r.2.new_attr2id (serialize attr) ≡ some r.0

  attr_id-Named : Named (attr_id serialize ed attr)
  unfolding attr_id
  attr_id-Named = elim (Option-cases (find_id ed.new_attr2id (serialize attr))) [
    | inr (i, e) ↦ subst Named (sym (attr_id_known i e)) e
    | inl e ↦ elim (Option-cases (find_id ed.last_attr2id (serialize attr))) [
      | inr (i, f) ↦ rw (e, attr_id) (rw f (find_id_head (serialize attr) i ed.new_attr2id))
      | inl f ↦ rw (e, attr_id) (rw f (find_id_head (serialize attr) _ ed.new_attr2id))
    ]
  ]

-- Naming an attribute again in the same edit gives the same ID, adds no command and changes nothing.
attr_id_again :
    (serialize : Attribute → Bytes) (ed : AnnotationEditor) (attr : Attribute)
    → let (i, cmds, ed') = attr_id serialize ed attr in attr_id serialize ed' attr ≡ (i, [], ed')
attr_id_again serialize ed attr =
    let r = attr_id serialize ed attr in
    attr_id_known serialize r.2 attr r.0 (attr_id-Named serialize ed attr)
