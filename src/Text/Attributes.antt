-- ===== src/Text/Attributes.antt =====
-- annotated_string.h and annotated_string.cc: the walks over the attributes and annotations of an
-- AnnotatedString, each given as the list of what its callback is called with, and the marks that an
-- AnnotationEditor sets on a range. Protobuf's serializations are parameters.
use ced.Base.{ℕ, Option, none, some, List, [], ◌∷◌, ◌++◌}
use ced.Ids.{Id64}
use ced.Proto.{Attribute, Annotation, Bytes, CommandSet}
use ced.Outcome.{Outcome, ok, ◌>>=◌, deref}
use ced.Avl.Map.{Avl, lookup, to_list}
use ced.Avl.Set.Keys
use ced.Text.{AnnotatedString}
use ced.Text.Annotator.{AnnotationEditor, attr_id, mark_id}

-- What the callback of ForEachAnnotation is given.
pub record Marked : Type 0 where
  pub annid : Id64
  pub begin : Id64
  pub end : Id64
  pub attr : Attribute

unfoldable pub marked_with : Avl Attribute → List (Id64 × Annotation) → List Marked
marked_with am [] = []
marked_with am ((i, ann) ∷ rest) =
    let later = marked_with am rest in
    elim (lookup am ann.attribute) [
      | none ↦ later
      | some attr ↦ record { annid = i; begin = ann.begin; end = ann.end; attr = attr } ∷ later
    ]

unfoldable pub for_each_annotation : AnnotatedString → ℕ → Outcome (List Marked)
unfolding marked_with
for_each_annotation s type = elim (lookup s.annotations_by_type type) [
  | none ↦ ok []
  | some m ↦ deref (lookup s.attributes_by_type type) >>= λ am. ok (marked_with am (to_list m))
]

unfoldable pub for_each_attribute : AnnotatedString → ℕ → List (Id64 × Attribute)
for_each_attribute s type = elim (lookup s.attributes_by_type type) [
  | none ↦ []
  | some m ↦ to_list m
]

-- One annotation in ForEachAttrValue: its attribute, unless it or its attribute is gone.
unfoldable pub attr_value : AnnotatedString → Id64 → Outcome (Option Attribute)
attr_value s i = elim (lookup s.annotations i) [
  | none ↦ ok none
  | some dc ↦ do
    by_type ← deref (lookup s.annotations_by_type dc)
    ann ← deref (lookup by_type i)
    attrs ← deref (lookup s.attributes_by_type dc)
    ok (lookup attrs ann.attribute)
]

unfoldable pub attr_values : AnnotatedString → List Id64 → Outcome (List Attribute)
unfolding attr_value
attr_values s [] = ok []
attr_values s (i ∷ is) = attr_value s i >>= λ found.
    attr_values s is >>= λ later. elim found [ none ↦ ok later | some attr ↦ ok (attr ∷ later) ]

unfoldable pub for_each_attr_value : AnnotatedString → Id64 → Outcome (List Attribute)
unfolding attr_values
for_each_attr_value s pos =
    deref (lookup s.chars pos) >>= λ ci. attr_values s (Keys.to_list ci.annotations)

-- Protobuf's SerializeToString for the two messages that an AnnotationEditor compares.
pub record Serializer : Type 0 where
  pub attribute : Attribute → Bytes
  pub annotation : Annotation → Bytes

-- Mark(beg, end, attr) for the ID of an attribute, and for an attribute.
unfoldable pub mark_range :
    Serializer → AnnotationEditor → Id64 → Id64 → Id64 → Id64 × CommandSet × AnnotationEditor
mark_range ser ed beg end attr =
    mark_id ser.annotation ed (record { begin = beg; end = end; attribute = attr })

unfoldable pub mark_attribute :
    Serializer → AnnotationEditor → Id64 → Id64 → Attribute → Id64 × CommandSet × AnnotationEditor
unfolding mark_range
mark_attribute ser ed beg end attr =
    let (a, cmds, ed1) = attr_id ser.attribute ed attr in
    let (i, cmds', ed2) = mark_range ser ed1 beg end a in (i, cmds ++ cmds', ed2)
