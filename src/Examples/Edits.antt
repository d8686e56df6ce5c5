-- ===== src/Examples/Edits.antt =====
-- The theorems on AnnotationEditor, with the number of an attribute's case for its serialization.
use ced.Base.{◌++◌, ◌≡◌, refl, sym, List, [], ◌∷◌, Bool-cases, inl, inr}
use ced.Proto.{Attribute, data_case, tags, cursor, Bytes}
use ced.Text.Annotator.{AnnotationEditor, equal_bytes, end_edit, del_marks, del_decls}
use ced.Text.ValToId.{has, or_true}
use ced.Text.Forget.{unnamed, end_edit-name_all}
use ced.Text.Republish.{listed, name_all, name_all_again}

abbrev by_case : Attribute → Bytes
by_case a = data_case a ∷ []

abbrev editing : AnnotationEditor
editing = record {
  site = record { id = 3; clock = 0 };
  last_attr2id = (1 ∷ [], 131075) ∷ [];
  new_attr2id = [];
  last_ann2id = [];
  new_ann2id = [];
}

-- Two attributes, and the same two in the other order with one of them twice.
abbrev twice : List Attribute
twice = cursor ∷ tags [] ∷ cursor ∷ []

abbrev once : List Attribute
once = tags [] ∷ cursor ∷ []

same_names : (k : Bytes) → listed by_case twice k ≡ listed by_case once k
unfolding listed
same_names k = elim (Bool-cases (equal_bytes (by_case cursor) k)) [
  | inl t ↦ rw t (sym (or_true (equal_bytes (by_case (tags [])) k)))
  | inr f ↦ rw f refl
]

name_all_again_example :
    let again = name_all by_case (end_edit (name_all by_case editing once).1).1 twice in
    (again.0 ≡ []) × ((end_edit again.1).0 ≡ del_marks again.1.last_ann2id)
name_all_again_example = name_all_again by_case editing once twice refl same_names

-- The edit before named two attributes, and this one names the cursor only.
abbrev before : AnnotationEditor
before = record editing { last_attr2id = (1 ∷ [], 131075) ∷ (6 ∷ [], 196611) ∷ [] }

end_edit-name_all_example :
    (end_edit (name_all by_case before (cursor ∷ [])).1).0
    ≡ del_marks [] ++ del_decls (unnamed by_case (cursor ∷ []) before.last_attr2id)
unfolding has equal_bytes
end_edit-name_all_example = end_edit-name_all by_case (cursor ∷ []) before refl (refl, (refl, tt))
