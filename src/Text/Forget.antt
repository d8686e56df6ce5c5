-- ===== src/Text/Forget.antt =====
-- annotated_string.cc, AnnotationEditor::AttrID and EndEdit: which attributes EndEdit deletes.
use ced.Base.{
  ◌||◌, ◌≡◌, refl, ap, ◌∙◌, sym, subst, if◌then◌else◌, true, false, List, [], ◌∷◌, ◌++◌,
  Option-cases, Bool-cases, inl, inr, arith,
}
use ced.Proto.{Attribute, Bytes}
use ced.Text.Annotator.{
  ValToId, AnnotationEditor, equal_bytes, find_id, erase_id, attr_id, end_edit, del_marks,
  del_decls,
}
use ced.Text.ValToId.{has, Distinct, has_missing, has_present, equal_bytes_same}
use ced.Text.Republish.{listed, name_all}

equal_bytes_flip : (x y : Bytes) → equal_bytes x y ≡ equal_bytes y x
unfolding equal_bytes
equal_bytes_flip [] [] = refl
equal_bytes_flip [] (y ∷ ys) = refl
equal_bytes_flip (x ∷ xs) [] = refl
equal_bytes_flip (x ∷ xs) (y ∷ ys) = ground (arith, equal_bytes_flip xs ys)

-- The entries of other keys.
unfoldable others : ValToId → Bytes → ValToId
others [] k = []
others ((j, i) ∷ rest) k =
    let later = others rest k in if equal_bytes j k then later else (j, i) ∷ later

others_absent : (m : ValToId) (k : Bytes) → has m k ≡ false → others m k ≡ m
unfolding others has
others_absent [] k h = refl
others_absent ((j, i) ∷ rest) k h =
    let f : equal_bytes j k ≡ false = ground (arith, h) in
    rw f (ap (◌∷◌ (j, i)) (others_absent rest k (ground (arith, h))))

erase_id-others : (m : ValToId) (k : Bytes) → Distinct m → erase_id m k ≡ others m k
unfolding others erase_id
erase_id-others [] k d = refl
erase_id-others ((j, i) ∷ rest) k d = elim (Bool-cases (equal_bytes j k)) [
  | inl t ↦
      rw t
        (sym (others_absent rest k (subst (λ z. has rest z ≡ false) (equal_bytes_same j k t) d.0)))
  | inr f ↦ rw f (ap (◌∷◌ (j, i)) (erase_id-others rest k d.1))
]

has-others : (m : ValToId) (k j : Bytes) → has m j ≡ false → has (others m k) j ≡ false
unfolding others has
has-others [] k j h = refl
has-others ((x, i) ∷ rest) k j h = elim (Bool-cases (equal_bytes x k)) [
  | inl t ↦ rw (t, others) (has-others rest k j (ground (arith, h)))
  | inr f ↦
      let g : equal_bytes x j ≡ false = ground (arith, h) in
      rw (f, others) (rw (g, has) (has-others rest k j (ground (arith, h))))
]

others_gone : (m : ValToId) (k : Bytes) → has (others m k) k ≡ false
unfolding others has
others_gone [] k = refl
others_gone ((x, i) ∷ rest) k = elim (Bool-cases (equal_bytes x k)) [
  | inl t ↦ rw (t, others) (others_gone rest k)
  | inr f ↦ rw (f, others) (rw (f, has) (others_gone rest k))
]

others-Distinct : (m : ValToId) (k : Bytes) → Distinct m → Distinct (others m k)
unfolding others
others-Distinct [] k d = tt
others-Distinct ((x, i) ∷ rest) k d = elim (Bool-cases (equal_bytes x k)) [
  | inl t ↦ rw (t, others) (others-Distinct rest k d.1)
  | inr f ↦ rw (f, others) (has-others rest k x d.0, others-Distinct rest k d.1)
]

-- In an edit: what has been named is not among what EndEdit would delete.
record IsApart (ed : AnnotationEditor) : Type 0 where
  distinct : Distinct ed.last_attr2id
  apart : (j : Bytes) → has ed.new_attr2id j ≡ true → has ed.last_attr2id j ≡ false

module _ (serialize : Attribute → Bytes) where
  record NamesOne (ed : AnnotationEditor) (k : Bytes) (ed' : AnnotationEditor) : Type 0 where
    last : ed'.last_attr2id ≡ others ed.last_attr2id k
    marks : ed'.last_ann2id ≡ ed.last_ann2id
    added :
        (j : Bytes) → has ed'.new_attr2id j ≡ true → equal_bytes k j || has ed.new_attr2id j ≡ true

  attr_id-NamesOne :
      (ed : AnnotationEditor) (x : Attribute)
      → IsApart ed
      → NamesOne ed (serialize x) (attr_id serialize ed x).2
  unfolding attr_id has
  attr_id-NamesOne ed x a =
      let k = serialize x in
      elim (Option-cases (find_id ed.new_attr2id k)) [
        | inr (i, e) ↦
            let found = has_present ed.new_attr2id k i e in
            rw (e, attr_id)
              (record {
                last = sym (others_absent ed.last_attr2id k (a.apart k found));
                marks = refl;
                added = λ j h. ground (arith, h);
              })
        | inl e ↦ elim (Option-cases (find_id ed.last_attr2id k)) [
          | inr (i, f) ↦
              rw (e, attr_id)
                (rw f (record {
                  last = erase_id-others ed.last_attr2id k a.distinct;
                  marks = refl;
                  added = λ j h. h;
                }))
          | inl f ↦
              rw (e, attr_id)
                (rw f (record {
                  last = sym (others_absent ed.last_attr2id k (has_missing ed.last_attr2id k f));
                  marks = refl;
                  added = λ j h. h;
                }))
        ]
      ]

  NamesOne-IsApart :
      (ed : AnnotationEditor) (k : Bytes) (ed' : AnnotationEditor)
      → IsApart ed
      → NamesOne ed k ed'
      → IsApart ed'
  NamesOne-IsApart ed k ed' a n = record {
    distinct = subst Distinct (sym n.last) (others-Distinct ed.last_attr2id k a.distinct);
    apart = λ j h. elim (Bool-cases (equal_bytes k j)) [
      | inl t ↦
          let same = equal_bytes_same k j t in
          rw n.last (
            subst (λ z. has (others ed.last_attr2id k) z ≡ false) same
              (others_gone ed.last_attr2id k))
      | inr f ↦
          rw n.last (has-others ed.last_attr2id k j (a.apart j (ground (arith, n.added j h, f))))
    ];
  }

  -- The entries that a list of attributes does not name.
  abbrev pub unnamed : List Attribute → ValToId → ValToId
  unnamed xs [] = []
  unnamed xs ((j, i) ∷ rest) =
      let later = unnamed xs rest in if listed serialize xs j then later else (j, i) ∷ later

  unnamed_none : (m : ValToId) → unnamed [] m ≡ m
  unfolding listed
  unnamed_none [] = refl
  unnamed_none ((j, i) ∷ rest) = ap (◌∷◌ (j, i)) (unnamed_none rest)

  unnamed-others :
      (x : Attribute) (xs : List Attribute) (m : ValToId)
      → unnamed xs (others m (serialize x)) ≡ unnamed (x ∷ xs) m
  unfolding others listed
  unnamed-others x xs [] = refl
  unnamed-others x xs ((j, i) ∷ rest) = elim (Bool-cases (equal_bytes j (serialize x))) [
    | inl t ↦
        rw (t, others) (rw (equal_bytes_flip (serialize x) j) (rw t (unnamed-others x xs rest)))
    | inr f ↦
        rw (f, others)
          (rw (equal_bytes_flip (serialize x) j) (
            rw f (elim (Bool-cases (listed serialize xs j)) [
              | inl l ↦ rw l (unnamed-others x xs rest)
              | inr l ↦ rw l (ap (◌∷◌ (j, i)) (unnamed-others x xs rest))
            ])))
  ]

  name_all_rest :
      (xs : List Attribute) (ed : AnnotationEditor)
      → IsApart ed
      → ((name_all serialize ed xs).1.last_attr2id ≡ unnamed xs ed.last_attr2id)
        × ((name_all serialize ed xs).1.last_ann2id ≡ ed.last_ann2id)
  unfolding name_all
  name_all_rest [] ed a = (sym (unnamed_none ed.last_attr2id), refl)
  name_all_rest (x ∷ xs) ed a =
      let ed1 = (attr_id serialize ed x).2 in
      let n = attr_id-NamesOne ed x a in
      let (l, m) = name_all_rest xs ed1 (NamesOne-IsApart ed (serialize x) ed1 a n) in
      (l ∙ (ap (unnamed xs) n.last ∙ unnamed-others x xs ed.last_attr2id), m ∙ n.marks)

  -- An edit on an editor between two edits that names a list of attributes and no annotation: EndEdit
  -- deletes the annotations of the edit before, and of its attributes exactly those that are not named,
  -- in order.
  pub end_edit-name_all :
      (xs : List Attribute) (ed : AnnotationEditor)
      → ed.new_attr2id ≡ []
      → Distinct ed.last_attr2id
      → (end_edit (name_all serialize ed xs).1).0
        ≡ del_marks ed.last_ann2id ++ del_decls (unnamed xs ed.last_attr2id)
  unfolding end_edit has
  end_edit-name_all xs ed new d =
      let start : IsApart ed = record {
        distinct = d;
        apart = λ j h. absurd (ground (arith, subst (λ m. has m j ≡ true) new h));
      } in
      let (l, m) = name_all_rest xs ed start in
      ap (λ a. del_marks a ++ del_decls (name_all serialize ed xs).1.last_attr2id) m
      ∙ ap (λ b. del_marks ed.last_ann2id ++ del_decls b) l
