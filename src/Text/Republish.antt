-- ===== src/Text/Republish.antt =====
-- annotated_string.cc, AnnotationEditor::AttrID and EndEdit over two edits: an edit names a list of
-- attributes one after the other, as a ScopedEdit of a collaborator does.
use ced.Base.{
  ◌||◌, ◌≡◌, refl, Bool, true, false, List, [], ◌∷◌, ◌++◌, subst, sym, append-nil, Option-cases,
  Bool-cases, inl, inr, arith,
}
use ced.Ids.{Id64, Site}
use ced.Proto.{Attribute, Bytes, CommandSet}
use ced.Text.Annotator.{
  AnnotationEditor, equal_bytes, find_id, erase_id, attr_id, end_edit, del_marks, del_decls,
  equal_bytes_refl,
}
use ced.Text.ValToId.{
  has, Distinct, has_missing, has_present, equal_bytes_same, has-erase_id, erase_id-has,
  erase_id-gone, erase_id-Distinct, or_true, none_left,
}

end_edit_none :
    (ed : AnnotationEditor) → ed.last_attr2id ≡ [] → (end_edit ed).0 ≡ del_marks ed.last_ann2id
unfolding end_edit del_decls
end_edit_none ed e = rw e (append-nil (del_marks ed.last_ann2id))

module _ (serialize : Attribute → Bytes) where
  unfoldable pub listed : List Attribute → Bytes → Bool
  listed [] k = false
  listed (x ∷ xs) k = equal_bytes (serialize x) k || listed xs k

  -- The attributes of an edit, one after the other.
  unfoldable pub name_all : AnnotationEditor → List Attribute → CommandSet × AnnotationEditor
  name_all ed [] = ([], ed)
  name_all ed (x ∷ xs) =
      let (i, cmds, ed1) = attr_id serialize ed x in
      let (more, ed2) = name_all ed1 xs in (cmds ++ more, ed2)

  -- What naming one attribute leaves of the two maps.
  record Named (ed : AnnotationEditor) (k : Bytes) (r : Id64 × CommandSet × AnnotationEditor)
      : Type 0 where
    adds : (j : Bytes) → has r.2.new_attr2id j ≡ (equal_bytes k j || has ed.new_attr2id j)
    keeps_new : Distinct ed.new_attr2id → Distinct r.2.new_attr2id
    keeps_last : Distinct ed.last_attr2id → Distinct r.2.last_attr2id
    shrinks : (j : Bytes) → has r.2.last_attr2id j ≡ true → has ed.last_attr2id j ≡ true
    stays :
        (j : Bytes)
        → has ed.last_attr2id j ≡ true
        → equal_bytes k j || has r.2.last_attr2id j ≡ true
    takes : Distinct ed.last_attr2id → has ed.new_attr2id k ≡ false → has r.2.last_attr2id k ≡ false
    quiet : has ed.new_attr2id k || has ed.last_attr2id k ≡ true → r.1 ≡ []

  module _ (ed : AnnotationEditor) (x : Attribute) where
    abbrev key : Bytes
    key = serialize x

    known : (i : Id64) → has ed.new_attr2id key ≡ true → Named ed key (i, [], ed)
    known i e = record {
      adds = same;
      keeps_new = λ d. d;
      keeps_last = λ d. d;
      shrinks = λ j h. h;
      stays = λ j h. rw h (or_true (equal_bytes key j));
      takes = λ d f. absurd (ground (arith, e, f));
      quiet = λ q. refl;
    }
      where
        same : (j : Bytes) → has ed.new_attr2id j ≡ (equal_bytes key j || has ed.new_attr2id j)
        same j = elim (Bool-cases (equal_bytes key j)) [
          | inl t ↦ rw t (subst (λ z. has ed.new_attr2id z ≡ true) (equal_bytes_same key j t) e)
          | inr f ↦ rw f refl
        ]

    moved :
        (i : Id64)
        → has ed.new_attr2id key ≡ false
        → Named ed key (
          i,
          [],
          record ed {
            new_attr2id = (key, i) ∷ ed.new_attr2id;
            last_attr2id = erase_id ed.last_attr2id key;
          },
        )
    unfolding has
    moved i e = record {
      adds = λ j. refl;
      keeps_new = λ d. (e, d);
      keeps_last = erase_id-Distinct ed.last_attr2id key;
      shrinks = has-erase_id ed.last_attr2id key;
      stays = erase_id-has ed.last_attr2id key;
      takes = λ d f. erase_id-gone ed.last_attr2id key d;
      quiet = λ q. refl;
    }

    declared :
        (i : Id64) (cmds : CommandSet) (site : Site)
        → has ed.new_attr2id key ≡ false
        → has ed.last_attr2id key ≡ false
        → Named ed key (i, cmds, record ed { site = site; new_attr2id = (key, i) ∷ ed.new_attr2id })
    unfolding has
    declared i cmds site e f = record {
      adds = λ j. refl;
      keeps_new = λ d. (e, d);
      keeps_last = λ d. d;
      shrinks = λ j h. h;
      stays = λ j h. rw h (or_true (equal_bytes key j));
      takes = λ d g. f;
      quiet = λ q. absurd (ground (arith, e, f, q));
    }

    attr_id-Named : Named ed key (attr_id serialize ed x)
    unfolding attr_id
    attr_id-Named = elim (Option-cases (find_id ed.new_attr2id key)) [
      | inr (i, e) ↦ rw (e, attr_id) (known i (has_present ed.new_attr2id key i e))
      | inl e ↦ elim (Option-cases (find_id ed.last_attr2id key)) [
        | inr (i, f) ↦ rw (e, attr_id) (rw f (moved i (has_missing ed.new_attr2id key e)))
        | inl f ↦
            rw (e, attr_id)
              (rw f (
                declared _ _ _ (has_missing ed.new_attr2id key e)
                  (has_missing ed.last_attr2id key f)))
      ]
    ]

  name_all-Distinct :
      (xs : List Attribute) (ed : AnnotationEditor)
      → Distinct ed.new_attr2id
      → Distinct (name_all ed xs).1.new_attr2id
  unfolding name_all
  name_all-Distinct [] ed d = d
  name_all-Distinct (x ∷ xs) ed d =
      name_all-Distinct xs (attr_id serialize ed x).2 ((attr_id-Named ed x).keeps_new d)

  has-name_all :
      (xs : List Attribute) (ed : AnnotationEditor) (k : Bytes)
      → has (name_all ed xs).1.new_attr2id k ≡ (listed xs k || has ed.new_attr2id k)
  unfolding name_all listed
  has-name_all [] ed k = refl
  has-name_all (x ∷ xs) ed k =
      ground (arith, has-name_all xs (attr_id serialize ed x).2 k, (attr_id-Named ed x).adds k)

  -- Between two names of the second edit: what is left of the first is still to be named, and has
  -- not been; what is to be named has been, or is left of the first.
  record Repeats (ed : AnnotationEditor) (xs : List Attribute) : Type 0 where
    distinct : Distinct ed.last_attr2id
    named : (k : Bytes) → has ed.last_attr2id k ≡ true → listed xs k ≡ true
    apart : (k : Bytes) → has ed.last_attr2id k ≡ true → has ed.new_attr2id k ≡ false
    found : (k : Bytes) → listed xs k ≡ true → has ed.new_attr2id k || has ed.last_attr2id k ≡ true

  module _ (ed : AnnotationEditor) (x : Attribute) (xs : List Attribute)
      (rep : Repeats ed (x ∷ xs)) where
    abbrev after_x : AnnotationEditor
    after_x = (attr_id serialize ed x).2

    known_x : has ed.new_attr2id (serialize x) || has ed.last_attr2id (serialize x) ≡ true
    unfolding listed
    known_x = rep.found (serialize x) (rw (equal_bytes_refl (serialize x)) refl)

    -- What the second edit has named is gone from what is left of the first.
    other : (k : Bytes) → has after_x.last_attr2id k ≡ true → equal_bytes (serialize x) k ≡ false
    other k h = elim (Bool-cases (equal_bytes (serialize x) k)) [
      | inr f ↦ f
      | inl t ↦
          let step = attr_id-Named ed x in
          let p : serialize x ≡ k = equal_bytes_same (serialize x) k t in
          let was : has ed.new_attr2id k ≡ false = rep.apart k (step.shrinks k h) in
          let gone : has after_x.last_attr2id k ≡ false =
            subst (λ z. has ed.new_attr2id z ≡ false → has after_x.last_attr2id z ≡ false) p
              (step.takes rep.distinct) was in
          absurd (ground (arith, h, gone))
    ]

    Repeats-attr_id : Repeats after_x xs
    unfolding listed
    Repeats-attr_id =
        let step = attr_id-Named ed x in
        record {
          distinct = step.keeps_last rep.distinct;
          named = λ k h. ground (arith, other k h, rep.named k (step.shrinks k h));
          apart = λ k h. ground (arith, other k h, rep.apart k (step.shrinks k h), step.adds k);
          found = λ k h. found' k (rep.found k (rw h (or_true (equal_bytes (serialize x) k))));
        }
      where
        found' :
            (k : Bytes)
            → has ed.new_attr2id k || has ed.last_attr2id k ≡ true
            → has after_x.new_attr2id k || has after_x.last_attr2id k ≡ true
        found' k h = elim (Bool-cases (has ed.last_attr2id k)) [
          | inl t ↦ ground (arith, (attr_id-Named ed x).stays k t, (attr_id-Named ed x).adds k)
          | inr f ↦ ground (arith, h, f, (attr_id-Named ed x).adds k)
        ]

  name_all-Repeats :
      (xs : List Attribute) (ed : AnnotationEditor)
      → Repeats ed xs
      → ((name_all ed xs).0 ≡ []) × ((name_all ed xs).1.last_attr2id ≡ [])
  unfolding name_all listed
  name_all-Repeats [] ed rep = (
    refl,
    none_left ed.last_attr2id (λ k. elim (Bool-cases (has ed.last_attr2id k)) [
      | inl t ↦ absurd (ground (arith, rep.named k t))
      | inr f ↦ f
    ]),
  )
  name_all-Repeats (x ∷ xs) ed rep =
      let (quiet, gone) = name_all-Repeats xs (after_x ed x xs rep) (Repeats-attr_id ed x xs rep) in
      (rw ((attr_id-Named ed x).quiet (known_x ed x xs rep), quiet) refl, gone)

  -- At the start of the second edit, where the two edits name the same serializations.
  Repeats-end_edit :
      (ed : AnnotationEditor) (xs ys : List Attribute)
      → ed.new_attr2id ≡ []
      → ((k : Bytes) → listed ys k ≡ listed xs k)
      → Repeats (end_edit (name_all ed xs).1).1 ys
  unfolding end_edit has
  Repeats-end_edit ed xs ys e same = record {
    distinct = name_all-Distinct xs ed (subst Distinct (sym e) tt);
    named = λ k h. ground (arith, h, names k, same k);
    apart = λ k h. refl;
    found = λ k h. ground (arith, h, names k, same k);
  }
    where
      names : (k : Bytes) → has (name_all ed xs).1.new_attr2id k ≡ listed xs k
      names k = elim (Bool-cases (listed xs k)) [
        | inl t ↦ rw (has-name_all xs ed k, e, t) refl
        | inr f ↦ rw (has-name_all xs ed k, e, f) refl
      ]

  -- For an AnnotationEditor between two edits, an edit that names a list of attributes and after it
  -- an edit that names attributes of the same serializations, in any order and any number of times:
  -- the second adds no command while it names them, and what EndEdit then deletes is annotations only.
  pub name_all_again :
      (ed : AnnotationEditor) (xs ys : List Attribute)
      → ed.new_attr2id ≡ []
      → ((k : Bytes) → listed ys k ≡ listed xs k)
      → let again = name_all (end_edit (name_all ed xs).1).1 ys in
        (again.0 ≡ []) × ((end_edit again.1).0 ≡ del_marks again.1.last_ann2id)
  name_all_again ed xs ys e same =
      let next = (end_edit (name_all ed xs).1).1 in
      let (quiet, gone) = name_all-Repeats ys next (Repeats-end_edit ed xs ys e same) in
      (quiet, end_edit_none (name_all next ys).1 gone)
