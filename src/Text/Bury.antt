-- ===== src/Text/Bury.antt =====
-- The commands on attributes and annotations, whole: what they record, what they leave of the
-- document, and what a deleted ID means to the commands that come later.
use ced.Base.{ℕ, ◌<◌, ◌≡◌, sym, refl, false, none, some, List, ◌∷◌, ◌++◌, subst, length, ==_refl}
use ced.Ids.{Id64}
use ced.Proto.{Attribute, Annotation, data_case}
use ced.Proto.Body.{decl, del_decl, mark, del_mark}
use ced.Outcome.{ok}
use ced.Avl.Map.{Avl, lookup, add, remove, lookup-add, lookup-remove}
use ced.Avl.Set.Keys
use ced.Text.{AnnotatedString}
use ced.Text.Marks.{
  integrate_decl, integrate_del_decl, integrate_mark, integrate_del_mark, or_empty,
}
use ced.Text.Integrate.{integrate}
use ced.Text.Doc.{Cell, enclosed, IsStore}
use ced.Text.Doc.Insert.{IsText}
use ced.Text.Keep.{first_of, IsTouched, mark_chars_lem, unmark_chars_lem}

lookup-add_self {ℓ} : {V : Type ℓ} (m : Avl V) (k : ℕ) (v : V) → lookup (add m k v) k ≡ some v
lookup-add_self m k v = rw (lookup-add m k v k, ==_refl k)

lookup-remove_self {ℓ} : {V : Type ℓ} (m : Avl V) (k : ℕ) → lookup (remove m k) k ≡ none
lookup-remove_self m k = rw (lookup-remove m k k, ==_refl k)

module _ (fuel : ℕ) (s : AnnotatedString) (mid pre range : List Cell) (e : Cell) (post : List Cell)
    (id attribute : Id64) (dc : ℕ) (text : IsText s mid)
    (place : enclosed mid ≡ pre ++ (range ++ e ∷ post)) (enough : length range < fuel) where
  abbrev pub over : Annotation
  over = record { begin = (first_of range e).id; end = e.id; attribute = attribute }

  IsStore-place : IsStore s.chars (pre ++ (range ++ e ∷ post))
  IsStore-place = subst (IsStore s.chars) place text.store

  -- A mark over a range of the document, under an ID that is not buried and for an attribute that is
  -- declared, succeeds within the fuel: the document stays, the annotation is recorded under the
  -- attribute's case, the visible characters of the range get its ID into their sets of annotations, and
  -- no other character's entry changes.
  pub mark_lem :
      Keys.lookup s.graveyard id ≡ false
      → lookup s.attributes attribute ≡ some dc
      → (t : AnnotatedString) × (integrate fuel s (record { id = id; body = mark over }) ≡ ok t)
        × IsText t mid
        × (lookup t.annotations id ≡ some dc)
        × ((m : Avl Annotation) × (lookup t.annotations_by_type dc ≡ some m)
            × (lookup m id ≡ some over))
        × IsTouched (λ a. Keys.add a id) s.chars range t.chars
  unfolding integrate integrate_mark
  mark_lem alive declared =
      let (chars', run, st, touched) =
        mark_chars_lem id e post range pre fuel s.chars IsStore-place enough in
      let m = add (or_empty (lookup s.annotations_by_type dc)) id over in
      let t = record s {
        annotations = add s.annotations id dc;
        annotations_by_type = add s.annotations_by_type dc m;
        chars = chars';
      } in
      (
        t,
        rw alive (rw declared (rw run)),
        record { store = subst (IsStore chars') (sym place) st; lines = text.lines },
        lookup-add_self s.annotations id dc,
        (
          m,
          lookup-add_self s.annotations_by_type dc m,
          lookup-add_self (or_empty (lookup s.annotations_by_type dc)) id over,
        ),
        touched,
      )

  -- Deleting a recorded annotation over a range of the document succeeds: the document stays, the
  -- annotation is gone from both records and its ID from the sets of the visible characters of the
  -- range, no other character's entry changes, and later marks and deletes under its ID change nothing.
  pub del_mark_lem :
      (bt : Avl Annotation)
      → lookup s.annotations id ≡ some dc
      → lookup s.annotations_by_type dc ≡ some bt
      → lookup bt id ≡ some over
      → (t : AnnotatedString) × (integrate fuel s (record { id = id; body = del_mark }) ≡ ok t)
        × IsText t mid
        × (lookup t.annotations id ≡ none)
        × ((m : Avl Annotation) × (lookup t.annotations_by_type dc ≡ some m) × (lookup m id ≡ none))
        × ((f : ℕ) (again : Annotation)
            → (integrate f t (record { id = id; body = mark again }) ≡ ok t)
              × (integrate f t (record { id = id; body = del_mark }) ≡ ok t))
        × IsTouched (λ a. Keys.remove a id) s.chars range t.chars
  unfolding integrate integrate_mark integrate_del_mark
  del_mark_lem bt has typed stored =
      let (chars', run, st, touched) =
        unmark_chars_lem id e post range pre fuel s.chars IsStore-place enough in
      let t = record s {
        chars = chars';
        annotations_by_type = add s.annotations_by_type dc (remove bt id);
        annotations = remove s.annotations id;
        graveyard = Keys.add s.graveyard id;
      } in
      (
        t,
        rw (has, integrate_del_mark) (rw typed (rw stored (rw run))),
        record { store = subst (IsStore chars') (sym place) st; lines = text.lines },
        lookup-remove_self s.annotations id,
        (
          remove bt id,
          lookup-add_self s.annotations_by_type dc (remove bt id),
          lookup-remove_self bt id,
        ),
        λ f again. (
          rw (Keys.lookup-add s.graveyard id id, ==_refl id),
          rw (lookup-remove_self s.annotations id, integrate_del_mark),
        ),
        touched,
      )

module _ (fuel : ℕ) (s : AnnotatedString) (id : Id64) where
  -- A declaration under an ID that is not buried is recorded under its case.
  pub decl_lem :
      (attr : Attribute)
      → Keys.lookup s.graveyard id ≡ false
      → (t : AnnotatedString) × (integrate fuel s (record { id = id; body = decl attr }) ≡ ok t)
        × (lookup t.attributes id ≡ some (data_case attr))
        × ((m : Avl Attribute) × (lookup t.attributes_by_type (data_case attr) ≡ some m)
            × (lookup m id ≡ some attr))
        × (t.chars ≡ s.chars)
  unfolding integrate integrate_decl
  decl_lem attr alive =
      let dc = data_case attr in
      let m = add (or_empty (lookup s.attributes_by_type dc)) id attr in
      (
        record s {
          attributes = add s.attributes id dc;
          attributes_by_type = add s.attributes_by_type dc m;
        },
        rw alive,
        lookup-add_self s.attributes id dc,
        (
          m,
          lookup-add_self s.attributes_by_type dc m,
          lookup-add_self (or_empty (lookup s.attributes_by_type dc)) id attr,
        ),
        refl,
      )

  -- Deleting a recorded declaration takes it from both records, and later declarations and deletes
  -- under its ID change nothing.
  pub del_decl_lem :
      (dc : ℕ) (by_type : Avl Attribute)
      → lookup s.attributes id ≡ some dc
      → lookup s.attributes_by_type dc ≡ some by_type
      → (t : AnnotatedString) × (integrate fuel s (record { id = id; body = del_decl }) ≡ ok t)
        × (lookup t.attributes id ≡ none)
        × ((m : Avl Attribute) × (lookup t.attributes_by_type dc ≡ some m) × (lookup m id ≡ none))
        × ((f : ℕ) (again : Attribute)
            → (integrate f t (record { id = id; body = decl again }) ≡ ok t)
              × (integrate f t (record { id = id; body = del_decl }) ≡ ok t))
  unfolding integrate integrate_decl integrate_del_decl
  del_decl_lem dc by_type has typed = (
    record s {
      attributes_by_type = add s.attributes_by_type dc (remove by_type id);
      attributes = remove s.attributes id;
      graveyard = Keys.add s.graveyard id;
    },
    rw (has, integrate_del_decl) (rw typed),
    lookup-remove_self s.attributes id,
    (
      remove by_type id,
      lookup-add_self s.attributes_by_type dc (remove by_type id),
      lookup-remove_self by_type id,
    ),
    λ f again. (
      rw (Keys.lookup-add s.graveyard id id, ==_refl id),
      rw (lookup-remove_self s.attributes id, integrate_del_decl),
    ),
  )
