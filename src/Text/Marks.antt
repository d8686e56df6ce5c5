-- ===== src/Text/Marks.antt =====
-- annotated_string.cc, the commands on attributes and annotations: IntegrateDecl, IntegrateDelDecl,
-- IntegrateMark and IntegrateDelMark.
use ced.Base.{ℕ, zero, suc, ◌==◌, if◌then◌else◌, Option, none, some}
use ced.Ids.{Id64}
use ced.Proto.{Attribute, data_case, Annotation}
use ced.Outcome.{Outcome, ok, fault, out_of_fuel, ◌>>=◌, deref}
use ced.Avl.Map.{Avl, empty, add, remove, lookup}
use ced.Avl.Set.Keys
use ced.Avl.Set.Keys.{KeySet}
use ced.Text.{AnnotatedString, CharInfo}

-- `p ? *p : AVL()`
unfoldable pub or_empty {ℓ} : {V : Type ℓ} → Option (Avl V) → Avl V
or_empty none = empty
or_empty (some m) = m

unfoldable pub integrate_decl : AnnotatedString → Id64 → Attribute → AnnotatedString
integrate_decl s id attr = if Keys.lookup s.graveyard id then s else record s {
  attributes = add s.attributes id (data_case attr);
  attributes_by_type =
      add s.attributes_by_type (data_case attr)
        (add (or_empty (lookup s.attributes_by_type (data_case attr))) id attr);
}

unfoldable pub integrate_del_decl : AnnotatedString → Id64 → Outcome AnnotatedString
integrate_del_decl s id = elim (lookup s.attributes id) [
  | none ↦ ok s
  | some dc ↦ deref (lookup s.attributes_by_type dc) >>= λ by_type. ok (record s {
    attributes_by_type = add s.attributes_by_type dc (remove by_type id);
    attributes = remove s.attributes id;
    graveyard = Keys.add s.graveyard id;
  })
]

-- `ci->visible` decides whether the loops below write the character back.
abbrev pub touch : (KeySet → KeySet) → Avl CharInfo → Id64 → CharInfo → Avl CharInfo
touch f chars loc ci =
    if ci.visible then add chars loc (record ci { annotations = f ci.annotations }) else chars

-- The loop of IntegrateMark, with its two asserts.
unfoldable pub mark_chars : ℕ → Id64 → Avl CharInfo → Id64 → Id64 → Outcome (Avl CharInfo)
mark_chars zero id chars loc end = out_of_fuel
mark_chars (suc fuel) id chars loc end =
    let rest = λ (cs : Avl CharInfo) (next : Id64). mark_chars fuel id cs next end in
    if loc == end
    then ok chars
    else (deref (lookup chars loc) >>= λ ci.
        if ci.next == loc then fault else rest (touch (λ a. Keys.add a id) chars loc ci) ci.next)

unfoldable pub unmark_chars : ℕ → Id64 → Avl CharInfo → Id64 → Id64 → Outcome (Avl CharInfo)
unmark_chars zero id chars loc end = out_of_fuel
unmark_chars (suc fuel) id chars loc end =
    let rest = λ (cs : Avl CharInfo) (next : Id64). unmark_chars fuel id cs next end in
    if loc == end
    then ok chars
    else (deref (lookup chars loc) >>= λ ci.
        rest (touch (λ a. Keys.remove a id) chars loc ci) ci.next)

unfoldable pub integrate_mark : ℕ → AnnotatedString → Id64 → Annotation → Outcome AnnotatedString
integrate_mark fuel s id ann =
    if Keys.lookup s.graveyard id
    then ok s
    else (deref (lookup s.attributes ann.attribute) >>= λ dc.
        mark_chars fuel id s.chars ann.begin ann.end >>= λ chars. ok (record s {
          annotations = add s.annotations id dc;
          annotations_by_type =
              add s.annotations_by_type dc
                (add (or_empty (lookup s.annotations_by_type dc)) id ann);
          chars = chars;
        }))

unfoldable pub integrate_del_mark : ℕ → AnnotatedString → Id64 → Outcome AnnotatedString
integrate_del_mark fuel s id = elim (lookup s.annotations id) [
  | none ↦ ok s
  | some dc ↦ deref (lookup s.annotations_by_type dc) >>= λ bt. deref (lookup bt id) >>= λ ann.
      unmark_chars fuel id s.chars ann.begin ann.end >>= λ chars. ok (record s {
        chars = chars;
        annotations_by_type = add s.annotations_by_type dc (remove bt id);
        annotations = remove s.annotations id;
        graveyard = Keys.add s.graveyard id;
      })
]
