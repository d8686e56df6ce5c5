-- ===== src/Text/Doc/Received.antt =====
-- FromProto's loop over the newlines, and the whole of FromProto after AsProto.
use ced.Base.{
  ℕ, zero, suc, ◌+◌, ◌<◌, ◌≡◌, ◌≢◌, refl, sym, subst, some, none, List, [], ◌∷◌, ◌++◌, All, All-imp,
  arith, if◌then◌else◌, length, ==_ne, Bool-cases, inl, inr, ◌∙◌, map_eq_some, ◌==◌, ◌&&◌,
}
use ced.Ids.{Id64, begin_id, end_id}
use ced.Outcome.{ok}
use ced.Proto.{Attribute}
use ced.Avl.Map.{Avl, lookup}
use ced.Avl.Set.Keys
use ced.Text.{AnnotatedString, LineBreak, new_string, newline}
use ced.Text.Iterate.{render}
use ced.Text.Marks.{integrate_decl}
use ced.Text.Messages.{as_proto, load_lines, load_attributes, load_graveyard, from_proto}
use ced.Links.{Linked, Distinct, Distinct-insert, Distinct-middle}
use ced.Text.Doc.{Cell, ids, ids-append, begin_cell, end_cell, enclosed, IsStore}
use ced.Text.Doc.Lines.{line_next_of, line_prev_of, line_ids}
use ced.Text.Doc.Newline.{link_line, link_line-Linked, link_line_absent}
use ced.Text.Doc.Insert.{first_cell, before_end}
use ced.Text.Doc.Walk.{IsRest, here, rest, from_visible, iter_next_lem}
use ced.Text.Doc.Render.{render_store, new_string-IsText}
use ced.Text.Doc.LineOf.{inner_ids}
use ced.Text.Doc.Reload.{reloaded, reloaded-IsStore}

-- The index of line breaks as FromProto builds it, from the newlines `l`.
abbrev all_lines : List Id64 → List Id64
all_lines l = begin_id ∷ (l ++ end_id ∷ [])

record IsIndex (lines : Avl LineBreak) (l : List Id64) : Type 0 where
  linked : Linked (line_next_of lines) (line_prev_of lines) (all_lines l)
  distinct : Distinct (all_lines l)
  absent : (j : Id64) → All (λ x. x ≢ j) (all_lines l) → lookup lines j ≡ none

-- The visible newlines of the document in front of `l`, the last one first.
unfoldable pub newlines_onto : List Id64 → List Cell → List Id64
newlines_onto l [] = l
newlines_onto l (z ∷ zs) = newlines_onto (if z.visible && z.chr == newline then z.id ∷ l else l) zs

-- What follows Begin.
second : (l : List Id64) → (nb : Id64) × (r : List Id64) × (l ++ end_id ∷ [] ≡ nb ∷ r)
second [] = (end_id, [], refl)
second (x ∷ l) = (x, l ++ end_id ∷ [], refl)

module _ (lines : Avl LineBreak) (l : List Id64) (index : IsIndex lines l) (i : Id64)
    (fresh : All (λ x. x ≢ i) (all_lines l)) where
  -- A newline is put directly behind Begin.
  record Linked2 : Type 0 where
    first_lb : LineBreak
    next_lb : LineBreak
    at_first : lookup lines begin_id ≡ some first_lb
    at_next_lb : lookup lines first_lb.next ≡ some next_lb
    back : next_lb.prev ≡ begin_id
    index' : IsIndex (link_line lines i begin_id first_lb.next first_lb next_lb) (i ∷ l)

  add_line : Linked2
  add_line =
      let (nb, r, e) = second l in
      let k =
        subst (λ m. Linked (line_next_of lines) (line_prev_of lines) (begin_id ∷ m)) e
          index.linked in
      let d = subst (λ m. Distinct (begin_id ∷ m)) e index.distinct in
      let f = subst (λ m. All (λ x. x ≢ i) (begin_id ∷ m)) e fresh in
      let (flb, at_first, onto) =
        map_eq_some (λ (lb : LineBreak). lb.next) (lookup lines begin_id) k.0.0 in
      let (nlb, at_nb, back) = map_eq_some (λ (lb : LineBreak). lb.prev) (lookup lines nb) k.0.1 in
      let index' : IsIndex (link_line lines i begin_id nb flb nlb) (i ∷ l) = record {
        linked =
            subst
              (λ m.
                Linked (line_next_of (link_line lines i begin_id nb flb nlb))
                  (line_prev_of (link_line lines i begin_id nb flb nlb)) (begin_id ∷ i ∷ m))
              (sym e) (link_line-Linked lines i [] begin_id nb r flb nlb k d at_first at_nb f);
        distinct = Distinct-insert (begin_id ∷ []) i (l ++ end_id ∷ []) index.distinct fresh;
        absent = λ j h.
            link_line_absent lines i [] begin_id nb r flb nlb k d at_first at_nb f
              (λ x g. index.absent x (subst (λ m. All (λ y. y ≢ x) (begin_id ∷ m)) (sym e) g)) j
              (subst (λ m. All (λ y. y ≢ j) (begin_id ∷ i ∷ m)) e h);
      } in
      record {
        first_lb = flb;
        next_lb = nlb;
        at_first = at_first;
        at_next_lb = subst (λ n. lookup lines n ≡ some nlb) (sym onto) at_nb;
        back = back;
        index' =
            subst (λ n. IsIndex (link_line lines i begin_id n flb nlb) (i ∷ l)) (sym onto) index';
      }

module _ (s : AnnotatedString) where
  -- The characters from the first of `zs` on are none of the line breaks that the index has.
  abbrev Apart : List Id64 → List Cell → Type 0
  Apart l zs = All (λ z. All (λ x. x ≢ z.id) (all_lines l)) zs

  Apart-cons :
      (i : Id64) (l : List Id64) (zs : List Cell)
      → Apart l zs
      → All (λ x. i ≢ x) (ids zs)
      → Apart (i ∷ l) zs
  Apart-cons i l [] a f = tt
  Apart-cons i l (z ∷ zs) a f = ((a.0.0, (f.0, a.0.1)), Apart-cons i l zs a.1 f.1)

  load_lines_lem :
      (zs : List Cell) (l : List Id64) (lines : Avl LineBreak) (fuel rounds : ℕ)
      → IsRest s zs
      → length zs < fuel
      → length zs < rounds
      → IsIndex lines l
      → Apart l zs
      → Distinct (ids zs)
      → (lines' : Avl LineBreak) × (load_lines fuel rounds s
            (first_cell (from_visible zs)).id
            begin_id
            lines
          ≡ ok lines')
        × IsIndex lines' (newlines_onto l zs)
  unfolding load_lines from_visible newlines_onto
  load_lines_lem zs l lines fuel zero r p q i a d = absurd (omega arith)
  load_lines_lem [] l lines fuel (suc rounds) r p q i a d = (lines, refl, i)
  load_lines_lem (z ∷ zs) l lines fuel (suc rounds) r p q i a d = elim (Bool-cases z.visible) [
    | inr e ↦
        let (lines', run, index) =
          load_lines_lem zs l lines fuel (suc rounds) (rest s z zs r) (omega arith) (omega arith) i
            a.1 d.1 in
        (lines', rw e run, rw e index)
    | inl e ↦
        let h = here s z zs r in
        let next = iter_next_lem s z zs fuel r (omega arith) in
        elim (Bool-cases (z.chr == newline)) [
          | inl t ↦
              let step = add_line lines l i z.id a.0 in
              let lines1 =
                link_line lines z.id begin_id step.first_lb.next step.first_lb step.next_lb in
              let (lines', run, index) =
                load_lines_lem zs (z.id ∷ l) lines1 fuel rounds (rest s z zs r) (omega arith)
                  (omega arith) step.index' (Apart-cons z.id l zs a.1 d.0) d.1 in
              (
                lines',
                rw e (
                    rw (==_ne z.id end_id r.inner.0) (
                      rw h.at_z (
                        rw h.chr (
                          rw t (
                            rw step.at_first (rw step.at_next_lb (rw step.back (rw next run)))))))),
                rw (e, t) index,
              )
          | inr t ↦
              let (lines', run, index) =
                load_lines_lem zs l lines fuel rounds (rest s z zs r) (omega arith) (omega arith) i
                  a.1 d.1 in
              (
                lines',
                rw e (rw (==_ne z.id end_id r.inner.0) (rw h.at_z (rw h.chr (rw t (rw next run))))),
                rw (e, t) index,
              )
        ]
  ]

declared :
    (s : AnnotatedString) (i : Id64) (a : Attribute)
    → ((integrate_decl s i a).chars ≡ s.chars)
      × ((integrate_decl s i a).line_breaks ≡ s.line_breaks)
unfolding integrate_decl
declared s i a = elim (Bool-cases (Keys.lookup s.graveyard i)) [
  | inl e ↦ (rw e refl, rw e refl)
  | inr e ↦ (rw e refl, rw e refl)
]

load_attributes-chars :
    (s : AnnotatedString) (as' : List (Id64 × Attribute))
    → ((load_attributes s as').chars ≡ s.chars)
      × ((load_attributes s as').line_breaks ≡ s.line_breaks)
unfolding load_attributes integrate_decl
load_attributes-chars s [] = (refl, refl)
load_attributes-chars s ((i, a) ∷ rest) =
    let (u, v) = load_attributes-chars (integrate_decl s i a) rest in
    let (x, y) = declared s i a in (u ∙ x, v ∙ y)

module _ (s : AnnotatedString) (mid : List Cell) (fuel : ℕ) (store : IsStore s.chars (enclosed mid))
    (no_marks : (as_proto s).annotations ≡ []) (enough : length mid + 1 < fuel) where
  abbrev start : AnnotatedString
  start = record new_string { chars = reloaded s mid store }

  empty-IsIndex : IsIndex new_string.line_breaks []
  unfolding line_ids
  empty-IsIndex = record {
    linked = new_string-IsText.lines.linked;
    distinct = (((λ e. absurd (omega arith)), tt), (tt, tt));
    absent = new_string-IsText.lines.absent;
  }

  none_yet : Distinct (ids (enclosed mid)) → Apart start [] mid
  none_yet d =
      All-imp {Q = λ z. All (λ x. x ≢ z.id) (all_lines [])}
        (λ z h. ((λ e. h.0 (sym e)), ((λ e. h.1 (sym e)), tt))) mid (inner_ids s mid d)

  inner-Distinct : Distinct (ids (enclosed mid)) → Distinct (ids mid)
  inner-Distinct d =
      (Distinct-middle (ids mid) end_id [] (subst Distinct (ids-append mid (end_cell ∷ [])) d.1)).2

  -- FromProto of AsProto, for a text that holds a document and has no annotation: it succeeds within
  -- the fuel, the store has the same document and renders the same, and the line breaks come from
  -- Begin to End with the visible newlines in the opposite order.
  pub from_proto-as_proto :
      (t : AnnotatedString) × (from_proto fuel (as_proto s) ≡ ok t)
      × IsStore t.chars (enclosed mid)
      × (render fuel t ≡ render fuel s)
      × Linked
          (line_next_of t.line_breaks)
          (line_prev_of t.line_breaks)
          (begin_id ∷ (newlines_onto [] mid ++ end_id ∷ []))
  unfolding from_proto as_proto
  from_proto-as_proto =
      let store' = reloaded-IsStore s mid store in
      let r : IsRest start (begin_cell ∷ mid) = record {
        linked = store'.linked;
        held = store'.held;
        inner = before_end (begin_cell ∷ mid) store'.distinct;
      } in
      let next = iter_next_lem start begin_cell mid fuel r (omega arith) in
      let (lines, run, index) =
        load_lines_lem start mid [] new_string.line_breaks fuel fuel (rest start begin_cell mid r)
          (omega arith) (omega arith) empty-IsIndex (none_yet store'.distinct)
          (inner-Distinct store'.distinct) in
      let loaded = record start { line_breaks = lines } in
      let (same_chars, same_lines) = load_attributes-chars loaded (as_proto s).attributes in
      let attributed = load_attributes loaded (as_proto s).attributes in
      let t = record attributed {
        graveyard = load_graveyard attributed.graveyard (as_proto s).graveyard;
      } in
      let kept : IsStore t.chars (enclosed mid) =
        subst (λ c. IsStore c (enclosed mid)) (sym same_chars) store' in
      (
        t,
        rw next (rw run (rw no_marks refl)),
        kept,
        render_store t mid fuel kept enough ∙ sym (render_store s mid fuel store enough),
        subst (λ m. Linked (line_next_of m) (line_prev_of m) (all_lines (newlines_onto [] mid)))
            (sym same_lines) index.linked,
      )
