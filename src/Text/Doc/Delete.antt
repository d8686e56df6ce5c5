-- ===== src/Text/Doc/Delete.antt =====
-- A delete command on a text that holds a document, for each character of the document.
use ced.Base.{
  ℕ, ◌≡◌, ◌≢◌, sym, ap, ◌∙◌, refl, true, false, some, List, [], ◌∷◌, ◌++◌, All, All-right, arith,
  subst, append_assoc, ◌==◌, ==_refl, ==_ne, Bool-cases, inl, inr,
}
use ced.Ids.{Id64, begin_id, end_id}
use ced.Proto.Body.{delete}
use ced.Outcome.{ok}
use ced.Avl.Map.{Avl, lookup, add, lookup-add}
use ced.Avl.Set.Keys
use ced.Text.{AnnotatedString, CharInfo, LineBreak, newline, integrate_del_char, remove_line_break}
use ced.Text.Integrate.{integrate}
use ced.Links.{Linked, Distinct, Distinct-middle}
use ced.Text.Doc.{
  Cell, ids, ids-append, begin_cell, end_cell, enclosed, Holds-lookup, IsStore, cell_of,
}
use ced.Text.Doc.Lines.{is_line, line_ids, line_ids-append, IsLines, line_next_of, line_prev_of}
use ced.Text.Doc.Newline.{Distinct-line_ids}
use ced.Text.Doc.Insert.{IsText, line_ids_end}
use ced.Text.Doc.Hide.{
  hidden, hidden-IsStore, neighbours, unlinked, unlinked-Linked, unlinked_absent,
  remove_line_break_runs,
}

snoc_of : (x : Id64) (m : List Id64) → (front : List Id64) × (p : Id64) × (x ∷ m ≡ front ++ p ∷ [])
snoc_of x [] = ([], x, refl)
snoc_of x (y ∷ m) = let (front, p, e) = snoc_of y m in (x ∷ front, p, ap (◌∷◌ x) e)

module _ (s : AnnotatedString) (xs : List Cell) (c : Cell) (ys : List Cell) where
  -- What deleting the character may change: its own entry, and the index of line breaks.
  pub record Deletes (t : AnnotatedString) : Type 0 where
    pub well_formed : IsText t (xs ++ hidden c ∷ ys)
    -- A character that is hidden already leaves everything as it is.
    pub again : c.visible ≡ false → t ≡ s
    -- One that is visible becomes hidden and loses its set of annotations.
    pub entry :
        c.visible ≡ true
        → (ci : CharInfo) × (lookup s.chars c.id ≡ some ci)
          × (lookup t.chars c.id ≡ some (record ci { visible = false; annotations = Keys.empty }))
    pub other_chars : (j : Id64) → c.id ≢ j → lookup t.chars j ≡ lookup s.chars j
    pub other_lines : is_line c ≡ false → t.line_breaks ≡ s.line_breaks
    pub attributes : t.attributes ≡ s.attributes
    pub attributes_by_type : t.attributes_by_type ≡ s.attributes_by_type
    pub annotations : t.annotations ≡ s.annotations
    pub annotations_by_type : t.annotations_by_type ≡ s.annotations_by_type
    pub graveyard : t.graveyard ≡ s.graveyard

module _ (s : AnnotatedString) (xs : List Cell) (c : Cell) (ys : List Cell)
    (text : IsText s (xs ++ c ∷ ys)) where
  abbrev l : List Cell
  l = begin_cell ∷ xs

  abbrev r : List Cell
  r = ys ++ end_cell ∷ []

  cut : (n : Cell) → enclosed (xs ++ n ∷ ys) ≡ l ++ n ∷ r
  cut n = ap (◌∷◌ begin_cell) (append_assoc xs (n ∷ ys) (end_cell ∷ []))

  IsStore-cut : IsStore s.chars (l ++ c ∷ r)
  IsStore-cut = subst (IsStore s.chars) (cut c) text.store

  IsLines-cut : IsLines s.line_breaks (l ++ c ∷ r)
  IsLines-cut = subst (IsLines s.line_breaks) (cut c) text.lines

  Distinct-cut : Distinct (ids l ++ c.id ∷ ids r)
  Distinct-cut = subst Distinct (ids-append l (c ∷ r)) IsStore-cut.distinct

  no_sentinel : (c.id ≢ begin_id) × (c.id ≢ end_id)
  no_sentinel =
      let d = Distinct-middle (ids l) c.id (ids r) Distinct-cut in
      (
        λ e. d.0.0 (sym e),
        (All-right _ (ids ys) (end_id ∷ []) (subst (All _) (ids-append ys (end_cell ∷ [])) d.1)).0,
      )

  hidden-not_line : is_line (hidden c) ≡ false
  hidden-not_line = ground (arith, no_sentinel)

  lines_hidden : line_ids (l ++ hidden c ∷ r) ≡ line_ids l ++ line_ids r
  lines_hidden = line_ids-append l (hidden c ∷ r) ∙ ap (◌++◌ (line_ids l)) skip
    where
      skip : line_ids (hidden c ∷ r) ≡ line_ids r
      skip = unfold line_ids in rw hidden-not_line

  -- A character that is no line break: the index stays.
  index_same : is_line c ≡ false → IsLines s.line_breaks (l ++ hidden c ∷ r)
  index_same e = record {
    linked = rw (lines_hidden, ← lines_now) IsLines-cut.linked;
    absent =
        λ j h. IsLines-cut.absent j (subst (All (λ x. x ≢ j)) (lines_hidden ∙ sym lines_now) h);
  }
    where
      skip : line_ids (c ∷ r) ≡ line_ids r
      skip = unfold line_ids in rw e

      lines_now : line_ids (l ++ c ∷ r) ≡ line_ids l ++ line_ids r
      lines_now = line_ids-append l (c ∷ r) ∙ ap (◌++◌ (line_ids l)) skip

  -- A line break: its entry goes.
  index_cut :
      is_line c ≡ true
      → (t : Avl LineBreak) × (remove_line_break s.line_breaks c.id ≡ ok t)
        × IsLines t (l ++ hidden c ∷ r)
  index_cut e =
      let (front, p, before) = snoc_of begin_id (line_ids xs) in
      let (q, rest, behind) = line_ids_end ys in
      let now = lines_now front p before q rest behind in
      let linked =
        subst (Linked (line_next_of s.line_breaks) (line_prev_of s.line_breaks)) now
          IsLines-cut.linked in
      let d = subst Distinct now (Distinct-line_ids _ IsStore-cut.distinct) in
      let k = neighbours s.line_breaks front p c.id q rest linked d in
      let then_ = lines_then front p before q rest behind in
      (
        unlinked s.line_breaks front p c.id q rest linked d k,
        remove_line_break_runs s.line_breaks front p c.id q rest linked d k,
        record {
          linked = rw then_ (unlinked-Linked s.line_breaks front p c.id q rest linked d k);
          absent = λ j h.
              unlinked_absent s.line_breaks front p c.id q rest linked d k
                (λ i g. IsLines-cut.absent i (subst (All (λ x. x ≢ i)) (sym now) g)) j
                (subst (All (λ x. x ≢ j)) then_ h);
        },
      )
    where
      keep : line_ids (c ∷ r) ≡ c.id ∷ line_ids r
      keep = unfold line_ids in rw e

      front_lines : line_ids l ≡ begin_id ∷ line_ids xs
      front_lines = unfold line_ids in refl

      lines_now :
          (front : List Id64) (p : Id64)
          → begin_id ∷ line_ids xs ≡ front ++ p ∷ []
          → (q : Id64) (rest : List Id64) → line_ids r ≡ q ∷ rest
          → line_ids (l ++ c ∷ r) ≡ front ++ p ∷ c.id ∷ q ∷ rest
      lines_now front p before q rest behind =
          line_ids-append l (c ∷ r)
          ∙ ap (◌++◌ (line_ids l)) (keep ∙ ap (◌∷◌ c.id) behind)
          ∙ ap (λ m. m ++ c.id ∷ q ∷ rest) (front_lines ∙ before)
          ∙ append_assoc front (p ∷ []) (c.id ∷ q ∷ rest)

      lines_then :
          (front : List Id64) (p : Id64)
          → begin_id ∷ line_ids xs ≡ front ++ p ∷ []
          → (q : Id64) (rest : List Id64) → line_ids r ≡ q ∷ rest
          → line_ids (l ++ hidden c ∷ r) ≡ front ++ p ∷ q ∷ rest
      lines_then front p before q rest behind =
          lines_hidden
          ∙ ap (◌++◌ (line_ids l)) behind
          ∙ ap (λ m. m ++ q ∷ rest) (front_lines ∙ before)
          ∙ append_assoc front (p ∷ []) (q ∷ rest)

  held_here : (ci : CharInfo) × (lookup s.chars c.id ≡ some ci) × (cell_of c.id ci ≡ c)
  held_here = Holds-lookup s.chars c (All-right _ l (c ∷ r) IsStore-cut.held).0

  stays : c.visible ≡ false → c ≡ hidden c
  stays e = λ i. record c { visible = e i }

  -- What is left of a visible character, with the index of line breaks as it is by then.
  hides :
      (ci : CharInfo) (lines : Avl LineBreak)
      → lookup s.chars c.id ≡ some ci
      → c.visible ≡ true
      → IsLines lines (l ++ hidden c ∷ r)
      → (is_line c ≡ false → lines ≡ s.line_breaks)
      → Deletes s xs c ys (record s {
        chars = add s.chars c.id (record ci { visible = false; annotations = Keys.empty });
        line_breaks = lines;
      })
  hides ci lines at_c seen index kept =
      let ci' = record ci { visible = false; annotations = Keys.empty } in
      record {
        well_formed = record {
          store =
              subst (IsStore (add s.chars c.id ci')) (sym (cut (hidden c)))
                (hidden-IsStore s.chars l c r ci IsStore-cut at_c);
          lines = rw (cut (hidden c)) index;
        };
        again = λ v. absurd (ground (arith, v, seen));
        entry = λ v. (ci, at_c, rw (lookup-add s.chars c.id ci' c.id) (rw (==_refl c.id) refl));
        other_chars = λ j n. rw (lookup-add s.chars c.id ci' j) (rw (==_ne c.id j n) refl);
        other_lines = kept;
        attributes = refl;
        attributes_by_type = refl;
        annotations = refl;
        annotations_by_type = refl;
        graveyard = refl;
      }

  stays_hidden : c.visible ≡ false → Deletes s xs c ys s
  stays_hidden e = record {
    well_formed = subst (λ x. IsText s (xs ++ x ∷ ys)) (stays e) text;
    again = λ v. refl;
    entry = λ v. absurd (ground (arith, v, e));
    other_chars = λ j n. refl;
    other_lines = λ n. refl;
    attributes = refl;
    attributes_by_type = refl;
    annotations = refl;
    annotations_by_type = refl;
    graveyard = refl;
  }

  -- Deleting a character of the document succeeds and leaves a well-formed text, whose line breaks
  -- follow, in which that character is hidden and has no annotations. Every other character's entry,
  -- the attributes, the annotations and the graveyard stay as they are, the line breaks too if it is
  -- none, and the whole text if the character is hidden already.
  pub delete_lem :
      (fuel : ℕ)
      → (t : AnnotatedString) × (integrate fuel s (record { id = c.id; body = delete }) ≡ ok t)
        × Deletes s xs c ys t
  unfolding integrate integrate_del_char
  delete_lem fuel =
      let (ci, at_c, same) = held_here in
      let visible = ap (λ (x : Cell). x.visible) same in
      let chr = ap (λ (x : Cell). x.chr) same in
      elim (Bool-cases ci.visible) [
        | inr e ↦ (s, rw at_c (rw e), stays_hidden (ground arith))
        | inl e ↦ elim (Bool-cases (ci.chr == newline)) [
          | inl n ↦
              let (lines', run, index) = index_cut (ground arith) in
              (
                _,
                rw at_c (rw e (rw n (rw run))),
                hides ci lines' at_c (ground arith) index (λ f. absurd (ground arith)),
              )
          | inr n ↦ (
            _,
            rw at_c (rw e (rw n)),
            hides ci s.line_breaks at_c (ground arith) (index_same (ground (arith, no_sentinel)))
                (λ f. refl),
          )
        ]
      ]
