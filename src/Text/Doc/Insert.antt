-- ===== src/Text/Doc/Insert.antt =====
-- IntegrateInsertChar on a text that holds a document, where the two characters that an insertion
-- names are neighbours.
use ced.Base.{
  ℕ, suc, ◌<◌, ◌≡◌, ◌≢◌, sym, ap, ◌∙◌, refl, false, some, List, [], ◌∷◌, ◌++◌, All, All-left,
  All-right, arith, ◌==◌, subst, append_assoc, length, Bool-cases, inl, inr, ==_refl,
}
use ced.Ids.{Id64, begin_id, end_id}
use ced.Outcome.{ok}
use ced.Avl.Map.{Avl, lookup}
use ced.Text.{AnnotatedString, CharInfo, newline, insert_adjacent, insert_char, link_char}
use ced.Links.{Linked, Distinct, Linked-split}
use ced.Text.Doc.{
  Cell, ids, ids-append, next_of, prev_of, Holds, Holds-lookup, IsStore, begin_cell, end_cell,
  enclosed, inserted,
}
use ced.Text.Doc.Link.{link_char-IsStore}
use ced.Text.Doc.Lines.{is_line, line_ids, line_ids-append, IsLines, Found, Finds-begin, scan}
use ced.Text.Doc.Newline.{insert_line_break-IsLines}

-- The text holds the document whose characters between the sentinels are `mid`.
pub record IsText (s : AnnotatedString) (mid : List Cell) : Type 0 where
  pub store : IsStore s.chars (enclosed mid)
  pub lines : IsLines s.line_breaks (enclosed mid)

-- The last of `c` and `xs`, and the first of `ys` and End.
abbrev pub last_cell : Cell → List Cell → Cell
last_cell c [] = c
last_cell c (x ∷ xs) = last_cell x xs

abbrev pub first_cell : List Cell → Cell
first_cell [] = end_cell
first_cell (y ∷ _) = y

abbrev pub rest_cells : List Cell → List Cell
rest_cells [] = []
rest_cells (_ ∷ ys) = ys ++ end_cell ∷ []

pub first_rest : (ys : List Cell) → ys ++ end_cell ∷ [] ≡ first_cell ys ∷ rest_cells ys
first_rest [] = refl
first_rest (y ∷ ys) = refl

abbrev pub init_cells : Cell → List Cell → List Cell
init_cells c [] = []
init_cells c (x ∷ xs) = c ∷ init_cells x xs

init_last : (c : Cell) (xs : List Cell) → c ∷ xs ≡ init_cells c xs ++ last_cell c xs ∷ []
init_last c [] = refl
init_last c (x ∷ xs) = ap (◌∷◌ c) (init_last x xs)

length-init_cells : (c : Cell) (xs : List Cell) → length (init_cells c xs) ≡ length xs
length-init_cells c [] = refl
length-init_cells c (x ∷ xs) = ap suc (length-init_cells x xs)

-- The document cut at a place: the part before, the last character of it, and the part after.
pub cut :
    (xs ys : List Cell)
    → enclosed (xs ++ ys)
      ≡ init_cells begin_cell xs ++ last_cell begin_cell xs ∷ first_cell ys ∷ rest_cells ys
cut xs ys =
    ap (◌∷◌ begin_cell) (append_assoc xs ys (end_cell ∷ []))
    ∙ ap (λ m. begin_cell ∷ xs ++ m) (first_rest ys)
    ∙ ap (λ m. m ++ first_cell ys ∷ rest_cells ys) (init_last begin_cell xs)
    ∙ append_assoc (init_cells begin_cell xs) (last_cell begin_cell xs ∷ []) _

-- End closes the list of the line breaks behind any place.
pub line_ids_end :
    (zs : List Cell) → (nb : Id64) × (r : List Id64) × (line_ids (zs ++ end_cell ∷ []) ≡ nb ∷ r)
unfolding line_ids
line_ids_end [] = (end_id, [], refl)
line_ids_end (z ∷ zs) =
    let (nb, r, e) = line_ids_end zs in
    elim (Bool-cases (is_line z)) [
      | inl b ↦ (z.id, line_ids (zs ++ end_cell ∷ []), rw b)
      | inr b ↦ (nb, r, rw b e)
    ]

onward :
    (ys : List Cell)
    → (nb : Id64) × (r : List Id64) × (line_ids (first_cell ys ∷ rest_cells ys) ≡ nb ∷ r)
onward ys = let (nb, r, e) = line_ids_end ys in (nb, r, ap line_ids (sym (first_rest ys)) ∙ e)

pub before_end :
    (zs : List Cell) → Distinct (ids (zs ++ end_cell ∷ [])) → All (λ c. c.id ≢ end_id) zs
before_end [] d = tt
before_end (z ∷ zs) d = (
  (All-right _ (ids zs) (end_id ∷ []) (subst (All _) (ids-append zs (end_cell ∷ [])) d.0)).0,
  before_end zs d.1,
)

found_at :
    (chars : Avl CharInfo) (xs : List Cell)
    → let front = init_cells begin_cell xs ++ last_cell begin_cell xs ∷ [] in
      Linked (next_of chars) (prev_of chars) (ids front)
      → All (Holds chars) front
      → All (λ c. c.id ≢ end_id) front
      → Found chars (last_cell begin_cell xs).id (λ m. line_ids front ++ m) (length xs)
unfolding line_ids
found_at chars [] k h e = record {
  q = begin_id;
  front = [];
  steps = 0;
  finds = Finds-begin chars;
  lines_eq = λ rest. refl;
  few = omega arith;
}
found_at chars (x ∷ xs) k h e =
    let t =
      scan chars (init_cells x xs) begin_id begin_id 0 [] (last_cell x xs) k h.1 e.1
        (Finds-begin chars) in
    record {
      q = t.q;
      front = t.front;
      steps = t.steps;
      finds = t.finds;
      lines_eq = t.lines_eq;
      few = omega (arith, t.few, length-init_cells x xs);
    }

module _ (s : AnnotatedString) (xs ys : List Cell) (text : IsText s (xs ++ ys)) where
  abbrev l : List Cell
  l = init_cells begin_cell xs

  abbrev a : Cell
  a = last_cell begin_cell xs

  abbrev b : Cell
  b = first_cell ys

  abbrev r : List Cell
  r = rest_cells ys

  IsStore-cut : IsStore s.chars (l ++ a ∷ b ∷ r)
  IsStore-cut = subst (IsStore s.chars) (cut xs ys) text.store

  IsLines-cut : IsLines s.line_breaks (l ++ a ∷ b ∷ r)
  IsLines-cut = subst (IsLines s.line_breaks) (cut xs ys) text.lines

  regroup : (m : List Cell) → (l ++ a ∷ []) ++ m ≡ l ++ a ∷ m
  regroup m = append_assoc l (a ∷ []) m

  -- The part up to the place: linked, held, and without End.
  front-Linked : Linked (next_of s.chars) (prev_of s.chars) (ids (l ++ a ∷ []))
  front-Linked =
      rw (ids-append l (a ∷ []))
        (Linked-split (next_of s.chars) (prev_of s.chars) (ids l) a.id (b.id ∷ ids r) (
          subst (Linked (next_of s.chars) (prev_of s.chars)) (ids-append l (a ∷ b ∷ r))
            IsStore-cut.linked)).0

  front_held : All (Holds s.chars) (l ++ a ∷ [])
  front_held =
      All-left (Holds s.chars) (l ++ a ∷ []) (b ∷ r)
        (subst (All (Holds s.chars)) (sym (regroup (b ∷ r))) IsStore-cut.held)

  front_not_end : All (λ c. c.id ≢ end_id) (l ++ a ∷ [])
  front_not_end =
      subst (All (λ c. c.id ≢ end_id)) (init_last begin_cell xs)
        (All-left _ (begin_cell ∷ xs) ys (before_end (begin_cell ∷ xs ++ ys) text.store.distinct))

  -- Where the search for the line break before the place ends.
  found : Found s.chars a.id (λ m. line_ids (l ++ a ∷ []) ++ m) (length xs)
  found = found_at s.chars xs front-Linked front_held front_not_end

  -- The same cut, of the document with a character at the place.
  cut_new : (n : Cell) → enclosed (xs ++ n ∷ ys) ≡ l ++ a ∷ n ∷ b ∷ r
  cut_new n =
      ap (◌∷◌ begin_cell) (append_assoc xs (n ∷ ys) (end_cell ∷ []))
      ∙ ap (λ m. begin_cell ∷ xs ++ n ∷ m) (first_rest ys)
      ∙ ap (λ m. m ++ n ∷ b ∷ r) (init_last begin_cell xs)
      ∙ regroup (n ∷ b ∷ r)

  pub ends_held :
      ((ci : CharInfo) × (lookup s.chars a.id ≡ some ci) × (ci.next ≡ b.id))
      × ((ci : CharInfo) × (lookup s.chars b.id ≡ some ci))
  ends_held =
      let right = All-right _ l (a ∷ b ∷ r) IsStore-cut.held in
      let (caft, at_a, _) = Holds-lookup s.chars a right.0 in
      let (cbef, at_b, _) = Holds-lookup s.chars b right.1.0 in
      let link =
        (Linked-split (next_of s.chars) (prev_of s.chars) (ids l) a.id (b.id ∷ ids r) (
          subst (Linked (next_of s.chars) (prev_of s.chars)) (ids-append l (a ∷ b ∷ r))
            IsStore-cut.linked)).1.0.0 in
      ((caft, at_a, next_at caft at_a link), (cbef, at_b))
    where
      next_at :
          (ci : CharInfo)
          → lookup s.chars a.id ≡ some ci
          → next_of s.chars a.id ≡ some b.id
          → ci.next ≡ b.id
      next_at ci e h = ground arith

  module _ (i : Id64) (c : ℕ) (fresh : All (λ x. x ≢ i) (ids (enclosed (xs ++ ys)))) where
    abbrev new : Cell
    new = inserted i c a.id b.id

    fresh_cut : All (λ x. x ≢ i) (ids (l ++ a ∷ b ∷ r))
    fresh_cut = subst (λ m. All (λ x. x ≢ i) (ids m)) (cut xs ys) fresh

    new_not_line : (c == newline) ≡ false → is_line new ≡ false
    new_not_line e =
        let f = fresh.0 in
        let g =
          (All-right _ (ids (begin_cell ∷ xs ++ ys)) (end_id ∷ []) (
            subst (All (λ x. x ≢ i)) (ids-append (begin_cell ∷ xs ++ ys) (end_cell ∷ []))
              fresh)).0 in
        ground (arith, f, g)

    skip_new : (c == newline) ≡ false → line_ids (new ∷ b ∷ r) ≡ line_ids (b ∷ r)
    unfolding line_ids
    skip_new e = rw (new_not_line e)

    -- A character that is no newline leaves the index as it is.
    same_lines :
        (c == newline) ≡ false → line_ids (l ++ a ∷ new ∷ b ∷ r) ≡ line_ids (l ++ a ∷ b ∷ r)
    same_lines e =
        ap line_ids (sym (regroup (new ∷ b ∷ r)))
        ∙ line_ids-append (l ++ a ∷ []) (new ∷ b ∷ r)
        ∙ ap (◌++◌ (line_ids (l ++ a ∷ []))) (skip_new e)
        ∙ sym (line_ids-append (l ++ a ∷ []) (b ∷ r))
        ∙ ap line_ids (regroup (b ∷ r))

    -- An insertion between the neighbours at the place.
    pub insert_adjacent_lem :
        (fuel : ℕ) (caft cbef : CharInfo)
        → length xs < fuel
        → lookup s.chars a.id ≡ some caft
        → lookup s.chars b.id ≡ some cbef
        → (t : AnnotatedString) × (insert_adjacent fuel s i c a.id b.id caft cbef ≡ ok t)
          × IsText t (xs ++ new ∷ ys)
    unfolding insert_adjacent
    insert_adjacent_lem fuel caft cbef h at_a at_b =
        let chars' = link_char s.chars i c a.id b.id caft cbef in
        let store' =
          link_char-IsStore s.chars i c l a b r caft cbef IsStore-cut at_a at_b fresh_cut in
        elim (Bool-cases (c == newline)) [
          | inl e ↦
              let (nb, m, on) = onward ys in
              let is_newline : c ≡ newline = ground arith in
              let (lines', run, index) =
                insert_line_break-IsLines fuel s.chars s.line_breaks i l a (b ∷ r) (length xs) nb m
                  IsLines-cut IsStore-cut.distinct fresh_cut found h on b.id in
              (
                record s { chars = chars'; line_breaks = lines' },
                rw e (rw run),
                record {
                  store = rw (cut_new new) store';
                  lines = rw (cut_new new) (
                      subst (λ k. IsLines lines' (l ++ a ∷ inserted i k a.id b.id ∷ b ∷ r))
                        (sym is_newline) index);
                },
              )
          | inr e ↦ (
            record s { chars = chars' },
            rw e,
            record {
              store = rw (cut_new new) store';
              lines = rw (cut_new new) (record {
                linked = rw (same_lines e) IsLines-cut.linked;
                absent = λ j g. IsLines-cut.absent j (subst (All (λ x. x ≢ j)) (same_lines e) g);
              });
            },
          )
        ]

    -- One round of IntegrateInsertChar is enough there.
    pub insert_char_lem :
        (fuel rounds : ℕ)
        → length xs < fuel
        → (t : AnnotatedString) × (insert_char fuel (suc rounds) s i c a.id b.id ≡ ok t)
          × IsText t (xs ++ new ∷ ys)
    unfolding insert_char
    insert_char_lem fuel rounds h =
        let ((caft, at_a, onto), (cbef, at_b)) = ends_held in
        let (t, run, text') = insert_adjacent_lem fuel caft cbef h at_a at_b in
        (t, rw at_a (rw at_b (rw onto (rw (==_refl b.id) run))), text')
