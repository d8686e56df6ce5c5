-- ===== src/Text/Doc/Newline.antt =====
-- A new line break in the index, for a new newline of the document.

use ced.Base.{
  ℕ, ◌<◌, ◌≡◌, ◌≢◌, sym, ap, ◌∙◌, true, none, some, List, [], ◌∷◌, ◌++◌, All, All-append, All-left,
  All-right, arith, ◌==◌, if◌then◌else◌, subst, append_assoc,
}
use ced.Ids.{Id64}
use ced.Outcome.{ok}
use ced.Avl.Map.{Avl, lookup, add, lookup-add}
use ced.Text.{CharInfo, LineBreak, line_break, newline, insert_line_break}
use ced.Links.{Linked, Distinct, Linked-insert, Linked-split, Distinct-middle}
use ced.Text.Doc.{Cell, ids, inserted}
use ced.Text.Doc.Lines.{
  is_line, line_ids, line_ids-append, line_next_of, line_prev_of, IsLines, Found,
}

abbrev pub link_line : Avl LineBreak → Id64 → Id64 → Id64 → LineBreak → LineBreak → Avl LineBreak
link_line lines i q nb qlb nlb =
    add (add (add lines q (line_break qlb.prev i)) i (line_break q nb)) nb (line_break i nlb.next)

lookup-link_line :
    (lines : Avl LineBreak) (i q nb : Id64) (qlb nlb : LineBreak) (j : Id64)
    → lookup (link_line lines i q nb qlb nlb) j ≡ (
        if nb == j
        then some (line_break i nlb.next)
        else (if i == j
            then some (line_break q nb)
            else (if q == j then some (line_break qlb.prev i) else lookup lines j)))
lookup-link_line lines i q nb qlb nlb j = rw (
  lookup-add _ nb (line_break i nlb.next) j,
  lookup-add _ i (line_break q nb) j,
  lookup-add lines q (line_break qlb.prev i) j,
)

-- The index is a linked list, so a new member keeps it one.
module _ (lines : Avl LineBreak) (i : Id64) (l : List Id64) (q nb : Id64) (r : List Id64)
    (qlb nlb : LineBreak)
    (linked : Linked (line_next_of lines) (line_prev_of lines) (l ++ q ∷ nb ∷ r))
    (distinct : Distinct (l ++ q ∷ nb ∷ r)) (at_q : lookup lines q ≡ some qlb)
    (at_nb : lookup lines nb ≡ some nlb) (fresh : All (λ x. x ≢ i) (l ++ q ∷ nb ∷ r)) where
  abbrev lines' : Avl LineBreak
  lines' = link_line lines i q nb qlb nlb

  ends_ne : (q ≢ nb) × (q ≢ i) × (nb ≢ i)
  ends_ne =
      let d = Distinct-middle l q (nb ∷ r) distinct in
      let f = All-right _ l (q ∷ nb ∷ r) fresh in (d.1.0, f.0, f.1.0)

  pub link_line-Linked : Linked (line_next_of lines') (line_prev_of lines') (l ++ q ∷ i ∷ nb ∷ r)
  link_line-Linked =
      Linked-insert (line_next_of lines) (line_prev_of lines) (line_next_of lines')
        (line_prev_of lines') l q i nb r
        (λ x u v. rw (lookup-link_line lines i q nb qlb nlb x) (ground arith))
        (λ x u v. rw (lookup-link_line lines i q nb qlb nlb x) (ground arith))
        (
          rw (lookup-link_line lines i q nb qlb nlb q) (ground (arith, ends_ne)),
          rw (lookup-link_line lines i q nb qlb nlb i) (ground (arith, ends_ne)),
        )
        (
          rw (lookup-link_line lines i q nb qlb nlb i) (ground (arith, ends_ne)),
          rw (lookup-link_line lines i q nb qlb nlb nb) (ground (arith, ends_ne)),
        )
        fresh distinct linked

  pub link_line_absent :
      ((j : Id64) → All (λ x. x ≢ j) (l ++ q ∷ nb ∷ r) → lookup lines j ≡ none)
      → (j : Id64) → All (λ x. x ≢ j) (l ++ q ∷ i ∷ nb ∷ r)
      → lookup lines' j ≡ none
  link_line_absent absent j h =
      let f = All-left _ l (q ∷ i ∷ nb ∷ r) h in
      let g = All-right _ l (q ∷ i ∷ nb ∷ r) h in
      rw (lookup-link_line lines i q nb qlb nlb j)
        (ground (arith, g.0, g.1.0, g.1.1.0, absent j (All-append _ l (q ∷ nb ∷ r) f (g.0, g.1.1))))

pub All-line_ids {κ} :
    (P : Id64 → Type κ) (cells : List Cell) → All P (ids cells) → All P (line_ids cells)
unfolding line_ids
All-line_ids P [] h = tt
All-line_ids P (c ∷ cs) h = ground (arith, All-line_ids P cs h.1)

pub Distinct-line_ids : (cells : List Cell) → Distinct (ids cells) → Distinct (line_ids cells)
unfolding line_ids
Distinct-line_ids [] d = tt
Distinct-line_ids (c ∷ cs) d = ground (arith, Distinct-line_ids cs d.1, All-line_ids _ cs d.0)

-- What the store of links says of a pointer that it holds.
at_next :
    (lines : Avl LineBreak) (x y : Id64)
    → line_next_of lines x ≡ some y
    → (lb : LineBreak) × (lookup lines x ≡ some lb) × (lb.next ≡ y)
at_next lines x y h = ground arith

at_prev :
    (lines : Avl LineBreak) (x y : Id64)
    → line_prev_of lines x ≡ some y
    → (lb : LineBreak) × (lookup lines x ≡ some lb)
at_prev lines x y h = ground arith

-- The new index, where the search finds `q` and the document goes on to the line break `nb`.
module _ (fuel : ℕ) (chars : Avl CharInfo) (lines : Avl LineBreak) (i : Id64) (l : List Cell)
    (a : Cell) (rest : List Cell) (n : ℕ) (nb : Id64) (r : List Id64)
    (index : IsLines lines (l ++ a ∷ rest)) (distinct : Distinct (ids (l ++ a ∷ rest)))
    (fresh : All (λ x. x ≢ i) (ids (l ++ a ∷ rest)))
    (found : Found chars a.id (λ m. line_ids (l ++ a ∷ []) ++ m) n) (enough : n < fuel)
    (onward : line_ids rest ≡ nb ∷ r) where
  line_ids_split : line_ids (l ++ a ∷ rest) ≡ found.front ++ found.q ∷ nb ∷ r
  line_ids_split =
      ap line_ids (sym (append_assoc l (a ∷ []) rest))
      ∙ line_ids-append (l ++ a ∷ []) rest
      ∙ found.lines_eq (line_ids rest)
      ∙ ap (λ m. found.front ++ found.q ∷ m) onward

  abbrev new : Id64 → Cell
  new b = inserted i newline a.id b

  -- The new newline is a line, whatever its ID.
  new-is_line : (b : Id64) → is_line (new b) ≡ true
  new-is_line b = ground arith

  new_split : (b : Id64) → line_ids (l ++ a ∷ new b ∷ rest) ≡ found.front ++ found.q ∷ i ∷ nb ∷ r
  new_split b =
      ap line_ids (sym (append_assoc l (a ∷ []) (new b ∷ rest)))
      ∙ line_ids-append (l ++ a ∷ []) (new b ∷ rest)
      ∙ found.lines_eq (line_ids (new b ∷ rest))
      ∙ ap (λ m. found.front ++ found.q ∷ m) (unfold line_ids in rw (new-is_line b, onward))

  linked : Linked (line_next_of lines) (line_prev_of lines) (found.front ++ found.q ∷ nb ∷ r)
  linked = subst (Linked (line_next_of lines) (line_prev_of lines)) line_ids_split index.linked

  pub insert_line_break-IsLines :
      (b : Id64)
      → (t : Avl LineBreak) × (insert_line_break fuel chars lines i a.id ≡ ok t)
        × IsLines t (l ++ a ∷ inserted i newline a.id b ∷ rest)
  unfolding insert_line_break
  insert_line_break-IsLines b =
      let q = found.q in
      let pair =
        (Linked-split (line_next_of lines) (line_prev_of lines) found.front q (nb ∷ r)
          linked).1.0 in
      let (qlb, at_q, onto) = at_next lines q nb pair.0 in
      let (nlb, at_nb) = at_prev lines nb q pair.1 in
      let d = subst Distinct line_ids_split (Distinct-line_ids _ distinct) in
      let f = subst (All (λ x. x ≢ i)) line_ids_split (All-line_ids _ _ fresh) in
      (
        link_line lines i q nb qlb nlb,
        rw (found.finds fuel (omega (arith, found.few, enough))) (rw at_q (rw onto (rw at_nb))),
        record {
          linked =
              rw (new_split b)
                (link_line-Linked lines i found.front q nb r qlb nlb linked d at_q at_nb f);
          absent = λ j h.
              link_line_absent lines i found.front q nb r qlb nlb linked d at_q at_nb f
                (λ k g. index.absent k (subst (All (λ x. x ≢ k)) (sym line_ids_split) g)) j
                (subst (All (λ x. x ≢ j)) (new_split b) h);
        },
      )
