-- ===== src/Text/Doc/Hide.antt =====
-- IntegrateDelChar on the store of characters and on the index of line breaks.

use ced.Base.{
  ◌≡◌, ◌≢◌, sym, ◌∙◌, fun_ext, false, none, some, List, [], ◌∷◌, ◌++◌, All, All-append, All-left,
  All-right, All-imp, arith, subst, ◌==◌, if◌then◌else◌, map_eq_some, Bool-cases, inl, inr,
}
use ced.Ids.{Id64}
use ced.Outcome.{ok}
use ced.Avl.Map.{Avl, lookup, add, remove, lookup-add, lookup-remove}
use ced.Avl.Set.Keys
use ced.Text.{CharInfo, LineBreak, line_break, remove_line_break}
use ced.Links.{Linked, Distinct, Distinct-middle, Linked-erase, Linked-split}
use ced.Text.Doc.{Cell, ids, ids-append, next_of, prev_of, Holds, IsStore}
use ced.Text.Doc.Lines.{line_next_of, line_prev_of}

abbrev pub hidden : Cell → Cell
hidden c = record c { visible = false }

module _ (chars : Avl CharInfo) (l : List Cell) (c : Cell) (r : List Cell) (ci : CharInfo)
    (st : IsStore chars (l ++ c ∷ r)) (at_c : lookup chars c.id ≡ some ci) where
  abbrev chars' : Avl CharInfo
  chars' = add chars c.id (record ci { visible = false; annotations = Keys.empty })

  lookup' :
      (j : Id64)
      → lookup chars' j ≡ (
          if c.id == j
          then some (record ci { visible = false; annotations = Keys.empty })
          else lookup chars j)
  lookup' j = lookup-add chars c.id (record ci { visible = false; annotations = Keys.empty }) j

  same_next : (j : Id64) → next_of chars' j ≡ next_of chars j
  same_next j = rw (lookup' j) (ground arith)

  same_prev : (j : Id64) → prev_of chars' j ≡ prev_of chars j
  same_prev j = rw (lookup' j) (ground arith)

  same_ids : ids (l ++ hidden c ∷ r) ≡ ids (l ++ c ∷ r)
  same_ids = ids-append l (hidden c ∷ r) ∙ sym (ids-append l (c ∷ r))

  others :
      (xs : List Cell) → All (λ x. c.id ≢ x) (ids xs) → All (Holds chars) xs → All (Holds chars') xs
  others [] d h = tt
  others (x ∷ xs) d h = (rw (lookup' x.id) (ground (arith, d.0, h.0)), others xs d.1 h.1)

  pub hidden-IsStore : IsStore chars' (l ++ hidden c ∷ r)
  hidden-IsStore =
      let d =
        Distinct-middle (ids l) c.id (ids r) (subst Distinct (ids-append l (c ∷ r)) st.distinct) in
      record {
        linked = rw (same_ids, fun_ext same_next, fun_ext same_prev) st.linked;
        distinct = rw same_ids st.distinct;
        held =
            All-append _ l (hidden c ∷ r)
              (others l (All-imp (λ x g e. g (sym e)) (ids l) d.0) (All-left _ l (c ∷ r) st.held))
              (
                rw (lookup' c.id) (ground (arith, (All-right _ l (c ∷ r) st.held).0)),
                others r d.1 (All-right _ l (c ∷ r) st.held).1,
              );
        absent = λ j h.
            let h' = subst (All (λ x. x ≢ j)) same_ids h in
            let g =
              (All-right _ (ids l) (c.id ∷ ids r)
                (subst (All (λ x. x ≢ j)) (ids-append l (c ∷ r)) h')).0 in
            rw (lookup' j) (ground (arith, g, st.absent j h'));
      }

-- Taking a line break out of the index.
module _ (lines : Avl LineBreak) (l : List Id64) (p n q : Id64) (r : List Id64)
    (linked : Linked (line_next_of lines) (line_prev_of lines) (l ++ p ∷ n ∷ q ∷ r))
    (distinct : Distinct (l ++ p ∷ n ∷ q ∷ r)) where
  links :
      (line_next_of lines p ≡ some n)
      × (line_prev_of lines n ≡ some p)
      × (line_next_of lines n ≡ some q)
      × (line_prev_of lines q ≡ some n)
  links =
      let s = (Linked-split (line_next_of lines) (line_prev_of lines) l p (n ∷ q ∷ r) linked).1 in
      (s.0.0, s.0.1, s.1.0.0, s.1.0.1)

  apart : (p ≢ n) × (p ≢ q) × (n ≢ q)
  apart = let d = Distinct-middle l p (n ∷ q ∷ r) distinct in (d.1.0, d.1.1.0, d.3.0.0)

  pub record Neighbours : Type 0 where
    pub plb : LineBreak
    pub nlb : LineBreak
    pub qlb : LineBreak
    pub at_p : lookup lines p ≡ some plb
    pub at_n : lookup lines n ≡ some nlb
    pub at_q : lookup lines q ≡ some qlb
    pub back : nlb.prev ≡ p
    pub onto : nlb.next ≡ q

  pub neighbours : Neighbours
  neighbours =
      let (plb, at_p, _) = map_eq_some _ (lookup lines p) links.0 in
      let (nlb, at_n, back) = map_eq_some _ (lookup lines n) links.1 in
      let (qlb, at_q, _) = map_eq_some _ (lookup lines q) links.3 in
      record {
        plb = plb;
        nlb = nlb;
        qlb = qlb;
        at_p = at_p;
        at_n = at_n;
        at_q = at_q;
        back = back;
        onto = onto nlb at_n links.2;
      }
    where
      onto :
          (lb : LineBreak) → lookup lines n ≡ some lb → line_next_of lines n ≡ some q → lb.next ≡ q
      onto lb e h = ground arith

  module _ (k : Neighbours) where
    pub unlinked : Avl LineBreak
    unlinked = add (add (remove lines n) p (line_break k.plb.prev q)) q (line_break p k.qlb.next)

    lookup-unlinked :
        (j : Id64)
        → lookup unlinked j ≡ (
            if q == j
            then some (line_break p k.qlb.next)
            else (if p == j
                then some (line_break k.plb.prev q)
                else (if n == j then none else lookup lines j)))
    unfolding unlinked
    lookup-unlinked j = rw (
      lookup-add _ q (line_break p k.qlb.next) j,
      lookup-add _ p (line_break k.plb.prev q) j,
      lookup-remove lines n j,
    )

    pub unlinked-Linked : Linked (line_next_of unlinked) (line_prev_of unlinked) (l ++ p ∷ q ∷ r)
    unlinked-Linked =
        Linked-erase (line_next_of lines) (line_prev_of lines) (line_next_of unlinked)
          (line_prev_of unlinked) l p n q r
          (λ x u v. rw (lookup-unlinked x) (ground (arith, k.at_q)))
          (λ x u v. rw (lookup-unlinked x) (ground (arith, k.at_p)))
          (
            rw (lookup-unlinked p) (ground (arith, apart)),
            rw (lookup-unlinked q) (ground (arith, apart)),
          )
          distinct linked

    pub unlinked_absent :
        ((j : Id64) → All (λ x. x ≢ j) (l ++ p ∷ n ∷ q ∷ r) → lookup lines j ≡ none)
        → (j : Id64) → All (λ x. x ≢ j) (l ++ p ∷ q ∷ r)
        → lookup unlinked j ≡ none
    unlinked_absent absent j h =
        let f = All-left _ l (p ∷ q ∷ r) h in
        let g = All-right _ l (p ∷ q ∷ r) h in
        elim (Bool-cases (n == j)) [
          | inl e ↦ rw (lookup-unlinked j) (ground (arith, g.0, g.1.0))
          | inr e ↦ rw (lookup-unlinked j) (
              ground (
                arith,
                g.0,
                g.1.0,
                absent j (All-append _ l (p ∷ n ∷ q ∷ r) f (g.0, ((λ x. ne x e), g.1))),
              ))
        ]
      where
        ne : n ≡ j → (n == j) ≡ false → ⊥
        ne x e = ground arith

    pub remove_line_break_runs : remove_line_break lines n ≡ ok unlinked
    unfolding remove_line_break unlinked
    remove_line_break_runs = rw k.at_n (rw k.back (rw k.at_p (rw k.onto (rw k.at_q))))
