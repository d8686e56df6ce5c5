-- ===== src/Text/Doc/LineOf.antt =====
-- LineIterator's constructor on a text that holds a document: it goes back to the line break of the
-- line that a character is on.
use ced.Base.{
  ℕ, zero, suc, ◌+◌, ◌<◌, ◌≡◌, ◌≢◌, ap, refl, sym, subst, some, none, true, false, List, [], ◌∷◌,
  ◌++◌, All, All-left, All-append, All-imp, arith, if◌then◌else◌, length, ==_ne, Bool-cases, inl,
  inr, append_assoc, ◌∙◌, map_eq_some,
}
use ced.Ids.{Id64, begin_id, end_id}
use ced.Outcome.{ok, ◌>>=◌}
use ced.Avl.Map.{lookup}
use ced.Text.{AnnotatedString, LineBreak}
use ced.Text.Iterate.{iterator, iter_prev, all_prev, settle_prev, settle_line, line_iterator}
use ced.Links.{Linked, Linked-split, Distinct, Distinct-middle}
use ced.Text.Doc.{
  Cell, ids, ids-append, begin_cell, end_cell, enclosed, next_of, prev_of, Holds, Holds-lookup,
}
use ced.Text.Doc.Lines.{is_line, line_ids, line_ids-append, IsLines, line_next_of, line_prev_of}
use ced.Text.Doc.Newline.{All-line_ids}
use ced.Text.Doc.Insert.{IsText, line_ids_end, before_end}

-- The line that is reached along the cells, from the line `q` on.
unfoldable pub line_at : Id64 → List Cell → Id64
line_at q [] = q
line_at q (z ∷ zs) = line_at (if is_line z then z.id else q) zs

unfoldable pub last_id : Id64 → List Cell → Id64
last_id y [] = y
last_id y (z ∷ zs) = last_id z.id zs

module _ (s : AnnotatedString) where
  -- The index has the cell exactly if it is a line break.
  pub record Indexed (c : Cell) : Type 0 where
    pub breaks : is_line c ≡ true → (lb : LineBreak) × (lookup s.line_breaks c.id ≡ some lb)
    pub else_none : is_line c ≡ false → lookup s.line_breaks c.id ≡ none

  -- From `x` the iterator goes back to `q`, with more fuel than `n` for each of its loops.
  abbrev pub Goes : Id64 → Id64 → ℕ → Type 0
  Goes x q n =
      (g f r : ℕ) → n < g → n < f → n < r → (settle_prev g s x >>= λ p. settle_line f r s p) ≡ ok q

  Goes-step :
      (z : Cell) (y q : Id64) (n : ℕ)
      → prev_of s.chars z.id ≡ some y
      → Holds s.chars z
      → z.id ≢ begin_id
      → z.id ≢ end_id
      → Indexed z
      → Goes y q n
      → Goes z.id (if is_line z then z.id else q) (suc n)
  unfolding settle_prev settle_line iter_prev all_prev
  Goes-step z y q n b h nb ne i k zero f r p p' p'' = absurd (omega arith)
  Goes-step z y q n b h nb ne i k (suc g) f zero p p' p'' = absurd (omega arith)
  Goes-step z y q n b h nb ne i k (suc g) f (suc r) p p' p'' =
      let (ci, at_z, same) = Holds-lookup s.chars z h in
      let back : some ci.prev ≡ some y = rw at_z at b in
      let onto : ci.prev ≡ y = ground (arith, back) in
      let vis : ci.visible ≡ z.visible = ap (λ (x : Cell). x.visible) same in
      elim (Bool-cases (is_line z)) [
        | inl t ↦
            let (lb, e) = i.breaks t in
            let v : z.visible ≡ true = ground (arith, t) in
            rw t (rw (==_ne z.id begin_id nb) (rw at_z (rw vis (rw v (rw (e, settle_line) refl)))))
        | inr t ↦ elim (Bool-cases z.visible) [
          | inl v ↦ rw t (
              rw (==_ne z.id begin_id nb) (
                rw at_z (
                  rw vis (
                    rw v (
                      rw (i.else_none t, settle_line)
                        (rw (==_ne z.id begin_id nb) (
                          rw at_z
                            (rw onto (k f f r (omega arith) (omega arith) (omega arith))))))))))
          | inr v ↦ rw t (
              rw (==_ne z.id begin_id nb) (
                rw at_z (
                  rw vis
                    (rw v (rw onto (k g f (suc r) (omega arith) (omega arith) (omega arith)))))))
        ]
      ]

  -- Along the document from `y`; `more` is what follows.
  Goes-along :
      (zs more : List Cell) (y q : Id64) (n : ℕ)
      → Linked (next_of s.chars) (prev_of s.chars) (y ∷ ids (zs ++ more))
      → All (Holds s.chars) (zs ++ more)
      → All (λ z. (z.id ≢ begin_id) × (z.id ≢ end_id)) zs
      → All Indexed zs
      → Goes y q n
      → Goes (last_id y zs) (line_at q zs) (n + length zs)
  unfolding last_id line_at
  Goes-along [] more y q n l h e i k g f r p p' p'' =
      k g f r (omega arith) (omega arith) (omega arith)
  Goes-along (z ∷ zs) more y q n l h e i k g f r p p' p'' =
      Goes-along zs more z.id (if is_line z then z.id else q) (suc n) l.1 h.1 e.1 i.1
        (Goes-step z y q n l.0.1 h.0 e.0.0 e.0.1 i.0 k) g f r (omega arith) (omega arith)
        (omega arith)

  Goes-begin : Indexed begin_cell → Goes begin_id begin_id 0
  unfolding settle_prev settle_line
  Goes-begin i zero f r p p' p'' = absurd (omega arith)
  Goes-begin i (suc g) f zero p p' p'' = absurd (omega arith)
  Goes-begin i (suc g) f (suc r) p p' p'' = let (lb, e) = i.breaks refl in rw (e, settle_line) refl

  line_ids_break :
      (z : Cell) (zs : List Cell) → is_line z ≡ true → line_ids (z ∷ zs) ≡ z.id ∷ line_ids zs
  unfolding line_ids
  line_ids_break z zs t = rw t

  line_ids_skip : (z : Cell) (zs : List Cell) → is_line z ≡ false → line_ids (z ∷ zs) ≡ line_ids zs
  unfolding line_ids
  line_ids_skip z zs t = rw t

  cell_Indexed :
      (front : List Cell) (z : Cell) (zs : List Cell)
      → IsLines s.line_breaks (front ++ z ∷ (zs ++ end_cell ∷ []))
      → Distinct (ids (front ++ z ∷ (zs ++ end_cell ∷ [])))
      → Indexed z
  cell_Indexed front z zs l d = record { breaks = at_break; else_none = missing }
    where
      back : List Cell
      back = zs ++ end_cell ∷ []

      at_break : is_line z ≡ true → (lb : LineBreak) × (lookup s.line_breaks z.id ≡ some lb)
      at_break t =
          let (nb, r, e) = line_ids_end zs in
          let split : line_ids (front ++ z ∷ back) ≡ line_ids front ++ z.id ∷ nb ∷ r =
            line_ids-append front (z ∷ back)
            ∙ ap (λ m. line_ids front ++ m) (line_ids_break z back t ∙ ap (◌∷◌ z.id) e) in
          let linked =
            subst (Linked (line_next_of s.line_breaks) (line_prev_of s.line_breaks)) split
              l.linked in
          let k =
            Linked-split (line_next_of s.line_breaks) (line_prev_of s.line_breaks) (line_ids front)
              z.id (nb ∷ r) linked in
          let (lb, found, _) =
            map_eq_some (λ (lb : LineBreak). lb.next) (lookup s.line_breaks z.id) k.1.0.0 in
          (lb, found)

      missing : is_line z ≡ false → lookup s.line_breaks z.id ≡ none
      missing t =
          let m =
            Distinct-middle (ids front) z.id (ids back)
              (subst Distinct (ids-append front (z ∷ back)) d) in
          let split : line_ids (front ++ z ∷ back) ≡ line_ids front ++ line_ids back =
            line_ids-append front (z ∷ back)
            ∙ ap (λ m. line_ids front ++ m) (line_ids_skip z back t) in
          let others =
            All-append _ (line_ids front) (line_ids back) (All-line_ids (λ x. x ≢ z.id) front m.0)
              (All-line_ids (λ x. x ≢ z.id) back (All-imp (λ x u v. u (sym v)) (ids back) m.1)) in
          l.absent z.id (subst (All (λ x. x ≢ z.id)) (sym split) others)

  all_Indexed :
      (front zs : List Cell)
      → IsLines s.line_breaks (front ++ (zs ++ end_cell ∷ []))
      → Distinct (ids (front ++ (zs ++ end_cell ∷ [])))
      → All Indexed zs
  all_Indexed front [] l d = tt
  all_Indexed front (z ∷ zs) l d =
      let e : front ++ z ∷ (zs ++ end_cell ∷ []) ≡ (front ++ z ∷ []) ++ (zs ++ end_cell ∷ []) =
        sym (append_assoc front (z ∷ []) (zs ++ end_cell ∷ [])) in
      (
        cell_Indexed front z zs l d,
        all_Indexed (front ++ z ∷ []) zs (subst (IsLines s.line_breaks) e l)
            (subst (λ m. Distinct (ids m)) e d),
      )

  behind_begin :
      (zs more : List Cell)
      → All (λ i. begin_id ≢ i) (ids (zs ++ more))
      → All (λ z. z.id ≢ begin_id) zs
  behind_begin [] more p = tt
  behind_begin (z ∷ zs) more p = (λ e. p.0 (sym e), behind_begin zs more p.1)

  -- What holds of a character of the document by its place alone.
  pub inner_ids :
      (mid : List Cell)
      → Distinct (ids (enclosed mid))
      → All (λ z. (z.id ≢ begin_id) × (z.id ≢ end_id)) mid
  inner_ids mid d = both mid (behind_begin mid (end_cell ∷ []) d.0) (before_end mid d.1)
    where
      both :
          (zs : List Cell)
          → All (λ z. z.id ≢ begin_id) zs
          → All (λ z. z.id ≢ end_id) zs
          → All (λ z. (z.id ≢ begin_id) × (z.id ≢ end_id)) zs
      both [] p q = tt
      both (z ∷ zs) p q = ((p.0, q.0), both zs p.1 q.1)

  -- At the end of the characters `xs`, which start the document, LineIterator is at their last line.
  pub line_iterator_lem :
      (xs ys : List Cell) (fuel : ℕ)
      → IsText s (xs ++ ys)
      → length xs < fuel
      → line_iterator fuel s (last_id begin_id xs) ≡ ok (line_at begin_id xs)
  unfolding line_iterator iterator
  line_iterator_lem xs ys fuel text h =
      let i = all_Indexed [] (begin_cell ∷ (xs ++ ys)) text.lines text.store.distinct in
      let e = append_assoc xs ys (end_cell ∷ []) in
      let go =
        Goes-along xs (ys ++ end_cell ∷ []) begin_id begin_id 0
          (subst (λ m. Linked (next_of s.chars) (prev_of s.chars) (begin_id ∷ ids m)) e
            text.store.linked)
          (subst (All (Holds s.chars)) e text.store.held.1)
          (All-left _ xs ys (inner_ids (xs ++ ys) text.store.distinct)) (All-left _ xs ys i.1)
          (Goes-begin i.0) in
      go fuel fuel fuel (omega arith) (omega arith) (omega arith)
