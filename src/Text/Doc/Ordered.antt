-- ===== src/Text/Doc/Ordered.antt =====
-- OrderIDs agrees with the order of the document.
use ced.Base.{
  ℕ, suc, ◌<◌, ◌≤◌, ◌≡◌, ◌≢◌, ap, refl, sym, subst, List, [], ◌∷◌, ◌++◌, All, All-left, All-right,
  All-imp, arith, length, length-append, ==_ne, ==_refl, Bool-cases, inl, inr, append_assoc, ◌∙◌,
  ◌==◌, lt, eq, gt,
}
use ced.Ids.{Id64, begin_id, end_id}
use ced.Outcome.{ok}
use ced.Text.{AnnotatedString}
use ced.Text.Iterate.{other_line, order_lines, order_ids, line_iterator}
use ced.Links.{Distinct, Distinct-middle}
use ced.Text.Doc.{Cell, ids, ids-append, begin_cell, end_cell}
use ced.Text.Doc.Lines.{line_ids}
use ced.Text.Doc.Insert.{IsText}
use ced.Text.Doc.Walk.{whole, rest}
use ced.Text.Doc.LineOf.{line_at, last_id, inner_ids, line_iterator_lem}
use ced.Text.Doc.Order.{ahead, behind, Meets, Meets-along, Meets-line_at}
use ced.Text.Doc.Climb.{
  cross, All-both, All-unit, cross_back, of_ids, line_at-append, last_id-append, line_at_either,
  LinesFrom, LinesFrom-line_at, climb, way, way_end,
}

-- Two characters `a` and `b` of a document, which ends with `zs`.
module _ (s : AnnotatedString) (xs : List Cell) (a : Cell) (ys : List Cell) (b : Cell)
    (zs : List Cell) (text : IsText s ((xs ++ a ∷ []) ++ ((ys ++ b ∷ []) ++ zs))) where
  abbrev front : List Cell
  front = xs ++ a ∷ []

  abbrev middle : List Cell
  middle = ys ++ b ∷ []

  abbrev back : List Cell
  back = zs ++ end_cell ∷ []

  abbrev line_a : Id64
  line_a = line_at begin_id front

  abbrev line_b : Id64
  line_b = line_at line_a middle

  split : (front ++ (middle ++ zs)) ++ end_cell ∷ [] ≡ front ++ (middle ++ back)
  split =
      append_assoc front (middle ++ zs) (end_cell ∷ [])
      ∙ ap (λ m. front ++ m) (append_assoc middle zs (end_cell ∷ []))

  split_ids : ids (front ++ (middle ++ back)) ≡ ids front ++ (ids middle ++ ids back)
  split_ids = ids-append front (middle ++ back) ∙ ap (λ m. ids front ++ m) (ids-append middle back)

  distinct : Distinct (begin_id ∷ (ids front ++ (ids middle ++ ids back)))
  distinct = subst (λ m. Distinct (begin_id ∷ m)) (ap ids split ∙ split_ids) text.store.distinct

  lines0 : LinesFrom s (begin_id ∷ line_ids (front ++ (middle ++ back)))
  unfolding line_ids
  lines0 = subst (λ m. LinesFrom s (begin_id ∷ line_ids m)) split text.lines.linked

  lines1 : LinesFrom s (line_a ∷ line_ids (middle ++ back))
  lines1 = LinesFrom-line_at s front (middle ++ back) begin_id lines0

  lines2 : LinesFrom s (line_b ∷ line_ids back)
  lines2 = LinesFrom-line_at s middle back line_a lines1

  ne_begin : All (λ i. i ≢ begin_id) (ids front ++ (ids middle ++ ids back))
  ne_begin = All-imp (λ i h e. h (sym e)) _ distinct.0

  ne_end : All (λ i. i ≢ end_id) (ids front ++ (ids middle ++ ids zs))
  ne_end =
      let f = ids front in
      let m = ids middle in
      let e : f ++ (m ++ ids back) ≡ (f ++ (m ++ ids zs)) ++ end_id ∷ [] =
        ap (λ r. f ++ (m ++ r)) (ids-append zs (end_cell ∷ []))
        ∙ ap (λ r. f ++ r) (sym (append_assoc m (ids zs) (end_id ∷ [])))
        ∙ sym (append_assoc f (m ++ ids zs) (end_id ∷ [])) in
      (Distinct-middle (f ++ (m ++ ids zs)) end_id [] (subst Distinct e distinct.1)).0

  -- What holds of Begin and the front holds of the first line, and what holds of the middle holds of
  -- the second, if it is another one.
  of_line_a : (P : Id64 → Type 0) → P begin_id → All P (ids front) → P line_a
  of_line_a P p a' = elim (line_at_either P begin_id front a') [
    | inl e ↦ subst P (sym e) p
    | inr q ↦ q
  ]

  of_line_b : (P : Id64 → Type 0) → line_a ≢ line_b → All P (ids middle) → P line_b
  of_line_b P n a' = elim (line_at_either P line_a middle a') [
    | inl e ↦ absurd (n (sym e))
    | inr q ↦ q
  ]

  line_a-ne-end : line_a ≢ end_id
  line_a-ne-end =
      of_line_a (λ i. i ≢ end_id) (λ e. absurd (omega arith))
        (All-left _ (ids front) (ids middle ++ ids zs) ne_end)

  apart_from_back : All (λ i. All (λ x. x ≢ i) (ids middle ++ ids back)) (begin_id ∷ ids front)
  apart_from_back = cross (begin_id ∷ ids front) (ids middle ++ ids back) distinct

  line_a-apart : All (λ x. x ≢ line_a) (ids middle ++ ids back)
  line_a-apart =
      of_line_a (λ i. All (λ x. x ≢ i) (ids middle ++ ids back)) apart_from_back.0 apart_from_back.1

  lines_ahead :
      (fuel : ℕ)
      → line_a ≢ line_b
      → length middle ≤ fuel
      → other_line fuel s line_a line_a line_b ≡ ok lt
  lines_ahead fuel n h =
      let before =
        of_line_b (λ i. All (λ x. x ≢ i) (begin_id ∷ ids front)) n
          (All-left _ (ids middle) (ids back)
            (cross_back (begin_id ∷ ids front) (ids middle ++ ids back) distinct)) in
      let inner = All-right _ (ids front) (ids middle ++ ids back) ne_begin in
      let c =
        climb s (λ x. x ≢ line_b) begin_id front (middle ++ back) begin_id 0 lines0
          (All-left _ (ids front) (ids middle ++ ids back) ne_begin) before.1 before.0
          (record { behind_it = []; chain = refl; others = tt; few = omega arith }) in
      let w = way s middle back line_a lines1 line_a-ne-end (
        All-left _ (ids middle) (ids zs) (All-right _ (ids front) (ids middle ++ ids zs) ne_end)) in
      ahead s c.behind_it w.ahead_of_it line_a line_a line_b fuel c.chain w.chain n c.others
        (of_line_b (λ i. i ≢ begin_id) n (All-left _ (ids middle) (ids back) inner))
        (omega (arith, w.few, h))

  lines_behind :
      (fuel : ℕ)
      → line_a ≢ line_b
      → length middle ≤ fuel
      → other_line fuel s line_b line_b line_a ≡ ok gt
  lines_behind fuel n h =
      let inner = All-right _ (ids front) (ids middle ++ ids back) ne_begin in
      let ends = All-right _ (ids front) (ids middle ++ ids zs) ne_end in
      let c =
        climb s (λ x. Unit {0}) line_a middle back line_a 0 lines1
          (All-left _ (ids middle) (ids back) inner) (All-unit (ids middle)) tt
          (record { behind_it = []; chain = refl; others = tt; few = omega arith }) in
      let (fs, chain, others) =
        way_end s (λ x. x ≢ line_a) zs line_b lines2
          (of_line_b (λ i. i ≢ end_id) n (All-left _ (ids middle) (ids zs) ends))
          (All-right _ (ids middle) (ids zs) ends)
          (All-right _ (ids middle) (ids back) line_a-apart) in
      behind s c.behind_it fs line_b line_b line_a fuel c.chain chain (λ e. n (sym e)) others
        line_a-ne-end (omega (arith, c.few, h))

  apart_from_b : All (λ x. x ≢ b.id) (begin_id ∷ (ids xs ++ a.id ∷ []))
  apart_from_b =
      let each =
        All-left _ (ids middle) (ids back)
          (cross_back (begin_id ∷ ids front) (ids middle ++ ids back) distinct) in
      let at_b =
        (All-right _ (ids ys) (b.id ∷ []) (subst (All _) (ids-append ys (b ∷ [])) each)).0 in
      subst (λ m. All (λ x. x ≢ b.id) (begin_id ∷ m)) (ids-append xs (a ∷ [])) at_b

  a-ne-b : a.id ≢ b.id
  a-ne-b = (All-right _ (ids xs) (a.id ∷ []) apart_from_b.1).0

  text_a : IsText s (xs ++ a ∷ (middle ++ zs))
  text_a = subst (IsText s) (append_assoc xs (a ∷ []) (middle ++ zs)) text

  apart_from_a : All (λ x. x ≢ a.id) (begin_id ∷ ids xs)
  apart_from_a =
      let e =
        ap ids (append_assoc xs (a ∷ (middle ++ zs)) (end_cell ∷ []))
        ∙ ids-append xs (a ∷ ((middle ++ zs) ++ end_cell ∷ [])) in
      (Distinct-middle (begin_id ∷ ids xs) a.id (ids ((middle ++ zs) ++ end_cell ∷ []))
        (subst (λ m. Distinct (begin_id ∷ m)) e text_a.store.distinct)).0

  on_one_line : Meets s a.id b.id (suc (length xs)) line_a
  on_one_line =
      let r = whole s (xs ++ a ∷ (middle ++ zs)) text_a in
      let o =
        All-both (λ z. z.id ≢ a.id) (λ z. z.id ≢ b.id) (begin_cell ∷ xs)
          (of_ids (λ i. i ≢ a.id) (begin_cell ∷ xs) apart_from_a)
          (of_ids (λ i. i ≢ b.id) (begin_cell ∷ xs)
            (apart_from_b.0, All-left _ (ids xs) (a.id ∷ []) apart_from_b.1)) in
      Meets-line_at s xs (middle ++ zs) a b.id begin_id (suc (length xs))
        (rest s begin_cell (xs ++ a ∷ (middle ++ zs)) r) o.1 a-ne-b (omega arith)
        (Meets-along s (begin_cell ∷ xs) (middle ++ zs) a b.id r o a-ne-b)

  to_line_a : (fuel : ℕ) → length front < fuel → line_iterator fuel s a.id ≡ ok line_a
  to_line_a fuel h =
      subst (λ i. line_iterator fuel s i ≡ ok line_a) (last_id-append begin_id xs a)
        (line_iterator_lem s front (middle ++ zs) fuel text h)

  to_line_b : (fuel : ℕ) → length (front ++ middle) < fuel → line_iterator fuel s b.id ≡ ok line_b
  to_line_b fuel h =
      let text_b = subst (IsText s) (sym (append_assoc front middle zs)) text in
      let e : last_id begin_id (front ++ middle) ≡ b.id =
        ap (last_id begin_id) (sym (append_assoc front ys (b ∷ [])))
        ∙ last_id-append begin_id (front ++ ys) b in
      subst (λ i. line_iterator fuel s i ≡ ok line_b) e
        (subst (λ q. line_iterator fuel s (last_id begin_id (front ++ middle)) ≡ ok q)
          (line_at-append begin_id front middle)
          (line_iterator_lem s (front ++ middle) zs fuel text_b h))

  -- With more fuel than the document has characters.
  order_inner :
      (fuel : ℕ)
      → length (front ++ (middle ++ zs)) < fuel
      → (order_lines fuel s a.id b.id ≡ ok lt) × (order_lines fuel s b.id a.id ≡ ok gt)
  unfolding order_lines
  order_inner fuel h =
      let all_of = length-append front (middle ++ zs) in
      let back_of = length-append middle zs in
      let front_of = length-append xs (a ∷ []) in
      let la = to_line_a fuel (omega (arith, all_of)) in
      let lb = to_line_b fuel (omega (arith, all_of, back_of, length-append front middle)) in
      let len : length middle ≤ fuel = omega (arith, all_of, back_of) in
      elim (Bool-cases (line_a == line_b)) [
        | inl t ↦
            let e : line_b ≡ line_a = ground (arith, t) in
            let (u, v) = on_one_line fuel (omega (arith, all_of, front_of)) in
            (rw la (rw lb (rw t u)), rw lb (rw la (rw (e, ==_refl line_a) v)))
        | inr t ↦
            let n : line_a ≢ line_b = λ e. ground (arith, e, t) in
            (
              rw la (rw lb (rw t (lines_ahead fuel n len))),
              rw lb (rw la (rw (==_ne line_b line_a (λ e. n (sym e))) (lines_behind fuel n len))),
            )
      ]

module _ (s : AnnotatedString) (xs : List Cell) (a : Cell) (ys : List Cell) (b : Cell)
    (zs : List Cell) (fuel : ℕ) (text : IsText s (xs ++ a ∷ (ys ++ b ∷ zs)))
    (enough : length (xs ++ a ∷ (ys ++ b ∷ zs)) < fuel) where
  regroup : xs ++ a ∷ (ys ++ b ∷ zs) ≡ (xs ++ a ∷ []) ++ ((ys ++ b ∷ []) ++ zs)
  regroup =
      sym (append_assoc xs (a ∷ []) (ys ++ b ∷ zs))
      ∙ ap (λ m. (xs ++ a ∷ []) ++ m) (sym (append_assoc ys (b ∷ []) zs))

  -- OrderIDs of two characters of the document ends within the fuel and answers by their order: below
  -- zero for the one in front, above zero the other way round, and zero for a character and itself.
  pub order_ids_lem :
      (order_ids fuel s a.id b.id ≡ ok lt)
      × (order_ids fuel s b.id a.id ≡ ok gt)
      × (order_ids fuel s a.id a.id ≡ ok eq)
  unfolding order_ids
  order_ids_lem =
      let text' = subst (IsText s) regroup text in
      let (u, v) =
        order_inner s xs a ys b zs text' fuel (subst (λ m. length m < fuel) regroup enough) in
      let inner = inner_ids s (xs ++ a ∷ (ys ++ b ∷ zs)) text.store.distinct in
      let later = All-right _ xs (a ∷ (ys ++ b ∷ zs)) inner in
      let ne_a = later.0 in
      let ne_b = (All-right _ ys (b ∷ zs) later.1).0 in
      let ab = a-ne-b s xs a ys b zs text' in
      (
        rw
            (
              ==_ne a.id b.id ab,
              ==_ne a.id begin_id ne_a.0,
              ==_ne a.id end_id ne_a.1,
              ==_ne b.id begin_id ne_b.0,
              ==_ne b.id end_id ne_b.1,
            )
            u,
        rw
            (
              ==_ne b.id a.id (λ e. ab (sym e)),
              ==_ne a.id begin_id ne_a.0,
              ==_ne a.id end_id ne_a.1,
              ==_ne b.id begin_id ne_b.0,
              ==_ne b.id end_id ne_b.1,
            )
            v,
        rw (==_refl a.id) refl,
      )
