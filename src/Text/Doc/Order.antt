-- ===== src/Text/Doc/Order.antt =====
-- OrderIDs on a text that holds a document: the search for one line from another in both directions,
-- and the walk along one line.
use ced.Base.{
  ℕ, zero, suc, ◌<◌, ◌≤◌, ◌≡◌, ◌≢◌, ap, refl, some, List, [], ◌∷◌, ◌++◌, All, arith, if◌then◌else◌,
  length, ==_ne, ==_refl, Bool-cases, inl, inr, map_eq_some, ◌==◌, lt, gt,
}
use ced.Ids.{Id64, begin_id, end_id}
use ced.Outcome.{ok}
use ced.Avl.Map.{lookup}
use ced.Text.{AnnotatedString, LineBreak}
use ced.Text.Iterate.{all_next, line_prev, line_next, other_line, same_line}
use ced.Text.Doc.{Cell}
use ced.Text.Doc.Lines.{is_line, line_next_of, line_prev_of}
use ced.Text.Doc.Insert.{first_cell}
use ced.Text.Doc.Walk.{IsRest, here, rest}
use ced.Text.Doc.LineOf.{line_at}

module _ (s : AnnotatedString) where
  -- Line breaks from one on back to `t`, and on to `t`.
  abbrev pub Backs : Id64 → List Id64 → Type 0
  Backs t [] = Unit
  Backs t (x ∷ []) = x ≡ t
  Backs t (x ∷ y ∷ r) = (line_prev_of s.line_breaks x ≡ some y) × (x ≢ begin_id) × Backs t (y ∷ r)

  abbrev pub Fronts : Id64 → List Id64 → Type 0
  Fronts t [] = Unit
  Fronts t (x ∷ []) = x ≡ t
  Fronts t (x ∷ y ∷ r) = (line_next_of s.line_breaks x ≡ some y) × (x ≢ end_id) × Fronts t (y ∷ r)

  line_next_lem :
      (x y : Id64) → line_next_of s.line_breaks x ≡ some y → x ≢ end_id → line_next s x ≡ ok y
  unfolding line_next
  line_next_lem x y e n =
      let (lb, found, to_y) =
        map_eq_some (λ (lb : LineBreak). lb.next) (lookup s.line_breaks x) e in
      rw (==_ne x end_id n) (rw found (ap ok to_y))

  line_prev_lem :
      (x y : Id64) → line_prev_of s.line_breaks x ≡ some y → x ≢ begin_id → line_prev s x ≡ ok y
  unfolding line_prev
  line_prev_lem x y e n =
      let (lb, found, to_y) =
        map_eq_some (λ (lb : LineBreak). lb.prev) (lookup s.line_breaks x) e in
      rw (==_ne x begin_id n) (rw found (ap ok to_y))

  line_prev_begin : line_prev s begin_id ≡ ok begin_id
  unfolding line_prev
  line_prev_begin = refl

  line_next_end : line_next s end_id ≡ ok end_id
  unfolding line_next
  line_next_end = refl

  round :
      (bk fw b f t : Id64) (fuel : ℕ)
      → line_prev s bk ≡ ok b
      → line_next s fw ≡ ok f
      → other_line (suc fuel) s bk fw t ≡ (
          if b == t
          then ok gt
          else (if f == t
              then ok lt
              else (if b == begin_id
                  then ok lt
                  else (if f == end_id then ok gt else other_line fuel s b f t))))
  unfolding other_line
  round bk fw b f t fuel p n = rw p (rw n refl)

  not_last : (t x : Id64) (fs : List Id64) → Fronts t (x ∷ fs) → x ≢ t → x ≢ end_id
  not_last t x [] f n = absurd (n f)
  not_last t x (y ∷ fs) f n = f.1

  not_first : (t x : Id64) (bs : List Id64) → Backs t (x ∷ bs) → x ≢ t → x ≢ begin_id
  not_first t x [] b n = absurd (n b)
  not_first t x (y ∷ bs) b n = b.1

  -- A line that is further on.
  pub ahead :
      (bs fs : List Id64) (bk fw t : Id64) (fuel : ℕ)
      → Backs begin_id (bk ∷ bs)
      → Fronts t (fw ∷ fs)
      → fw ≢ t
      → All (λ b. b ≢ t) bs
      → t ≢ begin_id
      → length fs ≤ fuel
      → other_line fuel s bk fw t ≡ ok lt
  ahead bs [] bk fw t fuel b f n o nb h = absurd (n f)
  ahead bs (f' ∷ fs) bk fw t zero b f n o nb h = absurd (omega arith)
  ahead [] (f' ∷ fs) bk fw t (suc fuel) b f n o nb h =
      let p : line_prev s bk ≡ ok begin_id = rw b (line_prev_begin) in
      ground (arith, nb, round bk fw begin_id f' t fuel p (line_next_lem fw f' f.0 f.1))
  ahead (b' ∷ bs) (f' ∷ fs) bk fw t (suc fuel) b f n o nb h = elim (Bool-cases (f' == t)) [
    | inl e ↦ ground (
      arith,
      o.0,
      e,
      round bk fw b' f' t fuel (line_prev_lem bk b' b.0 b.1) (line_next_lem fw f' f.0 f.1),
    )
    | inr e ↦
        let n' : f' ≢ t = λ q. ground (arith, e, q) in
        ground (
          arith,
          o.0,
          e,
          round bk fw b' f' t fuel (line_prev_lem bk b' b.0 b.1) (line_next_lem fw f' f.0 f.1),
          not_last t f' fs f.2 n',
          ahead bs fs b' f' t fuel b.2 f.2 n' o.1 nb (omega arith),
        )
  ]

  -- A line that is further back.
  pub behind :
      (bs fs : List Id64) (bk fw t : Id64) (fuel : ℕ)
      → Backs t (bk ∷ bs)
      → Fronts end_id (fw ∷ fs)
      → bk ≢ t
      → All (λ f. f ≢ t) fs
      → t ≢ end_id
      → length bs ≤ fuel
      → other_line fuel s bk fw t ≡ ok gt
  behind [] fs bk fw t fuel b f n o ne h = absurd (n b)
  behind (b' ∷ bs) fs bk fw t zero b f n o ne h = absurd (omega arith)
  behind (b' ∷ bs) [] bk fw t (suc fuel) b f n o ne h =
      let at_end : line_next s fw ≡ ok end_id = rw f line_next_end in
      elim (Bool-cases (b' == t)) [
        | inl e ↦
            ground (arith, e, round bk fw b' end_id t fuel (line_prev_lem bk b' b.0 b.1) at_end)
        | inr e ↦
            let n' : b' ≢ t = λ q. ground (arith, e, q) in
            ground (
              arith,
              ne,
              e,
              round bk fw b' end_id t fuel (line_prev_lem bk b' b.0 b.1) at_end,
              not_first t b' bs b.2 n',
            )
      ]
  behind (b' ∷ bs) (f' ∷ fs) bk fw t (suc fuel) b f n o ne h = elim (Bool-cases (b' == t)) [
    | inl e ↦ ground (
      arith,
      e,
      round bk fw b' f' t fuel (line_prev_lem bk b' b.0 b.1) (line_next_lem fw f' f.0 f.1),
    )
    | inr e ↦
        let n' : b' ≢ t = λ q. ground (arith, e, q) in
        ground (
          arith,
          o.0,
          e,
          round bk fw b' f' t fuel (line_prev_lem bk b' b.0 b.1) (line_next_lem fw f' f.0 f.1),
          not_first t b' bs b.2 n',
          behind bs fs b' f' t fuel b.2 f.2 n' o.1 ne (omega arith),
        )
  ]

  -- What the walk along one line answers from a place, for `a` in front of `b`.
  abbrev pub Meets : Id64 → Id64 → ℕ → Id64 → Type 0
  Meets a b n i =
      (fuel : ℕ) → n < fuel → (same_line fuel s i a b ≡ ok lt) × (same_line fuel s i b a ≡ ok gt)

  Meets-here : (a b : Id64) (n : ℕ) → a ≢ b → Meets a b n a
  unfolding same_line
  Meets-here a b n e zero h = absurd (omega arith)
  Meets-here a b n e (suc fuel) h = (rw (==_refl a) refl, rw (==_ne a b e, ==_refl a) refl)

  pub Meets-along :
      (zs more : List Cell) (a : Cell) (b : Id64)
      → IsRest s (zs ++ a ∷ more)
      → All (λ z. (z.id ≢ a.id) × (z.id ≢ b)) zs
      → a.id ≢ b
      → Meets a.id b (length zs) (first_cell (zs ++ a ∷ more)).id
  unfolding same_line all_next
  Meets-along [] more a b r o e fuel h = Meets-here a.id b 0 e fuel h
  Meets-along (z ∷ zs) more a b r o e zero h = absurd (omega arith)
  Meets-along (z ∷ zs) more a b r o e (suc fuel) h =
      let k = here s z (zs ++ a ∷ more) r in
      let (u, v) = Meets-along zs more a b (rest s z (zs ++ a ∷ more) r) o.1 e fuel (omega arith) in
      (
        rw (==_ne z.id a.id o.0.0, ==_ne z.id b o.0.1) (rw k.at_z (rw k.onto u)),
        rw (==_ne z.id a.id o.0.0, ==_ne z.id b o.0.1) (rw k.at_z (rw k.onto v)),
      )

  -- From the line break of the line that `a` is on.
  pub Meets-line_at :
      (zs more : List Cell) (a : Cell) (b q : Id64) (n : ℕ)
      → IsRest s (zs ++ a ∷ more)
      → All (λ z. (z.id ≢ a.id) × (z.id ≢ b)) zs
      → a.id ≢ b
      → length zs ≤ n
      → Meets a.id b n q
      → Meets a.id b n (line_at q (zs ++ a ∷ []))
  unfolding line_at
  Meets-line_at [] more a b q n r o e h m = elim (Bool-cases (is_line a)) [
    | inl t ↦ rw (t, line_at) (Meets-here a.id b n e)
    | inr t ↦ rw (t, line_at) m
  ]
  Meets-line_at (z ∷ zs) more a b q n r o e h m =
      let later = rest s z (zs ++ a ∷ more) r in
      elim (Bool-cases (is_line z)) [
        | inl t ↦
            let start : Meets a.id b n z.id =
              λ fuel p. Meets-along (z ∷ zs) more a b r o e fuel (omega arith) in
            rw (t, line_at) (Meets-line_at zs more a b z.id n later o.1 e (omega arith) start)
        | inr t ↦ rw (t, line_at) (Meets-line_at zs more a b q n later o.1 e (omega arith) m)
      ]
