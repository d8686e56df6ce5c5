-- ===== src/Text/Doc/Climb.antt =====
-- The lines in front of a character and behind it: the way that OrderIDs goes between two lines.
use ced.Base.{
  ℕ, suc, ◌+◌, ◌≤◌, ◌≡◌, ◌≢◌, ◌⊎◌, refl, sym, subst, List, [], ◌∷◌, ◌++◌, All, All-right, All-imp,
  arith, if◌then◌else◌, length, Bool-cases, inl, inr,
}
use ced.Ids.{Id64, begin_id, end_id}
use ced.Text.{AnnotatedString}
use ced.Links.{Linked, Distinct}
use ced.Text.Doc.{Cell, ids, end_cell}
use ced.Text.Doc.Lines.{is_line, line_ids, line_next_of, line_prev_of}
use ced.Text.Doc.LineOf.{line_at, last_id}
use ced.Text.Doc.Order.{Backs, Fronts}

-- A list's members differ from those of what follows it.
pub cross : (l r : List ℕ) → Distinct (l ++ r) → All (λ i. All (λ x. x ≢ i) r) l
cross [] r d = tt
cross (i ∷ l) r d = (All-imp (λ x h e. h (sym e)) r (All-right _ l r d.0), cross l r d.1)

pub All-both {ℓ κ μ} :
    {A : Type ℓ} (P : A → Type κ) (Q : A → Type μ) (xs : List A)
    → All P xs
    → All Q xs
    → All (λ x. P x × Q x) xs
All-both P Q [] p q = tt
All-both P Q (x ∷ xs) p q = ((p.0, q.0), All-both P Q xs p.1 q.1)

pub All-unit {ℓ} : {A : Type ℓ} (xs : List A) → All (λ x. Unit {0}) xs
All-unit [] = tt
All-unit (x ∷ xs) = (tt, All-unit xs)

-- The same, for the members of what follows.
pub cross_back : (l r : List ℕ) → Distinct (l ++ r) → All (λ i. All (λ x. x ≢ i) l) r
cross_back [] r d = All-unit r
cross_back (x ∷ l) r d =
    All-both (λ i. x ≢ i) (λ i. All (λ y. y ≢ i) l) r (All-right _ l r d.0) (cross_back l r d.1)

pub of_ids : (P : Id64 → Type 0) (cs : List Cell) → All P (ids cs) → All (λ c. P c.id) cs
of_ids P [] a = tt
of_ids P (c ∷ cs) a = (a.0, of_ids P cs a.1)

pub line_at-append :
    (q : Id64) (xs ys : List Cell) → line_at q (xs ++ ys) ≡ line_at (line_at q xs) ys
unfolding line_at
line_at-append q [] ys = refl
line_at-append q (x ∷ xs) ys = line_at-append (if is_line x then x.id else q) xs ys

pub last_id-append : (y : Id64) (xs : List Cell) (a : Cell) → last_id y (xs ++ a ∷ []) ≡ a.id
unfolding last_id
last_id-append y [] a = refl
last_id-append y (x ∷ xs) a = last_id-append x.id xs a

-- The line is the one before, or one of the cells.
pub line_at_either :
    (P : Id64 → Type 0) (q : Id64) (zs : List Cell)
    → All P (ids zs)
    → (line_at q zs ≡ q) ⊎ P (line_at q zs)
unfolding line_at
line_at_either P q [] a = inl refl
line_at_either P q (z ∷ zs) a = elim (Bool-cases (is_line z)) [
  | inl t ↦ elim (line_at_either P z.id zs a.1) [
    | inl e ↦ rw t (inr (subst P (sym e) a.0))
    | inr p ↦ rw t (inr p)
  ]
  | inr t ↦ rw t (line_at_either P q zs a.1)
]

module _ (s : AnnotatedString) where
  abbrev pub LinesFrom : List Id64 → Type 0
  LinesFrom = Linked (line_next_of s.line_breaks) (line_prev_of s.line_breaks)

  pub LinesFrom-line_at :
      (zs more : List Cell) (q : Id64)
      → LinesFrom (q ∷ line_ids (zs ++ more))
      → LinesFrom (line_at q zs ∷ line_ids more)
  unfolding line_at line_ids
  LinesFrom-line_at [] more q l = l
  LinesFrom-line_at (z ∷ zs) more q l = elim (Bool-cases (is_line z)) [
    | inl t ↦ rw t (LinesFrom-line_at zs more z.id (rw t at l).1)
    | inr t ↦ rw t (LinesFrom-line_at zs more q (rw t at l))
  ]

  -- The way back from the line that is reached, and the way to it.
  pub record Climb (P : Id64 → Type 0) (t q : Id64) (n : ℕ) : Type 0 where
    pub behind_it : List Id64
    pub chain : Backs s t (q ∷ behind_it)
    pub others : All P behind_it
    pub few : length behind_it ≤ n

  less : (P : Id64 → Type 0) (t q : Id64) (m n : ℕ) → m ≤ n → Climb P t q m → Climb P t q n
  less P t q m n h c = record {
    behind_it = c.behind_it;
    chain = c.chain;
    others = c.others;
    few = omega (arith, c.few);
  }

  pub climb :
      (P : Id64 → Type 0) (t : Id64) (zs more : List Cell) (q : Id64) (n : ℕ)
      → LinesFrom (q ∷ line_ids (zs ++ more))
      → All (λ i. i ≢ begin_id) (ids zs)
      → All P (ids zs)
      → P q
      → Climb P t q n
      → Climb P t (line_at q zs) (n + length zs)
  unfolding line_at line_ids
  climb P t [] more q n l b a p c = record {
    behind_it = c.behind_it;
    chain = c.chain;
    others = c.others;
    few = omega (arith, c.few);
  }
  climb P t (z ∷ zs) more q n l b a p c = elim (Bool-cases (is_line z)) [
    | inl t' ↦
        let l' : LinesFrom (q ∷ z.id ∷ line_ids (zs ++ more)) = rw t' at l in
        let c' : Climb P t z.id (suc n) = record {
          behind_it = q ∷ c.behind_it;
          chain = (l'.0.1, b.0, c.chain);
          others = (p, c.others);
          few = omega (arith, c.few);
        } in
        rw t' (
          less P t (line_at z.id zs) (suc n + length zs) (n + suc (length zs)) (omega arith)
            (climb P t zs more z.id (suc n) l'.1 b.1 a.1 a.0 c'))
    | inr t' ↦ rw t' (
        less P t (line_at q zs) (n + length zs) (n + suc (length zs)) (omega arith)
          (climb P t zs more q n (rw t' at l) b.1 a.1 p c))
  ]

  pub record Way (t q : Id64) (n : ℕ) : Type 0 where
    pub ahead_of_it : List Id64
    pub chain : Fronts s t (q ∷ ahead_of_it)
    pub few : length ahead_of_it ≤ n

  pub way :
      (zs more : List Cell) (q : Id64)
      → LinesFrom (q ∷ line_ids (zs ++ more))
      → q ≢ end_id
      → All (λ i. i ≢ end_id) (ids zs)
      → Way (line_at q zs) q (length zs)
  unfolding line_at line_ids
  way [] more q l e a = record { ahead_of_it = []; chain = refl; few = omega arith }
  way (z ∷ zs) more q l e a = elim (Bool-cases (is_line z)) [
    | inl t ↦
        let l' : LinesFrom (q ∷ z.id ∷ line_ids (zs ++ more)) = rw t at l in
        let w = way zs more z.id l'.1 a.0 a.1 in
        rw t (record {
          ahead_of_it = z.id ∷ w.ahead_of_it;
          chain = (l'.0.0, e, w.chain);
          few = omega (arith, w.few);
        })
    | inr t ↦
        let w = way zs more q (rw t at l) e a.1 in
        rw t (record { ahead_of_it = w.ahead_of_it; chain = w.chain; few = omega (arith, w.few) })
  ]

  pub way_end :
      (P : Id64 → Type 0) (zs : List Cell) (q : Id64)
      → LinesFrom (q ∷ line_ids (zs ++ end_cell ∷ []))
      → q ≢ end_id
      → All (λ i. i ≢ end_id) (ids zs)
      → All P (ids (zs ++ end_cell ∷ []))
      → (fs : List Id64) × Fronts s end_id (q ∷ fs) × All P fs
  unfolding line_ids
  way_end P [] q l e a p = (end_id ∷ [], (l.0.0, e, refl), p)
  way_end P (z ∷ zs) q l e a p = elim (Bool-cases (is_line z)) [
    | inl t ↦
        let l' : LinesFrom (q ∷ z.id ∷ line_ids (zs ++ end_cell ∷ [])) = rw t at l in
        let (fs, chain, others) = way_end P zs z.id l'.1 a.0 a.1 p.1 in
        (z.id ∷ fs, (l'.0.0, e, chain), (p.0, others))
    | inr t ↦ way_end P zs q (rw t at l) e a.1 p.1
  ]
