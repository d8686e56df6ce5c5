-- ===== src/Avl/Assoc.antt =====
-- Association lists in strictly ascending order of their keys: what avl.h's trees stand for.
use ced.Base.{
  ℕ, ◌<◌, ◌≡◌, refl, compare, lt, eq, gt, Option, none, some, List, [], ◌∷◌, ◌++◌, arith, All,
  All-append, All-left, All-right, All-imp, ◌==◌, if◌then◌else◌,
}

module _ {ℓ} {V : Type ℓ} where
  abbrev pub Below : ℕ → List (ℕ × V) → Type 0
  Below k = All (λ e. e.0 < k)

  abbrev pub Above : ℕ → List (ℕ × V) → Type 0
  Above k = All (λ e. k < e.0)

  abbrev pub IsSorted : List (ℕ × V) → Type 0
  IsSorted [] = Unit
  IsSorted (e ∷ m) = Above e.0 m × IsSorted m

  unfoldable pub find : ℕ → List (ℕ × V) → Option V
  find k [] = none
  find k ((j, w) ∷ m) = if j == k then some w else find k m

  -- The last pair whose key is not above `k`, or `best`.
  unfoldable pub find_below : Option (ℕ × V) → ℕ → List (ℕ × V) → Option (ℕ × V)
  find_below best k [] = best
  find_below best k ((j, w) ∷ m) = elim (compare j k) [
    | gt ↦ best
    | _ ↦ find_below (some (j, w)) k m
  ]

  unfoldable pub insert : ℕ → V → List (ℕ × V) → List (ℕ × V)
  insert k v [] = (k, v) ∷ []
  insert k v ((j, w) ∷ m) = elim (compare j k) [
    | lt ↦ (j, w) ∷ insert k v m
    | eq ↦ (k, v) ∷ m
    | gt ↦ (k, v) ∷ (j, w) ∷ m
  ]

  unfoldable pub erase : ℕ → List (ℕ × V) → List (ℕ × V)
  erase k [] = []
  erase k ((j, w) ∷ m) = if j == k then m else (j, w) ∷ erase k m

  pub Above-Above : (j k : ℕ) (m : List (ℕ × V)) → j < k → Above k m → Above j m
  Above-Above j k m h = All-imp (λ e a. omega arith) m

  pub Below-Below : (j k : ℕ) (m : List (ℕ × V)) → j < k → Below j m → Below k m
  Below-Below j k m h = All-imp (λ e a. omega arith) m

  pub IsSorted-join :
      (xs : List (ℕ × V)) (k : ℕ) (v : V) (ys : List (ℕ × V))
      → IsSorted xs
      → Below k xs
      → Above k ys
      → IsSorted ys
      → IsSorted (xs ++ (k, v) ∷ ys)
  IsSorted-join [] k v ys a b c d = (c, d)
  IsSorted-join (x ∷ xs) k v ys a b c d = (
    All-append _ xs ((k, v) ∷ ys) a.0 (b.0, Above-Above x.0 k ys b.0 c),
    IsSorted-join xs k v ys a.1 b.1 c d,
  )

  pub IsSorted-split :
      (xs : List (ℕ × V)) (k : ℕ) (v : V) (ys : List (ℕ × V))
      → IsSorted (xs ++ (k, v) ∷ ys)
      → IsSorted xs × Below k xs × Above k ys × IsSorted ys
  IsSorted-split [] k v ys h = (tt, tt, h.0, h.1)
  IsSorted-split (x ∷ xs) k v ys h =
      let rest = IsSorted-split xs k v ys h.1 in
      (
        (All-left _ xs ((k, v) ∷ ys) h.0, rest.0),
        ((All-right _ xs ((k, v) ∷ ys) h.0).0, rest.1),
        rest.2,
        rest.3,
      )

  All-insert {κ} :
      (P : ℕ × V → Type κ) (k : ℕ) (v : V) (m : List (ℕ × V))
      → P (k, v)
      → All P m
      → All P (insert k v m)
  unfolding insert
  All-insert P k v [] p a = (p, tt)
  All-insert P k v ((j, w) ∷ m) p a = ground (arith, All-insert P k v m p a.1)

  pub insert-IsSorted : (k : ℕ) (v : V) (m : List (ℕ × V)) → IsSorted m → IsSorted (insert k v m)
  unfolding insert
  insert-IsSorted k v [] s = (tt, tt)
  insert-IsSorted k v ((j, w) ∷ m) s =
      ground (arith, insert-IsSorted k v m s.1, All-insert (λ e. j < e.0) k v m, Above-Above k j m)

  All-erase {κ} : (P : ℕ × V → Type κ) (k : ℕ) (m : List (ℕ × V)) → All P m → All P (erase k m)
  unfolding erase
  All-erase P k [] a = tt
  All-erase P k ((j, w) ∷ m) a = ground (arith, All-erase P k m a.1)

  pub erase-IsSorted : (k : ℕ) (m : List (ℕ × V)) → IsSorted m → IsSorted (erase k m)
  unfolding erase
  erase-IsSorted k [] s = tt
  erase-IsSorted k ((j, w) ∷ m) s =
      ground (arith, erase-IsSorted k m s.1, All-erase (λ e. j < e.0) k m)

  pub find-Above : (j k : ℕ) (m : List (ℕ × V)) → j < k → Above k m → find j m ≡ none
  unfolding find
  find-Above j k [] h a = refl
  find-Above j k ((i, w) ∷ m) h a = ground (arith, find-Above j k m h a.1)

  pub find-Above_self : (k : ℕ) (m : List (ℕ × V)) → Above k m → find k m ≡ none
  unfolding find
  find-Above_self k [] a = refl
  find-Above_self k ((i, w) ∷ m) a = ground (arith, find-Above_self k m a.1)

  pub find-insert :
      (k j : ℕ) (v : V) (m : List (ℕ × V))
      → find j (insert k v m) ≡ (if k == j then some v else find j m)
  unfolding find insert
  find-insert k j v [] = refl
  find-insert k j v ((i, w) ∷ m) = ground (arith, find-insert k j v m)

  pub find-erase :
      (k j : ℕ) (m : List (ℕ × V))
      → IsSorted m
      → find j (erase k m) ≡ (if k == j then none else find j m)
  unfolding find erase
  find-erase k j [] s = ground arith
  find-erase k j ((i, w) ∷ m) s = ground (arith, find-erase k j m s.1, find-Above_self i m s.0)

  -- Where a pair stands in the middle, as at a node of a tree.
  module _ (k j : ℕ) (w : V) (ys : List (ℕ × V)) where
    pub insert-right :
        (v : V) (xs : List (ℕ × V))
        → Below j xs
        → j < k
        → insert k v (xs ++ (j, w) ∷ ys) ≡ xs ++ (j, w) ∷ insert k v ys
    unfolding insert
    insert-right v [] b h = ground arith
    insert-right v (x ∷ xs) b h = ground (arith, insert-right v xs b.1 h)

    pub insert-left :
        (v : V) (xs : List (ℕ × V))
        → k < j
        → insert k v (xs ++ (j, w) ∷ ys) ≡ insert k v xs ++ (j, w) ∷ ys
    unfolding insert
    insert-left v [] h = ground arith
    insert-left v (x ∷ xs) h = ground (arith, insert-left v xs h)

    pub erase-right :
        (xs : List (ℕ × V))
        → Below j xs
        → j < k
        → erase k (xs ++ (j, w) ∷ ys) ≡ xs ++ (j, w) ∷ erase k ys
    unfolding erase
    erase-right [] b h = ground arith
    erase-right (x ∷ xs) b h = ground (arith, erase-right xs b.1 h)

    pub find-right :
        (xs : List (ℕ × V)) → Below j xs → j < k → find k (xs ++ (j, w) ∷ ys) ≡ find k ys
    unfolding find
    find-right [] b h = ground arith
    find-right (x ∷ xs) b h = ground (arith, find-right xs b.1 h)

    pub find-left :
        (xs : List (ℕ × V)) → k < j → Above j ys → find k (xs ++ (j, w) ∷ ys) ≡ find k xs
    unfolding find
    find-left [] h a = ground (arith, find-Above k j ys h a)
    find-left (x ∷ xs) h a = ground (arith, find-left xs h a)

    erase-Above : (m : List (ℕ × V)) → k < j → Above j m → erase k m ≡ m
    unfolding erase
    erase-Above [] h a = refl
    erase-Above (x ∷ xs) h a = ground (arith, erase-Above xs h a.1)

    pub erase-left :
        (xs : List (ℕ × V))
        → k < j
        → Above j ys
        → erase k (xs ++ (j, w) ∷ ys) ≡ erase k xs ++ (j, w) ∷ ys
    unfolding erase
    erase-left [] h a = ground (arith, erase-Above ys h a)
    erase-left (x ∷ xs) h a = ground (arith, erase-left xs h a)

    pub find_below-right :
        (best : Option (ℕ × V)) (xs : List (ℕ × V))
        → Below j xs
        → j < k
        → find_below best k (xs ++ (j, w) ∷ ys) ≡ find_below (some (j, w)) k ys
    unfolding find_below
    find_below-right best [] b h = ground arith
    find_below-right best (x ∷ xs) b h = ground (arith, find_below-right (some x) xs b.1 h)

    pub find_below-left :
        (best : Option (ℕ × V)) (xs : List (ℕ × V))
        → k < j
        → find_below best k (xs ++ (j, w) ∷ ys) ≡ find_below best k xs
    unfolding find_below
    find_below-left best [] h = ground arith
    find_below-left best (x ∷ xs) h = ground (arith, find_below-left (some x) xs h)

  module _ (k j : ℕ) (w : V) (ys : List (ℕ × V)) where
    pub insert-mid :
        (v : V) (xs : List (ℕ × V))
        → Below j xs
        → j ≡ k
        → insert k v (xs ++ (j, w) ∷ ys) ≡ xs ++ (k, v) ∷ ys
    unfolding insert
    insert-mid v [] b h = ground arith
    insert-mid v (x ∷ xs) b h = ground (arith, insert-mid v xs b.1 h)

    pub erase-mid :
        (xs : List (ℕ × V)) → Below j xs → j ≡ k → erase k (xs ++ (j, w) ∷ ys) ≡ xs ++ ys
    unfolding erase
    erase-mid [] b h = ground arith
    erase-mid (x ∷ xs) b h = ground (arith, erase-mid xs b.1 h)

    pub find-mid : (xs : List (ℕ × V)) → Below j xs → j ≡ k → find k (xs ++ (j, w) ∷ ys) ≡ some w
    unfolding find
    find-mid [] b h = ground arith
    find-mid (x ∷ xs) b h = ground (arith, find-mid xs b.1 h)

    find_below-Above :
        (best : Option (ℕ × V)) (m : List (ℕ × V)) → j ≡ k → Above j m → find_below best k m ≡ best
    unfolding find_below
    find_below-Above best [] h a = refl
    find_below-Above best (x ∷ m) h a = ground arith

    pub find_below-mid :
        (best : Option (ℕ × V)) (xs : List (ℕ × V))
        → Below j xs
        → j ≡ k
        → Above j ys
        → find_below best k (xs ++ (j, w) ∷ ys) ≡ some (j, w)
    unfolding find_below
    find_below-mid best [] b h a = ground (arith, find_below-Above (some (j, w)) ys h a)
    find_below-mid best (x ∷ xs) b h a = ground (arith, find_below-mid (some x) xs b.1 h a)
