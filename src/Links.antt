-- ===== src/Links.antt =====
-- Doubly linked lists that are stored as two partial functions: a list of IDs, each followed by the
-- next one in both directions. The characters of a text and its line breaks are such lists.
use ced.Base.{
  ℕ, ◌≡◌, ◌≢◌, sym, ◌∙◌, Option, some, List, [], ◌∷◌, ◌++◌, All, All-append, All-left, All-right,
  All-imp, append_assoc,
}

abbrev pub Distinct : List ℕ → Type 0
Distinct [] = Unit
Distinct (x ∷ xs) = All (λ y. x ≢ y) xs × Distinct xs

-- `a` and `b` do not occur on the other's side of the list.
pub Distinct-middle :
    (l : List ℕ) (a : ℕ) (r : List ℕ)
    → Distinct (l ++ a ∷ r)
    → All (λ x. x ≢ a) l × All (λ x. a ≢ x) r × Distinct l × Distinct r
Distinct-middle [] a r d = (tt, d.0, tt, d.1)
Distinct-middle (x ∷ l) a r d =
    let m = Distinct-middle l a r d.1 in
    (((All-right _ l (a ∷ r) d.0).0, m.0), m.1, (All-left _ l (a ∷ r) d.0, m.2), m.3)

pub Distinct-insert :
    (l : List ℕ) (n : ℕ) (r : List ℕ)
    → Distinct (l ++ r)
    → All (λ x. x ≢ n) (l ++ r)
    → Distinct (l ++ n ∷ r)
Distinct-insert [] n r d f = (All-imp (λ x h e. h (sym e)) r f, d)
Distinct-insert (x ∷ l) n r d f = (
  All-append _ l (n ∷ r) (All-left _ l r d.0) (f.0, All-right _ l r d.0),
  Distinct-insert l n r d.1 f.1,
)

pub Distinct-erase :
    (l : List ℕ) (a n b : ℕ) (r : List ℕ)
    → Distinct (l ++ a ∷ n ∷ b ∷ r)
    → Distinct (l ++ a ∷ b ∷ r)
Distinct-erase [] a n b r d = ((d.0.1.0, d.0.1.1), d.1.1)
Distinct-erase (x ∷ l) a n b r d =
    let t = All-right _ l (a ∷ n ∷ b ∷ r) d.0 in
    (
      All-append _ l (a ∷ b ∷ r) (All-left _ l (a ∷ n ∷ b ∷ r) d.0) (t.0, t.1.1),
      Distinct-erase l a n b r d.1,
    )

module _ (next prev : ℕ → Option ℕ) where
  abbrev pub Link : ℕ → ℕ → Type 0
  Link x y = (next x ≡ some y) × (prev y ≡ some x)

  abbrev pub Ahead : ℕ → List ℕ → Type 0
  Ahead x [] = Unit
  Ahead x (y ∷ _) = Link x y

  abbrev pub Linked : List ℕ → Type 0
  Linked [] = Unit
  Linked (x ∷ xs) = Ahead x xs × Linked xs

  pub Linked-split :
      (l : List ℕ) (a : ℕ) (r : List ℕ)
      → Linked (l ++ a ∷ r)
      → Linked (l ++ a ∷ []) × Linked (a ∷ r)
  Linked-split [] a r h = ((tt, tt), h)
  Linked-split (x ∷ []) a r h = ((h.0, (tt, tt)), h.1)
  Linked-split (x ∷ y ∷ l) a r h = let s = Linked-split (y ∷ l) a r h.1 in ((h.0, s.0), s.1)

  pub Linked-join :
      (l : List ℕ) (a : ℕ) (r : List ℕ)
      → Linked (l ++ a ∷ [])
      → Linked (a ∷ r)
      → Linked (l ++ a ∷ r)
  Linked-join [] a r h k = k
  Linked-join (x ∷ []) a r h k = (h.0, k)
  Linked-join (x ∷ y ∷ l) a r h k = (h.0, Linked-join (y ∷ l) a r h.1 k)

turn : (y : ℕ) (xs : List ℕ) → All (λ x. y ≢ x) xs → All (λ x. x ≢ y) xs
turn y xs = All-imp (λ x g e. g (sym e)) xs

keep :
    (f g : ℕ → Option ℕ) (a n : ℕ)
    → ((x : ℕ) → x ≢ a → x ≢ n → g x ≡ f x)
    → (xs : List ℕ) → All (λ x. x ≢ a) xs
    → All (λ x. x ≢ n) xs
    → All (λ x. g x ≡ f x) xs
keep f g a n h [] u v = tt
keep f g a n h (x ∷ xs) u v = (h x u.0 v.0, keep f g a n h xs u.1 v.1)

-- What stands on the two sides of neighbours `a` and `b`.
abbrev Apart : List ℕ → ℕ → ℕ → List ℕ → Type 0
Apart l a b r =
    All (λ x. x ≢ a) l
    × All (λ x. x ≢ b) (l ++ a ∷ [])
    × All (λ x. x ≢ a) (b ∷ r)
    × All (λ x. x ≢ b) r

Distinct-Apart : (l : List ℕ) (a b : ℕ) (r : List ℕ) → Distinct (l ++ a ∷ b ∷ r) → Apart l a b r
Distinct-Apart l a b r d =
    let da = Distinct-middle l a (b ∷ r) d in
    let db = Distinct-middle (l ++ a ∷ []) b r (rw (append_assoc l (a ∷ []) (b ∷ r)) d) in
    (da.0, db.0, turn a (b ∷ r) da.1, turn b r db.1)

-- Two stores, and how the second differs from the first.
module _ (next prev next' prev' : ℕ → Option ℕ) where
  frame_left :
      (l : List ℕ) (a : ℕ)
      → All (λ x. next' x ≡ next x) l
      → All (λ x. prev' x ≡ prev x) (l ++ a ∷ [])
      → Linked next prev (l ++ a ∷ [])
      → Linked next' prev' (l ++ a ∷ [])
  frame_left [] a n p h = (tt, tt)
  frame_left (x ∷ []) a n p h = ((n.0 ∙ h.0.0, p.1.0 ∙ h.0.1), (tt, tt))
  frame_left (x ∷ y ∷ l) a n p h = ((n.0 ∙ h.0.0, p.1.0 ∙ h.0.1), frame_left (y ∷ l) a n.1 p.1 h.1)

  frame_right :
      (b : ℕ) (r : List ℕ)
      → All (λ x. next' x ≡ next x) (b ∷ r)
      → All (λ x. prev' x ≡ prev x) r
      → Linked next prev (b ∷ r)
      → Linked next' prev' (b ∷ r)
  frame_right b [] n p h = (tt, tt)
  frame_right b (y ∷ r) n p h = ((n.0 ∙ h.0.0, p.0 ∙ h.0.1), frame_right y r n.1 p.1 h.1)

  -- The parts left of `a` and right of `b` stay linked, where only the pointers of `n`, the one
  -- from `a` onwards and the one from `b` back may change.
  frame :
      (l : List ℕ) (a n b : ℕ) (r : List ℕ)
      → ((x : ℕ) → x ≢ a → x ≢ n → next' x ≡ next x)
      → ((x : ℕ) → x ≢ b → x ≢ n → prev' x ≡ prev x)
      → All (λ x. x ≢ n) (l ++ a ∷ [])
      → All (λ x. x ≢ n) (b ∷ r)
      → Apart l a b r
      → Linked next prev (l ++ a ∷ [])
      → Linked next prev (b ∷ r)
      → Linked next' prev' (l ++ a ∷ []) × Linked next' prev' (b ∷ r)
  frame l a n b r hn hp fl fr (p, q, u, v) hl hr = (
    frame_left l a (keep next next' a n hn l p (All-left _ l (a ∷ []) fl))
        (keep prev prev' b n hp (l ++ a ∷ []) q fl) hl,
    frame_right b r (keep next next' a n hn (b ∷ r) u fr) (keep prev prev' b n hp r v fr.1) hr,
  )

  -- A new member between two neighbours.
  pub Linked-insert :
      (l : List ℕ) (a n b : ℕ) (r : List ℕ)
      → ((x : ℕ) → x ≢ a → x ≢ n → next' x ≡ next x)
      → ((x : ℕ) → x ≢ b → x ≢ n → prev' x ≡ prev x)
      → Link next' prev' a n
      → Link next' prev' n b
      → All (λ x. x ≢ n) (l ++ a ∷ b ∷ r)
      → Distinct (l ++ a ∷ b ∷ r)
      → Linked next prev (l ++ a ∷ b ∷ r)
      → Linked next' prev' (l ++ a ∷ n ∷ b ∷ r)
  Linked-insert l a n b r hn hp an nb fresh d h =
      let s = Linked-split next prev l a (b ∷ r) h in
      let fl = All-left _ l (a ∷ b ∷ r) fresh in
      let fr = All-right _ l (a ∷ b ∷ r) fresh in
      let (hl, hr) =
        frame l a n b r hn hp (All-append _ l (a ∷ []) fl (fr.0, tt)) fr.1
          (Distinct-Apart l a b r d) s.0 s.1.1 in
      Linked-join next' prev' l a (n ∷ b ∷ r) hl (an, (nb, hr))

  -- A member taken out from between its neighbours.
  pub Linked-erase :
      (l : List ℕ) (a n b : ℕ) (r : List ℕ)
      → ((x : ℕ) → x ≢ a → x ≢ n → next' x ≡ next x)
      → ((x : ℕ) → x ≢ b → x ≢ n → prev' x ≡ prev x)
      → Link next' prev' a b
      → Distinct (l ++ a ∷ n ∷ b ∷ r)
      → Linked next prev (l ++ a ∷ n ∷ b ∷ r)
      → Linked next' prev' (l ++ a ∷ b ∷ r)
  Linked-erase l a n b r hn hp ab d h =
      let s = Linked-split next prev l a (n ∷ b ∷ r) h in
      let dn =
        Distinct-middle (l ++ a ∷ []) n (b ∷ r) (rw (append_assoc l (a ∷ []) (n ∷ b ∷ r)) d) in
      let (hl, hr) =
        frame l a n b r hn hp dn.0 (turn n (b ∷ r) dn.1)
          (Distinct-Apart l a b r (Distinct-erase l a n b r d)) s.0 s.1.1.1 in
      Linked-join next' prev' l a (b ∷ r) hl (ab, hr)
