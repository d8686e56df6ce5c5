-- ===== src/System/Run/Child.antt =====
-- What descriptors the child of run has when it becomes the command.
use ced.Base.{
  ℕ, ◌<◌, ◌≡◌, ◌≢◌, refl, ap, ◌==◌, leb, ◌||◌, if◌then◌else◌, Bool, false, Option, none, some, List,
  [], ◌∷◌, All, arith, ==_refl, Bool-cases, inl, inr, map,
}
use ced.Proto.{Bytes}
use ced.Outcome.{ok, ◌>>=◌}
use ced.System.Run.{
  Descriptors, file_at, close_at, dup2, close_checked, starts_with_dot, close_entries,
  close_fds_after, child,
}

file_at-close_at :
    (fd j : ℕ) (ds : Descriptors)
    → file_at j (close_at fd ds) ≡ (if fd == j then none else file_at j ds)
unfolding file_at close_at
file_at-close_at fd j [] = ground arith
file_at-close_at fd j ((d, f) ∷ ds) = ground (arith, file_at-close_at fd j ds)

abbrev numbers : Descriptors → List ℕ
numbers [] = []
numbers ((d, _) ∷ ds) = d ∷ numbers ds

-- Each descriptor is listed once.
abbrev Once : List ℕ → Type 0
Once [] = Unit
Once (x ∷ xs) = All (λ y. y ≢ x) xs × Once xs

abbrev Open : Descriptors → ℕ → Type 0
Open ds x = (f : ℕ) × (file_at x ds ≡ some f)

abbrev among : List ℕ → ℕ → Bool
among [] j = false
among (x ∷ xs) j = x == j || among xs j

Open-close_at :
    (x : ℕ) (ds : Descriptors) (xs : List ℕ)
    → All (Open ds) xs
    → All (λ y. y ≢ x) xs
    → All (Open (close_at x ds)) xs
Open-close_at x ds [] p o = tt
Open-close_at x ds (y ∷ ys) p o = (
  (p.0.0, rw (file_at-close_at x y ds) (ground (arith, p.0.1, o.0))),
  Open-close_at x ds ys p.1 o.1,
)

absent : (ds : Descriptors) (j : ℕ) → among (numbers ds) j ≡ false → file_at j ds ≡ none
unfolding file_at
absent [] j h = refl
absent ((d, f) ∷ ds) j h = ground (arith, h, absent ds j)

Open-cons :
    (d f : ℕ) (ds : Descriptors) (xs : List ℕ) → All (Open ds) xs → All (Open ((d, f) ∷ ds)) xs
unfolding file_at
Open-cons d f ds [] p = tt
Open-cons d f ds (x ∷ xs) p = elim (Bool-cases (d == x)) [
  | inl t ↦ ((f, rw t refl), Open-cons d f ds xs p.1)
  | inr g ↦ ((p.0.0, rw g p.0.1), Open-cons d f ds xs p.1)
]

all-Open : (ds : Descriptors) → All (Open ds) (numbers ds)
unfolding file_at
all-Open [] = tt
all-Open ((d, f) ∷ ds) = ((f, rw (==_refl d) refl), Open-cons d f ds (numbers ds) (all-Open ds))

unlisted : (x : ℕ) (ds : Descriptors) → file_at x ds ≡ none → All (λ y. y ≢ x) (numbers ds)
unfolding file_at
unlisted x [] e = tt
unlisted x ((d, f) ∷ ds) e = elim (Bool-cases (d == x)) [
  | inl t ↦ absurd (ground (arith, e, t))
  | inr g ↦ (λ q. ground (arith, q, g), unlisted x ds (ground (arith, e, g)))
]

All-close_at :
    (P : ℕ → Type 0) (x : ℕ) (ds : Descriptors)
    → All P (numbers ds)
    → All P (numbers (close_at x ds))
unfolding close_at
All-close_at P x [] p = tt
All-close_at P x ((d, f) ∷ ds) p = elim (Bool-cases (d == x)) [
  | inl t ↦ rw t (All-close_at P x ds p.1)
  | inr g ↦ rw g (p.0, All-close_at P x ds p.1)
]

Once-close_at : (x : ℕ) (ds : Descriptors) → Once (numbers ds) → Once (numbers (close_at x ds))
unfolding close_at
Once-close_at x [] o = tt
Once-close_at x ((d, f) ∷ ds) o = elim (Bool-cases (d == x)) [
  | inl t ↦ rw t (Once-close_at x ds o.1)
  | inr g ↦ rw g (All-close_at (λ y. y ≢ d) x ds o.0, Once-close_at x ds o.1)
]

-- What dup2 leaves.
abbrev onto : ℕ → ℕ → Descriptors → Descriptors
onto new f ds = (new, f) ∷ close_at new ds

Once-onto : (new f : ℕ) (ds : Descriptors) → Once (numbers ds) → Once (numbers (onto new f ds))
Once-onto new f ds o = (
  unlisted new (close_at new ds) (rw (file_at-close_at new new ds, ==_refl new) refl),
  Once-close_at new ds o,
)

file_at-onto :
    (new f j : ℕ) (ds : Descriptors)
    → file_at j (onto new f ds) ≡ (if new == j then some f else file_at j ds)
unfolding file_at
file_at-onto new f j ds = ground (arith, file_at-close_at new j ds)

dup2_lem :
    (old new f : ℕ) (ds : Descriptors)
    → new < old
    → file_at old ds ≡ some f
    → dup2 old new ds ≡ ok (onto new f ds)
unfolding dup2
dup2_lem old new f ds h e = rw e (ground (arith, h))

-- What is left when the directory is closed too.
left_open :
    (after dir file j : ℕ) (ds t : Descriptors)
    → after < dir
    → file_at j t ≡ (
        if leb j after || j == dir
        then file_at j ((dir, file) ∷ ds)
        else (if among (dir ∷ numbers ds) j then none else file_at j ((dir, file) ∷ ds)))
    → file_at j (close_at dir t) ≡ (if leb j after then file_at j ds else none)
unfolding file_at
left_open after dir file j ds t h at = ground (arith, h, at, file_at-close_at dir j t, absent ds j)

-- The directory lists every open descriptor by its name.
abbrev pub listing : (ℕ → Bytes) → Descriptors → List Bytes
listing name ds = map name (numbers ds)

-- The file behind each of the first three descriptors, and nothing else.
abbrev pub three : ℕ → ℕ → ℕ → ℕ → Option ℕ
three a b c j =
    if j == 0 then some a else if j == 1 then some b else if j == 2 then some c else none

module _ (strtol : Bytes → Option ℕ) (name : ℕ → Bytes) (named : (n : ℕ) → strtol (name n) ≡ some n)
    (no_dot : (n : ℕ) → starts_with_dot (name n) ≡ false) where
  -- What the loop leaves open, where the entries are the names of open descriptors, each once.
  close_entries_lem :
      (after dir : ℕ) (xs : List ℕ) (ds : Descriptors)
      → Once xs
      → All (Open ds) xs
      → (t : Descriptors) × (close_entries strtol after dir (map name xs) ds ≡ ok t)
        × ((j : ℕ)
            → file_at j t ≡ (
                if leb j after || j == dir
                then file_at j ds
                else (if among xs j then none else file_at j ds)))
  unfolding close_entries close_checked
  close_entries_lem after dir [] ds o p = (ds, refl, λ j. ground arith)
  close_entries_lem after dir (x ∷ xs) ds o p = elim (Bool-cases (leb x after || x == dir)) [
    | inl t ↦
        let (u, run, at) = close_entries_lem after dir xs ds o.1 p.1 in
        (u, rw (no_dot x) (rw (named x) (rw t run)), λ j. ground (arith, at j, t))
    | inr f ↦
        let (file, e) = p.0 in
        let (u, run, at) =
          close_entries_lem after dir xs (close_at x ds) o.1 (Open-close_at x ds xs p.1 o.0) in
        (
          u,
          rw (no_dot x) (rw (named x) (rw f (rw e run))),
          λ j. ground (arith, at j, f, file_at-close_at x j ds),
        )
  ]

  -- CloseFDsAfter closes what is open above a descriptor, and the directory that it reads.
  close_fds_lem :
      (after dir file : ℕ) (ds : Descriptors)
      → after < dir
      → Once (numbers ds)
      → file_at dir ds ≡ none
      → (t : Descriptors) × (close_fds_after strtol after (some (dir, file)) (listing name) ds
          ≡ ok t)
        × ((j : ℕ) → file_at j t ≡ (if leb j after then file_at j ds else none))
  unfolding close_fds_after
  close_fds_lem after dir file ds h o e =
      let opened = (dir, file) ∷ ds in
      let (t, run, at) =
        close_entries_lem after dir (numbers opened) opened (unlisted dir ds e, o)
          (all-Open opened) in
      (
        close_at dir t,
        ap (λ r. r >>= λ u. ok (close_at dir u)) run,
        λ j. left_open after dir file j ds t h (at j),
      )

  -- Where the ends of the pipes and the descriptor of the directory are above 2 and the directory opens
  -- and lists each open descriptor once: the child of run has, before it becomes the command, the ends
  -- of its pipes as 0, 1 and 2 and no other descriptor.
  pub child_lem :
      (read_in write_out write_err dir file fi fo fe : ℕ) (ds : Descriptors)
      → 2 < read_in
      → 2 < write_out
      → 2 < write_err
      → 2 < dir
      → Once (numbers ds)
      → file_at read_in ds ≡ some fi
      → file_at write_out ds ≡ some fo
      → file_at write_err ds ≡ some fe
      → file_at dir ds ≡ none
      → (t : Descriptors) × (child strtol read_in write_out write_err
            (some (dir, file))
            (listing name)
            ds
          ≡ ok t)
        × ((j : ℕ) → file_at j t ≡ three fi fo fe j)
  unfolding child
  child_lem read_in write_out write_err dir file fi fo fe ds hi ho he hd once ei eo ee ed =
      let a = onto 0 fi ds in
      let b = onto 1 fo a in
      let c = onto 2 fe b in
      let first = dup2_lem read_in 0 fi ds (omega arith) ei in
      let second =
        dup2_lem write_out 1 fo a (omega arith)
          (ground (arith, eo, file_at-onto 0 fi write_out ds)) in
      let third =
        dup2_lem write_err 2 fe b (omega arith)
          (ground (arith, ee, file_at-onto 0 fi write_err ds, file_at-onto 1 fo write_err a)) in
      let ed' : file_at dir c ≡ none =
        ground
          (arith, ed, file_at-onto 0 fi dir ds, file_at-onto 1 fo dir a, file_at-onto 2 fe dir b) in
      let (t, run, at) =
        close_fds_lem 2 dir file c hd (Once-onto 2 fe b (Once-onto 1 fo a (Once-onto 0 fi ds once)))
          ed' in
      (
        t,
        rw first (rw second (rw third run)),
        λ j.
            ground
              (arith, at j, file_at-onto 0 fi j ds, file_at-onto 1 fo j a, file_at-onto 2 fe j b),
      )
