-- ===== src/Text/ValToId.antt =====
-- annotated_string.h and annotated_string.cc, the maps from a serialized value to its ID that
-- AnnotationEditor keeps: which values a map has, after find, erase and a new entry.
use ced.Base.{
  ◌==◌, ◌||◌, ◌≡◌, refl, Bool, true, false, none, some, [], ◌∷◌, subst, ap, Bool-cases, inl, inr,
  arith,
}
use ced.Ids.{Id64}
use ced.Proto.{Bytes}
use ced.Text.Annotator.{ValToId, equal_bytes, find_id, erase_id, equal_bytes_refl}

unfoldable pub has : ValToId → Bytes → Bool
has [] k = false
has ((j, i) ∷ rest) k = equal_bytes j k || has rest k

abbrev pub Distinct : ValToId → Type 0
Distinct [] = Unit
Distinct ((j, i) ∷ rest) = (has rest j ≡ false) × Distinct rest

pub has_missing : (m : ValToId) (k : Bytes) → find_id m k ≡ none → has m k ≡ false
unfolding has find_id
has_missing [] k e = refl
has_missing ((j, i) ∷ rest) k e = elim (Bool-cases (equal_bytes j k)) [
  | inl t ↦ absurd (ground (arith, e, t))
  | inr f ↦ rw f (has_missing rest k (ground (arith, e, f)))
]

pub has_present : (m : ValToId) (k : Bytes) (i : Id64) → find_id m k ≡ some i → has m k ≡ true
unfolding has find_id
has_present [] k i e = absurd (ground (arith, e))
has_present ((j, i) ∷ rest) k i' e = elim (Bool-cases (equal_bytes j k)) [
  | inl t ↦ rw t refl
  | inr f ↦ rw f (has_present rest k i' (ground (arith, e, f)))
]

pub equal_bytes_same : (x y : Bytes) → equal_bytes x y ≡ true → x ≡ y
unfolding equal_bytes
equal_bytes_same [] [] e = refl
equal_bytes_same [] (y ∷ ys) e = absurd (ground (arith, e))
equal_bytes_same (x ∷ xs) [] e = absurd (ground (arith, e))
equal_bytes_same (x ∷ xs) (y ∷ ys) e = elim (Bool-cases (x == y)) [
  | inl t ↦
      (let p : x ≡ y = ground (arith, t) in
        rw p (ap (λ zs. y ∷ zs) (equal_bytes_same xs ys (ground (arith, e, t)))))
  | inr f ↦ absurd (ground (arith, e, f))
]

pub has-erase_id : (m : ValToId) (k j : Bytes) → has (erase_id m k) j ≡ true → has m j ≡ true
unfolding has erase_id
has-erase_id [] k j e = e
has-erase_id ((h, i) ∷ rest) k j e = elim (Bool-cases (equal_bytes h k)) [
  | inl t ↦ ground (arith, e, t)
  | inr f ↦ elim (Bool-cases (equal_bytes h j)) [
    | inl t ↦ rw t refl
    | inr g ↦ rw g (has-erase_id rest k j (ground (arith, e, f, g)))
  ]
]

pub erase_id-has :
    (m : ValToId) (k j : Bytes) → has m j ≡ true → equal_bytes k j || has (erase_id m k) j ≡ true
unfolding has erase_id
erase_id-has [] k j e = absurd (ground (arith, e))
erase_id-has ((h, i) ∷ rest) k j e = elim (Bool-cases (equal_bytes h k)) [
  | inl t ↦ rw t (subst (λ z. equal_bytes z j || has rest j ≡ true) (equal_bytes_same h k t) e)
  | inr f ↦
      (let r : has rest j ≡ true → equal_bytes k j || has (erase_id rest k) j ≡ true =
          erase_id-has rest k j in
        ground (arith, e, f, r))
]

pub erase_id-gone : (m : ValToId) (k : Bytes) → Distinct m → has (erase_id m k) k ≡ false
unfolding has erase_id
erase_id-gone [] k d = refl
erase_id-gone ((h, i) ∷ rest) k d = elim (Bool-cases (equal_bytes h k)) [
  | inl t ↦ rw t (subst (λ z. has rest z ≡ false) (equal_bytes_same h k t) d.0)
  | inr f ↦ rw (f, f) (erase_id-gone rest k d.1)
]

pub erase_id-Distinct : (m : ValToId) (k : Bytes) → Distinct m → Distinct (erase_id m k)
unfolding erase_id
erase_id-Distinct [] k d = d
erase_id-Distinct ((h, i) ∷ rest) k d = elim (Bool-cases (equal_bytes h k)) [
  | inl t ↦ rw t d.1
  | inr f ↦ rw f (not_has, erase_id-Distinct rest k d.1)
]
  where
    not_has : has (erase_id rest k) h ≡ false
    not_has = elim (Bool-cases (has (erase_id rest k) h)) [
      | inl t ↦ absurd (ground (arith, has-erase_id rest k h t, d.0))
      | inr f ↦ f
    ]

pub or_true : (b : Bool) → b || true ≡ true
or_true b = ground arith

pub none_left : (m : ValToId) → ((k : Bytes) → has m k ≡ false) → m ≡ []
unfolding has
none_left [] h = refl
none_left ((k, i) ∷ rest) h = absurd (ground (arith, h k, equal_bytes_refl k))
