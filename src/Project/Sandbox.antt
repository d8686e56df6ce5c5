-- ===== src/Project/Sandbox.antt =====
-- server.cc, IsChildOf: which paths a client may open.
use ced.Base.{
  ◌≡◌, ◌≢◌, refl, sym, ap, ◌==◌, ltb, true, false, Bool, ◌≤◌, [], ◌∷◌, length, ◌↔◌, arith,
  Bool-cases, inl, inr, ==_refl, bytes, subst, if◌then◌else◌,
}
use ced.Proto.{Bytes}
use ced.Outcome.{Outcome, ok}
use ced.Text.Annotator.{equal_bytes}
use ced.Project.{Paths}
use ced.Project.Server.{equal_range, is_child_of}

not_true : ok false ≢ ok true
not_true e = ground (arith, e)

equal_range_sound : (hs ns : Bytes) → length ns ≤ length hs → equal_range hs ns ≡ ok true → ns ≡ hs
unfolding equal_range
equal_range_sound [] [] h e = refl
equal_range_sound [] (n ∷ ns) h e = absurd (omega arith)
equal_range_sound (x ∷ hs) [] h e = absurd (ground (arith, e))
equal_range_sound (x ∷ hs) (n ∷ ns) h e = elim (Bool-cases (x == n)) [
  | inl q ↦
      let later = equal_range_sound hs ns (omega arith) (rw (q, equal_range) at e) in
      let same : n ≡ x = ground (arith, q) in rw same (ap (◌∷◌ x) later)
  | inr q ↦ absurd (not_true (rw (q, equal_range) at e))
]

equal_range_refl : (hs : Bytes) → equal_range hs hs ≡ ok true
unfolding equal_range
equal_range_refl [] = refl
equal_range_refl (h ∷ hs) = rw (==_refl h) (equal_range_refl hs)

-- The two last tests of IsChildOf.
abbrev tests : Bytes → Bytes → Outcome Bool
tests ns hs = if ltb (length hs) (length ns) then ok false else equal_range hs ns

tests_sound : (ns hs : Bytes) → tests ns hs ≡ ok true → ns ≡ hs
tests_sound ns hs e = elim (Bool-cases (ltb (length hs) (length ns))) [
  | inl q ↦ absurd (not_true (rw q at e))
  | inr q ↦ equal_range_sound hs ns (ground (arith, q)) (rw q at e)
]

tests_refl : (hs : Bytes) → tests hs hs ≡ ok true
tests_refl hs =
    let same : ltb (length hs) (length hs) ≡ false = ground arith in rw same (equal_range_refl hs)

module _ {ℓ} {FilePath : Type ℓ} (paths : Paths FilePath) (remove_filename : FilePath → FilePath)
    (needle haystack : FilePath) where
  -- For a root whose last part is not a dot, IsChildOf answers yes exactly for the paths that have a
  -- file name and whose directory is the root itself: a file further down is refused.
  pub is_child_of_lem :
      equal_bytes (paths.filename (paths.absolute haystack)) (bytes ".") ≡ false
      → (is_child_of paths remove_filename needle haystack ≡ ok true) ↔ (
          (paths.has_filename (paths.absolute needle) ≡ true)
          × (paths.text (remove_filename (paths.absolute needle))
              ≡ paths.text (paths.absolute haystack)))
  unfolding is_child_of
  is_child_of_lem h =
      let needle_str = paths.text (remove_filename (paths.absolute needle)) in
      let haystack_str = paths.text (paths.absolute haystack) in
      (
        λ e. elim (Bool-cases (paths.has_filename (paths.absolute needle))) [
          | inl f ↦ (f, tests_sound needle_str haystack_str (rw f at (rw h at e)))
          | inr f ↦ absurd (not_true (rw f at (rw h at e)))
        ],
        λ p. rw h (
            rw p.0 (
              subst (λ (m : Bytes). tests m haystack_str ≡ ok true) (sym p.1)
                (tests_refl haystack_str))),
      )
