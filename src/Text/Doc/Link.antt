-- ===== src/Text/Doc/Link.antt =====
-- Linking a new character between two neighbours of the store.

use ced.Base.{
  ℕ, ◌≡◌, ◌≢◌, sym, refl, true, none, some, List, [], ◌∷◌, ◌++◌, All, All-append, All-left,
  All-right, arith, ◌==◌, if◌then◌else◌, subst, append_assoc,
}
use ced.Ids.{Id64}
use ced.Avl.Map.{Avl, lookup, lookup-add}
use ced.Avl.Set.Keys
use ced.Text.{CharInfo, link_char}
use ced.Links.{Linked, Distinct, Linked-insert, Distinct-insert, Distinct-middle}
use ced.Text.Doc.{Cell, ids, ids-append, next_of, prev_of, Holds, IsStore, inserted}

abbrev new_char : ℕ → Id64 → Id64 → CharInfo
new_char c after before = record {
  visible = true;
  chr = c;
  next = before;
  prev = after;
  after = after;
  before = before;
  annotations = Keys.empty;
}

lookup-link_char :
    (chars : Avl CharInfo) (i : Id64) (c : ℕ) (a b : Id64) (caft cbef : CharInfo) (j : Id64)
    → lookup (link_char chars i c a b caft cbef) j ≡ (
        if b == j
        then some (record cbef { prev = i })
        else (if i == j
            then some (new_char c a b)
            else (if a == j then some (record caft { next = i }) else lookup chars j)))
unfolding link_char
lookup-link_char chars i c a b caft cbef j = rw (
  lookup-add _ b (record cbef { prev = i }) j,
  lookup-add _ i (new_char c a b) j,
  lookup-add chars a (record caft { next = i }) j,
)

-- The store after link_char holds the document with the new character in its place.
module _ (chars : Avl CharInfo) (i : Id64) (c : ℕ) (l : List Cell) (a b : Cell) (r : List Cell)
    (caft cbef : CharInfo) (st : IsStore chars (l ++ a ∷ b ∷ r))
    (at_a : lookup chars a.id ≡ some caft) (at_b : lookup chars b.id ≡ some cbef)
    (fresh : All (λ x. x ≢ i) (ids (l ++ a ∷ b ∷ r))) where
  abbrev chars' : Avl CharInfo
  chars' = link_char chars i c a.id b.id caft cbef

  next-link_char : (x : ℕ) → x ≢ a.id → x ≢ i → next_of chars' x ≡ next_of chars x
  next-link_char x p q = rw (lookup-link_char chars i c a.id b.id caft cbef x) (ground arith)

  prev-link_char : (x : ℕ) → x ≢ b.id → x ≢ i → prev_of chars' x ≡ prev_of chars x
  prev-link_char x p q = rw (lookup-link_char chars i c a.id b.id caft cbef x) (ground arith)

  held-link_char : (x : Cell) → x.id ≢ i → Holds chars x → Holds chars' x
  held-link_char x p h = rw (lookup-link_char chars i c a.id b.id caft cbef x.id) (ground arith)

  ids_split : ids (l ++ a ∷ b ∷ r) ≡ ids l ++ a.id ∷ b.id ∷ ids r
  ids_split = ids-append l (a ∷ b ∷ r)

  ends_ne : (a.id ≢ b.id) × (a.id ≢ i) × (b.id ≢ i)
  ends_ne =
      let d = Distinct-middle (ids l) a.id (b.id ∷ ids r) (subst Distinct ids_split st.distinct) in
      let f =
        All-right _ (ids l) (a.id ∷ b.id ∷ ids r) (subst (All (λ x. x ≢ i)) ids_split fresh) in
      (d.1.0, f.0, f.1.0)

  at_new : lookup chars' i ≡ some (new_char c a.id b.id)
  at_new = rw (lookup-link_char chars i c a.id b.id caft cbef i) (ground (arith, ends_ne))

  at_a' : lookup chars' a.id ≡ some (record caft { next = i })
  at_a' = rw (lookup-link_char chars i c a.id b.id caft cbef a.id) (ground (arith, ends_ne))

  at_b' : lookup chars' b.id ≡ some (record cbef { prev = i })
  at_b' = rw (lookup-link_char chars i c a.id b.id caft cbef b.id) (ground arith)

  held-All :
      (xs : List Cell) → All (λ x. x ≢ i) (ids xs) → All (Holds chars) xs → All (Holds chars') xs
  held-All [] p h = tt
  held-All (x ∷ xs) p h = (held-link_char x p.0 h.0, held-All xs p.1 h.1)

  regroup : (m : List Id64) → (ids l ++ a.id ∷ []) ++ m ≡ ids l ++ a.id ∷ m
  regroup m = append_assoc (ids l) (a.id ∷ []) m

  new_ids_split : ids (l ++ a ∷ inserted i c a.id b.id ∷ b ∷ r) ≡ ids l ++ a.id ∷ i ∷ b.id ∷ ids r
  new_ids_split = ids-append l (a ∷ inserted i c a.id b.id ∷ b ∷ r)

  link_char_absent :
      (j : Id64) → All (λ x. x ≢ j) (ids l ++ a.id ∷ i ∷ b.id ∷ ids r) → lookup chars' j ≡ none
  link_char_absent j h =
      let f = All-left _ (ids l) (a.id ∷ i ∷ b.id ∷ ids r) h in
      let g = All-right _ (ids l) (a.id ∷ i ∷ b.id ∷ ids r) h in
      let old = st.absent j (
        subst (All (λ x. x ≢ j)) (sym ids_split)
          (All-append _ (ids l) (a.id ∷ b.id ∷ ids r) f (g.0, g.1.1))) in
      rw (lookup-link_char chars i c a.id b.id caft cbef j)
        (ground (arith, g.0, g.1.0, g.1.1.0, old))

  pub link_char-IsStore : IsStore chars' (l ++ a ∷ inserted i c a.id b.id ∷ b ∷ r)
  link_char-IsStore = record {
    linked = rw (ids-append l (a ∷ inserted i c a.id b.id ∷ b ∷ r)) (
        Linked-insert (next_of chars) (prev_of chars) (next_of chars') (prev_of chars') (ids l) a.id
          i b.id (ids r) next-link_char prev-link_char (rw (at_a', at_new) (refl, refl))
          (rw (at_new, at_b') (refl, refl)) (subst (All (λ x. x ≢ i)) ids_split fresh)
          (subst Distinct ids_split st.distinct)
          (subst (Linked (next_of chars) (prev_of chars)) ids_split st.linked));
    distinct =
        rw (ids-append l (a ∷ inserted i c a.id b.id ∷ b ∷ r), ← regroup (i ∷ b.id ∷ ids r))
          (Distinct-insert (ids l ++ a.id ∷ []) i (b.id ∷ ids r)
            (rw (regroup (b.id ∷ ids r)) (subst Distinct ids_split st.distinct))
            (rw (regroup (b.id ∷ ids r)) (subst (All (λ x. x ≢ i)) ids_split fresh)));
    held =
        let f = subst (All (λ x. x ≢ i)) ids_split fresh in
        let right = All-right _ l (a ∷ b ∷ r) st.held in
        let f' = All-right _ (ids l) (a.id ∷ b.id ∷ ids r) f in
        All-append _ l (a ∷ inserted i c a.id b.id ∷ b ∷ r)
          (held-All l (All-left _ (ids l) (a.id ∷ b.id ∷ ids r) f)
            (All-left _ l (a ∷ b ∷ r) st.held))
          (held-link_char a f'.0 right.0, (rw at_new, held-All (b ∷ r) f'.1 right.1));
    absent = λ j h. link_char_absent j (subst (All (λ x. x ≢ j)) new_ids_split h);
  }
