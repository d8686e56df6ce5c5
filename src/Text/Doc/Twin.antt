-- ===== src/Text/Doc/Twin.antt =====
-- Two sites insert a character each at the same place, and the commands arrive in either order.
use ced.Base.{
  ℕ, suc, ◌<◌, ◌≡◌, ◌≢◌, sym, ap, ◌∙◌, refl, true, false, some, List, [], ◌∷◌, ◌++◌, All, All-right,
  All-left, arith, subst, ◌==◌, ltb, length, length-append, append_assoc, ==_ne, ==_refl,
  Bool-cases, inl, inr,
}
use ced.Ids.{Id64}
use ced.Outcome.{ok}
use ced.Avl.Map.{lookup}
use ced.Text.{AnnotatedString, CharInfo, between, contains, kept, choose, narrow, insert_char}
use ced.Text.Doc.{
  Cell, ids, ids-append, begin_cell, end_cell, enclosed, inserted, Holds, Holds-lookup, cell_of,
}
use ced.Text.Doc.Insert.{
  IsText, last_cell, first_cell, init_cells, rest_cells, cut, ends_held, insert_char_lem,
}
use ced.Text.Doc.Block.{last_cell-snoc, Fresh}

-- What holds of all IDs of a document holds of those at a place.
pub All-ends {κ} :
    (P : Id64 → Type κ) (xs ys : List Cell)
    → All P (ids (enclosed (xs ++ ys)))
    → P (last_cell begin_cell xs).id × P (first_cell ys).id
All-ends P xs ys h =
    let l = init_cells begin_cell xs in
    let a = last_cell begin_cell xs in
    let b = first_cell ys in
    let there = subst (All P) (ap ids (cut xs ys) ∙ ids-append l (a ∷ b ∷ rest_cells ys)) h in
    let right = All-right P (ids l) (ids (a ∷ b ∷ rest_cells ys)) there in (right.0, right.1.0)

-- A character that a command inserted between the two at a place stands there alone.
module _ (s : AnnotatedString) (xs ys : List Cell) (n : Cell) (text : IsText s (xs ++ n ∷ ys))
    (after : n.after ≡ (last_cell begin_cell xs).id) (before : n.before ≡ (first_cell ys).id)
    (apart : n.id ≢ (first_cell ys).id) where
  abbrev a : Cell
  a = last_cell begin_cell xs

  abbrev b : Cell
  b = first_cell ys

  IsText-behind : IsText s ((xs ++ n ∷ []) ++ ys)
  IsText-behind = subst (IsText s) (sym (append_assoc xs (n ∷ []) ys)) text

  n_held : (ci : CharInfo) × (lookup s.chars n.id ≡ some ci) × (cell_of n.id ci ≡ n)
  n_held =
      let inner = All-left (Holds s.chars) (xs ++ n ∷ ys) (end_cell ∷ []) text.store.held.1 in
      Holds-lookup s.chars n (All-right (Holds s.chars) xs (n ∷ ys) inner).0

  n_onto : (ci : CharInfo) × (lookup s.chars n.id ≡ some ci) × (ci.next ≡ b.id)
  n_onto =
      subst (λ (m : Cell). (ci : CharInfo) × (lookup s.chars m.id ≡ some ci) × (ci.next ≡ b.id))
        (last_cell-snoc begin_cell n xs) (ends_held s (xs ++ n ∷ []) ys IsText-behind).0

  -- The range that the loop collects.
  between_lem :
      (fuel : ℕ)
      → (cn : CharInfo) × (between (suc fuel) s.chars n.id b.id ≡ ok ((n.id, cn) ∷ []))
        × (cn.after ≡ a.id)
        × (cn.before ≡ b.id)
  unfolding between
  between_lem fuel =
      let (cn, at_n, same) = n_held in
      let (ci, at_n', onto) = n_onto in
      let one : some cn ≡ some ci = sym at_n ∙ at_n' in
      let next : cn.next ≡ b.id = ground (arith, onto, one) in
      (
        cn,
        rw at_n (rw next (rw (==_refl b.id) refl)),
        ap (λ (x : Cell). x.after) same ∙ after,
        ap (λ (x : Cell). x.before) same ∙ before,
      )

  -- What is collected lies between two of those collected, so it is left by the filter.
  narrow_lem :
      (id : Id64) (cn : CharInfo)
      → cn.after ≡ a.id
      → cn.before ≡ b.id
      → narrow id a.id b.id ((n.id, cn) ∷ []) ≡ choose id a.id (n.id ∷ []) b.id
  unfolding narrow kept contains
  narrow_lem id cn e e' = rw e (
      rw e' (
        rw (==_refl a.id) (
          rw (==_refl b.id)
            (elim (Bool-cases (a.id == b.id)) [ inl x ↦ rw x refl | inr x ↦ rw x refl ]))))

  -- One round of the loop narrows the place to one side of the character.
  round_lem :
      (fuel rounds : ℕ) (id : Id64) (c : ℕ)
      → let p = choose id a.id (n.id ∷ []) b.id in
        insert_char (suc fuel) (suc rounds) s id c a.id b.id
        ≡ insert_char (suc fuel) rounds s id c p.0 p.1
  unfolding insert_char
  round_lem fuel rounds id c =
      let ((caft, at_a, onto), _) = ends_held s xs (n ∷ ys) text in
      let (_, (cbef, at_b)) = ends_held s (xs ++ n ∷ []) ys IsText-behind in
      let (cn, walk, cn_after, cn_before) = between_lem fuel in
      rw at_a (
        rw at_b (
          rw onto (
            rw (==_ne n.id b.id apart) (
              rw walk (
                ap (λ (p : Id64 × Id64). insert_char (suc fuel) rounds s id c p.0 p.1)
                  (narrow_lem id cn cn_after cn_before))))))

  -- A later character goes behind the one that stands there, an earlier one in front of it.
  pub right_lem :
      (fuel rounds : ℕ) (id : Id64) (c : ℕ)
      → n.id < id
      → Fresh (id ∷ []) (xs ++ n ∷ ys)
      → suc (length xs) < suc fuel
      → (t : AnnotatedString) × (insert_char (suc fuel) (suc (suc rounds)) s id c a.id b.id ≡ ok t)
        × IsText t (xs ++ n ∷ inserted id c n.id b.id ∷ ys)
  unfolding choose
  right_lem fuel rounds id c above fresh h =
      let is_above : ltb n.id id ≡ true = ground arith in
      let (t, run, text_t) =
        insert_char_lem s (xs ++ n ∷ []) ys IsText-behind id c
          (subst (λ m. All (λ x. x ≢ id) (ids (enclosed m))) (sym (append_assoc xs (n ∷ []) ys))
            fresh.0)
          (suc fuel) rounds (omega (arith, length-append xs (n ∷ []))) in
      let last = last_cell-snoc begin_cell n xs in
      (
        t,
        round_lem fuel (suc rounds) id c
            ∙ rw is_above (
                subst (λ (m : Cell). insert_char (suc fuel) (suc rounds) s id c m.id b.id ≡ ok t)
                  last run),
        subst (IsText t) (append_assoc xs (n ∷ []) (inserted id c n.id b.id ∷ ys)) (
            subst (λ (m : Cell). IsText t ((xs ++ n ∷ []) ++ inserted id c m.id b.id ∷ ys)) last
              text_t),
      )

  pub left_lem :
      (fuel rounds : ℕ) (id : Id64) (c : ℕ)
      → id < n.id
      → Fresh (id ∷ []) (xs ++ n ∷ ys)
      → suc (length xs) < suc fuel
      → (t : AnnotatedString) × (insert_char (suc fuel) (suc (suc rounds)) s id c a.id b.id ≡ ok t)
        × IsText t (xs ++ inserted id c a.id n.id ∷ n ∷ ys)
  unfolding choose
  left_lem fuel rounds id c below fresh h =
      let is_below : ltb n.id id ≡ false = ground arith in
      let (t, run, text_t) =
        insert_char_lem s xs (n ∷ ys) text id c fresh.0 (suc fuel) rounds (omega arith) in
      (t, round_lem fuel (suc rounds) id c ∙ rw is_below run, text_t)
