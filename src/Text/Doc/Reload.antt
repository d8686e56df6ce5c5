-- ===== src/Text/Doc/Reload.antt =====
-- FromProto of what AsProto makes of a text that holds a document, as a Buffer's client gets it.
use ced.Base.{
  ◌≡◌, ap, refl, sym, subst, fun_ext, Option, some, none, List, [], ◌∷◌, map, All-right, All-imp,
  arith, Bool-cases, Option-cases, inl, inr, ◌∙◌, ◌==◌,
}
use mathlib.Core.Option
use ced.Ids.{Id64}
use ced.Avl.Map.{Avl, lookup, add, to_list, lookup-add, lookup-find, to_list-IsSorted}
use ced.Avl.Assoc.{find, find-Above_self, IsSorted}
use ced.Avl.Set.Keys
use ced.Text.{AnnotatedString, CharInfo, new_string}
use ced.Text.Messages.{char_msg, load_chars}
use ced.Links.{Linked}
use ced.Text.Doc.{
  Cell, ids, begin_cell, end_cell, enclosed, next_of, prev_of, cell_of, Holds-lookup, IsStore,
}
use ced.Text.Doc.Render.{lookup-two_absent}

-- A character as a message carries it.
abbrev bare : CharInfo → CharInfo
bare ci = record ci { annotations = Keys.empty }

-- What a key has after the loading, from what it had and what was loaded.
abbrev loaded : Option CharInfo → Option CharInfo → Option CharInfo
loaded old none = old
loaded old (some ci) = some (bare ci)

lookup-load_chars :
    (chars : Avl CharInfo) (ms : List (Id64 × CharInfo)) (j : Id64)
    → IsSorted ms
    → lookup (load_chars chars (map char_msg ms)) j ≡ loaded (lookup chars j) (find j ms)
unfolding load_chars char_msg find
lookup-load_chars chars [] j s = refl
lookup-load_chars chars ((i, ci) ∷ ms) j s =
    lookup-load_chars (add chars i (bare ci)) ms j s.1
    ∙ rw (lookup-add chars i (bare ci) j) (elim (Bool-cases (i == j)) [
      | inl t ↦
          let e : i ≡ j = ground (arith, t) in
          rw (t, subst (λ k. find k ms ≡ none) e (find-Above_self i ms s.0)) refl
      | inr t ↦ rw t refl
    ])

-- FromProto of AsProto leaves each character what it was, but for its annotations.
module _ (s : AnnotatedString) (mid : List Cell) (store : IsStore s.chars (enclosed mid)) where
  abbrev pub reloaded : Avl CharInfo
  reloaded = load_chars new_string.chars (map char_msg (to_list s.chars))

  new_absent : (j : Id64) → lookup s.chars j ≡ none → lookup new_string.chars j ≡ none
  unfolding new_string
  new_absent j e =
      let (bi, at_begin, _) = Holds-lookup s.chars begin_cell store.held.0 in
      let (ei, at_end, _) =
        Holds-lookup s.chars end_cell (All-right _ mid (end_cell ∷ []) store.held.1).0 in
      lookup-two_absent _ _ j (λ q. cc (subst (λ k. lookup s.chars k ≡ some bi) q at_begin, e))
        (λ q. cc (subst (λ k. lookup s.chars k ≡ some ei) q at_end, e))

  lookup-reloaded : (j : Id64) → lookup reloaded j ≡ Option.map bare (lookup s.chars j)
  lookup-reloaded j =
      lookup-load_chars new_string.chars (to_list s.chars) j (to_list-IsSorted s.chars)
      ∙ ap (loaded (lookup new_string.chars j)) (sym (lookup-find s.chars j))
      ∙ elim (Option-cases (lookup s.chars j)) [
        | inl e ↦ rw e (new_absent j e)
        | inr (ci, e) ↦ rw e refl
      ]

  same {ℓ} :
      {B : Type ℓ} (f : CharInfo → B)
      → ((ci : CharInfo) → f (bare ci) ≡ f ci)
      → (j : Id64) → Option.map f (lookup reloaded j) ≡ Option.map f (lookup s.chars j)
  same f h j = rw (lookup-reloaded j) (elim (Option-cases (lookup s.chars j)) [
    | inl e ↦ rw e refl
    | inr (ci, e) ↦ rw e (ap some (h ci))
  ])

  pub reloaded-IsStore : IsStore reloaded (enclosed mid)
  reloaded-IsStore = record {
    linked =
        let next : next_of reloaded ≡ next_of s.chars =
          fun_ext (same (λ ci. ci.next) (λ ci. refl)) in
        let prev : prev_of reloaded ≡ prev_of s.chars =
          fun_ext (same (λ ci. ci.prev) (λ ci. refl)) in
        subst (λ n. Linked n (prev_of reloaded) (ids (enclosed mid))) (sym next)
          (subst (λ p. Linked (next_of s.chars) p (ids (enclosed mid))) (sym prev) store.linked);
    distinct = store.distinct;
    held = All-imp (λ c h. same (cell_of c.id) (λ ci. refl) c.id ∙ h) (enclosed mid) store.held;
    absent = λ j h. rw (lookup-reloaded j) (rw (store.absent j h) refl);
  }
