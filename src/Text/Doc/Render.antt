-- ===== src/Text/Doc/Render.antt =====
-- Render and the constructor, on texts that hold a document.

use ced.Base.{
  ℕ, zero, suc, ◌+◌, ◌<◌, ◌≡◌, ◌≢◌, sym, ap, refl, none, some, List, [], ◌∷◌, ◌++◌, All, arith,
  subst, ◌==◌, if◌then◌else◌, length, ==_ne,
}
use ced.Ids.{Id64, begin_id, end_id}
use ced.Proto.{Bytes}
use ced.Outcome.{ok}
use ced.Avl.Map.{lookup, add, empty, lookup-add, lookup-empty}
use ced.Text.{AnnotatedString, new_string, sentinel, line_break}
use ced.Text.Iterate.{render, render_from, make_ordered_ids, order_ids}
use ced.Links.{Linked}
use ced.Text.Doc.{
  Cell, ids, begin_cell, end_cell, enclosed, IsStore, next_of, prev_of, Holds, Holds-lookup,
}
use ced.Text.Doc.Lines.{line_ids}
use ced.Text.Doc.Insert.{IsText, first_cell, before_end}

-- The visible characters.
unfoldable pub text_of : List Cell → Bytes
text_of [] = []
text_of (c ∷ cs) = if c.visible then c.chr ∷ text_of cs else text_of cs

pub text_of-append : (xs ys : List Cell) → text_of (xs ++ ys) ≡ text_of xs ++ text_of ys
unfolding text_of
text_of-append [] ys = refl
text_of-append (x ∷ xs) ys = ground (arith, text_of-append xs ys)

module _ (s : AnnotatedString) where
  pub next_first :
      (z : Cell) (zs : List Cell)
      → Linked (next_of s.chars) (prev_of s.chars) (ids (z ∷ zs ++ end_cell ∷ []))
      → next_of s.chars z.id ≡ some (first_cell zs).id
  next_first z [] k = k.0.0
  next_first z (y ∷ zs) k = k.0.0

  render_suffix :
      (zs : List Cell) (fuel : ℕ)
      → Linked (next_of s.chars) (prev_of s.chars) (ids (zs ++ end_cell ∷ []))
      → All (Holds s.chars) (zs ++ end_cell ∷ [])
      → All (λ c. c.id ≢ end_id) zs
      → length zs < fuel
      → render_from fuel s (first_cell zs).id end_id ≡ ok (text_of zs)
  unfolding render_from text_of
  render_suffix zs zero k h e p = absurd (omega arith)
  render_suffix [] (suc fuel) k h e p = refl
  render_suffix (z ∷ zs) (suc fuel) k h e p =
      let (ci, at_z, same) = Holds-lookup s.chars z h.0 in
      let rest = render_suffix zs fuel k.1 h.1 e.1 (omega arith) in
      let next : some ci.next ≡ some (first_cell zs).id = rw at_z at (next_first z zs k) in
      let onto : ci.next ≡ (first_cell zs).id = ground (arith, next) in
      let step = subst (λ n. render_from fuel s n end_id ≡ ok (text_of zs)) (sym onto) rest in
      rw (==_ne z.id end_id e.0) (
        rw at_z (
          rw step
            (ground (arith, ap (λ (x : Cell). x.visible) same, ap (λ (x : Cell). x.chr) same))))

  -- Where the store of characters holds a document.
  pub render_store :
      (mid : List Cell) (fuel : ℕ)
      → IsStore s.chars (enclosed mid)
      → length mid + 1 < fuel
      → render fuel s ≡ ok (text_of mid)
  unfolding render make_ordered_ids order_ids text_of
  render_store mid fuel store p =
      render_suffix (begin_cell ∷ mid) fuel store.linked store.held
        (before_end (begin_cell ∷ mid) store.distinct) (omega arith)

  -- On a text that holds a document, Render returns the visible characters of it in order.
  pub render_lem :
      (mid : List Cell) (fuel : ℕ)
      → IsText s mid
      → length mid + 1 < fuel
      → render fuel s ≡ ok (text_of mid)
  render_lem mid fuel text p = render_store mid fuel text.store p

lookup-two {ℓ} :
    {V : Type ℓ} (v w : V) (j : Id64)
    → lookup (add (add empty begin_id v) end_id w) j
      ≡ (if end_id == j then some w else (if begin_id == j then some v else none))
lookup-two v w j =
    rw (lookup-add (add empty begin_id v) end_id w j, lookup-add empty begin_id v j, lookup-empty j)

pub lookup-two_absent {ℓ} :
    {V : Type ℓ} (v w : V) (j : Id64)
    → begin_id ≢ j
    → end_id ≢ j
    → lookup (add (add empty begin_id v) end_id w) j ≡ none
lookup-two_absent v w j p q = rw (lookup-two v w j, ==_ne end_id j q, ==_ne begin_id j p)

-- The constructor makes the empty document.
pub new_string-IsText : IsText new_string []
unfolding new_string line_ids
new_string-IsText =
    let v = sentinel 0 end_id in
    let w = sentinel 1 begin_id in
    let m = line_break end_id end_id in
    let n = line_break begin_id begin_id in
    record {
      store = record {
        linked = ((rw (lookup-two v w begin_id), rw (lookup-two v w end_id)), (tt, tt));
        distinct = (((λ e. absurd (omega arith)), tt), (tt, tt));
        held = (rw (lookup-two v w begin_id), (rw (lookup-two v w end_id), tt));
        absent = λ j h. lookup-two_absent v w j h.0 h.1.0;
      };
      lines = record {
        linked = ((rw (lookup-two m n begin_id), rw (lookup-two m n end_id)), (tt, tt));
        absent = λ j h. lookup-two_absent m n j h.0 h.1.0;
      };
    }
