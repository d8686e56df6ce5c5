-- ===== src/Editor/Copying.antt =====
-- Copy, on a text that holds a document: what Render between two characters gives the clipboard.
use ced.Base.{
  ℕ, zero, suc, ◌<◌, ◌≡◌, ◌≢◌, ap, refl, sym, subst, List, [], ◌∷◌, ◌++◌, All, All-right, arith,
  length, length-append, ==_ne, ==_refl, append_assoc, ◌∙◌, ◌⊎◌, inl, inr,
}
use ced.Ids.{null_id}
use ced.Outcome.{ok}
use ced.Text.{AnnotatedString}
use ced.Text.Iterate.{render_from, render_range, make_ordered_ids}
use ced.Text.Doc.{Cell, ids, ids-append, begin_cell, end_cell}
use ced.Links.{Distinct, Distinct-middle}
use ced.Text.Doc.Insert.{IsText, first_cell}
use ced.Text.Doc.Walk.{IsRest, here, rest, whole}
use ced.Text.Doc.Render.{text_of}
use ced.Text.Doc.Ordered.{order_ids_lem}
use ced.Text.Doc.Climb.{of_ids}
use ced.Editor.{Editor, Clipboard, copy}

module _ (s : AnnotatedString) where
  render_between :
      (zs more : List Cell) (b : Cell) (fuel : ℕ)
      → IsRest s (zs ++ b ∷ more)
      → All (λ z. z.id ≢ b.id) zs
      → length zs < fuel
      → render_from fuel s (first_cell (zs ++ b ∷ more)).id b.id ≡ ok (text_of zs)
  unfolding render_from text_of
  render_between zs more b zero r o h = absurd (omega arith)
  render_between [] more b (suc fuel) r o h = rw (==_refl b.id) refl
  render_between (z ∷ zs) more b (suc fuel) r o h =
      let k = here s z (zs ++ b ∷ more) r in
      let ih = render_between zs more b fuel (rest s z (zs ++ b ∷ more) r) o.1 (omega arith) in
      rw (==_ne z.id b.id o.0) (rw k.at_z (rw k.onto (rw ih (ground (arith, k.visible, k.chr)))))

  skip : (xs more : List Cell) → IsRest s (xs ++ more) → IsRest s more
  skip [] more r = r
  skip (x ∷ xs) more r = skip xs more (rest s x (xs ++ more) r)

module _ (s : AnnotatedString) (xs : List Cell) (a : Cell) (ys : List Cell) (b : Cell)
    (zs : List Cell) (fuel : ℕ) (text : IsText s (xs ++ a ∷ (ys ++ b ∷ zs)))
    (enough : length (xs ++ a ∷ (ys ++ b ∷ zs)) < fuel) where
  before_b : All (λ z. z.id ≢ b.id) (a ∷ ys)
  before_b =
      let e : (xs ++ a ∷ (ys ++ b ∷ zs)) ++ end_cell ∷ []
          ≡ xs ++ (a ∷ ys) ++ b ∷ (zs ++ end_cell ∷ []) =
        append_assoc xs (a ∷ (ys ++ b ∷ zs)) (end_cell ∷ [])
        ∙ ap (λ m. xs ++ a ∷ m) (append_assoc ys (b ∷ zs) (end_cell ∷ []))
        ∙ sym (append_assoc xs (a ∷ ys) (b ∷ (zs ++ end_cell ∷ []))) in
      let d =
        subst Distinct (ap ids e ∙ ids-append (xs ++ a ∷ ys) (b ∷ (zs ++ end_cell ∷ [])))
          text.store.distinct.1 in
      let m = (Distinct-middle (ids (xs ++ a ∷ ys)) b.id (ids (zs ++ end_cell ∷ [])) d).0 in
      All-right _ xs (a ∷ ys) (of_ids (λ i. i ≢ b.id) (xs ++ a ∷ ys) m)

  render_to_b : render_from fuel s a.id b.id ≡ ok (text_of (a ∷ ys))
  render_to_b =
      render_between s (a ∷ ys) zs b fuel
        (skip s (begin_cell ∷ xs) (a ∷ (ys ++ b ∷ zs)) (whole s (xs ++ a ∷ (ys ++ b ∷ zs)) text))
        before_b (omega (arith, length-append xs (a ∷ (ys ++ b ∷ zs)), length-append ys (b ∷ zs)))

  -- Render between two characters, given in either order: the visible characters from the one in
  -- front up to the one behind, which is not among them.
  pub render_range_lem :
      (render_range fuel s a.id b.id ≡ ok (text_of (a ∷ ys)))
      × (render_range fuel s b.id a.id ≡ ok (text_of (a ∷ ys)))
  unfolding render_range make_ordered_ids
  render_range_lem =
      let (u, v, _) = order_ids_lem s xs a ys b zs fuel text enough in
      (rw u render_to_b, rw v render_to_b)

-- Copy with a selection between two characters of the document, in either direction: the clipboard has
-- the visible characters from the one in front up to the one behind, without that one.
pub copy_lem :
    (e : Editor) (clip : Clipboard) (xs : List Cell) (a : Cell) (ys : List Cell) (b : Cell)
    (zs : List Cell) (fuel : ℕ)
    → IsText e.content (xs ++ a ∷ (ys ++ b ∷ zs))
    → length (xs ++ a ∷ (ys ++ b ∷ zs)) < fuel
    → e.selection_anchor ≢ null_id
    → ((e.cursor ≡ a.id) × (e.selection_anchor ≡ b.id))
      ⊎ ((e.cursor ≡ b.id) × (e.selection_anchor ≡ a.id))
    → copy fuel e clip ≡ ok (text_of (a ∷ ys))
unfolding copy
copy_lem e clip xs a ys b zs fuel text h n (inl p) =
    rw (==_ne e.selection_anchor null_id n)
      (rw (p.0, p.1) (render_range_lem e.content xs a ys b zs fuel text h).0)
copy_lem e clip xs a ys b zs fuel text h n (inr p) =
    rw (==_ne e.selection_anchor null_id n)
      (rw (p.0, p.1) (render_range_lem e.content xs a ys b zs fuel text h).1)
