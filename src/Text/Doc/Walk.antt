-- ===== src/Text/Doc/Walk.antt =====
-- Walking the visible characters of a text that holds a document.
use ced.Base.{
  ℕ, zero, suc, ◌<◌, ◌≡◌, ◌≢◌, ap, refl, some, List, [], ◌∷◌, ◌++◌, All, arith, if◌then◌else◌,
  length, ==_ne, Bool-cases, inl, inr,
}
use ced.Ids.{Id64, end_id}
use ced.Outcome.{ok}
use ced.Avl.Map.{lookup}
use ced.Text.{AnnotatedString, CharInfo}
use ced.Text.Iterate.{iterator, iter_next, all_next, settle_next, settle_prev}
use ced.Text.Scan.{scan_from, scan_text}
use ced.Links.{Linked}
use ced.Text.Doc.{Cell, ids, begin_cell, end_cell, next_of, prev_of, Holds, Holds-lookup}
use ced.Text.Doc.Insert.{IsText, first_cell, before_end}
use ced.Text.Doc.Render.{text_of, next_first}

-- The IDs of the visible characters.
unfoldable pub marks_of : List Cell → List Id64
marks_of [] = []
marks_of (c ∷ cs) = if c.visible then c.id ∷ marks_of cs else marks_of cs

-- A document from its first visible character on.
unfoldable pub from_visible : List Cell → List Cell
from_visible [] = []
from_visible (c ∷ cs) = if c.visible then c ∷ cs else from_visible cs

module _ (s : AnnotatedString) where
  -- What a walk needs of the rest of a document.
  pub record IsRest (zs : List Cell) : Type 0 where
    pub linked : Linked (next_of s.chars) (prev_of s.chars) (ids (zs ++ end_cell ∷ []))
    pub held : All (Holds s.chars) (zs ++ end_cell ∷ [])
    pub inner : All (λ c. c.id ≢ end_id) zs

  -- What the store has of the first character.
  pub record Here (z : Cell) (zs : List Cell) : Type 0 where
    pub ci : CharInfo
    pub at_z : lookup s.chars z.id ≡ some ci
    pub visible : ci.visible ≡ z.visible
    pub chr : ci.chr ≡ z.chr
    pub onto : ci.next ≡ (first_cell zs).id

  pub here : (z : Cell) (zs : List Cell) → IsRest (z ∷ zs) → Here z zs
  here z zs r =
      let (ci, at_z, same) = Holds-lookup s.chars z r.held.0 in
      let next : some ci.next ≡ some (first_cell zs).id = rw at_z at (next_first s z zs r.linked) in
      record {
        ci = ci;
        at_z = at_z;
        visible = ap (λ (x : Cell). x.visible) same;
        chr = ap (λ (x : Cell). x.chr) same;
        onto = ground (arith, next);
      }

  pub rest : (z : Cell) (zs : List Cell) → IsRest (z ∷ zs) → IsRest zs
  rest z zs r = record { linked = r.linked.1; held = r.held.1; inner = r.inner.1 }

  pub settle_next_lem :
      (zs : List Cell) (fuel : ℕ)
      → IsRest zs
      → length zs < fuel
      → settle_next fuel s (first_cell zs).id ≡ ok (first_cell (from_visible zs)).id
  unfolding settle_next from_visible
  settle_next_lem zs zero r p = absurd (omega arith)
  settle_next_lem [] (suc fuel) r p = refl
  settle_next_lem (z ∷ zs) (suc fuel) r p =
      let h = here z zs r in
      let ih = settle_next_lem zs fuel (rest z zs r) (omega arith) in
      rw (==_ne z.id end_id r.inner.0) (rw h.at_z (rw h.visible (rw h.onto (ground (arith, ih)))))

  -- MoveNext goes to the next visible character, or to End.
  pub iter_next_lem :
      (z : Cell) (zs : List Cell) (fuel : ℕ)
      → IsRest (z ∷ zs)
      → length zs < fuel
      → iter_next fuel s z.id ≡ ok (first_cell (from_visible zs)).id
  unfolding iter_next all_next
  iter_next_lem z zs fuel r p =
      let h = here z zs r in
      rw (==_ne z.id end_id r.inner.0)
        (rw h.at_z (rw h.onto (settle_next_lem zs fuel (rest z zs r) p)))

  scan_from_lem :
      (zs : List Cell) (fuel rounds : ℕ)
      → IsRest zs
      → length zs < fuel
      → length zs < rounds
      → scan_from fuel rounds s (first_cell (from_visible zs)).id ≡ ok (text_of zs, marks_of zs)
  unfolding scan_from from_visible text_of marks_of
  scan_from_lem zs fuel zero r p q = absurd (omega arith)
  scan_from_lem [] fuel (suc rounds) r p q = refl
  scan_from_lem (z ∷ zs) fuel (suc rounds) r p q = elim (Bool-cases z.visible) [
    | inl e ↦
        let h = here z zs r in
        let next = iter_next_lem z zs fuel r (omega arith) in
        let ih = scan_from_lem zs fuel rounds (rest z zs r) (omega arith) (omega arith) in
        rw e (rw (==_ne z.id end_id r.inner.0) (rw h.at_z (rw next (rw ih (rw h.chr refl)))))
    | inr e ↦
        let ih = scan_from_lem zs fuel (suc rounds) (rest z zs r) (omega arith) (omega arith) in
        rw e ih
  ]

  pub whole : (mid : List Cell) → IsText s mid → IsRest (begin_cell ∷ mid)
  whole mid text = record {
    linked = text.store.linked;
    held = text.store.held;
    inner = before_end (begin_cell ∷ mid) text.store.distinct;
  }

  -- On a text that holds a document the loop ends, with the visible characters and the ID of each.
  pub scan_text_lem :
      (mid : List Cell) (fuel : ℕ)
      → IsText s mid
      → length mid < fuel
      → scan_text fuel s ≡ ok (text_of mid, marks_of mid)
  unfolding scan_text iterator settle_prev
  scan_text_lem mid zero text p = absurd (omega arith)
  scan_text_lem mid (suc fuel) text p =
      let r = whole mid text in
      rw (iter_next_lem begin_cell mid (suc fuel) r p)
        (scan_from_lem mid (suc fuel) (suc fuel) (rest begin_cell mid r) p p)
