-- ===== src/Text/Doc/Block.antt =====
-- A whole insert command whose place is between two neighbours of the document.
use ced.Base.{
  ℕ, zero, suc, ◌+◌, ◌<◌, ◌≡◌, ◌≢◌, sym, ap, refl, List, [], ◌∷◌, ◌++◌, All, arith, subst,
  append_assoc, length, length-append,
}
use ced.Ids.{Id64, next_clock, id_block}
use ced.Proto.{Bytes, InsertCommand}
use ced.Outcome.{ok}
use ced.Proto.Body.{insert}
use ced.Text.Integrate.{integrate}
use ced.Text.{AnnotatedString, insert_char, insert_chars, integrate_insert}
use ced.Links.{Distinct}
use ced.Text.Doc.{Cell, ids, begin_cell, end_cell, enclosed, inserted}
use ced.Text.Doc.Insert.{IsText, last_cell, first_cell, insert_char_lem}

-- The characters that the command stands for: each is inserted behind the one before it.
unfoldable pub block_cells : Id64 → Bytes → Id64 → Id64 → List Cell
block_cells id [] after before = []
block_cells id (c ∷ cs) after before =
    inserted id c after before ∷ block_cells (next_clock id) cs id before

pub last_cell-snoc : (c n : Cell) (xs : List Cell) → last_cell c (xs ++ n ∷ []) ≡ n
last_cell-snoc c n [] = refl
last_cell-snoc c n (x ∷ xs) = last_cell-snoc x n xs

-- None of a list of IDs is in the document.
abbrev pub Fresh : List Id64 → List Cell → Type 0
Fresh js mid = All (λ j. All (λ x. x ≢ j) (ids (enclosed mid))) js

pub All-ids_insert {κ} :
    (P : Id64 → Type κ) (n : Cell) (xs ys : List Cell)
    → P n.id
    → All P (ids ((xs ++ ys) ++ end_cell ∷ []))
    → All P (ids ((xs ++ n ∷ ys) ++ end_cell ∷ []))
All-ids_insert P n [] ys p h = (p, h)
All-ids_insert P n (x ∷ xs) ys p h = (h.0, All-ids_insert P n xs ys p h.1)

pub Fresh-after :
    (n : Cell) (js : List Id64) (xs ys : List Cell)
    → All (λ j. n.id ≢ j) js
    → Fresh js (xs ++ ys)
    → Fresh js (xs ++ n ∷ ys)
Fresh-after n [] xs ys d f = tt
Fresh-after n (j ∷ js) xs ys d f =
    ((f.0.0, All-ids_insert _ n xs ys d.0 f.0.1), Fresh-after n js xs ys d.1 f.1)

module _ (fuel : ℕ) where
  -- The loop of IntegrateInsert.
  insert_chars_lem :
      (cs : Bytes) (i : Id64) (s : AnnotatedString) (xs ys : List Cell) (a : Id64)
      → (last_cell begin_cell xs).id ≡ a
      → IsText s (xs ++ ys)
      → Distinct (id_block i (length cs))
      → Fresh (id_block i (length cs)) (xs ++ ys)
      → length xs + length cs < fuel
      → let b = (first_cell ys).id in
        (t : AnnotatedString) × (insert_chars fuel s i cs a b ≡ ok t)
        × IsText t (xs ++ (block_cells i cs a b ++ ys))
  unfolding insert_chars block_cells id_block
  insert_chars_lem [] i s xs ys a e text d f h = (s, refl, text)
  insert_chars_lem (c ∷ cs) i s xs ys a e text d f h =
      let b = (first_cell ys).id in
      let n = inserted i c a b in
      let (u, run, text_u) = first_char in
      let shift = append_assoc xs (n ∷ []) ys in
      let (t, run', text_t) =
        insert_chars_lem cs (next_clock i) u (xs ++ n ∷ []) ys i
          (ap (λ (x : Cell). x.id) (last_cell-snoc begin_cell n xs))
          (subst (IsText u) (sym shift) text_u) d.1
          (subst (Fresh (id_block (next_clock i) (length cs))) (sym shift)
            (Fresh-after n _ xs ys d.0 f.1))
          (omega (arith, length-append xs (n ∷ []))) in
      (
        t,
        rw run run',
        subst (IsText t) (append_assoc xs (n ∷ []) (block_cells (next_clock i) cs i b ++ ys))
            text_t,
      )
    where
      first_char :
          (t : AnnotatedString) × (insert_char fuel fuel s i c a (first_cell ys).id ≡ ok t)
          × IsText t (xs ++ inserted i c a (first_cell ys).id ∷ ys)
      first_char = rw (← e) (one fuel h)
        where
          one :
              (g : ℕ)
              → length xs + length (c ∷ cs) < g
              → (t : AnnotatedString) × (insert_char fuel g s i c
                    (last_cell begin_cell xs).id
                    (first_cell ys).id
                  ≡ ok t)
                × IsText t (xs ++ inserted i c (last_cell begin_cell xs).id (first_cell ys).id ∷ ys)
          one zero p = absurd (omega arith)
          one (suc g) p = insert_char_lem s xs ys text i c f.0 fuel g (omega arith)

  -- A command under unused, distinct IDs that names two neighbours of the document succeeds, and
  -- leaves a document with its characters between them.
  pub integrate_insert_lem :
      (s : AnnotatedString) (xs ys : List Cell) (i : Id64) (c : ℕ) (cs : Bytes)
      → IsText s (xs ++ ys)
      → Distinct (id_block i (length (c ∷ cs)))
      → Fresh (id_block i (length (c ∷ cs))) (xs ++ ys)
      → length xs + length (c ∷ cs) < fuel
      → let a = (last_cell begin_cell xs).id in
        let b = (first_cell ys).id in
        let cmd : InsertCommand = record { after = a; before = b; characters = c ∷ cs } in
        (t : AnnotatedString) × (integrate fuel s (record { id = i; body = insert cmd }) ≡ ok t)
        × IsText t (xs ++ (block_cells i (c ∷ cs) a b ++ ys))
  unfolding integrate integrate_insert id_block
  integrate_insert_lem s xs ys i c cs text d f h =
      let (t, run, text_t) =
        insert_chars_lem (c ∷ cs) i s xs ys (last_cell begin_cell xs).id refl text d f h in
      (t, rw (text.store.absent i f.0, integrate_insert) run, text_t)
