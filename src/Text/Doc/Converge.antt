-- ===== src/Text/Doc/Converge.antt =====
-- Two commands that insert a character at the same place, integrated in either order.
use ced.Base.{
  ℕ, zero, suc, sym, ◌+◌, ◌<◌, ◌≡◌, ◌≢◌, refl, List, [], ◌∷◌, ◌++◌, arith, length, length-append,
}
use ced.Ids.{Id64}
use ced.Proto.{Bytes, InsertCommand, Command}
use ced.Proto.Body.{insert}
use ced.Outcome.{ok}
use ced.Text.{AnnotatedString, insert_char, insert_chars, integrate_insert}
use ced.Text.Integrate.{integrate, integrate_all, integrate_body}
use ced.Text.Scan.{scan_text}
use ced.Text.Doc.{Cell, begin_cell, inserted}
use ced.Text.Doc.Insert.{IsText, last_cell, first_cell, insert_char_lem}
use ced.Text.Doc.Block.{Fresh, Fresh-after}
use ced.Text.Doc.Render.{text_of, text_of-append}
use ced.Text.Doc.Walk.{marks_of, scan_text_lem}
use ced.Text.Doc.Twin.{All-ends, right_lem, left_lem}

marks_of-append : (xs ys : List Cell) → marks_of (xs ++ ys) ≡ marks_of xs ++ marks_of ys
unfolding marks_of
marks_of-append [] ys = refl
marks_of-append (x ∷ xs) ys = ground (arith, marks_of-append xs ys)

-- The command that inserts one character at the place between `xs` and `ys`.
abbrev pub place_command : List Cell → List Cell → Id64 → ℕ → Command
place_command xs ys id c =
    let cmd : InsertCommand = record {
      after = (last_cell begin_cell xs).id;
      before = (first_cell ys).id;
      characters = c ∷ [];
    } in
    record { id = id; body = insert cmd }

module _ (s : AnnotatedString) (xs ys : List Cell) where
  -- A command of one character under an unused ID is one round of the loop over its characters.
  one_command :
      (fuel : ℕ) (id : Id64) (c : ℕ) (mid : List Cell) (t : AnnotatedString)
      → IsText s mid
      → Fresh (id ∷ []) mid
      → insert_char fuel fuel s id c (last_cell begin_cell xs).id (first_cell ys).id ≡ ok t
      → integrate fuel s (place_command xs ys id c) ≡ ok t
  unfolding integrate integrate_body integrate_insert insert_chars
  one_command fuel id c mid t text f run =
      rw (text.store.absent id f.0, integrate_insert) (rw (run, insert_chars) refl)

module _ (xs ys : List Cell) (i j : Id64) (c d : ℕ) where
  -- The walk over a document with the two characters at the place, however each was recorded.
  scan_two :
      (fuel : ℕ) (t : AnnotatedString) (a b a' b' : Id64)
      → IsText t (xs ++ inserted i c a b ∷ inserted j d a' b' ∷ ys)
      → length xs + length ys + 2 < fuel
      → scan_text fuel t ≡ ok (text_of xs ++ c ∷ d ∷ text_of ys, marks_of xs ++ i ∷ j ∷ marks_of ys)
  unfolding text_of marks_of
  scan_two fuel t a b a' b' text h =
      let two = inserted i c a b ∷ inserted j d a' b' ∷ ys in
      let run = scan_text_lem t (xs ++ two) fuel text (omega (arith, length-append xs two)) in
      rw (text_of-append xs two) at (rw (marks_of-append xs two) at run)

  -- Two sites insert a character each at one place of the same document, under unused IDs, i the
  -- smaller: whichever command is integrated first, both succeed and the walk over the text gives
  -- the same characters under the same IDs, that of i directly in front of that of j.
  pub insert_twice_lem :
      (s : AnnotatedString) (fuel : ℕ)
      → IsText s (xs ++ ys)
      → i < j
      → Fresh (i ∷ j ∷ []) (xs ++ ys)
      → length xs + length ys + 2 < fuel
      → let first = place_command xs ys i c in
        let second = place_command xs ys j d in
        let chars : Bytes = text_of xs ++ c ∷ d ∷ text_of ys in
        let ids_of : List Id64 = marks_of xs ++ i ∷ j ∷ marks_of ys in
        (t u : AnnotatedString) × (integrate_all fuel s (first ∷ second ∷ []) ≡ ok t)
        × (integrate_all fuel s (second ∷ first ∷ []) ≡ ok u)
        × (scan_text fuel t ≡ ok (chars, ids_of))
        × (scan_text fuel u ≡ ok (chars, ids_of))
  unfolding integrate_all
  insert_twice_lem s zero text lt f h = absurd (omega arith)
  insert_twice_lem s (suc zero) text lt f h = absurd (omega arith)
  insert_twice_lem s (suc (suc g)) text lt f h =
      let fuel = suc (suc g) in
      let a = (last_cell begin_cell xs).id in
      let b = (first_cell ys).id in
      let below : i ≢ j = λ e. absurd (omega arith) in
      let (s1, run1, text1) = insert_char_lem s xs ys text i c f.0 fuel (suc g) (omega arith) in
      let (s2, run2, text2) = insert_char_lem s xs ys text j d f.1.0 fuel (suc g) (omega arith) in
      let fresh1 = Fresh-after (inserted i c a b) (j ∷ []) xs ys (below, tt) (f.1.0, tt) in
      let fresh2 =
        Fresh-after (inserted j d a b) (i ∷ []) xs ys ((λ e. below (sym e)), tt) (f.0, tt) in
      let apart1 = (All-ends (λ x. x ≢ i) xs ys f.0).1 in
      let apart2 = (All-ends (λ x. x ≢ j) xs ys f.1.0).1 in
      let (t, run_t, text_t) =
        right_lem s1 xs ys (inserted i c a b) text1 refl refl (λ e. apart1 (sym e)) (suc g) g j d lt
          fresh1 (omega arith) in
      let (u, run_u, text_u) =
        left_lem s2 xs ys (inserted j d a b) text2 refl refl (λ e. apart2 (sym e)) (suc g) g i c lt
          fresh2 (omega arith) in
      (
        t,
        u,
        rw (one_command s xs ys fuel i c (xs ++ ys) s1 text (f.0, tt) run1)
            (rw (one_command s1 xs ys fuel j d _ t text1 fresh1 run_t) refl),
        rw (one_command s xs ys fuel j d (xs ++ ys) s2 text (f.1.0, tt) run2)
            (rw (one_command s2 xs ys fuel i c _ u text2 fresh2 run_u) refl),
        scan_two fuel t a b i b text_t h,
        scan_two fuel u a j a b text_u h,
      )
