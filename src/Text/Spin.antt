-- ===== src/Text/Spin.antt =====
-- The loop of IntegrateInsertChar in a round whose filter on L leaves nothing.
use ced.Base.{ℕ, zero, suc, ◌≡◌, ◌≢◌, refl, some, List, [], ◌∷◌, ==_ne}
use ced.Ids.{Id64}
use ced.Outcome.{ok, out_of_fuel}
use ced.Avl.Map.{lookup}
use ced.Text.{AnnotatedString, CharInfo, between, firsts, kept, choose, narrow, insert_char}

-- If the named characters are not neighbours, and no character between them was inserted between
-- two members of that range, then no number of rounds is enough.
pub insert_char_spins :
    (fuel : ℕ) (s : AnnotatedString) (id : Id64) (c : ℕ) (after before : Id64)
    (caft cbef : CharInfo) (inner : List (Id64 × CharInfo))
    → lookup s.chars after ≡ some caft
    → lookup s.chars before ≡ some cbef
    → caft.next ≢ before
    → between fuel s.chars caft.next before ≡ ok inner
    → kept (after ∷ before ∷ firsts inner) inner ≡ []
    → (rounds : ℕ) → insert_char fuel rounds s id c after before ≡ out_of_fuel
unfolding insert_char narrow choose
insert_char_spins fuel s id c after before caft cbef inner at_a at_b far walk nothing zero = refl
insert_char_spins fuel s id c after before caft cbef inner at_a at_b far walk nothing (suc rounds) =
    rw at_a (
      rw at_b (
        rw (==_ne caft.next before far) (
          rw walk (
            rw nothing (
              insert_char_spins fuel s id c after before caft cbef inner at_a at_b far walk nothing
                rounds)))))
