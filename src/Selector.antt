-- ===== src/Selector.antt =====
-- selector.h and selector.cc: whether a theme's selector matches a token's tag. A string is the list
-- of its bytes. `Selector/Embed.antt` compares the matcher with a description of it.
pub mod Embed
use ced.Base.{ℕ, ◌==◌, leb, length, ◌&&◌, if◌then◌else◌, Bool, true, false, List, [], ◌∷◌, ◌++◌}
use ced.Proto.{Bytes}

-- `std::mismatch(...).first == selector.end()`; past the token's end it is not called.
unfoldable pub mismatch_at_end : Bytes → Bytes → Bool
mismatch_at_end [] token = true
mismatch_at_end (c ∷ cs) [] = false
mismatch_at_end (c ∷ cs) (d ∷ ds) = c == d && mismatch_at_end cs ds

unfoldable pub rule_matches : Bytes → Bytes → Bool
rule_matches selector token = leb (length selector) (length token) && mismatch_at_end selector token

-- A vector that is read from its end.
unfoldable pub backwards {ℓ} : {A : Type ℓ} → List A → List A
backwards [] = []
backwards (x ∷ xs) = backwards xs ++ x ∷ []

-- The recursion of selector_detail::SelectorMatches, on both vectors from their ends.
unfoldable pub matches_from_end : List Bytes → List Bytes → Bool
matches_from_end [] tags = true
matches_from_end (sel ∷ sels) [] = false
matches_from_end (sel ∷ sels) (tag ∷ tags) =
    let hit = matches_from_end sels tags in
    let miss = matches_from_end (sel ∷ sels) tags in if rule_matches sel tag then hit else miss

unfoldable pub selector_matches : List Bytes → List Bytes → Bool
selector_matches selector tag = matches_from_end (backwards selector) (backwards tag)
