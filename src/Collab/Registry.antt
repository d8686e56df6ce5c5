-- ===== src/Collab/Registry.antt =====
-- Which collaborators a buffer gets: buffer.h's CLIENT_COLLABORATOR and SERVER_COLLABORATOR, buffer.cc's
-- CollaboratorRegistry, the conditions that the collaborators' files give, and Register of
-- regex_highlight_collaborator.cc. The order of the registrations is given.
use ced.Base.{
  not, ◌&&◌, ◌||◌, ◌≡◌, refl, if◌then◌else◌, Bool, true, false, Bool-cases, inl, inr, List, [], ◌∷◌,
  All, bytes, arith,
}
use ced.Proto.{Bytes}
use ced.Text.Annotator.{equal_bytes}

pub data Registered : Type 0 where
  terminal : Registered
  libclang : Registered
  clang_format : Registered
  fixit : Registered
  godbolt : Registered
  io : Registered
  referenced_file : Registered
  -- Register::Type, with the extensions that it is given.
  regex_highlight : List Bytes → Registered

-- What of a buffer the conditions look at; `extension` is that of its file's name.
pub record Opened : Type 0 where
  pub has_project : Bool
  pub synthetic : Bool
  pub extension : Bytes

unfoldable pub is_server : Opened → Bool
is_server b = b.has_project

unfoldable pub is_client : Opened → Bool
unfolding is_server
is_client b = not (is_server b)

unfoldable pub read_only : Opened → Bool
read_only b = false

-- `for (auto mext : ...) if (fext == mext) return true; return false;`
unfoldable pub has_extension : List Bytes → Bytes → Bool
has_extension [] fext = false
has_extension (mext ∷ rest) fext = equal_bytes fext mext || has_extension rest fext

abbrev pub cxx_extensions : List Bytes
cxx_extensions =
    bytes ".c"
    ∷ bytes ".cxx"
    ∷ bytes ".cpp"
    ∷ bytes ".C"
    ∷ bytes ".cc"
    ∷ bytes ".h"
    ∷ bytes ".H"
    ∷ bytes ".hpp"
    ∷ bytes ".hxx"
    ∷ []

abbrev pub format_extensions : List Bytes
format_extensions =
    bytes ".c"
    ∷ bytes ".cxx"
    ∷ bytes ".cpp"
    ∷ bytes ".C"
    ∷ bytes ".cc"
    ∷ bytes ".h"
    ∷ bytes ".H"
    ∷ bytes ".hpp"
    ∷ bytes ".hxx"
    ∷ bytes ".proto"
    ∷ bytes ".js"
    ∷ bytes ".java"
    ∷ bytes ".m"
    ∷ []

-- ShouldAdd of each.
unfoldable pub should_add : Registered → Opened → Bool
unfolding has_extension read_only
should_add terminal b = true
should_add libclang b = has_extension cxx_extensions b.extension
should_add clang_format b = has_extension format_extensions b.extension
should_add fixit b = not (read_only b)
should_add godbolt b = has_extension cxx_extensions b.extension
should_add io b = not b.synthetic
should_add referenced_file b = true
should_add (regex_highlight extensions) b = has_extension extensions b.extension

unfoldable pub client_side : Registered → Bool
client_side terminal = true
client_side libclang = false
client_side clang_format = false
client_side fixit = false
client_side godbolt = false
client_side io = false
client_side referenced_file = false
client_side (regex_highlight extensions) = false

-- Whether the registered function makes its collaborator: that of IMPL_COLLABORATOR, or of Type.
unfoldable pub makes : Registered → Opened → Bool
unfolding is_client should_add client_side
makes r b = (if client_side r then is_client b else not (is_client b)) && should_add r b

-- Run: the collaborators that are made, in order.
unfoldable pub run_registry : List Registered → Opened → List Registered
unfolding makes
run_registry [] b = []
run_registry (r ∷ rs) b = let rest = run_registry rs b in if makes r b then r ∷ rest else rest

-- A buffer gets only the collaborators of its own side, and each of these wants it.
pub run_registry_lem :
    (rs : List Registered) (b : Opened)
    → All (λ r. (client_side r ≡ is_client b) × (should_add r b ≡ true)) (run_registry rs b)
unfolding run_registry makes
run_registry_lem [] b = tt
run_registry_lem (r ∷ rs) b = elim (Bool-cases (makes r b)) [
  | inl e ↦
      rw (e, run_registry)
        (
          (
            side (client_side r) (is_client b) (should_add r b) e,
            adds (client_side r) (is_client b) (should_add r b) e,
          ),
          run_registry_lem rs b,
        )
  | inr e ↦ rw (e, run_registry) (run_registry_lem rs b)
]
  where
    side : (c i a : Bool) → ((if c then i else not i) && a) ≡ true → c ≡ i
    side true true a h = refl
    side false false a h = refl
    side true false a h = absurd (ground (arith, h))
    side false true a h = absurd (ground (arith, h))

    adds : (c i a : Bool) → ((if c then i else not i) && a) ≡ true → a ≡ true
    adds true true a h = h
    adds false false a h = h
    adds true false a h = absurd (ground (arith, h))
    adds false true a h = absurd (ground (arith, h))
