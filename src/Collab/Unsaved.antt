-- ===== src/Collab/Unsaved.antt =====
-- libclang_collaborator.cc, the class ClangEnv: the contents of the files that are open, which libclang
-- reads in place of the files, and IsPunctuation. `unsaved_files_` is an association list; the
-- absolute path of a file is a parameter.
use ced.Base.{
  ℕ, ◌==◌, ◌||◌, ◌≡◌, refl, if◌then◌else◌, Bool, false, Bool-cases, inl, inr, Option, none, some,
  List, [], ◌∷◌, length, bytes,
}
use ced.Proto.{Bytes}
use ced.Text.Annotator.{equal_bytes, equal_bytes_refl}

pub record CxUnsavedFile : Type 0 where
  pub filename : Bytes
  pub contents : Bytes
  pub length_of : ℕ

abbrev pub Unsaved : Type 0
Unsaved = List (Bytes × Bytes)

-- `unsaved_files_[key] = contents`, `erase(key)`, and what is under a key.
unfoldable pub put_file : Bytes → Bytes → Unsaved → Unsaved
put_file key contents [] = (key, contents) ∷ []
put_file key contents ((k, c) ∷ fs) =
    let rest = put_file key contents fs in
    if equal_bytes k key then (k, contents) ∷ fs else (k, c) ∷ rest

unfoldable pub erase_file : Bytes → Unsaved → Unsaved
erase_file key [] = []
erase_file key ((k, c) ∷ fs) =
    let rest = erase_file key fs in if equal_bytes k key then rest else (k, c) ∷ rest

module _ (absolute : Bytes → Bytes) where
  unfoldable pub update_unsaved_file : Bytes → Bytes → Unsaved → Unsaved
  unfolding put_file
  update_unsaved_file filename contents = put_file (absolute filename) contents

  unfoldable pub clear_unsaved_file : Bytes → Unsaved → Unsaved
  unfolding erase_file
  clear_unsaved_file filename = erase_file (absolute filename)

unfoldable pub get_unsaved_files : Unsaved → List CxUnsavedFile
get_unsaved_files [] = []
get_unsaved_files ((k, c) ∷ fs) =
    record { filename = k; contents = c; length_of = length c } ∷ get_unsaved_files fs

-- The collaborator's destructor: the files that are left, and whether it disposes of a unit.
unfoldable pub forget_buffer : (Bytes → Bytes) → Bytes → Option ℕ → Unsaved → Unsaved × Option ℕ
unfolding clear_unsaved_file
forget_buffer absolute filename tu fs = (clear_unsaved_file absolute filename fs, tu)

abbrev punctuation : Bytes
punctuation = bytes "\n(){}[]<>|&?/,.=+-*^%#!~\"\t "

abbrev one_of : Bytes → ℕ → Bool
one_of [] c = false
one_of (p ∷ ps) c = c == p || one_of ps c

unfoldable pub is_punctuation : ℕ → Bool
is_punctuation c = one_of punctuation c

-- What libclang reads under a name: the first file of that name.
abbrev pub contents_of : Bytes → List CxUnsavedFile → Option Bytes
contents_of key [] = none
contents_of key (f ∷ fs) =
    let rest = contents_of key fs in if equal_bytes f.filename key then some f.contents else rest

-- What libclang is given after a file is updated or cleared.
pub contents_of-put_file :
    (key contents : Bytes) (fs : Unsaved)
    → contents_of key (get_unsaved_files (put_file key contents fs)) ≡ some contents
unfolding put_file get_unsaved_files
contents_of-put_file key contents [] = rw (equal_bytes_refl key) refl
contents_of-put_file key contents ((k, c) ∷ fs) = elim (Bool-cases (equal_bytes k key)) [
  | inl e ↦ rw (e, get_unsaved_files) (rw e refl)
  | inr e ↦ rw (e, get_unsaved_files) (rw e (contents_of-put_file key contents fs))
]

pub contents_of-erase_file :
    (key : Bytes) (fs : Unsaved) → contents_of key (get_unsaved_files (erase_file key fs)) ≡ none
unfolding erase_file get_unsaved_files
contents_of-erase_file key [] = refl
contents_of-erase_file key ((k, c) ∷ fs) = elim (Bool-cases (equal_bytes k key)) [
  | inl e ↦ rw (e, get_unsaved_files) (contents_of-erase_file key fs)
  | inr e ↦ rw (e, get_unsaved_files) (rw e (contents_of-erase_file key fs))
]
