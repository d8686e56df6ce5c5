-- ===== src/Project/Aspects.antt =====
-- ced_project.cc, bazel_project.cc and clang_project.cc: the aspects that a directory's files give a
-- project, and which directory is its root.
use ced.Base.{
  ℕ, zero, suc, ◌<◌, ◌≡◌, refl, ap, ◌∙◌, append_assoc, ◌||◌, not, if◌then◌else◌, Bool, true, false,
  Bool-cases, inl, inr, Option, none, some, List, [], ◌∷◌, ◌++◌, All, ℤ, pos, negsuc, bytes, arith,
}
use ced.Outcome.{ok, ◌>>=◌}
use ced.Project.{
  negated, below, push_factory, AspectRegistry, register, construct_all, construct_ranked, as_local,
  as_ranked, construct_into, Paths, construct_upwards, new_project, aspect,
}

-- The aspects, by their classes; `global` is one that a global factory makes, of no kind below.
pub data ProjectAspect {ℓ} (FilePath : Type ℓ) : Type ℓ where
  ced_project : FilePath → ProjectAspect FilePath
  bazel_project : FilePath → ProjectAspect FilePath
  clang_project : FilePath → ProjectAspect FilePath
  safe_backup : FilePath → ProjectAspect FilePath
  global : ProjectAspect FilePath

module _ {ℓ} {FilePath : Type ℓ} where
  -- The casts to ProjectRoot, ConfigFile and CompilationDatabase, each with what the aspect answers.
  unfoldable pub root_path : ProjectAspect FilePath → Option FilePath
  root_path (ced_project root) = some root
  root_path (bazel_project root) = some root
  root_path (clang_project cc) = none
  root_path (safe_backup cwd) = some cwd
  root_path global = none

  unfoldable pub compile_commands_file : ProjectAspect FilePath → Option FilePath
  compile_commands_file (ced_project root) = none
  compile_commands_file (bazel_project root) = none
  compile_commands_file (clang_project cc) = some cc
  compile_commands_file (safe_backup cwd) = none
  compile_commands_file global = none

module _ {ℓ} {FilePath : Type ℓ} (paths : Paths FilePath) where
  unfoldable pub config_path : ProjectAspect FilePath → Option FilePath
  config_path (ced_project root) = some (paths.child root (bytes ".ced"))
  config_path (bazel_project root) = none
  config_path (clang_project cc) = none
  config_path (safe_backup cwd) = none
  config_path global = none

  -- The factories.
  unfoldable pub construct_ced : FilePath → Option (ProjectAspect FilePath)
  construct_ced path =
      if paths.exists (paths.child path (bytes ".ced")) then some (ced_project path) else none

  unfoldable pub construct_bazel : FilePath → Option (ProjectAspect FilePath)
  construct_bazel path =
      if paths.exists (paths.child path (bytes "WORKSPACE"))
      then some (bazel_project path)
      else none

  unfoldable pub construct_clang : FilePath → Option (ProjectAspect FilePath)
  construct_clang path =
      let cc = paths.child path (bytes "compile_commands.json") in
      if paths.exists cc then some (clang_project cc) else none

  -- The registry after their registration, beside the global factories.
  unfoldable pub aspect_factories :
      List (ℤ × List (Option (ProjectAspect FilePath)))
      → AspectRegistry FilePath (ProjectAspect FilePath)
  unfolding register push_factory negated below
  aspect_factories globals = register construct_clang (negsuc 99) (
      register construct_bazel (pos 0)
        (register construct_ced (pos 1000) (record { fs = []; fs_glob = globals })))

  -- A directory with a file that makes it a root.
  abbrev pub is_marked : FilePath → Bool
  is_marked path =
      paths.exists (paths.child path (bytes ".ced"))
      || paths.exists (paths.child path (bytes "WORKSPACE"))

  -- The closest such directory, upwards from `path` in at most `n` steps, or else `bottom`.
  abbrev pub closest : ℕ → FilePath → FilePath → FilePath
  closest zero path bottom = bottom
  closest (suc n) path bottom =
      if paths.has_no_parts path
      then bottom
      else (if is_marked path then path else closest n (paths.parent path) bottom)

  abbrev pub up : ℕ → FilePath → FilePath
  up zero path = path
  up (suc n) path = up n (paths.parent path)

  abbrev found : Option FilePath → Option FilePath → Option FilePath
  found none later = later
  found (some p) later = some p

  aspect-append :
      (xs ys : List (ProjectAspect FilePath))
      → aspect root_path (xs ++ ys) ≡ found (aspect root_path xs) (aspect root_path ys)
  unfolding aspect root_path
  aspect-append [] ys = refl
  aspect-append (ced_project root ∷ xs) ys = refl
  aspect-append (bazel_project root ∷ xs) ys = refl
  aspect-append (clang_project cc ∷ xs) ys = aspect-append xs ys
  aspect-append (safe_backup cwd ∷ xs) ys = refl
  aspect-append (global ∷ xs) ys = aspect-append xs ys

  -- A global factory that makes no root.
  abbrev pub IsRootless : Option (ProjectAspect FilePath) → Type ℓ
  IsRootless none = Unit
  IsRootless (some a) = root_path a ≡ none

  abbrev pub AreRootless : List (ℤ × List (Option (ProjectAspect FilePath))) → Type ℓ
  AreRootless globals =
      All (λ (g : ℤ × List (Option (ProjectAspect FilePath))). All IsRootless g.1) globals

  globals_of_one :
      (gs : List (Option (ProjectAspect FilePath))) (path : FilePath)
      → All IsRootless gs
      → aspect root_path (construct_all (as_local gs) path) ≡ none
  unfolding aspect construct_all
  globals_of_one [] path h = refl
  globals_of_one (none ∷ gs) path h = globals_of_one gs path h.1
  globals_of_one (some a ∷ gs) path h = rw (h.0, aspect) (globals_of_one gs path h.1)

  globals_rootless :
      (globals : List (ℤ × List (Option (ProjectAspect FilePath)))) (path : FilePath)
      → AreRootless globals
      → aspect root_path (construct_ranked (as_ranked globals) path) ≡ none
  unfolding aspect construct_ranked
  globals_rootless [] path h = refl
  globals_rootless ((_, gs) ∷ globals) path h =
      rw
        (aspect-append (construct_all (as_local gs) path)
          (construct_ranked (as_ranked globals) path))
        (rw (globals_of_one gs path h.0) (globals_rootless globals path h.1))

  abbrev one : Option (ProjectAspect FilePath) → List (ProjectAspect FilePath)
  one o = elim o [ none ↦ [] | some a ↦ a ∷ [] ]

  -- The aspects of a directory, by which of the three files it has.
  by_files :
      (ced workspace commands : Bool) (path cc : FilePath) (rest : List (ProjectAspect FilePath))
      → aspect root_path rest ≡ none
      → aspect root_path (
          (one (if ced then some (ced_project path) else none)
            ++ (one (if workspace then some (bazel_project path) else none)
                ++ (one (if commands then some (clang_project cc) else none) ++ [])))
          ++ rest)
        ≡ (if ced || workspace then some path else none)
  unfolding aspect root_path
  by_files true workspace commands path cc rest h = refl
  by_files false true commands path cc rest h = refl
  by_files false false true path cc rest h = h
  by_files false false false path cc rest h = h

  in_directory :
      (globals : List (ℤ × List (Option (ProjectAspect FilePath)))) (path : FilePath)
      → AreRootless globals
      → aspect root_path (construct_into (aspect_factories globals) path)
        ≡ (if is_marked path then some path else none)
  unfolding construct_into construct_ranked construct_all aspect_factories construct_ced
      construct_bazel construct_clang register push_factory negated below
  in_directory globals path h =
      by_files (paths.exists (paths.child path (bytes ".ced")))
        (paths.exists (paths.child path (bytes "WORKSPACE")))
        (paths.exists (paths.child path (bytes "compile_commands.json"))) path
        (paths.child path (bytes "compile_commands.json"))
        (construct_ranked (as_ranked globals) path) (globals_rootless globals path h)

  either :
      (m : Bool) (path rest : FilePath)
      → found (if m then some path else none) (some rest) ≡ some (if m then path else rest)
  either true path rest = refl
  either false path rest = refl

  and_above :
      (globals : List (ℤ × List (Option (ProjectAspect FilePath)))) (path up bottom : FilePath)
      (later : List (ProjectAspect FilePath))
      → AreRootless globals
      → aspect root_path (later ++ safe_backup bottom ∷ []) ≡ some up
      → aspect root_path
          ((construct_into (aspect_factories globals) path ++ later) ++ safe_backup bottom ∷ [])
        ≡ some (if is_marked path then path else up)
  and_above globals path up bottom later h at =
      let here = construct_into (aspect_factories globals) path in
      let last = later ++ safe_backup bottom ∷ [] in
      ap (aspect root_path) (append_assoc here later (safe_backup bottom ∷ []))
      ∙ (aspect-append here last
          ∙ (ap (λ o. found o (aspect root_path last)) (in_directory globals path h)
              ∙ (ap (found (if is_marked path then some path else none)) at
                  ∙ either (is_marked path) path up)))

  walk :
      (globals : List (ℤ × List (Option (ProjectAspect FilePath)))) (n fuel : ℕ)
      (path bottom : FilePath)
      → AreRootless globals
      → paths.has_no_parts (up n path) ≡ true
      → n < fuel
      → (as' : List (ProjectAspect FilePath)) × (construct_upwards paths fuel
            (aspect_factories globals)
            path
          ≡ ok as')
        × (aspect root_path (as' ++ safe_backup bottom ∷ []) ≡ some (closest n path bottom))
  unfolding construct_upwards aspect root_path
  walk globals n zero path bottom h top p = absurd (omega arith)
  walk globals zero (suc fuel) path bottom h top p = ([], rw top refl, refl)
  walk globals (suc n) (suc fuel) path bottom h top p =
      elim (Bool-cases (paths.has_no_parts path)) [
        | inl e ↦ ([], rw e refl, rw e refl)
        | inr e ↦
            let (later, run, at) =
              walk globals n fuel (paths.parent path) bottom h top (omega arith) in
            let here = construct_into (aspect_factories globals) path in
            (
              here ++ later,
              rw e (rw run refl),
              rw e
                  (and_above globals path (closest n (paths.parent path) bottom) bottom later h at),
            )
      ]

  -- The directory where the walk starts.
  abbrev pub bottom_of : FilePath → FilePath
  bottom_of root_hint =
      let abs = paths.absolute root_hint in
      if not (paths.is_directory abs) then paths.parent abs else abs

  -- A new Project, where the walk upwards ends after `n` directories and no global factory makes a
  -- root: it is made, and its root is the closest directory, upwards from where the walk starts, that
  -- has a .ced or a WORKSPACE, or else the directory where the walk starts.
  pub project_root_lem :
      (globals : List (ℤ × List (Option (ProjectAspect FilePath)))) (n fuel : ℕ)
      (root_hint : FilePath)
      → AreRootless globals
      → paths.has_no_parts (up n (bottom_of root_hint)) ≡ true
      → n < fuel
      → (as' : List (ProjectAspect FilePath)) × (new_project paths fuel
            (aspect_factories globals)
            safe_backup
            root_hint
          ≡ ok as')
        × (aspect root_path as' ≡ some (closest n (bottom_of root_hint) (bottom_of root_hint)))
  unfolding new_project
  project_root_lem globals n fuel root_hint h top p =
      let bottom = bottom_of root_hint in
      let (as', run, at) = walk globals n fuel bottom bottom h top p in
      (
        as' ++ safe_backup bottom ∷ [],
        ap (λ r. r >>= λ f. ok (f ++ safe_backup bottom ∷ [])) run,
        at,
      )
