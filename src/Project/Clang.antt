-- ===== src/Project/Clang.antt =====
-- clang_config.cc: where clang's tools and libraries are, and the arguments that a file is compiled
-- with. The file system, the tools' output, RE2, absl's split and the current directory are
-- parameters. A throw is `fault`. The code is that of a system other than macOS.
use ced.Base.{if◌then◌else◌, Bool, true, false, Option, none, some, List, [], ◌∷◌, ◌++◌, bytes}
use ced.Proto.{Bytes}
use ced.Outcome.{Outcome, ok, fault}
use ced.Project.{Paths}

module _ {ℓ} {FilePath : Type ℓ} (paths : Paths FilePath) where
  -- The first path of a list that exists.
  unfoldable pub first_existing : List FilePath → Option FilePath
  first_existing [] = none
  first_existing (p ∷ ps) =
      let later = first_existing ps in if paths.exists p then some p else later

  abbrev pub in_each : List FilePath → Bytes → List FilePath
  in_each [] name = []
  in_each (d ∷ ds) name = paths.child d name ∷ in_each ds name

  abbrev pub found_or : Option FilePath → Outcome FilePath → Outcome FilePath
  found_or none other = other
  found_or (some p) other = ok p

  -- `clang_location.get(version)`, where it is not empty.
  abbrev pub at_location : FilePath → Bytes → Bytes → List FilePath
  at_location location dir name =
      if paths.has_no_parts location then [] else paths.child (paths.child location dir) name ∷ []

  -- ClangToolPath. `location` is what the configuration has for the version.
  unfoldable pub clang_tool_path : List FilePath → Bytes → FilePath → Bytes → Outcome FilePath
  unfolding first_existing
  clang_tool_path search_path [] location tool =
      found_or (first_existing (in_each search_path tool)) fault
  clang_tool_path search_path (v ∷ vs) location tool =
      let versioned = in_each search_path (tool ++ bytes "-" ++ v ∷ vs) in
      found_or (first_existing (at_location location (bytes "bin") tool)) (
        found_or (first_existing versioned)
          (found_or (first_existing (in_each search_path tool)) fault))

  -- ClangLibPath. `lib_dirs` are /lib, /usr/lib and /usr/local/lib.
  unfoldable pub clang_lib_path : List FilePath → Bytes → FilePath → Bytes → Outcome FilePath
  unfolding first_existing
  clang_lib_path lib_dirs [] location lib_base =
      found_or (first_existing (in_each lib_dirs (bytes "lib" ++ lib_base ++ bytes ".so"))) fault
  clang_lib_path lib_dirs (v ∷ vs) location lib_base =
      let lib_name = bytes "lib" ++ lib_base ++ bytes ".so" in
      found_or (first_existing (at_location location (bytes "lib") lib_name)) (
        found_or (first_existing (in_each lib_dirs (lib_name ++ bytes "." ++ v ∷ vs)))
          (found_or (first_existing (in_each lib_dirs lib_name)) fault))

-- The three expressions of ExtractIncludePathsFromTool.
pub record Listing : Type 0 where
  pub starts : Bytes → Bool
  pub entry : Bytes → Option Bytes
  pub ends : Bytes → Bool

-- The loop over the lines of the tool's output, with `started`.
unfoldable pub include_paths : Listing → Bool → List Bytes → List Bytes
include_paths re started [] = []
include_paths re false (line ∷ lines) =
    let on = include_paths re true lines in
    let off = include_paths re false lines in if re.starts line then on else off
include_paths re true (line ∷ lines) =
    let on = include_paths re true lines in
    let off = include_paths re false lines in
    elim (re.entry line) [
      | some ent ↦ bytes "-isystem" ∷ ent ∷ on
      | none ↦ if re.ends line then off else on
    ]

-- The search for .clang_complete, upwards from the current directory: `segments` are the directory's
-- names, the innermost first, and `read_complete` reads the file in a directory, if it can.
unfoldable pub complete_args :
    (List Bytes → Option Bytes) → (Bytes → List Bytes) → List Bytes → List Bytes
complete_args read_complete split [] = []
complete_args read_complete split (seg ∷ segs) =
    let outer = complete_args read_complete split segs in
    elim (read_complete (seg ∷ segs)) [ some content ↦ split content | none ↦ outer ]

-- ClangCompileArgs: `from_db` is what the project's compilation database has for the file, and
-- `listing` are the lines that the tool prints.
unfoldable pub clang_compile_args :
    Option (List Bytes)
    → Listing
    → List Bytes
    → (List Bytes → Option Bytes)
    → (Bytes → List Bytes)
    → List Bytes
    → List Bytes
unfolding include_paths complete_args
clang_compile_args (some args) re listing read_complete split cwd = args
clang_compile_args none re listing read_complete split cwd =
    (bytes "-x" ∷ bytes "c++" ∷ bytes "-std=c++11" ∷ [])
    ++ include_paths re false listing
    ++ complete_args read_complete split cwd

-- ClangCompileCommand: the arguments of the whole command.
unfoldable pub clang_compile_command : List Bytes → Bytes → Bytes → List Bytes
clang_compile_command args src_file dst_file =
    args
    ++ bytes "-g"
      ∷ bytes "-O2"
      ∷ bytes "-DNDEBUG"
      ∷ bytes "-c"
      ∷ bytes "-o"
      ∷ dst_file
      ∷ src_file
      ∷ []
