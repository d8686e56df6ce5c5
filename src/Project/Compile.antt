-- ===== src/Project/Compile.antt =====
-- compilation_database.cc, the class CompilationDatabase: the arguments that compile_commands.json
-- has for a file, and the cache of them. JSON, the file system and absl's split are parameters.
use ced.Base.{
  ◌==◌, ◌&&◌, ◌||◌, not, if◌then◌else◌, Bool, true, false, Option, none, some, List, [], ◌∷◌, bytes,
}
use ced.Proto.{Bytes}
use ced.Text.Annotator.{equal_bytes}

pub record Entry : Type 0 where
  pub file : Bytes
  pub command : Bytes
  pub directory : Bytes

-- What the code asks of boost's file system: two names of one file, `directory / name`, and whether
-- a file is there. `absolute` gives the key of the cache.
pub record Files : Type 0 where
  pub equivalent : Bytes → Bytes → Bool
  pub under : Bytes → Bytes → Bytes
  pub exists : Bytes → Bool
  pub absolute : Bytes → Bytes

abbrev pub Cache : Type 0
Cache = List (Bytes × Option (List Bytes))

pub record CompilationDatabase : Type 0 where
  pub js : Option (List Entry)
  pub cache : Cache

unfoldable pub find_cached : Cache → Bytes → Option (Option (List Bytes))
find_cached [] name = none
find_cached ((k, v) ∷ rest) name =
    let later = find_cached rest name in if equal_bytes k name then some v else later

module _ (files : Files) where
  -- A relative argument that names a file below the entry's directory is given as that file.
  unfoldable pub resolve_arg : Bytes → Bytes → Bytes
  resolve_arg directory [] = []
  resolve_arg directory (c ∷ cs) =
      let there = files.under directory (c ∷ cs) in
      if not (c == 47) && not (c == 45) && files.exists there then there else c ∷ cs

  -- The loop over the command's words, with `skip_arg`.
  unfoldable pub command_args : Bytes → Bool → List Bytes → List Bytes
  unfolding resolve_arg
  command_args directory skip_arg [] = []
  command_args directory true (w ∷ ws) = command_args directory false ws
  command_args directory false (w ∷ ws) =
      let skipped = command_args directory true ws in
      let later = command_args directory false ws in
      if equal_bytes w (bytes "-c") || equal_bytes w (bytes "-o")
      then skipped
      else resolve_arg directory w ∷ later

  unfoldable pub find_file : (Bytes → List Bytes) → List Entry → Bytes → Option (List Bytes)
  unfolding command_args
  find_file split [] filename = none
  find_file split (e ∷ es) filename =
      let later = find_file split es filename in
      if files.equivalent e.file filename
      then some (command_args e.directory true (split e.command))
      else later

  -- ClangCompileArgs: the arguments, or none for false, and the database after it. `parsed` is the
  -- file's content, which is read at the first call.
  unfoldable pub clang_compile_args :
      (Bytes → List Bytes)
      → List Entry
      → Bytes
      → CompilationDatabase
      → Option (List Bytes) × CompilationDatabase
  unfolding find_file find_cached
  clang_compile_args split parsed filename db =
      let key = files.absolute filename in
      let js : List Entry = elim db.js [ none ↦ parsed | some es ↦ es ] in
      elim (find_cached db.cache key) [
        | some known ↦ (known, db)
        | none ↦
            let found = find_file split js filename in
            (found, record { js = some js; cache = (key, found) ∷ db.cache })
      ]
