-- ===== src/System/Modes.antt =====
-- application.cc: the registry of the program's modes, and RunMode. An application is what its
-- constructor and its Run give, the exit code; what is printed for the mode `list` is its lines' names.
use ced.Base.{ℕ, if◌then◌else◌, Option, none, some, List, [], ◌∷◌, bytes}
use ced.Proto.{Bytes}
use ced.Text.Annotator.{equal_bytes}

abbrev pub Modes {ℓ} : Type ℓ → Type ℓ
Modes Args = List (Bytes × (Args → ℕ))

module _ {ℓ} {Args : Type ℓ} where
  -- Register: `modes[mode] = construct`.
  unfoldable pub register_mode : Bytes → (Args → ℕ) → Modes Args → Modes Args
  register_mode mode construct [] = (mode, construct) ∷ []
  register_mode mode construct ((m, c) ∷ rest) =
      let later = register_mode mode construct rest in
      if equal_bytes m mode then (m, construct) ∷ rest else (m, c) ∷ later

  unfoldable pub find_mode : Bytes → Modes Args → Option (Args → ℕ)
  find_mode mode [] = none
  find_mode mode ((m, c) ∷ rest) =
      let later = find_mode mode rest in if equal_bytes m mode then some c else later

  abbrev pub names : Modes Args → List Bytes
  names [] = []
  names ((m, _) ∷ rest) = m ∷ names rest

  -- RunMode: the names that it prints, and the exit code.
  unfoldable pub run_mode : Bytes → Args → Modes Args → List Bytes × ℕ
  unfolding find_mode
  run_mode mode args modes =
      if equal_bytes mode (bytes "list")
      then (bytes "list" ∷ names modes, 0)
      else (elim (find_mode mode modes) [ none ↦ ([], 1) | some construct ↦ ([], construct args) ])
