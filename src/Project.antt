-- ===== src/Project.antt =====
-- project.h and project.cc, the class Project: the aspects that the registered factories find for
-- the directories above a file. Paths are boost's: a path, and what the code asks of it, are
-- parameters. `dynamic_cast` to a kind of aspect is a function to Option.
pub mod Config
pub mod Compile
pub mod Clang
pub mod Server
pub mod Sandbox
pub mod Client
pub mod Aspects
pub mod Waiting
pub mod Launch
use ced.Base.{
  ℕ, zero, suc, ◌==◌, ltb, not, if◌then◌else◌, Bool, true, false, Option, none, some, List, [], ◌∷◌,
  ◌++◌, ℤ, pos, negsuc, bytes,
}
use ced.Proto.{Bytes}
use ced.Outcome.{Outcome, ok, out_of_fuel, ◌>>=◌}

-- `-priority` of an int
unfoldable pub negated : ℤ → ℤ
negated (pos zero) = pos 0
negated (pos (suc n)) = negsuc n
negated (negsuc n) = pos (suc n)

unfoldable pub below : ℤ → ℤ → Bool
below (pos a) (pos b) = ltb a b
below (pos a) (negsuc b) = false
below (negsuc a) (pos b) = true
below (negsuc a) (negsuc b) = ltb b a

-- `fs[key].push_back(f)` on a map that is kept in the order of its keys.
unfoldable pub push_factory {ℓ} : {F : Type ℓ} → List (ℤ × List F) → ℤ → F → List (ℤ × List F)
unfolding below
push_factory [] key f = (key, f ∷ []) ∷ []
push_factory ((k, fs) ∷ rest) key f =
    let later = push_factory rest key f in
    if below key k
    then (key, f ∷ []) ∷ (k, fs) ∷ rest
    else (if below k key then (k, fs) ∷ later else (k, fs ++ f ∷ []) ∷ rest)

-- `fs_` and `fs_glob_`.
pub record AspectRegistry {ℓ κ} (FilePath : Type ℓ) (Aspect : Type κ) : Type (ℓ ⊔ κ) where
  pub fs : List (ℤ × List (FilePath → Option Aspect))
  pub fs_glob : List (ℤ × List (Option Aspect))

module _ {ℓ κ} {FilePath : Type ℓ} {Aspect : Type κ} where
  unfoldable pub register :
      (FilePath → Option Aspect)
      → ℤ
      → AspectRegistry FilePath Aspect
      → AspectRegistry FilePath Aspect
  unfolding push_factory negated
  register f priority r = record r { fs = push_factory r.fs (negated priority) f }

  unfoldable pub register_global :
      Option Aspect → ℤ → AspectRegistry FilePath Aspect → AspectRegistry FilePath Aspect
  unfolding push_factory negated
  register_global f priority r = record r { fs_glob = push_factory r.fs_glob (negated priority) f }

  -- The two loops of ConstructInto: what the factories of a map give.
  unfoldable pub construct_all : List (FilePath → Option Aspect) → FilePath → List Aspect
  construct_all [] path = []
  construct_all (f ∷ fs) path =
      let later = construct_all fs path in elim (f path) [ none ↦ later | some a ↦ a ∷ later ]

  unfoldable pub construct_ranked :
      List (ℤ × List (FilePath → Option Aspect)) → FilePath → List Aspect
  unfolding construct_all
  construct_ranked [] path = []
  construct_ranked ((_, fs) ∷ rest) path = construct_all fs path ++ construct_ranked rest path

  abbrev pub as_local : List (Option Aspect) → List (FilePath → Option Aspect)
  as_local [] = []
  as_local (g ∷ gs) = (λ _. g) ∷ as_local gs

  abbrev pub as_ranked :
      List (ℤ × List (Option Aspect)) → List (ℤ × List (FilePath → Option Aspect))
  as_ranked [] = []
  as_ranked ((k, gs) ∷ rest) = (k, as_local gs) ∷ as_ranked rest

  unfoldable pub construct_into : AspectRegistry FilePath Aspect → FilePath → List Aspect
  unfolding construct_ranked
  construct_into r path = construct_ranked r.fs path ++ construct_ranked (as_ranked r.fs_glob) path

-- What the code asks of a path.
pub record Paths {ℓ} (FilePath : Type ℓ) : Type ℓ where
  pub has_no_parts : FilePath → Bool
  pub is_directory : FilePath → Bool
  pub absolute : FilePath → FilePath
  pub parent : FilePath → FilePath
  pub child : FilePath → Bytes → FilePath
  pub text : FilePath → Bytes
  pub has_filename : FilePath → Bool
  pub filename : FilePath → Bytes
  pub exists : FilePath → Bool

module _ {ℓ κ} {FilePath : Type ℓ} {Aspect : Type κ} (paths : Paths FilePath) where
  -- `while (!path.empty()) { ... path = path.parent_path(); }`
  unfoldable pub construct_upwards :
      ℕ → AspectRegistry FilePath Aspect → FilePath → Outcome (List Aspect)
  unfolding construct_into
  construct_upwards zero r path = out_of_fuel
  construct_upwards (suc fuel) r path =
      let rest = construct_upwards fuel r (paths.parent path) in
      if paths.has_no_parts path
      then ok []
      else (rest >>= λ later. ok (construct_into r path ++ later))

  -- The constructor: the aspects, with the backup last.
  unfoldable pub new_project :
      ℕ → AspectRegistry FilePath Aspect → (FilePath → Aspect) → FilePath → Outcome (List Aspect)
  unfolding construct_upwards
  new_project fuel r safe_backup root_hint =
      let abs = paths.absolute root_hint in
      let bottom = if not (paths.is_directory abs) then paths.parent abs else abs in
      construct_upwards fuel r bottom >>= λ found. ok (found ++ safe_backup bottom ∷ [])

module _ {ℓ} {FilePath : Type ℓ} (paths : Paths FilePath) where
  -- ProjectRoot::LocalAddressPath and LocalAddress of a root.
  unfoldable pub local_address_path : FilePath → FilePath
  local_address_path root = paths.child root (bytes ".cedport")

  unfoldable pub local_address : FilePath → Bytes
  unfolding local_address_path
  local_address root = bytes "unix:" ++ paths.text (local_address_path root)

module _ {ℓ κ} {Aspect : Type ℓ} {Kind : Type κ} (cast : Aspect → Option Kind) where
  -- The first aspect of a kind, and all of them in order.
  unfoldable pub aspect : List Aspect → Option Kind
  aspect [] = none
  aspect (a ∷ rest) = let later = aspect rest in elim (cast a) [ none ↦ later | some k ↦ some k ]

  unfoldable pub for_each_aspect : List Aspect → List Kind
  for_each_aspect [] = []
  for_each_aspect (a ∷ rest) =
      let later = for_each_aspect rest in elim (cast a) [ none ↦ later | some k ↦ k ∷ later ]
