-- ===== src/Project/Config.antt =====
-- config.h and config.cc: the configuration files of a project and the values that the code watches.
-- YAML nodes and their conversions are parameters, and so is absl's split. A watcher is a number.
use ced.Base.{ℕ, ◌==◌, if◌then◌else◌, Bool, Option, none, some, List, [], ◌∷◌, ◌++◌, bytes}
use ced.Proto.{Bytes}
use ced.Project.{Paths, for_each_aspect}

-- What the code asks of yaml-cpp.
pub record Yaml {ℓ} (Node : Type ℓ) : Type ℓ where
  pub child : Node → Bytes → Node
  pub is_defined : Node → Bool
  pub scalar : Node → Bytes
  pub entries : Node → List (Node × Node)

module _ {ℓ} {Node : Type ℓ} (yaml : Yaml Node) where
  pub record ConfigRegistry : Type ℓ where
    pub paths : List (ℕ × Bytes)
    pub configs : List Node

  -- `nstk.push_back(nstk.back()[child])` along a path: the node at its end.
  unfoldable pub descend : Node → List Bytes → Node
  descend node [] = node
  descend node (p ∷ ps) = descend (yaml.child node p) ps

  -- The loop of SetWatcher, from the last file to the first: the node that the watcher is set to.
  unfoldable pub last_defined : List Node → List Bytes → Option Node
  unfolding descend
  last_defined [] path = none
  last_defined (c ∷ cs) path =
      let here = descend c path in
      elim (last_defined cs path) [
        | some node ↦ some node
        | none ↦ if yaml.is_defined here then some here else none
      ]

  unfoldable pub erase_watcher : ℕ → List (ℕ × Bytes) → List (ℕ × Bytes)
  erase_watcher w [] = []
  erase_watcher w ((v, p) ∷ rest) =
      let later = erase_watcher w rest in if v == w then later else (v, p) ∷ later

  unfoldable pub remove_watcher : ℕ → ConfigRegistry → ConfigRegistry
  unfolding erase_watcher
  remove_watcher w r = record r { paths = erase_watcher w r.paths }

  -- RegisterWatcher: the registry after it, and the node that the watcher is set to.
  unfoldable pub register_watcher :
      (Bytes → List Bytes) → ℕ → Bytes → ConfigRegistry → ConfigRegistry × Option Node
  unfolding erase_watcher last_defined
  register_watcher split_dots w path r = (
    record r { paths = (w, path) ∷ erase_watcher w r.paths },
    last_defined r.configs (split_dots path),
  )

  -- The constructor: the files that load, the user's own first. A load that throws is none.
  unfoldable pub load_all {κ} :
      {FilePath : Type κ} → (FilePath → Option Node) → List FilePath → List Node
  load_all load [] = []
  load_all load (p ∷ ps) =
      let later = load_all load ps in elim (load p) [ none ↦ later | some n ↦ n ∷ later ]

  unfoldable pub new_registry {κ μ} :
      {FilePath : Type κ} {Aspect : Type μ}
      → Paths FilePath
      → (FilePath → Option Node)
      → (Aspect → Option FilePath)
      → FilePath
      → List Aspect
      → ConfigRegistry
  unfolding load_all
  new_registry paths load config_file home aspects =
      let own =
        paths.child (paths.child (paths.child home (bytes ".config")) (bytes "ced"))
          (bytes "config.yaml") in
      record {
        paths = [];
        configs = load_all load (own ∷ []) ++ load_all load (for_each_aspect config_file aspects);
      }

  -- Config<T>: its default, until the registry sets it.
  unfoldable pub config {κ} : {T : Type κ} → (Node → T → T) → T → Option Node → T
  config decode def none = def
  config decode def (some node) = decode node def

  unfoldable pub config_string : Bytes → Option Node → Bytes
  config_string def none = def
  config_string def (some node) = yaml.scalar node

  -- ConfigMap<K, V>::get. Of two entries with the same key the later one is kept.
  module _ {κ μ} {K : Type κ} {V : Type μ} (as_key : Node → K) (as_value : Node → V)
      (same_key : K → K → Bool) (def : V) where
    unfoldable pub find_entry : List (Node × Node) → K → Option V
    find_entry [] k = none
    find_entry ((n, v) ∷ rest) k = elim (find_entry rest k) [
      | some later ↦ some later
      | none ↦ if same_key (as_key n) k then some (as_value v) else none
    ]

    unfoldable pub config_map : Option Node → K → V
    unfolding find_entry
    config_map none k = def
    config_map (some node) k = elim (find_entry (yaml.entries node) k) [ none ↦ def | some v ↦ v ]
