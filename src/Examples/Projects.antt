-- ===== src/Examples/Projects.antt =====
-- The theorems on projects: a file two directories below a workspace.
use ced.Base.{◌&&◌, ◌≡◌, refl, not, leb, true, false, some, List, [], ◌∷◌, pos, bytes, arith}
use ced.Proto.{Bytes}
use ced.Outcome.{ok}
use ced.Text.Annotator.{equal_bytes}
use ced.Project.{Paths, new_project, aspect}
use ced.Project.Client.{wait_for_port}
use ced.Project.Waiting.{Waited, wait_for_port_lem}
use ced.Project.Aspects.{
  ProjectAspect, global, safe_backup, root_path, aspect_factories, project_root_lem,
}

-- A path is its parts, the last one first. There is one file, and what has a part is a directory.
abbrev by_parts : Paths (List Bytes)
by_parts = record {
  has_no_parts = λ p. elim p [ [] ↦ true | _ ∷ _ ↦ false ];
  is_directory = λ p. elim p [ [] ↦ true | name ∷ _ ↦ not (equal_bytes name (bytes "x.cc")) ];
  absolute = λ p. p;
  parent = λ p. elim p [ [] ↦ [] | _ ∷ rest ↦ rest ];
  child = λ p name. name ∷ p;
  text = λ p. elim p [ [] ↦ [] | name ∷ _ ↦ name ];
  has_filename = λ _. true;
  filename = λ p. elim p [ [] ↦ [] | name ∷ _ ↦ name ];
  exists = λ p. elim p [
    | [] ↦ false
    | name ∷ rest ↦
        equal_bytes name (bytes "WORKSPACE")
        && elim rest [ [] ↦ false | above ∷ _ ↦ equal_bytes above (bytes "w") ]
  ];
}

abbrev file : List Bytes
file = bytes "x.cc" ∷ bytes "d" ∷ bytes "w" ∷ []

project_root_lem_example :
    (as' : List (ProjectAspect (List Bytes))) × (new_project by_parts 3
        (aspect_factories by_parts ((pos 0, some global ∷ []) ∷ []))
        safe_backup
        file
      ≡ ok as')
    × (aspect root_path as' ≡ some (bytes "w" ∷ []))
unfolding root_path equal_bytes
project_root_lem_example =
    project_root_lem by_parts ((pos 0, some global ∷ []) ∷ []) 2 3 file ((refl, tt), tt) refl
      (omega arith)

-- The port is there at the fourth look.
wait_for_port_lem_example : Waited (leb 3) 0 (wait_for_port 17 (leb 3) 0 1 1 0)
wait_for_port_lem_example = wait_for_port_lem 17 (leb 3) (omega arith)
