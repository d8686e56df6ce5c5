-- ===== src/Examples/Files.antt =====
-- The theorems on property lists, on the paths of a server and on highlighting, at small inputs.
use ced.AsmParser.{asm_parse}
use ced.AsmParser.Lines.{AreBelow, line_feeds, asm_parse-AreBelow}
use ced.Base.{
  ◌==◌, if◌then◌else◌, none, List, Option, ℕ, ◌≡◌, ◌≢◌, ◌↔◌, refl, true, false, some, [], ◌∷◌, ◌++◌,
  arith, bytes,
}
use ced.Proto.{Bytes, data_case}
use ced.Outcome.{ok, out_of_fuel}
use ced.Text.Annotator.{AnnotationEditor, equal_bytes}
use ced.Text.Attributes.{Serializer}
use ced.Theme.Plist.{
  Node, string, array, dict, no_nodes, nodes, no_fields, field, elements, no_elements, parse,
  get_field, snoc_field,
}
use ced.Theme.Print.{to_xml, HasDistinctKeys, parse-to_xml}
use ced.Project.{Paths}
use ced.Project.Server.{is_child_of}
use ced.Project.Sandbox.{is_child_of_lem}
use ced.Collab.Regex.{highlight}
use ced.Collab.Regex.Ends.{highlight_ends}

abbrev theme : Node
theme = dict (
    field (bytes "name") (string (bytes "dusk"))
      (field (bytes "settings") (array (nodes (dict no_fields) no_nodes)) no_fields))

parse-to_xml_example : parse (some (elements (to_xml theme) no_elements)) ≡ ok (some theme)
unfolding HasDistinctKeys get_field snoc_field equal_bytes
parse-to_xml_example = parse-to_xml theme (refl, tt, (refl, (tt, tt), tt))

-- Paths as their texts, of which only the directory matters here.
abbrev by_text : Paths Bytes
by_text = record {
  has_no_parts = λ _. false;
  is_directory = λ _. false;
  absolute = λ p. p;
  parent = λ p. p;
  child = λ p name. p ++ bytes "/" ++ name;
  text = λ p. p;
  has_filename = λ _. true;
  filename = λ p. p;
  exists = λ _. true;
}

is_child_of_lem_example :
    (is_child_of by_text (λ _. bytes "/work/src") (bytes "/work/src/main") (bytes "/work")
      ≡ ok true)
    ↔ ((true ≡ true) × (bytes "/work/src" ≡ bytes "/work"))
unfolding equal_bytes
is_child_of_lem_example =
    is_child_of_lem by_text (λ _. bytes "/work/src") (bytes "/work/src/main") (bytes "/work") refl

abbrev by_case : Serializer
by_case = record { attribute = λ a. data_case a ∷ []; annotation = λ a. a.begin ∷ a.end ∷ [] }

abbrev editor : AnnotationEditor
editor = record {
  site = record { id = 3; clock = 0 };
  last_attr2id = [];
  new_attr2id = [];
  last_ann2id = [];
  new_ann2id = [];
}

-- An expression that takes two characters anywhere.
highlight_ends_example :
    highlight
      (λ (re : ℕ) (text : Bytes). some re)
      by_case
      3
      ((2, bytes "word") ∷ [])
      (5 ∷ 6 ∷ 7 ∷ [])
      0
      (97 ∷ 98 ∷ 99 ∷ [])
      editor
    ≢ out_of_fuel
highlight_ends_example =
    highlight_ends (λ (re : ℕ) (text : Bytes). some re) by_case 3 ((2, bytes "word") ∷ [])
      (5 ∷ 6 ∷ 7 ∷ []) 0 (97 ∷ 98 ∷ 99 ∷ []) editor (omega arith)

-- A listing with a line number and two instructions.
abbrev split : Bytes → List Bytes
split src = bytes "start" ∷ bytes "/stdin:3" ∷ bytes "ret" ∷ bytes "nop" ∷ []

abbrev never : Bytes → Option Bytes
never line = none

abbrev lineno : Bytes → Option (Bytes × ℕ)
lineno [] = none
lineno (c ∷ cs) = if c == 47 then some (cs, 3) else none

asm_parse-AreBelow_example :
    let r =
      asm_parse split (λ s. s) (λ _. true) (λ _. true) never never (λ line. some line) lineno [] in
    AreBelow (line_feeds r.body) r.src_to_asm_line
asm_parse-AreBelow_example =
    asm_parse-AreBelow split (λ s. s) (λ _. true) (λ _. true) never never (λ line. some line) lineno
      []
