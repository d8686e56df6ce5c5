-- ===== src/Theme/Plist.antt =====
-- plist.h and plist.cc: property lists. pugixml is not modelled: a document is the elements that the
-- code visits, each with its name, its child_value and its children. A dict is the list of its
-- entries in the order in which they were added.
use ced.Base.{if◌then◌else◌, Bool, Option, none, some, bytes}
use ced.Proto.{Bytes}
use ced.Outcome.{Outcome, ok, fault}
use ced.Text.Annotator.{equal_bytes}

mutual
  pub data XmlNode : Type 0 where
    element : Bytes → Bytes → XmlNodes → XmlNode

  pub data XmlNodes : Type 0 where
    no_elements : XmlNodes
    elements : XmlNode → XmlNodes → XmlNodes

mutual
  pub data Node : Type 0 where
    string : Bytes → Node
    array : Nodes → Node
    dict : Fields → Node

  pub data Nodes : Type 0 where
    no_nodes : Nodes
    nodes : Node → Nodes → Nodes

  pub data Fields : Type 0 where
    no_fields : Fields
    field : Bytes → Node → Fields → Fields

unfoldable pub as_string : Node → Option Bytes
as_string (string s) = some s
as_string (array _) = none
as_string (dict _) = none

unfoldable pub as_array : Node → Option Nodes
as_array (string _) = none
as_array (array ns) = some ns
as_array (dict _) = none

unfoldable pub as_dict : Node → Option Fields
as_dict (string _) = none
as_dict (array _) = none
as_dict (dict fs) = some fs

-- Dict::Get.
unfoldable pub get_field : Fields → Bytes → Option Node
get_field no_fields key = none
get_field (field k n fs) key =
    let later = get_field fs key in if equal_bytes k key then some n else later

unfoldable pub snoc_field : Fields → Bytes → Node → Fields
snoc_field no_fields key n = field key n no_fields
snoc_field (field k m fs) key n = field k m (snoc_field fs key n)

-- Dict::AddNode, whose `emplace` keeps the node that is there.
unfoldable pub add_node : Fields → Bytes → Node → Fields
unfolding get_field snoc_field
add_node fs key n = elim (get_field fs key) [ some _ ↦ fs | none ↦ snoc_field fs key n ]

-- How ParseNode tells the elements apart.
pub data Kind : Type 0 where
  is_dict : Kind
  is_array : Kind
  is_string : Kind
  is_unknown : Kind

unfoldable pub kind : Bytes → Kind
kind name =
    if equal_bytes name (bytes "dict")
    then is_dict
    else (if equal_bytes name (bytes "array")
        then is_array
        else (if equal_bytes name (bytes "string") then is_string else is_unknown))

abbrev pub is_key : Bytes → Bool
is_key name = equal_bytes name (bytes "key")

-- The loop of ParseDict is `parse_key` in its state KEY and `parse_value` in VALUE.
unfoldable mutual
  pub parse_node : XmlNode → Option Node
  parse_node (element name text children) = elim (kind name) [
    | is_dict ↦ elim (parse_key no_fields children) [ none ↦ none | some fs ↦ some (dict fs) ]
    | is_array ↦ elim (parse_nodes children) [ none ↦ none | some ns ↦ some (array ns) ]
    | is_string ↦ some (string text)
    | is_unknown ↦ none
  ]

  pub parse_nodes : XmlNodes → Option Nodes
  parse_nodes no_elements = some no_nodes
  parse_nodes (elements x xs) = elim (parse_node x) [
    | none ↦ none
    | some n ↦ elim (parse_nodes xs) [ none ↦ none | some ns ↦ some (nodes n ns) ]
  ]

  pub parse_key : Fields → XmlNodes → Option Fields
  parse_key d no_elements = some d
  parse_key d (elements (element name text children) xs) =
      if is_key name then parse_value d text xs else none

  pub parse_value : Fields → Bytes → XmlNodes → Option Fields
  parse_value d key no_elements = some d
  parse_value d key (elements x xs) = elim (parse_node x) [
    | none ↦ none
    | some n ↦ parse_key (add_node d key n) xs
  ]

-- `top->mutable_nodes()->size() != 1`
abbrev pub only_node : Nodes → Option Node
only_node no_nodes = none
only_node (nodes n no_nodes) = some n
only_node (nodes n (nodes _ _)) = none

-- Parse on the children of the document's `plist`, or on a document that does not load. An array
-- that does not parse is read through a null pointer.
unfoldable pub parse : Option XmlNodes → Outcome (Option Node)
unfolding parse_node
parse none = ok none
parse (some children) = elim (parse_nodes children) [ none ↦ fault | some ns ↦ ok (only_node ns) ]
