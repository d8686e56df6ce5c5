-- ===== src/Theme/Print.antt =====
-- plist.cc: property lists as the XML elements of their documents, and what Parse makes of those.
use ced.Base.{◌≡◌, refl, sym, ap, ◌∙◌, Option, some, none, bytes}
use ced.Proto.{Bytes}
use ced.Outcome.{Outcome, ok, fault}
use ced.Text.Annotator.{equal_bytes}
use ced.Theme.Plist.{
  XmlNode, XmlNodes, element, no_elements, elements, Node, Nodes, Fields, string, array, dict,
  no_nodes, nodes, no_fields, field, get_field, snoc_field, add_node, kind, parse_node, parse_nodes,
  parse_key, parse, only_node,
}

-- The elements with which a property list is written.
unfoldable mutual
  pub to_xml : Node → XmlNode
  to_xml (string s) = element (bytes "string") s no_elements
  to_xml (array ns) = element (bytes "array") (bytes "") (to_elements ns)
  to_xml (dict fs) = element (bytes "dict") (bytes "") (to_entries fs)

  pub to_elements : Nodes → XmlNodes
  to_elements no_nodes = no_elements
  to_elements (nodes n ns) = elements (to_xml n) (to_elements ns)

  pub to_entries : Fields → XmlNodes
  to_entries no_fields = no_elements
  to_entries (field k n fs) =
      elements (element (bytes "key") k no_elements) (elements (to_xml n) (to_entries fs))

-- No dict of the property list has a key twice: each key is none of those before it.
unfoldable mutual
  pub HasDistinctKeys : Node → Type 0
  HasDistinctKeys (string s) = Unit
  HasDistinctKeys (array ns) = HaveDistinctKeys ns
  HasDistinctKeys (dict fs) = AreDistinct no_fields fs

  pub HaveDistinctKeys : Nodes → Type 0
  HaveDistinctKeys no_nodes = Unit
  HaveDistinctKeys (nodes n ns) = HasDistinctKeys n × HaveDistinctKeys ns

  pub AreDistinct : Fields → Fields → Type 0
  AreDistinct before no_fields = Unit
  AreDistinct before (field k n fs) =
      (get_field before k ≡ none) × HasDistinctKeys n × AreDistinct (snoc_field before k n) fs

abbrev append : Fields → Fields → Fields
append no_fields fs = fs
append (field k n d) fs = field k n (append d fs)

append_none : (d : Fields) → append d no_fields ≡ d
append_none no_fields = refl
append_none (field k n d) = ap (field k n) (append_none d)

append-snoc_field :
    (d : Fields) (k : Bytes) (n : Node) (fs : Fields)
    → append (snoc_field d k n) fs ≡ append d (field k n fs)
unfolding snoc_field
append-snoc_field no_fields k n fs = refl
append-snoc_field (field j m d) k n fs = ap (field j m) (append-snoc_field d k n fs)

mutual
  unfolding parse_node to_xml HasDistinctKeys kind equal_bytes add_node

  parse_node-to_xml : (n : Node) → HasDistinctKeys n → parse_node (to_xml n) ≡ some n
  parse_node-to_xml (string s) h = refl
  parse_node-to_xml (array ns) h = rw (parse_nodes-to_elements ns h) refl
  parse_node-to_xml (dict fs) h = rw (parse_key-to_entries no_fields fs h) refl

  parse_nodes-to_elements :
      (ns : Nodes) → HaveDistinctKeys ns → parse_nodes (to_elements ns) ≡ some ns
  parse_nodes-to_elements no_nodes h = refl
  parse_nodes-to_elements (nodes n ns) h =
      rw (parse_node-to_xml n h.0) (rw (parse_nodes-to_elements ns h.1) refl)

  parse_key-to_entries :
      (d fs : Fields) → AreDistinct d fs → parse_key d (to_entries fs) ≡ some (append d fs)
  parse_key-to_entries d no_fields h = ap some (sym (append_none d))
  parse_key-to_entries d (field k n fs) h = rw (parse_node-to_xml n h.1) (
      rw (h.0, add_node)
        (parse_key-to_entries (snoc_field d k n) fs h.2 ∙ ap some (append-snoc_field d k n fs)))

-- Parse on the elements with which a property list without repeated keys is written gives it back.
pub parse-to_xml :
    (n : Node) → HasDistinctKeys n → parse (some (elements (to_xml n) no_elements)) ≡ ok (some n)
unfolding parse to_xml HasDistinctKeys
parse-to_xml n h =
    ap
      (λ (r : Option Nodes). elim r as (λ _. Outcome (Option Node)) [
        | none ↦ fault
        | some ns ↦ ok (only_node ns)
      ])
      (parse_nodes-to_elements (nodes n no_nodes) (h, tt))
