-- ===== src/Collab/Cursors.antt =====
-- libclang_collaborator.cc, the table tok_cursor_rules: the tag for a kind of cursor.
use ced.Base.{Option, none, some, bytes}
use ced.Proto.{Bytes}

-- The kinds that the table names; `cursor_other` stands for the other ones.
pub data CxCursorKind : Type 0 where
  struct_decl : CxCursorKind
  union_decl : CxCursorKind
  class_decl : CxCursorKind
  enum_decl : CxCursorKind
  decl_ref_expr : CxCursorKind
  member_ref_expr : CxCursorKind
  cxx_method : CxCursorKind
  integer_literal : CxCursorKind
  float_literal : CxCursorKind
  imaginary_literal : CxCursorKind
  string_literal : CxCursorKind
  character_literal : CxCursorKind
  binary_operator : CxCursorKind
  unary_operator : CxCursorKind
  cursor_other : CxCursorKind

unfoldable pub tok_cursor_rules : CxCursorKind → Option Bytes
tok_cursor_rules struct_decl = some (bytes "meta.class-struct-block.c++")
tok_cursor_rules union_decl = some (bytes "meta.class-struct-block.c++")
tok_cursor_rules class_decl = some (bytes "meta.class-struct-block.c++")
tok_cursor_rules enum_decl = some (bytes "meta.enum-block.c++")
tok_cursor_rules decl_ref_expr = some (bytes "entity.name.c++")
tok_cursor_rules member_ref_expr = some (bytes "entity.name.c++")
tok_cursor_rules cxx_method = some (bytes "entity.name.function")
tok_cursor_rules integer_literal = some (bytes "constant.numeric")
tok_cursor_rules float_literal = some (bytes "constant.numeric")
tok_cursor_rules imaginary_literal = some (bytes "constant.numeric")
tok_cursor_rules string_literal = some (bytes "string")
tok_cursor_rules character_literal = some (bytes "string")
tok_cursor_rules binary_operator = some (bytes "keyword.operator.binary.c++")
tok_cursor_rules unary_operator = some (bytes "keyword.operator.unary.c++")
tok_cursor_rules cursor_other = none
