-- ===== src/AsmParser.antt =====
-- asm_parser.h and asm_parser.cc: the listing that the disassembler gives, and which of its lines
-- belong to which line of the source. RE2's matches, absl's split and cppfilt are parameters; a match
-- returns what it captures.
pub mod Lines
use ced.Base.{
  ℕ, suc, ◌==◌, ◌||◌, if◌then◌else◌, Bool, false, Option, none, some, List, [], ◌∷◌, ◌++◌, ℤ, pos,
  negsuc, decrement,
}
use ced.Proto.{Bytes}
use ced.Selector.{backwards}

-- `body` and `src_to_asm_line`, a map from lines of the source.
pub record AsmParseResult : Type 0 where
  pub body : Bytes
  pub src_to_asm_line : List (ℤ × List ℕ)

abbrev pub space : ℕ
space = 32

abbrev pub colon : ℕ
colon = 58

abbrev pub line_feed : ℕ
line_feed = 10

unfoldable pub isws : ℕ → Bool
isws c = c == 32 || c == 13 || c == 10 || c == 9

unfoldable pub drop_ws : Bytes → Bytes
drop_ws [] = []
drop_ws (c ∷ cs) = let rest = drop_ws cs in if isws c then rest else c ∷ cs

unfoldable pub strip_right : Bytes → Bytes
strip_right line = backwards (drop_ws (backwards line))

unfoldable pub same_line_number : ℤ → ℤ → Bool
same_line_number (pos a) (pos b) = a == b
same_line_number (pos a) (negsuc b) = false
same_line_number (negsuc a) (pos b) = false
same_line_number (negsuc a) (negsuc b) = a == b

-- `src_to_asm_line[key].push_back(n)`
unfoldable pub push_line : List (ℤ × List ℕ) → ℤ → ℕ → List (ℤ × List ℕ)
push_line [] key n = (key, n ∷ []) ∷ []
push_line ((k, ns) ∷ rest) key n =
    let later = push_line rest key n in
    if same_line_number k key then (k, ns ++ n ∷ []) ∷ rest else (k, ns) ∷ later

pub data State : Type 0 where
  init : State
  body : State

-- The locals of AsmParse; `cur_line` is an int.
pub record Parser : Type 0 where
  pub result : AsmParseResult
  pub num_lines : ℕ
  pub state : State
  pub cur_line : ℤ

abbrev pub new_parser : Parser
new_parser = record {
  result = record { body = []; src_to_asm_line = [] };
  num_lines = 0;
  state = init;
  cur_line = negsuc 0;
}

unfoldable pub emit : Parser → Bytes → Parser
emit p out = record p {
  result = record p.result { body = p.result.body ++ (out ++ line_feed ∷ []) };
  num_lines = suc p.num_lines;
}

unfoldable pub note_line : Parser → Parser
unfolding push_line
note_line p = elim p.cur_line [
  | negsuc _ ↦ p
  | pos n ↦ record p {
    result = record p.result {
      src_to_asm_line = push_line p.result.src_to_asm_line (decrement (pos n)) p.num_lines;
    };
  }
]

module _ (split : Bytes → List Bytes) (cppfilt : Bytes → Bytes) (is_start has_stdin : Bytes → Bool)
    (match_section_start match_label match_instr : Bytes → Option Bytes)
    (match_lineno : Bytes → Option (Bytes × ℕ)) where
  -- The case BODY of the switch, for a line that is not empty.
  unfoldable pub body_line : Parser → Bytes → Parser
  unfolding emit note_line
  body_line p line = elim (match_section_start line) [
    | some _ ↦ p
    | none ↦ elim (match_label line) [
      | some label ↦ emit p (cppfilt label ++ colon ∷ [])
      | none ↦ elim (match_lineno line) [
        | some at ↦ record p { cur_line = if has_stdin at.0 then pos at.1 else negsuc 0 }
        | none ↦ elim (match_instr line) [
          | some instr ↦ emit (note_line p) (space ∷ space ∷ instr)
          | none ↦ emit p line
        ]
      ]
    ]
  ]

  abbrev by_state : State → Parser → Bytes → Parser
  by_state init p line = if is_start line then record p { state = body } else p
  by_state body p line = body_line p line

  -- The body of the loop, on a line that is stripped.
  unfoldable pub parse_line : Parser → Bytes → Parser
  parse_line p [] = p
  parse_line p (c ∷ cs) = by_state p.state p (c ∷ cs)

  unfoldable pub parse_lines : Parser → List Bytes → Parser
  parse_lines p [] = p
  parse_lines p (line ∷ rest) = parse_lines (parse_line p (strip_right line)) rest

  unfoldable pub asm_parse : Bytes → AsmParseResult
  asm_parse src = (parse_lines new_parser (split src)).result
