-- ===== src/AsmParser/Lines.antt =====
-- asm_parser.cc: the lines of the listing that AsmParse's map names, and the lines that its body has.
use ced.Base.{
  ℕ, suc, ◌+◌, ◌<◌, ◌≤◌, ◌≡◌, refl, ◌==◌, if◌then◌else◌, Bool, Option, List, [], ◌∷◌, ◌++◌, All,
  All-imp, All-append, ℤ, pos, negsuc, decrement, arith, Bool-cases, Option-cases, inl, inr,
}
use ced.Proto.{Bytes}
use ced.AsmParser.{
  Parser, State, init, body, new_parser, line_feed, colon, space, push_line, same_line_number, emit,
  note_line, body_line, parse_line, parse_lines, asm_parse, strip_right,
}

-- How many line feeds a text has.
unfoldable pub line_feeds : Bytes → ℕ
line_feeds [] = 0
line_feeds (c ∷ cs) = (if c == line_feed then 1 else 0) + line_feeds cs

line_feeds-append : (xs ys : Bytes) → line_feeds (xs ++ ys) ≡ line_feeds xs + line_feeds ys
unfolding line_feeds
line_feeds-append [] ys = omega arith
line_feeds-append (x ∷ xs) ys = let rest = line_feeds-append xs ys in omega (arith, rest)

-- Every line that a map names is below a number.
abbrev pub AreBelow : ℕ → List (ℤ × List ℕ) → Type 0
AreBelow bound m = All (λ (e : ℤ × List ℕ). All (λ n. n < bound) e.1) m

AreBelow-push_line :
    (bound n : ℕ) (key : ℤ) (m : List (ℤ × List ℕ))
    → n < bound
    → AreBelow bound m
    → AreBelow bound (push_line m key n)
unfolding push_line
AreBelow-push_line bound n key [] h p = ((h, tt), tt)
AreBelow-push_line bound n key ((k, ns) ∷ rest) h p = elim (Bool-cases (same_line_number k key)) [
  | inl e ↦ rw e ((All-append (λ i. i < bound) ns (n ∷ []) p.0 (h, tt)), p.1)
  | inr e ↦ rw e (p.0, AreBelow-push_line bound n key rest h p.1)
]

AreBelow-suc : (bound : ℕ) (m : List (ℤ × List ℕ)) → AreBelow bound m → AreBelow (suc bound) m
AreBelow-suc bound m =
    All-imp (λ (e : ℤ × List ℕ). All-imp (λ n (h : n < bound). omega arith) e.1) m

-- What holds of the parser between two lines.
record IsParser (p : Parser) : Type 0 where
  few : p.num_lines ≤ line_feeds p.result.body
  noted : AreBelow p.num_lines p.result.src_to_asm_line

emit-IsParser :
    (p : Parser) (out : Bytes)
    → p.num_lines ≤ line_feeds p.result.body
    → AreBelow (suc p.num_lines) p.result.src_to_asm_line
    → IsParser (emit p out)
unfolding emit line_feeds
emit-IsParser p out few noted =
    let whole = line_feeds-append p.result.body (out ++ line_feed ∷ []) in
    let new = line_feeds-append out (line_feed ∷ []) in
    record { few = omega (arith, whole, new, few); noted = noted }

emit-note_line : (p : Parser) (out : Bytes) → IsParser p → IsParser (emit (note_line p) out)
unfolding note_line
emit-note_line p out ip = at p.cur_line refl
  where
    at : (c : ℤ) → p.cur_line ≡ c → IsParser (emit (note_line p) out)
    at (negsuc k) e =
        rw (e, note_line)
          (emit-IsParser p out ip.few (AreBelow-suc p.num_lines p.result.src_to_asm_line ip.noted))
    at (pos k) e =
        let wider = AreBelow-suc p.num_lines p.result.src_to_asm_line ip.noted in
        rw (e, note_line)
          (emit-IsParser _ out ip.few (
            AreBelow-push_line (suc p.num_lines) p.num_lines (decrement (pos k))
              p.result.src_to_asm_line (omega arith) wider))

module _ (split : Bytes → List Bytes) (cppfilt : Bytes → Bytes) (is_start has_stdin : Bytes → Bool)
    (match_section_start match_label match_instr : Bytes → Option Bytes)
    (match_lineno : Bytes → Option (Bytes × ℕ)) where
  abbrev after_line : Parser → Bytes → Parser
  after_line =
      body_line split cppfilt is_start has_stdin match_section_start match_label match_instr
        match_lineno

  body_line-IsParser : (p : Parser) (line : Bytes) → IsParser p → IsParser (after_line p line)
  unfolding body_line
  body_line-IsParser p line ip =
      let emitted = λ (out : Bytes).
        emit-IsParser p out ip.few (AreBelow-suc p.num_lines p.result.src_to_asm_line ip.noted) in
      elim (Option-cases (match_section_start line)) [
        | inr (_, e) ↦ rw (e, body_line) ip
        | inl e ↦ elim (Option-cases (match_label line)) [
          | inr (label, f) ↦ rw (e, body_line) (rw f (emitted (cppfilt label ++ colon ∷ [])))
          | inl f ↦ elim (Option-cases (match_lineno line)) [
            | inr (at, g) ↦
                rw (e, body_line) (rw f (rw g (record { few = ip.few; noted = ip.noted })))
            | inl g ↦ elim (Option-cases (match_instr line)) [
              | inr (instr, h) ↦
                  rw (e, body_line)
                    (rw f (rw g (rw h (emit-note_line p (space ∷ space ∷ instr) ip))))
              | inl h ↦ rw (e, body_line) (rw f (rw g (rw h (emitted line))))
            ]
          ]
        ]
      ]

  parse_line-IsParser :
      (p : Parser) (line : Bytes)
      → IsParser p
      → IsParser (
          parse_line split cppfilt is_start has_stdin match_section_start match_label match_instr
            match_lineno p line)
  unfolding parse_line
  parse_line-IsParser p [] ip = ip
  parse_line-IsParser p (c ∷ cs) ip = at p.state refl
    where
      at :
          (st : State)
          → p.state ≡ st
          → IsParser (
              parse_line split cppfilt is_start has_stdin match_section_start match_label
                match_instr match_lineno p
                (c ∷ cs))
      at init e = elim (Bool-cases (is_start (c ∷ cs))) [
        | inl f ↦ rw (e, parse_line) (rw f (record { few = ip.few; noted = ip.noted }))
        | inr f ↦ rw (e, parse_line) (rw f (record { few = ip.few; noted = ip.noted }))
      ]
      at body e =
          rw (e, parse_line)
            (body_line-IsParser (record p { state = body }) (c ∷ cs)
              (record { few = ip.few; noted = ip.noted }))

  parse_lines-IsParser :
      (lines : List Bytes) (p : Parser)
      → IsParser p
      → IsParser (
          parse_lines split cppfilt is_start has_stdin match_section_start match_label match_instr
            match_lineno p lines)
  unfolding parse_lines
  parse_lines-IsParser [] p ip = ip
  parse_lines-IsParser (line ∷ rest) p ip =
      parse_lines-IsParser rest _ (parse_line-IsParser p (strip_right line) ip)

  -- Every line of the listing that AsmParse's map names is a line that its body has: its number is
  -- below the number of the body's line feeds.
  pub asm_parse-AreBelow :
      (src : Bytes)
      → let r =
          asm_parse split cppfilt is_start has_stdin match_section_start match_label match_instr
            match_lineno src in
        AreBelow (line_feeds r.body) r.src_to_asm_line
  unfolding asm_parse
  asm_parse-AreBelow src =
      let ip =
        parse_lines-IsParser (split src) new_parser (record { few = omega arith; noted = tt }) in
      All-imp
        (λ (e : ℤ × List ℕ). All-imp (λ n (h : n < _). let few = ip.few in omega (arith, few)) e.1)
        _ ip.noted
