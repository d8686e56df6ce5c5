-- ===== src/Text.antt =====
-- annotated_string.h and annotated_string.cc, the class AnnotatedString: a text whose characters
-- and annotations are inserted and deleted by commands that several sites exchange. This file has
-- its state, the insertions and the deletion of a character; a walk over the characters takes fuel,
-- and so does the search for the place of an insertion.
pub mod Marks
pub mod Integrate
pub mod Iterate
pub mod Commands
pub mod Messages
pub mod Annotator
pub mod ValToId
pub mod Republish
pub mod Forget
pub mod Attributes
pub mod Scan
pub mod Doc
pub mod Spin
pub mod Keep
pub mod Bury
use ced.Base.{
  ℕ, zero, suc, ◌+◌, ◌==◌, ltb, not, ◌&&◌, ◌||◌, if◌then◌else◌, Bool, true, false, Option, none,
  some, List, [], ◌∷◌,
}
use ced.Ids.{Id64, begin_id, end_id, next_clock}
use ced.Proto.{Attribute, data_case, Annotation, InsertCommand, Command, CommandSet, Body, Bytes}
use ced.Proto.Body.{insert, delete, decl, del_decl, mark, del_mark, command_not_set}
use ced.Outcome.{Outcome, ok, fault, out_of_fuel, ◌>>=◌, deref}
use ced.Avl.Map.{Avl, empty, add, remove, lookup}
use ced.Avl.Set.Keys
use ced.Avl.Set.Keys.{KeySet}

pub record CharInfo : Type 0 where
  pub visible : Bool
  pub chr : ℕ
  pub next : Id64
  pub prev : Id64
  pub after : Id64
  pub before : Id64
  pub annotations : KeySet

pub record LineBreak : Type 0 where
  pub prev : Id64
  pub next : Id64

pub record AnnotatedString : Type 0 where
  pub chars : Avl CharInfo
  pub line_breaks : Avl LineBreak
  pub attributes : Avl ℕ
  pub attributes_by_type : Avl (Avl Attribute)
  pub annotations : Avl ℕ
  pub annotations_by_type : Avl (Avl Annotation)
  pub graveyard : KeySet

abbrev pub newline : ℕ
newline = 10

-- A sentinel as the constructor adds it: invisible, with the other sentinel on every side.
abbrev pub sentinel : ℕ → Id64 → CharInfo
sentinel c other = record {
  visible = false;
  chr = c;
  next = other;
  prev = other;
  after = other;
  before = other;
  annotations = Keys.empty;
}

abbrev pub line_break : Id64 → Id64 → LineBreak
line_break p n = record { prev = p; next = n }

unfoldable pub new_string : AnnotatedString
new_string = record {
  chars = add (add empty begin_id (sentinel 0 end_id)) end_id (sentinel 1 begin_id);
  line_breaks =
      add (add empty begin_id (line_break end_id end_id)) end_id (line_break begin_id begin_id);
  attributes = empty;
  attributes_by_type = empty;
  annotations = empty;
  annotations_by_type = empty;
  graveyard = Keys.empty;
}

-- The loop that looks for the line break before a new one.
unfoldable pub prev_line : ℕ → Avl CharInfo → Id64 → Outcome Id64
prev_line zero chars id = out_of_fuel
prev_line (suc fuel) chars id =
    let rest = λ (p : Id64). prev_line fuel chars p in
    if id == begin_id
    then ok id
    else (deref (lookup chars id) >>= λ plic.
        if plic.visible && plic.chr == newline then ok id else rest plic.prev)

unfoldable pub insert_line_break :
    ℕ → Avl CharInfo → Avl LineBreak → Id64 → Id64 → Outcome (Avl LineBreak)
insert_line_break fuel chars lines id after = do
  prev_line_id ← prev_line fuel chars after
  prev_lb ← deref (lookup lines prev_line_id)
  next_lb ← deref (lookup lines prev_lb.next)
  ok (
      add
        (add (add lines prev_line_id (line_break prev_lb.prev id)) id
          (line_break prev_line_id prev_lb.next))
        prev_lb.next (line_break id next_lb.next))

-- The three updates of `chars_` for an insertion between two neighbours.
unfoldable pub link_char :
    Avl CharInfo → Id64 → ℕ → Id64 → Id64 → CharInfo → CharInfo → Avl CharInfo
link_char chars id c after before caft cbef =
    add
      (add (add chars after (record caft { next = id })) id (record {
        visible = true;
        chr = c;
        next = before;
        prev = after;
        after = after;
        before = before;
        annotations = Keys.empty;
      }))
      before (record cbef { prev = id })

-- The branch of IntegrateInsertChar where `caft->next == before`.
unfoldable pub insert_adjacent :
    ℕ → AnnotatedString → Id64 → ℕ → Id64 → Id64 → CharInfo → CharInfo → Outcome AnnotatedString
insert_adjacent fuel s id c after before caft cbef = do
  lines ←
      (if c == newline
        then insert_line_break fuel s.chars s.line_breaks id after
        else ok s.line_breaks)
  ok (record s { chars = link_char s.chars id c after before caft cbef; line_breaks = lines })

-- The characters from `n` up to `before`, which is not among them.
unfoldable pub between : ℕ → Avl CharInfo → Id64 → Id64 → Outcome (List (Id64 × CharInfo))
between zero chars n before = out_of_fuel
between (suc fuel) chars n before =
    let rest = λ (p : Id64). between fuel chars p before in
    do
      cn ← deref (lookup chars n)
      tail ← (if cn.next == before then ok [] else rest cn.next)
      ok ((n, cn) ∷ tail)

unfoldable pub contains : Id64 → List Id64 → Bool
contains i [] = false
contains i (x ∷ xs) = x == i || contains i xs

abbrev pub firsts : List (Id64 × CharInfo) → List Id64
firsts [] = []
firsts ((i, _) ∷ xs) = i ∷ firsts xs

-- The filter that leaves those of L that were inserted between two members of `in_l`.
unfoldable pub kept : List Id64 → List (Id64 × CharInfo) → List Id64
kept in_l [] = []
kept in_l ((i, ci) ∷ xs) =
    let rest = kept in_l xs in
    if contains ci.after in_l && contains ci.before in_l then i ∷ rest else rest

-- The new bounds: the first of what is left that is not below `id`, and the one in front of it.
unfoldable pub choose : Id64 → Id64 → List Id64 → Id64 → Id64 × Id64
choose id after [] before = (after, before)
choose id after (x ∷ xs) before =
    let rest = choose id x xs before in if ltb x id then rest else (after, x)

unfoldable pub narrow : Id64 → Id64 → Id64 → List (Id64 × CharInfo) → Id64 × Id64
narrow id after before inner = choose id after (kept (after ∷ before ∷ firsts inner) inner) before

-- `for (;;)`, at most `rounds` times; `fuel` is for the walks inside.
unfoldable pub insert_char :
    ℕ → ℕ → AnnotatedString → Id64 → ℕ → Id64 → Id64 → Outcome AnnotatedString
insert_char fuel zero s id c after before = out_of_fuel
insert_char fuel (suc rounds) s id c after before =
    let again = λ (b : Id64 × Id64). insert_char fuel rounds s id c b.0 b.1 in
    deref (lookup s.chars after) >>= λ caft. deref (lookup s.chars before) >>= λ cbef.
    if caft.next == before
    then insert_adjacent fuel s id c after before caft cbef
    else (between fuel s.chars caft.next before >>= λ inner. again (narrow id after before inner))

unfoldable pub insert_chars :
    ℕ → AnnotatedString → Id64 → Bytes → Id64 → Id64 → Outcome AnnotatedString
insert_chars fuel s id [] after before = ok s
insert_chars fuel s id (c ∷ cs) after before = insert_char fuel fuel s id c after before >>= λ t.
    insert_chars fuel t (next_clock id) cs id before

unfoldable pub integrate_insert :
    ℕ → AnnotatedString → Id64 → InsertCommand → Outcome AnnotatedString
integrate_insert fuel s id cmd = elim (lookup s.chars id) [
  | some _ ↦ ok s
  | none ↦ insert_chars fuel s id cmd.characters cmd.after cmd.before
]

unfoldable pub remove_line_break : Avl LineBreak → Id64 → Outcome (Avl LineBreak)
remove_line_break lines id = do
  self ← deref (lookup lines id)
  prev ← deref (lookup lines self.prev)
  next ← deref (lookup lines self.next)
  ok (
      add (add (remove lines id) self.prev (line_break prev.prev self.next)) self.next
        (line_break self.prev next.next))

unfoldable pub integrate_del_char : AnnotatedString → Id64 → Outcome AnnotatedString
integrate_del_char s id = deref (lookup s.chars id) >>= λ cdel.
    if not cdel.visible
    then ok s
    else ((if cdel.chr == newline then remove_line_break s.line_breaks id else ok s.line_breaks)
        >>= λ lines. ok (record s {
          chars = add s.chars id (record cdel { visible = false; annotations = Keys.empty });
          line_breaks = lines;
        }))
