-- ===== src/Text/Messages.antt =====
-- annotated_string.cc, AsProto and FromProto. `CharMsg.chr` is a byte: the model keeps the value,
-- and the cast to char of FromProto is the identity on one.
use ced.Base.{ℕ, zero, suc, ◌==◌, if◌then◌else◌, List, [], ◌∷◌, ◌++◌, map}
use ced.Ids.{Id64, begin_id, end_id}
use ced.Proto.{Attribute, Annotation, CharMsg, AnnotatedStringMsg}
use ced.Outcome.{Outcome, ok, fault, out_of_fuel, ◌>>=◌, deref}
use ced.Avl.Map.{Avl, add, lookup, to_list}
use ced.Avl.Set.Keys
use ced.Avl.Set.Keys.{KeySet}
use ced.Text.{AnnotatedString, CharInfo, LineBreak, new_string, newline, line_break}
use ced.Text.Marks.{integrate_decl, integrate_mark}
use ced.Text.Iterate.{iter_next}

unfoldable pub char_msg : Id64 × CharInfo → CharMsg
char_msg (i, ci) = record {
  id = i;
  visible = ci.visible;
  chr = ci.chr;
  next = ci.next;
  prev = ci.prev;
  after = ci.after;
  before = ci.before;
}

-- The two nested loops that write a map of maps out.
unfoldable pub flatten {ℓ} : {V : Type ℓ} → List (ℕ × Avl V) → List (Id64 × V)
flatten [] = []
flatten ((_, m) ∷ rest) = to_list m ++ flatten rest

unfoldable pub as_proto : AnnotatedString → AnnotatedStringMsg
unfolding flatten char_msg
as_proto s = record {
  chars = map char_msg (to_list s.chars);
  attributes = flatten (to_list s.attributes_by_type);
  annotations = flatten (to_list s.annotations_by_type);
  graveyard = Keys.to_list s.graveyard;
}

abbrev pub char_info : CharMsg → CharInfo
char_info m = record {
  visible = m.visible;
  chr = m.chr;
  next = m.next;
  prev = m.prev;
  after = m.after;
  before = m.before;
  annotations = Keys.empty;
}

unfoldable pub load_chars : Avl CharInfo → List CharMsg → Avl CharInfo
load_chars chars [] = chars
load_chars chars (m ∷ ms) = load_chars (add chars m.id (char_info m)) ms

-- The loop over the visible characters, with its assert. `last_id` is Begin on every round.
unfoldable pub load_lines :
    ℕ → ℕ → AnnotatedString → Id64 → Id64 → Avl LineBreak → Outcome (Avl LineBreak)
load_lines fuel zero s pos last_id lines = out_of_fuel
load_lines fuel (suc rounds) s pos last_id lines =
    let rest = λ (p : Id64) (ls : Avl LineBreak). load_lines fuel rounds s p last_id ls in
    if pos == end_id
    then ok lines
    else (deref (lookup s.chars pos) >>= λ ci.
        (if ci.chr == newline
          then (deref (lookup lines last_id) >>= λ last_lb.
              deref (lookup lines last_lb.next) >>= λ next_lb.
              if next_lb.prev == last_id
              then ok (
                  add
                    (add (add lines last_id (line_break last_lb.prev pos)) pos
                      (line_break last_id last_lb.next))
                    last_lb.next (line_break pos next_lb.next))
              else fault)
          else ok lines)
        >>= λ ls. iter_next fuel s pos >>= λ p. rest p ls)

unfoldable pub load_attributes : AnnotatedString → List (Id64 × Attribute) → AnnotatedString
load_attributes s [] = s
load_attributes s ((i, a) ∷ rest) = load_attributes (integrate_decl s i a) rest

unfoldable pub load_annotations :
    ℕ → AnnotatedString → List (Id64 × Annotation) → Outcome AnnotatedString
load_annotations fuel s [] = ok s
load_annotations fuel s ((i, a) ∷ rest) =
    integrate_mark fuel s i a >>= λ t. load_annotations fuel t rest

unfoldable pub load_graveyard : KeySet → List Id64 → KeySet
load_graveyard g [] = g
load_graveyard g (i ∷ rest) = load_graveyard (Keys.add g i) rest

unfoldable pub from_proto : ℕ → AnnotatedStringMsg → Outcome AnnotatedString
unfolding load_lines load_attributes load_annotations
from_proto fuel msg =
    let s = record new_string { chars = load_chars new_string.chars msg.chars } in
    iter_next fuel s begin_id >>= λ pos.
    load_lines fuel fuel s pos begin_id s.line_breaks >>= λ lines.
    load_annotations fuel (load_attributes (record s { line_breaks = lines }) msg.attributes)
      msg.annotations
    >>= λ t. ok (record t { graveyard = load_graveyard t.graveyard msg.graveyard })
