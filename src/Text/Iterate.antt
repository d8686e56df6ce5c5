-- ===== src/Text/Iterate.antt =====
-- annotated_string.h, the classes AllIterator, Iterator and LineIterator, and annotated_string.cc,
-- OrderIDs and Render. The string does not change under an iterator, so an iterator is its position;
-- `cur_` is the lookup of it.
use ced.Base.{ℕ, zero, suc, ◌==◌, if◌then◌else◌, none, some, [], ◌∷◌, Ordering, lt, eq, gt}
use ced.Ids.{Id64, begin_id, end_id}
use ced.Proto.{Bytes}
use ced.Outcome.{Outcome, ok, out_of_fuel, ◌>>=◌, deref}
use ced.Avl.Map.{lookup}
use ced.Text.{AnnotatedString}

-- AllIterator::MoveNext and MovePrev.
unfoldable pub all_next : AnnotatedString → Id64 → Outcome Id64
all_next s pos = deref (lookup s.chars pos) >>= λ ci. ok ci.next

unfoldable pub all_prev : AnnotatedString → Id64 → Outcome Id64
all_prev s pos = deref (lookup s.chars pos) >>= λ ci. ok ci.prev

-- `while (!is_begin() && !it_.is_visible()) it_.MovePrev()`
unfoldable pub settle_prev : ℕ → AnnotatedString → Id64 → Outcome Id64
settle_prev zero s pos = out_of_fuel
settle_prev (suc fuel) s pos =
    let rest = λ (p : Id64). settle_prev fuel s p in
    if pos == begin_id
    then ok pos
    else (deref (lookup s.chars pos) >>= λ ci. if ci.visible then ok pos else rest ci.prev)

-- `while (!is_end() && !it_.is_visible()) it_.MoveNext()`
unfoldable pub settle_next : ℕ → AnnotatedString → Id64 → Outcome Id64
settle_next zero s pos = out_of_fuel
settle_next (suc fuel) s pos =
    let rest = λ (p : Id64). settle_next fuel s p in
    if pos == end_id
    then ok pos
    else (deref (lookup s.chars pos) >>= λ ci. if ci.visible then ok pos else rest ci.next)

-- The constructor of Iterator, and its MoveNext and MovePrev.
unfoldable pub iterator : ℕ → AnnotatedString → Id64 → Outcome Id64
unfolding settle_prev
iterator fuel s pos = settle_prev fuel s pos

unfoldable pub iter_next : ℕ → AnnotatedString → Id64 → Outcome Id64
iter_next fuel s pos =
    (if pos == end_id then ok pos else all_next s pos) >>= λ p. settle_next fuel s p

unfoldable pub iter_prev : ℕ → AnnotatedString → Id64 → Outcome Id64
iter_prev fuel s pos =
    (if pos == begin_id then ok pos else all_prev s pos) >>= λ p. settle_prev fuel s p

-- The loop of LineIterator's constructor; it has no test for the beginning.
unfoldable pub settle_line : ℕ → ℕ → AnnotatedString → Id64 → Outcome Id64
settle_line fuel zero s pos = out_of_fuel
settle_line fuel (suc rounds) s pos =
    let rest = λ (p : Id64). settle_line fuel rounds s p in
    elim (lookup s.line_breaks pos) [
      | some _ ↦ ok pos
      | none ↦ iter_prev fuel s pos >>= λ p. rest p
    ]

unfoldable pub line_iterator : ℕ → AnnotatedString → Id64 → Outcome Id64
line_iterator fuel s pos = iterator fuel s pos >>= λ p. settle_line fuel fuel s p

unfoldable pub line_prev : AnnotatedString → Id64 → Outcome Id64
line_prev s id =
    if id == begin_id then ok id else (deref (lookup s.line_breaks id) >>= λ lb. ok lb.prev)

unfoldable pub line_next : AnnotatedString → Id64 → Outcome Id64
line_next s id =
    if id == end_id then ok id else (deref (lookup s.line_breaks id) >>= λ lb. ok lb.next)

unfoldable pub line_forward : ℕ → AnnotatedString → Id64 → Outcome Id64
line_forward zero s id = ok id
line_forward (suc n) s id = line_next s id >>= λ i. line_forward n s i

-- LineIterator::FromLineNumber
unfoldable pub from_line_number : ℕ → AnnotatedString → ℕ → Outcome Id64
from_line_number fuel s line_no = line_iterator fuel s begin_id >>= λ i. line_forward line_no s i

-- The loop of OrderIDs over one line; -1 and 1 are `lt` and `gt`.
unfoldable pub same_line : ℕ → AnnotatedString → Id64 → Id64 → Id64 → Outcome Ordering
same_line zero s it a b = out_of_fuel
same_line (suc fuel) s it a b =
    let rest = λ (p : Id64). same_line fuel s p a b in
    if it == a then ok lt else (if it == b then ok gt else (all_next s it >>= λ p. rest p))

-- The loop of OrderIDs that looks for line b on both sides of line a.
unfoldable pub other_line : ℕ → AnnotatedString → Id64 → Id64 → Id64 → Outcome Ordering
other_line zero s bk fw line_b = out_of_fuel
other_line (suc fuel) s bk fw line_b =
    let rest = λ (b f : Id64). other_line fuel s b f line_b in
    line_prev s bk >>= λ b. line_next s fw >>= λ f.
    if b == line_b
    then ok gt
    else (if f == line_b
        then ok lt
        else (if b == begin_id then ok lt else (if f == end_id then ok gt else rest b f)))

unfoldable pub order_lines : ℕ → AnnotatedString → Id64 → Id64 → Outcome Ordering
order_lines fuel s a b = line_iterator fuel s a >>= λ line_a. line_iterator fuel s b >>= λ line_b.
    if line_a == line_b then same_line fuel s line_a a b else other_line fuel s line_a line_a line_b

unfoldable pub order_ids : ℕ → AnnotatedString → Id64 → Id64 → Outcome Ordering
order_ids fuel s a b =
    if a == b
    then ok eq
    else (if a == begin_id
        then ok lt
        else (if a == end_id
            then ok gt
            else (if b == begin_id
                then ok gt
                else (if b == end_id then ok lt else order_lines fuel s a b))))

-- `if (OrderIDs(*a, *b) > 0) std::swap(*a, *b)`
unfoldable pub make_ordered_ids : ℕ → AnnotatedString → Id64 → Id64 → Outcome (Id64 × Id64)
make_ordered_ids fuel s a b =
    order_ids fuel s a b >>= λ o. elim o [ gt ↦ ok (b, a) | _ ↦ ok (a, b) ]

-- The loop of Render.
unfoldable pub render_from : ℕ → AnnotatedString → Id64 → Id64 → Outcome Bytes
render_from zero s loc end = out_of_fuel
render_from (suc fuel) s loc end =
    let rest = λ (p : Id64). render_from fuel s p end in
    if loc == end
    then ok []
    else (deref (lookup s.chars loc) >>= λ ci.
        rest ci.next >>= λ r. ok (if ci.visible then ci.chr ∷ r else r))

unfoldable pub render_range : ℕ → AnnotatedString → Id64 → Id64 → Outcome Bytes
render_range fuel s a b =
    make_ordered_ids fuel s a b >>= λ (p : Id64 × Id64). render_from fuel s p.0 p.1

-- Render()
unfoldable pub render : ℕ → AnnotatedString → Outcome Bytes
unfolding render_range
render fuel s = render_range fuel s begin_id end_id
