-- ===== src/Text/Keep.antt =====
-- The loops of IntegrateMark and IntegrateDelMark over a range of the document.
use mathlib.Core.Option
use ced.Base.{
  ℕ, zero, suc, ◌≡◌, ◌≢◌, sym, ap, ◌∙◌, refl, fun_ext, Bool, true, false, Option, none, some, List,
  [], ◌∷◌, All, arith, subst, if◌then◌else◌, ==_refl, ==_ne, ◌==◌, ◌&&◌, ◌||◌, ◌++◌, All-right,
  length, append_assoc, ◌<◌,
}
use ced.Ids.{Id64}
use ced.Outcome.{ok}
use ced.Avl.Map.{Avl, lookup, add, lookup-add}
use ced.Avl.Set.Keys
use ced.Avl.Set.Keys.{KeySet}
use ced.Text.{CharInfo}
use ced.Text.Marks.{mark_chars, unmark_chars, touch}
use ced.Links.{Linked, Linked-split, Distinct, Distinct-middle}
use ced.Text.Doc.{Cell, ids, ids-append, Holds-lookup, next_of, prev_of, Holds, cell_of, IsStore}

-- What a document sees of a character: all but the annotations.
abbrev skeleton : CharInfo → CharInfo
skeleton ci = record ci { annotations = Keys.empty }

abbrev SameShape : Avl CharInfo → Avl CharInfo → Type 0
SameShape chars chars' =
    (j : Id64) → Option.map skeleton (lookup chars' j) ≡ Option.map skeleton (lookup chars j)

next_skeleton :
    (o p : Option CharInfo)
    → Option.map skeleton o ≡ Option.map skeleton p
    → Option.map (λ ci. ci.next) o ≡ Option.map (λ ci. ci.next) p
next_skeleton none none h = refl
next_skeleton none (some b) h = cc
next_skeleton (some a) none h = cc
next_skeleton (some a) (some b) h = ap (Option.map (λ (ci : CharInfo). ci.next)) h

prev_skeleton :
    (o p : Option CharInfo)
    → Option.map skeleton o ≡ Option.map skeleton p
    → Option.map (λ ci. ci.prev) o ≡ Option.map (λ ci. ci.prev) p
prev_skeleton none none h = refl
prev_skeleton none (some b) h = cc
prev_skeleton (some a) none h = cc
prev_skeleton (some a) (some b) h = ap (Option.map (λ (ci : CharInfo). ci.prev)) h

cell_skeleton :
    (i : Id64) (o p : Option CharInfo)
    → Option.map skeleton o ≡ Option.map skeleton p
    → Option.map (cell_of i) o ≡ Option.map (cell_of i) p
cell_skeleton i none none h = refl
cell_skeleton i none (some b) h = cc
cell_skeleton i (some a) none h = cc
cell_skeleton i (some a) (some b) h = ap (Option.map (cell_of i)) h

none-skeleton :
    (o p : Option CharInfo) → Option.map skeleton o ≡ Option.map skeleton p → p ≡ none → o ≡ none
none-skeleton none p h e = refl
none-skeleton (some a) none h e = cc
none-skeleton (some a) (some b) h e = cc

module _ (chars chars' : Avl CharInfo) (same : SameShape chars chars') where
  held_same : (cells : List Cell) → All (Holds chars) cells → All (Holds chars') cells
  held_same [] h = tt
  held_same (c ∷ cs) h = (cell_skeleton c.id _ _ (same c.id) ∙ h.0, held_same cs h.1)

  shape-IsStore : (cells : List Cell) → IsStore chars cells → IsStore chars' cells
  shape-IsStore cells st = record {
    linked =
        rw (fun_ext (λ j. next_skeleton _ _ (same j)), fun_ext (λ j. prev_skeleton _ _ (same j)))
          st.linked;
    distinct = st.distinct;
    held = held_same cells st.held;
    absent = λ j h. none-skeleton _ _ (same j) (st.absent j h);
  }

write_same :
    (visible : Bool) (a : KeySet) (chars : Avl CharInfo) (loc : Id64) (ci : CharInfo)
    → lookup chars loc ≡ some ci
    → SameShape chars (if visible then add chars loc (record ci { annotations = a }) else chars)
write_same false a chars loc ci at_loc j = refl
write_same true a chars loc ci at_loc j =
    rw (lookup-add chars loc (record ci { annotations = a }) j) (ground arith)

touch-IsStore :
    (f : KeySet → KeySet) (chars : Avl CharInfo) (loc : Id64) (ci : CharInfo) (cells : List Cell)
    → lookup chars loc ≡ some ci
    → IsStore chars cells
    → IsStore (touch f chars loc ci) cells
touch-IsStore f chars loc ci cells at_loc =
    shape-IsStore chars _ (write_same ci.visible (f ci.annotations) chars loc ci at_loc) cells

-- The first of a range, or the character behind it.
abbrev pub first_of : List Cell → Cell → Cell
first_of [] e = e
first_of (z ∷ _) e = z

-- The visible characters of a range, by their IDs.
unfoldable pub covers : List Cell → Id64 → Bool
covers [] j = false
covers (z ∷ zs) j = (z.visible && z.id == j) || covers zs j

abbrev pub with_marks : (KeySet → KeySet) → CharInfo → CharInfo
with_marks f ci = record ci { annotations = f ci.annotations }

-- The visible characters of a range have their set of annotations changed, and nothing else is.
abbrev pub IsTouched : (KeySet → KeySet) → Avl CharInfo → List Cell → Avl CharInfo → Type 0
IsTouched f chars range chars' =
    (j : Id64)
    → lookup chars' j
      ≡ (if covers range j then Option.map (with_marks f) (lookup chars j) else lookup chars j)

covers_none :
    (zs more : List Cell) (i : Id64) → All (λ y. i ≢ y) (ids (zs ++ more)) → covers zs i ≡ false
unfolding covers
covers_none [] more i d = refl
covers_none (z ∷ zs) more i d =
    rw (covers_none zs more i d.1) (rw (==_ne z.id i (λ e. d.0 (sym e))) (ground arith))

lookup_written :
    (visible : Bool) (chars : Avl CharInfo) (loc : Id64) (ci : CharInfo) (j : Id64)
    → lookup (if visible then add chars loc ci else chars) j
      ≡ (if visible && loc == j then some ci else lookup chars j)
lookup_written true chars loc ci j = lookup-add chars loc ci j
lookup_written false chars loc ci j = refl

one_more :
    (f : KeySet → KeySet) (visible here later : Bool) (o : Option CharInfo) (ci : CharInfo)
    → (here ≡ true → (later ≡ false) × (o ≡ some ci))
    → (if later
        then Option.map (with_marks f) (if visible && here then some (with_marks f ci) else o)
        else (if visible && here then some (with_marks f ci) else o))
      ≡ (if (visible && here) || later then Option.map (with_marks f) o else o)
one_more f false here later o ci h = refl
one_more f true false later o ci h = refl
one_more f true true true o ci h = absurd (ground (arith, (h refl).0))
one_more f true true false o ci h = rw (h refl).1 refl

touch-IsTouched :
    (f : KeySet → KeySet) (chars : Avl CharInfo) (z : Cell) (zs : List Cell) (ci : CharInfo)
    (last : Avl CharInfo)
    → lookup chars z.id ≡ some ci
    → ci.visible ≡ z.visible
    → covers zs z.id ≡ false
    → IsTouched f (touch f chars z.id ci) zs last
    → IsTouched f chars (z ∷ zs) last
unfolding covers
touch-IsTouched f chars z zs ci last at_z same apart h j =
    let written = lookup_written ci.visible chars z.id (with_marks f ci) j in
    h j
    ∙ ap (λ o. if covers zs j then Option.map (with_marks f) o else o) written
    ∙ one_more f ci.visible (z.id == j) (covers zs j) (lookup chars j) ci (λ t.
      let here : z.id ≡ j = ground (arith, t) in
      (
        subst (λ i. covers zs i ≡ false) here apart,
        subst (λ i. lookup chars i ≡ some ci) here at_z,
      ))
    ∙ ap
        (λ v.
          if (v && z.id == j) || covers zs j
          then Option.map (with_marks f) (lookup chars j)
          else lookup chars j)
        same

-- What one round of the loops over a range finds.
record Round (chars : Avl CharInfo) (z e : Cell) (zs : List Cell) : Type 0 where
  ci : CharInfo
  at_z : lookup chars z.id ≡ some ci
  onto : ci.next ≡ (first_of zs e).id
  visible : ci.visible ≡ z.visible
  apart : covers zs z.id ≡ false
  not_end : z.id ≢ e.id
  moves : ci.next ≢ z.id

module _ (pre : List Cell) (z : Cell) (zs : List Cell) (e : Cell) (post : List Cell) where
  abbrev behind : List Cell
  behind = zs ++ e ∷ post

  round : (chars : Avl CharInfo) → IsStore chars (pre ++ z ∷ behind) → Round chars z e zs
  round chars st =
      let (ci, at_z, same) = Holds-lookup chars z (All-right _ pre (z ∷ behind) st.held).0 in
      let linked =
        subst (Linked (next_of chars) (prev_of chars)) (ids-append pre (z ∷ behind)) st.linked in
      let distinct = subst Distinct (ids-append pre (z ∷ behind)) st.distinct in
      let d = (Distinct-middle (ids pre) z.id (ids behind) distinct).1 in
      let k = (Linked-split (next_of chars) (prev_of chars) (ids pre) z.id (ids behind) linked).1 in
      let next : some ci.next ≡ some (first_of zs e).id = rw at_z at (link zs k) in
      let onto : ci.next ≡ (first_of zs e).id = ground (arith, next) in
      record {
        ci = ci;
        at_z = at_z;
        onto = onto;
        visible = ap (λ (x : Cell). x.visible) same;
        apart = covers_none zs (e ∷ post) z.id d;
        not_end =
            (All-right _ (ids zs) (e.id ∷ ids post) (subst (All _) (ids-append zs (e ∷ post)) d)).0;
        moves = λ q. first_ne zs d (sym (sym onto ∙ q));
      }
    where
      link :
          (ws : List Cell)
          → Linked (next_of chars) (prev_of chars) (z.id ∷ ids (ws ++ e ∷ post))
          → next_of chars z.id ≡ some (first_of ws e).id
      link [] k = k.0.0
      link (w ∷ ws) k = k.0.0

      first_ne :
          (ws : List Cell) → All (λ y. z.id ≢ y) (ids (ws ++ e ∷ post)) → z.id ≢ (first_of ws e).id
      first_ne [] d = d.0
      first_ne (w ∷ ws) d = d.0

module _ (id : Id64) (e : Cell) (post : List Cell) where
  pub mark_chars_lem :
      (range pre : List Cell) (fuel : ℕ) (chars : Avl CharInfo)
      → IsStore chars (pre ++ (range ++ e ∷ post))
      → length range < fuel
      → (chars' : Avl CharInfo) × (mark_chars fuel id chars (first_of range e).id e.id ≡ ok chars')
        × IsStore chars' (pre ++ (range ++ e ∷ post))
        × IsTouched (λ a. Keys.add a id) chars range chars'
  unfolding mark_chars covers
  mark_chars_lem range pre zero chars st h = absurd (omega arith)
  mark_chars_lem [] pre (suc fuel) chars st h = (chars, rw (==_refl e.id), st, λ j. refl)
  mark_chars_lem (z ∷ zs) pre (suc fuel) chars st h =
      let k = round pre z zs e post chars st in
      let shift = append_assoc pre (z ∷ []) (zs ++ e ∷ post) in
      let chars' = touch (λ a. Keys.add a id) chars z.id k.ci in
      let st' = touch-IsStore (λ a. Keys.add a id) chars z.id k.ci _ k.at_z st in
      let (last, run, st'', touched) =
        mark_chars_lem zs (pre ++ z ∷ []) fuel chars' (subst (IsStore chars') (sym shift) st')
          (omega arith) in
      (
        last,
        rw (==_ne z.id e.id k.not_end) (
            rw k.at_z (
              rw (==_ne k.ci.next z.id k.moves)
                (subst (λ n. mark_chars fuel id chars' n e.id ≡ ok last) (sym k.onto) run))),
        subst (IsStore last) shift st'',
        touch-IsTouched (λ a. Keys.add a id) chars z zs k.ci last k.at_z k.visible k.apart touched,
      )

  pub unmark_chars_lem :
      (range pre : List Cell) (fuel : ℕ) (chars : Avl CharInfo)
      → IsStore chars (pre ++ (range ++ e ∷ post))
      → length range < fuel
      → (chars' : Avl CharInfo) × (unmark_chars fuel id chars (first_of range e).id e.id
          ≡ ok chars')
        × IsStore chars' (pre ++ (range ++ e ∷ post))
        × IsTouched (λ a. Keys.remove a id) chars range chars'
  unfolding unmark_chars covers
  unmark_chars_lem range pre zero chars st h = absurd (omega arith)
  unmark_chars_lem [] pre (suc fuel) chars st h = (chars, rw (==_refl e.id), st, λ j. refl)
  unmark_chars_lem (z ∷ zs) pre (suc fuel) chars st h =
      let k = round pre z zs e post chars st in
      let shift = append_assoc pre (z ∷ []) (zs ++ e ∷ post) in
      let chars' = touch (λ a. Keys.remove a id) chars z.id k.ci in
      let st' = touch-IsStore (λ a. Keys.remove a id) chars z.id k.ci _ k.at_z st in
      let (last, run, st'', touched) =
        unmark_chars_lem zs (pre ++ z ∷ []) fuel chars' (subst (IsStore chars') (sym shift) st')
          (omega arith) in
      (
        last,
        rw (==_ne z.id e.id k.not_end) (
            rw k.at_z (subst (λ n. unmark_chars fuel id chars' n e.id ≡ ok last) (sym k.onto) run)),
        subst (IsStore last) shift st'',
        touch-IsTouched (λ a. Keys.remove a id) chars z zs k.ci last k.at_z k.visible k.apart
            touched,
      )
