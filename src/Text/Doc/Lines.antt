-- ===== src/Text/Doc/Lines.antt =====
-- The index of line breaks: Begin, the visible newlines and End of the document, linked in order.
use mathlib.Core.Option
use ced.Base.{
  ℕ, zero, suc, ◌+◌, ◌<◌, ◌≤◌, ◌≡◌, ◌≢◌, inl, inr, sym, ap, ◌∙◌, refl, Bool, true, false, ◌&&◌,
  ◌||◌, Option, none, some, List, [], ◌∷◌, ◌++◌, All, arith, ◌==◌, if◌then◌else◌, append_assoc,
  length, Bool-cases,
}
use ced.Ids.{Id64, begin_id, end_id}
use ced.Outcome.{ok}
use ced.Avl.Map.{Avl, lookup}
use ced.Text.{CharInfo, LineBreak, newline, prev_line}
use ced.Links.{Linked}
use ced.Text.Doc.{Cell, ids, next_of, prev_of, Holds, Holds-lookup}

abbrev pub is_line : Cell → Bool
is_line c = c.id == begin_id || (c.id == end_id || (c.visible && c.chr == newline))

-- A function of its own, so that proofs treat the list of a part as one thing.
unfoldable pub line_ids : List Cell → List Id64
line_ids [] = []
line_ids (c ∷ cs) = if is_line c then c.id ∷ line_ids cs else line_ids cs

pub line_ids-append : (xs ys : List Cell) → line_ids (xs ++ ys) ≡ line_ids xs ++ line_ids ys
unfolding line_ids
line_ids-append [] ys = refl
line_ids-append (x ∷ xs) ys = ground (arith, line_ids-append xs ys)

abbrev pub line_next_of : Avl LineBreak → Id64 → Option Id64
line_next_of lines i = Option.map (λ lb. lb.next) (lookup lines i)

abbrev pub line_prev_of : Avl LineBreak → Id64 → Option Id64
line_prev_of lines i = Option.map (λ lb. lb.prev) (lookup lines i)

pub record IsLines (lines : Avl LineBreak) (cells : List Cell) : Type 0 where
  pub linked : Linked (line_next_of lines) (line_prev_of lines) (line_ids cells)
  pub absent : (j : Id64) → All (λ x. x ≢ j) (line_ids cells) → lookup lines j ≡ none

-- The search for the line break before `x` ends at `q` within `n` steps.
abbrev pub Finds : Avl CharInfo → Id64 → Id64 → ℕ → Type 0
Finds chars q x n = (f : ℕ) → n < f → prev_line f chars x ≡ ok q

module _ (chars : Avl CharInfo) where
  pub Finds-begin : Finds chars begin_id begin_id 0
  unfolding prev_line
  Finds-begin zero h = absurd (omega arith)
  Finds-begin (suc f) h = refl

  Finds-here :
      (c : Cell) → Holds chars c → c.id ≢ end_id → is_line c ≡ true → Finds chars c.id c.id 0
  unfolding prev_line
  Finds-here c h e l zero p = absurd (omega arith)
  Finds-here c h e l (suc f) p =
      let (ci, at, same) = Holds-lookup chars c h in
      elim (Bool-cases (c.id == begin_id)) [
        | inl b ↦ rw b
        | inr b ↦ rw b (
            rw at
              (ground (arith, ap (λ (x : Cell). x.visible) same, ap (λ (x : Cell). x.chr) same)))
      ]

  Finds-back :
      (c : Cell) (q y : Id64) (n : ℕ)
      → Holds chars c
      → is_line c ≡ false
      → prev_of chars c.id ≡ some y
      → Finds chars q y n
      → Finds chars q c.id (suc n)
  unfolding prev_line
  Finds-back c q y n h l b k zero p = absurd (omega arith)
  Finds-back c q y n h l b k (suc f) p =
      let (ci, at, same) = Holds-lookup chars c h in
      let b' : some ci.prev ≡ some y = rw at at b in
      ground (
        arith,
        at,
        b',
        k f (omega arith),
        ap (λ (x : Cell). x.visible) same,
        ap (λ (x : Cell). x.chr) same,
      )

  -- Where the search from the last of the cells gone through ends, and the line IDs up to there.
  pub record Found (z : Id64) (before : List Id64 → List Id64) (n : ℕ) : Type 0 where
    pub q : Id64
    pub front : List Id64
    pub steps : ℕ
    pub finds : Finds chars q z steps
    pub lines_eq : (rest : List Id64) → before rest ≡ front ++ q ∷ rest
    pub few : steps ≤ n

  step :
      (y q : Id64) (n : ℕ) (front : List Id64) (z : Cell)
      → prev_of chars z.id ≡ some y
      → Holds chars z
      → z.id ≢ end_id
      → Finds chars q y n
      → Found z.id (λ rest. front ++ q ∷ (if is_line z then z.id ∷ rest else rest)) (suc n)
  step y q n front z b h e k = elim (Bool-cases (is_line z)) [
    | inl yes_line ↦ record {
      q = z.id;
      front = front ++ q ∷ [];
      steps = 0;
      finds = Finds-here z h e yes_line;
      lines_eq = λ rest. rw yes_line (sym (append_assoc front (q ∷ []) (z.id ∷ rest)));
      few = omega arith;
    }
    | inr no_line ↦ record {
      q = q;
      front = front;
      steps = suc n;
      finds = Finds-back z q y n h no_line b k;
      lines_eq = λ rest. rw no_line;
      few = omega arith;
    }
  ]

  if_append :
      (b : Bool) (x : Id64) (m rest : List Id64)
      → (if b then x ∷ m else m) ++ rest ≡ (if b then x ∷ (m ++ rest) else (m ++ rest))
  if_append true x m rest = refl
  if_append false x m rest = refl

  -- Along the document from `y` to `a`.
  pub scan :
      (ys : List Cell) (y q : Id64) (n : ℕ) (front : List Id64) (a : Cell)
      → Linked (next_of chars) (prev_of chars) (y ∷ ids (ys ++ a ∷ []))
      → All (Holds chars) (ys ++ a ∷ [])
      → All (λ c. c.id ≢ end_id) (ys ++ a ∷ [])
      → Finds chars q y n
      → Found a.id (λ rest. front ++ q ∷ (line_ids (ys ++ a ∷ []) ++ rest)) (n + length ys + 1)
  unfolding line_ids
  scan [] y q n front a k h e f =
      let s = step y q n front a k.0.1 h.0 e.0 f in
      record {
        q = s.q;
        front = s.front;
        steps = s.steps;
        finds = s.finds;
        lines_eq =
            λ rest. ap (λ m. front ++ q ∷ m) (if_append (is_line a) a.id [] rest) ∙ s.lines_eq rest;
        few = omega (arith, s.few);
      }
  scan (z ∷ zs) y q n front a k h e f =
      let s = step y q n front z k.0.1 h.0 e.0 f in
      let t = scan zs z.id s.q s.steps s.front a k.1 h.1 e.1 s.finds in
      record {
        q = t.q;
        front = t.front;
        steps = t.steps;
        finds = t.finds;
        lines_eq = λ rest.
            ap (λ m. front ++ q ∷ m) (if_append (is_line z) z.id (line_ids (zs ++ a ∷ [])) rest)
            ∙ s.lines_eq (line_ids (zs ++ a ∷ []) ++ rest)
            ∙ t.lines_eq rest;
        few = omega (arith, s.few, t.few);
      }
