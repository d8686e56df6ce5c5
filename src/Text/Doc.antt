-- ===== src/Text/Doc.antt =====
-- The document that a store of characters holds: its characters in order, from Begin to End, each
-- with what a command said of it. `IsStore` ties the store to the document.
pub mod Link
pub mod Lines
pub mod Newline
pub mod Insert
pub mod Block
pub mod Hide
pub mod Delete
pub mod Render
pub mod Walk
pub mod LineOf
pub mod Order
pub mod Climb
pub mod Ordered
pub mod Reload
pub mod Received
pub mod Twin
pub mod Converge
use mathlib.Core.Option
use ced.Base.{
  ℕ, ◌≡◌, ◌≢◌, Bool, true, false, Option, none, some, List, [], ◌∷◌, ◌++◌, All, refl, ap,
}
use ced.Ids.{Id64, begin_id, end_id}
use ced.Avl.Map.{Avl, lookup}
use ced.Text.{CharInfo}
use ced.Links.{Linked, Distinct}

-- One character of a document: `after` and `before` are where its creator put it.
pub record Cell : Type 0 where
  pub id : Id64
  pub chr : ℕ
  pub visible : Bool
  pub after : Id64
  pub before : Id64

abbrev pub ids : List Cell → List Id64
ids [] = []
ids (c ∷ cs) = c.id ∷ ids cs

pub ids-append : (xs ys : List Cell) → ids (xs ++ ys) ≡ ids xs ++ ids ys
ids-append [] ys = refl
ids-append (x ∷ xs) ys = ap (◌∷◌ x.id) (ids-append xs ys)

abbrev pub cell_of : Id64 → CharInfo → Cell
cell_of i ci = record {
  id = i;
  chr = ci.chr;
  visible = ci.visible;
  after = ci.after;
  before = ci.before;
}

abbrev pub next_of : Avl CharInfo → Id64 → Option Id64
next_of chars i = Option.map (λ ci. ci.next) (lookup chars i)

abbrev pub prev_of : Avl CharInfo → Id64 → Option Id64
prev_of chars i = Option.map (λ ci. ci.prev) (lookup chars i)

abbrev pub Holds : Avl CharInfo → Cell → Type 0
Holds chars c = Option.map (cell_of c.id) (lookup chars c.id) ≡ some c

pub record IsStore (chars : Avl CharInfo) (cells : List Cell) : Type 0 where
  pub linked : Linked (next_of chars) (prev_of chars) (ids cells)
  pub distinct : Distinct (ids cells)
  pub held : All (Holds chars) cells
  pub absent : (j : Id64) → All (λ x. x ≢ j) (ids cells) → lookup chars j ≡ none

abbrev pub begin_cell : Cell
begin_cell = record { id = begin_id; chr = 0; visible = false; after = end_id; before = end_id }

abbrev pub end_cell : Cell
end_cell = record { id = end_id; chr = 1; visible = false; after = begin_id; before = begin_id }

-- A document: the characters between the two sentinels.
abbrev pub enclosed : List Cell → List Cell
enclosed mid = begin_cell ∷ mid ++ end_cell ∷ []

-- The character that a command inserts.
abbrev pub inserted : Id64 → ℕ → Id64 → Id64 → Cell
inserted i c after before = record {
  id = i;
  chr = c;
  visible = true;
  after = after;
  before = before;
}

-- What a held character is in the store.
pub Holds-lookup :
    (chars : Avl CharInfo) (c : Cell)
    → Holds chars c
    → (ci : CharInfo) × (lookup chars c.id ≡ some ci) × (cell_of c.id ci ≡ c)
Holds-lookup chars c h = go (lookup chars c.id) refl h
  where
    go :
        (o : Option CharInfo)
        → lookup chars c.id ≡ o
        → Option.map (cell_of c.id) o ≡ some c
        → (ci : CharInfo) × (lookup chars c.id ≡ some ci) × (cell_of c.id ci ≡ c)
    go none e k = cc
    go (some ci) e k = (ci, e, cc)
