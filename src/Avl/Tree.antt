-- ===== src/Avl/Tree.antt =====
-- avl.h, the class template AVL<K, V>. K is ID or Attribute::DataCase in the program, and both
-- compare as unsigned integers; a NodePtr is a tree, with `leaf` for nullptr.
use ced.Base.{
  ℕ, ◌+◌, max, compare, lt, eq, gt, Option, none, some, List, [], ◌∷◌, ◌++◌, ltb, ◌==◌,
  if◌then◌else◌,
}

-- `height` is the cached height, as MakeNode fills it in.
pub data Tree {ℓ} (V : Type ℓ) : Type ℓ where
  leaf : Tree V
  node : ℕ → V → Tree V → Tree V → ℕ → Tree V

module _ {ℓ} {V : Type ℓ} where
  unfoldable pub height : Tree V → ℕ
  height leaf = 0
  height (node k v l r h) = h

  -- `node->left` and `node->right`; the code reads them of nodes that are not nullptr.
  abbrev pub left : Tree V → Tree V
  left leaf = leaf
  left (node k v l r h) = l

  abbrev pub right : Tree V → Tree V
  right leaf = leaf
  right (node k v l r h) = r

  unfoldable pub make_node : ℕ → V → Tree V → Tree V → Tree V
  make_node k v l r = node k v l r (1 + max (height l) (height r))

  -- The pairs in the order in which ForEach passes them to its argument.
  unfoldable pub for_each : Tree V → List (ℕ × V)
  for_each leaf = []
  for_each (node k v l r h) = for_each l ++ (k, v) ∷ for_each r

  unfoldable pub get : Tree V → ℕ → Option (ℕ × V)
  get leaf key = none
  get (node k v l r h) key = elim (compare k key) [
    | gt ↦ get l key
    | lt ↦ get r key
    | eq ↦ some (k, v)
  ]

  -- `if (n == nullptr) n = node`
  abbrev pub or_node : Option (ℕ × V) → ℕ × V → Option (ℕ × V)
  or_node none n = some n
  or_node (some m) n = some m

  unfoldable pub get_below : Tree V → ℕ → Option (ℕ × V)
  get_below leaf key = none
  get_below (node k v l r h) key = elim (compare k key) [
    | gt ↦ get_below l key
    | lt ↦ or_node (get_below r key) (k, v)
    | eq ↦ some (k, v)
  ]

  -- A rotation is called where the pointers that it follows are not nullptr; the last clause of
  -- each stands for the calls that do not occur.
  unfoldable pub rotate_left : ℕ → V → Tree V → Tree V → Tree V
  rotate_left k v l (node rk rv rl rr rh) = make_node rk rv (make_node k v l rl) rr
  rotate_left k v l leaf = make_node k v l leaf

  unfoldable pub rotate_right : ℕ → V → Tree V → Tree V → Tree V
  rotate_right k v (node lk lv ll lr lh) r = make_node lk lv ll (make_node k v lr r)
  rotate_right k v leaf r = make_node k v leaf r

  unfoldable pub rotate_left_right : ℕ → V → Tree V → Tree V → Tree V
  rotate_left_right k v (node lk lv ll (node mk mv ml mr mh) lh) r =
      make_node mk mv (make_node lk lv ll ml) (make_node k v mr r)
  rotate_left_right k v l r = make_node k v l r

  unfoldable pub rotate_right_left : ℕ → V → Tree V → Tree V → Tree V
  rotate_right_left k v l (node rk rv (node mk mv ml mr mh) rr rh) =
      make_node mk mv (make_node k v l ml) (make_node rk rv mr rr)
  rotate_right_left k v l r = make_node k v l r

  -- The switch on `Height(left) - Height(right)`, a signed difference.
  unfoldable pub rebalance : ℕ → V → Tree V → Tree V → Tree V
  rebalance k v l r =
      if height l == height r + 2
      then (if height (left l) + 1 == height (right l)
          then rotate_left_right k v l r
          else rotate_right k v l r)
      else (if height l + 2 == height r
          then (if height (left r) == height (right r) + 1
              then rotate_right_left k v l r
              else rotate_left k v l r)
          else make_node k v l r)

  unfoldable pub add_key : Tree V → ℕ → V → Tree V
  add_key leaf key value = make_node key value leaf leaf
  add_key (node k v l r h) key value = elim (compare k key) [
    | lt ↦ rebalance k v l (add_key r key value)
    | gt ↦ rebalance k v (add_key l key value) r
    | eq ↦ make_node key value l r
  ]

  -- The loops walk down from a node that is given by its pair and the child to go on with.
  unfoldable pub in_order_head : ℕ → V → Tree V → ℕ × V
  in_order_head k v leaf = (k, v)
  in_order_head k v (node lk lv ll lr lh) = in_order_head lk lv ll

  unfoldable pub in_order_tail : ℕ → V → Tree V → ℕ × V
  in_order_tail k v leaf = (k, v)
  in_order_tail k v (node rk rv rl rr rh) = in_order_tail rk rv rr

  -- The last branch of RemoveKey, where the key is found, over the children and over RemoveKey on each.
  unfoldable pub remove_found : Tree V → Tree V → (ℕ → Tree V) → (ℕ → Tree V) → Tree V
  remove_found leaf r remove_left remove_right = r
  remove_found (node lk lv ll lr lh) leaf remove_left remove_right = node lk lv ll lr lh
  remove_found (node lk lv ll lr lh) (node rk rv rl rr rh) remove_left remove_right =
      if ltb lh rh
      then (let h = in_order_head rk rv rl in
          rebalance h.0 h.1 (node lk lv ll lr lh) (remove_right h.0))
      else (let h = in_order_tail lk lv lr in
          rebalance h.0 h.1 (remove_left h.0) (node rk rv rl rr rh))

  unfoldable pub remove_key : Tree V → ℕ → Tree V
  remove_key leaf key = leaf
  remove_key (node k v l r h) key = elim (compare key k) [
    | lt ↦ rebalance k v (remove_key l key) r
    | gt ↦ rebalance k v l (remove_key r key)
    | eq ↦ remove_found l r (remove_key l) (remove_key r)
  ]
