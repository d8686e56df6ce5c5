-- ===== src/Avl/Set.antt =====
-- avl.h, the specialisation AVL<K, void>: a set of keys. The file restates the private operations
-- of the specialisation, which carry no values.
pub mod Lift
pub mod Keys
use ced.Base.{
  ℕ, ◌+◌, max, compare, lt, eq, gt, Option, none, some, List, [], ◌∷◌, ◌++◌, ltb, ◌==◌,
  if◌then◌else◌,
}

pub data KeyTree : Type 0 where
  leaf : KeyTree
  node : ℕ → KeyTree → KeyTree → ℕ → KeyTree

unfoldable pub height : KeyTree → ℕ
height leaf = 0
height (node k l r h) = h

abbrev pub left : KeyTree → KeyTree
left leaf = leaf
left (node k l r h) = l

abbrev pub right : KeyTree → KeyTree
right leaf = leaf
right (node k l r h) = r

unfoldable pub make_node : ℕ → KeyTree → KeyTree → KeyTree
make_node k l r = node k l r (1 + max (height l) (height r))

unfoldable pub for_each : KeyTree → List ℕ
for_each leaf = []
for_each (node k l r h) = for_each l ++ k ∷ for_each r

unfoldable pub get : KeyTree → ℕ → Option ℕ
get leaf key = none
get (node k l r h) key = elim (compare k key) [ gt ↦ get l key | lt ↦ get r key | eq ↦ some k ]

unfoldable pub rotate_left : ℕ → KeyTree → KeyTree → KeyTree
rotate_left k l (node rk rl rr rh) = make_node rk (make_node k l rl) rr
rotate_left k l leaf = make_node k l leaf

unfoldable pub rotate_right : ℕ → KeyTree → KeyTree → KeyTree
rotate_right k (node lk ll lr lh) r = make_node lk ll (make_node k lr r)
rotate_right k leaf r = make_node k leaf r

unfoldable pub rotate_left_right : ℕ → KeyTree → KeyTree → KeyTree
rotate_left_right k (node lk ll (node mk ml mr mh) lh) r =
    make_node mk (make_node lk ll ml) (make_node k mr r)
rotate_left_right k l r = make_node k l r

unfoldable pub rotate_right_left : ℕ → KeyTree → KeyTree → KeyTree
rotate_right_left k l (node rk (node mk ml mr mh) rr rh) =
    make_node mk (make_node k l ml) (make_node rk mr rr)
rotate_right_left k l r = make_node k l r

unfoldable pub rebalance : ℕ → KeyTree → KeyTree → KeyTree
rebalance k l r =
    if height l == height r + 2
    then (if height (left l) + 1 == height (right l)
        then rotate_left_right k l r
        else rotate_right k l r)
    else (if height l + 2 == height r
        then (if height (left r) == height (right r) + 1
            then rotate_right_left k l r
            else rotate_left k l r)
        else make_node k l r)

unfoldable pub add_key : KeyTree → ℕ → KeyTree
add_key leaf key = make_node key leaf leaf
add_key (node k l r h) key = elim (compare k key) [
  | lt ↦ rebalance k l (add_key r key)
  | gt ↦ rebalance k (add_key l key) r
  | eq ↦ make_node key l r
]

unfoldable pub in_order_head : ℕ → KeyTree → ℕ
in_order_head k leaf = k
in_order_head k (node lk ll lr lh) = in_order_head lk ll

unfoldable pub in_order_tail : ℕ → KeyTree → ℕ
in_order_tail k leaf = k
in_order_tail k (node rk rl rr rh) = in_order_tail rk rr

unfoldable pub remove_found : KeyTree → KeyTree → (ℕ → KeyTree) → (ℕ → KeyTree) → KeyTree
remove_found leaf r remove_left remove_right = r
remove_found (node lk ll lr lh) leaf remove_left remove_right = node lk ll lr lh
remove_found (node lk ll lr lh) (node rk rl rr rh) remove_left remove_right =
    if ltb lh rh
    then (let h = in_order_head rk rl in rebalance h (node lk ll lr lh) (remove_right h))
    else (let h = in_order_tail lk lr in rebalance h (remove_left h) (node rk rl rr rh))

unfoldable pub remove_key : KeyTree → ℕ → KeyTree
remove_key leaf key = leaf
remove_key (node k l r h) key = elim (compare key k) [
  | lt ↦ rebalance k (remove_key l key) r
  | gt ↦ rebalance k l (remove_key r key)
  | eq ↦ remove_found l r (remove_key l) (remove_key r)
]
