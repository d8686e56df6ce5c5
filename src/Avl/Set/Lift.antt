-- ===== src/Avl/Set/Lift.antt =====
-- AVL<K, void> beside AVL<K, V> at a type of one value: a key tree is lifted to the tree with that
-- value at each node.
use ced.Base.{ℕ, ◌≡◌, refl, arith, map}
use mathlib.Core.Option
use mathlib.Core.List.{map-append}
use ced.Avl.Set.{KeyTree, leaf, node}
use ced.Avl.Set
use ced.Avl.Tree
use ced.Avl.Tree.{Tree}

unfoldable pub lift : KeyTree → Tree (Unit {0})
lift leaf = Tree.leaf
lift (node k l r h) = Tree.node k tt (lift l) (lift r) h

height-lift : (t : KeyTree) → Tree.height (lift t) ≡ Set.height t
unfolding lift Tree.height Set.height
height-lift leaf = refl
height-lift (node k l r h) = refl

left-lift : (t : KeyTree) → Tree.left (lift t) ≡ lift (Set.left t)
unfolding lift
left-lift leaf = refl
left-lift (node k l r h) = refl

right-lift : (t : KeyTree) → Tree.right (lift t) ≡ lift (Set.right t)
unfolding lift
right-lift leaf = refl
right-lift (node k l r h) = refl

make_node-lift :
    (k : ℕ) (l r : KeyTree) → lift (Set.make_node k l r) ≡ Tree.make_node k tt (lift l) (lift r)
unfolding Set.make_node lift Tree.make_node
make_node-lift k l r = simp (height-lift)

rotate_left-lift :
    (k : ℕ) (l r : KeyTree) → lift (Set.rotate_left k l r) ≡ Tree.rotate_left k tt (lift l) (lift r)
unfolding lift Set.rotate_left Tree.rotate_left
rotate_left-lift k l leaf = make_node-lift k l leaf
rotate_left-lift k l (node rk rl rr rh) = simp make_node-lift

rotate_right-lift :
    (k : ℕ) (l r : KeyTree)
    → lift (Set.rotate_right k l r) ≡ Tree.rotate_right k tt (lift l) (lift r)
unfolding lift Set.rotate_right Tree.rotate_right
rotate_right-lift k leaf r = make_node-lift k leaf r
rotate_right-lift k (node lk ll lr lh) r = simp make_node-lift

rotate_left_right-lift :
    (k : ℕ) (l r : KeyTree)
    → lift (Set.rotate_left_right k l r) ≡ Tree.rotate_left_right k tt (lift l) (lift r)
unfolding lift Set.rotate_left_right Tree.rotate_left_right
rotate_left_right-lift k leaf r = make_node-lift k leaf r
rotate_left_right-lift k (node lk ll leaf lh) r = make_node-lift k (node lk ll leaf lh) r
rotate_left_right-lift k (node lk ll (node mk ml mr mh) lh) r = simp make_node-lift

rotate_right_left-lift :
    (k : ℕ) (l r : KeyTree)
    → lift (Set.rotate_right_left k l r) ≡ Tree.rotate_right_left k tt (lift l) (lift r)
unfolding lift Set.rotate_right_left Tree.rotate_right_left
rotate_right_left-lift k l leaf = make_node-lift k l leaf
rotate_right_left-lift k l (node rk leaf rr rh) = make_node-lift k l (node rk leaf rr rh)
rotate_right_left-lift k l (node rk (node mk ml mr mh) rr rh) = simp make_node-lift

ruleset lifted = (height-lift, left-lift, right-lift)

rebalance-lift :
    (k : ℕ) (l r : KeyTree) → lift (Set.rebalance k l r) ≡ Tree.rebalance k tt (lift l) (lift r)
unfolding Set.rebalance Tree.rebalance
rebalance-lift k l r =
    rw (height-lift l, height-lift r, left-lift l, right-lift l, left-lift r, right-lift r)
      (rw
        (
          height-lift (Set.left l),
          height-lift (Set.right l),
          height-lift (Set.left r),
          height-lift (Set.right r),
        )
        (ground (
          arith,
          make_node-lift k l r,
          rotate_left-lift k l r,
          rotate_right-lift k l r,
          rotate_left_right-lift k l r,
          rotate_right_left-lift k l r,
        )))

-- AddKey of AVL<K, void> is AddKey of AVL<K, V> on the lifted tree.
pub add_key-lift : (t : KeyTree) (k : ℕ) → lift (Set.add_key t k) ≡ Tree.add_key (lift t) k tt
unfolding lift Set.add_key Tree.add_key
add_key-lift leaf k = make_node-lift k leaf leaf
add_key-lift (node j l r h) k = ground (
  arith,
  rebalance-lift j l (Set.add_key r k),
  rebalance-lift j (Set.add_key l k) r,
  make_node-lift k l r,
  add_key-lift l k,
  add_key-lift r k,
)

head-lift : (k : ℕ) (t : KeyTree) → Tree.in_order_head k tt (lift t) ≡ (Set.in_order_head k t, tt)
unfolding lift Set.in_order_head Tree.in_order_head
head-lift k leaf = refl
head-lift k (node lk ll lr lh) = head-lift lk ll

tail-lift : (k : ℕ) (t : KeyTree) → Tree.in_order_tail k tt (lift t) ≡ (Set.in_order_tail k t, tt)
unfolding lift Set.in_order_tail Tree.in_order_tail
tail-lift k leaf = refl
tail-lift k (node rk rl rr rh) = tail-lift rk rr

remove_found-lift :
    (l r : KeyTree)
    → ((j : ℕ) → lift (Set.remove_key l j) ≡ Tree.remove_key (lift l) j)
    → ((j : ℕ) → lift (Set.remove_key r j) ≡ Tree.remove_key (lift r) j)
    → lift (Set.remove_found l r (Set.remove_key l) (Set.remove_key r))
      ≡ Tree.remove_found (lift l) (lift r) (Tree.remove_key (lift l)) (Tree.remove_key (lift r))
unfolding lift Set.remove_found Tree.remove_found
remove_found-lift leaf r hl hr = refl
remove_found-lift (node lk ll lr lh) leaf hl hr = refl
remove_found-lift (node lk ll lr lh) (node rk rl rr rh) hl hr =
    let x = Set.in_order_head rk rl in
    let y = Set.in_order_tail lk lr in
    rw (head-lift rk rl, tail-lift lk lr, ← hr x, ← hl y)
      (ground (
        arith,
        rebalance-lift x (node lk ll lr lh) (Set.remove_key (node rk rl rr rh) x),
        rebalance-lift y (Set.remove_key (node lk ll lr lh) y) (node rk rl rr rh),
      ))

-- RemoveKey of AVL<K, void> is RemoveKey of AVL<K, V> on the lifted tree.
pub remove_key-lift : (t : KeyTree) (k : ℕ) → lift (Set.remove_key t k) ≡ Tree.remove_key (lift t) k
unfolding lift Set.remove_key Tree.remove_key
remove_key-lift leaf k = refl
remove_key-lift (node j l r h) k = ground (
  arith,
  rebalance-lift j l (Set.remove_key r k),
  rebalance-lift j (Set.remove_key l k) r,
  remove_key-lift l k,
  remove_key-lift r k,
  remove_found-lift l r (remove_key-lift l) (remove_key-lift r),
)

pub get-lift : (t : KeyTree) (k : ℕ) → Tree.get (lift t) k ≡ Option.map (λ j. (j, tt)) (Set.get t k)
unfolding lift Set.get Tree.get
get-lift leaf k = refl
get-lift (node j l r h) k = ground (arith, get-lift l k, get-lift r k)

pub for_each-lift : (t : KeyTree) → Tree.for_each (lift t) ≡ map (λ k. (k, tt)) (Set.for_each t)
unfolding lift Set.for_each Tree.for_each
for_each-lift leaf = refl
for_each-lift (node k l r h) = simp (for_each-lift l, for_each-lift r, map-append)
