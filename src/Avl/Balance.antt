-- ===== src/Avl/Balance.antt =====
-- The balance of avl.h's trees: cached heights, the heights of two siblings, and the height against
-- the number of nodes.
use ced.Base.{
  ℕ, ◌-◌, zero, suc, ◌+◌, ◌≤◌, ◌≡◌, max, compare, lt, eq, gt, ltb, arith, ◌≢◌, ◌⊎◌, Ordering,
  Bool-cases, inl, inr,
}
use native.Mathlib.Nat.{add-zero, add-suc}
use ced.Avl.Tree.{
  Tree, leaf, node, height, left, right, make_node, rebalance, rotate_left, rotate_right,
  rotate_left_right, rotate_right_left, add_key, remove_key, remove_found, in_order_head,
  in_order_tail,
}

module _ {ℓ} {V : Type ℓ} where
  abbrev pub IsBalanced : Tree V → Type 0
  IsBalanced leaf = Unit
  IsBalanced (node k v l r h) =
      (h ≡ 1 + max (height l) (height r))
      × (height l ≤ height r + 1)
      × (height r ≤ height l + 1)
      × IsBalanced l
      × IsBalanced r

  -- Either subtree may have become one level too high or too low.
  abbrev Rebalanced : Tree V → Tree V → Tree V → Type 0
  Rebalanced l r t =
      IsBalanced t
      × (height t ≤ 1 + max (height l) (height r))
      × (max (height l) (height r) ≤ height t)
      × ((height l ≡ height r + 2)
          ⊎ (height r ≡ height l + 2)
          ⊎ (height t ≡ 1 + max (height l) (height r)))

  module _ (k : ℕ) (v : V) (l r : Tree V) (bl : IsBalanced l) (br : IsBalanced r) where
    make_node-Rebalanced :
        height l ≤ height r + 1 → height r ≤ height l + 1 → Rebalanced l r (make_node k v l r)
    unfolding make_node height
    make_node-Rebalanced p q = ground arith

  rotate_right-Rebalanced :
      (k : ℕ) (v : V) (l r : Tree V)
      → IsBalanced l
      → IsBalanced r
      → height l ≡ height r + 2
      → height (left l) + 1 ≢ height (right l)
      → Rebalanced l r (rotate_right k v l r)
  unfolding rotate_right make_node height
  rotate_right-Rebalanced k v leaf r bl br p q = absurd (omega arith)
  rotate_right-Rebalanced k v (node lk lv ll lr lh) r bl br p q = ground arith

  rotate_left-Rebalanced :
      (k : ℕ) (v : V) (l r : Tree V)
      → IsBalanced l
      → IsBalanced r
      → height l + 2 ≡ height r
      → height (left r) ≢ height (right r) + 1
      → Rebalanced l r (rotate_left k v l r)
  unfolding rotate_left make_node height
  rotate_left-Rebalanced k v l leaf bl br p q = absurd (omega arith)
  rotate_left-Rebalanced k v l (node rk rv rl rr rh) bl br p q = ground arith

  rotate_left_right-Rebalanced :
      (k : ℕ) (v : V) (l r : Tree V)
      → IsBalanced l
      → IsBalanced r
      → height l ≡ height r + 2
      → height (left l) + 1 ≡ height (right l)
      → Rebalanced l r (rotate_left_right k v l r)
  unfolding rotate_left_right make_node height
  rotate_left_right-Rebalanced k v leaf r bl br p q = absurd (omega arith)
  rotate_left_right-Rebalanced k v (node lk lv ll leaf lh) r bl br p q = absurd (omega arith)
  rotate_left_right-Rebalanced k v (node lk lv ll (node mk mv ml mr mh) lh) r bl br p q =
      ground arith

  rotate_right_left-Rebalanced :
      (k : ℕ) (v : V) (l r : Tree V)
      → IsBalanced l
      → IsBalanced r
      → height l + 2 ≡ height r
      → height (left r) ≡ height (right r) + 1
      → Rebalanced l r (rotate_right_left k v l r)
  unfolding rotate_right_left make_node height
  rotate_right_left-Rebalanced k v l leaf bl br p q = absurd (omega arith)
  rotate_right_left-Rebalanced k v l (node rk rv leaf rr rh) bl br p q = absurd (omega arith)
  rotate_right_left-Rebalanced k v l (node rk rv (node mk mv ml mr mh) rr rh) bl br p q =
      ground arith

  rebalance-Rebalanced :
      (k : ℕ) (v : V) (l r : Tree V)
      → IsBalanced l
      → IsBalanced r
      → height l ≤ height r + 2
      → height r ≤ height l + 2
      → Rebalanced l r (rebalance k v l r)
  unfolding rebalance
  rebalance-Rebalanced k v l r bl br p q = ground (
    arith,
    make_node-Rebalanced k v l r bl br,
    rotate_right-Rebalanced k v l r bl br,
    rotate_left-Rebalanced k v l r bl br,
    rotate_left_right-Rebalanced k v l r bl br,
    rotate_right_left-Rebalanced k v l r bl br,
  )

  -- The second tree is balanced, and as high as the first or one level higher.
  abbrev pub Grows : Tree V → Tree V → Type 0
  Grows t t' = IsBalanced t' × (height t ≤ height t') × (height t' ≤ height t + 1)

  abbrev pub Shrinks : Tree V → Tree V → Type 0
  Shrinks t t' = IsBalanced t' × (height t' ≤ height t) × (height t ≤ height t' + 1)

  module _ (k : ℕ) (v : V) (l r : Tree V) (h : ℕ) (b : IsBalanced (node k v l r h)) where
    grow_left : (t : Tree V) → Grows l t → Grows (node k v l r h) (rebalance k v t r)
    unfolding height
    grow_left t g =
        let q = rebalance-Rebalanced k v t r g.0 b.4 (omega arith) (omega arith) in
        (q.0, omega arith, omega arith)

    grow_right : (t : Tree V) → Grows r t → Grows (node k v l r h) (rebalance k v l t)
    unfolding height
    grow_right t g =
        let q = rebalance-Rebalanced k v l t b.3 g.0 (omega arith) (omega arith) in
        (q.0, omega arith, omega arith)

    grow_mid : (j : ℕ) (w : V) → Grows (node k v l r h) (make_node j w l r)
    unfolding height make_node
    grow_mid j w = (ground arith, omega arith, omega arith)

    shrink_left :
        (j : ℕ) (w : V) (t : Tree V) → Shrinks l t → Shrinks (node k v l r h) (rebalance j w t r)
    unfolding height
    shrink_left j w t g =
        let q = rebalance-Rebalanced j w t r g.0 b.4 (omega arith) (omega arith) in
        (q.0, omega arith, omega arith)

    shrink_right :
        (j : ℕ) (w : V) (t : Tree V) → Shrinks r t → Shrinks (node k v l r h) (rebalance j w l t)
    unfolding height
    shrink_right j w t g =
        let q = rebalance-Rebalanced j w l t b.3 g.0 (omega arith) (omega arith) in
        (q.0, omega arith, omega arith)

  -- AddKey keeps the tree balanced, and the height grows by at most one.
  pub add_key-IsBalanced : (t : Tree V) (k : ℕ) (v : V) → IsBalanced t → Grows t (add_key t k v)
  unfolding add_key make_node height
  add_key-IsBalanced leaf k v b = ground arith
  add_key-IsBalanced (node j w l r h) k v b =
      elim (compare j k) as (λ o. Grows (node j w l r h) (pick o)) [
        | lt ↦ grow_right j w l r h b _ (add_key-IsBalanced r k v b.4)
        | eq ↦ grow_mid j w l r h b k v
        | gt ↦ grow_left j w l r h b _ (add_key-IsBalanced l k v b.3)
      ]
    where
      pick : Ordering → Tree V
      pick = elim [
        | lt ↦ rebalance j w l (add_key r k v)
        | gt ↦ rebalance j w (add_key l k v) r
        | eq ↦ make_node k v l r
      ]

  remove_found-Shrinks :
      (k : ℕ) (v : V) (l r : Tree V) (h : ℕ)
      → IsBalanced (node k v l r h)
      → ((j : ℕ) → Shrinks l (remove_key l j))
      → ((j : ℕ) → Shrinks r (remove_key r j))
      → Shrinks (node k v l r h) (remove_found l r (remove_key l) (remove_key r))
  unfolding remove_found height
  remove_found-Shrinks k v leaf r h b sl sr = (b.4, omega arith, omega arith)
  remove_found-Shrinks k v (node lk lv ll lr lh) leaf h b sl sr = (b.3, omega arith, omega arith)
  remove_found-Shrinks k v (node lk lv ll lr lh) (node rk rv rl rr rh) h b sl sr =
      let x = in_order_head rk rv rl in
      let y = in_order_tail lk lv lr in
      elim (Bool-cases (ltb lh rh)) [
        | inl e ↦
            rw e
              (shrink_right k v (node lk lv ll lr lh) (node rk rv rl rr rh) h b x.0 x.1 _ (sr x.0))
        | inr e ↦
            rw e
              (shrink_left k v (node lk lv ll lr lh) (node rk rv rl rr rh) h b y.0 y.1 _ (sl y.0))
      ]

  -- RemoveKey keeps the tree balanced, and the height falls by at most one.
  pub remove_key-IsBalanced : (t : Tree V) (k : ℕ) → IsBalanced t → Shrinks t (remove_key t k)
  unfolding remove_key height
  remove_key-IsBalanced leaf k b = ground arith
  remove_key-IsBalanced (node j w l r h) k b =
      elim (compare k j) as (λ o. Shrinks (node j w l r h) (pick o)) [
        | lt ↦ shrink_left j w l r h b j w _ (remove_key-IsBalanced l k b.3)
        | eq ↦
            remove_found-Shrinks j w l r h b (λ i. remove_key-IsBalanced l i b.3)
              (λ i. remove_key-IsBalanced r i b.4)
        | gt ↦ shrink_right j w l r h b j w _ (remove_key-IsBalanced r k b.4)
      ]
    where
      pick : Ordering → Tree V
      pick = elim [
        | lt ↦ rebalance j w (remove_key l k) r
        | gt ↦ rebalance j w l (remove_key r k)
        | eq ↦ remove_found l r (remove_key l) (remove_key r)
      ]

  unfoldable pub size : Tree V → ℕ
  size leaf = 0
  size (node k v l r h) = size l + 1 + size r

abbrev pub fib : ℕ → ℕ
fib zero = 0
fib (suc zero) = 1
fib (suc (suc n)) = fib (suc n) + fib n

fib_step : (n : ℕ) → fib n ≤ fib (suc n)
fib_step zero = omega arith
fib_step (suc n) = omega arith

fib_mono : (k m : ℕ) → fib m ≤ fib (m + k)
fib_mono zero m = rw add-zero (omega arith)
fib_mono (suc k) m = rw add-suc (omega (arith, fib_mono k m, fib_step (m + k)))

pub fib_le : (m n : ℕ) → m ≤ n → fib m ≤ fib n
fib_le m n p = let e : m + (n - m) ≡ n = omega arith in rw e at (fib_mono (n - m) m)

fib-max :
    (a b : ℕ)
    → a ≤ b + 1
    → b ≤ a + 1
    → fib (suc (suc (suc (max a b)))) ≤ fib (suc (suc a)) + fib (suc (suc b))
fib-max a b p q = elim (Bool-cases (ltb a b)) [
  | inl less ↦
      let e : max a b ≡ b = ground arith in
      rw e (omega (arith, fib_le (suc b) (suc (suc a)) (ground arith)))
  | inr more ↦
      let e : max a b ≡ a = ground arith in
      rw e (omega (arith, fib_le (suc a) (suc (suc b)) (ground arith)))
]

-- A balanced tree of height h has at least fib (h + 2) - 1 nodes.
pub fib-le-size {ℓ} :
    {V : Type ℓ} (t : Tree V) → IsBalanced t → fib (suc (suc (height t))) ≤ size t + 1
unfolding size height
fib-le-size leaf b = omega arith
fib-le-size (node k v l r h) b =
    let e : h ≡ suc (max (height l) (height r)) = omega arith in
    rw e
      (omega (arith, fib-max (height l) (height r) b.1 b.2, fib-le-size l b.3, fib-le-size r b.4))
