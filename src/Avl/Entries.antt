-- ===== src/Avl/Entries.antt =====
-- avl.h through the list of pairs that ForEach visits: each operation against the association
-- lists of Avl/Assoc.antt.
use ced.Base.{
  ℕ, ◌<◌, ◌≡◌, refl, sym, ap, ◌∙◌, compare, lt, eq, gt, Option, none, some, List, [], ◌∷◌, ◌++◌,
  arith, append_assoc, append-nil, ltb, ==_refl, subst, Bool-cases, ◌⊎◌, inl, inr,
}
use mathlib.Core.Option
use ced.Avl.Tree.{
  Tree, leaf, node, make_node, for_each, get, get_below, rebalance, rotate_left, rotate_right,
  rotate_left_right, rotate_right_left, add_key, remove_key, remove_found, in_order_head,
  in_order_tail,
}
use ced.Avl.Assoc.{
  IsSorted, IsSorted-split, find, find_below, insert, erase, insert-left, insert-mid, insert-right,
  erase-left, erase-mid, erase-right, find-left, find-mid, find-right, find_below-left,
  find_below-mid, find_below-right,
}

-- A comparison together with what it says.
Order-cases :
    (a b : ℕ)
    → ((compare a b ≡ lt) × (a < b))
      ⊎ ((compare a b ≡ eq) × (a ≡ b))
      ⊎ ((compare a b ≡ gt) × (b < a))
Order-cases a b = ground arith

module _ {ℓ} {V : Type ℓ} where
  abbrev around : Tree V → ℕ → V → Tree V → List (ℕ × V)
  around l k v r = for_each l ++ (k, v) ∷ for_each r

  -- A rotation leaves the pairs in their order.
  for_each-rotate_left :
      (k : ℕ) (v : V) (l r : Tree V) → for_each (rotate_left k v l r) ≡ around l k v r
  unfolding for_each rotate_left make_node
  for_each-rotate_left k v l leaf = refl
  for_each-rotate_left k v l (node rk rv rl rr rh) = simp append_assoc

  for_each-rotate_right :
      (k : ℕ) (v : V) (l r : Tree V) → for_each (rotate_right k v l r) ≡ around l k v r
  unfolding for_each rotate_right make_node
  for_each-rotate_right k v leaf r = refl
  for_each-rotate_right k v (node lk lv ll lr lh) r = simp append_assoc

  for_each-rotate_left_right :
      (k : ℕ) (v : V) (l r : Tree V) → for_each (rotate_left_right k v l r) ≡ around l k v r
  unfolding for_each rotate_left_right make_node
  for_each-rotate_left_right k v leaf r = refl
  for_each-rotate_left_right k v (node lk lv ll leaf lh) r = refl
  for_each-rotate_left_right k v (node lk lv ll (node mk mv ml mr mh) lh) r = simp append_assoc

  for_each-rotate_right_left :
      (k : ℕ) (v : V) (l r : Tree V) → for_each (rotate_right_left k v l r) ≡ around l k v r
  unfolding for_each rotate_right_left make_node
  for_each-rotate_right_left k v l leaf = refl
  for_each-rotate_right_left k v l (node rk rv leaf rr rh) = refl
  for_each-rotate_right_left k v l (node rk rv (node mk mv ml mr mh) rr rh) = simp append_assoc

  -- Rebalancing leaves the pairs in their order, on each of its five paths.
  pub for_each-rebalance :
      (k : ℕ) (v : V) (l r : Tree V) → for_each (rebalance k v l r) ≡ around l k v r
  unfolding rebalance
  for_each-rebalance k v l r =
      unfold make_node for_each in
      ground (
        arith,
        for_each-rotate_left k v l r,
        for_each-rotate_right k v l r,
        for_each-rotate_left_right k v l r,
        for_each-rotate_right_left k v l r,
      )

  -- AddKey is insertion into the sorted list.
  pub for_each-add_key :
      (t : Tree V) (k : ℕ) (v : V)
      → IsSorted (for_each t)
      → for_each (add_key t k v) ≡ insert k v (for_each t)
  unfolding for_each insert add_key make_node
  for_each-add_key leaf k v s = refl
  for_each-add_key (node j w l r h) k v s =
      let (sl, below, above, sr) = IsSorted-split (for_each l) j w (for_each r) s in
      elim (Order-cases j k) [
        | inl (e, p) ↦ ground (
          arith,
          for_each-rebalance j w l (add_key r k v),
          for_each-add_key r k v sr,
          insert-right k j w (for_each r) v (for_each l) below p,
        )
        | inr (inl (e, p)) ↦ ground (arith, insert-mid k j w (for_each r) v (for_each l) below p)
        | inr (inr (e, p)) ↦ ground (
          arith,
          for_each-rebalance j w (add_key l k v) r,
          for_each-add_key l k v sl,
          insert-left k j w (for_each r) v (for_each l) p,
        )
      ]

  -- The head of a tree is its first pair.
  head_first :
      (k : ℕ) (v : V) (l r : Tree V)
      → (m : List (ℕ × V)) × (around l k v r ≡ in_order_head k v l ∷ m)
  unfolding for_each in_order_head
  head_first k v leaf r = (for_each r, refl)
  head_first k v (node lk lv ll lr lh) r =
      let (m, e) = head_first lk lv ll lr in (m ++ (k, v) ∷ for_each r, rw e)

  tail_last :
      (k : ℕ) (v : V) (l r : Tree V)
      → (m : List (ℕ × V)) × (around l k v r ≡ m ++ in_order_tail k v r ∷ [])
  unfolding for_each in_order_tail
  tail_last k v l leaf = (for_each l, refl)
  tail_last k v l (node rk rv rl rr rh) =
      let (m, e) = tail_last rk rv rl rr in (for_each l ++ (k, v) ∷ m, rw e (simp append_assoc))

  erase_first : (n : ℕ × V) (m xs : List (ℕ × V)) → xs ≡ n ∷ m → erase n.0 xs ≡ m
  unfolding erase
  erase_first n m xs e = rw e (rw (==_refl n.0))

  erase_last : (n : ℕ × V) (m xs : List (ℕ × V)) → xs ≡ m ++ n ∷ [] → IsSorted xs → erase n.0 xs ≡ m
  erase_last n m xs e s =
      let (_, below, _, _) = IsSorted-split m n.0 n.1 [] (subst IsSorted e s) in
      ap (erase n.0) e ∙ erase-mid n.0 n.0 n.1 [] m below refl ∙ append-nil m

  -- Where both children are there, the pair that replaces the removed one is its neighbour.
  for_each-remove_found :
      (k : ℕ) (v : V) (l r : Tree V)
      → IsSorted (for_each l)
      → IsSorted (for_each r)
      → ((j : ℕ) → for_each (remove_key l j) ≡ erase j (for_each l))
      → ((j : ℕ) → for_each (remove_key r j) ≡ erase j (for_each r))
      → for_each (remove_found l r (remove_key l) (remove_key r)) ≡ for_each l ++ for_each r
  unfolding for_each remove_found
  for_each-remove_found k v leaf r sl sr hl hr = refl
  for_each-remove_found k v (node lk lv ll lr lh) leaf sl sr hl hr = simp append-nil
  for_each-remove_found k v (node lk lv ll lr lh) (node rk rv rl rr rh) sl sr hl hr =
      let h = in_order_head rk rv rl in
      let t = in_order_tail lk lv lr in
      let (m, first) = head_first rk rv rl rr in
      let (n, last) = tail_last lk lv ll lr in
      elim (Bool-cases (ltb lh rh)) [
        | inl shorter ↦ rw shorter (
            for_each-rebalance h.0 h.1 (node lk lv ll lr lh) (remove_key (node rk rv rl rr rh) h.0)
            ∙ ap (λ x. around ll lk lv lr ++ h ∷ x) (hr h.0 ∙ erase_first h m _ first)
            ∙ ap (◌++◌ (around ll lk lv lr)) (sym first))
        | inr taller ↦ rw taller (
            for_each-rebalance t.0 t.1 (remove_key (node lk lv ll lr lh) t.0) (node rk rv rl rr rh)
            ∙ ap (λ x. x ++ t ∷ around rl rk rv rr) (hl t.0 ∙ erase_last t n _ last sl)
            ∙ sym (append_assoc n (t ∷ []) (around rl rk rv rr))
            ∙ ap (λ x. x ++ around rl rk rv rr) (sym last))
      ]

  -- RemoveKey erases the key from the list.
  pub for_each-remove_key :
      (t : Tree V) (k : ℕ)
      → IsSorted (for_each t)
      → for_each (remove_key t k) ≡ erase k (for_each t)
  unfolding for_each erase remove_key
  for_each-remove_key leaf k s = refl
  for_each-remove_key (node j w l r h) k s =
      let (sl, below, above, sr) = IsSorted-split (for_each l) j w (for_each r) s in
      elim (Order-cases k j) [
        | inl (e, p) ↦ ground (
          arith,
          for_each-rebalance j w (remove_key l k) r,
          for_each-remove_key l k sl,
          erase-left k j w (for_each r) (for_each l) p above,
        )
        | inr (inl (e, p)) ↦ ground (
          arith,
          for_each-remove_found j w l r sl sr (λ i. for_each-remove_key l i sl)
              (λ i. for_each-remove_key r i sr),
          erase-mid k j w (for_each r) (for_each l) below (sym p),
        )
        | inr (inr (e, p)) ↦ ground (
          arith,
          for_each-rebalance j w l (remove_key r k),
          for_each-remove_key r k sr,
          erase-right k j w (for_each r) (for_each l) below p,
        )
      ]

  -- Get finds the pair of the key.
  pub get-find :
      (t : Tree V) (k : ℕ)
      → IsSorted (for_each t)
      → Option.map (λ n. n.1) (get t k) ≡ find k (for_each t)
  unfolding for_each get find
  get-find leaf k s = refl
  get-find (node j w l r h) k s =
      let (sl, below, above, sr) = IsSorted-split (for_each l) j w (for_each r) s in
      elim (Order-cases j k) [
        | inl (e, p) ↦
            ground (arith, get-find r k sr, find-right k j w (for_each r) (for_each l) below p)
        | inr (inl (e, p)) ↦ ground (arith, find-mid k j w (for_each r) (for_each l) below p)
        | inr (inr (e, p)) ↦
            ground (arith, get-find l k sl, find-left k j w (for_each r) (for_each l) p above)
      ]

  -- GetBelow finds the last pair whose key is not above the given one.
  pub get_below-find_below :
      (t : Tree V) (k : ℕ) (best : Option (ℕ × V))
      → IsSorted (for_each t)
      → find_below best k (for_each t) ≡ elim (get_below t k) [ none ↦ best | some n ↦ some n ]
  unfolding for_each get_below find_below
  get_below-find_below leaf k best s = refl
  get_below-find_below (node j w l r h) k best s =
      let (sl, below, above, sr) = IsSorted-split (for_each l) j w (for_each r) s in
      elim (Order-cases j k) [
        | inl (e, p) ↦ ground (
          arith,
          get_below-find_below r k (some (j, w)) sr,
          find_below-right k j w (for_each r) best (for_each l) below p,
        )
        | inr (inl (e, p)) ↦
            ground (arith, find_below-mid k j w (for_each r) best (for_each l) below p above)
        | inr (inr (e, p)) ↦ ground (
          arith,
          get_below-find_below l k best sl,
          find_below-left k j w (for_each r) best (for_each l) p,
        )
      ]
