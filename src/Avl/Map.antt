-- ===== src/Avl/Map.antt =====
-- avl.h, the public class AVL<K, V>: a root that only the private operations build, here with its
-- validity. Clients use the laws of its operations, and never the tree.
use ced.Base.{
  ℕ, suc, ◌+◌, ◌≤◌, ◌≡◌, refl, sym, ap, ◌∙◌, Bool, true, false, Option, none, some, List, ◌==◌,
  if◌then◌else◌,
}
use mathlib.Core.Option
use ced.Avl.Tree.{Tree, leaf, node, height, for_each, get, add_key, remove_key}
use ced.Avl.Assoc.{
  IsSorted, find, insert, erase, insert-IsSorted, erase-IsSorted, find-insert, find-erase,
}
use ced.Avl.Entries.{for_each-add_key, for_each-remove_key, get-find}
use ced.Avl.Balance.{IsBalanced, add_key-IsBalanced, remove_key-IsBalanced, size, fib, fib-le-size}

abbrev pub IsValid {ℓ} : {V : Type ℓ} → Tree V → Type 0
IsValid t = IsSorted (for_each t) × IsBalanced t

module _ {ℓ} {V : Type ℓ} where
  -- AddKey keeps a valid tree valid: sorted, with right cached heights, and balanced.
  pub add_key-IsValid : (t : Tree V) (k : ℕ) (v : V) → IsValid t → IsValid (add_key t k v)
  add_key-IsValid t k v b = (
    rw (for_each-add_key t k v b.0) (insert-IsSorted k v (for_each t) b.0),
    (add_key-IsBalanced t k v b.1).0,
  )

  -- RemoveKey keeps a valid tree valid.
  pub remove_key-IsValid : (t : Tree V) (k : ℕ) → IsValid t → IsValid (remove_key t k)
  remove_key-IsValid t k b = (
    rw (for_each-remove_key t k b.0) (erase-IsSorted k (for_each t) b.0),
    (remove_key-IsBalanced t k b.1).0,
  )

pub leaf-IsValid {ℓ} : (V : Type ℓ) → IsValid {V = V} leaf
unfolding for_each
leaf-IsValid V = (tt, tt)

pub record Avl {ℓ} (V : Type ℓ) : Type ℓ where
  pub root : Tree V
  pub valid : IsValid root

unfoldable pub empty {ℓ} : {V : Type ℓ} → Avl V
empty {V} = record { root = leaf; valid = leaf-IsValid V }

module _ {ℓ} {V : Type ℓ} where
  unfoldable pub add : Avl V → ℕ → V → Avl V
  add m k v = record { root = add_key m.root k v; valid = add_key-IsValid m.root k v m.valid }

  unfoldable pub remove : Avl V → ℕ → Avl V
  remove m k = record { root = remove_key m.root k; valid = remove_key-IsValid m.root k m.valid }

  -- `n ? &n->kv.second : nullptr`
  unfoldable pub lookup : Avl V → ℕ → Option V
  lookup m k = Option.map (λ n. n.1) (get m.root k)

  unfoldable pub is_empty : Avl V → Bool
  is_empty m = elim m.root [ leaf ↦ true | node _ _ _ _ _ ↦ false ]

  -- What ForEach calls its argument with, in this order.
  unfoldable pub to_list : Avl V → List (ℕ × V)
  to_list m = for_each m.root

  -- What Lookup reads is what ForEach visits.
  pub lookup-find : (m : Avl V) (k : ℕ) → lookup m k ≡ find k (to_list m)
  unfolding lookup to_list
  lookup-find m k = get-find m.root k m.valid.0

  -- The map is the sorted association list that ForEach visits: Add inserts into it.
  pub to_list-add : (m : Avl V) (k : ℕ) (v : V) → to_list (add m k v) ≡ insert k v (to_list m)
  unfolding to_list add
  to_list-add m k v = for_each-add_key m.root k v m.valid.0

  -- ForEach after Remove visits the sorted association list from which the key is erased.
  pub to_list-remove : (m : Avl V) (k : ℕ) → to_list (remove m k) ≡ erase k (to_list m)
  unfolding to_list remove
  to_list-remove m k = for_each-remove_key m.root k m.valid.0

  pub to_list-IsSorted : (m : Avl V) → IsSorted (to_list m)
  unfolding to_list
  to_list-IsSorted m = m.valid.0

  pub lookup-empty : (k : ℕ) → lookup (empty {V = V}) k ≡ none
  unfolding lookup empty get
  lookup-empty k = refl

  -- What is read after Add: the new value at the key, and what was there elsewhere.
  pub lookup-add :
      (m : Avl V) (k : ℕ) (v : V) (j : ℕ)
      → lookup (add m k v) j ≡ (if k == j then some v else lookup m j)
  lookup-add m k v j =
      lookup-find (add m k v) j
      ∙ ap (find j) (to_list-add m k v)
      ∙ find-insert k j v (to_list m)
      ∙ ap (λ o. if k == j then some v else o) (sym (lookup-find m j))

  -- What is read after Remove: nothing at the key, and what was there elsewhere.
  pub lookup-remove :
      (m : Avl V) (k j : ℕ) → lookup (remove m k) j ≡ (if k == j then none else lookup m j)
  lookup-remove m k j =
      lookup-find (remove m k) j
      ∙ ap (find j) (to_list-remove m k)
      ∙ find-erase k j (to_list m) (to_list-IsSorted m)
      ∙ ap (λ o. if k == j then none else o) (sym (lookup-find m j))

  -- The height is logarithmic: fib (height + 2) is at most one more than the number of nodes.
  pub height_bound : (m : Avl V) → fib (suc (suc (height m.root))) ≤ size m.root + 1
  height_bound m = fib-le-size m.root m.valid.1
