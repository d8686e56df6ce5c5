-- ===== src/Avl/Set/Keys.antt =====
-- avl.h, the public class AVL<K, void>. Its laws are those of AVL<K, V>, through the lifted tree.
use ced.Base.{
  ℕ, ◌≡◌, refl, ap, ◌∙◌, Bool, true, false, Option, none, some, List, ◌==◌, if◌then◌else◌, arith,
}
use mathlib.Core.Option
use ced.Avl.Set.{KeyTree, leaf, for_each, get, add_key, remove_key}
use ced.Avl.Set.Lift.{lift, add_key-lift, remove_key-lift, get-lift}
use ced.Avl.Map.{Avl, IsValid, leaf-IsValid, add_key-IsValid, remove_key-IsValid}
use ced.Avl.Map

pub record KeySet : Type 0 where
  pub root : KeyTree
  pub valid : IsValid (lift root)

empty-IsValid : IsValid (lift leaf)
unfolding lift
empty-IsValid = leaf-IsValid (Unit {0})

add-IsValid : (m : KeySet) (k : ℕ) → IsValid (lift (add_key m.root k))
add-IsValid m k = rw (add_key-lift m.root k) (add_key-IsValid (lift m.root) k tt m.valid)

remove-IsValid : (m : KeySet) (k : ℕ) → IsValid (lift (remove_key m.root k))
remove-IsValid m k = rw (remove_key-lift m.root k) (remove_key-IsValid (lift m.root) k m.valid)

unfoldable pub empty : KeySet
unfolding empty-IsValid
empty = record { root = leaf; valid = empty-IsValid }

unfoldable pub add : KeySet → ℕ → KeySet
unfolding add-IsValid
add m k = record { root = add_key m.root k; valid = add-IsValid m k }

unfoldable pub remove : KeySet → ℕ → KeySet
unfolding remove-IsValid
remove m k = record { root = remove_key m.root k; valid = remove-IsValid m k }

-- `Get(root_, key) != nullptr`
unfoldable pub lookup : KeySet → ℕ → Bool
lookup m k = elim (get m.root k) [ none ↦ false | some _ ↦ true ]

unfoldable pub to_list : KeySet → List ℕ
to_list m = for_each m.root

abbrev present {ℓ} : {A : Type ℓ} → Option A → Bool
present none = false
present (some _) = true

abbrev lifted : KeySet → Avl (Unit {0})
lifted m = record { root = lift m.root; valid = m.valid }

lookup-lifted : (m : KeySet) (k : ℕ) → lookup m k ≡ present (Map.lookup (lifted m) k)
unfolding lookup Map.lookup
lookup-lifted m k = rw (get-lift m.root k) (cases (get m.root k))
  where
    cases :
        (o : Option ℕ)
        → (elim o [ none ↦ false | some _ ↦ true ])
          ≡ present (Option.map (λ (n : ℕ × Unit {0}). n.1) (Option.map (λ j. (j, tt)) o))
    cases none = refl
    cases (some a) = refl

pub lookup-empty : (k : ℕ) → lookup empty k ≡ false
unfolding lookup empty get
lookup-empty k = refl

-- The set holds a key after Add exactly if it is the one added or was there before.
pub lookup-add : (m : KeySet) (k j : ℕ) → lookup (add m k) j ≡ (if k == j then true else lookup m j)
lookup-add m k j =
    lookup-lifted (add m k) j
    ∙ lifted_add
    ∙ ap present (Map.lookup-add (lifted m) k tt j)
    ∙ ground (arith, lookup-lifted m j)
  where
    lifted_add :
        present (Map.lookup (lifted (add m k)) j) ≡ present (Map.lookup (Map.add (lifted m) k tt) j)
    lifted_add = unfold Map.lookup Map.add add in rw (add_key-lift m.root k)

-- The set holds a key after Remove exactly if it is not the one removed and was there before.
pub lookup-remove :
    (m : KeySet) (k j : ℕ) → lookup (remove m k) j ≡ (if k == j then false else lookup m j)
lookup-remove m k j =
    lookup-lifted (remove m k) j
    ∙ lifted_remove
    ∙ ap present (Map.lookup-remove (lifted m) k j)
    ∙ ground (arith, lookup-lifted m j)
  where
    lifted_remove :
        present (Map.lookup (lifted (remove m k)) j)
        ≡ present (Map.lookup (Map.remove (lifted m) k) j)
    lifted_remove = unfold Map.lookup Map.remove remove in rw (remove_key-lift m.root k)
