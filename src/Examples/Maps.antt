-- ===== src/Examples/Maps.antt =====
-- The theorems on maps, sets and identifiers, at a map of three keys that one rotation has balanced.
use ced.Base.{ℕ, suc, ◌+◌, ◌≤◌, ◌≡◌, ◌==◌, if◌then◌else◌, none, some, All, arith}
use ced.Ids.{make_id, Site, generate_id_block, id_block}
use ced.Ids.Fresh.{IsSite, IsFrom, generate_id_block_fresh}
use ced.Avl.Tree
use ced.Avl.Tree.{Tree, height}
use ced.Avl.Assoc.{insert, erase}
use ced.Avl.Balance.{size, fib}
use ced.Avl.Map.{
  Avl, IsValid, empty, add, remove, lookup, to_list, lookup-add, lookup-remove, to_list-add,
  to_list-remove, add_key-IsValid, remove_key-IsValid, height_bound,
}
use ced.Avl.Set
use ced.Avl.Set.{KeyTree}
use ced.Avl.Set.Lift.{lift, add_key-lift, remove_key-lift}

abbrev three : Avl ℕ
three = add (add (add empty 10 1) 20 2) 30 3

lookup-add_example : lookup (add three 15 7) 15 ≡ (if 15 == 15 then some 7 else lookup three 15)
lookup-add_example = lookup-add three 15 7 15

lookup-remove_example : lookup (remove three 20) 30 ≡ (if 20 == 30 then none else lookup three 30)
lookup-remove_example = lookup-remove three 20 30

to_list-add_example : to_list (add three 15 7) ≡ insert 15 7 (to_list three)
to_list-add_example = to_list-add three 15 7

to_list-remove_example : to_list (remove three 20) ≡ erase 20 (to_list three)
to_list-remove_example = to_list-remove three 20

add_key-IsValid_example : IsValid (Tree.add_key three.root 40 4)
add_key-IsValid_example = add_key-IsValid three.root 40 4 three.valid

remove_key-IsValid_example : IsValid (Tree.remove_key three.root 10)
remove_key-IsValid_example = remove_key-IsValid three.root 10 three.valid

height_bound_example : fib (suc (suc (height three.root))) ≤ size three.root + 1
height_bound_example = height_bound three

abbrev keys : KeyTree
keys = Set.add_key (Set.add_key Set.leaf 10) 20

add_key-lift_example : lift (Set.add_key keys 30) ≡ Tree.add_key (lift keys) 30 tt
add_key-lift_example = add_key-lift keys 30

remove_key-lift_example : lift (Set.remove_key keys 10) ≡ Tree.remove_key (lift keys) 10
remove_key-lift_example = remove_key-lift keys 10

abbrev site : Site
site = record { id = 3; clock = 5 }

site-IsSite : IsSite site
site-IsSite = record { named = omega arith; short = omega arith; running = omega arith }

generate_id_block_fresh_example :
    let (first, last, t) = generate_id_block site 4 in
    All (IsFrom 3 5 t.clock) (id_block first 4) × (last ≡ make_id 3 8) × IsSite t
generate_id_block_fresh_example =
    generate_id_block_fresh site 4 site-IsSite (omega arith) (omega arith)
