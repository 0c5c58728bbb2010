-- ===== src/OrderedArray/Tests.antt =====
-- The operations and their theorems at an array of three entries.
use mathlib.Core.List.{Perm}
use panda_os.Base.{◌+◌, ◌≡◌, refl, some, [], ◌∷◌, arith, ok, panic}
use panda_os.Base.Memory.{Memory, load8, load32, store8, store32}
use panda_os.OrderedArray.{
  OrderedArray, entry, standard_lessthan_predicate, insert_ordered_array, lookup_ordered_array,
  remove_ordered_array,
}
use panda_os.OrderedArray.Entries.{contents}
use panda_os.OrderedArray.Insert.{insert_in_order, insert_ordered_array-contents}
use panda_os.OrderedArray.Remove.{remove_at, remove_ordered_array-contents}
use panda_os.OrderedArray.Sorted.{
  InOrder, insert_ordered_array-InOrder, standard_lessthan_predicate-IsStrict,
}

abbrev memory : Memory
memory = store32 0x108 90 (store32 0x104 70 (store32 0x100 20 (λ a. 0)))

abbrev three : OrderedArray
three = record {
  array = 0x100;
  size = 3;
  max_size = 8;
  less_than = some standard_lessthan_predicate;
}

lookup_out_of_range : lookup_ordered_array 3 three memory ≡ panic
unfolding lookup_ordered_array
lookup_out_of_range = refl

insert_ordered_array-contents_example :
    (a' : OrderedArray) × (m' : Memory) × (insert_ordered_array 50 three memory ≡ ok (a', m'))
    × (a'.size ≡ 4)
    × (contents a' m' ≡ 20 ∷ 50 ∷ 70 ∷ 90 ∷ [])
unfolding entry load32 load8 store32 store8 standard_lessthan_predicate insert_in_order
insert_ordered_array-contents_example =
    insert_ordered_array-contents standard_lessthan_predicate 50 three memory refl (omega arith)
      (omega arith)

in_order : InOrder (standard_lessthan_predicate memory) (contents three memory)
unfolding entry load32 load8 store32 store8 standard_lessthan_predicate
in_order = ((refl, (refl, tt)), ((refl, tt), (tt, tt)))

insert_ordered_array-InOrder_example :
    (a' : OrderedArray) × (m' : Memory) × (insert_ordered_array 50 three memory ≡ ok (a', m'))
    × InOrder (standard_lessthan_predicate memory) (contents a' m')
    × Perm (contents a' m') (50 ∷ contents three memory)
insert_ordered_array-InOrder_example =
    insert_ordered_array-InOrder standard_lessthan_predicate 50 three memory refl (omega arith)
      (omega arith) (standard_lessthan_predicate-IsStrict memory) in_order

remove_ordered_array-contents_example :
    let (a', m') = remove_ordered_array 1 three memory in
    (a'.size + 1 ≡ 3) × (contents a' m' ≡ 20 ∷ 90 ∷ [])
unfolding entry load32 load8 store32 store8 remove_at
remove_ordered_array-contents_example =
    remove_ordered_array-contents 1 three memory (omega arith) (omega arith)
