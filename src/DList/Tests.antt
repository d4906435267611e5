-- ===== src/DList/Tests.antt =====
-- Runs of list.c on a list of three nodes.
use piggy_os.Base.{List, ℕ, ◌≡◌, ◌≢◌, refl, [], ◌∷◌, ◌++◌, arith, ◌==◌, if◌then◌else◌, some}
use piggy_os.DList.{
  Node, DList, Memory, blank_node, list_insert_front, list_insert_back, list_remove_front,
  list_remove_back, list_remove_node,
}
use piggy_os.DList.Linked.{IsList, values}
use piggy_os.DList.Insert.{list_insert_front-IsList, list_insert_back-IsList}
use piggy_os.DList.Remove.{
  Without, list_remove_front-Without, list_remove_back-Without, list_remove_back-dangling,
}
use piggy_os.DList.Unlink.{list_remove_node-Without}
use piggy_os.DList.Search.{
  list_contain, list_get_node_by_index, first_with, element, list_contain-first,
  list_get_node_by_index-element,
}
use piggy_os.DList.Whole.{
  list_destroy, list_merge, rev_append, list_destroy-freed, list_merge-IsList,
}

-- The nodes 16, 32 and 48 with the values 1, 2 and 3, and a list of one at 64.
abbrev cells : ℕ → Node
cells p =
    if p == 16
    then record { prev = 0; next = 32; value = 1 }
    else if p == 32
    then record { prev = 16; next = 48; value = 2 }
    else if p == 48
    then record { prev = 32; next = 0; value = 3 }
    else if p == 64
    then record { prev = 0; next = 0; value = 4 }
    else blank_node

abbrev memory : Memory
memory = record { nodes = cells; freed = [] }

abbrev three : DList
three = record { head = 16; tail = 48; size = 3 }

abbrev one : DList
one = record { head = 64; tail = 64; size = 1 }

three-IsList : IsList memory three (16 ∷ 32 ∷ 48 ∷ [])
three-IsList = record {
  shape = (
    refl,
    omega arith,
    refl,
    (omega arith, (omega arith, tt)),
    (refl, omega arith, refl, (omega arith, tt), (refl, omega arith, refl, refl, refl)),
  );
  count = refl;
  few = omega arith;
}

one-IsList : IsList memory one (64 ∷ [])
one-IsList = record {
  shape = (refl, omega arith, refl, refl, refl);
  count = refl;
  few = omega arith;
}

list_insert_front-IsList_run :
    let (l', m') = list_insert_front 80 9 three memory in
    IsList m' l' (80 ∷ 16 ∷ 32 ∷ 48 ∷ [])
    × (values m'.nodes (80 ∷ 16 ∷ 32 ∷ 48 ∷ []) ≡ 9 ∷ values cells (16 ∷ 32 ∷ 48 ∷ []))
list_insert_front-IsList_run =
    list_insert_front-IsList 80 9 three memory (16 ∷ 32 ∷ 48 ∷ []) three-IsList (omega arith)
      (omega arith, (omega arith, (omega arith, tt))) (omega arith)

list_insert_back-IsList_run :
    let (l', m') = list_insert_back 80 9 three memory in
    IsList m' l' (16 ∷ 32 ∷ 48 ∷ 80 ∷ [])
    × (values m'.nodes (16 ∷ 32 ∷ 48 ∷ 80 ∷ []) ≡ values cells (16 ∷ 32 ∷ 48 ∷ []) ++ (9 ∷ []))
list_insert_back-IsList_run =
    list_insert_back-IsList 80 9 three memory (16 ∷ 32 ∷ 48 ∷ []) three-IsList (omega arith)
      (omega arith, (omega arith, (omega arith, tt))) (omega arith) (λ e. absurd (omega arith))

list_remove_front-Without_run :
    let (v, l', m') = list_remove_front three memory in Without memory 16 (32 ∷ 48 ∷ []) v l' m'
list_remove_front-Without_run =
    list_remove_front-Without three memory 16 (32 ∷ 48 ∷ []) three-IsList

list_remove_back-Without_run :
    let (v, l', m') = list_remove_back three memory in Without memory 48 (16 ∷ 32 ∷ []) v l' m'
list_remove_back-Without_run = list_remove_back-Without three memory 16 32 (48 ∷ []) three-IsList

list_remove_back-dangling_run :
    let (v, l', m') = list_remove_back one memory in
    (l'.head ≡ 64) × (l'.head ≢ 0) × (l'.size ≡ 0) × (m'.freed ≡ 64 ∷ []) × ¬ (IsList m' l' [])
list_remove_back-dangling_run = list_remove_back-dangling one memory 64 one-IsList

list_remove_node-Without_example :
    let (v, l', m') = list_remove_node 32 three memory in Without memory 32 (16 ∷ 48 ∷ []) v l' m'
list_remove_node-Without_example = list_remove_node-Without three memory 16 32 48 [] [] three-IsList

list_contain-first_run :
    list_contain 4 2 three memory ≡ some (first_with cells 2 (16 ∷ 32 ∷ 48 ∷ []))
list_contain-first_run =
    list_contain-first 4 2 three memory (16 ∷ 32 ∷ 48 ∷ []) three-IsList (omega arith)

list_get_node_by_index-element_run :
    list_get_node_by_index 4 2 three memory ≡ some (element 2 (16 ∷ 32 ∷ 48 ∷ []))
list_get_node_by_index-element_run =
    list_get_node_by_index-element 4 2 three memory (16 ∷ 32 ∷ 48 ∷ []) three-IsList (omega arith)

list_destroy-freed_run :
    list_destroy 4 96 three memory
    ≡ some (record memory { freed = 96 ∷ rev_append (16 ∷ 32 ∷ 48 ∷ []) [] })
list_destroy-freed_run =
    list_destroy-freed 4 96 three memory (16 ∷ 32 ∷ 48 ∷ []) three-IsList (omega arith)

list_merge-IsList_run :
    let (l'', m') = list_merge three one 96 memory in
    let all : List ℕ = 16 ∷ 32 ∷ 48 ∷ 64 ∷ [] in
    IsList m' l'' all × (values m'.nodes all ≡ values cells all) × (m'.freed ≡ 96 ∷ [])
list_merge-IsList_run =
    list_merge-IsList three one 96 memory 16 64 (32 ∷ 48 ∷ []) [] three-IsList one-IsList
      ((omega arith, tt), ((omega arith, tt), ((omega arith, tt), tt))) (omega arith)
