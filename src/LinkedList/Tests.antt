-- ===== src/LinkedList/Tests.antt =====
-- Runs of core/list.c on a list of two nodes, at the addresses 16 and 32.
use mosys.Common.{ℕ, ◌≡◌, ◌==◌, ◌++◌, if◌then◌else◌, refl, none, some, [], ◌∷◌, done, arith}
use mosys.LinkedList.{Node, Memory, list_insert_before, list_delete, list_cleanup}
use mosys.LinkedList.Chain.{Cells, Absent, IsList}
use mosys.LinkedList.Insert.{list_insert_before-IsList}
use mosys.LinkedList.Delete.{list_delete-IsList}
use mosys.LinkedList.Walk.{list_cleanup-IsList}

abbrev two_nodes : Memory
two_nodes a =
    if a == 16
    then some (record { node_data = 7; next = 32; prev = 0 })
    else if a == 32
    then some (record { node_data = 8; next = 0; prev = 16 })
    else none

abbrev cells : Cells
cells = (16, 7) ∷ (32, 8) ∷ []

abbrev garbage : Node
garbage = record { node_data = 1; next = 2; prev = 3 }

two_nodes-IsList : IsList two_nodes 16 cells
two_nodes-IsList = record {
  chain = (λ e. omega (arith, e), refl, (λ e. omega (arith, e), refl, tt));
  unique = ((λ e. omega (arith, e), tt), (tt, tt));
  starts = refl;
}

list_insert_before-IsList_example :
    (st' : Memory) × (list_insert_before 48 garbage two_nodes 32 9 ≡ done (48, st'))
    × IsList st' 16 ((16, 7) ∷ (48, 9) ∷ (32, 8) ∷ [])
list_insert_before-IsList_example =
    list_insert_before-IsList 48 garbage two_nodes 9 16 ((16, 7) ∷ []) 32 8 [] two_nodes-IsList
      (record {
        not_null = λ e. omega (arith, e);
        absent = (λ e. omega (arith, e), (λ e. omega (arith, e), tt));
      })

list_delete-IsList_example :
    (head' : ℕ) × (st' : Memory) × (list_delete two_nodes 16 16 ≡ done (head', st'))
    × IsList st' head' ((32, 8) ∷ [])
    × (st' 16 ≡ none)
list_delete-IsList_example = list_delete-IsList two_nodes 16 [] 16 7 ((32, 8) ∷ []) two_nodes-IsList

list_cleanup-IsList_example :
    (st' : Memory) × (list_cleanup 3 two_nodes 16 ≡ done (0, st'))
    × ((b : ℕ) → Absent b cells → st' b ≡ two_nodes b)
    × ((before behind : Cells) (a d : ℕ) → cells ≡ before ++ ((a, d) ∷ behind) → st' a ≡ none)
list_cleanup-IsList_example = list_cleanup-IsList two_nodes 16 cells two_nodes-IsList
