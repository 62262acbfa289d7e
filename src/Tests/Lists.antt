-- ===== src/Tests/Lists.antt =====
-- The theorem on the linked nodes of src/linklist.c in a run of calls.
use ecmh.Prelude.{ℕ, ◌≡◌, refl, true, none, some, [], ◌∷◌, pos, ltb, arith}
use ecmh.LinkList.{
  LinkedList, list_new, listnode_add, list_delete_node, list_delete_all_node, list_loop2_delete,
}
use ecmh.LinkList.Heap.Loops.{
  heap_delete_all, Untouched, heap_delete_all_lem, heap_loop2, heap_loop2-Refines,
}
use ecmh.LinkList.Heap.{ListNode, Heap, heap_add, heap_delete}
use ecmh.LinkList.Heap.Laws.{Holds}
use ecmh.LinkList.Heap.Add.{heap_add-Holds}
use ecmh.LinkList.Heap.Refinement.{heap_new, new, add, delete, Refines, Calls-Refines}

abbrev memory : ℕ → ListNode ℕ
memory p = record { next = none; prev = none; val = 0 }

-- 7 is added at the address 1 and 8 at the address 2.
abbrev one : Heap ℕ
one = heap_add (heap_new memory) 7 (some 1)

abbrev two : Heap ℕ
two = heap_add one 8 (some 2)

empty-Holds : Holds (heap_new memory) []
empty-Holds = record { linked = tt; first = refl; last = refl; distinct = tt }

one-Holds : Holds one ((1, 7) ∷ [])
one-Holds = heap_add-Holds (heap_new memory) [] 1 7 empty-Holds tt

two-Holds : Holds two ((1, 7) ∷ ((2, 8) ∷ []))
two-Holds = heap_add-Holds one ((1, 7) ∷ []) 2 8 one-Holds (omega arith)

-- `free` leaves nodes that point to the address 9.
abbrev junk : ℕ → ListNode ℕ
junk p = record { next = some 9; prev = some 9; val = 0 }

-- The first node is deleted.
Calls-Refines_example :
    Refines
      (heap_delete junk two 1)
      (list_delete_node (listnode_add true (listnode_add true list_new 7) 8) 0)
Calls-Refines_example = Calls-Refines (
    delete junk two (listnode_add true (listnode_add true list_new 7) 8) [] 1 7 ((2, 8) ∷ [])
      (add one (listnode_add true list_new 7) 8 2 ((1, 7) ∷ [])
        (add (heap_new memory) list_new 7 1 [] (new memory) empty-Holds tt) one-Holds (omega arith))
      two-Holds)

heap_delete_all_lem_example :
    ((heap_delete_all 2 junk two).0 ≡ 7 ∷ (8 ∷ []))
    × Refines (heap_delete_all 2 junk two).1 (list_delete_all_node list_new)
    × Untouched ((1, 7) ∷ ((2, 8) ∷ [])) two.mem (heap_delete_all 2 junk two).1.mem
heap_delete_all_lem_example =
    heap_delete_all_lem 2 junk two ((1, 7) ∷ ((2, 8) ∷ [])) list_new two-Holds (omega arith)

abbrev two_values : LinkedList ℕ
two_values = record { items = 7 ∷ (8 ∷ []); count = pos 2 }

two-Refines : Refines two two_values
unfolding heap_add
two-Refines = record {
  nodes = (1, 7) ∷ ((2, 8) ∷ []);
  holds = two-Holds;
  same = refl;
  counted = refl;
}

-- The values below 8 are dead.
heap_loop2-Refines_example :
    Refines
      (heap_loop2 2 junk (λ x. ltb x 8) two two.head)
      (list_loop2_delete (λ x. ltb x 8) two_values)
unfolding two-Refines
heap_loop2-Refines_example =
    heap_loop2-Refines 2 junk (λ x. ltb x 8) two two_values two-Refines (omega arith)
