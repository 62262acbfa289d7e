-- ===== src/LinkList/Heap/Loops.antt =====
-- `list_delete_all_node`, `list_delete` and the loop LIST_LOOP2 of src/linklist.c and
-- src/linklist.h on linked nodes. `free` leaves anything at the address of the node.
use ecmh.Prelude.{
  ℕ, zero, suc, ◌<◌, ◌≡◌, refl, sym, ap, ◌∙◌, inl, inr, Bool, Option, none, some, List, [], ◌∷◌,
  ◌++◌, length, pos, ℤ, decr, Bool-cases, arith, if◌then◌else◌,
}
use mathlib.Core.Path.{subst}
use mathlib.Core.List.{append_assoc}
use ecmh.LinkList.{LinkedList, list_delete_all_node, delete_nodes, list_loop2_delete}
use ecmh.LinkList.Heap.{ListNode, Heap, listnode_free, heap_unlink, heap_delete}
use ecmh.LinkList.Heap.Laws.{
  first_of, NotIn, Linked, Distinct, Holds, entries, write_other, Linked-write, Linked-split,
}
use ecmh.LinkList.Heap.Delete.{heap_delete-Holds}
use ecmh.LinkList.Heap.Refinement.{Refines}

module _ {A : Type 0} where
  -- The loop of `list_delete_all_node` from `node` on: the values that `del` is given, in order,
  -- and the heap. The fuel is enough: `heap_delete_all_lem`.
  unfoldable pub delete_from : ℕ → (ℕ → ListNode A) → Heap A → Option ℕ → List A × Heap A
  delete_from fuel junk h none = ([], h)
  delete_from zero junk h (some p) = ([], h)
  delete_from (suc fuel) junk h (some p) =
      let next = (h.mem p).next in
      let val = (h.mem p).val in
      let rest = delete_from fuel junk (listnode_free junk h p) next in (val ∷ rest.0, rest.1)

  unfoldable pub heap_delete_all : ℕ → (ℕ → ListNode A) → Heap A → List A × Heap A
  heap_delete_all fuel junk h =
      let (vals, h') = delete_from fuel junk h h.head in
      (vals, record { mem = h'.mem; head = none; tail = none; count = pos 0 })

  -- `list_delete`: the values, and the memory without the list.
  unfoldable pub heap_list_delete : ℕ → (ℕ → ListNode A) → Heap A → List A × (ℕ → ListNode A)
  heap_list_delete fuel junk h = let (vals, h') = delete_from fuel junk h h.head in (vals, h'.mem)

  -- LIST_LOOP2 with a body that deletes the node if its value is `dead`: `m` is the node to come.
  unfoldable pub heap_loop2 : ℕ → (ℕ → ListNode A) → (A → Bool) → Heap A → Option ℕ → Heap A
  heap_loop2 fuel junk dead h none = h
  heap_loop2 zero junk dead h (some m) = h
  heap_loop2 (suc fuel) junk dead h (some m) =
      heap_loop2 fuel junk dead (if dead (h.mem m).val then heap_delete junk h m else h)
        (h.mem m).next

  -- Only the addresses of `r` are written.
  abbrev pub Untouched : List (ℕ × A) → (ℕ → ListNode A) → (ℕ → ListNode A) → Type 0
  Untouched r mem mem' = (q : ℕ) → NotIn q r → mem' q ≡ mem q

  delete_from_lem :
      (fuel : ℕ) (junk : ℕ → ListNode A) (h : Heap A) (before : Option ℕ) (r : List (ℕ × A))
      → Linked h.mem before r none
      → Distinct r
      → length r < suc fuel
      → ((delete_from fuel junk h (first_of r none)).0 ≡ entries r)
        × Untouched r h.mem (delete_from fuel junk h (first_of r none)).1.mem
  unfolding delete_from
  delete_from_lem zero junk h before [] v d b = (refl, λ q i. refl)
  delete_from_lem (suc fuel) junk h before [] v d b = (refl, λ q i. refl)
  delete_from_lem zero junk h before ((p, x) ∷ r) v d b = absurd (omega arith)
  delete_from_lem (suc fuel) junk h before ((p, x) ∷ r) v d b =
      let next : (h.mem p).next ≡ first_of r none = ap (λ n. n.next) v.0 in
      let val : (h.mem p).val ≡ x = ap (λ n. n.val) v.0 in
      let (vals, kept) =
        delete_from_lem fuel junk (listnode_free junk h p) (some p) r
          (Linked-write h.mem p (junk p) (some p) r none d.0 v.1) d.1 (omega arith) in
      rw (next, val)
        (
          ap (λ l. x ∷ l) vals,
          λ q i. kept q i.1 ∙ write_other h.mem p q (junk p) (λ e. i.0 (sym e)),
        )

  -- Deleting all nodes gives `del` the entries in order, each once, whatever `free` does to a node
  -- that was freed, and refines the same call on the list; no other address is written.
  pub heap_delete_all_lem :
      (fuel : ℕ) (junk : ℕ → ListNode A) (h : Heap A) (r : List (ℕ × A)) (l : LinkedList A)
      → Holds h r
      → length r < suc fuel
      → ((heap_delete_all fuel junk h).0 ≡ entries r)
        × Refines (heap_delete_all fuel junk h).1 (list_delete_all_node l)
        × Untouched r h.mem (heap_delete_all fuel junk h).1.mem
  unfolding heap_delete_all list_delete_all_node
  heap_delete_all_lem fuel junk h r l v b =
      let (vals, kept) = delete_from_lem fuel junk h none r v.linked v.distinct b in
      let empty : Refines (heap_delete_all fuel junk h).1 (list_delete_all_node l) = record {
        nodes = [];
        holds = record { linked = tt; first = refl; last = refl; distinct = tt };
        same = refl;
        counted = refl;
      } in
      (simp v.first vals, empty, simp v.first kept)

  -- The nodes that stay.
  abbrev survivors : (A → Bool) → List (ℕ × A) → List (ℕ × A)
  survivors dead [] = []
  survivors dead ((p, x) ∷ s) = if dead x then survivors dead s else (p, x) ∷ survivors dead s

  -- What the loop leaves of the nodes `s`, behind the nodes `r`.
  record Leaves (dead : A → Bool) (h h' : Heap A) (r s : List (ℕ × A)) : Type 0 where
    holds : Holds h' (r ++ survivors dead s)
    counted : h'.count ≡ (delete_nodes dead (entries s) h.count).count

  loop_round :
      (fuel : ℕ) (junk : ℕ → ListNode A) (dead : A → Bool) (h : Heap A) (p : ℕ) (x : A)
      (next : Option ℕ)
      → (h.mem p).val ≡ x
      → (h.mem p).next ≡ next
      → heap_loop2 (suc fuel) junk dead h (some p)
        ≡ heap_loop2 fuel junk dead (if dead x then heap_delete junk h p else h) next
  unfolding heap_loop2
  loop_round fuel junk dead h p x next e e' =
      λ i. heap_loop2 fuel junk dead (if dead (e i) then heap_delete junk h p else h) (e' i)

  heap_loop2-Leaves :
      (fuel : ℕ) (junk : ℕ → ListNode A) (dead : A → Bool) (h : Heap A) (r s : List (ℕ × A))
      → Holds h (r ++ s)
      → length s < suc fuel
      → Leaves dead h (heap_loop2 fuel junk dead h (first_of s none)) r s
  unfolding heap_loop2 heap_unlink
  heap_loop2-Leaves zero junk dead h r [] v b = record { holds = v; counted = refl }
  heap_loop2-Leaves (suc fuel) junk dead h r [] v b = record { holds = v; counted = refl }
  heap_loop2-Leaves zero junk dead h r ((p, x) ∷ s) v b = absurd (omega arith)
  heap_loop2-Leaves (suc fuel) junk dead h r ((p, x) ∷ s) v b =
      let node = (Linked-split h.mem none r ((p, x) ∷ s) none v.linked).1.0 in
      let next : (h.mem p).next ≡ first_of s none = ap (λ n. n.next) node in
      let val : (h.mem p).val ≡ x = ap (λ n. n.val) node in
      let round : Heap A → Type 0 = λ (g : Heap A). Leaves dead h g r ((p, x) ∷ s) in
      subst round (sym (loop_round fuel junk dead h p x (first_of s none) val next))
        (elim (Bool-cases (dead x)) [
          | inl e ↦
              let h1 = heap_delete junk h p in
              let gone = heap_delete-Holds junk h r p x s v in
              let ih = heap_loop2-Leaves fuel junk dead h1 r s gone (omega arith) in
              record { holds = simp e ih.holds; counted = simp e ih.counted }
          | inr e ↦
              let moved = append_assoc r ((p, x) ∷ []) s in
              let kept = append_assoc r ((p, x) ∷ []) (survivors dead s) in
              let h' = heap_loop2 fuel junk dead h (first_of s none) in
              let ih =
                heap_loop2-Leaves fuel junk dead h (r ++ (p, x) ∷ []) s
                  (subst (λ (t : List (ℕ × A)). Holds h t) (sym moved) v) (omega arith) in
              record {
                holds = simp e (subst (λ (t : List (ℕ × A)). Holds h' t) kept ih.holds);
                counted = simp e ih.counted;
              }
        ])

  entries-survivors :
      (dead : A → Bool) (s : List (ℕ × A)) (c : ℤ)
      → entries (survivors dead s) ≡ (delete_nodes dead (entries s) c).items
  entries-survivors dead [] c = refl
  entries-survivors dead ((p, x) ∷ s) c = elim (Bool-cases (dead x)) [
    | inl e ↦ simp e (entries-survivors dead s (decr c))
    | inr e ↦ simp e (ap (λ l. x ∷ l) (entries-survivors dead s c))
  ]

  -- On linked nodes that hold the entries of a list, with its count, LIST_LOOP2 with a body that
  -- deletes the nodes of the dead entries ends, leaves the nodes linked both ways, and they hold
  -- what the loop on the list leaves, whatever `free` does to a node that was freed.
  pub heap_loop2-Refines :
      (fuel : ℕ) (junk : ℕ → ListNode A) (dead : A → Bool) (h : Heap A) (l : LinkedList A)
      (f : Refines h l)
      → length f.nodes < suc fuel
      → Refines (heap_loop2 fuel junk dead h h.head) (list_loop2_delete dead l)
  unfolding list_loop2_delete
  heap_loop2-Refines fuel junk dead h l f b =
      let left = heap_loop2-Leaves fuel junk dead h [] f.nodes f.holds b in
      subst
        (λ (o : Option ℕ).
          Refines (heap_loop2 fuel junk dead h o) (delete_nodes dead l.items l.count))
        (sym f.holds.first)
        (record {
          nodes = survivors dead f.nodes;
          holds = left.holds;
          same =
              entries-survivors dead f.nodes l.count
              ∙ ap (λ t. (delete_nodes dead t l.count).items) f.same;
          counted =
              left.counted
              ∙ ap (λ t. (delete_nodes dead t h.count).count) f.same
              ∙ ap (λ c. (delete_nodes dead l.items c).count) f.counted;
        })
