-- ===== src/LinkList/Heap/Refinement.antt =====
-- The linked nodes of src/linklist.c against the list with its count that stands for them
-- elsewhere.
use ecmh.Prelude.{
  ℕ, ◌≡◌, refl, sym, ap, ◌∙◌, true, false, Option, none, some, List, [], ◌∷◌, ◌++◌, length, pos,
  incr, decr, is_neg, if◌then◌else◌,
}
use ecmh.LinkList.{LinkedList, list_new, listnode_add, list_delete_node, remove_at}
use ecmh.LinkList.Heap.{ListNode, Heap, heap_add, heap_unlink, heap_delete}
use ecmh.LinkList.Heap.Laws.{first_of, NotIn, Linked, Holds, entries}
use ecmh.LinkList.Heap.Add.{heap_add-Holds}
use ecmh.LinkList.Heap.Delete.{heap_delete-Holds}

module _ {A : Type 0} where
  -- `calloc` clears a new list.
  abbrev pub heap_new : (ℕ → ListNode A) → Heap A
  heap_new mem = record { mem = mem; head = none; tail = none; count = pos 0 }

  -- The same calls on a heap and on a list of entries. `calloc` returns an address that no node
  -- has, or none; the node that is deleted stands behind the nodes `r`.
  pub data Calls : Heap A → LinkedList A → Type 0 where
    new : (mem : ℕ → ListNode A) → Calls (heap_new mem) list_new
    add :
        (h : Heap A) (l : LinkedList A) (x : A) (p : ℕ) (r : List (ℕ × A))
        → Calls h l
        → Holds h r
        → NotIn p r
        → Calls (heap_add h x (some p)) (listnode_add true l x)
    no_memory :
        (h : Heap A) (l : LinkedList A) (x : A)
        → Calls h l
        → Calls (heap_add h x none) (listnode_add false l x)
    delete :
        (junk : ℕ → ListNode A) (h : Heap A) (l : LinkedList A) (r : List (ℕ × A)) (p : ℕ) (x : A)
        (s : List (ℕ × A))
        → Calls h l
        → Holds h (r ++ (p, x) ∷ s)
        → Calls (heap_delete junk h p) (list_delete_node l (length r))

  pub record Refines (h : Heap A) (l : LinkedList A) : Type 0 where
    pub nodes : List (ℕ × A)
    pub holds : Holds h nodes
    pub same : entries nodes ≡ l.items
    pub counted : h.count ≡ l.count

  Linked-unique :
      (mem : ℕ → ListNode A) (b b' : Option ℕ) (r r' : List (ℕ × A))
      → first_of r none ≡ first_of r' none
      → Linked mem b r none
      → Linked mem b' r' none
      → entries r ≡ entries r'
  Linked-unique mem b b' [] [] e v v' = refl
  Linked-unique mem b b' [] ((q, y) ∷ r') e v v' = cc
  Linked-unique mem b b' ((p, x) ∷ r) [] e v v' = cc
  Linked-unique mem b b' ((p, x) ∷ r) ((q, y) ∷ r') e v v' =
      let here : p ≡ q = cc in
      let node : record { next = first_of r none; prev = b; val = x } ≡ mem q =
        sym v.0 ∙ ap mem here in
      let both = node ∙ v'.0 in
      let rest = Linked-unique mem (some p) (some q) r r' (ap (λ n. n.next) both) v.1 v'.1 in
      cc (ap (λ n. n.val) both, rest)

  Holds-unique :
      (h : Heap A) (r r' : List (ℕ × A)) → Holds h r → Holds h r' → entries r ≡ entries r'
  Holds-unique h r r' v v' =
      Linked-unique h.mem none none r r' (sym v.first ∙ v'.first) v.linked v'.linked

  entries-append : (r s : List (ℕ × A)) → entries (r ++ s) ≡ entries r ++ entries s
  entries-append [] s = refl
  entries-append ((p, x) ∷ r) s = ap (λ l. x ∷ l) (entries-append r s)

  remove_at-length :
      (r : List (ℕ × A)) (p : ℕ) (x : A) (s : List (ℕ × A))
      → entries (r ++ s) ≡ remove_at (entries (r ++ (p, x) ∷ s)) (length r)
  remove_at-length [] p x s = refl
  remove_at-length ((q, y) ∷ r) p x s = ap (λ l. y ∷ l) (remove_at-length r p x s)

  -- After any sequence of calls that create a list, add values, with or without memory, and delete
  -- nodes, the nodes are linked both ways in the order of the entries, from head to tail, at
  -- different addresses, and the count is that of the list, whatever `free` does to a node that
  -- was freed.
  pub Calls-Refines : {h : Heap A} {l : LinkedList A} → Calls h l → Refines h l
  unfolding list_new listnode_add list_delete_node heap_add heap_unlink
  Calls-Refines (new mem) = record {
    nodes = [];
    holds = record { linked = tt; first = refl; last = refl; distinct = tt };
    same = refl;
    counted = refl;
  }
  Calls-Refines (add h l x p r c v i) =
      let f = Calls-Refines c in
      record {
        nodes = r ++ (p, x) ∷ [];
        holds = heap_add-Holds h r p x v i;
        same =
            entries-append r ((p, x) ∷ [])
            ∙ ap (λ l. l ++ x ∷ []) (Holds-unique h r f.nodes v f.holds ∙ f.same);
        counted = ap (λ n. incr (if is_neg n then pos 0 else n)) f.counted;
      }
  Calls-Refines (no_memory h l x c) =
      let f = Calls-Refines c in
      record { nodes = f.nodes; holds = f.holds; same = f.same; counted = f.counted }
  Calls-Refines (delete junk h l r p x s c v) =
      let f = Calls-Refines c in
      record {
        nodes = r ++ s;
        holds = heap_delete-Holds junk h r p x s v;
        same =
            remove_at-length r p x s
            ∙ ap (λ l. remove_at l (length r))
                (Holds-unique h (r ++ (p, x) ∷ s) f.nodes v f.holds ∙ f.same);
        counted = ap decr f.counted;
      }
