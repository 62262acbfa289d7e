-- ===== src/LinkList/Heap/Delete.antt =====
-- `list_delete_node` of src/linklist.c on linked nodes.
use ecmh.Prelude.{ℕ, ◌≡◌, ◌≢◌, refl, sym, ap, ◌∙◌, Option, none, some, List, [], ◌∷◌, ◌++◌, decr}
use mathlib.Core.Path.{subst}
use ecmh.LinkList.Heap.{
  ListNode, Heap, write, set_next, set_prev, if_null, heap_unlink, heap_delete, listnode_free,
}
use ecmh.LinkList.Heap.Laws.{
  first_of, last_of, last_ptr, NotIn, Distinct, Linked, Holds, write_other, write_same,
  Linked-write, Linked-end, Linked-append, Linked-split,
}

module _ {A : Type 0} where
  -- No address of `r` is one of `s`.
  abbrev Apart : List (ℕ × A) → List (ℕ × A) → Type 0
  Apart [] s = Unit
  Apart ((q, y) ∷ r) s = NotIn q s × Apart r s

  NotIn-left : (a : ℕ) (r s : List (ℕ × A)) → NotIn a (r ++ s) → NotIn a r × NotIn a s
  NotIn-left a [] s i = (tt, i)
  NotIn-left a ((q, y) ∷ r) s i = let (j, k) = NotIn-left a r s i.1 in ((i.0, j), k)

  NotIn-both : (a : ℕ) (r s : List (ℕ × A)) → NotIn a r → NotIn a s → NotIn a (r ++ s)
  NotIn-both a [] s i j = j
  NotIn-both a ((q, x) ∷ r) s i j = (i.0, NotIn-both a r s i.1 j)

  Distinct-split : (r s : List (ℕ × A)) → Distinct (r ++ s) → Distinct r × Distinct s × Apart r s
  Distinct-split [] s d = (tt, d, tt)
  Distinct-split ((q, y) ∷ r) s d =
      let (a, b, c) = Distinct-split r s d.1 in
      let (i, j) = NotIn-left q r s d.0 in ((i, a), b, (j, c))

  Distinct-without :
      (r : List (ℕ × A)) (p : ℕ) (x : A) (s : List (ℕ × A))
      → Distinct (r ++ (p, x) ∷ s)
      → Distinct (r ++ s)
  Distinct-without [] p x s d = d.1
  Distinct-without ((q, y) ∷ r) p x s d =
      let (i, j) = NotIn-left q r ((p, x) ∷ s) d.0 in
      (NotIn-both q r s i j.1, Distinct-without r p x s d.1)

  Apart-last : (q : ℕ) (y : A) (r s : List (ℕ × A)) → Apart ((q, y) ∷ r) s → NotIn (last_ptr q r) s
  Apart-last q y [] s a = a.0
  Apart-last q y ((q', y') ∷ r) s a = Apart-last q' y' r s a.1

  -- The first address of `s` is none of `r`.
  Apart-first :
      (r : List (ℕ × A)) (p : ℕ) (x : A) (s : List (ℕ × A)) → Apart r ((p, x) ∷ s) → NotIn p r
  Apart-first [] p x s a = tt
  Apart-first ((q, y) ∷ r) p x s a = (λ e. a.0.0 (sym e), Apart-first r p x s a.1)

  Apart-tail :
      (r : List (ℕ × A)) (p : ℕ) (x : A) (s : List (ℕ × A)) → Apart r ((p, x) ∷ s) → Apart r s
  Apart-tail [] p x s a = tt
  Apart-tail ((q, y) ∷ r) p x s a = (a.0.1, Apart-tail r p x s a.1)

  prev_of : Option ℕ → ListNode A → ListNode A
  prev_of v n = record n { prev = v }

  -- The first node of a segment is linked back to another one.
  Linked-begin :
      (mem : ℕ → ListNode A) (before before' : Option ℕ) (s : List (ℕ × A)) (end : Option ℕ)
      → Distinct s
      → Linked mem before s end
      → Linked (set_prev mem (first_of s none) before') before' s end
  unfolding prev_of
  Linked-begin mem before before' [] end d v = tt
  Linked-begin mem before before' ((p, x) ∷ s) end d v =
      let node = record (mem p) { prev = before' } in
      (
        write_same mem p node ∙ ap (prev_of before') v.0,
        Linked-write mem p node (some p) s end d.0 v.1,
      )

  Linked-set_prev :
      (mem : ℕ → ListNode A) (before : Option ℕ) (r s : List (ℕ × A)) (end v : Option ℕ)
      → Apart r s
      → Linked mem before r end
      → Linked (set_prev mem (first_of s none) v) before r end
  Linked-set_prev mem before r [] end v a h = h
  Linked-set_prev mem before r ((p, x) ∷ s) end v a h =
      Linked-write mem p (record (mem p) { prev = v }) before r end (Apart-first r p x s a) h

  -- Both writes: the nodes before `p` are linked to those behind it.
  unlinked :
      (mem : ℕ → ListNode A) (r : List (ℕ × A)) (p : ℕ) (x : A) (s : List (ℕ × A))
      → Distinct (r ++ (p, x) ∷ s)
      → Linked mem none (r ++ (p, x) ∷ s) none
      → let mem1 = set_next mem (last_of none r) (first_of s none) in
        (mem1 p ≡ record { next = first_of s none; prev = last_of none r; val = x })
        × Linked (set_prev mem1 (first_of s none) (last_of none r)) none (r ++ s) none
  unlinked mem [] p x s d v = (v.0, Linked-begin mem (some p) none s none d.1 v.1)
  unlinked mem ((q, y) ∷ r) p x s d v =
      let (dr, ds, apart) = Distinct-split ((q, y) ∷ r) ((p, x) ∷ s) d in
      let (left, right) = Linked-split mem none ((q, y) ∷ r) ((p, x) ∷ s) none v in
      let l = last_ptr q r in
      let after = first_of s none in
      let node = record (mem l) { next = after } in
      let mem1 = write mem l node in
      let out = Apart-last q y r ((p, x) ∷ s) apart in
      let rest = Linked-write mem l node (some p) s none out.1 right.1 in
      (
        write_other mem l p node out.0 ∙ right.0,
        Linked-append (set_prev mem1 after (some l)) none ((q, y) ∷ r) s none
            (Linked-set_prev mem1 none ((q, y) ∷ r) s after (some l)
              (Apart-tail ((q, y) ∷ r) p x s apart)
              (Linked-end mem none q y r (some p) after dr left))
            (Linked-begin mem1 (some p) (some l) s none ds.1 rest),
      )

  last_of-behind :
      (before : Option ℕ) (r : List (ℕ × A)) (p : ℕ) (x : A) (s : List (ℕ × A))
      → last_of before (r ++ (p, x) ∷ s) ≡ some (last_ptr p s)
  last_of-behind before [] p x s = refl
  last_of-behind before ((q, y) ∷ []) p x s = refl
  last_of-behind before ((q, y) ∷ ((q', y') ∷ r)) p x s =
      last_of-behind (some q) ((q', y') ∷ r) p x s

  last_of-nil : (before : Option ℕ) (r : List (ℕ × A)) → last_of before (r ++ []) ≡ last_of before r
  last_of-nil before [] = refl
  last_of-nil before ((q, y) ∷ []) = refl
  last_of-nil before ((q, y) ∷ ((q', y') ∷ r)) = last_of-nil (some q) ((q', y') ∷ r)

  -- The heap after the call, by the neighbours of `p`.
  between : Heap A → Option ℕ → Option ℕ → Heap A
  between h before after = record {
    mem = set_prev (set_next h.mem before after) after before;
    head = if_null before after h.head;
    tail = if_null after before h.tail;
    count = decr h.count;
  }

  heap_unlink-between :
      (h : Heap A) (p : ℕ) (before after : Option ℕ) (x : A)
      → h.mem p ≡ record { next = after; prev = before; val = x }
      → set_next h.mem before after p ≡ record { next = after; prev = before; val = x }
      → heap_unlink h p ≡ between h before after
  unfolding heap_unlink between
  heap_unlink-between h p before after x e e' =
      let prev : (h.mem p).prev ≡ before = ap (λ n. n.prev) e in
      let next : (h.mem p).next ≡ after = ap (λ n. n.next) e in
      let prev' : (set_next h.mem before after p).prev ≡ before = ap (λ n. n.prev) e' in
      let next' : (set_next h.mem before after p).next ≡ after = ap (λ n. n.next) e' in
      rw (prev, next) (rw (prev', next') refl)

  -- Deleting a node of the list takes its entry out, and no other.
  pub heap_unlink-Holds :
      (h : Heap A) (r : List (ℕ × A)) (p : ℕ) (x : A) (s : List (ℕ × A))
      → Holds h (r ++ (p, x) ∷ s)
      → Holds (heap_unlink h p) (r ++ s)
  unfolding between
  heap_unlink-Holds h r p x s v =
      let (here, linked) = unlinked h.mem r p x s v.distinct v.linked in
      let (left, right) = Linked-split h.mem none r ((p, x) ∷ s) none v.linked in
      subst (λ (g : Heap A). Holds g (r ++ s))
        (sym (heap_unlink-between h p (last_of none r) (first_of s none) x right.0 here))
        (record {
          linked = linked;
          first = head_of r s v.first;
          last = tail_of r s v.last;
          distinct = Distinct-without r p x s v.distinct;
        })
    where
      head_of :
          (r s : List (ℕ × A))
          → h.head ≡ first_of (r ++ (p, x) ∷ s) none
          → if_null (last_of none r) (first_of s none) h.head ≡ first_of (r ++ s) none
      head_of [] s e = refl
      head_of ((q, y) ∷ r) s e = e

      tail_of :
          (r s : List (ℕ × A))
          → h.tail ≡ last_of none (r ++ (p, x) ∷ s)
          → if_null (first_of s none) (last_of none r) h.tail ≡ last_of none (r ++ s)
      tail_of r [] e = sym (last_of-nil none r)
      tail_of r ((q, y) ∷ s) e =
          e ∙ last_of-behind none r p x ((q, y) ∷ s) ∙ sym (last_of-behind none r q y s)

  NotIn-behind :
      (r : List (ℕ × A)) (p : ℕ) (x : A) (s : List (ℕ × A))
      → Distinct (r ++ (p, x) ∷ s)
      → NotIn p (r ++ s)
  NotIn-behind [] p x s d = d.0
  NotIn-behind ((q, y) ∷ r) p x s d = (NotIn-ne r d.0, NotIn-behind r p x s d.1)
    where
      NotIn-ne : (r : List (ℕ × A)) → NotIn q (r ++ (p, x) ∷ s) → q ≢ p
      NotIn-ne [] i = λ e. i.0 (sym e)
      NotIn-ne ((q', y') ∷ r) i = NotIn-ne r i.1

  free-Holds :
      (junk : ℕ → ListNode A) (h : Heap A) (p : ℕ) (r : List (ℕ × A))
      → NotIn p r
      → Holds h r
      → Holds (listnode_free junk h p) r
  free-Holds junk h p r i v = record {
    linked = Linked-write h.mem p (junk p) none r none i v.linked;
    first = v.first;
    last = v.last;
    distinct = v.distinct;
  }

  pub heap_delete-Holds :
      (junk : ℕ → ListNode A) (h : Heap A) (r : List (ℕ × A)) (p : ℕ) (x : A) (s : List (ℕ × A))
      → Holds h (r ++ (p, x) ∷ s)
      → Holds (heap_delete junk h p) (r ++ s)
  heap_delete-Holds junk h r p x s v =
      free-Holds junk (heap_unlink h p) p (r ++ s) (NotIn-behind r p x s v.distinct)
        (heap_unlink-Holds h r p x s v)
