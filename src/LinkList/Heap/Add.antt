-- ===== src/LinkList/Heap/Add.antt =====
-- `listnode_add` of src/linklist.c on linked nodes.
use ecmh.Prelude.{ℕ, ◌≡◌, refl, sym, ap, ◌∙◌, none, some, List, [], ◌∷◌, ◌++◌}
use mathlib.Core.Path.{subst}
use ecmh.LinkList.Heap.{ListNode, Heap, write, set_next, heap_add}
use ecmh.LinkList.Heap.Laws.{
  last_ptr, NotIn, Distinct, Linked, Holds, write_other, write_same, Linked-write, last_ptr-ne,
  Linked-end, Linked-append,
}

module _ {A : Type 0} where
  NotIn-append : (a : ℕ) (r s : List (ℕ × A)) → NotIn a r → NotIn a s → NotIn a (r ++ s)
  NotIn-append a [] s i j = j
  NotIn-append a ((q, x) ∷ r) s i j = (i.0, NotIn-append a r s i.1 j)

  Distinct-append :
      (r : List (ℕ × A)) (p : ℕ) (x : A) → Distinct r → NotIn p r → Distinct (r ++ (p, x) ∷ [])
  Distinct-append [] p x d i = (tt, tt)
  Distinct-append ((q, y) ∷ r) p x d i =
      (NotIn-append q r ((p, x) ∷ []) d.0 (λ e. i.0 (sym e), tt), Distinct-append r p x d.1 i.1)

  last_ptr-append : (q : ℕ) (r : List (ℕ × A)) (p : ℕ) (x : A) → last_ptr q (r ++ (p, x) ∷ []) ≡ p
  last_ptr-append q [] p x = refl
  last_ptr-append q ((q', y) ∷ r) p x = last_ptr-append q' r p x

  add-Linked :
      (h : Heap A) (r : List (ℕ × A)) (p : ℕ) (x : A)
      → Holds h r
      → NotIn p r
      → Linked (heap_add h x (some p)).mem none (r ++ (p, x) ∷ []) none
  unfolding heap_add
  add-Linked h [] p x v i =
      simp (v.first, v.last) (write_same h.mem p (record { next = none; prev = none; val = x }), tt)
  add-Linked h ((q, y) ∷ r) p x v i =
      let l = last_ptr q r in
      let node : ListNode A = record { next = none; prev = some l; val = x } in
      let fresh = write h.mem p node in
      let here : (set_next fresh (some l) (some p) p) ≡ node =
        write_other fresh l p (record (fresh l) { next = some p })
          (λ e. last_ptr-ne p q r i.0 i.1 (sym e))
        ∙ write_same h.mem p node in
      let memory : (heap_add h x (some p)).mem ≡ set_next fresh (some l) (some p) =
        simp (v.first, v.last) refl in
      subst (λ (m : ℕ → ListNode A). Linked m none (((q, y) ∷ r) ++ (p, x) ∷ []) none) (sym memory)
        (Linked-append (set_next fresh (some l) (some p)) none ((q, y) ∷ r) ((p, x) ∷ []) none
          (Linked-end fresh none q y r none (some p) v.distinct
            (Linked-write h.mem p node none ((q, y) ∷ r) none i v.linked))
          (here, tt))

  -- Adding at an address that is not in use appends the entry.
  pub heap_add-Holds :
      (h : Heap A) (r : List (ℕ × A)) (p : ℕ) (x : A)
      → Holds h r
      → NotIn p r
      → Holds (heap_add h x (some p)) (r ++ (p, x) ∷ [])
  unfolding heap_add
  heap_add-Holds h [] p x v i = record {
    linked = add-Linked h [] p x v i;
    first = simp v.first refl;
    last = refl;
    distinct = Distinct-append [] p x v.distinct i;
  }
  heap_add-Holds h ((q, y) ∷ r) p x v i = record {
    linked = add-Linked h ((q, y) ∷ r) p x v i;
    first = simp v.first refl;
    last = ap some (sym (last_ptr-append q r p x));
    distinct = Distinct-append ((q, y) ∷ r) p x v.distinct i;
  }
