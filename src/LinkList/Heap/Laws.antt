-- ===== src/LinkList/Heap/Laws.antt =====
-- The linked nodes of src/linklist.c against the list of their entries.
use ecmh.Prelude.{ℕ, ◌≡◌, ◌≢◌, sym, ap, ◌∙◌, Option, none, some, List, [], ◌∷◌, ◌++◌, arith}
use ecmh.LinkList.Heap.{ListNode, Heap, write, set_next}

module _ {A : Type 0} where
  -- The addresses of a list with its entries: the address of the first node, and of the last one.
  abbrev pub first_of : List (ℕ × A) → Option ℕ → Option ℕ
  first_of [] end = end
  first_of ((p, x) ∷ r) end = some p

  abbrev pub last_ptr : ℕ → List (ℕ × A) → ℕ
  last_ptr p [] = p
  last_ptr p ((q, x) ∷ r) = last_ptr q r

  abbrev pub last_of : Option ℕ → List (ℕ × A) → Option ℕ
  last_of before [] = before
  last_of before ((p, x) ∷ r) = some (last_ptr p r)

  abbrev pub NotIn : ℕ → List (ℕ × A) → Type 0
  NotIn p [] = Unit
  NotIn p ((q, x) ∷ r) = (q ≢ p) × NotIn p r

  abbrev pub Distinct : List (ℕ × A) → Type 0
  Distinct [] = Unit
  Distinct ((p, x) ∷ r) = NotIn p r × Distinct r

  -- The nodes of `r` stand in memory, linked to each other, to `before` and to `end`.
  abbrev pub Linked : (ℕ → ListNode A) → Option ℕ → List (ℕ × A) → Option ℕ → Type 0
  Linked mem before [] end = Unit
  Linked mem before ((p, x) ∷ r) end =
      (mem p ≡ record { next = first_of r end; prev = before; val = x }) × Linked mem (some p) r end

  abbrev pub entries : List (ℕ × A) → List A
  entries [] = []
  entries ((p, x) ∷ r) = x ∷ entries r

  pub write_other :
      (mem : ℕ → ListNode A) (p q : ℕ) (n : ListNode A) → q ≢ p → write mem p n q ≡ mem q
  write_other mem p q n h = ground arith

  pub write_same : (mem : ℕ → ListNode A) (p : ℕ) (n : ListNode A) → write mem p n p ≡ n
  write_same mem p n = ground arith

  -- A write elsewhere.
  pub Linked-write :
      (mem : ℕ → ListNode A) (p : ℕ) (n : ListNode A) (before : Option ℕ) (r : List (ℕ × A))
      (end : Option ℕ)
      → NotIn p r
      → Linked mem before r end
      → Linked (write mem p n) before r end
  Linked-write mem p n before [] end i v = tt
  Linked-write mem p n before ((q, x) ∷ r) end i v =
      (write_other mem p q n i.0 ∙ v.0, Linked-write mem p n (some q) r end i.1 v.1)

  pub last_ptr-ne : (p q : ℕ) (r : List (ℕ × A)) → q ≢ p → NotIn p r → last_ptr q r ≢ p
  last_ptr-ne p q [] n i = n
  last_ptr-ne p q ((q', x) ∷ r) n i = last_ptr-ne p q' r i.0 i.1

  next_of : Option ℕ → ListNode A → ListNode A
  next_of v n = record n { next = v }

  -- The last node of a segment is linked to another end.
  pub Linked-end :
      (mem : ℕ → ListNode A) (before : Option ℕ) (p : ℕ) (x : A) (r : List (ℕ × A))
      (end end' : Option ℕ)
      → Distinct ((p, x) ∷ r)
      → Linked mem before ((p, x) ∷ r) end
      → Linked (set_next mem (some (last_ptr p r)) end') before ((p, x) ∷ r) end'
  unfolding next_of
  Linked-end mem before p x [] end end' d v =
      (write_same mem p (record (mem p) { next = end' }) ∙ ap (next_of end') v.0, tt)
  Linked-end mem before p x ((q, y) ∷ r) end end' d v =
      let l = last_ptr q r in
      let other : p ≢ l = λ e. last_ptr-ne p q r d.0.0 d.0.1 (sym e) in
      (
        write_other mem l p (record (mem l) { next = end' }) other ∙ v.0,
        Linked-end mem (some p) q y r end end' d.1 v.1,
      )

  -- Two segments in a row.
  pub Linked-append :
      (mem : ℕ → ListNode A) (before : Option ℕ) (r s : List (ℕ × A)) (end : Option ℕ)
      → Linked mem before r (first_of s end)
      → Linked mem (last_of before r) s end
      → Linked mem before (r ++ s) end
  Linked-append mem before [] s end v w = w
  Linked-append mem before ((p, x) ∷ []) s end v w = (v.0, w)
  Linked-append mem before ((p, x) ∷ ((q, y) ∷ r)) s end v w =
      (v.0, Linked-append mem (some p) ((q, y) ∷ r) s end v.1 w)

  pub Linked-split :
      (mem : ℕ → ListNode A) (before : Option ℕ) (r s : List (ℕ × A)) (end : Option ℕ)
      → Linked mem before (r ++ s) end
      → Linked mem before r (first_of s end) × Linked mem (last_of before r) s end
  Linked-split mem before [] s end v = (tt, v)
  Linked-split mem before ((p, x) ∷ []) s end v = ((v.0, tt), v.1)
  Linked-split mem before ((p, x) ∷ ((q, y) ∷ r)) s end v =
      let (a, b) = Linked-split mem (some p) ((q, y) ∷ r) s end v.1 in ((v.0, a), b)

  -- The heap holds the list `r` of addresses and entries.
  pub record Holds (h : Heap A) (r : List (ℕ × A)) : Type 0 where
    pub linked : Linked h.mem none r none
    pub first : h.head ≡ first_of r none
    pub last : h.tail ≡ last_of none r
    pub distinct : Distinct r
