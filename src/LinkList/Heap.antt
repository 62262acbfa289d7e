-- ===== src/LinkList/Heap.antt =====
-- src/linklist.c with its pointers: nodes in memory, linked both ways. A pointer is an address, or
-- `none` for NULL; `free` leaves anything at the address of the node.
pub mod Laws
pub mod Add
pub mod Delete
pub mod Refinement
pub mod Loops
use ecmh.Prelude.{ℕ, ◌==◌, Option, none, some, ℤ, pos, incr, decr, is_neg, if◌then◌else◌}

-- `struct listnode`.
pub record ListNode {ℓ} (A : Type ℓ) : Type ℓ where
  pub next : Option ℕ
  pub prev : Option ℕ
  pub val : A

-- `struct list`, and the memory.
pub record Heap {ℓ} (A : Type ℓ) : Type ℓ where
  pub mem : ℕ → ListNode A
  pub head : Option ℕ
  pub tail : Option ℕ
  pub count : ℤ

-- By a test for NULL.
abbrev pub if_null : Option ℕ → Option ℕ → Option ℕ → Option ℕ
if_null none a b = a
if_null (some p) a b = b

abbrev pub or_else : Option ℕ → Option ℕ → Option ℕ
or_else none q = q
or_else (some p) q = some p

module _ {ℓ} {A : Type ℓ} where
  abbrev pub write : (ℕ → ListNode A) → ℕ → ListNode A → ℕ → ListNode A
  write mem p n q = if p == q then n else mem q

  -- `p->next = v` and `p->prev = v`, where `p` is not NULL.
  abbrev pub set_next : (ℕ → ListNode A) → Option ℕ → Option ℕ → ℕ → ListNode A
  set_next mem none v = mem
  set_next mem (some p) v = write mem p (record (mem p) { next = v })

  abbrev pub set_prev : (ℕ → ListNode A) → Option ℕ → Option ℕ → ℕ → ListNode A
  set_prev mem none v = mem
  set_prev mem (some p) v = write mem p (record (mem p) { prev = v })

  -- `p` is what `listnode_new` returns.
  abbrev pub add_node : Heap A → A → ℕ → Heap A
  add_node h val p =
      let fresh = write h.mem p (record { next = none; prev = h.tail; val = val }) in
      record {
        mem = elim h.head [ none ↦ fresh | some q ↦ set_next fresh h.tail (some p) ];
        head = or_else h.head (some p);
        tail = some p;
        count = incr (if is_neg h.count then pos 0 else h.count);
      }

  unfoldable pub heap_add : Heap A → A → Option ℕ → Heap A
  heap_add h val none = h
  heap_add h val (some p) = add_node h val p

  -- `list_delete_node` up to the call of `listnode_free`. `node->next` is read again after the first
  -- write.
  unfoldable pub heap_unlink : Heap A → ℕ → Heap A
  heap_unlink h p =
      let before = (h.mem p).prev in
      let after = (h.mem p).next in
      let mem = set_next h.mem before after in
      record {
        mem = set_prev mem (mem p).next (mem p).prev;
        head = if_null before after h.head;
        tail = if_null (mem p).next (mem p).prev h.tail;
        count = decr h.count;
      }

  -- `free`: what the node holds from now on is `junk`.
  abbrev pub listnode_free : (ℕ → ListNode A) → Heap A → ℕ → Heap A
  listnode_free junk h p = record h { mem = write h.mem p (junk p) }

  abbrev pub heap_delete : (ℕ → ListNode A) → Heap A → ℕ → Heap A
  heap_delete junk h p = listnode_free junk (heap_unlink h p) p
