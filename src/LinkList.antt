-- ===== src/LinkList.antt =====
-- src/linklist.c and src/linklist.h: the list as its entries, head first, with its `count`, which
-- callers also write.
pub mod Laws
pub mod Heap
use ecmh.Prelude.{
  ℕ, zero, suc, Bool, List, [], ◌∷◌, ◌++◌, ℤ, pos, incr, decr, is_neg, if◌then◌else◌,
}

pub record LinkedList {ℓ} (A : Type ℓ) : Type ℓ where
  pub items : List A
  pub count : ℤ

module _ {ℓ} {A : Type ℓ} where
  -- `calloc` clears the new list.
  unfoldable pub list_new : LinkedList A
  list_new = record { items = []; count = pos 0 }

  -- `ok` tells whether `calloc` found memory for the node.
  unfoldable pub listnode_add : Bool → LinkedList A → A → LinkedList A
  listnode_add ok l val =
      if ok
      then record {
        items = l.items ++ val ∷ [];
        count = incr (if is_neg l.count then pos 0 else l.count);
      }
      else l

  unfoldable pub list_delete_all_node : LinkedList A → LinkedList A
  list_delete_all_node l = record { items = []; count = pos 0 }

  abbrev pub remove_at : List A → ℕ → List A
  remove_at [] i = []
  remove_at (x ∷ xs) zero = xs
  remove_at (x ∷ xs) (suc i) = x ∷ remove_at xs i

  -- The node is named by its place in the list.
  unfoldable pub list_delete_node : LinkedList A → ℕ → LinkedList A
  list_delete_node l i = record { items = remove_at l.items i; count = decr l.count }

  abbrev pub delete_nodes : (A → Bool) → List A → ℤ → LinkedList A
  delete_nodes dead [] c = record { items = []; count = c }
  delete_nodes dead (x ∷ xs) c =
      let rest = delete_nodes dead xs (if dead x then decr c else c) in
      if dead x then rest else record rest { items = x ∷ rest.items }

  -- A `LIST_LOOP2` that calls `list_delete_node` on the nodes whose entry is `dead`.
  unfoldable pub list_loop2_delete : (A → Bool) → LinkedList A → LinkedList A
  list_loop2_delete dead l = delete_nodes dead l.items l.count
