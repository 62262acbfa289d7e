-- ===== src/LinkList/Laws.antt =====
-- What the operations on a list do to its entries and to its count.
use ecmh.Prelude.{
  ℕ, zero, suc, ◌+◌, ◌≡◌, refl, ap, ◌∙◌, ◌⊎◌, inl, inr, Bool, true, false, not, List, [], ◌∷◌, ◌++◌,
  ℤ, pos, negsuc, incr, decr, length, length-append, keep_if, All, arith, Bool-cases, none, some,
  place_by, find_by, find_by-absent, eq_of_==, Option-cases, IsDistinct, ◌==◌, if◌then◌else◌,
}
use ecmh.LinkList.{
  LinkedList, listnode_add, list_delete_node, remove_at, delete_nodes, list_loop2_delete,
}

module _ {ℓ} {A : Type ℓ} where
  -- The count is the number of entries.
  abbrev pub IsTallied : LinkedList A → Type 0
  IsTallied l = l.count ≡ pos (length l.items)

  -- The same, or the list is empty and its count was set to -2.
  abbrev pub IsCounted : LinkedList A → Type ℓ
  IsCounted l = IsTallied l ⊎ ((l.items ≡ []) × (l.count ≡ negsuc 1))

  listnode_add-count :
      (xs : List A) (c : ℤ) (v : A) → c ≡ pos (length xs) → incr c ≡ pos (length (xs ++ v ∷ []))
  listnode_add-count xs c v h = ground (arith, length-append xs (v ∷ []))

  pub listnode_add-IsTallied :
      (ok : Bool) (l : LinkedList A) (v : A) → IsTallied l → IsTallied (listnode_add ok l v)
  unfolding listnode_add
  listnode_add-IsTallied ok l v h = ground (arith, length-append l.items (v ∷ []))

  -- Adding an entry to a list that was marked counts from 0.
  pub listnode_add-IsCounted :
      (ok : Bool) (l : LinkedList A) (v : A) → IsCounted l → IsCounted (listnode_add ok l v)
  unfolding listnode_add
  listnode_add-IsCounted ok l v (inl h) = inl (listnode_add-IsTallied ok l v h)
  listnode_add-IsCounted true l v (inr (e, h)) =
      inl (ground (arith, length-append l.items (v ∷ []), ap length e))
  listnode_add-IsCounted false l v (inr h) = inr h

  delete_nodes-items :
      (dead : A → Bool) (xs : List A) (c : ℤ)
      → (delete_nodes dead xs c).items ≡ keep_if (λ x. not (dead x)) xs
  delete_nodes-items dead [] c = refl
  delete_nodes-items dead (x ∷ xs) c =
      ground (arith, delete_nodes-items dead xs c, delete_nodes-items dead xs (decr c))

  -- The loop keeps the entries that are not dead, in their order.
  pub list_loop2_delete-items :
      (dead : A → Bool) (l : LinkedList A)
      → (list_loop2_delete dead l).items ≡ keep_if (λ x. not (dead x)) l.items
  unfolding list_loop2_delete
  list_loop2_delete-items dead l = delete_nodes-items dead l.items l.count

  delete_nodes-count :
      (dead : A → Bool) (xs : List A) (c : ℤ) (k : ℕ)
      → c ≡ pos (length xs + k)
      → (delete_nodes dead xs c).count ≡ pos (length (delete_nodes dead xs c).items + k)
  delete_nodes-count dead [] c k h = h
  delete_nodes-count dead (x ∷ xs) c k h = elim (Bool-cases (dead x)) [
    | inl e ↦ rw e (delete_nodes-count dead xs (decr c) k (ground arith))
    | inr e ↦ rw e (ground (arith, delete_nodes-count dead xs c (suc k)))
  ]

  pub list_loop2_delete-IsTallied :
      (dead : A → Bool) (l : LinkedList A) → IsTallied l → IsTallied (list_loop2_delete dead l)
  unfolding list_loop2_delete
  list_loop2_delete-IsTallied dead l h = ground (arith, delete_nodes-count dead l.items l.count 0)

  delete_nodes-nil :
      (dead : A → Bool) (xs : List A) (c : ℤ)
      → xs ≡ []
      → ((delete_nodes dead xs c).items ≡ []) × ((delete_nodes dead xs c).count ≡ c)
  delete_nodes-nil dead [] c h = (refl, refl)
  delete_nodes-nil dead (x ∷ xs) c h = cc

  pub list_loop2_delete-IsCounted :
      (dead : A → Bool) (l : LinkedList A) → IsCounted l → IsCounted (list_loop2_delete dead l)
  unfolding list_loop2_delete
  list_loop2_delete-IsCounted dead l (inl h) = inl (list_loop2_delete-IsTallied dead l h)
  list_loop2_delete-IsCounted dead l (inr (e, h)) =
      let (i, c) = delete_nodes-nil dead l.items l.count e in inr (i, c ∙ h)

  -- The loop leaves the count of an empty list alone.
  pub list_loop2_delete-nil :
      (dead : A → Bool) (l : LinkedList A)
      → l.items ≡ []
      → (list_loop2_delete dead l).count ≡ l.count
  unfolding list_loop2_delete
  list_loop2_delete-nil dead l e = (delete_nodes-nil dead l.items l.count e).1

  remove_at-All {κ} : (P : A → Type κ) (xs : List A) (i : ℕ) → All P xs → All P (remove_at xs i)
  remove_at-All P [] i a = tt
  remove_at-All P (x ∷ xs) zero a = a.1
  remove_at-All P (x ∷ xs) (suc i) a = (a.0, remove_at-All P xs i a.1)

  pub remove_at-IsDistinct :
      (key : A → ℕ) (xs : List A) (i : ℕ) → IsDistinct key xs → IsDistinct key (remove_at xs i)
  remove_at-IsDistinct key [] i d = tt
  remove_at-IsDistinct key (x ∷ xs) zero d = d.1
  remove_at-IsDistinct key (x ∷ xs) (suc i) d =
      (remove_at-All _ xs i d.0, remove_at-IsDistinct key xs i d.1)

  place_by-length :
      (key : A → ℕ) (xs : List A) (k i : ℕ)
      → place_by key xs k ≡ some i
      → length xs ≡ suc (length (remove_at xs i))
  unfolding place_by
  place_by-length key [] k i h = cc
  place_by-length key (x ∷ xs) k zero h = refl
  place_by-length key (x ∷ xs) k (suc i) h = elim (Bool-cases (key x == k)) [
    | inl e ↦ ground arith
    | inr e ↦ ap suc (place_by-length key xs k i (ground arith))
  ]

  -- Without the node that a search has found, its key is found no more, and all other keys are
  -- found as before.
  pub find_by-remove_at :
      (key : A → ℕ) (xs : List A) (k i j : ℕ)
      → place_by key xs k ≡ some i
      → IsDistinct key xs
      → find_by key (remove_at xs i) j ≡ (if k == j then none else find_by key xs j)
  unfolding place_by find_by
  find_by-remove_at key [] k i j h d = cc
  find_by-remove_at key (x ∷ xs) k zero j h d = elim (Bool-cases (key x == k)) [
    | inl e ↦ elim (Bool-cases (k == j)) [
      | inl here ↦ ground (
        arith,
        find_by-absent key (key x) xs j (omega (arith, eq_of_== _ _ e, eq_of_== _ _ here)) d.0,
      )
      | inr other ↦ ground (arith, eq_of_== _ _ e)
    ]
    | inr e ↦ elim (Option-cases (place_by key xs k)) [
      | inl none_e ↦ ground arith
      | inr (n, some_e) ↦ ground arith
    ]
  ]
  find_by-remove_at key (x ∷ xs) k (suc i) j h d = elim (Bool-cases (key x == k)) [
    | inl e ↦ ground arith
    | inr e ↦ ground (arith, find_by-remove_at key xs k i j (ground arith) d.1)
  ]

  -- Deleting the node that a search has found makes the count the number of entries, if it was so
  -- before or the list was empty with the mark of -2.
  pub list_delete_node-IsTallied :
      (key : A → ℕ) (l : LinkedList A) (k i : ℕ)
      → place_by key l.items k ≡ some i
      → IsCounted l
      → IsTallied (list_delete_node l i)
  unfolding list_delete_node
  list_delete_node-IsTallied key l k i h (inl c) = ground (arith, place_by-length key l.items k i h)
  list_delete_node-IsTallied key l k i h (inr (e, c)) =
      ground (arith, place_by-length key l.items k i h, ap length e)
