-- ===== src/Mld/Listen/Failures.antt =====
-- What a version 1 report of src/ecmh.c does to the subscriptions when `calloc` fails.
use ecmh.Prelude.{
  ℕ, ◌≡◌, ◌⊎◌, refl, sym, ap, ◌∙◌, inl, inr, Bool, true, ◌==◌, leb, pos, Option, none, some, List,
  [], ◌∷◌, ◌++◌, arith, Bool-cases, Option-cases, find_by, find_by-key, find_by-append,
  find_by-update_by, eq_of_==, if◌then◌else◌,
}
use ecmh.Addr.{In6Addr}
use ecmh.LinkList.{LinkedList, list_new, listnode_add}
use ecmh.GrpInt.{GrpIntNode, Alloc, ifindex_of, grpint_create, grpint_find}
use ecmh.Groups.{
  GroupNode, mca_of, group_create, group_find, grpint_of, enter_group, get_from, groupint_get,
  update_group, subscription_timeout, seconds_since,
}
use ecmh.Groups.Lookup.{grpint_in, grpint_of-mca}
use ecmh.Mld.Listen.Members.{subscr_in, subscribed}

-- A new node has no subscriptions.
alone :
    (ifindex i : ℕ) (j : In6Addr)
    → subscr_in j (grpint_find (record { ifindex = ifindex; subscriptions = list_new } ∷ []) i)
      ≡ none
unfolding find_by list_new
alone ifindex i j = elim (Bool-cases (ifindex == i)) [ inl e ↦ rw e refl | inr e ↦ rw e refl ]

-- A new node behind a list of nodes has no subscriptions.
append-subscr_in :
    (gs : List GrpIntNode) (ifindex i : ℕ) (j : In6Addr)
    → subscr_in j
        (grpint_find (gs ++ record { ifindex = ifindex; subscriptions = list_new } ∷ []) i)
      ≡ subscr_in j (grpint_find gs i)
append-subscr_in gs ifindex i j =
    let fresh : GrpIntNode = record { ifindex = ifindex; subscriptions = list_new } in
    let found = find_by-append ifindex_of gs (fresh ∷ []) i in
    elim (Option-cases (grpint_find gs i)) [
      | inr (gi, there) ↦ rw (found, there) refl
      | inl absent ↦ rw (found, absent) (alone ifindex i j)
    ]

-- Creating the interface of a group changes no subscription.
grpint_of-subscr_in :
    (a : Alloc) (ifindex : ℕ) (g : GroupNode) (o : Option GrpIntNode) (i : ℕ) (j : In6Addr)
    → subscr_in j (grpint_find (grpint_of a ifindex g o).1.interfaces.items i)
      ≡ subscr_in j (grpint_find g.interfaces.items i)
unfolding grpint_create listnode_add
grpint_of-subscr_in a ifindex g (some gi) i j = refl
grpint_of-subscr_in a ifindex g none i j = elim (Bool-cases a.grpint) [
  | inr e ↦ rw e refl
  | inl e ↦ elim (Bool-cases a.grpint_link) [
    | inr e' ↦ rw (e, e') refl
    | inl e' ↦ rw (e, e') (append-subscr_in g.interfaces.items ifindex i j)
  ]
]

abbrev pub or_lost : GroupNode → Option GroupNode → Option GroupNode
or_lost g none = none
or_lost g (some _) = some g

-- The group is in the list, or in no list.
abbrev pub IsListed : LinkedList GroupNode → GroupNode → Type 0
IsListed groups g =
    (group_find groups.items g.mca ≡ some g) ⊎ (group_find groups.items g.mca ≡ none)

abbrev pub new_group : In6Addr → GroupNode
new_group mca = record {
  mca = mca;
  interfaces = record { items = []; count = pos 0 };
  lastforward = 0;
  bytes = 0;
  packets = 0;
}

-- A new group has no interfaces.
alone_group :
    (g : GroupNode) (k : In6Addr) (i : ℕ) (j : In6Addr)
    → g.interfaces.items ≡ []
    → subscr_in j (grpint_in i (group_find (g ∷ []) k)) ≡ none
unfolding find_by
alone_group g k i j e = elim (Bool-cases (g.mca == k)) [
  | inl same ↦ simp (same, e) refl
  | inr other ↦ rw other refl
]

module _ (a : Alloc) (now ifindex : ℕ) where
  -- What is found under a key of a list in which a group was written.
  pub at_group-find :
      (groups : LinkedList GroupNode) (g g' : GroupNode) (k : In6Addr)
      → g'.mca ≡ g.mca
      → IsListed groups g
      → group_find (update_group g.mca (λ _. g') groups.items) k
        ≡ (if g.mca == k then or_lost g' (group_find groups.items k) else group_find groups.items k)
  at_group-find groups g g' k named l =
      let written =
        find_by-update_by mca_of g.mca k (λ _. g') groups.items (λ x h. named ∙ sym h) in
      elim (Option-cases (group_find groups.items k)) [
        | inl absent ↦ rw (written, absent) (ground arith)
        | inr (x, there) ↦ rw (written, there) (ground arith)
      ]

  enter_group-subscribed :
      (groups : LinkedList GroupNode) (g : GroupNode) (isnew : Bool) (k : In6Addr) (i : ℕ)
      (j : In6Addr)
      → IsListed groups g
      → subscribed (enter_group a now groups g ifindex isnew).groups k i j ≡ subscribed groups k i j
  enter_group-subscribed groups g isnew k i j l =
      let stamped : GroupNode = record g { lastforward = now } in
      let o = grpint_find g.interfaces.items ifindex in
      let g' = (grpint_of a ifindex stamped o).1 in
      let written = at_group-find groups g g' k (grpint_of-mca a ifindex stamped o) l in
      let inside = grpint_of-subscr_in a ifindex stamped o i j in
      elim (Bool-cases (g.mca == k)) [
        | inr other ↦ rw (written, other) refl
        | inl same ↦
            let at = ap (group_find groups.items) (sym (eq_of_== g.mca k same)) in
            elim l [
              | inl there ↦ rw (written, same, at ∙ there) inside
              | inr absent ↦ rw (written, same, at ∙ absent) refl
            ]
      ]

  -- A group that was created and is linked, or is not.
  create-subscribed :
      (groups : LinkedList GroupNode) (g : GroupNode) (k : In6Addr) (i : ℕ) (j : In6Addr)
      → g.interfaces.items ≡ []
      → subscribed (listnode_add a.group_link groups g) k i j ≡ subscribed groups k i j
  unfolding listnode_add
  create-subscribed groups g k i j e = elim (Bool-cases a.group_link) [
    | inr lost ↦ rw lost refl
    | inl linked ↦
        let found = find_by-append mca_of groups.items (g ∷ []) k in
        elim (Option-cases (group_find groups.items k)) [
          | inr (x, there) ↦ rw (linked, found, there) refl
          | inl absent ↦ rw (linked, found, absent) (alone_group g k i j e)
        ]
  ]

  pub create-IsListed :
      (groups : LinkedList GroupNode) (g : GroupNode)
      → group_find groups.items g.mca ≡ none
      → IsListed (listnode_add a.group_link groups g) g
  unfolding listnode_add find_by
  create-IsListed groups g e = elim (Bool-cases a.group_link) [
    | inr lost ↦ rw lost (inr e)
    | inl linked ↦
        rw linked (inl (ground (arith, find_by-append mca_of groups.items (g ∷ []) g.mca)))
  ]

  get_from-subscribed :
      (groups : LinkedList GroupNode) (mca : In6Addr) (o : Option GroupNode) (k : In6Addr) (i : ℕ)
      (j : In6Addr)
      → group_find groups.items mca ≡ o
      → subscribed (get_from a now groups mca ifindex o).groups k i j ≡ subscribed groups k i j
  unfolding group_create list_new
  get_from-subscribed groups mca (some g) k i j e =
      let named : g.mca ≡ mca = find_by-key mca_of groups.items mca g e in
      enter_group-subscribed groups g (leb subscription_timeout (seconds_since now g.lastforward)) k
        i j (inl (ap (group_find groups.items) named ∙ e))
  get_from-subscribed groups mca none k i j e = elim (Bool-cases a.group) [
    | inr fails ↦ rw fails refl
    | inl made ↦
        let g = new_group mca in
        let created : group_create a mca ≡ some g = ground (arith, made) in
        rw created (
          enter_group-subscribed (listnode_add a.group_link groups g) g true k i j
            (create-IsListed groups g e)
          ∙ create-subscribed groups g k i j refl)
  ]

  -- Whatever memory `calloc` finds, `groupint_get` changes no subscription.
  pub groupint_get-subscribed :
      (groups : LinkedList GroupNode) (mca k : In6Addr) (i : ℕ) (j : In6Addr)
      → subscribed (groupint_get a now groups mca ifindex).groups k i j ≡ subscribed groups k i j
  unfolding groupint_get
  groupint_get-subscribed groups mca k i j =
      get_from-subscribed groups mca (group_find groups.items mca) k i j refl
