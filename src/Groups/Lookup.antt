-- ===== src/Groups/Lookup.antt =====
-- The registry of groups as a map: what `groupint_get` of src/groups.c does to the interface that
-- is found under a group's address and an interface's index.
use ecmh.Prelude.{
  ℕ, ◌≡◌, refl, sym, ap, ◌∙◌, inl, inr, Bool, true, ◌&&◌, ◌==◌, leb, Option, none, some, [], ◌∷◌,
  ◌++◌, pos, arith, Bool-cases, Option-cases, find_by, find_by-key, find_by-append,
  find_by-update_by, eq_of_==, if◌then◌else◌,
}
use ecmh.Addr.{In6Addr}
use ecmh.LinkList.{LinkedList, list_new, listnode_add}
use ecmh.GrpInt.{GrpIntNode, Alloc, ifindex_of, grpint_create, grpint_find}
use ecmh.Groups.{
  GroupNode, mca_of, group_create, group_find, grpint_of, enter_group, get_from, groupint_get,
  subscription_timeout, seconds_since,
}

-- `calloc` finds memory for all that a call needs.
pub record HasMemory (a : Alloc) : Type 0 where
  pub group : a.group ≡ true
  pub group_link : a.group_link ≡ true
  pub grpint : a.grpint ≡ true
  pub grpint_link : a.grpint_link ≡ true
  pub subscr : a.subscr ≡ true
  pub subscr_link : a.subscr_link ≡ true

abbrev pub grpint_in : ℕ → Option GroupNode → Option GrpIntNode
grpint_in ifindex none = none
grpint_in ifindex (some g) = grpint_find g.interfaces.items ifindex

-- The interface under these two keys.
abbrev pub grpint_at : LinkedList GroupNode → In6Addr → ℕ → Option GrpIntNode
grpint_at groups mca ifindex = grpint_in ifindex (group_find groups.items mca)

-- The interface that is there, or a new one.
abbrev pub or_new : ℕ → Option GrpIntNode → GrpIntNode
or_new ifindex none = record {
  ifindex = ifindex;
  subscriptions = record { items = []; count = pos 0 };
}
or_new ifindex (some gi) = gi

grpint_of-node :
    (a : Alloc) (ifindex : ℕ) (g : GroupNode) (o : Option GrpIntNode)
    → HasMemory a
    → (grpint_of a ifindex g o).0 ≡ some (or_new ifindex o)
unfolding grpint_create list_new
grpint_of-node a ifindex g (some gi) m = refl
grpint_of-node a ifindex g none m = ground (arith, m.grpint)

grpint_of-find :
    (a : Alloc) (ifindex i : ℕ) (g : GroupNode) (o : Option GrpIntNode)
    → grpint_find g.interfaces.items ifindex ≡ o
    → HasMemory a
    → grpint_find (grpint_of a ifindex g o).1.interfaces.items i
      ≡ (if ifindex == i then some (or_new ifindex o) else grpint_find g.interfaces.items i)
unfolding grpint_create list_new listnode_add find_by
grpint_of-find a ifindex i g (some gi) e m = ground arith
grpint_of-find a ifindex i g none e m = ground (
  arith,
  m.grpint,
  m.grpint_link,
  find_by-append ifindex_of g.interfaces.items (or_new ifindex none ∷ []) i,
)

pub grpint_of-mca :
    (a : Alloc) (ifindex : ℕ) (g : GroupNode) (o : Option GrpIntNode)
    → (grpint_of a ifindex g o).1.mca ≡ g.mca
unfolding grpint_create
grpint_of-mca a ifindex g (some gi) = refl
grpint_of-mca a ifindex g none = ground arith

abbrev stamped : ℕ → GroupNode → GroupNode
stamped now g = record g { lastforward = now }

abbrev fresh : In6Addr → GroupNode
fresh mca = record {
  mca = mca;
  interfaces = record { items = []; count = pos 0 };
  lastforward = 0;
  bytes = 0;
  packets = 0;
}

module _ (a : Alloc) (now : ℕ) (ifindex : ℕ) (m : HasMemory a) where
  -- What `enter_group` leaves in a list that has the group.
  enter_group-at :
      (groups : LinkedList GroupNode) (g : GroupNode) (isnew : Bool) (mca : In6Addr) (i : ℕ)
      → group_find groups.items g.mca ≡ some g
      → grpint_at (enter_group a now groups g ifindex isnew).groups mca i ≡ (
          if g.mca == mca && ifindex == i
          then some (or_new ifindex (grpint_find g.interfaces.items ifindex))
          else grpint_at groups mca i)
  enter_group-at groups g isnew mca i e =
      let o = grpint_find g.interfaces.items ifindex in
      let g' = (grpint_of a ifindex (stamped now g) o).1 in
      let written =
        find_by-update_by mca_of g.mca mca (λ _. g') groups.items
          (λ x h. grpint_of-mca a ifindex (stamped now g) o ∙ sym h) in
      let inside = grpint_of-find a ifindex i (stamped now g) o refl m in
      elim (Bool-cases (g.mca == mca)) [
        | inl same ↦
            let here : group_find groups.items mca ≡ some g =
              ap (group_find groups.items) (sym (eq_of_== g.mca mca same)) ∙ e in
            rw (written, here, same) inside
        | inr other ↦ elim (Option-cases (group_find groups.items mca)) [
          | inl absent ↦ rw (written, absent, other) refl
          | inr (g'', there) ↦ rw (written, there, other) refl
        ]
      ]

  get_from-at :
      (groups : LinkedList GroupNode) (mca : In6Addr) (o : Option GroupNode) (k : In6Addr) (i : ℕ)
      → group_find groups.items mca ≡ o
      → grpint_at (get_from a now groups mca ifindex o).groups k i ≡ (
          if mca == k && ifindex == i
          then some (or_new ifindex (grpint_in ifindex o))
          else grpint_at groups k i)
  unfolding group_create list_new listnode_add find_by
  get_from-at groups mca (some g) k i e =
      let named : g.mca ≡ mca = find_by-key mca_of groups.items mca g e in
      rw (sym named) (
        enter_group-at groups g (leb subscription_timeout (seconds_since now g.lastforward)) k i
          (ap (group_find groups.items) named ∙ e))
  get_from-at groups mca none k i e =
      let g = fresh mca in
      let made : group_create a mca ≡ some g = ground (arith, m.group) in
      let appended = find_by-append mca_of groups.items (g ∷ []) in
      let link : (listnode_add a.group_link groups g).items ≡ groups.items ++ g ∷ [] =
        ground (arith, m.group_link) in
      let found : group_find (listnode_add a.group_link groups g).items mca ≡ some g =
        ap (λ gs. group_find gs mca) link ∙ ground (arith, appended mca) in
      rw made (
        enter_group-at (listnode_add a.group_link groups g) g true k i found
        ∙ rw link (ground (arith, appended k)))

  pub groupint_get-at :
      (groups : LinkedList GroupNode) (mca k : In6Addr) (i : ℕ)
      → grpint_at (groupint_get a now groups mca ifindex).groups k i ≡ (
          if mca == k && ifindex == i
          then some (or_new ifindex (grpint_at groups mca ifindex))
          else grpint_at groups k i)
  unfolding groupint_get
  groupint_get-at groups mca k i = get_from-at groups mca (group_find groups.items mca) k i refl

  get_from-node :
      (groups : LinkedList GroupNode) (mca : In6Addr) (o : Option GroupNode)
      → (get_from a now groups mca ifindex o).node ≡ some (or_new ifindex (grpint_in ifindex o))
  unfolding group_create list_new find_by
  get_from-node groups mca (some g) =
      grpint_of-node a ifindex (stamped now g) (grpint_find g.interfaces.items ifindex) m
  get_from-node groups mca none =
      let made : group_create a mca ≡ some (fresh mca) = ground (arith, m.group) in
      rw made (grpint_of-node a ifindex (stamped now (fresh mca)) none m)

  pub groupint_get-node :
      (groups : LinkedList GroupNode) (mca : In6Addr)
      → (groupint_get a now groups mca ifindex).node
        ≡ some (or_new ifindex (grpint_at groups mca ifindex))
  unfolding groupint_get
  groupint_get-node groups mca = get_from-node groups mca (group_find groups.items mca)
