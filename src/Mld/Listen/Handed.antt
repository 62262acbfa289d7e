-- ===== src/Mld/Listen/Handed.antt =====
-- The node that groupint_get of src/groups.c returns when `calloc` fails for some of the nodes and
-- their links.
use ecmh.Prelude.{
  ℕ, ◌≡◌, ◌⊎◌, refl, ap, ◌∙◌, inl, inr, Bool, true, ◌==◌, leb, pos, Option, none, some, [], ◌∷◌,
  arith, Bool-cases, find_by, find_by-key, find_by-append, ==_refl,
}
use mathlib.Core.Path.{subst}
use ecmh.Addr.{In6Addr}
use ecmh.LinkList.{LinkedList, list_new, listnode_add}
use ecmh.GrpInt.{GrpIntNode, Alloc, ifindex_of, grpint_create, grpint_find}
use ecmh.Groups.{
  GroupNode, mca_of, group_create, group_find, grpint_of, enter_group, enter_new, get_from,
  groupint_get, subscription_timeout, seconds_since,
}
use ecmh.Groups.Lookup.{grpint_at, grpint_of-mca}
use ecmh.Mld.Listen.Failures.{IsListed, new_group, at_group-find, create-IsListed}

-- The node that `groupint_get` returns is in the registry under its keys, or nothing is.
abbrev pub IsHanded : LinkedList GroupNode → In6Addr → ℕ → GrpIntNode → Type 0
IsHanded groups mca ifindex gi =
    (gi.ifindex ≡ ifindex)
    × ((grpint_at groups mca ifindex ≡ some gi) ⊎ (grpint_at groups mca ifindex ≡ none))

module _ (a : Alloc) (now ifindex : ℕ) where
  grpint_of-IsHanded :
      (g : GroupNode) (o : Option GrpIntNode) (gi : GrpIntNode)
      → grpint_find g.interfaces.items ifindex ≡ o
      → (grpint_of a ifindex g o).0 ≡ some gi
      → (gi.ifindex ≡ ifindex)
        × ((grpint_find (grpint_of a ifindex g o).1.interfaces.items ifindex ≡ some gi)
            ⊎ (grpint_find (grpint_of a ifindex g o).1.interfaces.items ifindex ≡ none))
  unfolding grpint_create listnode_add list_new find_by
  grpint_of-IsHanded g (some gi') gi e h =
      let found = e ∙ h in (find_by-key ifindex_of g.interfaces.items ifindex gi found, inl found)
  grpint_of-IsHanded g none gi e h = elim (Bool-cases a.grpint) [
    | inr fails ↦ ground (arith, fails, h)
    | inl made ↦
        let fresh : GrpIntNode = record {
          ifindex = ifindex;
          subscriptions = record { items = []; count = pos 0 };
        } in
        let node : (grpint_of a ifindex g none).0 ≡ some fresh = ground (arith, made) in
        let same : fresh ≡ gi = cc (node, h) in
        let items = (grpint_of a ifindex g none).1.interfaces.items in
        let found = find_by-append ifindex_of g.interfaces.items (fresh ∷ []) ifindex in
        let self : (ifindex == ifindex) ≡ true = ==_refl ifindex in
        subst
          (λ (x : GrpIntNode).
            (x.ifindex ≡ ifindex)
            × ((grpint_find items ifindex ≡ some x) ⊎ (grpint_find items ifindex ≡ none)))
          same
          (
            refl,
            elim (Bool-cases a.grpint_link) [
              | inr lost ↦ inr (rw (made, lost) e)
              | inl linked ↦ inl (rw (made, linked, found, e, self) refl)
            ],
          )
  ]

  enter_group-IsHanded :
      (groups : LinkedList GroupNode) (g : GroupNode) (isnew : Bool) (gi : GrpIntNode)
      → IsListed groups g
      → (enter_group a now groups g ifindex isnew).node ≡ some gi
      → IsHanded (enter_group a now groups g ifindex isnew).groups g.mca ifindex gi
  enter_group-IsHanded groups g isnew gi l h =
      let stamped : GroupNode = record g { lastforward = now } in
      let o = grpint_find g.interfaces.items ifindex in
      let g' = (grpint_of a ifindex stamped o).1 in
      let written =
        at_group-find a now ifindex groups g g' g.mca (grpint_of-mca a ifindex stamped o) l in
      let handed = grpint_of-IsHanded stamped o gi refl h in
      let same : (g.mca == g.mca) ≡ true = ==_refl g.mca in
      (
        handed.0,
        elim l [
          | inl there ↦ rw (written, same, there) handed.1
          | inr absent ↦ rw (written, same, absent) (inr refl)
        ],
      )

  get_from-IsHanded :
      (groups : LinkedList GroupNode) (mca : In6Addr) (o : Option GroupNode) (gi : GrpIntNode)
      → group_find groups.items mca ≡ o
      → (get_from a now groups mca ifindex o).node ≡ some gi
      → IsHanded (get_from a now groups mca ifindex o).groups mca ifindex gi
  unfolding group_create list_new
  get_from-IsHanded groups mca (some g) gi e h =
      let named : g.mca ≡ mca = find_by-key mca_of groups.items mca g e in
      let isnew = leb subscription_timeout (seconds_since now g.lastforward) in
      subst (λ k. IsHanded (enter_group a now groups g ifindex isnew).groups k ifindex gi) named
        (enter_group-IsHanded groups g isnew gi (inl (ap (group_find groups.items) named ∙ e)) h)
  get_from-IsHanded groups mca none gi e h = elim (Bool-cases a.group) [
    | inr fails ↦ ground (arith, fails, h)
    | inl made ↦
        let g = new_group mca in
        let created : some g ≡ group_create a mca = ground (arith, made) in
        let Goal : Option GroupNode → Type 0 = λ o.
          (enter_new a now groups ifindex o).node ≡ some gi
          → IsHanded (enter_new a now groups ifindex o).groups mca ifindex gi in
        subst Goal created
          (enter_group-IsHanded (listnode_add a.group_link groups g) g true gi
            (create-IsListed a now ifindex groups g e))
          h
  ]

  -- The node that `groupint_get` returns is in the registry, or was lost with its link.
  pub groupint_get-IsHanded :
      (groups : LinkedList GroupNode) (mca : In6Addr) (gi : GrpIntNode)
      → (groupint_get a now groups mca ifindex).node ≡ some gi
      → IsHanded (groupint_get a now groups mca ifindex).groups mca ifindex gi
  unfolding groupint_get
  groupint_get-IsHanded groups mca gi h =
      get_from-IsHanded groups mca (group_find groups.items mca) gi refl h
