-- ===== src/Groups/WellFormed.antt =====
-- A well-formed registry of groups: every count fits its list, no group and no interface of a group
-- is listed twice, and the subscriptions are sound. And `groupint_get` of src/groups.c on it.
use ecmh.Prelude.{
  ℕ, ◌≡◌, refl, sym, ap, ◌∙◌, inl, inr, Bool, true, false, Option, none, some, [], ◌∷◌, pos, arith,
  Bool-cases, All, All-append, IsDistinct, find_by-none, find_by-key, find_by-All, update_by-All,
  update_by-IsDistinct, append-IsDistinct, length-update_by, leb,
}
use ecmh.Addr.{In6Addr}
use ecmh.LinkList.{LinkedList, list_new, listnode_add}
use ecmh.LinkList.Laws.{IsTallied, listnode_add-IsTallied}
use ecmh.GrpInt.{GrpIntNode, Alloc, ifindex_of, grpint_create, grpint_find}
use ecmh.GrpInt.Laws.{IsSound, list_new-IsSound}
use ecmh.Groups.{
  GroupNode, mca_of, group_create, group_find, at_group, grpint_of, enter_group, enter_new,
  get_from, groupint_get, subscription_timeout, seconds_since,
}

pub record IsSoundGroup (g : GroupNode) : Type 0 where
  pub tallied : IsTallied g.interfaces
  pub distinct : IsDistinct ifindex_of g.interfaces.items
  pub sound : All (λ (x : GrpIntNode). IsSound x.subscriptions) g.interfaces.items

pub record IsRegistry (l : LinkedList GroupNode) : Type 0 where
  pub tallied : IsTallied l
  pub distinct : IsDistinct mca_of l.items
  pub sound : All IsSoundGroup l.items

add_grpint :
    (ok : Bool) (g : GroupNode) (gi : GrpIntNode)
    → IsSoundGroup g
    → grpint_find g.interfaces.items gi.ifindex ≡ none
    → IsSound gi.subscriptions
    → IsSoundGroup (record g { interfaces = listnode_add ok g.interfaces gi })
unfolding listnode_add
add_grpint true g gi v e s = record {
  tallied = listnode_add-IsTallied true g.interfaces gi v.tallied;
  distinct =
      append-IsDistinct ifindex_of g.interfaces.items gi v.distinct
        (find_by-none ifindex_of g.interfaces.items gi.ifindex e);
  sound = All-append _ g.interfaces.items (gi ∷ []) v.sound (s, tt);
}
add_grpint false g gi v e s = record { tallied = v.tallied; distinct = v.distinct; sound = v.sound }

grpint_of-IsSoundGroup :
    (a : Alloc) (ifindex : ℕ) (g : GroupNode) (o : Option GrpIntNode)
    → grpint_find g.interfaces.items ifindex ≡ o
    → IsSoundGroup g
    → IsSoundGroup (grpint_of a ifindex g o).1
unfolding grpint_create
grpint_of-IsSoundGroup a ifindex g (some gi) e v = v
grpint_of-IsSoundGroup a ifindex g none e v = elim (Bool-cases a.grpint) [
  | inl ok ↦ rw ok (add_grpint a.grpint_link g _ v e list_new-IsSound)
  | inr no_memory ↦ rw no_memory v
]

-- The node that `groupint_get` hands out is sound, and stands for the interface asked for.
abbrev pub IsSoundNode : ℕ → Option GrpIntNode → Type 0
IsSoundNode ifindex none = Unit
IsSoundNode ifindex (some gi) = (gi.ifindex ≡ ifindex) × IsSound gi.subscriptions

grpint_of-IsSoundNode :
    (a : Alloc) (ifindex : ℕ) (g : GroupNode) (o : Option GrpIntNode)
    → grpint_find g.interfaces.items ifindex ≡ o
    → IsSoundGroup g
    → IsSoundNode ifindex (grpint_of a ifindex g o).0
unfolding grpint_create
grpint_of-IsSoundNode a ifindex g (some gi) e v = (
  find_by-key ifindex_of g.interfaces.items ifindex gi e,
  find_by-All ifindex_of _ g.interfaces.items ifindex gi v.sound e,
)
grpint_of-IsSoundNode a ifindex g none e v = elim (Bool-cases a.grpint) [
  | inl ok ↦ rw ok (refl, list_new-IsSound)
  | inr no_memory ↦ rw no_memory tt
]

grpint_of-mca :
    (a : Alloc) (ifindex : ℕ) (g : GroupNode) (o : Option GrpIntNode)
    → (grpint_of a ifindex g o).1.mca ≡ g.mca
unfolding grpint_create
grpint_of-mca a ifindex g (some gi) = refl
grpint_of-mca a ifindex g none = elim (Bool-cases a.grpint) [
  | inl ok ↦ rw ok
  | inr no_memory ↦ rw no_memory
]

at_group-IsRegistry :
    (groups : LinkedList GroupNode) (mca : In6Addr) (g : GroupNode)
    → g.mca ≡ mca
    → IsRegistry groups
    → IsSoundGroup g
    → IsRegistry (at_group groups mca g)
at_group-IsRegistry groups mca g e v s = record {
  tallied = v.tallied ∙ ap pos (sym (length-update_by mca_of mca (λ _. g) groups.items));
  distinct = update_by-IsDistinct mca_of mca (λ _. g) groups.items (λ x m. e ∙ sym m) v.distinct;
  sound = update_by-All mca_of IsSoundGroup mca (λ _. g) groups.items (λ x m h. s) v.sound;
}

abbrev stamped : ℕ → GroupNode → GroupNode
stamped now g = record g { lastforward = now }

module _ (a : Alloc) (now : ℕ) (ifindex : ℕ) where
  enter_group-IsRegistry :
      (groups : LinkedList GroupNode) (g : GroupNode) (isnew : Bool)
      → IsRegistry groups
      → IsSoundGroup g
      → IsRegistry (enter_group a now groups g ifindex isnew).groups
        × IsSoundNode ifindex (enter_group a now groups g ifindex isnew).node
  enter_group-IsRegistry groups g isnew v s =
      let st : IsSoundGroup (stamped now g) = record {
        tallied = s.tallied;
        distinct = s.distinct;
        sound = s.sound;
      } in
      let o = grpint_find g.interfaces.items ifindex in
      (
        at_group-IsRegistry groups g.mca (grpint_of a ifindex (stamped now g) o).1
            (grpint_of-mca a ifindex (stamped now g) o) v
            (grpint_of-IsSoundGroup a ifindex (stamped now g) o refl st),
        grpint_of-IsSoundNode a ifindex (stamped now g) o refl st,
      )

  add_group :
      (groups : LinkedList GroupNode) (g : GroupNode)
      → IsRegistry groups
      → group_find groups.items g.mca ≡ none
      → IsSoundGroup g
      → IsRegistry (listnode_add a.group_link groups g)
  unfolding listnode_add
  add_group groups g v e s = elim (Bool-cases a.group_link) [
    | inl ok ↦ rw ok (record {
      tallied = added ok;
      distinct =
          append-IsDistinct mca_of groups.items g v.distinct
            (find_by-none mca_of groups.items g.mca e);
      sound = All-append IsSoundGroup groups.items (g ∷ []) v.sound (s, tt);
    })
    | inr no_memory ↦ rw no_memory v
  ]
    where
      added : a.group_link ≡ true → IsTallied (listnode_add true groups g)
      added ok = listnode_add-IsTallied true groups g v.tallied

  enter_new-IsRegistry :
      (groups : LinkedList GroupNode) (mca : In6Addr) (o : Option GroupNode)
      → group_create a mca ≡ o
      → group_find groups.items mca ≡ none
      → IsRegistry groups
      → IsRegistry (enter_new a now groups ifindex o).groups
        × IsSoundNode ifindex (enter_new a now groups ifindex o).node
  unfolding group_create list_new
  enter_new-IsRegistry groups mca none c e v = (v, tt)
  enter_new-IsRegistry groups mca (some g) c e v =
      let named : g.mca ≡ mca = ground arith in
      let items : g.interfaces.items ≡ [] = ground arith in
      let fresh : IsSoundGroup g = record {
        tallied = ground arith;
        distinct = rw items tt;
        sound = rw items tt;
      } in
      enter_group-IsRegistry _ g true (add_group groups g v (rw named e) fresh) fresh

  get_from-IsRegistry :
      (groups : LinkedList GroupNode) (mca : In6Addr) (o : Option GroupNode)
      → group_find groups.items mca ≡ o
      → IsRegistry groups
      → IsRegistry (get_from a now groups mca ifindex o).groups
        × IsSoundNode ifindex (get_from a now groups mca ifindex o).node
  get_from-IsRegistry groups mca (some g) e v =
      enter_group-IsRegistry groups g (leb subscription_timeout (seconds_since now g.lastforward)) v
        (find_by-All mca_of IsSoundGroup groups.items mca g v.sound e)
  get_from-IsRegistry groups mca none e v =
      enter_new-IsRegistry groups mca (group_create a mca) refl e v

  -- Whatever `calloc` returns, `groupint_get` keeps the registry well formed, and the node that it
  -- returns is sound.
  pub groupint_get-IsRegistry :
      (groups : LinkedList GroupNode) (mca : In6Addr)
      → IsRegistry groups
      → IsRegistry (groupint_get a now groups mca ifindex).groups
        × IsSoundNode ifindex (groupint_get a now groups mca ifindex).node
  unfolding groupint_get
  groupint_get-IsRegistry groups mca v =
      get_from-IsRegistry groups mca (group_find groups.items mca) refl v
