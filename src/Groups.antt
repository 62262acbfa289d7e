-- ===== src/Groups.antt =====
-- src/groups.c and src/groups.h: the multicast groups with listeners.
pub mod WellFormed
pub mod Lookup
use ecmh.Prelude.{
  ℕ, ◌-◌, ◌+◌, ◌%◌, ◌^◌, Bool, true, false, leb, Option, none, some, List, find_by, update_by,
  if◌then◌else◌,
}
use ecmh.Addr.{In6Addr}
use ecmh.LinkList.{LinkedList, list_new, listnode_add}
use ecmh.GrpInt.{GrpIntNode, Alloc, ifindex_of, grpint_create, grpint_find}

abbrev pub subscription_timeout : ℕ
subscription_timeout = 125

abbrev pub robustness_factor : ℕ
robustness_factor = 2

pub record GroupNode : Type 0 where
  pub mca : In6Addr
  pub interfaces : LinkedList GrpIntNode
  pub lastforward : ℕ
  pub bytes : ℕ
  pub packets : ℕ

unfoldable pub group_create : Alloc → In6Addr → Option GroupNode
unfolding list_new
group_create a mca =
    if a.group
    then some (record { mca = mca; interfaces = list_new; lastforward = 0; bytes = 0; packets = 0 })
    else none

abbrev pub mca_of : GroupNode → In6Addr
mca_of g = g.mca

abbrev pub group_find : List GroupNode → In6Addr → Option GroupNode
group_find gs mca = find_by mca_of gs mca

-- A write through the pointer that `group_find` returned.
abbrev pub update_group : In6Addr → (GroupNode → GroupNode) → List GroupNode → List GroupNode
update_group mca f gs = update_by mca_of mca f gs

-- A write through the pointer that `grpint_find` returned.
abbrev pub update_grpint : ℕ → (GrpIntNode → GrpIntNode) → List GrpIntNode → List GrpIntNode
update_grpint ifindex f gs = update_by ifindex_of ifindex f gs

-- A write to the group at this address.
abbrev pub at_group : LinkedList GroupNode → In6Addr → GroupNode → LinkedList GroupNode
at_group groups mca g = record groups { items = update_group mca (λ _. g) groups.items }

-- What `groupint_get` gives back: its result, `*isnew`, and the list of groups after it.
pub record Got : Type 0 where
  pub node : Option GrpIntNode
  pub isnew : Bool
  pub groups : LinkedList GroupNode

-- The end of `groupint_get`: the interface of the group, found or created.
abbrev pub grpint_of : Alloc → ℕ → GroupNode → Option GrpIntNode → Option GrpIntNode × GroupNode
grpint_of a ifindex g (some gi) = (some gi, g)
grpint_of a ifindex g none = elim (grpint_create a ifindex) [
  | none ↦ (none, g)
  | some gi ↦ (some gi, record g { interfaces = listnode_add a.grpint_link g.interfaces gi })
]

-- `if (isnew)` tests the pointer, so the time of the last forward is always set.
abbrev pub enter_group : Alloc → ℕ → LinkedList GroupNode → GroupNode → ℕ → Bool → Got
enter_group a now groups g ifindex isnew =
    let stamped = record g { lastforward = now } in
    let (node, g') = grpint_of a ifindex stamped (grpint_find stamped.interfaces.items ifindex) in
    record { node = node; isnew = isnew; groups = at_group groups g.mca g' }

-- `t - groupn->lastforward`, on `uint64_t`.
abbrev pub seconds_since : ℕ → ℕ → ℕ
seconds_since t last = (t + 2 ^ 64 - last) % 2 ^ 64

-- With the result of `group_create`.
abbrev pub enter_new : Alloc → ℕ → LinkedList GroupNode → ℕ → Option GroupNode → Got
enter_new a now groups ifindex none = record { node = none; isnew = false; groups = groups }
enter_new a now groups ifindex (some g) =
    enter_group a now (listnode_add a.group_link groups g) g ifindex true

-- With the result of `group_find`.
abbrev pub get_from : Alloc → ℕ → LinkedList GroupNode → In6Addr → ℕ → Option GroupNode → Got
get_from a now groups mca ifindex (some g) =
    enter_group a now groups g ifindex (leb subscription_timeout (seconds_since now g.lastforward))
get_from a now groups mca ifindex none = enter_new a now groups ifindex (group_create a mca)

unfoldable pub groupint_get : Alloc → ℕ → LinkedList GroupNode → In6Addr → ℕ → Got
unfolding group_create find_by update_by grpint_create listnode_add
groupint_get a now groups mca ifindex =
    get_from a now groups mca ifindex (group_find groups.items mca)
