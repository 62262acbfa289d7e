-- ===== src/GrpInt.antt =====
-- src/grpint.c and src/grpint.h: the interfaces on which a group has listeners.
pub mod Laws
use ecmh.Prelude.{
  ℕ, Bool, true, false, ◌&&◌, ◌==◌, Option, none, some, List, find_by, update_by, if◌then◌else◌,
}
use ecmh.Addr.{In6Addr, is_addr_unspecified}
use ecmh.LinkList.{LinkedList, list_new, listnode_add}
use ecmh.Subscr.{SubscrNode, ipv6_of, mode_is_exclude, subscr_create, subscr_find}

pub record GrpIntNode : Type 0 where
  pub ifindex : ℕ
  pub subscriptions : LinkedList SubscrNode

-- What the calls of `calloc` for the nodes, and for the links that hold them, return.
pub record Alloc : Type 0 where
  pub group : Bool
  pub group_link : Bool
  pub grpint : Bool
  pub grpint_link : Bool
  pub subscr : Bool
  pub subscr_link : Bool

unfoldable pub grpint_create : Alloc → ℕ → Option GrpIntNode
unfolding list_new
grpint_create a ifindex =
    if a.grpint then some (record { ifindex = ifindex; subscriptions = list_new }) else none

abbrev pub ifindex_of : GrpIntNode → ℕ
ifindex_of g = g.ifindex

abbrev pub grpint_find : List GrpIntNode → ℕ → Option GrpIntNode
grpint_find gs ifindex = find_by ifindex_of gs ifindex

abbrev pub refresh_node : ℕ → ℕ → SubscrNode → SubscrNode
refresh_node mode now s = record s { mode = mode; refreshtime = now }

-- The subscription list with a live subscription for the address: the one that `subscr_find`
-- returned is written to, or a new one is added. A node that was created but got
-- no link is written to and lost.
abbrev pub subscribe :
    Alloc
    → ℕ
    → LinkedList SubscrNode
    → In6Addr
    → ℕ
    → Option SubscrNode
    → Bool × LinkedList SubscrNode
subscribe a now l ipv6 mode (some s) =
    (true, record l { items = update_by ipv6_of ipv6 (refresh_node mode now) l.items })
subscribe a now l ipv6 mode none = elim (subscr_create a.subscr now ipv6 mode) [
  | none ↦ (false, l)
  | some s ↦ (true, listnode_add a.subscr_link l s)
]

-- `now` is what `gettimes` and `time` return.
unfoldable pub grpint_refresh : Alloc → ℕ → GrpIntNode → In6Addr → ℕ → Bool × GrpIntNode
unfolding find_by update_by subscr_create listnode_add
grpint_refresh a now g ipv6 mode =
    if mode == mode_is_exclude && is_addr_unspecified ipv6
    then (true, g)
    else let (done, l) =
        subscribe a now g.subscriptions ipv6 mode (subscr_find g.subscriptions ipv6) in
      (done, record g { subscriptions = l })
