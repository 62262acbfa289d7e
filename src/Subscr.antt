-- ===== src/Subscr.antt =====
-- src/subscr.c and src/subscr.h: the subscriptions of a group on one interface.
use ecmh.Prelude.{ℕ, Bool, true, false, Option, none, some, find_by, place_by, if◌then◌else◌}
use ecmh.Addr.{In6Addr}
use ecmh.LinkList.{LinkedList, list_delete_node}

abbrev pub mode_is_include : ℕ
mode_is_include = 1

abbrev pub mode_is_exclude : ℕ
mode_is_exclude = 2

pub record SubscrNode : Type 0 where
  pub ipv6 : In6Addr
  pub mode : ℕ
  pub refreshtime : ℕ

-- `ok` tells whether `calloc` found memory; `now` is what `gettimes` returns.
unfoldable pub subscr_create : Bool → ℕ → In6Addr → ℕ → Option SubscrNode
subscr_create ok now ipv6 mode =
    if ok then some (record { ipv6 = ipv6; mode = mode; refreshtime = now }) else none

abbrev pub ipv6_of : SubscrNode → In6Addr
ipv6_of s = s.ipv6

abbrev pub subscr_find : LinkedList SubscrNode → In6Addr → Option SubscrNode
subscr_find l ipv6 = find_by ipv6_of l.items ipv6

unfoldable pub subscr_unsub : LinkedList SubscrNode → In6Addr → Bool × LinkedList SubscrNode
unfolding list_delete_node place_by
subscr_unsub l ipv6 = elim (place_by ipv6_of l.items ipv6) [
  | none ↦ (false, l)
  | some i ↦ (true, list_delete_node l i)
]
