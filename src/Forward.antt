-- ===== src/Forward.antt =====
-- `l4_ipv6_multicast` of src/ecmh.c.
pub mod Laws
pub mod Delivery
use ecmh.Prelude.{
  ℕ, ◌+◌, Bool, true, false, not, ◌&&◌, ◌||◌, ◌==◌, add64, Option, none, some, List, [], ◌∷◌,
  find_by, update_by, if◌then◌else◌,
}
use ecmh.Addr.{
  In6Addr, addr_any, are_addr_equal, is_addr_multicast, is_addr_unspecified, is_addr_linklocal,
  is_addr_mc_nodelocal, is_addr_mc_linklocal, addr_at, addr_from,
}
use ecmh.Memory.{Memory}
use ecmh.Subscr.{SubscrNode, mode_is_include}
use ecmh.GrpInt.{GrpIntNode}
use ecmh.Groups.{GroupNode, group_find, update_group}
use ecmh.Conf.{World, Env, int_at, with_conf}
use ecmh.Interfaces.{int_find}
use ecmh.Send.{sendpacket6}

-- A packet that is not routed, by its source and destination.
abbrev pub is_not_routed : In6Addr → In6Addr → Bool
is_not_routed src dst =
    is_addr_multicast src
    || is_addr_unspecified src
    || is_addr_unspecified dst
    || is_addr_linklocal src
    || is_addr_mc_nodelocal dst
    || is_addr_mc_linklocal dst

-- A subscription that lets the source through.
abbrev pub is_wanted_by : In6Addr → SubscrNode → Bool
is_wanted_by src s =
    (are_addr_equal s.ipv6 addr_any || are_addr_equal s.ipv6 src) && s.mode == mode_is_include

-- The loop over the subscriptions: it ends at the first that lets the source through, if the
-- interface is found.
unfoldable pub forward_subscrs : Env → ℕ → In6Addr → Memory → ℕ → List SubscrNode → World → World
forward_subscrs e ifindex src iph len [] w = w
forward_subscrs e ifindex src iph len (s ∷ ss) w =
    let rest = forward_subscrs e ifindex src iph len ss w in
    if is_wanted_by src s
    then elim (int_find w.conf ifindex) [ none ↦ rest | some p ↦ sendpacket6 e p iph len w ]
    else rest

-- The loop over the interfaces, but for the one the packet came from.
unfoldable pub forward_grpints : Env → ℕ → In6Addr → Memory → ℕ → List GrpIntNode → World → World
forward_grpints e p src iph len [] w = w
forward_grpints e p src iph len (g ∷ gs) w = forward_grpints e p src iph len gs (
    if (int_at w.conf.ints p).ifindex == g.ifindex
    then w
    else forward_subscrs e g.ifindex src iph len g.subscriptions.items w)

abbrev pub count_group : ℕ → GroupNode → GroupNode
count_group len g = record g { bytes = add64 g.bytes len; packets = add64 g.packets 1 }

abbrev pub forward_group :
    Env → ℕ → In6Addr → In6Addr → Memory → ℕ → World → Option GroupNode → World
forward_group e p src dst iph len w none = w
forward_group e p src dst iph len w (some g) =
    let c = w.conf in
    let groups = record c.groups { items = update_group dst (count_group len) c.groups.items } in
    forward_grpints e p src iph len g.interfaces.items (with_conf w (record c { groups = groups }))

-- The source stands at 8 and the destination at 24.
unfoldable pub l4_ipv6_multicast : Env → ℕ → Memory → ℕ → World → World
l4_ipv6_multicast e p iph len w =
    let src = addr_at iph 8 in
    let dst = addr_at iph 24 in
    if is_not_routed src dst
    then w
    else forward_group e p src dst iph len w (group_find w.conf.groups.items dst)
