-- ===== src/Mld/Report2.antt =====
-- `mld2_send_report` of src/ecmh.c. The packet is built in memory that `calloc` cleared, as many
-- bytes as the interface's MTU; a write past them is noted in `overrun`.
use ecmh.Prelude.{
  ℕ, ◌+◌, ◌-◌, ◌*◌, ◌%◌, ◌^◌, Bool, true, false, not, ◌&&◌, ◌||◌, ◌==◌, ltb, Option, none, some,
  List, [], ◌∷◌, ◌++◌, length, is_null, if◌then◌else◌,
}
use ecmh.Addr.{In6Addr, is_addr_unspecified, are_addr_equal, addr_at}
use ecmh.Memory.{Memory, write_bytes, be16, le16, word_at, swap16, addr_bytes}
use ecmh.Checksum.{ipv6_checksum}
use ecmh.Subscr.{SubscrNode, mode_is_include, mode_is_exclude}
use ecmh.GrpInt.{GrpIntNode}
use ecmh.Groups.{GroupNode}
use ecmh.Conf.{World, Env, int_at}
use ecmh.Send.{sendpacket6, count_icmp_sent, ip6_header}
use ecmh.Mld.Query.{router_alert, all_mld2_routers}

-- The local variables. `grec` and `src` are places in the packet; `done` is set by `return`.
pub record Rep : Type 0 where
  pub world : World
  pub packet : Memory
  pub size : ℕ
  pub grec : Option ℕ
  pub src : Option ℕ
  pub any : Bool
  pub len : ℕ
  pub done : Bool

-- A write to the packet.
unfoldable pub store : Rep → ℕ → List ℕ → Rep
store r off bs = record r {
  packet = write_bytes r.packet off bs;
  world = record r.world { overrun = r.world.overrun || ltb r.size (off + length bs) };
}

-- The fields of the record at `g`: type at 0, number of sources at 2, group at 4, sources at 20.
abbrev pub nsrcs : Rep → ℕ → ℕ
nsrcs r g = word_at r.packet (g + 2)

abbrev pub slot : Rep → ℕ → ℕ
slot r g = g + 20 + 16 * nsrcs r g

-- `ngrec` stands at 54.
abbrev pub ngrec : Rep → ℕ
ngrec r = word_at r.packet 54

-- The length of the packet so far, less the IPv6 header, is stored and the packet goes out. Both
-- counts are turned to network order.
unfoldable pub flush : Env → ℕ → Rep → ℕ → ℕ → Rep
flush e p r g len =
    let a = store r 54 (le16 (swap16 (ngrec r))) in
    let b = store a (g + 2) (le16 (swap16 (nsrcs a g))) in
    let c = store b 4 (be16 len) in
    let d = store c 50 (0 ∷ 0 ∷ []) in
    let f = store d 50 (le16 (ipv6_checksum d.packet 0 58 48 ((len + 2 ^ 16 - 8) % 2 ^ 16))) in
    record f {
      world = count_icmp_sent p (sendpacket6 e p f.packet ((len + 40) % 2 ^ 16) f.world);
      len = len;
    }

-- A subscription where the record has a source already: `::` drops the sources, and a source that
-- is found again is passed over. All rounds of the search read the slot past the last source.
abbrev pub revisit : SubscrNode → Rep → ℕ → Rep
revisit s r g =
    if is_addr_unspecified s.ipv6
    then record (store (store r (g + 2) (le16 0)) g (mode_is_exclude ∷ [])) {
      src = none;
      any = true;
    }
    else if r.any || nsrcs r g == 0
    then r
    else if are_addr_equal s.ipv6 (addr_at r.packet (slot r g))
    then record r { src = none }
    else record r { src = some (slot r g) }

abbrev pub place : Rep → Option ℕ → Rep × ℕ
place r none = (r, 56)
place r (some g) =
    let swapped = store r (g + 2) (le16 (swap16 (nsrcs r g))) in (swapped, slot swapped g)

-- A new record for the group, the first one or the one after `grec`. Behind a record that exists
-- the place is computed with the number of sources in network order.
unfoldable pub new_grec : GroupNode → Rep → Rep
new_grec gn r =
    let counted = store r 54 (le16 ((ngrec r + 1) % 2 ^ 16)) in
    let (placed, g) = place counted r.grec in
    let a = store placed (g + 4) (addr_bytes 16 gn.mca) in
    let b = store a (g + 2) (le16 0) in
    record (store b g (mode_is_exclude ∷ [])) { grec = some g; any = false }

-- The source goes behind the others, or makes the record one for any source; by `grec`.
abbrev pub source_at : SubscrNode → Rep → Option ℕ → Rep
source_at s r none = r
source_at s r (some g) =
    if is_addr_unspecified s.ipv6
    then record r { any = true }
    else (let at = slot r g in
        let a = store r (g + 2) (le16 ((nsrcs r g + 1) % 2 ^ 16)) in
        let b = store a g (mode_is_include ∷ []) in
        record (store b at (addr_bytes 16 s.ipv6)) { src = some at })

unfoldable pub add_source : SubscrNode → Rep → Rep
add_source s r = source_at s r r.grec

-- Room for a source of `source` bytes, by `grec`: the packet goes out if it would not fit. The new
-- record behind `grec` is not counted.
abbrev pub room_for : Env → ℕ → ℕ → ℕ → Rep → Option ℕ → Rep
room_for e p mtu source r none =
    if ltb mtu (56 + 40 + 20 + source)
    then record r { len = 56; done = true }
    else record r { len = 56 }
room_for e p mtu source r (some g) =
    let len = slot r g - 40 in
    if ltb mtu (len + 40 + source)
    then (let out = flush e p r g len in record (store out 54 (le16 0)) { grec = none; src = none })
    else record r { len = len }

unfoldable pub make_room : Env → ℕ → SubscrNode → Rep → Rep
make_room e p s r =
    let source : ℕ = if r.any || is_addr_unspecified s.ipv6 then 0 else 16 in
    room_for e p (int_at r.world.conf.ints p).mtu source r r.grec

-- From the size check on.
abbrev pub append_subscr : Env → ℕ → GroupNode → SubscrNode → Rep → Rep
append_subscr e p gn s r =
    let roomy = make_room e p s r in
    if roomy.done
    then roomy
    else add_source s (elim roomy.src [ none ↦ new_grec gn roomy | some _ ↦ roomy ])

-- After `revisit`, by `src`.
abbrev pub unless_dropped : Env → ℕ → GroupNode → SubscrNode → Rep → Option ℕ → Rep
unless_dropped e p gn s r none = r
unless_dropped e p gn s r (some _) = append_subscr e p gn s r

-- The case of a source, by `grec`.
abbrev pub again : Env → ℕ → GroupNode → SubscrNode → Rep → Option ℕ → Rep
again e p gn s r none = r
again e p gn s r (some g) = unless_dropped e p gn s (revisit s r g) (revisit s r g).src

-- The two cases, by `src`.
abbrev pub at_subscr : Env → ℕ → GroupNode → SubscrNode → Rep → Option ℕ → Rep
at_subscr e p gn s r none = append_subscr e p gn s r
at_subscr e p gn s r (some _) = again e p gn s r r.grec

-- The body of the inner loop.
unfoldable pub report_subscr : Env → ℕ → GroupNode → SubscrNode → Rep → Rep
report_subscr e p gn s r =
    if r.done || s.mode == mode_is_exclude then r else at_subscr e p gn s r r.src

unfoldable pub report_subscrs : Env → ℕ → GroupNode → List SubscrNode → Rep → Rep
report_subscrs e p gn [] r = r
report_subscrs e p gn (s ∷ ss) r = report_subscrs e p gn ss (report_subscr e p gn s r)

-- The loop over the interfaces of a group, but for the sending one.
unfoldable pub report_grpints : Env → ℕ → GroupNode → List GrpIntNode → Rep → Rep
report_grpints e p gn [] r = r
report_grpints e p gn (g ∷ gs) r = report_grpints e p gn gs (
    if g.ifindex == (int_at r.world.conf.ints p).ifindex
    then r
    else report_subscrs e p gn g.subscriptions.items r)

-- `mca` is `none` for all groups.
abbrev pub is_asked : Option In6Addr → GroupNode → Bool
is_asked none gn = not (is_null gn.interfaces.count)
is_asked (some mca) gn = are_addr_equal mca gn.mca && not (is_null gn.interfaces.count)

unfoldable pub report_groups : Env → ℕ → Option In6Addr → List GroupNode → Rep → Rep
report_groups e p mca [] r = r
report_groups e p mca (gn ∷ gns) r = report_groups e p mca gns (
    if is_asked mca gn
    then report_grpints e p gn gn.interfaces.items (record r { src = none })
    else r)

-- The packet before the loops.
abbrev pub start : ℕ → World → Rep
start p w =
    let i = int_at w.conf.ints p in
    let clear : Rep = record {
      world = w;
      packet = λ _. 0;
      size = i.mtu;
      grec = none;
      src = none;
      any = false;
      len = 0;
      done = false;
    } in
    store clear 0 (ip6_header 16 0 1 i.linklocal all_mld2_routers ++ (router_alert ++ (143 ∷ [])))

-- What is left goes out. A packet with records has a `grec`.
abbrev pub flush_last : Env → ℕ → Rep → World
flush_last e p r =
    if r.done || ngrec r == 0
    then r.world
    else elim r.grec [ none ↦ r.world | some g ↦ (flush e p r g (slot r g - 40)).world ]

unfoldable pub mld2_send_report : Env → ℕ → Option In6Addr → World → World
mld2_send_report e p mca w =
    if ltb (int_at w.conf.ints p).mtu 56
    then w
    else flush_last e p (report_groups e p mca w.conf.groups.items (start p w))
