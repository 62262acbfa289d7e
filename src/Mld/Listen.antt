-- ===== src/Mld/Listen.antt =====
-- The MLD messages that src/ecmh.c receives: `l4_ipv6_icmpv6_mld1_report`, `.._mld1_reduction`,
-- `.._mld2_report` and `.._mld_query`. The guards under ECMH_SUPPORT_MLDV2 are not compiled, since
-- the build defines ECMH_SUPPORT_MLD2.
pub mod WellFormed
pub mod Members
pub mod Membership
pub mod RecordEffect
pub mod ReportEffect
pub mod Writes
pub mod ReportWrites
pub mod Entries
pub mod Isolation
pub mod Failures
pub mod Handed
pub mod Stored
pub mod FailingReport
pub mod Leaving
pub mod Records
use ecmh.Prelude.{
  ℕ, zero, suc, ◌+◌, ◌*◌, Bool, true, false, not, ◌&&◌, ◌||◌, ◌==◌, ltb, Option, none, some, List,
  [], ◌∷◌, ℤ, pos, negsuc, is_nonpos, find_by, update_by, if◌then◌else◌,
}
use ecmh.Addr.{
  In6Addr, addr_any, is_addr_multicast, is_addr_mc_nodelocal, is_addr_mc_linklocal, addr_at,
  addr_from,
}
use ecmh.Memory.{Memory, ntohs_at}
use ecmh.LinkList.{LinkedList}
use ecmh.Subscr.{SubscrNode, mode_is_include, mode_is_exclude, subscr_unsub}
use ecmh.GrpInt.{GrpIntNode, Alloc, grpint_find, grpint_refresh}
use ecmh.Groups.{GroupNode, group_find, update_group, update_grpint, Got, groupint_get}
use ecmh.Conf.{Conf, World, Env, int_at, with_conf}
use ecmh.Interfaces.{int_set_mld_version}
use ecmh.Mld.Query.{mld_send_query}
use ecmh.Mld.Report2.{mld2_send_report}
use ecmh.Mld.Reports.{mld_send_report, mld_send_report_all}

-- A write to the interface of a group, through the pointer that `groupint_get` or `grpint_find`
-- returned. A node that is in no list is lost.
abbrev pub put_grpint : GrpIntNode → GroupNode → GroupNode
put_grpint gi g = record g {
  interfaces = record g.interfaces {
    items = update_grpint gi.ifindex (λ _. gi) g.interfaces.items;
  };
}

abbrev pub store_grpint : LinkedList GroupNode → In6Addr → GrpIntNode → LinkedList GroupNode
store_grpint groups mca gi = record groups { items = update_group mca (put_grpint gi) groups.items }

abbrev pub with_groups : World → LinkedList GroupNode → World
with_groups w groups = with_conf w (record w.conf { groups = groups })

-- Groups that are not multicast, or reach no further than the node or the link.
abbrev pub is_local_group : In6Addr → Bool
is_local_group mca =
    not (is_addr_multicast mca) || is_addr_mc_nodelocal mca || is_addr_mc_linklocal mca

-- `grpint_refresh` on the node that `groupint_get` returned.
abbrev pub refresh_got :
    Alloc → ℕ → Got → In6Addr → GrpIntNode → In6Addr → ℕ → Bool × LinkedList GroupNode
refresh_got a now got mca gi ipv6 mode =
    let (done, gi') = grpint_refresh a now gi ipv6 mode in (done, store_grpint got.groups mca gi')

-- From the result of `groupint_get` on.
abbrev pub join : Env → ℕ → In6Addr → World → Got → Option GrpIntNode → World
join e p mca w got none = with_groups w got.groups
join e p mca w got (some gi) =
    let (done, groups) = refresh_got (e.alloc 0 0) e.now got mca gi addr_any mode_is_include in
    let w' = with_groups w groups in
    if done && got.isnew then mld_send_report_all e p mca w' else w'

-- `mca` is the address in the message.
unfoldable pub mld1_report : Env → ℕ → In6Addr → World → World
mld1_report e p mca w =
    let seen = int_set_mld_version e p 1 w in
    let i = int_at seen.conf.ints p in
    let got = groupint_get (e.alloc 0 0) e.now seen.conf.groups mca i.ifindex in
    if is_local_group mca then seen else join e p mca seen got got.node

-- From `subscr_unsub` on. An interface that nobody subscribes to is asked again and its count set
-- to -2. The query reads no groups, so the groups are written before it.
abbrev pub leave : Env → ℕ → In6Addr → World → GrpIntNode → Bool × LinkedList SubscrNode → World
leave e p mca w gi (false, l) = w
leave e p mca w gi (true, l) =
    let marked : LinkedList SubscrNode =
      if is_nonpos l.count then record l { count = negsuc 1 } else l in
    let w' =
      with_groups w (store_grpint w.conf.groups mca (record gi { subscriptions = marked })) in
    if is_nonpos l.count then mld_send_query e p mca w' else w'

abbrev pub reduce : Env → ℕ → In6Addr → World → Option GrpIntNode → World
reduce e p mca w none = w
reduce e p mca w (some gi) = leave e p mca w gi (subscr_unsub gi.subscriptions addr_any)

abbrev pub reduce_group : Env → ℕ → In6Addr → World → Option GroupNode → World
reduce_group e p mca w none = w
reduce_group e p mca w (some g) =
    reduce e p mca w (grpint_find g.interfaces.items (int_at w.conf.ints p).ifindex)

unfoldable pub mld1_reduction : Env → ℕ → In6Addr → World → World
mld1_reduction e p mca w =
    let seen = int_set_mld_version e p 1 w in
    if is_local_group mca
    then seen
    else reduce_group e p mca seen (group_find seen.conf.groups.items mca)

-- `MLD2_MODE_IS_EXCLUDE`, `MLD2_CHANGE_TO_EXCLUDE` or `MLD2_BLOCK_OLD_SOURCES`.
abbrev pub is_exclude_type : ℕ → Bool
is_exclude_type t = t == 2 || t == 4 || t == 6

abbrev pub is_known_type : ℕ → Bool
is_known_type t = t == 1 || t == 2 || t == 3 || t == 4 || t == 5 || t == 6

-- The mode of a record with no source, and of its sources.
abbrev pub mode_of_all : ℕ → ℕ
mode_of_all t = if is_exclude_type t then mode_is_include else mode_is_exclude

abbrev pub mode_of_source : ℕ → ℕ
mode_of_source t = if is_exclude_type t then mode_is_exclude else mode_is_include

-- The loop over the sources. The node of the interface is written back after each of them.
unfoldable pub refresh_sources :
    Env → ℕ → Memory → ℕ → ℕ → ℕ → In6Addr → Option GrpIntNode → World → World
refresh_sources e k mem src zero mode mca gi w = w
refresh_sources e k mem src (suc n) mode mca none w = w
refresh_sources e k mem src (suc n) mode mca (some gi) w =
    let gi' = (grpint_refresh (e.alloc k (suc n)) e.now gi (addr_at mem src) mode).1 in
    refresh_sources e k mem (src + 16) n mode mca (some gi')
      (with_groups w (store_grpint w.conf.groups mca gi'))

-- The result of a record with no source: `false` for `return`.
abbrev pub refresh_all : Env → ℕ → ℕ → In6Addr → Option GrpIntNode → World → Bool × World
refresh_all e k mode mca none w = (true, w)
refresh_all e k mode mca (some gi) w =
    let (done, gi') = grpint_refresh (e.alloc k 0) e.now gi addr_any mode in
    (done, with_groups w (store_grpint w.conf.groups mca gi'))

-- The group's interface for one record, with the new `isnew` and the world. Without a call of
-- `groupint_get` the value of `isnew` stays.
abbrev pub get_record : Env → ℕ → ℕ → In6Addr → Bool → World → Got × World
get_record e p k mca isnew w =
    let got = groupint_get (e.alloc k 0) e.now w.conf.groups mca (int_at w.conf.ints p).ifindex in
    if is_addr_mc_nodelocal mca || is_addr_mc_linklocal mca
    then (record { node = none; isnew = isnew; groups = w.conf.groups }, w)
    else (got, with_groups w got.groups)

abbrev pub announce : Env → ℕ → In6Addr → Bool → World → World
announce e p mca isnew w = if isnew then mld_send_report_all e p mca w else w

-- The body of the loop up to the next record: `false` for `return`. The record stands at `grec`,
-- the message ends at `stop`.
abbrev pub one_record : Env → ℕ → ℕ → Memory → ℕ → ℕ → In6Addr → Got × World → Bool × Bool × World
one_record e p k mem stop grec mca (got, w) =
    let n = ntohs_at mem (grec + 2) in
    let (done, w1) = refresh_all e k (mode_of_all (mem grec)) mca got.node w in
    let w2 = refresh_sources e k mem (grec + 20) n (mode_of_source (mem grec)) mca got.node w in
    if n == 0
    then (done, got.isnew, if done then announce e p mca got.isnew w1 else w1)
    else if ltb stop (grec + 20 + n * 16)
    then (false, got.isnew, w)
    else (true, got.isnew, announce e p mca got.isnew w2)

-- The loop over the records, `k` to go. The auxiliary words are counted in bytes.
unfoldable pub records : Env → ℕ → ℕ → Memory → ℕ → ℕ → Bool → World → World
records e p zero mem stop grec isnew w = w
records e p (suc k) mem stop grec isnew w =
    let mca = addr_at mem (grec + 4) in
    let (go_on, isnew', w') =
      one_record e p (suc k) mem stop grec mca (get_record e p (suc k) mca isnew w) in
    let rest =
      records e p k mem stop (grec + 20 + ntohs_at mem (grec + 2) * 16 + mem (grec + 1)) isnew'
        w' in
    if ltb stop grec || not (is_known_type (mem grec)) then w else if go_on then rest else w'

-- The message stands at `off`; `plen` is its length.
unfoldable pub mld2_report : Env → ℕ → Memory → ℕ → ℕ → World → World
mld2_report e p mem off plen w =
    let seen = int_set_mld_version e p 2 w in
    let ngrec = ntohs_at mem (off + 6) in
    if ltb plen (8 + ngrec * 20)
    then seen
    else records e p ngrec mem (off + plen) (off + 8) false seen

-- The loops of a version 1 answer: a report for each interface of a group that is the querying
-- one.
unfoldable pub answer_grpints : Env → ℕ → In6Addr → List GrpIntNode → World → World
answer_grpints e p mca [] w = w
answer_grpints e p mca (g ∷ gs) w =
    answer_grpints e p mca gs
      (if g.ifindex == (int_at w.conf.ints p).ifindex then mld_send_report e p mca w else w)

unfoldable pub answer_groups : Env → ℕ → List GroupNode → World → World
answer_groups e p [] w = w
answer_groups e p (g ∷ gs) w = answer_groups e p gs (answer_grpints e p g.mca g.interfaces.items w)

-- A message of 24 bytes is a version 1 query.
unfoldable pub mld_query : Env → ℕ → ℕ → World → World
mld_query e p plen w =
    let seen = int_set_mld_version e p (if plen == 24 then 1 else 2) w in
    let c = seen.conf in
    let version = (int_at c.ints p).mld_version in
    if not c.mld2only && (c.mld1only || version == 0 || version == 1)
    then answer_groups e p c.groups.items seen
    else if not c.mld1only && (c.mld2only || version == 2)
    then mld2_send_report e p none seen
    else seen
