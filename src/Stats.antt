-- ===== src/Stats.antt =====
-- `sigusr1` of src/ecmh.c, which dumps the state to the file of statistics. A line is the format
-- and the arguments that `fprintf` is given, with PRIu64 and PRIi64 as on 64-bit Linux; addresses
-- and times are shown as the numbers behind them.
pub mod Time
pub mod Count
use Prim.Native.String.{String}
use ecmh.Prelude.{
  ℕ, zero, suc, ◌+◌, ◌-◌, ◌*◌, ◌/◌, ◌%◌, ◌^◌, ◌==◌, leb, Option, none, some, List, [], ◌∷◌, ◌++◌, ℤ,
  length, if◌then◌else◌,
}
use ecmh.Addr.{In6Addr}
use ecmh.LinkList.{LinkedList}
use ecmh.Subscr.{SubscrNode, mode_is_include}
use ecmh.GrpInt.{GrpIntNode}
use ecmh.Groups.{GroupNode, subscription_timeout, robustness_factor}
use ecmh.Conf.{IntNode, Conf, int_at}
use ecmh.Interfaces.{int_find}

-- `time` stands for `strftime` of a time, `addr` for `inet_ntop` of an address.
pub data Arg : Type 0 where
  num : ℕ → Arg
  int : ℤ → Arg
  bytes : List ℕ → Arg
  text : String → Arg
  addr : In6Addr → Arg
  time : ℕ → Arg

pub record Line : Type 0 where
  pub format : String
  pub args : List Arg

-- The file so far and the local counters, which are `unsigned int`.
pub record Dump : Type 0 where
  pub file : List Line
  pub subscriptions : ℕ
  pub count : ℕ

abbrev pub fprintf : String → List Arg → Dump → Dump
fprintf format args d = record d { file = d.file ++ record { format = format; args = args } ∷ [] }

-- `uint64_t` and `unsigned int`: the difference is taken modulo 2^64 and then cut.
abbrev pub elapsed : ℕ → ℕ → ℕ
elapsed now then' = (now + 2 ^ 64 - then') % 2 ^ 64 % 2 ^ 32

-- `int d`, printed as unsigned. A negative one becomes `-i`, where `i` is the signal.
unfoldable pub seconds_old : ℕ → ℕ → ℕ → ℕ
seconds_old i now refreshtime =
    if leb (2 ^ 31) (elapsed now refreshtime)
    then (2 ^ 32 - i) % 2 ^ 32
    else elapsed now refreshtime

-- The days, hours, minutes and seconds of an uptime.
pub record Uptime : Type 0 where
  pub d : ℕ
  pub h : ℕ
  pub m : ℕ
  pub s : ℕ

unfoldable pub uptime : ℕ → ℕ → Uptime
uptime now starttime =
    let s0 = elapsed now starttime in
    let d = s0 / (24 * 60 * 60) in
    let s1 = s0 - d * 24 * 60 * 60 in
    let h = s1 / (60 * 60) in
    let s2 = s1 - h * 60 * 60 in let m = s2 / 60 in record { d = d; h = h; m = m; s = s2 - m * 60 }

-- The loop over the subscriptions of an interface, and its body.
abbrev pub dump_subscr : ℕ → ℕ → SubscrNode → Dump → Dump
dump_subscr i now s d =
    let line =
      fprintf "\t\t%s %s (%u seconds old)\n"
        (addr s.ipv6
          ∷ text (if s.mode == mode_is_include then "INCLUDE" else "EXCLUDE")
          ∷ num (seconds_old i now s.refreshtime)
          ∷ [])
        d in
    record line { subscriptions = (line.subscriptions + 1) % 2 ^ 32 }

unfoldable pub dump_subscrs : ℕ → ℕ → List SubscrNode → Dump → Dump
dump_subscrs i now [] d = d
dump_subscrs i now (s ∷ ss) d = dump_subscrs i now ss (dump_subscr i now s d)

abbrev pub grpint_head : IntNode → GrpIntNode → Dump → Dump
grpint_head intn g d =
    fprintf "\tInterface: %s (%li)\n" (bytes intn.name ∷ int g.subscriptions.count ∷ []) d

-- The interface of a group, if it is in use.
abbrev pub dump_grpint : Conf → ℕ → ℕ → GrpIntNode → Dump → Option ℕ → Dump
dump_grpint c i now g d none = d
dump_grpint c i now g d (some p) =
    dump_subscrs i now g.subscriptions.items (grpint_head (int_at c.ints p) g d)

unfoldable pub dump_grpints : Conf → ℕ → ℕ → List GrpIntNode → Dump → Dump
dump_grpints c i now [] d = d
dump_grpints c i now (g ∷ gs) d =
    dump_grpints c i now gs (dump_grpint c i now g d (int_find c g.ifindex))

abbrev pub group_head : GroupNode → Dump → Dump
group_head g d =
    fprintf "\tPackets: %lu\n" (num g.packets ∷ [])
      (fprintf "\tBytes  : %lu\n" (num g.bytes ∷ []) (fprintf "Group : %s\n" (addr g.mca ∷ []) d))

abbrev pub dump_group : Conf → ℕ → ℕ → GroupNode → Dump → Dump
dump_group c i now g d = fprintf "\n" [] (dump_grpints c i now g.interfaces.items (group_head g d))

unfoldable pub dump_groups : Conf → ℕ → ℕ → List GroupNode → Dump → Dump
dump_groups c i now [] d = d
dump_groups c i now (g ∷ gs) d = dump_groups c i now gs (dump_group c i now g d)

-- `ARPHRD_ETHER` and `ARPHRD_SIT`.
abbrev pub hatype_name : ℕ → String
hatype_name t = if t == 1 then "Ethernet" else if t == 776 then "sit" else "Unknown"

abbrev pub dump_version : ℕ → Dump → Dump
dump_version v d =
    if v == 0
    then fprintf "  MLD version            : none\n" [] d
    else fprintf "  MLD version            : v%lu\n" (num v ∷ []) d

-- The lines of one interface.
abbrev pub dump_int : IntNode → Dump → Dump
dump_int i d0 =
    let d1 = fprintf "Interface: %s\n" (bytes i.name ∷ []) d0 in
    let d2 = fprintf "  Index number           : %lu\n" (num i.ifindex ∷ []) d1 in
    let d3 = fprintf "  MTU                    : %lu\n" (num i.mtu ∷ []) d2 in
    let d4 =
      fprintf "  Interface Type         : %s (%lu)\n"
        (text (hatype_name i.hwaddr) ∷ num i.hwaddr ∷ []) d3 in
    let d5 = fprintf "  Link-local address     : %s\n" (addr i.linklocal ∷ []) d4 in
    let d6 =
      dump_version i.mld_version
        (fprintf "  Global unicast address : %s\n" (addr i.global ∷ []) d5) in
    let d7 = fprintf "  Packets received       : %lu\n" (num i.stat_packets_received ∷ []) d6 in
    let d8 = fprintf "  Packets sent           : %lu\n" (num i.stat_packets_sent ∷ []) d7 in
    let d9 = fprintf "  Bytes received         : %lu\n" (num i.stat_bytes_received ∷ []) d8 in
    let d10 = fprintf "  Bytes sent             : %lu\n" (num i.stat_bytes_sent ∷ []) d9 in
    let d11 = fprintf "  ICMP's received        : %lu\n" (num i.stat_icmp_received ∷ []) d10 in
    fprintf "\n" [] (fprintf "  ICMP's sent            : %lu\n" (num i.stat_icmp_sent ∷ []) d11)

-- The loop over the interfaces; those that are not in use are passed over.
abbrev pub dump_in_use : IntNode → Dump → Dump
dump_in_use i d = if i.mtu == 0 then d else dump_int i (record d { count = (d.count + 1) % 2 ^ 32 })

unfoldable pub dump_ints : List IntNode → Dump → Dump
dump_ints [] d = d
dump_ints (i ∷ is') d = dump_ints is' (dump_in_use i d)

-- The statistics of the program, with its version and git hash.
abbrev dump_conf : String → String → ℕ → Conf → Dump → Dump
dump_conf version githash now c d0 =
    let u = uptime now c.stat_starttime in
    let d1 = fprintf "\n" [] (fprintf "*** Statistics Dump\n" [] d0) in
    let d2 = fprintf "Version              : ecmh %s\n" (text version ∷ []) d1 in
    let d3 = fprintf "Git Hash             : %s\n" (text githash ∷ []) d2 in
    let d4 = fprintf "Started              : %s GMT\n" (time c.stat_starttime ∷ []) d3 in
    let d5 =
      fprintf "Uptime               : %u days %02u:%02u:%02u\n"
        (num u.d ∷ num u.h ∷ num u.m ∷ num u.s ∷ []) d4 in
    let d6 = fprintf "Interfaces Monitored : %u\n" (num d0.count ∷ []) (fprintf "\n" [] d5) in
    let d7 = fprintf "Groups Managed       : %li\n" (int c.groups.count ∷ []) d6 in
    let d8 = fprintf "Total Subscriptions  : %u\n" (num d0.subscriptions ∷ []) d7 in
    let d9 = fprintf "v2 Robustness Factor : %u\n" (num robustness_factor ∷ []) d8 in
    let d10 =
      fprintf "Subscription Timeout : %u\n" (num (subscription_timeout * robustness_factor) ∷ [])
        d9 in
    let d11 =
      fprintf "Packets Received     : %lu\n" (num c.stat_packets_received ∷ [])
        (fprintf "\n" [] d10) in
    let d12 = fprintf "Packets Sent         : %lu\n" (num c.stat_packets_sent ∷ []) d11 in
    let d13 = fprintf "Bytes Received       : %lu\n" (num c.stat_bytes_received ∷ []) d12 in
    let d14 = fprintf "Bytes Sent           : %lu\n" (num c.stat_bytes_sent ∷ []) d13 in
    let d15 = fprintf "ICMP's received      : %lu\n" (num c.stat_icmp_received ∷ []) d14 in
    let d16 = fprintf "ICMP's sent          : %lu\n" (num c.stat_icmp_sent ∷ []) d15 in
    let d17 = fprintf "Hop Limit Exceeded   : %lu\n" (num c.stat_hlim_exceeded ∷ []) d16 in
    fprintf "*** Statistics Dump (end)\n" [] (fprintf "\n" [] d17)

abbrev pub dump_start : Dump → Dump
dump_start d = fprintf "\n" [] (fprintf "*** Subscription Information Dump\n" [] d)

abbrev pub ints_start : Dump → Dump
ints_start d = fprintf "\n" [] (fprintf "*** Interface Dump\n" [] d)

-- The groups, then the interfaces.
abbrev pub dump_all_groups : ℕ → ℕ → Conf → Dump → Dump
dump_all_groups i now c d0 =
    let d2 = dump_groups c i now c.groups.items (dump_start d0) in
    let d3 =
      fprintf "*** Subscription Information Dump (end - %li groups, %u subscriptions)\n"
        (int c.groups.count ∷ num d2.subscriptions ∷ []) d2 in
    fprintf "\n" [] d3

abbrev pub dump_all_ints : Conf → Dump → Dump
dump_all_ints c d0 =
    let d1 = dump_ints c.ints (ints_start d0) in
    fprintf "\n" [] (fprintf "*** Interface Dump (end - %u interfaces)\n" (num d1.count ∷ []) d1)

-- What the file holds after the signal `i`. It is truncated first.
unfoldable pub sigusr1 : String → String → ℕ → ℕ → Conf → Dump
sigusr1 version githash i now c =
    let clear : Dump = record { file = []; subscriptions = 0; count = 0 } in
    dump_conf version githash now c (dump_all_ints c (dump_all_groups i now c clear))
