-- ===== src/Tests.antt =====
-- Runs of the model of src/ecmh.c, and its theorems at concrete inputs. The network has the
-- interfaces 1 and 2, and on interface 2 a listener to the group ff05::1:3.
pub mod Registry
pub mod Packets
pub mod Dumps
pub mod Reports
pub mod Bpf
pub mod Liveness
pub mod Lists
pub mod Start
use ecmh.Prelude.{ℕ, Bool, true, false, Option, none, some, List, [], ◌∷◌, pos}
use ecmh.Addr.{In6Addr}
use ecmh.LinkList.{LinkedList}
use ecmh.Subscr.{SubscrNode}
use ecmh.GrpInt.{GrpIntNode, Alloc}
use ecmh.Groups.{GroupNode}
use ecmh.Conf.{IntNode, Conf, World, Env, IfInfo, sent, int_zero}

-- ff05::1:3, 2001:db8::1 and fe80::1.
abbrev pub site_group : In6Addr
site_group = 0xff050000000000000000000000010003

abbrev pub speaker : In6Addr
speaker = 0x20010db8000000000000000000000001

abbrev pub neighbour : In6Addr
neighbour = 0xfe800000000000000000000000000001

-- `calloc` succeeds.
abbrev pub full : Alloc
full = record {
  group = true;
  group_link = true;
  grpint = true;
  grpint_link = true;
  subscr = true;
  subscr_link = true;
}

abbrev pub ether : IfInfo
ether = record { socket = true; name = some (101 ∷ 49 ∷ []); mtu = some 1500; hwaddr = some 1 }

-- The system at 1000 seconds: all calls succeed, but `getifaddrs` tells nothing.
abbrev pub calm : Env
calm = record {
  now = 1000;
  alloc = λ k n. full;
  sendto = λ fs f. sent;
  ifinfo = λ i. ether;
  getifaddrs = none;
  stack = λ k. 0;
}

abbrev pub eth : ℕ → IntNode
eth k = record int_zero {
  ifindex = k;
  mtu = 1500;
  hwaddr = 1;
  linklocal = 0xfe800000000000000000000000000100;
}

abbrev pub listener : ℕ → SubscrNode
listener t = record { ipv6 = 0; mode = 1; refreshtime = t }

-- The subscriptions of interface 2, refreshed at this time.
abbrev pub on_two : ℕ → GrpIntNode
on_two t = record { ifindex = 2; subscriptions = record { items = listener t ∷ []; count = pos 1 } }

abbrev pub site : ℕ → GroupNode
site t = record {
  mca = site_group;
  interfaces = record { items = on_two t ∷ []; count = pos 1 };
  lastforward = t;
  bytes = 0;
  packets = 0;
}

abbrev pub registry : ℕ → LinkedList GroupNode
registry t = record { items = site t ∷ []; count = pos 1 }

abbrev pub network : LinkedList GroupNode → World
network groups = record {
  conf = record {
    ints = int_zero ∷ eth 1 ∷ eth 2 ∷ [];
    groups = groups;
    upstream = none;
    upstream_id = 0;
    daemonize = true;
    verbose = false;
    quit = false;
    mld1only = false;
    mld2only = false;
    promisc = false;
    last_update = 900;
    stat_starttime = 0;
    stat_packets_received = 0;
    stat_packets_sent = 0;
    stat_bytes_received = 0;
    stat_bytes_sent = 0;
    stat_icmp_received = 0;
    stat_icmp_sent = 0;
    stat_hlim_exceeded = 0;
  };
  wire = [];
  overrun = false;
}
