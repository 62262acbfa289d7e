-- ===== src/Conf.antt =====
-- src/ecmh.h and src/interfaces.h: the configuration with its counters, the interfaces, and what
-- the operating system answers. A pointer into `g_conf->ints` is the place in that array.
use ecmh.Prelude.{ℕ, Bool, Option, List, [], get_or, set}
use ecmh.Addr.{In6Addr}
use ecmh.LinkList.{LinkedList}
use ecmh.GrpInt.{Alloc}
use ecmh.Groups.{GroupNode}

-- `name` is the text as bytes; `hwaddr` is `hwaddr.sa_family`. `groupcount` is never used.
pub record IntNode : Type 0 where
  pub ifindex : ℕ
  pub name : List ℕ
  pub mtu : ℕ
  pub mld_version : ℕ
  pub mld_last_v1 : ℕ
  pub hwaddr : ℕ
  pub linklocal : In6Addr
  pub global : In6Addr
  pub stat_packets_received : ℕ
  pub stat_packets_sent : ℕ
  pub stat_bytes_received : ℕ
  pub stat_bytes_sent : ℕ
  pub stat_icmp_received : ℕ
  pub stat_icmp_sent : ℕ
  pub upstream : Bool

-- The array `ints` has `maxinterfaces` entries. `last_update` is the static variable of
-- `update_interfaces`.
pub record Conf : Type 0 where
  pub ints : List IntNode
  pub groups : LinkedList GroupNode
  pub upstream : Option (List ℕ)
  pub upstream_id : ℕ
  pub daemonize : Bool
  pub verbose : Bool
  pub quit : Bool
  pub mld1only : Bool
  pub mld2only : Bool
  pub promisc : Bool
  pub last_update : ℕ
  pub stat_starttime : ℕ
  pub stat_packets_received : ℕ
  pub stat_packets_sent : ℕ
  pub stat_bytes_received : ℕ
  pub stat_bytes_sent : ℕ
  pub stat_icmp_received : ℕ
  pub stat_icmp_sent : ℕ
  pub stat_hlim_exceeded : ℕ

-- What `sendto` is given: the interface, its hardware type, the link address and the bytes.
pub record Frame : Type 0 where
  pub ifindex : ℕ
  pub hatype : ℕ
  pub mac : List ℕ
  pub bytes : List ℕ

-- The configuration, the frames handed to `sendto` so far, oldest first, and whether a write went
-- past the end of an allocated packet.
pub record World : Type 0 where
  pub conf : Conf
  pub wire : List Frame
  pub overrun : Bool

-- `sent >= 0`, `ENXIO`, or another error.
pub data Outcome : Type 0 where
  sent no_device failed : Outcome

-- What the `ioctl`s of `int_create` return.
pub record IfInfo : Type 0 where
  pub socket : Bool
  pub name : Option (List ℕ)
  pub mtu : Option ℕ
  pub hwaddr : Option ℕ

-- An entry of `getifaddrs`, with its index by `if_nametoindex`.
pub data SockAddr : Type 0 where
  no_addr : SockAddr
  inet : ℕ → SockAddr
  inet6 : In6Addr → SockAddr
  packet : SockAddr
  other : ℕ → SockAddr

pub record IfAddr : Type 0 where
  pub index : ℕ
  pub addr : SockAddr
  pub loopback : Bool
  pub up : Bool
  pub running : Bool

-- The system, for one event: the clock, the results of `calloc` (for a record and a source of a
-- report), of `sendto` after a history of frames, of the `ioctl`s and of `getifaddrs`,
-- and the bytes of the stack past the packet of `icmp6_send`.
pub record Env : Type 0 where
  pub now : ℕ
  pub alloc : ℕ → ℕ → Alloc
  pub sendto : List Frame → Frame → Outcome
  pub ifinfo : ℕ → IfInfo
  pub getifaddrs : Option (List IfAddr)
  pub stack : ℕ → ℕ

-- An entry that `memzero` has cleared.
abbrev pub int_zero : IntNode
int_zero = record {
  ifindex = 0;
  name = [];
  mtu = 0;
  mld_version = 0;
  mld_last_v1 = 0;
  hwaddr = 0;
  linklocal = 0;
  global = 0;
  stat_packets_received = 0;
  stat_packets_sent = 0;
  stat_bytes_received = 0;
  stat_bytes_sent = 0;
  stat_icmp_received = 0;
  stat_icmp_sent = 0;
  upstream = Bool.false;
}

abbrev pub int_at : List IntNode → ℕ → IntNode
int_at ints p = get_or ints p int_zero

abbrev pub with_conf : World → Conf → World
with_conf w c = record w { conf = c }

-- A write through a pointer to an interface.
abbrev pub put_int : World → ℕ → IntNode → World
put_int w p i = record w { conf = record w.conf { ints = set w.conf.ints p i } }
