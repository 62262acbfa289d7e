-- ===== src/Lib.antt =====
-- ecmh, the Easy Cast du Multi Hub: a multicast forwarder for IPv6 that listens for MLD messages
-- (versions 1 and 2), keeps a registry of the groups with listeners, forwards packets of a group to
-- the interfaces that asked for them, and reports the groups upstream. This library models the
-- daemon as it is built on Linux: with ECMH_SUPPORT_MLD2 and ECMH_GETIFADDR, without ECMH_BPF,
-- ECMH_SUPPORT_IPV4 and DEBUG, on a little-endian host. What only the BSDs compile, with ECMH_BPF,
-- is in modules of its own, under Bpf, with a state of its own.
--
-- The parts, from the bottom up:
--   Prelude      shared names, lists searched by a key, signed counters
--   Addr         IPv6 addresses as numbers, with the tests of <netinet/in.h>
--   Memory       packets in memory, words and addresses in them
--   Checksum     `inchksum` and `ipv6_checksum` of src/ecmh.c
--   LinkList     src/linklist.c: the entries of a list with its count; its child Heap has the nodes in
--                memory, linked by pointers, and the loops that free them
--   Subscr       src/subscr.c: a subscription to a source
--   GrpInt       src/grpint.c: the subscriptions of a group on one interface
--   Groups       src/groups.c: the registry of groups
--   Conf         src/ecmh.h and src/interfaces.h: the configuration, the interfaces, the world and
--                what the operating system answers (Env)
--   Interfaces   src/interfaces.c; its child Update is `update_interfaces` of src/ecmh.c, and ProcNet
--                the reading of /proc/net/if_inet6 there
--   Send         `sendpacket6` and `icmp6_send` of src/ecmh.c
--   Mld          Query, Report1, Report2 and Reports send; Listen receives, its children Failures,
--                Handed, Stored and Entries when `calloc` may fail, Writes and ReportWrites as what
--                the bytes of a report say; Room, Spill and Overrun have the
--                bounds of a version 2 report
--   Forward      `l4_ipv6_multicast`
--   Names        the tables of ICMPv6 types and codes, and `lookup`
--   Stats        `sigusr1`, the dump of statistics
--   Bpf          the sources for the BSDs: Open is `int_create_bpf`, Locals the local IPv4 addresses,
--                Write what `sendpacket6` writes, Read the loop over a buffer and the IPv4 tunnels,
--                Select the loop over the interfaces, Addresses an IPv4 address of `getifaddrs`
--   Timeout      `timeout`
--   Input        from `handleinterfaces` to the handlers
--   Main         `init`, the options, the signals and a round of the main loop; its child Begin is
--                `main` from the options to the loop, with src/common.c, and Shutdown is `main` as a
--                whole, with its end and the destructors
--   Invariant    the registry of groups in all states; its child Reachable has the step relation,
--                Liveness the rounds of the loop after an alarm, Runs the runs of `main`
--   Tests        the theorems at concrete inputs
--
-- State. A World is the configuration `g_conf`, the frames handed to `sendto` so far, and a mark for
-- a write past the end of a packet. Each function of the program is a function from World to World
-- of the same name, without the prefix `l4_ipv6_icmpv6_`. A pointer to an interface is its place in
-- `g_conf->ints`; a pointer to a group, an interface of a group or a subscription is its key. The
-- results of `calloc` for nodes, of `sendto`, of the `ioctl`s, of `getifaddrs` and the clock are
-- fields of Env, read once per event. The results of `calloc` for the lists themselves and for the
-- packets of reports, and of `realloc` for the interfaces, are taken to be memory: the code does not
-- check the first and ends the program without the others. Under Bpf the state is a BpfConf, with the
-- fields that only the BSDs have, and what the system answers is an argument.
--
-- Numbers are natural numbers; counters of 64 bits wrap around, and lengths of 16 and 32 bits are
-- cut where the code cuts them. The count of a list is a signed number that does not overflow, as
-- each entry takes memory.
--
-- Bounds. `walk`, the loop over the extension headers, has one round of fuel for each byte of the
-- packet and one more: each round goes on by 8 bytes or more, or ends. `fold_carries` has four rounds,
-- enough for each sum below 2^48, and 65535 bytes sum up to less. `read_loop`, over a BPF buffer, ends
-- within two rounds, and `handle_ints`, over the interfaces there, within one round for each and one
-- more. The loops over linked nodes have one round for each node. All other loops recurse on a list or on a number that the code counts down.
--
-- The start of `main` is the sequence of its calls of the system, with what they answer as a record
-- (Sys); what `setuid` and `setgid` do to the user and the group of the process is a parameter. The end
-- of `main` is the sequence of what it frees and closes. The events of a run, rounds and signals, are
-- the list of those that have come; behind its end the loop may go on.
--
-- Not modelled: the text of the log; with ECMH_BPF, `update_interfaces` as a whole, and what `l3_ipv6`
-- does to the configuration, which are arguments there, and the use of a buffer that was freed; `l4_ipv4_icmp`, which no build compiles; and tools/mtrace6 with src/trace.h, a copy
-- of the KAME project's program.
pub mod Prelude
pub mod Addr
pub mod Checksum
pub mod LinkList
pub mod Subscr
pub mod GrpInt
pub mod Groups
pub mod Conf
pub mod Interfaces
pub mod Memory
pub mod Send
pub mod Mld
pub mod Forward
pub mod Names
pub mod Stats
pub mod Bpf
pub mod Timeout
pub mod Input
pub mod Main
pub mod Invariant
pub mod Tests
