-- ===== src/Bpf/Write.antt =====
-- What `sendpacket6` of src/ecmh.c hands to `writev`, with ECMH_BPF.
pub mod Laws
use ecmh.Prelude.{
  ℕ, ◌+◌, ◌-◌, ◌*◌, ◌/◌, ◌%◌, ◌^◌, Bool, not, ◌||◌, ◌==◌, Option, none, some, List, [], ◌∷◌, ◌++◌,
  get_or, if◌then◌else◌,
}
use ecmh.Memory.{Memory, memory_of, read_bytes, be16, le16, addr_bytes}
use ecmh.Checksum.{inchksum, finish}
use ecmh.Send.{multicast_mac}
use ecmh.Bpf.{BpfInt, BpfConf, bpf_at}

-- `struct ether_header`, with no source.
abbrev pub ether_header : Memory → ℕ → List ℕ
ether_header iph ether_type = multicast_mac iph ++ (0 ∷ 0 ∷ 0 ∷ 0 ∷ 0 ∷ 0 ∷ be16 ether_type)

-- `struct ip`: version 4 and 20 bytes of header, identification 42, TTL 100 and protocol 41.
unfoldable pub proto41_header : ℕ → ℕ → ℕ → ℕ → List ℕ
proto41_header len src dst csum =
    0x45 ∷ 0 ∷ be16 (len + 20)
    ++ (be16 42 ++ (0 ∷ 0 ∷ 100 ∷ 41 ∷ le16 csum ++ (addr_bytes 4 src ++ addr_bytes 4 dst)))

-- The checksum of the header whose checksum is 0. `finish` is what `ipv6_checksum` ends with.
abbrev pub proto41_checksum : ℕ → ℕ → ℕ → ℕ
proto41_checksum len src dst = finish (inchksum (memory_of (proto41_header len src dst 0)) 0 20)

-- The socket and the bytes.
abbrev pub write_native : BpfInt → Memory → ℕ → Option ℕ × List ℕ
write_native i iph len = (i.socket, ether_header iph 0x86dd ++ read_bytes iph 0 len)

abbrev pub write_tunnel : BpfInt → BpfInt → Memory → ℕ → Option ℕ × List ℕ
write_tunnel i master iph len =
    let src = get_or i.ipv4_local 0 0 in
    let ip = proto41_header len src i.ipv4_remote (proto41_checksum len src i.ipv4_remote) in
    (master.socket, ether_header iph 0x0800 ++ (ip ++ read_bytes iph 0 len))

-- The interface at `p` sends the packet.
abbrev pub writev_of : BpfConf → ℕ → Memory → ℕ → Option ℕ × List ℕ
writev_of c p iph len =
    let i = bpf_at c.ints p in
    if not c.tunnelmode then write_native i iph len else elim i.master [
      | none ↦ write_native i iph len
      | some q ↦ write_tunnel i (bpf_at c.ints q) iph len
    ]
