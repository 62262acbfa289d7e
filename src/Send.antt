-- ===== src/Send.antt =====
-- `sendpacket6` and `icmp6_send` of src/ecmh.c.
use ecmh.Prelude.{ℕ, ◌+◌, ◌-◌, ◌%◌, ◌^◌, ◌&&◌, leb, ltb, add64, List, [], ◌∷◌, ◌++◌, if◌then◌else◌}
use ecmh.Addr.{In6Addr}
use ecmh.Memory.{Memory, read_bytes, write_bytes, memory_of, be16, le16, addr_bytes}
use ecmh.Checksum.{ipv6_checksum}
use ecmh.Conf.{IntNode, Frame, World, sent, no_device, failed, Env, int_at, with_conf, put_int}
use ecmh.Interfaces.{int_destroy}

-- The Ethernet address of a multicast destination (RFC 2464), whose bytes 12 to 15 stand at 36.
abbrev pub multicast_mac : Memory → List ℕ
multicast_mac iph = 0x33 ∷ 0x33 ∷ iph 36 ∷ iph 37 ∷ iph 38 ∷ iph 39 ∷ []

abbrev pub frame_of : IntNode → Memory → ℕ → Frame
frame_of i iph len = record {
  ifindex = i.ifindex;
  hatype = i.hwaddr;
  mac = multicast_mac iph;
  bytes = read_bytes iph 0 len;
}

-- The counters after a packet went out.
abbrev pub count_sent : ℕ → ℕ → World → World
count_sent p len w =
    let c = w.conf in
    let i = int_at c.ints p in
    put_int
      (with_conf w (record c {
        stat_packets_sent = add64 c.stat_packets_sent 1;
        stat_bytes_sent = add64 c.stat_bytes_sent len;
      }))
      p
      (record i {
        stat_bytes_sent = add64 i.stat_bytes_sent len;
        stat_packets_sent = add64 i.stat_packets_sent 1;
      })

-- `iph` is the memory from the IPv6 header on; `len` is a `uint16_t`.
unfoldable pub sendpacket6 : Env → ℕ → Memory → ℕ → World → World
sendpacket6 e p iph len w =
    let frame = frame_of (int_at w.conf.ints p) iph len in
    let w' = record w { wire = w.wire ++ frame ∷ [] } in
    elim (e.sendto w.wire frame) [
      | sent ↦ count_sent p len w'
      | no_device ↦ int_destroy p w'
      | failed ↦ w'
    ]

-- The counters after an ICMPv6 message was handed on.
unfoldable pub count_icmp_sent : ℕ → World → World
count_icmp_sent p w =
    let c = w.conf in
    let i = int_at c.ints p in
    put_int (with_conf w (record c { stat_icmp_sent = add64 c.stat_icmp_sent 1 })) p
      (record i { stat_icmp_sent = add64 i.stat_icmp_sent 1 })

-- The IPv6 header: version, payload length, next header, hop limit, source and destination.
abbrev pub ip6_header : ℕ → ℕ → ℕ → In6Addr → In6Addr → List ℕ
ip6_header plen nxt hlim src dst =
    0x60 ∷ 0 ∷ 0 ∷ 0 ∷ be16 plen ++ (nxt ∷ hlim ∷ addr_bytes 16 src ++ addr_bytes 16 dst)

-- The packet of `icmp6_send` takes 1548 bytes; past them lies the stack.
abbrev icmp6_packet_size : ℕ
icmp6_packet_size = 1548

abbrev icmp6_data_size : ℕ
icmp6_data_size = 1500

-- The packet but for its checksum. At most 1500 bytes of data are copied, to place 44.
abbrev icmp6_packet : Env → IntNode → In6Addr → ℕ → ℕ → Memory → ℕ → Memory
icmp6_packet e i src type code payload dlen =
    let header = ip6_header ((dlen + 4) % 2 ^ 16) 58 64 i.global src ++ (type ∷ code ∷ []) in
    let copied = if ltb dlen icmp6_data_size then dlen else icmp6_data_size in
    λ k.
      if ltb k icmp6_packet_size
      then (if leb 44 k && ltb k (44 + copied) then payload (k - 44) else memory_of header k)
      else e.stack k

-- `dlen` is an `unsigned int`; lengths are cut to 16 bits.
unfoldable pub icmp6_send : Env → ℕ → In6Addr → ℕ → ℕ → Memory → ℕ → World → World
icmp6_send e p src type code payload dlen w =
    let bare = icmp6_packet e (int_at w.conf.ints p) src type code payload dlen in
    let csum = ipv6_checksum bare 0 58 40 ((dlen + 4) % 2 ^ 16) in
    count_icmp_sent p (sendpacket6 e p (write_bytes bare 42 (le16 csum)) ((dlen + 44) % 2 ^ 16) w)
