-- ===== src/Bpf/Read.antt =====
-- Packets that are read, in src/ecmh.c with ECMH_BPF: the loop over a buffer of `handleinterfaces`,
-- `l2_eth`, `l3_ipv4` and `l4_ipv4_proto41`.
pub mod Laws
use ecmh.Prelude.{
  ℕ, zero, suc, ◌+◌, ◌-◌, ◌*◌, ◌/◌, ◌%◌, ◌^◌, Bool, true, false, not, ◌&&◌, ◌||◌, ◌==◌, ltb, Option,
  none, some, List, [], ◌∷◌, if◌then◌else◌,
}
use ecmh.Memory.{Memory, ntohs_at}
use ecmh.Addr.{addr_from}
use ecmh.Bpf.{BpfInt, BpfConf}
use ecmh.Bpf.Locals.{int_find_ipv4, local_find}

-- `struct bpf_hdr` and BPF_WORDALIGN of the system: `bh_caplen` and `bh_hdrlen` of the header at a
-- place.
pub record BpfHeader : Type 0 where
  pub caplen : ℕ → ℕ
  pub hdrlen : ℕ → ℕ
  pub wordalign : ℕ → ℕ

-- The frames that the loop hands to `l2_eth`: their places and lengths. The end `ep` is computed
-- once, from the first header. The fuel is enough: `read_loop_lem`.
unfoldable pub read_loop : ℕ → BpfHeader → ℕ → ℕ → List (ℕ × ℕ)
read_loop zero h ep bp = []
read_loop (suc fuel) h ep bp =
    let rest = read_loop fuel h ep (bp + h.wordalign (h.caplen bp + h.hdrlen bp)) in
    if ltb bp ep then (bp + h.hdrlen bp, h.caplen bp) ∷ rest else []

abbrev pub frames_of : ℕ → BpfHeader → ℕ → List (ℕ × ℕ)
frames_of fuel h rbuffer = read_loop fuel h (rbuffer + h.caplen rbuffer) rbuffer

-- A packet for `l3_ipv6`: the place of its interface, its own place and its length.
pub record Packet : Type 0 where
  pub intn : ℕ
  pub off : ℕ
  pub len : ℕ

-- 192.88.99.1.
abbrev pub ipv4_6to4_relay : ℕ
ipv4_6to4_relay = 0xc0586301

abbrev pub ipv4_at : Memory → ℕ → ℕ
ipv4_at mem off = addr_from mem off 4 0

-- From the second search on.
abbrev pub to_tunnel : ℕ → ℕ → BpfConf → Option ℕ → Option Packet × BpfConf
to_tunnel off len c none = (none, c)
to_tunnel off len c (some tun) = (some (record { intn = tun; off = off; len = len }), c)

-- After the search for a local address. `update` is `update_interfaces`.
abbrev pub find_tunnel :
    (BpfConf → BpfConf) → ℕ → ℕ → ℕ → BpfConf → Option ℕ → Option Packet × BpfConf
find_tunnel update src off len c (some tun) = to_tunnel off len c (some tun)
find_tunnel update src off len c none =
    to_tunnel off len (update c) (int_find_ipv4 false src (update c))

-- `src` is the source of the IPv4 header; the payload stands at `off`.
unfoldable pub l4_ipv4_proto41 : (BpfConf → BpfConf) → ℕ → ℕ → ℕ → BpfConf → Option Packet × BpfConf
l4_ipv4_proto41 update src off len c =
    if not c.tunnelmode then (none, c) else elim (local_find src c) [
      | some l ↦ (none, c)
      | none ↦ find_tunnel update src off len c (int_find_ipv4 false src c)
    ]

-- The IPv4 header stands at `ip`; `len` is a `uint16_t`, and so is what is left of it.
unfoldable pub l3_ipv4 : (BpfConf → BpfConf) → Memory → ℕ → ℕ → BpfConf → Option Packet × BpfConf
l3_ipv4 update mem ip len c =
    let ip_v = mem ip / 16 in
    let ip_hl = mem ip % 16 in
    let src = ipv4_at mem (ip + 12) in
    let left = (len + 2 ^ 16 - 4 * ip_hl) % 2 ^ 16 in
    if not (ip_v == 4) || ltb ip_hl 5
    then (none, c)
    else if src == ipv4_6to4_relay || ipv4_at mem (ip + 16) == ipv4_6to4_relay
    then (none, c)
    else if mem (ip + 9) == 41
    then l4_ipv4_proto41 update src (ip + 4 * ip_hl) left c
    else (none, c)

-- `l2_eth` with `l2_ethtype`: ETH_P_IP and ETH_P_IPV6. `len` is an `unsigned int`, and so is what
-- is left of it; `l3_ipv4` and `l3_ipv6` take 16 bits.
unfoldable pub l2_eth : (BpfConf → BpfConf) → Memory → ℕ → ℕ → ℕ → BpfConf → Option Packet × BpfConf
l2_eth update mem p eth len c =
    let ether_type = ntohs_at mem (eth + 12) in
    let left = (len + 2 ^ 32 - 14) % 2 ^ 32 % 2 ^ 16 in
    if ether_type == 0x0800
    then l3_ipv4 update mem (eth + 14) left c
    else if ether_type == 0x86dd
    then (some (record { intn = p; off = eth + 14; len = left }), c)
    else (none, c)
