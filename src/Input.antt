-- ===== src/Input.antt =====
-- The way of a packet through src/ecmh.c: `handleinterfaces`, `l2_ethtype`, `l3_ipv6` and
-- `l4_ipv6_icmpv6`, on Linux. Without ECMH_SUPPORT_IPV4 and ECMH_BPF, `l3_ipv4` does nothing.
pub mod Headers
pub mod Unchecked
pub mod Stored
use ecmh.Prelude.{
  ℕ, zero, suc, ◌+◌, ◌-◌, ◌*◌, ◌%◌, ◌^◌, Bool, true, false, not, ◌&&◌, ◌||◌, ◌==◌, ltb, add64,
  Option, none, some, [], ◌∷◌, if◌then◌else◌,
}
use ecmh.Addr.{is_addr_multicast, is_addr_linklocal, addr_at, addr_from}
use ecmh.Memory.{Memory, write_bytes, le16, ntohs_at, word_at}
use ecmh.Checksum.{ipv6_checksum}
use ecmh.Conf.{Conf, World, Env, int_at, with_conf, put_int}
use ecmh.Interfaces.{int_find, int_create}
use ecmh.Interfaces.Update.{update_interfaces}
use ecmh.Send.{icmp6_send}
use ecmh.Mld.Listen.{mld1_report, mld1_reduction, mld2_report, mld_query}
use ecmh.Forward.{l4_ipv6_multicast}

abbrev pub is_report2_type : ℕ → Bool
is_report2_type t = t == 143 || t == 206

abbrev pub is_handled_type : ℕ → Bool
is_handled_type t = t == 131 || t == 132 || is_report2_type t || t == 130 || t == 128

-- The counters of a message that came in.
abbrev pub count_icmp_received : ℕ → World → World
count_icmp_received p w =
    let c = w.conf in
    let i = int_at c.ints p in
    put_int (with_conf w (record c { stat_icmp_received = add64 c.stat_icmp_received 1 })) p
      (record i { stat_icmp_received = add64 i.stat_icmp_received 1 })

abbrev pub count_hlim : World → World
count_hlim w =
    with_conf w (record w.conf { stat_hlim_exceeded = add64 w.conf.stat_hlim_exceeded 1 })

-- The hop limit stands at 7; it goes down, but not below 0.
unfoldable pub lower_hlim : Memory → Memory
lower_hlim mem = if ltb 0 (mem 7) then write_bytes mem 7 ((mem 7 - 1) ∷ []) else mem

-- The switch over the MLD messages.
abbrev pub mld_message : Env → ℕ → Memory → ℕ → ℕ → World → World
mld_message e p mem off plen w =
    if mem off == 131
    then mld1_report e p (addr_at mem (off + 8)) w
    else if mem off == 132
    then mld1_reduction e p (addr_at mem (off + 8)) w
    else if is_report2_type (mem off)
    then mld2_report e p mem off plen w
    else if mem off == 130
    then mld_query e p plen w
    else w

-- An echo request. The answer to one whose hop limit ran out is of type 129, ICMP6_ECHO_REPLY.
abbrev pub echo_request : Env → ℕ → Memory → ℕ → ℕ → ℕ → World → World
echo_request e p mem len off plen w =
    if lower_hlim mem 7 == 0
    then icmp6_send e p (addr_at mem 8) 129 0 (λ k. mem (off + 4 + k))
        ((plen + 2 ^ 32 - 4) % 2 ^ 32) (count_hlim w)
    else l4_ipv6_multicast e p (lower_hlim mem) len w

-- The message at `off` with its checksum, at `off + 2`, cleared and computed anew.
abbrev pub with_checksum : Memory → ℕ → ℕ → Memory
with_checksum mem off plen =
    let cleared = write_bytes mem (off + 2) (0 ∷ 0 ∷ []) in
    write_bytes cleared (off + 2) (le16 (ipv6_checksum cleared 0 58 off plen))

-- The packet stands at 0 with `len` bytes, the message at `off` with `plen`. A checksum that was
-- wrong is logged, and the message is handled all the same.
unfoldable pub l4_ipv6_icmpv6 : Env → ℕ → Memory → ℕ → ℕ → ℕ → World → World
l4_ipv6_icmpv6 e p mem len off plen w =
    let counted = count_icmp_received p w in
    let summed = with_checksum mem off plen in
    if not (is_handled_type (mem off))
    then counted
    else if summed off == 128
    then echo_request e p summed len off plen counted
    else if not (is_addr_linklocal (addr_at summed 8))
    then counted
    else mld_message e p summed off plen counted

-- The result of the loop over the headers: the type, the place and the length of what follows.
pub data Walk : Type 0 where
  payload : ℕ → ℕ → ℕ → Walk
  corrupt : Walk
  out_of_fuel : Walk

-- `IPPROTO_HOPOPTS`, `IPPROTO_ROUTING`, `IPPROTO_DSTOPTS` and `IPPROTO_AH`.
abbrev pub is_extension : ℕ → Bool
is_extension t = t == 0 || t == 43 || t == 60 || t == 51

-- The loop. Each round goes on by at least 8 bytes: `walk-IsPlaced`.
unfoldable pub walk : ℕ → Memory → ℕ → ℕ → ℕ → ℕ → Walk
walk zero mem len type off plen = out_of_fuel
walk (suc fuel) mem len type off plen =
    let l = mem (off + 1) * 8 + 8 in
    let rest = walk fuel mem len (mem off) (off + l) ((plen + 2 ^ 16 * 256 - l) % 2 ^ 16) in
    if is_extension type
    then (if ltb len (off + l) then corrupt else rest)
    else payload type off plen

-- From the end of the headers on.
abbrev pub l3_payload : Env → ℕ → Memory → ℕ → World → Walk → World
l3_payload e p mem len w out_of_fuel = w
l3_payload e p mem len w corrupt = w
l3_payload e p mem len w (payload type off plen) =
    if type == 58
    then l4_ipv6_icmpv6 e p mem len off plen w
    else if lower_hlim mem 7 == 0
    then count_hlim w
    else l4_ipv6_multicast e p (lower_hlim mem) len w

-- `len` is the length of the packet; the fuel is one round for each byte.
unfoldable pub l3_ipv6 : Env → ℕ → Memory → ℕ → World → World
l3_ipv6 e p mem len w =
    let i = int_at w.conf.ints p in
    let src = addr_at mem 8 in
    if not (is_addr_multicast (addr_at mem 24)) || src == i.linklocal || src == i.global
    then w
    else l3_payload e p mem len w (walk (suc len) mem len (mem 6) 40 (ntohs_at mem 4))

abbrev pub eth_p_ipv6 : ℕ
eth_p_ipv6 = 0x86dd

unfoldable pub l2_ethtype : Env → ℕ → Memory → ℕ → ℕ → World → World
l2_ethtype e p mem len ether_type w =
    if ether_type == eth_p_ipv6 then l3_ipv6 e p mem (len % 2 ^ 16) w else w

-- What `recvfrom` returns: an error, or a packet with its interface, the hardware type, whether it
-- is outgoing, and the protocol.
pub record Received : Type 0 where
  pub ifindex : ℕ
  pub hatype : ℕ
  pub outgoing : Bool
  pub protocol : ℕ
  pub len : ℕ
  pub mem : Memory

-- A new interface gets its addresses.
abbrev pub created : Env → Option ℕ × World → Option ℕ × World
created e (none, w) = (none, w)
created e (some p, w) = (some p, update_interfaces e (some p) w)

-- The interface that a packet came in on, made if it is not known.
abbrev pub find_or_create : Env → ℕ → World → Option ℕ → Option ℕ × World
find_or_create e ifindex w (some p) = (some p, w)
find_or_create e ifindex w none = created e (int_create e ifindex w)

abbrev pub handle_on : Env → Received → Option ℕ × World → World
handle_on e r (none, w) = w
handle_on e r (some p, w) =
    let i = int_at w.conf.ints p in
    l2_ethtype e p r.mem r.len r.protocol (
      put_int w p (record i {
        stat_packets_received = add64 i.stat_packets_received 1;
        stat_bytes_received = add64 i.stat_bytes_received r.len;
      }))

-- The first part of the result is the one of the function.
unfoldable pub handleinterfaces : Env → Option Received → World → Bool × World
handleinterfaces e none w = (false, w)
handleinterfaces e (some r) w =
    let c = w.conf in
    let counted = with_conf w (record c {
      stat_packets_received = add64 c.stat_packets_received 1;
      stat_bytes_received = add64 c.stat_bytes_received r.len;
    }) in
    if r.hatype == 772 || r.outgoing
    then (true, w)
    else (true, handle_on e r (find_or_create e r.ifindex counted (int_find c r.ifindex)))
