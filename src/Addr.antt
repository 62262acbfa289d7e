-- ===== src/Addr.antt =====
-- IPv6 addresses: `struct in6_addr` and the tests of <netinet/in.h> that the sources use.
use ecmh.Prelude.{ℕ, zero, suc, ◌+◌, ◌*◌, ◌/◌, ◌%◌, ◌^◌, ◌==◌, Bool, ◌&&◌}

-- The 16 bytes of an address as one number, the first byte on top.
abbrev pub In6Addr : Type 0
In6Addr = ℕ

-- `s6_addr[0]`, `s6_addr[1]`.
abbrev pub first_byte : In6Addr → ℕ
first_byte a = a / 2 ^ 120 % 256

abbrev pub second_byte : In6Addr → ℕ
second_byte a = a / 2 ^ 112 % 256

-- `IN6_ARE_ADDR_EQUAL`.
abbrev pub are_addr_equal : In6Addr → In6Addr → Bool
are_addr_equal a b = a == b

-- `in6addr_any`, `::`.
abbrev pub addr_any : In6Addr
addr_any = 0

-- `IN6_IS_ADDR_UNSPECIFIED`, `IN6_IS_ADDR_LOOPBACK`.
abbrev pub is_addr_unspecified : In6Addr → Bool
is_addr_unspecified a = a == 0

abbrev pub is_addr_loopback : In6Addr → Bool
is_addr_loopback a = a == 1

-- `IN6_IS_ADDR_MULTICAST`: ff00::/8.
unfoldable pub is_addr_multicast : In6Addr → Bool
is_addr_multicast a = first_byte a == 0xff

-- `IN6_IS_ADDR_LINKLOCAL`: fe80::/10.
unfoldable pub is_addr_linklocal : In6Addr → Bool
is_addr_linklocal a = first_byte a == 0xfe && second_byte a / 64 == 2

-- `IN6_IS_ADDR_MC_NODELOCAL` and `IN6_IS_ADDR_MC_LINKLOCAL`: the scope is the low half of the
-- second byte.
unfoldable pub is_addr_mc_nodelocal : In6Addr → Bool
is_addr_mc_nodelocal a = is_addr_multicast a && second_byte a % 16 == 1

unfoldable pub is_addr_mc_linklocal : In6Addr → Bool
is_addr_mc_linklocal a = is_addr_multicast a && second_byte a % 16 == 2

-- The address that stands in `n` bytes of a memory from `off` on.
unfoldable pub addr_from : (ℕ → ℕ) → ℕ → ℕ → ℕ → In6Addr
addr_from mem off zero acc = acc
addr_from mem off (suc n) acc = addr_from mem (off + 1) n (acc * 256 + mem off)

abbrev pub addr_at : (ℕ → ℕ) → ℕ → In6Addr
addr_at mem off = addr_from mem off 16 0
