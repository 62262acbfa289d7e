-- ===== src/Mld/Query.antt =====
-- `mld_send_query` and `send_mld_querys` of src/ecmh.c.
use ecmh.Prelude.{ℕ, zero, suc, ◌+◌, ◌-◌, ◌==◌, List, [], ◌∷◌, ◌++◌, length, if◌then◌else◌}
use ecmh.Addr.{In6Addr, addr_any}
use ecmh.Memory.{memory_of, be16, le16, addr_bytes}
use ecmh.Checksum.{ipv6_checksum}
use ecmh.Groups.{subscription_timeout, robustness_factor}
use ecmh.Conf.{Conf, World, Env, int_at}
use ecmh.Send.{sendpacket6, count_icmp_sent, ip6_header}

-- The hop-by-hop header with the router alert option for MLD, and its padding.
abbrev pub router_alert : List ℕ
router_alert = 58 ∷ 0 ∷ 5 ∷ 2 ∷ 0 ∷ 0 ∷ 1 ∷ 0 ∷ []

-- ff02::1, all nodes, and ff02::16, all MLDv2 routers.
abbrev pub all_nodes : In6Addr
all_nodes = 0xff020000000000000000000000000001

abbrev pub all_mld2_routers : In6Addr
all_mld2_routers = 0xff020000000000000000000000000016

-- `struct mld1`: type, code, checksum, delay, reserved word and group.
abbrev pub mld1_bytes : ℕ → ℕ → ℕ → In6Addr → List ℕ
mld1_bytes type csum mrc mca = type ∷ 0 ∷ le16 csum ++ (be16 mrc ++ (0 ∷ 0 ∷ addr_bytes 16 mca))

-- The end of `struct mld2_query`: robustness without the suppress bit, query interval, no sources.
abbrev pub mld2_query_end : List ℕ
mld2_query_end = robustness_factor ∷ subscription_timeout ∷ 0 ∷ 0 ∷ []

-- The packet of a query with this checksum. The version 1 query has no end.
unfoldable pub query_bytes : Conf → In6Addr → In6Addr → ℕ → List ℕ
query_bytes c linklocal mca csum =
    ip6_header (if c.mld1only then 32 else 36) 0 1 linklocal all_nodes
    ++ (router_alert
        ++ (mld1_bytes 130 csum 2000 mca ++ (if c.mld1only then [] else mld2_query_end)))

unfoldable pub mld_send_query : Env → ℕ → In6Addr → World → World
mld_send_query e p mca w =
    let i = int_at w.conf.ints p in
    let packetlen : ℕ = if w.conf.mld1only then 72 else 76 in
    let csum =
      ipv6_checksum (memory_of (query_bytes w.conf i.linklocal mca 0)) 0 58 48 (packetlen - 48) in
    if i.upstream
    then w
    else count_icmp_sent p
        (sendpacket6 e p (memory_of (query_bytes w.conf i.linklocal mca csum)) packetlen w)

-- The loop over the interfaces from place `p` on, `n` to go.
unfoldable pub query_from : Env → ℕ → ℕ → World → World
query_from e zero p w = w
query_from e (suc n) p w =
    query_from e n (p + 1)
      (if (int_at w.conf.ints p).mtu == 0 then w else mld_send_query e p addr_any w)

unfoldable pub send_mld_querys : Env → World → World
send_mld_querys e w = query_from e (length w.conf.ints) 0 w
