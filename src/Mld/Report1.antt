-- ===== src/Mld/Report1.antt =====
-- `mld1_send_report` of src/ecmh.c.
use ecmh.Prelude.{ℕ, List, ◌++◌}
use ecmh.Addr.{In6Addr}
use ecmh.Memory.{memory_of}
use ecmh.Checksum.{ipv6_checksum}
use ecmh.Conf.{World, Env, int_at}
use ecmh.Send.{sendpacket6, count_icmp_sent, ip6_header}
use ecmh.Mld.Query.{router_alert, mld1_bytes}

-- The packet of a report with this checksum.
unfoldable pub report1_bytes : In6Addr → In6Addr → ℕ → List ℕ
report1_bytes linklocal mca csum =
    ip6_header 32 0 1 linklocal mca ++ (router_alert ++ mld1_bytes 131 csum 0 mca)

unfoldable pub mld1_send_report : Env → ℕ → In6Addr → World → World
mld1_send_report e p mca w =
    let linklocal = (int_at w.conf.ints p).linklocal in
    let csum = ipv6_checksum (memory_of (report1_bytes linklocal mca 0)) 0 58 48 24 in
    count_icmp_sent p (sendpacket6 e p (memory_of (report1_bytes linklocal mca csum)) 72 w)
