-- ===== src/Tests/Packets.antt =====
-- The theorems on packets and interfaces at concrete inputs.
use ecmh.Prelude.{[], ◌∷◌, if◌then◌else◌, zero, suc, ◌+◌, ◌%◌, ◌≡◌, refl, arith}
use ecmh.Memory.{Memory, memory_of}
use ecmh.Addr.{addr_at}
use ecmh.Checksum.Bounds.{covered_sum}
use ecmh.Groups.Lookup.{grpint_at}
use ecmh.Interfaces.{int_find, int_create}
use ecmh.Interfaces.Laws.{int_find-int_create, hear_all, hear_all-mld_version}
use ecmh.Input.{walk, with_checksum, l4_ipv6_icmpv6}
use ecmh.Input.Headers.{IsPlaced, walk-IsPlaced}
use ecmh.Input.Stored.{with_checksum-verifies}
use ecmh.Input.Unchecked.{with_stored, l4_ipv6_icmpv6-with_stored}
use ecmh.Forward.{l4_ipv6_multicast}
use ecmh.Forward.Delivery.{count_on, is_routed, deliveries, is_found, l4_ipv6_multicast-deliveries}
use ecmh.Forward.Laws.{IsIndexed}
use ecmh.Send.{ip6_header}
use ecmh.Tests.{site_group, speaker, calm, eth, registry, network}
use ecmh.Tests.Registry.{registry-IsRegistry}

-- The bytes of this memory count up.
abbrev counting : Memory
counting k = k % 256

-- A UDP packet from `speaker` to `site_group` with a hop limit of 9.
abbrev datagram : Memory
datagram = memory_of (ip6_header 8 17 9 speaker site_group)

walk-IsPlaced_example : IsPlaced datagram 48 17 40 (walk 49 datagram 48 17 40 8)
walk-IsPlaced_example = walk-IsPlaced datagram 48 17 8

l4_ipv6_icmpv6-with_stored_example :
    l4_ipv6_icmpv6 calm 1 (with_stored datagram 40 222 173) 48 40 8 (network (registry 900))
    ≡ l4_ipv6_icmpv6 calm 1 datagram 48 40 8 (network (registry 900))
l4_ipv6_icmpv6-with_stored_example =
    l4_ipv6_icmpv6-with_stored calm 1 datagram 48 40 8 222 173 (network (registry 900))

network-IsIndexed : IsIndexed (network (registry 900))
network-IsIndexed zero h = absurd (h refl)
network-IsIndexed (suc zero) h = refl
network-IsIndexed (suc (suc zero)) h = refl
network-IsIndexed (suc (suc (suc k))) h = absurd (h refl)

int_find-int_create_example :
    int_find (int_create calm 7 (network (registry 900))).1.conf 7
    ≡ (int_create calm 7 (network (registry 900))).0
int_find-int_create_example = int_find-int_create calm 7 (network (registry 900)) (omega arith) refl

hear_all-mld_version_example :
    (hear_all
      (network (registry 900)).conf
      ((1000, 1) ∷ (2000, 2) ∷ (3000, 1) ∷ [])
      (record (eth 2) { mld_version = 2 })).mld_version
    ≡ 2
hear_all-mld_version_example =
    hear_all-mld_version (network (registry 900)).conf ((1000, 1) ∷ (2000, 2) ∷ (3000, 1) ∷ [])
      (record (eth 2) { mld_version = 2 }) refl refl

-- The datagram goes out on interface 2 once.
l4_ipv6_multicast-deliveries_example :
    count_on 2 (l4_ipv6_multicast calm 1 datagram 48 (network (registry 900))).wire
    ≡ 0
      + (if is_routed (addr_at datagram 8) (addr_at datagram 24)
          then deliveries 1
              (addr_at datagram 8)
              (is_found (int_find (network (registry 900)).conf 2))
              2
              (grpint_at (registry 900) (addr_at datagram 24) 2)
          else 0)
l4_ipv6_multicast-deliveries_example =
    l4_ipv6_multicast-deliveries calm 1 2 datagram 48 (network (registry 900)) network-IsIndexed
      registry-IsRegistry

with_checksum-verifies_example : covered_sum (with_checksum counting 40 25) 0 58 40 25 % 65535 ≡ 0
with_checksum-verifies_example =
    with_checksum-verifies counting 40 25 (λ k. omega arith) (omega arith) (omega arith)
      (omega arith)
