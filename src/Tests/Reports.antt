-- ===== src/Tests/Reports.antt =====
-- The theorems on version 2 reports of src/ecmh.c at a concrete report.
use ecmh.Prelude.{ℕ, ◌+◌, ◌≡◌, ◌++◌, true, none, [], ◌∷◌, pos, refl, arith}
use ecmh.Conf.{Frame, World, int_zero}
use ecmh.Groups.{GroupNode}
use ecmh.Mld.Report2.{mld2_send_report}
use ecmh.Mld.Overrun.{mld2_send_report-overrun}
use ecmh.Mld.Query.{mld_send_query}
use ecmh.Mld.Report1.{mld1_send_report}
use ecmh.Mld.Sent.{Verifies, mld1_send_report-Verifies, mld_send_query-Verifies}
use ecmh.Addr.{addr_any}
use ecmh.Memory.{memory_of, addr_bytes}
use ecmh.Mld.Quiet.{groups_of}
use ecmh.Mld.Listen.{mld2_report}
use ecmh.Mld.Listen.Members.{subscribed}
use ecmh.Mld.Listen.Writes.{entry_after, report_writes}
use ecmh.Mld.Listen.ReportWrites.{mld2_report-entry_after}
use ecmh.Mld.Listen.Entries.{Entry}
use ecmh.Mld.Listen.Isolation.{mld2_report-Entry}
use ecmh.Tests.{site_group, site, eth, calm, registry, network}
use ecmh.Tests.Registry.{full-HasMemory, scarce, report2}

mld2_report-entry_after_example :
    subscribed
      (groups_of (mld2_report calm 1 report2 48 28 (network (registry 900))))
      site_group
      1
      addr_any
    ≡ entry_after 1000 1
        (report_writes 1 report2 (48 + 28) (48 + 8))
        site_group
        1
        addr_any
        (subscribed (registry 900) site_group 1 addr_any)
unfolding addr_bytes
mld2_report-entry_after_example =
    mld2_report-entry_after calm 1 report2 48 28 (network (registry 900)) site_group 1 addr_any
      (λ k n. full-HasMemory)

mld2_report-Entry_example :
    Entry 1000 1 site_group 1 addr_any (subscribed (registry 900) site_group 1 addr_any) (
      subscribed
        (groups_of (mld2_report scarce 1 report2 48 28 (network (registry 900))))
        site_group
        1
        addr_any)
mld2_report-Entry_example =
    mld2_report-Entry scarce 1 report2 48 28 (network (registry 900)) site_group 1 addr_any

mld1_send_report-Verifies_example :
    (f : Frame) × ((mld1_send_report calm 1 site_group (network (registry 900))).wire
      ≡ [] ++ f ∷ [])
    × (f.ifindex ≡ 1)
    × (memory_of f.bytes 48 ≡ 131)
    × Verifies f 24
mld1_send_report-Verifies_example =
    mld1_send_report-Verifies calm 1 site_group (network (registry 900))

mld_send_query-Verifies_example :
    (f : Frame) × ((mld_send_query calm 2 site_group (network (registry 900))).wire ≡ [] ++ f ∷ [])
    × (f.ifindex ≡ 2)
    × (memory_of f.bytes 48 ≡ 130)
    × Verifies f 28
mld_send_query-Verifies_example =
    mld_send_query-Verifies calm 2 site_group (network (registry 900)) refl

-- Four groups with a listener on interface 2, and an MTU of 116 on interface 1: a packet of 136
-- bytes is longer than that.
abbrev group_at : ℕ → GroupNode
group_at k = record (site 900) { mca = site_group + k }

abbrev crowd : World
crowd =
    let w = network (record {
      items = group_at 0 ∷ (group_at 1 ∷ (group_at 2 ∷ (group_at 3 ∷ [])));
      count = pos 4;
    }) in
    record w {
      conf = record w.conf { ints = int_zero ∷ (record (eth 1) { mtu = 116 } ∷ (eth 2 ∷ [])) };
    }

mld2_send_report-overrun_example : (mld2_send_report calm 1 none crowd).overrun ≡ true
mld2_send_report-overrun_example =
    mld2_send_report-overrun calm 1 none crowd refl (omega arith)
      ((((refl, tt), tt)), ((((refl, tt), tt)), ((((refl, tt), tt)), ((((refl, tt), tt)), tt))))
