-- ===== src/Mld/Listen/ReportWrites.antt =====
-- What a whole version 2 report does to the subscriptions, in `l4_ipv6_icmpv6_mld2_report` of
-- src/ecmh.c, as the last of the writes that its bytes ask for.
use ecmh.Prelude.{
  ℕ, zero, suc, ◌+◌, ◌*◌, ◌%◌, ◌≡◌, refl, sym, ap, ◌∙◌, inl, inr, Bool, true, not, ◌&&◌, ◌||◌, ◌==◌,
  ltb, leb, [], arith, Bool-cases, if◌then◌else◌,
}
use ecmh.Addr.{In6Addr, addr_any, is_addr_mc_nodelocal, is_addr_mc_linklocal, addr_at}
use ecmh.Memory.{Memory, ntohs_at}
use ecmh.Groups.Lookup.{HasMemory}
use ecmh.Conf.{World, Env, int_at}
use ecmh.Mld.Quiet.{groups_of}
use ecmh.Mld.Listen.{mld2_report, is_exclude_type, is_known_type, mode_of_all, mode_of_source}
use ecmh.Mld.Listen.Members.{subscribed}
use ecmh.Mld.Listen.Membership.{Membership, refreshed}
use ecmh.Mld.Listen.RecordEffect.{sources_refreshed, record_effect, is_readable, records_effect}
use ecmh.Mld.Listen.ReportEffect.{mld2_report-subscribed}
use ecmh.Mld.Listen.Writes.{
  record_writes, report_writes, entry_after, entry_after-append, entry_after-none,
  refreshed-write_of, sources-writes,
}

-- The record types by their number.
is_exclude_type-even : (t : ℕ) → is_known_type t ≡ true → is_exclude_type t ≡ (t % 2 == 0)
is_exclude_type-even t h = ground arith

mode_of_source-even :
    (t : ℕ) → is_known_type t ≡ true → mode_of_source t ≡ (if t % 2 == 0 then 2 else 1)
mode_of_source-even t h = rw (is_exclude_type-even t h) refl

mode_of_all-even :
    (t : ℕ) → is_known_type t ≡ true → mode_of_all t ≡ (if not (t % 2 == 0) then 2 else 1)
mode_of_all-even t h =
    rw (is_exclude_type-even t h)
      (elim (Bool-cases (t % 2 == 0)) [ inl e ↦ rw e refl | inr e ↦ rw e refl ])

is_readable-lem :
    (mem : Memory) (stop grec : ℕ)
    → let n = ntohs_at mem (grec + 2) in
      is_readable mem stop grec ≡ (
        leb grec stop
        && (leb 1 (mem grec) && (leb (mem grec) 6 && (n == 0 || leb (grec + 20 + n * 16) stop))))
is_readable-lem mem stop grec = ground arith

is_readable-known :
    (mem : Memory) (stop grec : ℕ)
    → is_readable mem stop grec ≡ true
    → is_known_type (mem grec) ≡ true
is_readable-known mem stop grec h = ground arith

module _ (now at : ℕ) (k : In6Addr) (i : ℕ) (j : In6Addr) where
  record_effect-writes :
      (mem : Memory) (grec : ℕ) (m : Membership)
      → is_known_type (mem grec) ≡ true
      → record_effect now at mem grec m k i j
        ≡ entry_after now at (record_writes mem grec) k i j (m k i j)
  unfolding record_writes
  record_effect-writes mem grec m h =
      let group = addr_at mem (grec + 4) in
      let n = ntohs_at mem (grec + 2) in
      let exclude : Bool = mem grec % 2 == 0 in
      elim (Bool-cases (is_addr_mc_nodelocal group || is_addr_mc_linklocal group)) [
        | inl local ↦ rw local (sym (entry_after-none now at k i j (m k i j)))
        | inr wide ↦ elim (Bool-cases (n == 0)) [
          | inl all ↦
              rw (wide, all)
                (ap (λ mode. refreshed now group at addr_any mode m k i j)
                    (mode_of_all-even (mem grec) h)
                  ∙ refreshed-write_of now at k i j (not exclude) group addr_any m)
          | inr some_source ↦
              rw (wide, some_source)
                (ap (λ mode. sources_refreshed now at mem (grec + 20) n mode group m k i j)
                    (mode_of_source-even (mem grec) h)
                  ∙ sources-writes now at k i j exclude mem (grec + 20) n group m)
        ]
      ]

  records_effect-writes :
      (n : ℕ) (mem : Memory) (stop grec : ℕ) (m : Membership)
      → records_effect now at n mem stop grec m k i j
        ≡ entry_after now at (report_writes n mem stop grec) k i j (m k i j)
  unfolding records_effect report_writes
  records_effect-writes zero mem stop grec m = sym (entry_after-none now at k i j (m k i j))
  records_effect-writes (suc n) mem stop grec m =
      let next = grec + 20 + ntohs_at mem (grec + 2) * 16 + mem (grec + 1) in
      let first = record_writes mem grec in
      let rest = report_writes n mem stop next in
      let same = is_readable-lem mem stop grec in
      elim (Bool-cases (is_readable mem stop grec)) [
        | inr stopped ↦
            rw (stopped, sym same ∙ stopped) (sym (entry_after-none now at k i j (m k i j)))
        | inl readable ↦
            rw (readable, sym same ∙ readable)
              (records_effect-writes n mem stop next (record_effect now at mem grec m)
                ∙ ap (entry_after now at rest k i j)
                    (record_effect-writes mem grec m (is_readable-known mem stop grec readable))
                ∙ sym (entry_after-append now at k i j first rest (m k i j)))
      ]

-- With memory at hand, after a version 2 report that is long enough for its records, each
-- subscription of the interface that the report came in on is the one that its bytes write last for
-- the group and the source, refreshed now, and all others are as they were. The bytes write for each
-- record with a known type, in turn, up to the first one that cannot be read, if its group is
-- neither node-local nor link-local: to exclude or include each source by the type of the record, or
-- all sources if there is none in a record that excludes. To exclude all sources is to write
-- nothing. A report that is too short writes nothing.
pub mld2_report-entry_after :
    (e : Env) (p : ℕ) (mem : Memory) (off plen : ℕ) (w : World) (k : In6Addr) (i : ℕ) (j : In6Addr)
    → ((c n : ℕ) → HasMemory (e.alloc c n))
    → let n = ntohs_at mem (off + 6) in
      subscribed (groups_of (mld2_report e p mem off plen w)) k i j
      ≡ entry_after e.now
          (int_at w.conf.ints p).ifindex
          (if ltb plen (8 + n * 20) then [] else report_writes n mem (off + plen) (off + 8))
          k
          i
          j
          (subscribed (groups_of w) k i j)
mld2_report-entry_after e p mem off plen w k i j m =
    let at = (int_at w.conf.ints p).ifindex in
    let n = ntohs_at mem (off + 6) in
    let before = subscribed (groups_of w) in
    ap (λ (x : Membership). x k i j) (mld2_report-subscribed e p mem m off plen w)
    ∙ elim (Bool-cases (ltb plen (8 + n * 20))) [
      | inl short ↦ rw short (sym (entry_after-none e.now at k i j (before k i j)))
      | inr fits ↦
          rw fits (records_effect-writes e.now at k i j n mem (off + plen) (off + 8) before)
    ]
